-- ===== src/Core/Tests.antt =====
-- The theorems on core.c, with a core that asks for one confirmation.
use oskey_firmware.Prelude.{
  ℕ, suc, zero, ◌≡◌, ◌⊎◌, refl, true, false, Option, none, some, List, [], ◌∷◌, value, fail, enomem,
}
use oskey_firmware.Bus.Queues.{uart_transport, local_ready, fido_success}
use oskey_firmware.Core.Effects.{
  Effect, confirmation_required, cancelled, wallet_setup, Ports, Core, confirmation_get, drain_step,
}
use oskey_firmware.Core.Confirming.{can_show, IsShown, required_outcome}

abbrev asked : Effect
asked = record {
  kind = confirmation_required;
  route = record { transport = uart_transport; session_id = 0 };
  local_action = local_ready;
  error = 0;
  outcome = cancelled;
  wallet_state = wallet_setup;
  id = 3;
  request_id = 0;
  number = 0;
  fido_status = fido_success;
  bytes = [];
  auxiliary = [];
}

abbrev next_of : ℕ → Option Effect × ℕ
next_of zero = (none, zero)
next_of (suc n) = (some asked, n)

-- As many effects are to come as the state says, and no confirmation can be published.
abbrev silent : Ports ℕ (List ℕ)
silent = record {
  blank_text = [];
  confirmation_of = λ id w. some (record { id = id; text = 65 ∷ [] });
  next_effect = next_of;
  execute = λ m slices w. (true, w);
  uart_send = λ bytes w. (value 0, w);
  bluetooth_send = λ n bytes w. (value 0, w);
  put_local_result = λ a e n bytes w. (value 0, w);
  put_fido_result = λ n st bytes more w. (value 0, w);
  publish_confirmation = λ n p o w. (fail enomem, w);
  publish_wallet = λ st w. (value 0, w);
  release_payload = λ p w. w;
  has_display = true;
  has_fido = true;
  payload_count = 8;
}

abbrev start : Core ℕ (List ℕ)
start = record { confirmation = record { id = 0; text = [] }; world = 1 }

-- The same core, where publishing succeeds.
abbrev heard : Ports ℕ (List ℕ)
heard = record silent { publish_confirmation = λ n p o w. (value 0, suc w) }

required_outcome_example :
    let r = drain_step heard asked 0 start in
    ((can_show heard 3 start ≡ true) × (r.0 ≡ 0) × IsShown heard 3 start r.1)
    ⊎ ((can_show heard 3 start ≡ false) × (r.0 ≡ 3) × (confirmation_get heard 3 true r.1 ≡ none))
required_outcome_example = required_outcome heard asked 0 start refl
