-- ===== src/Core/Effects.antt =====
-- core.c: the snapshot of the confirmation, the routing of effects and the loop around them.
use oskey_firmware.Prelude.{
  ℕ, zero, suc, Bool, true, false, not, ◌&&◌, ◌||◌, Option, none, some, List, [], ◌==◌,
  if◌then◌else◌, Code, fail, einval, emsgsize, enotsup, is_fail, is_zero, is_some,
}
use oskey_firmware.Bus.Payload.{Fragments, payload_slices}
use oskey_firmware.Bus.Queues.{
  Transport, uart_transport, bluetooth_transport, Route, LocalAction, local_error, FidoStatus,
  fido_failed, Command, CommandKind, local_command, fido_command, confirm_command, reject,
  zero_command,
}

-- `enum ConfirmationOutcome`, `enum app_confirmation_phase` and `enum WalletState`
pub data Outcome : Type 0 where
  approved rejected cancelled : Outcome

pub data Phase : Type 0 where
  idle_phase required completed : Phase

pub data WalletState : Type 0 where
  wallet_disabled wallet_setup wallet_locked wallet_ready wallet_busy : WalletState

pub data EffectKind : Type 0 where
  transport_effect local_effect fido_effect confirmation_required confirmation_completed
        wallet_effect :
      EffectKind

-- `AppCoreEffectView`; a slice by its bytes.
pub record Effect : Type 0 where
  pub kind : EffectKind
  pub route : Route
  pub local_action : LocalAction
  pub error : ℕ
  pub outcome : Outcome
  pub wallet_state : WalletState
  pub id : ℕ
  pub request_id : ℕ
  pub number : ℕ
  pub fido_status : FidoStatus
  pub bytes : List ℕ
  pub auxiliary : List ℕ

-- `AppConfirmation`, of which core.c reads the number: zero for none, with the rest as `C`.
pub record Confirmation (C : Type 0) : Type 0 where
  pub id : ℕ
  pub text : C

-- What core.c calls, over the state `W` of all of it: the Rust core (the confirmation with a number
-- as it fits the snapshot, the next effect, the execution of a command), the two transports, the
-- queues of results, the two channels, and `memset`'s blank confirmation.
pub record Ports (W C : Type 0) : Type 0 where
  pub blank_text : C
  pub confirmation_of : ℕ → W → Option (Confirmation C)
  pub next_effect : W → Option Effect × W
  pub execute : Command → List (List ℕ) → W → Bool × W
  pub uart_send : List ℕ → W → Code × W
  pub bluetooth_send : ℕ → List ℕ → W → Code × W
  pub put_local_result : LocalAction → ℕ → ℕ → List ℕ → W → Code × W
  pub put_fido_result : ℕ → FidoStatus → List ℕ → List ℕ → W → Code × W
  pub publish_confirmation : ℕ → Phase → Outcome → W → Code × W
  pub publish_wallet : WalletState → W → Code × W
  pub release_payload : Option Fragments → W → W
  pub has_display : Bool
  pub has_fido : Bool
  pub payload_count : ℕ

-- The snapshot `confirmation`, and the state of the rest.
pub record Core (W C : Type 0) : Type 0 where
  pub confirmation : Confirmation C
  pub world : W

module _ {W C : Type 0} (ports : Ports W C) where
  abbrev pub no_confirmation : Confirmation C
  no_confirmation = record { id = 0; text = ports.blank_text }

  -- `publish_confirmation_state`
  unfoldable pub publish_state : ℕ → Phase → Outcome → Core W C → Code × Core W C
  publish_state id phase outcome s =
      let (rc, w) = ports.publish_confirmation id phase outcome s.world in
      if id == 0 then (fail einval, s) else (rc, record s { world = w })

  -- `confirmation_store`
  unfoldable pub confirmation_store : ℕ → Core W C → Bool × Core W C
  confirmation_store id s = elim (ports.confirmation_of id s.world) [
    | none ↦ (false, record s { confirmation = no_confirmation })
    | some c ↦ (true, record s { confirmation = c })
  ]

  -- `confirmation_clear`
  unfoldable pub confirmation_clear : ℕ → Core W C → Core W C
  confirmation_clear id s =
      if s.confirmation.id == id then record s { confirmation = no_confirmation } else s

  -- `app_core_confirmation_get`; `has_result` is whether the caller gave a place for it.
  unfoldable pub confirmation_get : ℕ → Bool → Core W C → Option (Confirmation C)
  confirmation_get id has_result s =
      if id == 0 || not has_result
      then none
      else if s.confirmation.id == id
      then some s.confirmation
      else none

  abbrev pub reaches : Code × W → Core W C → Code × Core W C
  reaches (rc, w) s = (rc, record s { world = w })

  abbrev pub route_transport : Transport → Effect → Core W C → Code × Core W C
  route_transport uart_transport e s = reaches (ports.uart_send e.bytes s.world) s
  route_transport bluetooth_transport e s =
      reaches (ports.bluetooth_send e.route.session_id e.bytes s.world) s

  -- The case `ConfirmationRequired` of `route_effect`.
  unfoldable pub route_required : ℕ → Core W C → Code × Core W C
  unfolding confirmation_store publish_state
  route_required id s =
      let (stored, t) = confirmation_store id s in
      if stored then publish_state id required cancelled t else (fail emsgsize, t)

  -- The case `ConfirmationCompleted` of `route_effect`.
  unfoldable pub route_completed : ℕ → Outcome → Core W C → Code × Core W C
  unfolding publish_state confirmation_clear
  route_completed id outcome s =
      let (rc, t) = publish_state id completed outcome s in
      (rc, if is_zero rc then confirmation_clear id t else t)

  -- `route_effect`
  unfoldable pub route_effect : EffectKind → Effect → Core W C → Code × Core W C
  unfolding route_required route_completed
  route_effect transport_effect e s = route_transport e.route.transport e s
  route_effect local_effect e s =
      if ports.has_display
      then reaches (ports.put_local_result e.local_action e.error e.number e.bytes s.world) s
      else (fail enotsup, s)
  route_effect fido_effect e s =
      if ports.has_fido
      then reaches (ports.put_fido_result e.request_id e.fido_status e.bytes e.auxiliary s.world) s
      else (fail enotsup, s)
  route_effect confirmation_required e s = route_required e.id s
  route_effect confirmation_completed e s = route_completed e.id e.outcome s
  route_effect wallet_effect e s = reaches (ports.publish_wallet e.wallet_state s.world) s

  abbrev pub is_required : EffectKind → Bool
  is_required confirmation_required = true
  is_required _ = false

  -- One turn of `drain_effects`: the number to reject, and the state.
  unfoldable pub drain_step : Effect → ℕ → Core W C → ℕ × Core W C
  unfolding route_effect confirmation_clear
  drain_step e refused s =
      let (rc, t) = route_effect e.kind e s in
      if is_fail rc && is_required e.kind then (e.id, confirmation_clear e.id t) else (refused, t)

  -- `drain_effects` over at most `fuel` effects; `none` if there are more.
  unfoldable pub drain_effects : ℕ → ℕ → Core W C → Option (ℕ × Core W C)
  unfolding drain_step
  drain_effects zero refused s = none
  drain_effects (suc fuel) refused s =
      let (effect, w) = ports.next_effect s.world in
      elim effect [
        | none ↦ some (refused, record s { world = w })
        | some e ↦
            let (q, u) = drain_step e refused (record s { world = w }) in drain_effects fuel q u
      ]

  abbrev pub reject_command : ℕ → Command
  reject_command id = record zero_command {
    kind = confirm_command;
    choice = reject;
    request_id = id;
  }

  -- `reject_unpublished_confirmation`, over at most `fuel` rejections; `none` if there are more, or
  -- if a drain among them has more than `drain_fuel` effects.
  unfoldable pub reject_unpublished : ℕ → ℕ → ℕ → Core W C → Option (Core W C)
  reject_unpublished zero drain_fuel id s = none
  reject_unpublished (suc fuel) drain_fuel id s =
      let (ok, w) = ports.execute (reject_command id) [] s.world in
      if id == 0
      then some s
      else if not ok
      then some (record s { world = w })
      else elim (drain_effects drain_fuel 0 (record s { world = w })) [
        | none ↦ none
        | some (next, t) ↦ reject_unpublished fuel drain_fuel next t
      ]

  -- The answer to a command that the core did not run.
  abbrev pub answer_refused : CommandKind → Command → W → W
  answer_refused local_command m w =
      if ports.has_display then (ports.put_local_result local_error 1 0 [] w).1 else w
  answer_refused fido_command m w =
      if ports.has_fido then (ports.put_fido_result m.request_id fido_failed [] [] w).1 else w
  answer_refused _ m w = w

  abbrev pub has_none : {A : Type 0} → List A → Bool
  has_none [] = true
  has_none _ = false

  -- `execute`
  unfoldable pub execute_command : ℕ → ℕ → Command → Core W C → Option (Core W C)
  execute_command fuel drain_fuel m s =
      let slices = payload_slices m.payload ports.payload_count in
      let (executed, w) = ports.execute m slices s.world in
      let released = ports.release_payload m.payload w in
      if is_some m.payload && has_none slices
      then some (record s { world = ports.release_payload m.payload s.world })
      else if not executed
      then some (record s { world = answer_refused m.kind m released })
      else elim (drain_effects drain_fuel 0 (record s { world = released })) [
        | none ↦ none
        | some (id, t) ↦ reject_unpublished fuel drain_fuel id t
      ]
