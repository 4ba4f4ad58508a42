-- ===== src/Bus/Tests.antt =====
-- Submissions to the queues of bus.c, and its theorems there.
use oskey_firmware.Prelude.{ℕ, ◌≡◌, refl, true, false, [], ◌∷◌, ◌++◌, length, value, fail, eagain}
use oskey_firmware.Bus.Payload.{Kernel, Data, release, append_all, fill, payload_create}
use oskey_firmware.Bus.Queues.{
  Bus, Route, uart_transport, unlock_request, fido_register, approve, local_ready, fido_success,
  queue_put, put_command, submit_with, submit_protocol, submit_local, submit_fido,
  submit_confirmation, submit_local_result, submit_fido_result,
}
use oskey_firmware.Bus.Ownership.{IsBalanced, submits-IsBalanced}

-- A kernel with memory for every payload, as one fragment each, and no room in any queue.
abbrev crowded : Kernel ℕ
crowded = record {
  payload_count = 8;
  payload_size = 128;
  alloc = λ pool w. (true, w);
  append_bytes = λ pool p bytes w. (length bytes, p ++ bytes ∷ [], w);
  unref = λ p w. w;
  has_room = λ w. (false, w);
}

abbrev three_bytes : Data
three_bytes = record { there = true; len = 3; bytes = 1 ∷ 2 ∷ 3 ∷ [] }

abbrev quiet : Bus ℕ
quiet = record {
  core_ready = true;
  commands = [];
  local_results = [];
  fido_results = [];
  held = record { kernel = 0; allocated = 0; released = [] };
}

abbrev route : Route
route = record { transport = uart_transport; session_id = 0 }

-- A payload that finds no room is wiped and given back.
submit_test :
    ((submit_protocol crowded route three_bytes quiet).0 ≡ fail eagain)
    × ((submit_protocol crowded route three_bytes quiet).1.held.released
        ≡ ((0 ∷ 0 ∷ 0 ∷ []) ∷ []) ∷ [])
unfolding submit_protocol submit_with put_command queue_put release payload_create fill append_all
submit_test = (refl, refl)

submits-IsBalanced_example :
    IsBalanced 0 (submit_protocol crowded route three_bytes quiet).1
    × IsBalanced 0 (submit_local crowded unlock_request 5 three_bytes three_bytes quiet).1
    × IsBalanced 0 (submit_fido crowded fido_register 4 5 three_bytes three_bytes quiet).1
    × IsBalanced 0 (submit_confirmation crowded 4 approve quiet).1
    × IsBalanced 0 (submit_local_result crowded local_ready 0 5 three_bytes (value 0) quiet).1
    × IsBalanced 0 (submit_fido_result crowded 4 fido_success three_bytes three_bytes quiet).1
submits-IsBalanced_example =
    submits-IsBalanced crowded route unlock_request fido_register approve local_ready fido_success 4
      5 0 three_bytes three_bytes (value 0) quiet refl
