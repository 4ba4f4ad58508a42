-- ===== src/Fido/Tests.antt =====
-- A FIDO2 request that first gets the result of an earlier one.
use oskey_firmware.Prelude.{
  ℕ, ◌≡◌, ◌≢◌, ◌⊎◌, refl, true, some, List, [], ◌∷◌, eagain, value, fail, ebusy,
}
use oskey_firmware.Bus.Payload.{payload_length, payload_read}
use oskey_firmware.Bus.Queues.{FidoResult, fido_success, fido_sign}
use oskey_firmware.Fido.Request.{
  Sizes, Fido, Arrivals, request_id_next, result_valid, response_of, answer, wait_result, request,
}
use oskey_firmware.Fido.Requests.{IsEnded, request_outcome}

abbrev small : Sizes
small = record { credential_id_size = 4; signature_size = 8; key_size = 8 }

abbrev idle : Fido
idle = record { active = 0; sequence = 6; released = []; cancelled_ids = [] }

abbrev result_for : ℕ → List ℕ → FidoResult
result_for id bytes = record {
  request_id = id;
  credential_id_len = 1;
  status = fido_success;
  payload = some (bytes ∷ []);
}

abbrev late_then_own : Arrivals
late_then_own = record {
  submitted = value 0;
  results = result_for 5 (9 ∷ 9 ∷ []) ∷ result_for 7 (1 ∷ 2 ∷ 3 ∷ []) ∷ [];
  stop = eagain;
}

request_test :
    ((request small fido_sign true late_then_own idle).0 ≡ value 0)
    × ((request small fido_sign true late_then_own idle).1.bytes ≡ 2 ∷ 3 ∷ [])
unfolding request wait_result answer response_of result_valid request_id_next payload_length
    payload_read
request_test = (refl, refl)

request_outcome_example :
    let r = request small fido_sign true late_then_own idle in
    ((idle.active ≢ 0) × (r.0 ≡ fail ebusy) × (r.2.active ≡ 0))
    ⊎ ((idle.active ≡ 0) × IsEnded small fido_sign true late_then_own idle)
request_outcome_example = request_outcome small fido_sign true late_then_own idle
