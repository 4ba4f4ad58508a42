-- ===== src/Fido/Request.antt =====
-- usb/fido2.c: a request, the wait for its result, and what the authenticator makes of it.
use oskey_firmware.Prelude.{
  ℕ, ◌+◌, ◌-◌, Bool, true, false, not, ◌&&◌, ◌||◌, Option, none, List, [], ◌∷◌, ◌==◌, if◌then◌else◌,
  leb, length, u32, Errno, eagain, Code, value, fail, ebusy, eio, eacces, ecanceled, etimedout,
  enoent, enospc, is_fail, get_elem?,
}
use oskey_firmware.Bus.Payload.{Fragments, payload_length, payload_read}
use oskey_firmware.Bus.Queues.{
  FidoRequest, fido_register, fido_validate, fido_sign, fido_confirm, FidoResult, FidoStatus,
  fido_success, fido_cancelled,
}

-- `struct fido2_response`: the bytes in use of its two buffers.
pub record Response : Type 0 where
  pub credential_id : List ℕ
  pub bytes : List ℕ

abbrev pub no_response : Response
no_response = record { credential_id = []; bytes = [] }

-- The sizes of the buffers, from the FIDO2 library: FIDO2_NON_DISCOVERABLE_CRED_ID_SIZE,
-- FIDO2_ECDSA_SIG_MAX_SIZE and FIDO2_P256_UNCOMPRESSED_KEY_SIZE.
pub record Sizes : Type 0 where
  pub credential_id_size : ℕ
  pub signature_size : ℕ
  pub key_size : ℕ

-- `active_request_id` and `request_sequence`, with two ghosts, newest first: the payloads of results
-- that were released, and the requests whose confirmation was cancelled.
pub record Fido : Type 0 where
  pub active : ℕ
  pub sequence : ℕ
  pub released : List (Option Fragments)
  pub cancelled_ids : List ℕ

-- What happens while a request waits: what the submission of the command returns, the results that
-- `app_fido_result_get` returns before the deadline, in order, and with what it fails after them
-- (-EAGAIN at the deadline).
pub record Arrivals : Type 0 where
  pub submitted : Code
  pub results : List FidoResult
  pub stop : Errno

abbrev pub is_eagain : Errno → Bool
is_eagain eagain = true
is_eagain _ = false

abbrev pub is_confirm : FidoRequest → Bool
is_confirm fido_confirm = true
is_confirm _ = false

abbrev pub is_success : FidoStatus → Bool
is_success fido_success = true
is_success _ = false

-- `request_id_next`: a number that wraps and is never zero.
unfoldable pub request_id_next : Fido → ℕ × Fido
request_id_next s =
    let id = u32 (s.sequence + 1) in
    if id == 0
    then (1, record s { sequence = u32 (s.sequence + 2) })
    else (id, record s { sequence = id })

abbrev pub request_finish : Fido → Fido
request_finish s = record s { active = 0 }

abbrev pub release_result : FidoResult → Fido → Fido
release_result r s = record s { released = r.payload ∷ s.released }

abbrev pub code_of_status : FidoStatus → Code
code_of_status fido_success = value 0
code_of_status fido_cancelled = fail ecanceled
code_of_status _ = fail eacces

module _ (sizes : Sizes) where
  -- Whether the lengths of a result are valid; `wanted` is whether the caller asked for a response.
  abbrev pub data_length : FidoResult → ℕ
  data_length r = payload_length r.payload - r.credential_id_len

  unfoldable pub result_valid : Bool → FidoResult → Bool
  result_valid wanted r =
      leb r.credential_id_len (payload_length r.payload)
      && (not (is_success r.status && wanted)
          || leb r.credential_id_len sizes.credential_id_size
            && leb (data_length r) sizes.signature_size)

  unfoldable pub response_of : Bool → FidoResult → Response
  unfolding result_valid
  response_of wanted r =
      if is_success r.status && wanted && result_valid wanted r
      then record {
        credential_id = payload_read r.payload 0 true r.credential_id_len;
        bytes = payload_read r.payload r.credential_id_len true (data_length r);
      }
      else no_response

  -- The result that carries the number of the request.
  unfoldable pub answer : Bool → FidoResult → Fido → Code × Response × Fido
  unfolding response_of
  answer wanted r s = (
    if result_valid wanted r then code_of_status r.status else fail eio,
    response_of wanted r,
    request_finish (release_result r s),
  )

  -- The loop's end without a result.
  unfoldable pub give_up : FidoRequest → ℕ → Errno → Fido → Code × Response × Fido
  give_up kind id stop s =
      if not (is_eagain stop)
      then (fail stop, no_response, request_finish s)
      else if is_confirm kind
      then (
        fail etimedout,
        no_response,
        request_finish (record s { cancelled_ids = id ∷ s.cancelled_ids }),
      )
      else (fail etimedout, no_response, request_finish s)

  unfoldable pub wait_result :
      FidoRequest → Bool → ℕ → List FidoResult → Errno → Fido → Code × Response × Fido
  wait_result kind wanted id [] stop s = give_up kind id stop s
  wait_result kind wanted id (r ∷ rest) stop s =
      let following = wait_result kind wanted id rest stop (release_result r s) in
      if r.request_id == id then answer wanted r s else following

  -- `request`
  unfoldable pub request : FidoRequest → Bool → Arrivals → Fido → Code × Response × Fido
  request kind wanted a s =
      let (id, t) = request_id_next s in
      let begun = record t { active = id } in
      if not (s.active == 0)
      then (fail ebusy, no_response, t)
      else if is_fail a.submitted
      then (a.submitted, no_response, request_finish begun)
      else wait_result kind wanted id a.results a.stop begun

  abbrev pub is_ok : Code → Bool
  is_ok (value n) = n == 0
  is_ok _ = false

  -- `oskey_fido2_make`: the credential and the public key, for 0.
  unfoldable pub make_credential : Arrivals → Fido → Code × Response × Fido
  make_credential a s =
      let (rc, r, t) = request fido_register true a s in
      if not (is_ok rc)
      then (rc, no_response, t)
      else if not (length r.credential_id == sizes.credential_id_size)
          || not (length r.bytes == sizes.key_size)
      then (fail eio, no_response, t)
      else (rc, r, t)

  abbrev pub not_found : Code → Code
  not_found (fail eacces) = fail enoent
  not_found rc = rc

  -- `oskey_fido2_validate`: the protection level, for 0.
  unfoldable pub validate : Arrivals → Fido → Code × Option ℕ × Fido
  validate a s =
      let (rc, r, t) = request fido_validate true a s in
      if not (is_ok rc)
      then (not_found rc, none, t)
      else if not (length r.bytes == 1)
      then (fail eio, none, t)
      else (rc, get_elem? r.bytes 0, t)

  -- `oskey_fido2_sign` into a buffer of `size` bytes.
  unfoldable pub sign : ℕ → Arrivals → Fido → Code × List ℕ × Fido
  sign size a s =
      let (rc, r, t) = request fido_sign true a s in
      if not (is_ok rc)
      then (rc, [], t)
      else if not (leb (length r.bytes) size)
      then (fail enospc, [], t)
      else (rc, r.bytes, t)

-- `fido2_up_cancel`
unfoldable pub up_cancel : Fido → Fido
up_cancel s = if s.active == 0 then s else record s { cancelled_ids = s.active ∷ s.cancelled_ids }
