-- ===== src/Nxp/Store.antt =====
-- security/nxp/store.c: the encrypted store of the seed, over the device; with host_crypto_psa.c's
-- `nxp_pin_credential`. `credentials.c` is the field `provisioned` of the vendor's record.
use oskey_firmware.Prelude.{
  ℕ, Bool, true, false, not, ◌&&◌, ◌||◌, Option, none, some, List, [], ◌∷◌, ◌++◌, ◌==◌,
  if◌then◌else◌, length, take, drop, replicate,
}
use oskey_firmware.Nxp.Device.{
  Result, nxp_ok, nxp_error, pin_rejected, credentials_missing, is_ok, Vendor, Device, pin_id,
  seed_id, salt_id, PolicyBits, close, open_device, exists_object, read_object, write_object,
  create_user, authenticate, reset_auth, delete_all,
}

-- `enum nxp_state`
pub data State : Type 0 where
  unconfigured unavailable empty ready auth_rejected incomplete : State

abbrev pub is_empty : State → Bool
is_empty empty = true
is_empty _ = false

abbrev pub is_ready : State → Bool
is_ready ready = true
is_ready _ = false

abbrev pub is_incomplete : State → Bool
is_incomplete incomplete = true
is_incomplete _ = false

-- The static variables of store.c, with those of the device.
pub record Store (W : Type 0) : Type 0 where
  pub state : State
  pub scanned : Bool
  pub device : Device W

-- The domain "OSKEY/A5000/PIN/V1" in front of the salt.
abbrev pub pin_domain : List ℕ
pin_domain =
    0x4f ∷ 0x53 ∷ 0x4b ∷ 0x45 ∷ 0x59 ∷ 0x2f ∷ 0x41 ∷ 0x35 ∷ 0x30 ∷ 0x30 ∷ 0x30 ∷ 0x2f ∷ 0x50 ∷ 0x49
    ∷ 0x4e ∷ 0x2f ∷ 0x56 ∷ 0x31 ∷ []

-- What store.c calls outside: the HMAC-SHA-256 of PSA (`none` when the import or the computation
-- fails) and its random bytes, and the policy bits of the vendor's header.
pub record Crypto (W : Type 0) : Type 0 where
  pub hmac : List ℕ → List ℕ → Option (List ℕ)
  pub random : ℕ → W → Option (List ℕ) × W
  pub policy_bits : PolicyBits

unfoldable pub pin_credential : {W : Type 0} → Crypto W → List ℕ → List ℕ → Option (List ℕ)
pin_credential crypto pin_key salt = elim (crypto.hmac pin_key (pin_domain ++ salt)) [
  | none ↦ none
  | some digest ↦ if length digest == 32 then some (take 16 digest) else none
]

abbrev pub classify : Bool → Bool → Bool → State
classify pin seed salt =
    if not pin && not seed && not salt
    then empty
    else if pin && seed && salt
    then ready
    else incomplete

-- `diff` of `app_nxp_initialize` is zero.
abbrev pub same_bytes : List ℕ → List ℕ → Bool
same_bytes [] [] = true
same_bytes (x ∷ xs) (y ∷ ys) = x == y && same_bytes xs ys
same_bytes _ _ = false

abbrev pub blank_seed : List ℕ
blank_seed = replicate 64 0

-- `nxp_wipe` of the first `len` bytes of a buffer.
abbrev pub nxp_wipe : ℕ → List ℕ → List ℕ
nxp_wipe len buffer = replicate len 0 ++ drop len buffer

-- What `nxp_device_read` of `len` bytes leaves in its caller's buffer: the bytes, or zeros.
abbrev pub filled : ℕ → Option (List ℕ) → List ℕ → List ℕ
filled len none buffer = nxp_wipe len buffer
filled len (some bytes) buffer = bytes ++ drop len buffer

module _ {W : Type 0} (v : Vendor W) (crypto : Crypto W) where
  abbrev pub with_device : Device W → Store W → Store W
  with_device d s = record s { device = d }

  abbrev pub with_state : State → Store W → Store W
  with_state t s = record s { state = t }

  abbrev pub scan_open_state : Result → State
  scan_open_state credentials_missing = unconfigured
  scan_open_state _ = unavailable

  -- The three presence checks of `scan`, in order, each only if the one before succeeded.
  unfoldable pub scan_objects : Store W → Bool × Store W
  scan_objects s =
      let (pin, d1) = exists_object v pin_id s.device in
      let (seed, d2) = exists_object v seed_id d1 in
      let (salt, d3) = exists_object v salt_id d2 in
      elim pin [
        | none ↦ (false, with_state unavailable (with_device d1 s))
        | some p ↦ elim seed [
          | none ↦ (false, with_state unavailable (with_device d2 s))
          | some q ↦ elim salt [
            | none ↦ (false, with_state unavailable (with_device d3 s))
            | some r ↦ (
              not (is_incomplete (classify p q r)),
              with_state (classify p q r) (with_device d3 s),
            )
          ]
        ]
      ]

  -- `scan`: whether it returned NXP_OK.
  unfoldable pub scan : Store W → Bool × Store W
  unfolding scan_objects
  scan s =
      let (rc, d) = open_device v s.device in
      if is_ok rc
      then scan_objects (with_device d s)
      else (false, with_state (scan_open_state rc) (with_device d s))

  -- What every entry point does at its end.
  abbrev pub finish : Store W → Store W
  finish s = record s { scanned = true; device = close v s.device }

  unfoldable pub refresh : Store W → Bool × Store W
  refresh s = let (ok, t) = scan s in (ok, finish t)

  -- `app_nxp_seed_exists`: `none` for NXP_ERROR.
  abbrev pub seed_of_state : State → Option Bool
  seed_of_state empty = some false
  seed_of_state ready = some true
  seed_of_state auth_rejected = some true
  seed_of_state _ = none

  unfoldable pub seed_exists : Store W → Option Bool × Store W
  seed_exists s =
      let (ok, t) = scan s in
      let u = if s.scanned then s else finish t in (seed_of_state u.state, u)

  -- The objects written by `app_nxp_initialize`, the seed read back and compared.
  unfoldable pub initialize_objects : List ℕ → List ℕ → List ℕ → Device W → Bool × Device W
  initialize_objects salt credential seed d =
      let (salted, d1) = write_object v crypto.policy_bits salt_id 0 salt d in
      let (user, d2) = create_user v pin_id credential 10 d1 in
      let (seeded, d3) = write_object v crypto.policy_bits seed_id pin_id (take 64 seed) d2 in
      let (auth, d4) = authenticate v pin_id credential d3 in
      let (check, d5) = read_object v seed_id 64 d4 in
      if not salted
      then (false, d1)
      else if not user
      then (false, d2)
      else if not seeded
      then (false, d3)
      else if not (is_ok auth)
      then (false, d4)
      else elim check [ none ↦ (false, d5) | some bytes ↦ (same_bytes bytes (take 64 seed), d5) ]

  -- The random salt and the credential made with it, on a freshly opened device.
  unfoldable pub initialize_opened : List ℕ → List ℕ → Store W → Bool × Store W
  unfolding initialize_objects
  initialize_opened pin_key seed s =
      let (opened, d) = open_device v s.device in
      let (salt, w) = crypto.random 16 d.outside in
      let after = record d { outside = w } in
      if not (is_ok opened) then (false, with_state unavailable (with_device d s)) else elim salt [
        | none ↦ (false, with_state unavailable (with_device after s))
        | some bytes ↦ elim (pin_credential crypto pin_key bytes) [
          | none ↦ (false, with_state unavailable (with_device after s))
          | some credential ↦
              let (ok, e) = initialize_objects bytes credential seed after in
              (ok, with_state (if ok then ready else incomplete) (with_device e s))
        ]
      ]

  -- `app_nxp_initialize` up to `done`.
  unfoldable pub initialize_body : List ℕ → List ℕ → Store W → Bool × Store W
  initialize_body pin_key seed s =
      let (ok, t) = scan s in
      let (reset, d) = reset_auth v t.device in
      if not ok || not (is_empty t.state)
      then (false, t)
      else if not reset
      then (false, with_state unavailable (with_device d t))
      else initialize_opened pin_key seed (with_device d t)

  -- `app_nxp_initialize`: whether it returned NXP_OK; `none` for NULL.
  unfoldable pub initialize : Option (List ℕ) → Option (List ℕ) → Store W → Bool × Store W
  initialize (some pin_key) (some seed) s =
      let (rc, t) = initialize_body pin_key seed s in (rc, finish t)
  initialize _ _ s = (false, s)

  -- What `app_nxp_unlock` has at `done`: `rc`, the caller's buffer, and the state.
  abbrev pub Unlocked : Type 0
  Unlocked = Result × List ℕ × Store W

  -- The seed read after the only authentication.
  unfoldable pub unlock_read : List ℕ → Store W → Unlocked
  unlock_read buffer s =
      let (seed, d) = read_object v seed_id 64 s.device in
      elim seed [
        | none ↦ (nxp_error, filled 64 none buffer, with_state unavailable (with_device d s))
        | some bytes ↦ (nxp_ok, filled 64 (some bytes) buffer, with_device d s)
      ]

  abbrev pub state_after : Result → State
  state_after pin_rejected = auth_rejected
  state_after _ = unavailable

  unfoldable pub unlock_authenticate : List ℕ → List ℕ → Store W → Unlocked
  unfolding unlock_read
  unlock_authenticate credential buffer s =
      let (rc, d) = authenticate v pin_id credential s.device in
      let after = with_device d s in
      if not (is_ok rc)
      then (rc, buffer, with_state (state_after rc) after)
      else unlock_read buffer after

  unfoldable pub unlock_with : Option (List ℕ) → List ℕ → Store W → Unlocked
  unfolding unlock_authenticate
  unlock_with none buffer s = (nxp_error, buffer, with_state unavailable s)
  unlock_with (some credential) buffer s = unlock_authenticate credential buffer s

  -- The credential, if the salt was read.
  abbrev pub credential_of : List ℕ → Option (List ℕ) → Option (List ℕ)
  credential_of pin_key none = none
  credential_of pin_key (some salt) = pin_credential crypto pin_key salt

  unfoldable pub unlock_ready : List ℕ → List ℕ → Store W → Unlocked
  unfolding unlock_with
  unlock_ready pin_key buffer s =
      let (salt, d) = read_object v salt_id 16 s.device in
      unlock_with (credential_of pin_key salt) buffer (with_device d s)

  -- The end of `app_nxp_unlock`, behind `done`.
  abbrev pub hand_out : Unlocked → Result × Option (List ℕ) × Store W
  hand_out (rc, buffer, s) =
      (rc, some (if is_ok rc then buffer else nxp_wipe 64 buffer), with_device (close v s.device) s)

  -- `app_nxp_unlock` up to `done`.
  unfoldable pub unlock_body : List ℕ → List ℕ → Store W → Unlocked
  unfolding unlock_ready
  unlock_body pin_key buffer s =
      let (ok, t) = scan s in
      if not ok || not (is_ready t.state)
      then (nxp_error, buffer, t)
      else unlock_ready pin_key buffer t

  -- `app_nxp_unlock`: what it returned, the caller's buffer, and the state; `none` for NULL.
  unfoldable pub unlock :
      Option (List ℕ) → Option (List ℕ) → Store W → Result × Option (List ℕ) × Store W
  unfolding unlock_body
  unlock pin_key none s = (nxp_error, none, s)
  unlock none (some buffer) s = (nxp_error, some (nxp_wipe 64 buffer), s)
  unlock (some pin_key) (some buffer) s = hand_out (unlock_body pin_key (nxp_wipe 64 buffer) s)

  -- `app_nxp_erase` up to `done`.
  unfoldable pub erase_body : Store W → Bool × Store W
  erase_body s =
      let (opened, d1) = open_device v s.device in
      let (reset, d2) = reset_auth v d1 in
      let (deleted, d3) = delete_all v d2 in
      let (ok, t) = scan (with_device d3 s) in
      if not (is_ok opened)
      then (false, with_device d1 s)
      else if not reset
      then (false, with_device d2 s)
      else (ok && is_empty t.state, t)

  -- `app_nxp_erase`
  unfoldable pub erase : Store W → Bool × Store W
  erase s = let (rc, t) = erase_body s in (rc, finish (if rc then t else with_state unavailable t))
