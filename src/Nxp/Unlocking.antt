-- ===== src/Nxp/Unlocking.antt =====
-- `app_nxp_unlock`: what it hands out, and how often it presents the PIN.
use oskey_firmware.Prelude.{
  ℕ, suc, ◌+◌, ◌≤◌, ◌≡◌, refl, Bool, true, false, ◌&&◌, Option, none, some, List, ◌++◌, arith, ◌==◌,
  length, drop,
}
use oskey_firmware.Nxp.Device.{
  Result, pin_rejected, is_ok, Vendor, Sent, Device, pin_id, seed_id, salt_id, close, open_device,
  exists_object, read_object, authenticate,
}
use oskey_firmware.Nxp.Store.{
  Store, Crypto, blank_seed, nxp_wipe, scan_objects, scan, unlock_read, unlock_authenticate,
  unlock_ready, unlock_with, credential_of, unlock_body, ready, auth_rejected, unlock,
}
use oskey_firmware.Nxp.Sent.{
  count, IgnoresScan, open_device-none, exists_object-none, read_object-none, authenticate-count,
}

-- The command that presents the PIN.
abbrev pub is_verify : Sent → Bool
is_verify e = e.ins == 4 && e.p2 == 0x2c

is_verify-IgnoresScan : {W : Type 0} (v : Vendor W) → IgnoresScan v is_verify
is_verify-IgnoresScan v = record { version = λ a. refl; presence_of = λ a id. refl }

module _ {W : Type 0} (v : Vendor W) where
  close-log : (d : Device W) → (close v d).log ≡ d.log
  unfolding close
  close-log d = refl

module _ {W : Type 0} (v : Vendor W) (crypto : Crypto W) where
  scan_objects-verifies :
      (s : Store W)
      → count is_verify (scan_objects v crypto s).1.device.log ≤ count is_verify s.device.log
  unfolding scan_objects
  scan_objects-verifies s =
      let i = is_verify-IgnoresScan v in
      let d1 = (exists_object v pin_id s.device).1 in
      let d2 = (exists_object v seed_id d1).1 in
      ground (
        arith,
        exists_object-none v is_verify pin_id s.device i,
        exists_object-none v is_verify seed_id d1 i,
        exists_object-none v is_verify salt_id d2 i,
      )

  scan-verifies :
      (s : Store W) → count is_verify (scan v crypto s).1.device.log ≤ count is_verify s.device.log
  unfolding scan
  scan-verifies s =
      let d = (open_device v s.device).1 in
      ground (
        arith,
        open_device-none v is_verify s.device (is_verify-IgnoresScan v),
        scan_objects-verifies (record s { device = d }),
      )

  unlock_read-verifies :
      (buffer : List ℕ) (s : Store W)
      → count is_verify (unlock_read v crypto buffer s).2.device.log ≤ count is_verify s.device.log
  unfolding unlock_read
  unlock_read-verifies buffer s =
      ground (arith, read_object-none v is_verify seed_id 64 s.device refl)

  unlock_authenticate-verifies :
      (credential buffer : List ℕ) (s : Store W)
      → count is_verify (unlock_authenticate v crypto credential buffer s).2.device.log
        ≤ suc (count is_verify s.device.log)
  unfolding unlock_authenticate
  unlock_authenticate-verifies credential buffer s =
      let d = (authenticate v pin_id credential s.device).1 in
      ground (
        arith,
        authenticate-count v is_verify pin_id credential s.device refl,
        unlock_read-verifies buffer (record s { device = d }),
      )

  unlock_with-verifies :
      (credential : Option (List ℕ)) (buffer : List ℕ) (s : Store W)
      → count is_verify (unlock_with v crypto credential buffer s).2.device.log
        ≤ suc (count is_verify s.device.log)
  unfolding unlock_with
  unlock_with-verifies none buffer s = omega arith
  unlock_with-verifies (some c) buffer s = unlock_authenticate-verifies c buffer s

  unlock_ready-verifies :
      (pin_key buffer : List ℕ) (s : Store W)
      → count is_verify (unlock_ready v crypto pin_key buffer s).2.device.log
        ≤ suc (count is_verify s.device.log)
  unfolding unlock_ready
  unlock_ready-verifies pin_key buffer s =
      let (salt, d) = read_object v salt_id 16 s.device in
      ground (
        arith,
        read_object-none v is_verify salt_id 16 s.device refl,
        unlock_with-verifies (credential_of v crypto pin_key salt) buffer (record s { device = d }),
      )

  unlock_body-verifies :
      (pin_key buffer : List ℕ) (s : Store W)
      → count is_verify (unlock_body v crypto pin_key buffer s).2.device.log
        ≤ suc (count is_verify s.device.log)
  unfolding unlock_body
  unlock_body-verifies pin_key buffer s =
      let t = (scan v crypto s).1 in
      ground (arith, scan-verifies s, unlock_ready-verifies pin_key buffer t)

  -- One call of `app_nxp_unlock` presents the PIN to the chip at most once, whatever the chip, the
  -- bus and the crypto library answer.
  pub unlock_verifies_once :
      (pin_key seed : Option (List ℕ)) (s : Store W)
      → count is_verify (unlock v crypto pin_key seed s).2.device.log
        ≤ suc (count is_verify s.device.log)
  unfolding unlock
  unlock_verifies_once pin_key none s = omega arith
  unlock_verifies_once none (some buffer) s = omega arith
  unlock_verifies_once (some key) (some buffer) s =
      let r = unlock_body v crypto key (nxp_wipe 64 buffer) s in
      rw (close-log v r.2.device) (unlock_body-verifies key (nxp_wipe 64 buffer) s)

  -- What `app_nxp_unlock` has at `done`: a success holds the seed in place of the buffer's first 64
  -- bytes, with the store ready, and the PIN is rejected only in the state that says so.
  pub record IsSettled (rest : List ℕ) (r : Result × List ℕ × Store W) : Type 0 where
    pub bytes_sized : length r.1 ≡ 64 + length rest
    pub rest_kept : drop 64 r.1 ≡ rest
    pub success : is_ok r.0 ≡ true → r.2.state ≡ ready
    pub rejection : r.0 ≡ pin_rejected → r.2.state ≡ auth_rejected

  -- A result of `app_nxp_unlock` into a buffer: a failure, with its first 64 bytes wiped, or a
  -- success with 64 bytes of seed there, and the store ready. What is behind them is kept, and a
  -- rejected PIN is what the state says then.
  pub record IsHandedOut (rest : List ℕ) (r : Result × Option (List ℕ) × Store W) : Type 0 where
    pub bytes : List ℕ
    pub handed : r.1 ≡ some (bytes ++ rest)
    pub bytes_sized : length bytes ≡ 64
    pub wiped : is_ok r.0 ≡ false → bytes ≡ blank_seed
    pub success : is_ok r.0 ≡ true → r.2.state ≡ ready
    pub rejection : r.0 ≡ pin_rejected → r.2.state ≡ auth_rejected
