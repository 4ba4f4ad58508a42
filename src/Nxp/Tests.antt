-- ===== src/Nxp/Tests.antt =====
-- Calls of the encrypted store with a chip that answers, and its theorems there.
use oskey_firmware.Prelude.{
  ℕ, suc, Bool, ◌≤◌, ◌≡◌, refl, true, false, Option, none, some, List, [], ◌∷◌, ◌++◌, replicate,
  ◌-◌, get_elem?,
}
use oskey_firmware.Nxp.Device.{
  Result, nxp_ok, Vendor, wiped_keys, exchange, finish_reply, inner_command, wrapped_command, close,
  connect, connect_loaded, open_device, exists_object, read_object, verify, verify_opened,
  authenticate,
}
use oskey_firmware.Nxp.Store.{
  Store, Crypto, unavailable, pin_credential, scan_objects, scan, unlock_read, unlock_authenticate,
  unlock_with, unlock_ready, unlock_body, unlock, erase,
}
use oskey_firmware.Nxp.Sent.{count}
use oskey_firmware.Nxp.Closing.{KeepsSession, IsClosed}
use oskey_firmware.Nxp.Calls.{origin, after, unlocks, erases, Reach-IsClosed}
use oskey_firmware.Nxp.Unlocking.{is_verify, unlock_verifies_once}

-- The plain answers of a provisioned chip, one for each command after the opening of the device:
-- its version, three objects, the salt, a user session, the verification, and the seed.
abbrev answers : List (List ℕ)
answers =
    (0x41 ∷ 7 ∷ 7 ∷ 2 ∷ 0 ∷ 0 ∷ 0 ∷ 0 ∷ 0 ∷ [])
    ∷ (0x41 ∷ 1 ∷ 1 ∷ [])
    ∷ (0x41 ∷ 1 ∷ 1 ∷ [])
    ∷ (0x41 ∷ 1 ∷ 1 ∷ [])
    ∷ (0x41 ∷ 16 ∷ replicate 16 5)
    ∷ (0x41 ∷ 8 ∷ replicate 8 9)
    ∷ []
    ∷ (0x41 ∷ 64 ∷ replicate 64 3)
    ∷ []

abbrev with_status : Option (List ℕ) → Option (List ℕ)
with_status none = none
with_status (some bytes) = some (bytes ++ 0x90 ∷ 0 ∷ [])

-- The state outside counts the commands that the chip got.
abbrev chip : Vendor ℕ
chip = record {
  crypto_init = λ w. true;
  provisioned = some (record {
    enc = replicate 16 1;
    mac = replicate 16 2;
    dek = replicate 16 3;
    reset = replicate 16 4;
  });
  session_open = λ keys w. (true, true, w);
  session_close = λ w. w;
  crypto_reset = λ w. w;
  transceive = λ header command w. (some (replicate 8 0 ++ 0x90 ∷ 0 ∷ []), suc w);
  decrypt = λ n response w. (with_status (get_elem? answers (w - 1)), w);
}

abbrev psa : Crypto ℕ
psa = record {
  hmac = λ key message. some (replicate 32 7);
  random = λ n w. (some (replicate n 6), w);
  policy_bits = record { read_protected = 0x00220000 };
}

abbrev power_on : Store ℕ
power_on = record {
  state = unavailable;
  scanned = false;
  device = record {
    live = false;
    keys = wiped_keys;
    user_session = replicate 8 0;
    in_user_session = false;
    opened = false;
    authenticated_id = 0;
    outside = 0;
    log = [];
  };
}

abbrev pin : List ℕ
pin = replicate 32 1

-- What the caller's buffer holds before.
abbrev stale : List ℕ
stale = replicate 64 0x55

abbrev unlocked : Result × Option (List ℕ) × Store ℕ
unlocked = unlock chip psa (some pin) (some stale) power_on

-- The seed of a provisioned chip is handed out, after one verification, and the store is not marked
-- as scanned.
unlock_test :
    (unlocked.0 ≡ nxp_ok)
    × (unlocked.1 ≡ some (replicate 64 3))
    × (count is_verify unlocked.2.device.log ≡ 1)
    × (unlocked.2.scanned ≡ false)
unfolding exchange finish_reply inner_command wrapped_command close connect connect_loaded
    open_device exists_object read_object verify verify_opened authenticate pin_credential
    scan_objects scan unlock_read unlock_authenticate unlock_with unlock_ready unlock_body unlock
unlock_test = (refl, refl, refl, refl)

unlock_verifies_once_example : count is_verify unlocked.2.device.log ≤ 1
unlock_verifies_once_example = unlock_verifies_once chip psa (some pin) (some stale) power_on

-- The same chip, with whether the vendor's session is open.
abbrev tracked : Vendor (ℕ × Bool)
tracked = record {
  crypto_init = λ w. true;
  provisioned = chip.provisioned;
  session_open = λ keys w. (true, true, (w.0, true));
  session_close = λ w. (w.0, false);
  crypto_reset = λ w. w;
  transceive = λ header command w. (some (replicate 8 0 ++ 0x90 ∷ 0 ∷ []), (suc w.0, w.1));
  decrypt = λ n response w. (with_status (get_elem? answers (w.0 - 1)), w);
}

abbrev drawing : Crypto (ℕ × Bool)
drawing = record {
  hmac = psa.hmac;
  random = λ n w. (some (replicate n 6), w);
  policy_bits = psa.policy_bits;
}

abbrev tracked-KeepsSession : KeepsSession tracked drawing (λ w. w.1)
tracked-KeepsSession = record {
  closes = λ w. refl;
  resets = λ w. refl;
  transceives = λ header command w. refl;
  decrypts = λ n bytes w. refl;
  draws = λ n w. refl;
}

abbrev tracked_on : Store (ℕ × Bool)
tracked_on = record {
  state = unavailable;
  scanned = false;
  device = record {
    live = false;
    keys = wiped_keys;
    user_session = replicate 8 0;
    in_user_session = false;
    opened = false;
    authenticated_id = 0;
    outside = (0, false);
    log = [];
  };
}

-- A session that is opened by a scan is open until the device is closed.
scan_test : (scan tracked drawing tracked_on).1.device.outside.1 ≡ true
unfolding exchange finish_reply inner_command wrapped_command close connect connect_loaded
    open_device exists_object scan_objects scan
scan_test = refl

Reach-IsClosed_example :
    IsClosed tracked-KeepsSession
      (erase tracked drawing (unlock tracked drawing (some pin) (some stale) tracked_on).2).1.device
Reach-IsClosed_example =
    Reach-IsClosed tracked-KeepsSession
      (after (after origin (unlocks (some pin) (some stale))) erases) (refl, refl)
