-- ===== src/Nxp/Calls.antt =====
-- The calls of store.c, one after the other: none leaves a session of the vendor open.
use oskey_firmware.Prelude.{
  ℕ, refl, Bool, not, ◌||◌, Option, none, some, List, arith, take, if_both,
}
use oskey_firmware.Nxp.Device.{
  Result, is_ok, Vendor, Device, pin_id, seed_id, salt_id, close, open_device, exists_object,
  read_object, write_object, create_user, authenticate, reset_auth, delete_all,
}
use oskey_firmware.Nxp.Store.{
  Store, Crypto, is_ready, is_empty, scan_objects, scan, refresh, seed_exists, initialize_objects,
  initialize_opened, initialize_body, initialize, unlock_read, unlock_authenticate, unlock_with,
  credential_of, unlock_ready, unlock_body, unlock, nxp_wipe, erase_body, erase,
}
use oskey_firmware.Nxp.Closing.{
  KeepsSession, IsKept, IsHeld, IsClosed, IsKept-trans, exists_object-IsKept, read_object-IsKept,
  write_object-IsKept, create_user-IsKept, authenticate-IsKept, reset_auth-IsKept,
  delete_all-IsKept, IsKept-IsHeld, close-IsClosed, open_device-IsHeld,
}

module _ {W : Type 0} (v : Vendor W) (crypto : Crypto W) where
  -- A call of store.c, with any arguments, NULL included.
  pub data Call (s : Store W) : Store W → Type 0 where
    refreshes : Call s (refresh v crypto s).1
    asks_seed : Call s (seed_exists v crypto s).1
    initializes : (pin_key seed : Option (List ℕ)) → Call s (initialize v crypto pin_key seed s).1
    unlocks : (pin_key buffer : Option (List ℕ)) → Call s (unlock v crypto pin_key buffer s).2
    erases : Call s (erase v crypto s).1

  pub data Reach (start : Store W) : Store W → Type 0 where
    origin : Reach start start
    after : {s t : Store W} → Reach start s → Call s t → Reach start t

module _ {W : Type 0} {v : Vendor W} {crypto : Crypto W} {is_open : W → Bool}
    (k : KeepsSession v crypto is_open) where
  scan_objects-IsKept : (s : Store W) → IsKept k s.device (scan_objects v crypto s).1.device
  unfolding scan_objects
  scan_objects-IsKept s =
      let d1 = (exists_object v pin_id s.device).1 in
      let d2 = (exists_object v seed_id d1).1 in
      ground (
        arith,
        exists_object-IsKept k pin_id s.device,
        exists_object-IsKept k seed_id d1,
        exists_object-IsKept k salt_id d2,
      )

  scan-IsHeld : (s : Store W) → IsHeld k s.device → IsHeld k (scan v crypto s).1.device
  unfolding scan
  scan-IsHeld s h =
      let (rc, d) = open_device v s.device in
      let e = open_device-IsHeld k s.device h in
      if_both (λ (r : Bool × Store W). IsHeld k r.1.device) (is_ok rc)
        (IsKept-IsHeld k d (scan_objects v crypto (record s { device = d })).1.device
          (scan_objects-IsKept (record s { device = d })) e)
        e

  initialize_objects-IsKept :
      (salt credential seed : List ℕ) (d : Device W)
      → IsKept k d (initialize_objects v crypto salt credential seed d).1
  unfolding initialize_objects
  initialize_objects-IsKept salt credential seed d =
      let bits = crypto.policy_bits in
      let d1 = (write_object v bits salt_id 0 salt d).1 in
      let d2 = (create_user v pin_id credential 10 d1).1 in
      let d3 = (write_object v bits seed_id pin_id (take 64 seed) d2).1 in
      let d4 = (authenticate v pin_id credential d3).1 in
      ground (
        arith,
        write_object-IsKept k bits salt_id 0 salt d,
        create_user-IsKept k pin_id credential 10 d1,
        write_object-IsKept k bits seed_id pin_id (take 64 seed) d2,
        authenticate-IsKept k pin_id credential d3,
        read_object-IsKept k seed_id 64 d4,
      )

  initialize_opened-IsHeld :
      (pin_key seed : List ℕ) (s : Store W)
      → IsHeld k s.device
      → IsHeld k (initialize_opened v crypto pin_key seed s).1.device
  unfolding initialize_opened
  initialize_opened-IsHeld pin_key seed s h =
      let d = (open_device v s.device).1 in
      let t = record d { outside = (crypto.random 16 d.outside).1 } in
      let objects : (x c : List ℕ)
          → IsHeld k d
          → IsHeld k (initialize_objects v crypto x c seed t).1 =
        λ x c e.
          IsKept-IsHeld k d (initialize_objects v crypto x c seed t).1
            (IsKept-trans k d t (initialize_objects v crypto x c seed t).1
              (refl, k.draws 16 d.outside) (initialize_objects-IsKept x c seed t))
            e in
      let drawn : IsHeld k d → IsHeld k t = IsKept-IsHeld k d t (refl, k.draws 16 d.outside) in
      let held = open_device-IsHeld k s.device h in grind (arith, objects, drawn, held)

  unlock_read-IsKept :
      (buffer : List ℕ) (s : Store W) → IsKept k s.device (unlock_read v crypto buffer s).2.device
  unfolding unlock_read
  unlock_read-IsKept buffer s = ground (arith, read_object-IsKept k seed_id 64 s.device)

  unlock_authenticate-IsKept :
      (credential buffer : List ℕ) (s : Store W)
      → IsKept k s.device (unlock_authenticate v crypto credential buffer s).2.device
  unfolding unlock_authenticate
  unlock_authenticate-IsKept credential buffer s =
      let d = (authenticate v pin_id credential s.device).1 in
      ground (
        arith,
        authenticate-IsKept k pin_id credential s.device,
        unlock_read-IsKept buffer (record s { device = d }),
      )

  unlock_with-IsKept :
      (credential : Option (List ℕ)) (buffer : List ℕ) (s : Store W)
      → IsKept k s.device (unlock_with v crypto credential buffer s).2.device
  unfolding unlock_with
  unlock_with-IsKept none buffer s = (refl, refl)
  unlock_with-IsKept (some c) buffer s = unlock_authenticate-IsKept c buffer s

  unlock_ready-IsKept :
      (pin_key buffer : List ℕ) (s : Store W)
      → IsKept k s.device (unlock_ready v crypto pin_key buffer s).2.device
  unfolding unlock_ready
  unlock_ready-IsKept pin_key buffer s =
      let (salt, d) = read_object v salt_id 16 s.device in
      let r =
        unlock_with v crypto (credential_of v crypto pin_key salt) buffer
          (record s { device = d }) in
      IsKept-trans k s.device d r.2.device (read_object-IsKept k salt_id 16 s.device)
        (unlock_with-IsKept (credential_of v crypto pin_key salt) buffer (record s { device = d }))

  unlock_body-IsHeld :
      (pin_key buffer : List ℕ) (s : Store W)
      → IsHeld k s.device
      → IsHeld k (unlock_body v crypto pin_key buffer s).2.device
  unfolding unlock_body
  unlock_body-IsHeld pin_key buffer s h =
      let (ok, t) = scan v crypto s in
      let e = scan-IsHeld s h in
      if_both (λ (r : Result × List ℕ × Store W). IsHeld k r.2.device)
        (not ok || not (is_ready t.state)) e
        (IsKept-IsHeld k t.device (unlock_ready v crypto pin_key buffer t).2.device
          (unlock_ready-IsKept pin_key buffer t) e)

  initialize_body-IsHeld :
      (pin_key seed : List ℕ) (s : Store W)
      → IsHeld k s.device
      → IsHeld k (initialize_body v crypto pin_key seed s).1.device
  unfolding initialize_body
  initialize_body-IsHeld pin_key seed s h =
      let (ok, t) = scan v crypto s in
      let (reset, d) = reset_auth v t.device in
      let e = scan-IsHeld s h in
      let f = IsKept-IsHeld k t.device d (reset_auth-IsKept k t.device) e in
      let P : Bool × Store W → Type 0 = λ r. IsHeld k r.1.device in
      if_both P (not ok || not (is_empty t.state)) e (
        if_both P (not reset) f (initialize_opened-IsHeld pin_key seed (record t { device = d }) f))

  erase_body-IsHeld : (s : Store W) → IsHeld k s.device → IsHeld k (erase_body v crypto s).1.device
  unfolding erase_body
  erase_body-IsHeld s h =
      let (opened, d1) = open_device v s.device in
      let (reset, d2) = reset_auth v d1 in
      let (deleted, d3) = delete_all v d2 in
      let e = open_device-IsHeld k s.device h in
      let f = IsKept-IsHeld k d1 d2 (reset_auth-IsKept k d1) e in
      let g = IsKept-IsHeld k d2 d3 (delete_all-IsKept k d2) f in
      let P : Bool × Store W → Type 0 = λ r. IsHeld k r.1.device in
      if_both P (not (is_ok opened)) e
        (if_both P (not reset) f (scan-IsHeld (record s { device = d3 }) g))

  Call-IsClosed : {s t : Store W} → Call v crypto s t → IsClosed k s.device → IsClosed k t.device
  unfolding refresh seed_exists initialize unlock erase
  Call-IsClosed {s = s} refreshes c =
      close-IsClosed k (scan v crypto s).1.device (scan-IsHeld s (λ e. c.1))
  Call-IsClosed {s = s} asks_seed c =
      if_both (λ (t : Store W). IsClosed k t.device) s.scanned c
        (close-IsClosed k (scan v crypto s).1.device (scan-IsHeld s (λ e. c.1)))
  Call-IsClosed (initializes none seed) c = c
  Call-IsClosed (initializes (some pin_key) none) c = c
  Call-IsClosed {s = s} (initializes (some pin_key) (some seed)) c =
      close-IsClosed k (initialize_body v crypto pin_key seed s).1.device
        (initialize_body-IsHeld pin_key seed s (λ e. c.1))
  Call-IsClosed (unlocks pin_key none) c = c
  Call-IsClosed (unlocks none (some buffer)) c = c
  Call-IsClosed {s = s} (unlocks (some pin_key) (some buffer)) c =
      close-IsClosed k (unlock_body v crypto pin_key (nxp_wipe 64 buffer) s).2.device
        (unlock_body-IsHeld pin_key (nxp_wipe 64 buffer) s (λ e. c.1))
  Call-IsClosed {s = s} erases c =
      let h = erase_body-IsHeld s (λ e. c.1) in
      let (rc, t) = erase_body v crypto s in
      if_both (λ (u : Store W). IsClosed k (close v u.device)) rc (close-IsClosed k t.device h)
        (close-IsClosed k t.device h)

  -- Where the vendor's close ends its session, and the transfers, the reset of the contexts and the
  -- random bytes neither open nor close one: from a state without a session, calls of store.c in any
  -- order, with any arguments and answers, lead to states without one, as no call leaves one open.
  pub Reach-IsClosed :
      {s t : Store W} → Reach v crypto s t → IsClosed k s.device → IsClosed k t.device
  Reach-IsClosed origin c = c
  Reach-IsClosed (after r s) c = Call-IsClosed s (Reach-IsClosed r c)
