-- ===== src/Nxp/Closing.antt =====
-- The vendor's session under store.c: every call that opens it closes it again.
use oskey_firmware.Prelude.{
  ℕ, ◌≡◌, refl, ◌∙◌, Bool, true, false, not, Option, none, some, List, [], arith, take, if_both,
}
use oskey_firmware.Nxp.Device.{
  Result, Vendor, Device, Credentials, PolicyBits, reset_id, object, tlv, payload_of, write_command,
  user_command, finish_reply, exchange, no_reply, close, connect, connect_loaded, open_device,
  exists_object, read_object, write_object, create_user, verify, verify_opened, authenticate,
  reset_auth, delete_all,
}
use oskey_firmware.Nxp.Store.{Crypto}

-- What the calls outside do to the vendor's session, which `is_open` reads from the state outside:
-- its close ends it, and the transfers, the reset of the contexts and the random bytes leave it.
pub record KeepsSession {W : Type 0} (v : Vendor W) (crypto : Crypto W) (is_open : W → Bool)
    : Type 0 where
  pub closes : (w : W) → is_open (v.session_close w) ≡ false
  pub resets : (w : W) → is_open (v.crypto_reset w) ≡ is_open w
  pub transceives :
      (header command : List ℕ) (w : W) → is_open (v.transceive header command w).1 ≡ is_open w
  pub decrypts : (n : ℕ) (bytes : List ℕ) (w : W) → is_open (v.decrypt n bytes w).1 ≡ is_open w
  pub draws : (n : ℕ) (w : W) → is_open (crypto.random n w).1 ≡ is_open w

module _ {W : Type 0} {v : Vendor W} {crypto : Crypto W} {is_open : W → Bool}
    (k : KeepsSession v crypto is_open) where
  -- The session is as before, and so is the flag that says that there is one to close.
  abbrev pub IsKept : Device W → Device W → Type 0
  IsKept d t = (t.opened ≡ d.opened) × (is_open t.outside ≡ is_open d.outside)

  -- A session that is open is one that `close` closes.
  abbrev pub IsHeld : Device W → Type 0
  IsHeld d = d.opened ≡ false → is_open d.outside ≡ false

  -- There is no session.
  abbrev pub IsClosed : Device W → Type 0
  IsClosed d = (d.opened ≡ false) × (is_open d.outside ≡ false)

  finish_reply-IsKept :
      (n m : ℕ) (deleting : Bool) (response : List ℕ) (d : Device W)
      → IsKept d (finish_reply v n m deleting response d).2
  unfolding finish_reply
  finish_reply-IsKept n m deleting response d = ground (arith, k.decrypts n response d.outside)

  exchange-IsKept :
      (ins p1 p2 : ℕ) (body : List ℕ) (n : ℕ) (deleting : Bool) (d : Device W)
      → IsKept d (exchange v ins p1 p2 body n deleting d).2
  unfolding exchange finish_reply
  exchange-IsKept ins p1 p2 body n deleting d = grind (arith, k.transceives, k.decrypts)

  pub IsKept-trans : (d e t : Device W) → IsKept d e → IsKept e t → IsKept d t
  IsKept-trans d e t (a, b) (x, y) = (x ∙ a, y ∙ b)

  pub exists_object-IsKept : (id : ℕ) (d : Device W) → IsKept d (exists_object v id d).1
  unfolding exists_object
  exists_object-IsKept id d = ground (arith, exchange-IsKept 4 0 0x27 (object id) 3 false d)

  pub read_object-IsKept : (id n : ℕ) (d : Device W) → IsKept d (read_object v id n d).1
  unfolding read_object
  read_object-IsKept id n d = ground (arith, exchange-IsKept 2 0 0 (object id) 66 false d)

  pub write_object-IsKept :
      (bits : PolicyBits) (id reader : ℕ) (bytes : List ℕ) (d : Device W)
      → IsKept d (write_object v bits id reader bytes d).1
  unfolding write_object no_reply
  write_object-IsKept bits id reader bytes d =
      ground (arith, exchange-IsKept 1 6 0 (write_command v bits id reader bytes) 0 false d)

  pub create_user-IsKept :
      (id : ℕ) (value : List ℕ) (attempts : ℕ) (d : Device W)
      → IsKept d (create_user v id value attempts d).1
  unfolding create_user no_reply
  create_user-IsKept id value attempts d =
      ground (arith, exchange-IsKept 0x41 7 0 (user_command v id value attempts) 0 false d)

  verify-IsKept : (id : ℕ) (value : List ℕ) (d : Device W) → IsKept d (verify v id value d).1
  unfolding verify
  verify-IsKept id value d =
      ground (arith, exchange-IsKept 4 0 0x2c (tlv 0x41 (take 16 value)) 0 false d)

  verify_opened-IsKept :
      (id : ℕ) (value : List ℕ) (reply : Option (List ℕ)) (d : Device W)
      → IsKept d (verify_opened v id value reply d).1
  unfolding verify_opened
  verify_opened-IsKept id value none d = (refl, refl)
  verify_opened-IsKept id value (some bytes) d =
      verify-IsKept id value (record d { user_session = bytes; in_user_session = true })

  pub authenticate-IsKept :
      (id : ℕ) (value : List ℕ) (d : Device W) → IsKept d (authenticate v id value d).1
  unfolding authenticate
  authenticate-IsKept id value d =
      let (rc, reply, t) = exchange v 4 0 0x1b (object id) 10 false d in
      ground (
        arith,
        exchange-IsKept 4 0 0x1b (object id) 10 false d,
        verify_opened-IsKept id value (payload_of v 8 reply) t,
      )

  pub reset_auth-IsKept : (d : Device W) → IsKept d (reset_auth v d).1
  unfolding reset_auth
  reset_auth-IsKept d =
      let asked = (exists_object v reset_id d).1 in
      let created = (create_user v reset_id asked.keys.reset 0 asked).1 in
      ground (
        arith,
        exists_object-IsKept reset_id d,
        create_user-IsKept reset_id asked.keys.reset 0 asked,
        authenticate-IsKept reset_id asked.keys.reset asked,
        authenticate-IsKept reset_id created.keys.reset created,
      )

  pub delete_all-IsKept : (d : Device W) → IsKept d (delete_all v d).1
  unfolding delete_all
  delete_all-IsKept d = ground (arith, exchange-IsKept 4 0 0x2a [] 0 true d)

  pub IsKept-IsHeld : (d t : Device W) → IsKept d t → IsHeld d → IsHeld t
  IsKept-IsHeld d t (a, b) h e = ground (arith, h)

  pub close-IsClosed : (d : Device W) → IsHeld d → IsClosed (close v d)
  unfolding close
  close-IsClosed d h =
      let w = v.session_close d.outside in
      ground (arith, h, k.closes d.outside, k.resets w, k.resets d.outside)

  connect-IsHeld : (keys : Credentials) (d : Device W) → IsHeld (connect v keys d).1
  unfolding connect
  connect-IsHeld keys d =
      let (ok, protected, w) = v.session_open keys d.outside in
      let started = record d { keys = keys; opened = true; live = protected; outside = w } in
      let asked = (exchange v 4 0 0x20 [] 16 false started).2 in
      ground (
        arith,
        exchange-IsKept 4 0 0x20 [] 16 false started,
        close-IsClosed started (λ e. absurd cc),
        close-IsClosed asked,
      )

  connect_loaded-IsHeld :
      (keys : Option Credentials) (d : Device W) → IsHeld d → IsHeld (connect_loaded v keys d).1
  unfolding connect_loaded
  connect_loaded-IsHeld none d h = h
  connect_loaded-IsHeld (some keys) d h = connect-IsHeld keys d

  pub open_device-IsHeld : (d : Device W) → IsHeld d → IsHeld (open_device v d).1
  unfolding open_device
  open_device-IsHeld d h =
      let (a, b) = close-IsClosed d h in
      if_both (λ (r : Result × Device W). IsHeld r.1) (not (v.crypto_init (close v d).outside))
        (λ e. b) (connect_loaded-IsHeld v.provisioned (close v d) (λ e. b))
