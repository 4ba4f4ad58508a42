-- ===== src/Nxp/Sent.antt =====
-- What the log of the device says of a call: how many commands of a kind it sent.
use oskey_firmware.Prelude.{
  ℕ, suc, ◌≤◌, ◌≡◌, ◌⊎◌, inl, inr, Bool, true, false, Option, none, some, List, [], ◌∷◌, take,
  arith, if◌then◌else◌,
}
use oskey_firmware.Nxp.Device.{
  Credentials, Vendor, Sent, Device, object, finish_reply, exchange, tlv, close, connect,
  open_device, exists_object, read_object, verify, connect_loaded, verify_opened, payload_of,
  authenticate,
}

abbrev pub count : (Sent → Bool) → List Sent → ℕ
count p [] = 0
count p (e ∷ rest) = if p e then suc (count p rest) else count p rest

count-cons : (p : Sent → Bool) (e : Sent) (log : List Sent) → count p (e ∷ log) ≤ suc (count p log)
count-cons p e log = ground arith

count-other :
    (p : Sent → Bool) (e : Sent) (log : List Sent) → p e ≡ false → count p (e ∷ log) ≤ count p log
count-other p e log h = ground arith

abbrev pub command : ℕ → ℕ → ℕ → List ℕ → ℕ → Sent
command ins p1 p2 body authenticated = record {
  ins = ins;
  p1 = p1;
  p2 = p2;
  body = body;
  authenticated = authenticated;
}

module _ {W : Type 0} (v : Vendor W) where
  finish_reply-log :
      (n m : ℕ) (deleting : Bool) (response : List ℕ) (d : Device W)
      → (finish_reply v n m deleting response d).2.log ≡ d.log
  unfolding finish_reply
  finish_reply-log n m b r d = ground arith

  -- A command is logged when it goes out, once.
  exchange-log :
      (ins p1 p2 : ℕ) (body : List ℕ) (n : ℕ) (deleting : Bool) (d : Device W)
      → let after = (exchange v ins p1 p2 body n deleting d).2 in
        (after.log ≡ d.log) ⊎ (after.log ≡ command ins p1 p2 body d.authenticated_id ∷ d.log)
  unfolding exchange finish_reply
  exchange-log ins p1 p2 body n deleting d = ground arith

  module _ (p : Sent → Bool) where
    exchange-count :
        (ins p1 p2 : ℕ) (body : List ℕ) (n : ℕ) (deleting : Bool) (d : Device W)
        → count p (exchange v ins p1 p2 body n deleting d).2.log ≤ suc (count p d.log)
    exchange-count ins p1 p2 body n deleting d = elim (exchange-log ins p1 p2 body n deleting d) [
      | inl e ↦ rw e (omega arith)
      | inr e ↦ rw e (count-cons p (command ins p1 p2 body d.authenticated_id) d.log)
    ]

    -- A call that sends nothing that `p` counts.
    exchange-none :
        (ins p1 p2 : ℕ) (body : List ℕ) (n : ℕ) (deleting : Bool) (d : Device W)
        → p (command ins p1 p2 body d.authenticated_id) ≡ false
        → count p (exchange v ins p1 p2 body n deleting d).2.log ≤ count p d.log
    exchange-none ins p1 p2 body n deleting d h = elim (exchange-log ins p1 p2 body n deleting d) [
      | inl e ↦ rw e (omega arith)
      | inr e ↦ rw e (count-other p (command ins p1 p2 body d.authenticated_id) d.log h)
    ]

    -- `p` counts none of the commands that open the device and look for its objects.
    pub record IgnoresScan : Type 0 where
      pub version : (a : ℕ) → p (command 4 0 0x20 [] a) ≡ false
      pub presence_of : (a id : ℕ) → p (command 4 0 0x27 (object id) a) ≡ false

    pub connect-none :
        (keys : Credentials) (d : Device W)
        → IgnoresScan
        → count p (connect v keys d).1.log ≤ count p d.log
    unfolding connect close
    connect-none keys d h =
        let (ok, protected, w) = v.session_open keys d.outside in
        ground (
          arith,
          exchange-none 4 0 0x20 [] 16 false
              (record d { keys = keys; opened = true; live = protected; outside = w })
              (h.version d.authenticated_id),
        )

    pub exists_object-none :
        (id : ℕ) (d : Device W) → IgnoresScan → count p (exists_object v id d).1.log ≤ count p d.log
    unfolding exists_object
    exists_object-none id d h =
        ground (
          arith,
          exchange-none 4 0 0x27 (object id) 3 false d (h.presence_of d.authenticated_id id),
        )

    connect_loaded-none :
        (keys : Option Credentials) (d : Device W)
        → IgnoresScan
        → count p (connect_loaded v keys d).1.log ≤ count p d.log
    unfolding connect_loaded
    connect_loaded-none none d h = ground arith
    connect_loaded-none (some keys) d h = connect-none keys d h

    pub open_device-none :
        (d : Device W) → IgnoresScan → count p (open_device v d).1.log ≤ count p d.log
    unfolding open_device close
    open_device-none d h = ground (arith, connect_loaded-none v.provisioned (close v d) h)

    pub read_object-none :
        (id len : ℕ) (d : Device W)
        → p (command 2 0 0 (object id) d.authenticated_id) ≡ false
        → count p (read_object v id len d).1.log ≤ count p d.log
    unfolding read_object
    read_object-none id len d h = ground (arith, exchange-none 2 0 0 (object id) 66 false d h)

    pub verify-count :
        (id : ℕ) (value : List ℕ) (d : Device W)
        → count p (verify v id value d).1.log ≤ suc (count p d.log)
    unfolding verify
    verify-count id value d =
        ground (arith, exchange-count 4 0 0x2c (tlv 0x41 (take 16 value)) 0 false d)

    verify_opened-count :
        (id : ℕ) (value : List ℕ) (reply : Option (List ℕ)) (d : Device W)
        → count p (verify_opened v id value reply d).1.log ≤ suc (count p d.log)
    unfolding verify_opened
    verify_opened-count id value none d = ground arith
    verify_opened-count id value (some bytes) d =
        verify-count id value (record d { user_session = bytes; in_user_session = true })

    -- An authentication sends one command besides the opening of its user session.
    pub authenticate-count :
        (id : ℕ) (value : List ℕ) (d : Device W)
        → p (command 4 0 0x1b (object id) d.authenticated_id) ≡ false
        → count p (authenticate v id value d).1.log ≤ suc (count p d.log)
    unfolding authenticate
    authenticate-count id value d h =
        let (rc, reply, d') = exchange v 4 0 0x1b (object id) 10 false d in
        ground (
          arith,
          exchange-none 4 0 0x1b (object id) 10 false d h,
          verify_opened-count id value (payload_of v 8 reply) d',
        )
