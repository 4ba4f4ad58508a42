-- ===== src/Bluetooth/Sessions.antt =====
-- One session at a time: the references to the connection, and the session in use.
use oskey_firmware.Prelude.{
  if_both, ℕ, suc, ◌<◌, ◌≡◌, ◌≢◌, inl, inr, refl, Bool, not, Option, none, some, List, ◌∷◌, ◌==◌,
  if◌then◌else◌, ltb, arith, u32, Bool-cases, is_zero,
}
use oskey_firmware.Bluetooth.Transport.{
  BluetoothState, bluetooth_connected, bluetooth_idle, Stack, Bluetooth, security_l4, session_after,
  set_active_conn, clear_active_conn, connected, disconnected, start_advertising, security_changed,
  nus_received, get_session_id, is_active, conn_unref, conn_ref,
}

-- The references that a connection should have: one, if it is the active one.
abbrev pub due : Option ℕ → ℕ → ℕ
due none d = 0
due (some c) d = if d == c then 1 else 0

abbrev pub due_session : Option ℕ → ℕ → ℕ
due_session none n = 0
due_session (some c) n = n

pub record IsConsistent {W : Type 0} (b : Bluetooth W) : Type 0 where
  pub counted : (d : ℕ) → b.references d ≡ due b.active d
  pub numbered : b.session ≡ due_session b.active b.sequence
  pub bounded : b.sequence < 4294967296
  pub positive : b.active ≢ none → 0 < b.sequence

-- The callbacks of the host that change the connection: established, lost, advertising again, or a
-- change of security. The number counts the connections established.
module _ {W : Type 0} (stack : Stack W) where
  pub data Reach (start : Bluetooth W) : ℕ → Bluetooth W → Type 0 where
    here : Reach start 0 start
    accept :
        {n : ℕ} {b : Bluetooth W} (c : ℕ)
        → Reach start n b
        → Reach start (suc n) (connected stack c 0 b)
    reject :
        {n err : ℕ} {b : Bluetooth W} (c : ℕ)
        → err ≢ 0
        → Reach start n b
        → Reach start n (connected stack c err b)
    lose : {n : ℕ} {b : Bluetooth W} (c : ℕ) → Reach start n b → Reach start n (disconnected c b)
    recycle :
        {n : ℕ} {b : Bluetooth W} → Reach start n b → Reach start n (start_advertising stack b)
    secure :
        {n : ℕ} {b : Bluetooth W} (c : ℕ) (failed : Bool)
        → Reach start n b
        → Reach start n (security_changed stack c failed b)
    receive :
        {n : ℕ} {b : Bluetooth W} (c : ℕ) (bytes : List ℕ)
        → Reach start n b
        → Reach start n (nus_received stack c bytes b)

  session_after-bounds : (n : ℕ) → (session_after n < 4294967296) × (0 < session_after n)
  session_after-bounds n = elim (Bool-cases (u32 (suc n) == 0)) [
    | inl e ↦ rw e (omega arith, omega arith)
    | inr e ↦ rw e (omega arith, ground arith)
  ]

  set_active_conn-IsConsistent :
      (c : ℕ) (b : Bluetooth W) → IsConsistent b → IsConsistent (set_active_conn c b)
  unfolding set_active_conn
  set_active_conn-IsConsistent c b s = go b.active s.counted
    where
      taken : Bluetooth W
      taken = record (conn_ref c b) {
        active = some c;
        sequence = session_after b.sequence;
        session = session_after b.sequence;
      }

      go : (o : Option ℕ) → ((d : ℕ) → b.references d ≡ due o d) → IsConsistent (conn_unref o taken)
      go none h = record {
        counted = λ d. ground (arith, h d);
        numbered = refl;
        bounded = (session_after-bounds b.sequence).0;
        positive = λ k. (session_after-bounds b.sequence).1;
      }
      go (some x) h = record {
        counted = λ d. ground (arith, h d);
        numbered = refl;
        bounded = (session_after-bounds b.sequence).0;
        positive = λ k. (session_after-bounds b.sequence).1;
      }

  clear_active_conn-IsConsistent :
      (c : ℕ) (b : Bluetooth W) → IsConsistent b → IsConsistent (clear_active_conn c b)
  unfolding clear_active_conn
  clear_active_conn-IsConsistent c b s = elim (Bool-cases (is_active c b.active)) [
    | inl e ↦ rw e (go b.active s.counted)
    | inr e ↦ rw e s
  ]
    where
      go :
          (o : Option ℕ)
          → ((d : ℕ) → b.references d ≡ due o d)
          → IsConsistent (conn_unref o (record b { active = none; session = 0 }))
      go none h = record {
        counted = h;
        numbered = refl;
        bounded = s.bounded;
        positive = λ k. absurd (k refl);
      }
      go (some x) h = record {
        counted = λ d. ground (arith, h d);
        numbered = refl;
        bounded = s.bounded;
        positive = λ k. absurd (k refl);
      }

  world-IsConsistent :
      (b : Bluetooth W) (states : List BluetoothState) (routed : List (ℕ × List ℕ)) (w : W)
      → IsConsistent b
      → IsConsistent (record b { published = states; submitted = routed; world = w })
  world-IsConsistent b states routed w s = record {
    counted = s.counted;
    numbered = s.numbered;
    bounded = s.bounded;
    positive = s.positive;
  }

  connected-IsConsistent :
      (c err : ℕ) (b : Bluetooth W) → IsConsistent b → IsConsistent (connected stack c err b)
  unfolding connected
  connected-IsConsistent c err b s =
      let t = set_active_conn-IsConsistent c b s in
      let u = set_active_conn c b in
      let (rc, w) = stack.set_security c u.world in
      if_both IsConsistent (not (err == 0)) s (
        if_both IsConsistent (is_zero rc)
          (world-IsConsistent u (bluetooth_connected ∷ u.published) u.submitted w t)
          (world-IsConsistent u (bluetooth_connected ∷ u.published) u.submitted
            (stack.disconnect c w) t))

  nus_received-IsConsistent :
      (c : ℕ) (bytes : List ℕ) (b : Bluetooth W)
      → IsConsistent b
      → IsConsistent (nus_received stack c bytes b)
  unfolding nus_received
  nus_received-IsConsistent c bytes b s =
      let id = get_session_id c b in
      if_both IsConsistent (ltb (stack.security c b.world) security_l4) s (
        if_both IsConsistent (id == 0) s (
          world-IsConsistent b b.published ((id, bytes) ∷ b.submitted)
            (stack.submit id bytes b.world).1 s))

  -- Whatever the host calls in whatever order: there is one reference, to the active connection, or
  -- none without one; and the session is the last number given, or 0 without a connection.
  pub Reach-IsConsistent :
      {start b : Bluetooth W} {n : ℕ} → IsConsistent start → Reach start n b → IsConsistent b
  unfolding disconnected start_advertising security_changed
  Reach-IsConsistent s here = s
  Reach-IsConsistent s (accept {b = b} c r) = connected-IsConsistent c 0 b (Reach-IsConsistent s r)
  Reach-IsConsistent s (reject {err = err} {b = b} c h r) =
      connected-IsConsistent c err b (Reach-IsConsistent s r)
  Reach-IsConsistent s (lose {b = b} c r) =
      let t = clear_active_conn c b in
      world-IsConsistent t (bluetooth_idle ∷ t.published) t.submitted t.world
        (clear_active_conn-IsConsistent c b (Reach-IsConsistent s r))
  Reach-IsConsistent s (recycle {b = b} r) =
      world-IsConsistent b _ b.submitted _ (Reach-IsConsistent s r)
  Reach-IsConsistent s (secure {b = b} c failed r) =
      let t = Reach-IsConsistent s r in
      if_both IsConsistent failed
        (world-IsConsistent b b.published b.submitted (stack.disconnect c b.world) t) t
  Reach-IsConsistent s (receive {b = b} c bytes r) =
      nus_received-IsConsistent c bytes b (Reach-IsConsistent s r)
