-- ===== src/Bluetooth/Stale.antt =====
-- The session numbers, and the refusal of stale sessions.
use oskey_firmware.Prelude.{
  if_both, ℕ, zero, suc, ◌+◌, ◌≤◌, ◌<◌, ◌≡◌, ◌≢◌, inl, inr, refl, sym, ap, ◌∙◌, true, false, not,
  Option, none, some, List, ◌==◌, ltb, length, arith, u32, Bool-cases, fail, enotconn, is_zero,
}
use oskey_firmware.Bluetooth.Transport.{
  Stack, Bluetooth, security_l4, session_after, set_active_conn, clear_active_conn, connected,
  disconnected, start_advertising, security_changed, nus_received, get_active_conn, get_session_id,
  is_active, bt_send, conn_unref, conn_ref, send_to, conn_of,
}
use oskey_firmware.Bluetooth.Sessions.{
  due_session, IsConsistent, Reach, here, accept, reject, lose, recycle, secure, receive,
  Reach-IsConsistent,
}

module _ {W : Type 0} (stack : Stack W) where
  abbrev HasSequence : ℕ → Bluetooth W → Type 0
  HasSequence m b = b.sequence ≡ m

  sequence-same : (c : ℕ) (b : Bluetooth W) → (clear_active_conn c b).sequence ≡ b.sequence
  unfolding clear_active_conn
  sequence-same c b = if_both (HasSequence b.sequence) (is_active c b.active) (go b.active) refl
    where
      go :
          (o : Option ℕ)
          → (conn_unref o (record b { active = none; session = 0 })).sequence ≡ b.sequence
      go none = refl
      go (some x) = refl

  sequence-next :
      (c : ℕ) (b : Bluetooth W) → (set_active_conn c b).sequence ≡ session_after b.sequence
  unfolding set_active_conn
  sequence-next c b = go b.active
    where
      go :
          (o : Option ℕ)
          → (conn_unref o (record (conn_ref c b) {
            active = some c;
            sequence = session_after b.sequence;
            session = session_after b.sequence;
          })).sequence
            ≡ session_after b.sequence
      go none = refl
      go (some x) = refl

  -- The sequence after a number of connections.
  abbrev nth_session : ℕ → ℕ → ℕ
  nth_session zero s = s
  nth_session (suc n) s = session_after (nth_session n s)

  session_after_low : (n : ℕ) → suc n < 4294967296 → session_after n ≡ suc n
  session_after_low n h =
      let e : u32 (suc n) ≡ suc n = omega arith in
      let t : (suc n == 0) ≡ false = ground arith in rw (e, t) refl

  session_after_high : (n : ℕ) → suc n ≡ 4294967296 → session_after n ≡ 1
  session_after_high n h = let e : u32 (suc n) ≡ 0 = omega arith in rw e refl

  -- The sequence counts up to 2^32 - 1, and goes on with 1.
  nth_session-range :
      (n s : ℕ)
      → 0 < s
      → s < 4294967296
      → n < 4294967295
      → (s + n < 4294967296 → nth_session n s ≡ s + n)
        × (4294967296 ≤ s + n → nth_session n s + 4294967295 ≡ s + n)
  nth_session-range zero s p q h = (λ a. omega arith, λ a. absurd (omega arith))
  nth_session-range (suc n) s p q h =
      let (low, high) = nth_session-range n s p q (omega arith) in
      elim (Bool-cases (ltb (s + n) 4294967296)) [
        | inl a ↦
            let e = low (ground arith) in
            (
              λ k. rw (e, session_after_low (s + n) (omega arith)) (omega arith),
              λ k. rw (e, session_after_high (s + n) (ground arith)) (ground arith),
            )
        | inr a ↦
            let e = high (ground arith) in
            (
              λ k. absurd (ground arith),
              λ k. rw (session_after_low (nth_session n s) (omega arith)) (omega arith),
            )
      ]

  -- That is none of the numbers since.
  nth_session-ne : (n s : ℕ) → 0 < s → s < 4294967296 → 0 < n → n < 4294967295 → nth_session n s ≢ s
  nth_session-ne n s p q a b e =
      let (low, high) = nth_session-range n s p q b in
      elim (Bool-cases (ltb (s + n) 4294967296)) [
        | inl k ↦ let l = low (ground arith) in absurd (omega arith)
        | inr k ↦ let l = high (ground arith) in absurd (omega arith)
      ]

  Reach-sequence :
      {start b : Bluetooth W} {n : ℕ}
      → Reach stack start n b
      → HasSequence (nth_session n start.sequence) b
  unfolding connected disconnected start_advertising security_changed nus_received
  Reach-sequence here = refl
  Reach-sequence {start = start} (accept {n = n} {b = b} c r) =
      let m = nth_session (suc n) start.sequence in
      let e = sequence-next c b ∙ ap session_after (Reach-sequence r) in
      let u = set_active_conn c b in
      if_both (HasSequence m) (is_zero (stack.set_security c u.world).0) e e
  Reach-sequence {start = start} (reject {n = n} {err = err} {b = b} c h r) =
      let t : not (err == 0) ≡ true = ground arith in rw t (Reach-sequence r)
  Reach-sequence (lose {b = b} c r) = sequence-same c b ∙ Reach-sequence r
  Reach-sequence (recycle r) = Reach-sequence r
  Reach-sequence {start = start} (secure {n = n} {b = b} c failed r) =
      let m = nth_session n start.sequence in
      if_both (HasSequence m) failed (Reach-sequence r) (Reach-sequence r)
  Reach-sequence {start = start} (receive {n = n} {b = b} c bytes r) =
      let m = nth_session n start.sequence in
      let e = Reach-sequence r in
      if_both (HasSequence m) (ltb (stack.security c b.world) security_l4) e
        (if_both (HasSequence m) (get_session_id c b == 0) e e)

  session-numbered : (b : Bluetooth W) → IsConsistent b → b.session ≢ 0 → b.session ≡ b.sequence
  session-numbered b s k = go b.active s.numbered
    where
      go : (o : Option ℕ) → b.session ≡ due_session o b.sequence → b.session ≡ b.sequence
      go none e = absurd (k e)
      go (some c) e = e

  eq-false : (a b : ℕ) → a ≢ b → (a == b) ≡ false
  eq-false a b h = ground arith

  -- A session ends with its connection: once others have been established, up to 2^32 - 2 of them, a
  -- send to its number fails with -ENOTCONN and changes nothing.
  pub stale_refused :
      {start b : Bluetooth W} {n : ℕ} (fuel : ℕ) (bytes : List ℕ)
      → IsConsistent start
      → start.session ≢ 0
      → Reach stack start n b
      → 0 < n
      → n < 4294967295
      → length bytes ≢ 0
      → bt_send stack fuel start.session (some bytes) b ≡ some (fail enotconn, b)
  unfolding bt_send get_active_conn
  stale_refused {start = start} {b = b} {n = n} fuel bytes s k r p q l =
      let m : (length bytes == 0) ≡ false = ground arith in
      let t = Reach-IsConsistent stack s r in rw m (go b.active t.numbered)
    where
      go :
          (o : Option ℕ)
          → b.session ≡ due_session o b.sequence
          → send_to stack fuel bytes (conn_of o start.session b) ≡ some (fail enotconn, b)
      go none e = refl
      go (some c) e =
          let same = session-numbered start s k in
          let new = nth_session-ne n start.sequence (omega (arith, same)) s.bounded p q in
          let other : (b.session == start.session) ≡ false =
            eq-false b.session start.session
              (λ h. new (sym (Reach-sequence r) ∙ sym e ∙ h ∙ same)) in
          rw other refl
