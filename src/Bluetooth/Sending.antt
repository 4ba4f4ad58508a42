-- ===== src/Bluetooth/Sending.antt =====
-- What `oskey_bt_send` does with the bytes, and what is taken from a connection.
use oskey_firmware.Prelude.{
  ℕ, zero, suc, ◌-◌, ◌%◌, min, ◌≤◌, ◌<◌, ◌≡◌, ◌≢◌, inl, inr, refl, sym, ap, ◌∙◌, true, false,
  Option, none, some, List, [], ◌∷◌, ◌++◌, ◌==◌, ltb, leb, length, take, drop, length-take, arith,
  append_assoc, append-nil, Bool-cases, Code, value, is_zero, All,
}
use mathlib.Core.Path.{subst}
use oskey_firmware.Prelude.Windows.{take-append-drop, length-drop}
use oskey_firmware.Bluetooth.Transport.{
  Stack, Bluetooth, security_l4, conn_ref, get_active_conn, chunk_size, send_chunks, send_on,
  release_conn, bt_send, conn_of, send_to,
}

-- The chunks of a call, newest first, put together again.
abbrev pub assembled : List (ℕ × List ℕ) → List ℕ
assembled [] = []
assembled ((c, chunk) ∷ rest) = assembled rest ++ chunk

-- A chunk on connection `c` that one notification of at most `limit` bytes can carry.
abbrev pub IsChunk : ℕ → ℕ → ℕ × List ℕ → Type 0
IsChunk c limit (d, chunk) = (d ≡ c) × (0 < length chunk) × (length chunk ≤ limit)

-- What the loop leaves: the new chunks carry a front of the bytes, all of them if it returns 0.
pub record Sent {W : Type 0} (c limit : ℕ) (bytes : List ℕ) (b : Bluetooth W)
    (r : Code × Bluetooth W) : Type 0 where
  pub chunks : List (ℕ × List ℕ)
  pub unsent : List ℕ
  pub recorded : r.1.notified ≡ chunks ++ b.notified
  pub fitting : All (IsChunk c limit) chunks
  pub divided : assembled chunks ++ unsent ≡ bytes
  pub complete : is_zero r.0 ≡ true → unsent ≡ []
  pub same_references : (d : ℕ) → r.1.references d ≡ b.references d

assembled-append :
    (chunks : List (ℕ × List ℕ)) (c : ℕ) (chunk : List ℕ)
    → assembled (chunks ++ (c, chunk) ∷ []) ≡ chunk ++ assembled chunks
assembled-append [] c chunk = sym (append-nil chunk)
assembled-append ((d, x) ∷ rest) c chunk =
    rw (assembled-append rest c chunk) (append_assoc chunk (assembled rest) x)

All-append_one :
    (P : ℕ × List ℕ → Type 0) (xs : List (ℕ × List ℕ)) (x : ℕ × List ℕ)
    → All P xs
    → P x
    → All P (xs ++ x ∷ [])
All-append_one P [] x h p = (p, tt)
All-append_one P (y ∷ ys) x h p = (h.0, All-append_one P ys x h.1 p)

length-take_chunk :
    (limit : ℕ) (bytes : List ℕ)
    → 0 < limit
    → limit < 65536
    → length bytes ≢ 0
    → (0 < chunk_size (length bytes) limit)
      × (chunk_size (length bytes) limit ≤ limit)
      × (chunk_size (length bytes) limit ≤ length bytes)
length-take_chunk limit bytes p q n =
    let small : min (length bytes) limit % 65536 ≡ min (length bytes) limit = omega arith in
    rw small (omega arith, omega arith, omega arith)

-- The loop's result, where the fuel was enough.
abbrev pub IsSent :
    {W : Type 0} → ℕ → ℕ → List ℕ → Bluetooth W → Option (Code × Bluetooth W) → Type 0
IsSent c limit bytes b none = ⊥
IsSent c limit bytes b (some r) = Sent c limit bytes b r

module _ {W : Type 0} (stack : Stack W) (c limit : ℕ) (p : 0 < limit) (q : limit < 65536) where
  Sent-nil :
      (bytes : List ℕ) (b : Bluetooth W) → length bytes ≡ 0 → Sent c limit bytes b (value 0, b)
  Sent-nil [] b e = record {
    chunks = [];
    unsent = [];
    recorded = refl;
    fitting = tt;
    divided = refl;
    complete = λ h. refl;
    same_references = λ d. refl;
  }
  Sent-nil (x ∷ xs) b e = absurd (omega arith)

  Sent-failed :
      (bytes : List ℕ) (b : Bluetooth W) (rc : Code) (w : W)
      → is_zero rc ≡ false
      → Sent c limit bytes b (rc, record b { world = w })
  Sent-failed bytes b rc w h = record {
    chunks = [];
    unsent = bytes;
    recorded = refl;
    fitting = tt;
    divided = refl;
    complete = λ k. absurd cc;
    same_references = λ d. refl;
  }

  Sent-chunk :
      (bytes chunk later : List ℕ) (b : Bluetooth W) (w : W) (r : Option (Code × Bluetooth W))
      → chunk ++ later ≡ bytes
      → IsChunk c limit (c, chunk)
      → IsSent c limit later (record b { world = w; notified = (c, chunk) ∷ b.notified }) r
      → IsSent c limit bytes b r
  Sent-chunk bytes chunk later b w none e f s = s
  Sent-chunk bytes chunk later b w (some r) e f s = record {
    chunks = s.chunks ++ (c, chunk) ∷ [];
    unsent = s.unsent;
    recorded = s.recorded ∙ sym (append_assoc s.chunks ((c, chunk) ∷ []) b.notified);
    fitting = All-append_one (IsChunk c limit) s.chunks (c, chunk) s.fitting f;
    divided =
        rw (assembled-append s.chunks c chunk, append_assoc chunk (assembled s.chunks) s.unsent)
          (ap (λ xs. chunk ++ xs) s.divided ∙ e);
    complete = s.complete;
    same_references = s.same_references;
  }

  send_chunks-IsSent :
      (fuel : ℕ) (bytes : List ℕ) (b : Bluetooth W)
      → length bytes ≤ fuel
      → IsSent c limit bytes b (send_chunks stack fuel c limit bytes b)
  unfolding send_chunks
  send_chunks-IsSent zero bytes b h =
      let e : length bytes ≡ 0 = omega arith in
      let t : (length bytes == 0) ≡ true = ground arith in rw t (Sent-nil bytes b e)
  send_chunks-IsSent (suc fuel) bytes b h = elim (Bool-cases (length bytes == 0)) [
    | inl t ↦ rw t (Sent-nil bytes b (ground arith))
    | inr t ↦
        let n = chunk_size (length bytes) limit in
        let (rc, w) = stack.notify c (take n bytes) b.world in
        elim (Bool-cases (is_zero rc)) [
          | inl good ↦
              rw (t, good)
                (let (a1, a2, a3) = length-take_chunk limit bytes p q (λ e. ground arith) in
                  Sent-chunk bytes (take n bytes) (drop n bytes) b w _ (take-append-drop n bytes)
                    (
                      refl,
                      rw (length-take n bytes) (omega arith),
                      rw (length-take n bytes) (omega arith),
                    )
                    (send_chunks-IsSent fuel (drop n bytes)
                      (record b { world = w; notified = (c, take n bytes) ∷ b.notified })
                      (rw (length-drop n bytes) (omega arith))))
          | inr bad ↦ rw (t, bad) (Sent-failed bytes b rc w bad)
        ]
  ]

module _ {W : Type 0} (stack : Stack W) (c : ℕ) (bytes : List ℕ) (b : Bluetooth W) where
  -- The connection of the session, secure, with an MTU that leaves room.
  pub record IsOpen (id : ℕ) : Type 0 where
    pub connection : b.active ≡ some c
    pub in_session : b.session ≡ id
    pub secure : security_l4 ≤ stack.security c b.world
    pub roomy : 3 < stack.mtu c b.world
    pub sized : stack.mtu c b.world < 65536

  release_conn-IsSent :
      (limit : ℕ) (r : Option (Code × Bluetooth W))
      → IsSent c limit bytes (conn_ref c b) r
      → IsSent c limit bytes b (release_conn c r)
  release_conn-IsSent limit none s = s
  release_conn-IsSent limit (some r) s = record {
    chunks = s.chunks;
    unsent = s.unsent;
    recorded = s.recorded;
    fitting = s.fitting;
    divided = s.divided;
    complete = s.complete;
    same_references = λ d. ground (arith, s.same_references d);
  }

  get_active_conn_open :
      (id : ℕ) → b.active ≡ some c → b.session ≡ id → get_active_conn id b ≡ (some c, conn_ref c b)
  unfolding get_active_conn
  get_active_conn_open id a e =
      let k : (b.session == id) ≡ true = ground arith in ap (λ o. conn_of o id b) a ∙ rw k refl

  -- On an open connection of the session, with security of level 4 and an MTU above 3, and fuel for
  -- every byte: the send returns, having notified the connection of chunks that are not empty, take
  -- no more than the MTU less 3, and put together are a front of the bytes, or all of them if it
  -- returns 0; and it holds no further reference.
  pub bt_send-IsSent :
      (fuel id : ℕ)
      → length bytes ≤ fuel
      → IsOpen id
      → IsSent c (stack.mtu c b.world - 3) bytes b (bt_send stack fuel id (some bytes) b)
  unfolding bt_send send_on
  bt_send-IsSent fuel id h o =
      let limit = stack.mtu c b.world - 3 in
      let l4 : ltb (stack.security c b.world) security_l4 ≡ false = ground (arith, o.secure) in
      let m : leb (stack.mtu c b.world) 3 ≡ false = ground (arith, o.roomy) in
      let p : 0 < limit = omega (arith, o.roomy) in
      let q : limit < 65536 = omega (arith, o.sized) in
      elim (Bool-cases (length bytes == 0)) [
        | inl e ↦ rw e (Sent-nil stack c limit p q bytes b (ground arith))
        | inr n ↦ rw n (
            subst (λ r. IsSent c limit bytes b (send_to stack fuel bytes r))
              (sym (get_active_conn_open id o.connection o.in_session))
              (release_conn-IsSent limit _
                (rw (l4, m) (send_chunks-IsSent stack c limit p q fuel bytes (conn_ref c b) h))))
      ]
