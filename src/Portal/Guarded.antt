-- ===== src/Portal/Guarded.antt =====
-- What the portal's POST handler guards: nothing happens without the authorizing header, and nothing
-- of a body is left behind.
use oskey_firmware.Prelude.{
  ℕ, ◌+◌, ◌-◌, ◌≤◌, ◌≡◌, ◌≢◌, inl, inr, refl, sym, ap, ◌∙◌, Bool, true, false, Option, none, some,
  List, ◌++◌, arith, Bool-cases, ltb, length, drop, replicate, length-append, length-take, Code,
  value, fail, enomem, if◌then◌else◌,
}
use oskey_firmware.Prelude.Windows.{
  take-append_length, drop-append_length, drop-drop, replicate-append, drop-replicate, length-drop,
}
use oskey_firmware.Portal.Endpoints.{
  Transaction, aborted, complete, more_data, final_data, HttpStatus, body_max,
}
use oskey_firmware.Portal.Requests.{
  Part, Portal, Handler, body, body_reset, body_append, authorize, is_headed, post_end, post_final,
  post_overflow, post_part, post,
}

-- The buffer has its size, and zeros behind the body.
pub record IsClean {W : Type 0} (s : Portal W) : Type 0 where
  pub sized : length s.buffer ≡ body_max
  pub within : s.len ≤ body_max
  pub zeroed : drop s.len s.buffer ≡ replicate (body_max - s.len) 0

-- Nothing of a body is in the buffer.
abbrev pub IsWiped : {W : Type 0} → Portal W → Type 0
IsWiped s = (s.buffer ≡ replicate body_max 0) × (s.len ≡ 0)

module _ {W : Type 0} where
  IsWiped-IsClean : (s : Portal W) → IsWiped s → IsClean s
  IsWiped-IsClean s (b, l) = record {
    sized = rw b refl;
    within = omega arith;
    zeroed = rw (l, b) refl;
  }

  body_reset-IsWiped : (s : Portal W) → IsClean s → IsWiped (body_reset s)
  unfolding body_reset
  body_reset-IsWiped s c = (
    ap (λ ys. replicate s.len 0 ++ ys) c.zeroed
        ∙ replicate-append s.len (body_max - s.len) body_max 0 (omega (arith, c.within)),
    refl,
  )

  length-body : (s : Portal W) → IsClean s → length (body s) ≡ s.len
  length-body s c = omega (arith, length-take {0} s.len s.buffer, c.sized, c.within)

  length-body-append :
      (bytes : List ℕ) (s : Portal W) → IsClean s → length (body s ++ bytes) ≡ s.len + length bytes
  length-body-append bytes s c = omega (arith, length-append {0} (body s) bytes, length-body s c)

  pub body-append :
      (bytes : List ℕ) (s : Portal W) → IsClean s → body (body_append bytes s) ≡ body s ++ bytes
  unfolding body_append
  body-append bytes s c =
      let left = drop (s.len + length bytes) s.buffer in
      take-append_length (body s ++ bytes) left (s.len + length bytes)
        (length-body-append bytes s c)

  pub body_append-IsClean :
      (bytes : List ℕ) (s : Portal W)
      → IsClean s
      → s.len + length bytes ≤ body_max
      → IsClean (body_append bytes s)
  unfolding body_append
  body_append-IsClean bytes s c h =
      let n = s.len + length bytes in
      let left = drop n s.buffer in
      let fits = length-body-append bytes s c in
      record {
        sized = omega (
          arith,
          length-append {0} (body s ++ bytes) left,
          length-drop {0} n s.buffer,
          c.sized,
          fits,
          h,
        );
        within = h;
        zeroed =
            drop-append_length (body s ++ bytes) left n fits
            ∙ sym (drop-drop s.len (length bytes) n s.buffer refl)
            ∙ ap (drop (length bytes)) c.zeroed
            ∙ drop-replicate (length bytes) (body_max - s.len) (body_max - n) 0 (omega arith);
      }

  authorize-IsClean : (p : Part) (s : Portal W) → IsClean s → IsClean (authorize p s)
  unfolding authorize
  authorize-IsClean p s c = elim (Bool-cases (is_headed p.status)) [
    | inl y ↦ rw y (record { sized = c.sized; within = c.within; zeroed = c.zeroed })
    | inr n ↦ rw n c
  ]

-- A call of `post_handler` that ends a request, and so wipes its body.
abbrev pub ends_request : Transaction → Code → Bool
ends_request more_data (value n) = false
ends_request _ _ = true

more_never : (t : Transaction) → t ≡ more_data → (n : ℕ) → ends_request t (value n) ≢ true
more_never t e n q = ground arith

not_ltb : (a b : ℕ) → ltb a b ≡ false → b ≤ a
not_ltb a b h = ground arith

module _ {W : Type 0} (handle : Handler W) where
  reset_of :
      (s : Portal W) (b : Bool) (w : W)
      → IsClean s
      → IsWiped (body_reset (if b then record s { world = w } else s))
  reset_of s true w c =
      body_reset-IsWiped (record s { world = w })
        (record { sized = c.sized; within = c.within; zeroed = c.zeroed })
  reset_of s false w c = body_reset-IsWiped s c

  post_end-IsWiped : (t : Transaction) (s : Portal W) → IsClean s → IsWiped (post_end handle t s)
  unfolding post_end
  post_end-IsWiped t s c = reset_of s s.authorized (handle t (body s) s.world).1 c

  post_overflow-IsWiped : (s : Portal W) → IsClean s → IsWiped (post_overflow handle s)
  unfolding post_overflow
  post_overflow-IsWiped s c = reset_of s true (handle aborted (body s) s.world).1 c

  post_final-IsWiped : (s : Portal W) → IsClean s → IsWiped (post_final handle s).1
  unfolding post_final
  post_final-IsWiped s c = elim (Bool-cases s.authorized) [
    | inl y ↦ rw y (reset_of s true (handle final_data (body s) s.world).1 c)
    | inr n ↦ rw n (reset_of s false s.world c)
  ]

  -- What a call leaves of the body.
  abbrev Leaves : Transaction → Code × Option HttpStatus × Portal W → Type 0
  Leaves t r = IsClean r.2 × (ends_request t r.0 ≡ true → IsWiped r.2)

  wiped-Leaves :
      (t : Transaction) (rc : Code) (answer : Option HttpStatus) (s : Portal W)
      → IsWiped s
      → Leaves t (rc, answer, s)
  wiped-Leaves t rc answer s w = (IsWiped-IsClean s w, λ e. w)

  post_part-Leaves :
      (t : Transaction) (final : Bool) (p : Part) (s : Portal W)
      → (final ≡ false → t ≡ more_data)
      → IsClean s
      → Leaves t (post_part handle final p s)
  unfolding post_part
  post_part-Leaves t final p s more c =
      let u = authorize p s in
      let d = authorize-IsClean p s c in
      elim (Bool-cases (ltb (body_max - u.len) (length p.bytes))) [
        | inl y ↦
            rw y (
              wiped-Leaves t (fail enomem) none (post_overflow handle u)
                (post_overflow-IsWiped u d))
        | inr n ↦
            let e =
              body_append-IsClean p.bytes u d
                (omega (arith, d.within, not_ltb (body_max - u.len) (length p.bytes) n)) in
            rw n (ended final more e)
      ]
    where
      ended :
          (b : Bool)
          → (b ≡ false → t ≡ more_data)
          → IsClean (body_append p.bytes (authorize p s))
          → let v = body_append p.bytes (authorize p s) in
            Leaves t (
              if b
              then (value 0, some (post_final handle v).0, (post_final handle v).1)
              else (value 0, none, v))
      ended true m e =
          let v = body_append p.bytes (authorize p s) in
          wiped-Leaves t (value 0) (some (post_final handle v).0) (post_final handle v).1
            (post_final-IsWiped v e)
      ended false m e = (e, λ q. absurd (more_never t (m refl) 0 q))

  post-Leaves :
      (t : Transaction) (p : Part) (s : Portal W) → IsClean s → Leaves t (post handle t p s)
  unfolding post
  post-Leaves aborted p s c = wiped-Leaves aborted (value 0) none _ (post_end-IsWiped aborted s c)
  post-Leaves complete p s c =
      wiped-Leaves complete (value 0) none _ (post_end-IsWiped complete s c)
  post-Leaves more_data p s c = post_part-Leaves more_data false p s (λ e. refl) c
  post-Leaves final_data p s c = post_part-Leaves final_data true p s (λ e. cc) c

  -- Every call of `post_handler` keeps the buffer clean: its size, the length of the body within it,
  -- and zeros behind the body. A call that ends the request, by its last part, by the end or the
  -- abortion of the transaction, or because a part does not fit, leaves nothing of the body.
  pub post_wipes :
      (t : Transaction) (p : Part) (s : Portal W)
      → IsClean s
      → let r = post handle t p s in IsClean r.2 × (ends_request t r.0 ≡ true → IsWiped r.2)
  post_wipes t p s c = post-Leaves t p s c
