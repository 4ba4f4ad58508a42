-- ===== src/Portal/Forms.antt =====
-- What reaches the portal's endpoints: nothing without the authorizing header, and with it the whole
-- body in the order of its parts.
use oskey_firmware.Prelude.{
  ℕ, ◌+◌, ◌-◌, ◌≤◌, ◌≡◌, refl, sym, append-nil, ap, ◌∙◌, Bool, true, false, Option, none, some,
  List, [], ◌∷◌, ◌++◌, arith, Bool-cases, inl, inr, ltb, length, length-append, append_assoc, Code,
  value, All, if◌then◌else◌,
}
use mathlib.Core.Path.{subst}
use oskey_firmware.Portal.Endpoints.{
  Transaction, aborted, complete, more_data, final_data, HttpStatus, forbidden, body_max, Services,
  wifi_post, hostname_post, reboot_post,
}
use oskey_firmware.Portal.Requests.{
  HeaderStatus, headers_none, headers_ok, headers_dropped, Part, is_headed, has_authorization,
  Portal, Handler, body, body_reset, body_append, authorize, post_end, post_final, post_overflow,
  post_part, post,
}
use oskey_firmware.Portal.Guarded.{IsClean, body-append, body_append-IsClean}

-- The endpoints that `post_handler` is registered for.
pub data Endpoint : Type 0 where
  wifi_endpoint hostname_endpoint reboot_endpoint : Endpoint

abbrev pub handler_of : {W : Type 0} → Services W → Endpoint → Handler W
handler_of services wifi_endpoint = wifi_post services
handler_of services hostname_endpoint = hostname_post services
handler_of services reboot_endpoint = reboot_post services

-- A part without the header that authorizes.
abbrev pub IsPlain : Transaction × Part → Type 0
IsPlain c = has_authorization c.1 ≡ false

abbrev pub IsRefusal : Option HttpStatus → Type 0
IsRefusal none = Unit {0}
IsRefusal (some answer) = answer ≡ forbidden

aborted_harmless :
    {W : Type 0} (services : Services W) (endpoint : Endpoint) (bytes : List ℕ) (w : W)
    → (handler_of services endpoint aborted bytes w).1 ≡ w
unfolding wifi_post hostname_post reboot_post
aborted_harmless services wifi_endpoint bytes w = refl
aborted_harmless services hostname_endpoint bytes w = refl
aborted_harmless services reboot_endpoint bytes w = refl

body_append-same :
    {W : Type 0} (bytes : List ℕ) (s : Portal W)
    → ((body_append bytes s).world ≡ s.world)
      × ((body_append bytes s).authorized ≡ s.authorized)
      × ((body_append bytes s).len ≡ s.len + length bytes)
unfolding body_append
body_append-same bytes s = (refl, refl, refl)

-- The calls of one or more requests to an endpoint, with the responses, newest first.
unfoldable pub run_calls :
    {W : Type 0}
    → Handler W
    → List (Transaction × Part)
    → List (Option HttpStatus) × Portal W
    → List (Option HttpStatus) × Portal W
run_calls handle [] r = r
run_calls handle ((t, p) ∷ rest) (answers, s) =
    let (rc, answer, s') = post handle t p s in run_calls handle rest (answer ∷ answers, s')

module _ {W : Type 0} (services : Services W) (endpoint : Endpoint) where
  -- A call that is refused.
  abbrev IsRefused : Portal W → Code × Option HttpStatus × Portal W → Type 0
  IsRefused s r = (r.2.world ≡ s.world) × (r.2.authorized ≡ false) × IsRefusal r.1

  authorize-plain :
      (p : Part) (s : Portal W)
      → has_authorization p ≡ false
      → s.authorized ≡ false
      → ((authorize p s).authorized ≡ false) × ((authorize p s).world ≡ s.world)
  unfolding authorize
  authorize-plain p s h a = ground arith

  post_final-refused :
      (p : Part) (s : Portal W)
      → s.authorized ≡ false
      → let v = body_append p.bytes s in
        let r = post_final (handler_of services endpoint) v in
        (r.1.world ≡ s.world) × (r.1.authorized ≡ false) × (r.0 ≡ forbidden)
  unfolding post_final body_append body_reset
  post_final-refused p s a = rw a (refl, refl, refl)

  post_overflow-refused :
      (s : Portal W)
      → let r = post_overflow (handler_of services endpoint) s in
        (r.world ≡ s.world) × (r.authorized ≡ false)
  unfolding post_overflow body_reset
  post_overflow-refused s = (aborted_harmless services endpoint (body s) s.world, refl)

  post_part-IsRefused :
      (final : Bool) (p : Part) (s : Portal W)
      → has_authorization p ≡ false
      → s.authorized ≡ false
      → IsRefused s (post_part (handler_of services endpoint) final p s)
  unfolding post_part
  post_part-IsRefused final p s h a =
      let u = authorize p s in
      let (b, w) = authorize-plain p s h a in
      elim (Bool-cases (ltb (body_max - u.len) (length p.bytes))) [
        | inl y ↦ let (x, z) = post_overflow-refused u in rw y (x ∙ w, z, tt)
        | inr n ↦ rw n (ended final b w)
      ]
    where
      ended :
          (f : Bool)
          → (authorize p s).authorized ≡ false
          → (authorize p s).world ≡ s.world
          → let v = body_append p.bytes (authorize p s) in
            let (answer, t) = post_final (handler_of services endpoint) v in
            IsRefused s (if f then (value 0, some answer, t) else (value 0, none, v))
      ended true b w = let (x, y, z) = post_final-refused p (authorize p s) b in (x ∙ w, y, z)
      ended false b w =
          let (x, y, z) = body_append-same p.bytes (authorize p s) in (x ∙ w, y ∙ b, tt)

  post-IsRefused :
      (t : Transaction) (p : Part) (s : Portal W)
      → has_authorization p ≡ false
      → s.authorized ≡ false
      → IsRefused s (post (handler_of services endpoint) t p s)
  unfolding post post_end body_reset
  post-IsRefused aborted p s h a = rw a (refl, refl, tt)
  post-IsRefused complete p s h a = rw a (refl, refl, tt)
  post-IsRefused more_data p s h a = post_part-IsRefused false p s h a
  post-IsRefused final_data p s h a = post_part-IsRefused true p s h a

  -- Without the authorizing header on any of their parts, no requests to any endpoint change what is
  -- behind it, and all that are answered are answered 403.
  pub unauthorized_refused :
      (calls : List (Transaction × Part)) (answers : List (Option HttpStatus)) (s : Portal W)
      → All IsPlain calls
      → s.authorized ≡ false
      → All IsRefusal answers
      → let r = run_calls (handler_of services endpoint) calls (answers, s) in
        (r.1.world ≡ s.world) × All IsRefusal r.0
  unfolding run_calls
  unauthorized_refused [] answers s h a q = (refl, q)
  unauthorized_refused ((t, p) ∷ rest) answers s h a q =
      let (w, b, f) = post-IsRefused t p s h.0 a in
      let (rc, answer, s') = post (handler_of services endpoint) t p s in
      let (x, y) = unauthorized_refused rest (answer ∷ answers) s' h.1 b (f, q) in (x ∙ w, y)

-- A later part of a body, which comes without headers.
abbrev pub later_part : List ℕ → Part
later_part bytes = record { status = headers_none; headers = []; bytes = bytes }

abbrev pub joined_parts : List (List ℕ) → List ℕ
joined_parts [] = []
joined_parts (x ∷ xs) = x ++ joined_parts xs

module _ {W : Type 0} (handle : Handler W) where
  -- The calls for a body: a first part, and later ones without headers; the last is the final one.
  unfoldable pub post_whole : Part → List (List ℕ) → Portal W → Code × Option HttpStatus × Portal W
  post_whole first [] s = post handle final_data first s
  post_whole first (x ∷ xs) s = post_whole (later_part x) xs (post handle more_data first s).2

  post-more :
      (p : Part) (s : Portal W)
      → let u = authorize p s in
        u.len + length p.bytes ≤ body_max
        → post handle more_data p s ≡ (value 0, none, body_append p.bytes u)
  unfolding post post_part
  post-more p s h =
      let u = authorize p s in
      let fits : ltb (body_max - u.len) (length p.bytes) ≡ false = ground arith in rw fits refl

  post_final-answers :
      (s : Portal W)
      → s.authorized ≡ true
      → ((post_final handle s).0 ≡ (handle final_data (body s) s.world).0)
        × ((post_final handle s).1.world ≡ (handle final_data (body s) s.world).1)
  unfolding post_final body_reset
  post_final-answers s a = rw a (refl, refl)

  -- The endpoint has been given the body, and its status is the response.
  abbrev pub IsAnswered : List ℕ → W → Code × Option HttpStatus × Portal W → Type 0
  IsAnswered form w r =
      let answer = handle final_data form w in
      (r.0 ≡ value 0) × (r.1 ≡ some answer.0) × (r.2.world ≡ answer.1)

  IsAnswered-cong :
      {form form' : List ℕ} {w w' : W} (r : Code × Option HttpStatus × Portal W)
      → form ≡ form'
      → w ≡ w'
      → IsAnswered form w r
      → IsAnswered form' w' r
  IsAnswered-cong {form = form} {w' = w'} r p q h =
      subst (λ f. IsAnswered f w' r) p (subst (λ v. IsAnswered form v r) q h)

  post-last :
      (p : Part) (s : Portal W)
      → let u = authorize p s in
        IsClean u
        → u.authorized ≡ true
        → u.len + length p.bytes ≤ body_max
        → IsAnswered (body u ++ p.bytes) u.world (post handle final_data p s)
  unfolding post post_part
  post-last p s c a h =
      let u = authorize p s in
      let fits : ltb (body_max - u.len) (length p.bytes) ≡ false = ground arith in
      let v = body_append p.bytes u in
      let (x, y, z) = body_append-same p.bytes u in
      let (answered, moved) = post_final-answers v (y ∙ a) in
      let same : handle final_data (body v) v.world
          ≡ handle final_data (body u ++ p.bytes) u.world =
        ap (λ b. handle final_data b v.world) (body-append p.bytes u c)
        ∙ ap (handle final_data (body u ++ p.bytes)) x in
      rw fits (refl, ap some (answered ∙ ap (λ r. r.0) same), moved ∙ ap (λ r. r.1) same)

  authorize-later : (bytes : List ℕ) (s : Portal W) → authorize (later_part bytes) s ≡ s
  unfolding authorize
  authorize-later bytes s = refl

  -- What holds of a body in a state.
  abbrev Delivers : Portal W → Part → List (List ℕ) → Portal W → Type 0
  Delivers u first rest s =
      IsClean u
      → u.authorized ≡ true
      → u.len + length (first.bytes ++ joined_parts rest) ≤ body_max
      → IsAnswered (body u ++ (first.bytes ++ joined_parts rest)) u.world (post_whole first rest s)

  later_taken :
      (x : List ℕ) (xs : List (List ℕ)) (s : Portal W)
      → Delivers (authorize (later_part x) s) (later_part x) xs s
      → Delivers s (later_part x) xs s
  later_taken x xs s = subst (λ u. Delivers u (later_part x) xs s) (authorize-later x s)

  post_whole-IsAnswered :
      (first : Part) (rest : List (List ℕ)) (s : Portal W)
      → let u = authorize first s in
        IsClean u
        → u.authorized ≡ true
        → u.len + length (first.bytes ++ joined_parts rest) ≤ body_max
        → IsAnswered
            (body u ++ (first.bytes ++ joined_parts rest))
            u.world
            (post_whole first rest s)
  unfolding post_whole
  post_whole-IsAnswered first [] s c a h =
      IsAnswered-cong (post handle final_data first s)
        (ap (λ b. body (authorize first s) ++ b) (sym (append-nil first.bytes))) refl
        (post-last first s c a (omega (arith, h, length-append {0} first.bytes [])))
  post_whole-IsAnswered first (x ∷ xs) s c a h =
      let u = authorize first s in
      let (w, y, z) = body_append-same first.bytes u in
      let long = length-append {0} first.bytes (joined_parts (x ∷ xs)) in
      let fits : u.len + length first.bytes ≤ body_max = omega (arith, long, h) in
      subst
        (λ r.
          IsAnswered (body u ++ (first.bytes ++ (x ++ joined_parts xs))) u.world
            (post_whole (later_part x) xs r.2))
        (sym (post-more first s fits))
        (IsAnswered-cong (post_whole (later_part x) xs (body_append first.bytes u)) (appended c) w (
          later_taken x xs (body_append first.bytes u)
            (post_whole-IsAnswered (later_part x) xs (body_append first.bytes u))
            (body_append-IsClean first.bytes u c fits) (y ∙ a) (omega (arith, long, h, z))))
    where
      appended :
          IsClean (authorize first s)
          → body (body_append first.bytes (authorize first s)) ++ (x ++ joined_parts xs)
            ≡ body (authorize first s) ++ (first.bytes ++ (x ++ joined_parts xs))
      appended k =
          ap (λ b. b ++ (x ++ joined_parts xs)) (body-append first.bytes (authorize first s) k)
          ∙ append_assoc (body (authorize first s)) first.bytes (x ++ joined_parts xs)

  headed :
      (status : HeaderStatus) (p : Part)
      → p.status ≡ status
      → has_authorization p ≡ true
      → is_headed p.status ≡ true
  unfolding has_authorization
  headed headers_none p e h = absurd (ground arith)
  headed headers_ok p e h = rw e refl
  headed headers_dropped p e h = rw e refl

  -- The part that carries the header decides over what the request before left.
  authorize-carrying :
      (p : Part) (s : Portal W)
      → has_authorization p ≡ true
      → authorize p s ≡ record s { authorized = true }
  unfolding authorize
  authorize-carrying p s h = rw (headed p.status p refl h) (ap (λ b. record s { authorized = b }) h)

  -- A body that fits the buffer and whose first part carries the authorizing header reaches the
  -- endpoint whole and in order, cut into one or any number of parts, of which the later ones come
  -- without headers, and the endpoint's status is the response.
  pub parts_reach_endpoint :
      (first : Part) (rest : List (List ℕ)) (s : Portal W)
      → IsClean s
      → has_authorization first ≡ true
      → s.len + length (first.bytes ++ joined_parts rest) ≤ body_max
      → IsAnswered (body s ++ (first.bytes ++ joined_parts rest)) s.world (post_whole first rest s)
  parts_reach_endpoint first rest s c a h = go (authorize-carrying first s a)
    where
      go :
          authorize first s ≡ record s { authorized = true }
          → IsAnswered
              (body s ++ (first.bytes ++ joined_parts rest))
              s.world
              (post_whole first rest s)
      go e =
          let len_same : (authorize first s).len ≡ s.len = ap (λ t. t.len) e in
          IsAnswered-cong (post_whole first rest s)
            (ap (λ t. body t ++ (first.bytes ++ joined_parts rest)) e) (ap (λ t. t.world) e)
            (post_whole-IsAnswered first rest s
              (subst (λ t. IsClean t) (sym e)
                (record { sized = c.sized; within = c.within; zeroed = c.zeroed }))
              (ap (λ t. t.authorized) e) (omega (arith, h, len_same)))
