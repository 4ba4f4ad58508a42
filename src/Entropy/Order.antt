-- ===== src/Entropy/Order.antt =====
-- Sources are completed and skipped in the order of their bits: what the masks say of the sources
-- from the next one up, and how they change when it joins the completed or the skipped ones.
use mathlib.Core.Path.{subst}
use oskey_firmware.Prelude.{
  ℕ, suc, Bool, refl, ◌||◌, ◌&&◌, not, ◌-◌, ◌*◌, ◌<◌, ◌≡◌, ◌≢◌, ◌⊎◌, inl, inr, sym, ◌∙◌, false, [],
  ◌++◌, ◌∷◌, arith,
}
use oskey_firmware.Entropy.Source.{
  Mask, overlaps, without, is_nonempty, popcount, next_source, bits, union, mask_codes,
}

abbrev pub LaterUntouched : Mask → Mask → Mask → Type 0
LaterUntouched selected completed skipped =
    overlaps (union completed skipped) (bits (32 - 2 * next_source selected completed skipped))
    ≡ false

pub next_source_cases :
    (selected completed skipped : Mask)
    → (next_source selected completed skipped ≡ 0)
      ⊎ (next_source selected completed skipped ≡ 2)
      ⊎ (next_source selected completed skipped ≡ 4)
      ⊎ (next_source selected completed skipped ≡ 8)
      ⊎ (next_source selected completed skipped ≡ 16)
unfolding next_source
next_source_cases a b c = ground arith

-- The source `n` is selected, and neither completed nor skipped.
record IsFree (a b c : Mask) (n : ℕ) : Type 0 where
  selected_has : is_nonempty (without (bits n) a) ≡ false
  completed_has_not : overlaps (bits n) b ≡ false
  skipped_has_not : overlaps (bits n) c ≡ false
  not_rng : (bits n).rng ≡ false

IsFree-2 : (a b c : Mask) → next_source a b c ≡ 2 → IsFree a b c 2
unfolding next_source
IsFree-2 a b c e = ground arith

IsFree-4 : (a b c : Mask) → next_source a b c ≡ 4 → IsFree a b c 4
unfolding next_source
IsFree-4 a b c e = ground arith

IsFree-8 : (a b c : Mask) → next_source a b c ≡ 8 → IsFree a b c 8
unfolding next_source
IsFree-8 a b c e = ground arith

IsFree-16 : (a b c : Mask) → next_source a b c ≡ 16 → IsFree a b c 16
unfolding next_source
IsFree-16 a b c e = ground arith

IsFree-next : (n : ℕ) (a b c : Mask) → next_source a b c ≡ n → n ≢ 0 → IsFree a b c n
IsFree-next n a b c e h = elim (next_source_cases a b c) [
  | inl z ↦ absurd (h (sym e ∙ z))
  | inr (inl z) ↦ subst (IsFree a b c) (sym z ∙ e) (IsFree-2 a b c z)
  | inr (inr (inl z)) ↦ subst (IsFree a b c) (sym z ∙ e) (IsFree-4 a b c z)
  | inr (inr (inr (inl z))) ↦ subst (IsFree a b c) (sym z ∙ e) (IsFree-8 a b c z)
  | inr (inr (inr (inr z))) ↦ subst (IsFree a b c) (sym z ∙ e) (IsFree-16 a b c z)
]

-- The Boolean facts behind the masks' unions, one bit at a time.
or_false : (x y : Bool) → x || y ≡ false → (x ≡ false) × (y ≡ false)
or_false x y h = ground arith

false_or : {x y : Bool} → x ≡ false → y ≡ false → x || y ≡ false
false_or p q = ground arith

record NoBits (r t i c m : Bool) : Type 0 where
  no_r : r ≡ false
  no_t : t ≡ false
  no_i : i ≡ false
  no_c : c ≡ false
  no_m : m ≡ false

NoBits-or : (r t i c m : Bool) → r || t || i || c || m ≡ false → NoBits r t i c m
NoBits-or r t i c m h = ground arith

or-NoBits : {r t i c m : Bool} → NoBits r t i c m → r || t || i || c || m ≡ false
or-NoBits n = rw (n.no_r, n.no_t, n.no_i, n.no_c, n.no_m) refl

disjoint_bit : (x y z : Bool) → x && y ≡ false → z && y ≡ false → (x || z) && y ≡ false
disjoint_bit x y z p q = ground arith

without_bit : (x y z : Bool) → x && not y ≡ false → z && not y ≡ false → (x || z) && not y ≡ false
without_bit x y z p q = ground arith

overlaps-union :
    (a b c : Mask) → overlaps a b ≡ false → overlaps c b ≡ false → overlaps (union a c) b ≡ false
overlaps-union a b c p q =
    let x = NoBits-or _ _ _ _ _ p in
    let y = NoBits-or _ _ _ _ _ q in
    or-NoBits (record {
      no_r = disjoint_bit a.rng b.rng c.rng x.no_r y.no_r;
      no_t = disjoint_bit a.touch_bit b.touch_bit c.touch_bit x.no_t y.no_t;
      no_i = disjoint_bit a.imu_bit b.imu_bit c.imu_bit x.no_i y.no_i;
      no_c = disjoint_bit a.camera_bit b.camera_bit c.camera_bit x.no_c y.no_c;
      no_m = disjoint_bit a.microphone_bit b.microphone_bit c.microphone_bit x.no_m y.no_m;
    })

without-union :
    (a b c : Mask)
    → is_nonempty (without a b) ≡ false
    → is_nonempty (without c b) ≡ false
    → is_nonempty (without (union a c) b) ≡ false
without-union a b c p q =
    let x = NoBits-or _ _ _ _ _ p in
    let y = NoBits-or _ _ _ _ _ q in
    or-NoBits (record {
      no_r = without_bit a.rng b.rng c.rng x.no_r y.no_r;
      no_t = without_bit a.touch_bit b.touch_bit c.touch_bit x.no_t y.no_t;
      no_i = without_bit a.imu_bit b.imu_bit c.imu_bit x.no_i y.no_i;
      no_c = without_bit a.camera_bit b.camera_bit c.camera_bit x.no_c y.no_c;
      no_m = without_bit a.microphone_bit b.microphone_bit c.microphone_bit x.no_m y.no_m;
    })

and_comm : (x y : Bool) → x && y ≡ y && x
and_comm x y = ground arith

overlaps_comm : (a b : Mask) → overlaps a b ≡ overlaps b a
overlaps_comm a b =
    rw
      (
        and_comm a.rng b.rng,
        and_comm a.touch_bit b.touch_bit,
        and_comm a.imu_bit b.imu_bit,
        and_comm a.camera_bit b.camera_bit,
        and_comm a.microphone_bit b.microphone_bit,
      )
      refl

rng-union : (a b : Mask) → b.rng ≡ false → (union a b).rng ≡ a.rng
rng-union a b h = ground arith

-- A source that is next to do can join the completed ones.
pub union-next :
    (n : ℕ) (selected completed skipped : Mask)
    → next_source selected completed skipped ≡ n
    → n ≢ 0
    → overlaps completed skipped ≡ false
    → is_nonempty (without completed selected) ≡ false
    → (overlaps (union completed (bits n)) skipped ≡ false)
      × (is_nonempty (without (union completed (bits n)) selected) ≡ false)
      × ((union completed (bits n)).rng ≡ completed.rng)
union-next n a b c e h d s =
    let f = IsFree-next n a b c e h in
    (
      overlaps-union b c (bits n) d f.skipped_has_not,
      without-union b a (bits n) s f.selected_has,
      rng-union b (bits n) f.not_rng,
    )

-- So can it join the skipped ones.
pub union-skipped :
    (n : ℕ) (selected completed skipped : Mask)
    → next_source selected completed skipped ≡ n
    → n ≢ 0
    → overlaps completed skipped ≡ false
    → is_nonempty (without skipped selected) ≡ false
    → (overlaps completed (union skipped (bits n)) ≡ false)
      × (is_nonempty (without (union skipped (bits n)) selected) ≡ false)
      × ((union skipped (bits n)).rng ≡ skipped.rng)
union-skipped n a b c e h d s =
    let f = IsFree-next n a b c e h in
    (
      overlaps_comm b (union c (bits n))
          ∙ overlaps-union c b (bits n) (overlaps_comm c b ∙ d) f.completed_has_not,
      without-union c a (bits n) s f.selected_has,
      rng-union c (bits n) f.not_rng,
    )

-- 32 - n are the bits from n up.
abbrev ClearFrom : ℕ → Mask → Type 0
ClearFrom n m = overlaps m (bits (32 - n)) ≡ false

-- No source is above the next one if that is the last one or none.
abbrev EndsAt : ℕ → Type 0
EndsAt n = (n ≡ 0) ⊎ (n ≡ 16)

overlaps-none : (m : Mask) → overlaps m (bits 0) ≡ false
overlaps-none m = ground arith

later_of_end : (a b c : Mask) → EndsAt (next_source a b c) → LaterUntouched a b c
later_of_end a b c (inl e) = rw e (overlaps-none (union b c))
later_of_end a b c (inr e) = rw e (overlaps-none (union b c))

ClearFrom-2 :
    (a b c : Mask) → next_source a b c ≡ 2 → LaterUntouched a b c → ClearFrom 2 b × ClearFrom 2 c
unfolding next_source
ClearFrom-2 a b c e l = ground arith

later_of_clear_2 :
    (a b c : Mask)
    → next_source a b c ≡ 2
    → ClearFrom 2 b
    → ClearFrom 2 c
    → LaterUntouched a (union b (bits 2)) c × LaterUntouched a b (union c (bits 2))
unfolding next_source
later_of_clear_2 a b c e p q = ground arith

codes_of_clear_2 :
    (b : Mask)
    → ClearFrom 2 b
    → b.rng ≡ false
    → (mask_codes (union b (bits 2)) ≡ mask_codes b ++ 2 ∷ [])
      × (popcount (union b (bits 2)) ≡ suc (popcount b))
      × (popcount b < 4)
codes_of_clear_2 b p r = ground arith

ClearFrom-4 :
    (a b c : Mask) → next_source a b c ≡ 4 → LaterUntouched a b c → ClearFrom 4 b × ClearFrom 4 c
unfolding next_source
ClearFrom-4 a b c e l = ground arith

later_of_clear_4 :
    (a b c : Mask)
    → next_source a b c ≡ 4
    → ClearFrom 4 b
    → ClearFrom 4 c
    → LaterUntouched a (union b (bits 4)) c × LaterUntouched a b (union c (bits 4))
unfolding next_source
later_of_clear_4 a b c e p q = ground arith

codes_of_clear_4 :
    (b : Mask)
    → ClearFrom 4 b
    → b.rng ≡ false
    → (mask_codes (union b (bits 4)) ≡ mask_codes b ++ 4 ∷ [])
      × (popcount (union b (bits 4)) ≡ suc (popcount b))
      × (popcount b < 4)
codes_of_clear_4 b p r = ground arith

ClearFrom-8 :
    (a b c : Mask) → next_source a b c ≡ 8 → LaterUntouched a b c → ClearFrom 8 b × ClearFrom 8 c
unfolding next_source
ClearFrom-8 a b c e l = ground arith

next_after_8 :
    (a b c : Mask)
    → next_source a b c ≡ 8
    → EndsAt (next_source a (union b (bits 8)) c) × EndsAt (next_source a b (union c (bits 8)))
unfolding next_source
next_after_8 a b c e = ground arith

later_of_clear_8 :
    (a b c : Mask)
    → next_source a b c ≡ 8
    → ClearFrom 8 b
    → ClearFrom 8 c
    → LaterUntouched a (union b (bits 8)) c × LaterUntouched a b (union c (bits 8))
later_of_clear_8 a b c e p q =
    let (x, y) = next_after_8 a b c e in
    (later_of_end a (union b (bits 8)) c x, later_of_end a b (union c (bits 8)) y)

codes_of_clear_8 :
    (b : Mask)
    → ClearFrom 8 b
    → b.rng ≡ false
    → (mask_codes (union b (bits 8)) ≡ mask_codes b ++ 8 ∷ [])
      × (popcount (union b (bits 8)) ≡ suc (popcount b))
      × (popcount b < 4)
codes_of_clear_8 b p r = ground arith

ClearFrom-16 :
    (a b c : Mask) → next_source a b c ≡ 16 → LaterUntouched a b c → ClearFrom 16 b × ClearFrom 16 c
unfolding next_source
ClearFrom-16 a b c e l = ground arith

next_after_16 :
    (a b c : Mask)
    → next_source a b c ≡ 16
    → EndsAt (next_source a (union b (bits 16)) c) × EndsAt (next_source a b (union c (bits 16)))
unfolding next_source
next_after_16 a b c e = ground arith

later_of_clear_16 :
    (a b c : Mask)
    → next_source a b c ≡ 16
    → ClearFrom 16 b
    → ClearFrom 16 c
    → LaterUntouched a (union b (bits 16)) c × LaterUntouched a b (union c (bits 16))
later_of_clear_16 a b c e p q =
    let (x, y) = next_after_16 a b c e in
    (later_of_end a (union b (bits 16)) c x, later_of_end a b (union c (bits 16)) y)

codes_of_clear_16 :
    (b : Mask)
    → ClearFrom 16 b
    → b.rng ≡ false
    → (mask_codes (union b (bits 16)) ≡ mask_codes b ++ 16 ∷ [])
      × (popcount (union b (bits 16)) ≡ suc (popcount b))
      × (popcount b < 4)
codes_of_clear_16 b p r = ground arith

-- The facts about one step, at the number of the next source.
record IsStep (a b c : Mask) (n : ℕ) : Type 0 where
  later_completed : LaterUntouched a (union b (bits n)) c
  later_skipped : LaterUntouched a b (union c (bits n))
  codes :
      b.rng ≡ false
      → (mask_codes (union b (bits n)) ≡ mask_codes b ++ n ∷ [])
        × (popcount (union b (bits n)) ≡ suc (popcount b))
        × (popcount b < 4)

IsStep-2 : (a b c : Mask) → next_source a b c ≡ 2 → LaterUntouched a b c → IsStep a b c 2
IsStep-2 a b c e l =
    let (p, q) = ClearFrom-2 a b c e l in
    let (x, y) = later_of_clear_2 a b c e p q in
    record { later_completed = x; later_skipped = y; codes = codes_of_clear_2 b p }

IsStep-4 : (a b c : Mask) → next_source a b c ≡ 4 → LaterUntouched a b c → IsStep a b c 4
IsStep-4 a b c e l =
    let (p, q) = ClearFrom-4 a b c e l in
    let (x, y) = later_of_clear_4 a b c e p q in
    record { later_completed = x; later_skipped = y; codes = codes_of_clear_4 b p }

IsStep-8 : (a b c : Mask) → next_source a b c ≡ 8 → LaterUntouched a b c → IsStep a b c 8
IsStep-8 a b c e l =
    let (p, q) = ClearFrom-8 a b c e l in
    let (x, y) = later_of_clear_8 a b c e p q in
    record { later_completed = x; later_skipped = y; codes = codes_of_clear_8 b p }

IsStep-16 : (a b c : Mask) → next_source a b c ≡ 16 → LaterUntouched a b c → IsStep a b c 16
IsStep-16 a b c e l =
    let (p, q) = ClearFrom-16 a b c e l in
    let (x, y) = later_of_clear_16 a b c e p q in
    record { later_completed = x; later_skipped = y; codes = codes_of_clear_16 b p }

IsStep-next :
    (n : ℕ) (a b c : Mask) → next_source a b c ≡ n → n ≢ 0 → LaterUntouched a b c → IsStep a b c n
IsStep-next n a b c e h l = elim (next_source_cases a b c) [
  | inl z ↦ absurd (h (sym e ∙ z))
  | inr (inl z) ↦ subst (IsStep a b c) (sym z ∙ e) (IsStep-2 a b c z l)
  | inr (inr (inl z)) ↦ subst (IsStep a b c) (sym z ∙ e) (IsStep-4 a b c z l)
  | inr (inr (inr (inl z))) ↦ subst (IsStep a b c) (sym z ∙ e) (IsStep-8 a b c z l)
  | inr (inr (inr (inr z))) ↦ subst (IsStep a b c) (sym z ∙ e) (IsStep-16 a b c z l)
]

pub later-union :
    (n : ℕ) (selected completed skipped : Mask)
    → next_source selected completed skipped ≡ n
    → n ≢ 0
    → LaterUntouched selected completed skipped
    → LaterUntouched selected (union completed (bits n)) skipped
later-union n a b c e h l = (IsStep-next n a b c e h l).later_completed

pub later-skipped :
    (n : ℕ) (selected completed skipped : Mask)
    → next_source selected completed skipped ≡ n
    → n ≢ 0
    → LaterUntouched selected completed skipped
    → LaterUntouched selected completed (union skipped (bits n))
later-skipped n a b c e h l = (IsStep-next n a b c e h l).later_skipped

-- The next source comes behind the completed ones.
pub mask_codes-union :
    (n : ℕ) (selected completed skipped : Mask)
    → next_source selected completed skipped ≡ n
    → n ≢ 0
    → LaterUntouched selected completed skipped
    → completed.rng ≡ false
    → (mask_codes (union completed (bits n)) ≡ mask_codes completed ++ n ∷ [])
      × (popcount (union completed (bits n)) ≡ suc (popcount completed))
      × (popcount completed < 4)
mask_codes-union n a b c e h l = (IsStep-next n a b c e h l).codes
