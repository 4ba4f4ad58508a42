-- ===== src/Prelude/Windows.antt =====
-- Laws of the windows of lists: `take`, `drop` and `replicate` against `++`.
use Prim.Native.Nat.{ℕ, zero, suc, ◌+◌, ◌-◌, ◌≤◌}
use mathlib.Core.Path.{◌≡◌, refl, ap}
use mathlib.Core.List.{List, [], ◌∷◌, ◌++◌}
use native.Mathlib.Omega.{arith}
use oskey_firmware.Prelude.Lists.{length, take, drop, replicate}

module _ {ℓ} {A : Type ℓ} where
  pub take-append-take :
      (n m k : ℕ) (xs : List A) → n + m ≡ k → take n xs ++ take m (drop n xs) ≡ take k xs
  take-append-take zero m k xs e = ap (λ i. take i xs) (omega arith)
  take-append-take (suc n) m zero xs e = absurd (omega arith)
  take-append-take (suc n) zero (suc k) [] e = refl
  take-append-take (suc n) (suc m) (suc k) [] e = refl
  take-append-take (suc n) m (suc k) (x ∷ xs) e =
      ap (λ ys. x ∷ ys) (take-append-take n m k xs (omega arith))

  pub drop-drop : (n m k : ℕ) (xs : List A) → n + m ≡ k → drop m (drop n xs) ≡ drop k xs
  drop-drop zero m k xs e = ap (λ i. drop i xs) (omega arith)
  drop-drop (suc n) m zero xs e = absurd (omega arith)
  drop-drop (suc n) zero (suc k) [] e = refl
  drop-drop (suc n) (suc m) (suc k) [] e = refl
  drop-drop (suc n) m (suc k) (x ∷ xs) e = drop-drop n m k xs (omega arith)

  pub take-append_length : (xs ys : List A) (n : ℕ) → length xs ≡ n → take n (xs ++ ys) ≡ xs
  take-append_length [] ys zero e = refl
  take-append_length [] ys (suc n) e = absurd (omega arith)
  take-append_length (x ∷ xs) ys zero e = absurd (omega arith)
  take-append_length (x ∷ xs) ys (suc n) e =
      ap (λ zs. x ∷ zs) (take-append_length xs ys n (omega arith))

  pub drop-append_length : (xs ys : List A) (n : ℕ) → length xs ≡ n → drop n (xs ++ ys) ≡ ys
  drop-append_length [] ys zero e = refl
  drop-append_length [] ys (suc n) e = absurd (omega arith)
  drop-append_length (x ∷ xs) ys zero e = absurd (omega arith)
  drop-append_length (x ∷ xs) ys (suc n) e = drop-append_length xs ys n (omega arith)

  pub take-append-drop : (n : ℕ) (xs : List A) → take n xs ++ drop n xs ≡ xs
  take-append-drop zero xs = refl
  take-append-drop (suc n) [] = refl
  take-append-drop (suc n) (x ∷ xs) = ap (λ ys. x ∷ ys) (take-append-drop n xs)

  pub length-drop : (n : ℕ) (xs : List A) → length (drop n xs) ≡ length xs - n
  length-drop zero xs = omega arith
  length-drop (suc n) [] = omega arith
  length-drop (suc n) (x ∷ xs) = omega (arith, length-drop n xs)

  pub take_all : (n : ℕ) (xs : List A) → length xs ≤ n → take n xs ≡ xs
  take_all zero [] h = refl
  take_all (suc n) [] h = refl
  take_all zero (x ∷ xs) h = absurd (omega arith)
  take_all (suc n) (x ∷ xs) h = ap (λ ys. x ∷ ys) (take_all n xs (omega arith))

  pub drop_all : (n : ℕ) (xs : List A) → length xs ≤ n → drop n xs ≡ []
  drop_all zero [] h = refl
  drop_all (suc n) [] h = refl
  drop_all zero (x ∷ xs) h = absurd (omega arith)
  drop_all (suc n) (x ∷ xs) h = drop_all n xs (omega arith)

  pub replicate-append :
      (n m k : ℕ) (a : A) → n + m ≡ k → replicate n a ++ replicate m a ≡ replicate k a
  replicate-append zero m k a e = ap (λ i. replicate i a) (omega arith)
  replicate-append (suc n) m zero a e = absurd (omega arith)
  replicate-append (suc n) m (suc k) a e =
      ap (λ ys. a ∷ ys) (replicate-append n m k a (omega arith))

  pub drop-replicate : (n m k : ℕ) (a : A) → n + k ≡ m → drop n (replicate m a) ≡ replicate k a
  drop-replicate zero m k a e = ap (λ i. replicate i a) (omega arith)
  drop-replicate (suc n) zero k a e = absurd (omega arith)
  drop-replicate (suc n) (suc m) k a e = drop-replicate n m k a (omega arith)

  pub drop-append : (n : ℕ) (xs ys : List A) → n ≤ length xs → drop n (xs ++ ys) ≡ drop n xs ++ ys
  drop-append zero xs ys h = refl
  drop-append (suc n) [] ys h = absurd (omega arith)
  drop-append (suc n) (x ∷ xs) ys h = drop-append n xs ys (omega arith)
