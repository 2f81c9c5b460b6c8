-- ===== src/Prelude/Lists.antt =====
-- Lists measured and cut by native numbers, under the library's names.
use Prim.Native.Nat.{ℕ, zero, suc, ◌+◌, ◌-◌, ◌≤◌, min}
use mathlib.Core.Path.{◌≡◌, refl, ap}
use mathlib.Core.List.{List, [], ◌∷◌, ◌++◌}
use mathlib.Core.Option.{Option, none, some}
use native.Mathlib.Omega.{arith}

module _ {ℓ} {A : Type ℓ} where
  abbrev pub length : List A → ℕ
  length [] = 0
  length (x ∷ xs) = suc (length xs)

  abbrev pub get_elem? : List A → ℕ → Option A
  get_elem? [] i = none
  get_elem? (x ∷ xs) zero = some x
  get_elem? (x ∷ xs) (suc i) = get_elem? xs i

  abbrev pub take : ℕ → List A → List A
  take zero xs = []
  take (suc n) [] = []
  take (suc n) (x ∷ xs) = x ∷ take n xs

  abbrev pub drop : ℕ → List A → List A
  drop zero xs = xs
  drop (suc n) [] = []
  drop (suc n) (x ∷ xs) = drop n xs

  pub length-append : (xs ys : List A) → length (xs ++ ys) ≡ length xs + length ys
  length-append [] ys = omega arith
  length-append (x ∷ xs) ys = omega (arith, length-append xs ys)

  pub take-append-drop : (n : ℕ) (xs : List A) → take n xs ++ drop n xs ≡ xs
  take-append-drop zero xs = refl
  take-append-drop (suc n) [] = refl
  take-append-drop (suc n) (x ∷ xs) = rw (take-append-drop n xs)

  pub length-take : (n : ℕ) (xs : List A) → length (take n xs) ≡ min n (length xs)
  length-take zero xs = omega arith
  length-take (suc n) [] = omega arith
  length-take (suc n) (x ∷ xs) = omega (arith, length-take n xs)

  pub length-drop : (n : ℕ) (xs : List A) → length (drop n xs) ≡ length xs - n
  length-drop zero xs = omega arith
  length-drop (suc n) [] = omega arith
  length-drop (suc n) (x ∷ xs) = omega (arith, length-drop n xs)

  pub take_all : (n : ℕ) (xs : List A) → length xs ≤ n → take n xs ≡ xs
  take_all zero [] h = refl
  take_all zero (x ∷ xs) h = absurd (omega arith)
  take_all (suc n) [] h = refl
  take_all (suc n) (x ∷ xs) h = ap (◌∷◌ x) (take_all n xs (omega arith))

  pub take-append-take : (n m : ℕ) (xs : List A) → take n xs ++ take m (drop n xs) ≡ take (n + m) xs
  take-append-take zero m xs = let e : 0 + m ≡ m = omega arith in rw e
  take-append-take (suc n) zero [] = let e : suc n + 0 ≡ suc n = omega arith in rw e
  take-append-take (suc n) (suc m) [] =
      let e : suc n + suc m ≡ suc (n + suc m) = omega arith in rw e
  take-append-take (suc n) m (x ∷ xs) =
      let e : suc n + m ≡ suc (n + m) = omega arith in rw e (ap (◌∷◌ x) (take-append-take n m xs))

  pub drop-drop : (n m : ℕ) (xs : List A) → drop m (drop n xs) ≡ drop (n + m) xs
  drop-drop zero m xs = let e : 0 + m ≡ m = omega arith in rw e
  drop-drop (suc n) zero [] = let e : suc n + 0 ≡ suc n = omega arith in rw e
  drop-drop (suc n) (suc m) [] = let e : suc n + suc m ≡ suc (n + suc m) = omega arith in rw e
  drop-drop (suc n) m (x ∷ xs) =
      let e : suc n + m ≡ suc (n + m) = omega arith in rw e (drop-drop n m xs)

  pub drop-length-take : (m : ℕ) (xs : List A) → drop (length (take m xs)) xs ≡ drop m xs
  drop-length-take zero xs = refl
  drop-length-take (suc m) [] = refl
  drop-length-take (suc m) (x ∷ xs) = drop-length-take m xs

  pub take-append_length :
      (m : ℕ) (xs ys : List A) → take (m + length xs) (xs ++ ys) ≡ xs ++ take m ys
  take-append_length m [] ys = let e : m + 0 ≡ m = omega arith in rw e
  take-append_length m (x ∷ xs) ys =
      let e : m + suc (length xs) ≡ suc (m + length xs) = omega arith in
      rw e (ap (◌∷◌ x) (take-append_length m xs ys))
