-- ===== src/Tasks/Totals.antt =====
-- src/connection.rs: sums over the tasks of a connection.
use native.Mathlib.Decide.{dec_lt}
use rapsqlite.Prelude.{
  ℕ, zero, suc, ◌+◌, ◌≡◌, ◌≤◌, ◌<◌, refl, List, [], ◌∷◌, ◌++◌, some, get_elem?, set, arith, ◌==◌,
  false,
}

module _ {ℓ} {A : Type ℓ} where
  abbrev pub total : (A → ℕ) → List A → ℕ
  total w [] = 0
  total w (x ∷ xs) = w x + total w xs

  pub total-append : (w : A → ℕ) (xs : List A) (y : A) → total w (xs ++ y ∷ []) ≡ total w xs + w y
  total-append w [] y = omega arith
  total-append w (x ∷ xs) y = omega (arith, total-append w xs y)

  -- One summand is replaced.
  pub total-set :
      (w : A → ℕ) (xs : List A) (i : ℕ) (x y : A)
      → get_elem? xs i ≡ some x
      → total w (set xs i y) + w x ≡ total w xs + w y
  total-set w [] i x y e = cc
  total-set w (z ∷ xs) zero x y e = ground arith
  total-set w (z ∷ xs) (suc i) x y e = omega (arith, total-set w xs i x y e)

  pub le-total :
      (w : A → ℕ) (xs : List A) (i : ℕ) (x : A) → get_elem? xs i ≡ some x → w x ≤ total w xs
  le-total w [] i x e = cc
  le-total w (z ∷ xs) zero x e = ground arith
  le-total w (z ∷ xs) (suc i) x e = omega (arith, le-total w xs i x e)

  pub get_elem?-set_self :
      (xs : List A) (i : ℕ) (x y : A) → get_elem? xs i ≡ some x → get_elem? (set xs i y) i ≡ some y
  get_elem?-set_self [] i x y e = cc
  get_elem?-set_self (z ∷ xs) zero x y e = refl
  get_elem?-set_self (z ∷ xs) (suc i) x y e = get_elem?-set_self xs i x y e

  pub get_elem?-set_ne :
      (xs : List A) (i j : ℕ) (y : A) → (i == j) ≡ false → get_elem? (set xs i y) j ≡ get_elem? xs j
  get_elem?-set_ne [] i j y e = refl
  get_elem?-set_ne (z ∷ xs) zero zero y e = cc
  get_elem?-set_ne (z ∷ xs) zero (suc j) y e = refl
  get_elem?-set_ne (z ∷ xs) (suc i) zero y e = refl
  get_elem?-set_ne (z ∷ xs) (suc i) (suc j) y e = get_elem?-set_ne xs i j y (ground arith)

  -- A sum that is not 0 has a summand that is not.
  pub total_pos :
      (w : A → ℕ) (xs : List A)
      → 0 < total w xs
      → (i : ℕ) × (x : A) × (get_elem? xs i ≡ some x) × (0 < w x)
  total_pos w [] p = absurd (omega arith)
  total_pos w (x ∷ xs) p = elim (dec_lt 0 (w x)) [
    | yes here ↦ (0, x, refl, here)
    | no there ↦ let (i, y, e, q) = total_pos w xs (omega arith) in (suc i, y, e, q)
  ]

  -- Two summands at different places.
  pub le-total_two :
      (w : A → ℕ) (xs : List A) (i k : ℕ) (x y : A)
      → get_elem? xs i ≡ some x
      → get_elem? xs k ≡ some y
      → (k == i) ≡ false
      → w x + w y ≤ total w xs
  le-total_two w [] i k x y e f ne = cc
  le-total_two w (z ∷ xs) zero zero x y e f ne = cc
  le-total_two w (z ∷ xs) zero (suc k) x y e f ne = ground (arith, le-total w xs k y f)
  le-total_two w (z ∷ xs) (suc i) zero x y e f ne = ground (arith, le-total w xs i x e)
  le-total_two w (z ∷ xs) (suc i) (suc k) x y e f ne =
      ground (arith, le-total_two w xs i k x y e f (ground arith))

  pub get_elem?-append_left :
      (xs ys : List A) (i : ℕ) (x : A) → get_elem? xs i ≡ some x → get_elem? (xs ++ ys) i ≡ some x
  get_elem?-append_left [] ys i x e = cc
  get_elem?-append_left (z ∷ xs) ys zero x e = e
  get_elem?-append_left (z ∷ xs) ys (suc i) x e = get_elem?-append_left xs ys i x e
