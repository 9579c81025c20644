-- ===== src/Common/Lists.antt =====
-- Lists measured and indexed by native numbers, under the library's names.
use Prim.Native.Nat.{ℕ, zero, suc, ◌+◌, ◌-◌, ◌≤◌, ◌<◌, min}
use mathlib.Core.Path.{◌≡◌, refl, ap}
use mathlib.Core.Logic.{◌⊎◌, inl, inr}
use mathlib.Core.List.{List, [], ◌∷◌, ◌++◌}
use mathlib.Core.Option.{Option, none, some}
use native.Mathlib.Omega.{arith}
use mathlib.Core.Bool.{Bool, true, false}
use package.wdt.Common.Tests.{if◌then◌else◌}

module _ {ℓ} {A : Type ℓ} where
  abbrev pub length : List A → ℕ
  length [] = 0
  length (x ∷ xs) = suc (length xs)

  abbrev pub get_elem? : List A → ℕ → Option A
  get_elem? [] i = none
  get_elem? (x ∷ xs) zero = some x
  get_elem? (x ∷ xs) (suc i) = get_elem? xs i

  -- A write out of bounds changes nothing.
  abbrev pub set : List A → ℕ → A → List A
  set [] i v = []
  set (x ∷ xs) zero v = v ∷ xs
  set (x ∷ xs) (suc i) v = x ∷ set xs i v

  abbrev pub take : ℕ → List A → List A
  take zero xs = []
  take (suc n) [] = []
  take (suc n) (x ∷ xs) = x ∷ take n xs

  abbrev pub drop : ℕ → List A → List A
  drop zero xs = xs
  drop (suc n) [] = []
  drop (suc n) (x ∷ xs) = drop n xs

  abbrev pub replicate : ℕ → A → List A
  replicate zero a = []
  replicate (suc n) a = a ∷ replicate n a

  abbrev pub All {κ} : (A → Type κ) → List A → Type κ
  All P [] = Unit {κ}
  All P (x ∷ xs) = P x × All P xs

  pub length-append : (xs ys : List A) → length (xs ++ ys) ≡ length xs + length ys
  length-append [] ys = omega arith
  length-append (x ∷ xs) ys = omega (arith, length-append xs ys)

  pub length-take : (n : ℕ) (xs : List A) → length (take n xs) ≡ min n (length xs)
  length-take zero xs = omega arith
  length-take (suc n) [] = omega arith
  length-take (suc n) (x ∷ xs) = omega (arith, length-take n xs)

  pub length-drop : (n : ℕ) (xs : List A) → length (drop n xs) ≡ length xs - n
  length-drop zero xs = omega arith
  length-drop (suc n) [] = omega arith
  length-drop (suc n) (x ∷ xs) = omega (arith, length-drop n xs)

  pub length-replicate : (n : ℕ) (a : A) → length (replicate n a) ≡ n
  length-replicate zero a = refl
  length-replicate (suc n) a = ap suc (length-replicate n a)

  pub All-append {κ} : (P : A → Type κ) (xs ys : List A) → All P xs → All P ys → All P (xs ++ ys)
  All-append P [] ys h k = k
  All-append P (x ∷ xs) ys h k = (h.0, All-append P xs ys h.1 k)

module _ {ℓ} {A : Type ℓ} where
  pub drop-length-append : (xs ys : List A) → drop (length xs) (xs ++ ys) ≡ ys
  drop-length-append [] ys = refl
  drop-length-append (x ∷ xs) ys = drop-length-append xs ys

  pub take-length-append : (xs ys : List A) → take (length xs) (xs ++ ys) ≡ xs
  take-length-append [] ys = refl
  take-length-append (x ∷ xs) ys = ap (◌∷◌ x) (take-length-append xs ys)

  pub take-all : (n : ℕ) (xs : List A) → length xs ≤ n → take n xs ≡ xs
  take-all zero [] h = refl
  take-all zero (x ∷ xs) h = absurd (omega arith)
  take-all (suc n) [] h = refl
  take-all (suc n) (x ∷ xs) h = ap (◌∷◌ x) (take-all n xs (omega arith))

  -- Where a list is cut in two ways, the first cut lies in the first part or in the second.
  pub append_cut :
      (p : List A) (x : A) (q bs cs : List A)
      → p ++ x ∷ q ≡ bs ++ cs
      → ((y : A) × (r : List A) × (p ++ y ∷ r ≡ bs))
        ⊎ ((r : List A) × (p ≡ bs ++ r) × (r ++ x ∷ q ≡ cs))
  append_cut p x q [] cs e = inr (p, refl, e)
  append_cut [] x q (b ∷ bs) cs e = inl (b, bs, refl)
  append_cut (a ∷ p) x q (b ∷ bs) cs e = elim (append_cut p x q bs cs (cc)) [
    | inl (y, r, g) ↦ inl (y, r, cc)
    | inr (r, g, k) ↦ inr (r, cc, k)
  ]

  pub append_cons-ne-nil : (p : List A) (x : A) (q : List A) → p ++ x ∷ q ≡ [] → ⊥
  append_cons-ne-nil [] x q e = cc
  append_cons-ne-nil (y ∷ p) x q e = cc

  -- A proper prefix is shorter.
  pub length-prefix : (p : List A) (x : A) (q bs : List A) → p ++ x ∷ q ≡ bs → length p < length bs
  length-prefix p x q bs e = rw (← e, length-append p (x ∷ q)) (omega arith)

  -- What is left of a list behind a shorter take is not empty.
  pub take_split :
      (n : ℕ) (bs : List A) → n < length bs → (x : A) × (q : List A) × (take n bs ++ x ∷ q ≡ bs)
  take_split n [] h = absurd (omega arith)
  take_split zero (b ∷ bs) h = (b, bs, refl)
  take_split (suc n) (b ∷ bs) h =
      let (x, q, e) = take_split n bs (omega arith) in (x, q, ap (◌∷◌ b) e)

  pub length-if : (c : Bool) (xs : List A) → length (if c then xs else []) ≤ length xs
  length-if true xs = omega arith
  length-if false xs = omega arith

  pub length-if_le :
      (c : Bool) (xs : List A) (n : ℕ)
      → length xs ≤ n
      → length (if c then xs else []) ≤ (if c then n else 0)
  length-if_le true xs n h = h
  length-if_le false xs n h = omega arith

  pub take-drop : (n : ℕ) (xs : List A) → take n xs ++ drop n xs ≡ xs
  take-drop zero xs = refl
  take-drop (suc n) [] = refl
  take-drop (suc n) (x ∷ xs) = ap (◌∷◌ x) (take-drop n xs)
