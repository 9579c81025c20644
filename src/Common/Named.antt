-- ===== src/Common/Named.antt =====
-- std::unordered_map from strings, as an association list in the order in which the code meets the
-- entries.
use package.wdt.Common.Tests.{◌==◌, ==_iff, if◌then◌else◌}
use Prim.Native.Nat.{ℕ, ◌+◌}
use mathlib.Core.Path.{◌≡◌, refl}
use mathlib.Core.Bool.{Bool, true, false, ◌&&◌}
use mathlib.Core.Option.{Option, none, some}
use mathlib.Core.List.{List, [], ◌∷◌}
use native.Mathlib.Omega.{arith}

-- Equality of strings.
unfoldable pub bytes_eq : List ℕ → List ℕ → Bool
bytes_eq [] [] = true
bytes_eq [] (y ∷ ys) = false
bytes_eq (x ∷ xs) [] = false
bytes_eq (x ∷ xs) (y ∷ ys) = x == y && bytes_eq xs ys

pub bytes_eq_refl : (xs : List ℕ) → bytes_eq xs xs ≡ true
unfolding bytes_eq
bytes_eq_refl [] = refl
bytes_eq_refl (x ∷ xs) = rw ((==_iff x x).1 refl, bytes_eq_refl xs) refl

abbrev pub Named {ℓ} : Type ℓ → Type ℓ
Named V = List (List ℕ × V)

module _ {ℓ} {V : Type ℓ} where
  unfoldable pub lookup : List ℕ → Named V → Option V
  lookup name [] = none
  lookup name ((key, v) ∷ l) =
      let rest = lookup name l in if bytes_eq name key then some v else rest

  -- `m[name] = v`
  unfoldable pub put : List ℕ → V → Named V → Named V
  put name v [] = (name, v) ∷ []
  put name v ((key, w) ∷ l) =
      let rest = put name v l in if bytes_eq name key then (key, v) ∷ l else (key, w) ∷ rest

  unfoldable pub remove : List ℕ → Named V → Named V
  remove name [] = []
  remove name ((key, w) ∷ l) =
      let rest = remove name l in if bytes_eq name key then l else (key, w) ∷ rest

  pub lookup-put : (name : List ℕ) (v : V) (l : Named V) → lookup name (put name v l) ≡ some v
  unfolding lookup put
  lookup-put name v [] = rw (bytes_eq_refl name) refl
  lookup-put name v ((key, w) ∷ l) = by_key (bytes_eq name key) (lookup-put name v l) refl
    where
      by_key :
          (b : Bool)
          → lookup name (put name v l) ≡ some v
          → bytes_eq name key ≡ b
          → lookup name (if b then (key, v) ∷ l else (key, w) ∷ put name v l) ≡ some v
      by_key true ih e = rw e refl
      by_key false ih e = rw e ih

  -- The sum of a measure of the values.
  abbrev pub total : (V → ℕ) → Named V → ℕ
  total size [] = 0
  total size ((key, v) ∷ l) = size v + total size l

  abbrev pub size_of : (V → ℕ) → Option V → ℕ
  size_of size none = 0
  size_of size (some v) = size v

  pub total-put :
      (size : V → ℕ) (name : List ℕ) (v : V) (l : Named V)
      → total size (put name v l) + size_of size (lookup name l) ≡ total size l + size v
  unfolding lookup put
  total-put size name v [] = omega arith
  total-put size name v ((key, w) ∷ l) = by_key (bytes_eq name key) (total-put size name v l)
    where
      by_key :
          (b : Bool)
          → (total size (put name v l) + size_of size (lookup name l) ≡ total size l + size v)
          → total size (if b then (key, v) ∷ l else (key, w) ∷ put name v l)
              + size_of size (if b then some w else lookup name l)
            ≡ size w + total size l + size v
      by_key true ih = omega arith
      by_key false ih = omega (arith, ih)

  pub total-remove :
      (size : V → ℕ) (name : List ℕ) (l : Named V)
      → total size (remove name l) + size_of size (lookup name l) ≡ total size l
  unfolding lookup remove
  total-remove size name [] = omega arith
  total-remove size name ((key, w) ∷ l) = by_key (bytes_eq name key) (total-remove size name l)
    where
      by_key :
          (b : Bool)
          → (total size (remove name l) + size_of size (lookup name l) ≡ total size l)
          → total size (if b then l else (key, w) ∷ remove name l)
              + size_of size (if b then some w else lookup name l)
            ≡ size w + total size l
      by_key true ih = omega arith
      by_key false ih = omega (arith, ih)

  -- A predicate of the values.
  abbrev pub AllNamed {κ} : (V → Type κ) → Named V → Type κ
  AllNamed P [] = Unit
  AllNamed P ((key, v) ∷ l) = P v × AllNamed P l

  pub AllNamed-put {κ} :
      (P : V → Type κ) (name : List ℕ) (v : V) (l : Named V)
      → P v
      → AllNamed P l
      → AllNamed P (put name v l)
  unfolding put
  AllNamed-put P name v [] p h = (p, tt)
  AllNamed-put P name v ((key, w) ∷ l) p h =
      by_key (bytes_eq name key) (AllNamed-put P name v l p h.1)
    where
      by_key :
          (b : Bool)
          → (AllNamed P (put name v l))
          → AllNamed P (if b then (key, v) ∷ l else (key, w) ∷ put name v l)
      by_key true ih = (p, h.1)
      by_key false ih = (h.0, ih)

  pub AllNamed-remove {κ} :
      (P : V → Type κ) (name : List ℕ) (l : Named V) → AllNamed P l → AllNamed P (remove name l)
  unfolding remove
  AllNamed-remove P name [] h = tt
  AllNamed-remove P name ((key, w) ∷ l) h =
      by_key (bytes_eq name key) (AllNamed-remove P name l h.1)
    where
      by_key :
          (b : Bool)
          → (AllNamed P (remove name l))
          → AllNamed P (if b then l else (key, w) ∷ remove name l)
      by_key true ih = h.1
      by_key false ih = (h.0, ih)

  pub AllNamed-lookup {κ} :
      (P : V → Type κ) (name : List ℕ) (l : Named V) (v : V)
      → AllNamed P l
      → lookup name l ≡ some v
      → P v
  unfolding lookup
  AllNamed-lookup P name [] v h e = absurd (cc)
  AllNamed-lookup P name ((key, w) ∷ l) v h e =
      by_key (bytes_eq name key) (AllNamed-lookup P name l v h.1) e
    where
      by_key :
          (b : Bool)
          → (lookup name l ≡ some v → P v)
          → (if b then some w else lookup name l) ≡ some v
          → P v
      by_key true ih g = let same : w ≡ v = cc in rw (← same) h.0
      by_key false ih g = ih g
