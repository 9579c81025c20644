-- ===== src/Common/SortedMap.antt =====
-- `std::map<int64_t, V>` as the list of its pairs in the order of the keys. A `std::set<int64_t>` is
-- a map to `Unit`.
use mathlib.Core.Path.{◌≡◌, refl, ap}
use mathlib.Core.Bool.{Bool, true, false}
use mathlib.Core.Option.{Option, none, some}
use mathlib.Core.List.{List, [], ◌∷◌}
use native.Mathlib.Omega.{arith}
use package.wdt.Common.Tests.{if◌then◌else◌, Bool-cases}
use package.wdt.Common.Lists.{All}
use mathlib.Core.Logic.{inl, inr}
use package.wdt.Common.Int.{ℤ, eqb_ℤ, ltb_ℤ}

abbrev pub Map : Type 0 → Type 0
Map V = List (ℤ × V)

pub eqb_ℤ→eq : (a b : ℤ) → eqb_ℤ a b ≡ true → a ≡ b
eqb_ℤ→eq a b h = ground arith

pub eqb_ℤ_sym : (a b : ℤ) → eqb_ℤ a b ≡ false → eqb_ℤ b a ≡ false
eqb_ℤ_sym a b h = ground arith

module _ {V : Type 0} where
  unfoldable pub find : ℤ → Map V → Option V
  find k [] = none
  find k ((j, v) ∷ m) = let later = find k m in if eqb_ℤ j k then some v else later

  abbrev pub is_some : Option V → Bool
  is_some none = false
  is_some (some v) = true

  -- A key that is there keeps its value.
  unfoldable pub emplace : ℤ → V → Map V → Map V
  emplace k v [] = (k, v) ∷ []
  emplace k v ((j, w) ∷ m) =
      let later = emplace k v m in
      if eqb_ℤ j k then (j, w) ∷ m else if ltb_ℤ k j then (k, v) ∷ (j, w) ∷ m else (j, w) ∷ later

  -- A write through an iterator: a key that is not there is not added.
  unfoldable pub assign : ℤ → V → Map V → Map V
  assign k v [] = []
  assign k v ((j, w) ∷ m) =
      let later = assign k v m in if eqb_ℤ j k then (j, v) ∷ later else (j, w) ∷ later

  unfoldable pub erase : ℤ → Map V → Map V
  erase k [] = []
  erase k ((j, w) ∷ m) = let later = erase k m in if eqb_ℤ j k then later else (j, w) ∷ later

  pub find-emplace_new :
      (k j : ℤ) (v : V) (m : Map V)
      → find k m ≡ none
      → find j (emplace k v m) ≡ (if eqb_ℤ k j then some v else find j m)
  unfolding find emplace
  find-emplace_new k j v [] h = refl
  find-emplace_new k j v ((i, w) ∷ m) h = ground (arith, find-emplace_new k j v m)

  pub find-emplace_old :
      (k j : ℤ) (v : V) (m : Map V) → eqb_ℤ k j ≡ false → find j (emplace k v m) ≡ find j m
  unfolding find emplace
  find-emplace_old k j v [] h = ground arith
  find-emplace_old k j v ((i, w) ∷ m) h = ground (arith, find-emplace_old k j v m)

  pub find-emplace_self : (k : ℤ) (v : V) (m : Map V) → is_some (find k (emplace k v m)) ≡ true
  unfolding find emplace
  find-emplace_self k v [] = ground arith
  find-emplace_self k v ((i, w) ∷ m) = ground (arith, find-emplace_self k v m)

  pub find-assign :
      (k j : ℤ) (v : V) (m : Map V)
      → find j (assign k v m)
        ≡ (if eqb_ℤ k j then (if is_some (find j m) then some v else none) else find j m)
  unfolding find assign
  find-assign k j v [] = ground arith
  find-assign k j v ((i, w) ∷ m) = ground (arith, find-assign k j v m)

  pub find-erase :
      (k j : ℤ) (m : Map V) → find j (erase k m) ≡ (if eqb_ℤ k j then none else find j m)
  unfolding find erase
  find-erase k j [] = ground arith
  find-erase k j ((i, w) ∷ m) = ground (arith, find-erase k j m)

  -- A property of every pair.
  pub All-emplace :
      (P : ℤ × V → Type 0) (k : ℤ) (v : V) (m : Map V) → P (k, v) → All P m → All P (emplace k v m)
  unfolding emplace
  All-emplace P k v [] p h = (p, tt)
  All-emplace P k v ((j, w) ∷ m) p h = elim (Bool-cases (eqb_ℤ j k)) [
    | inl e ↦ rw e h
    | inr e ↦ elim (Bool-cases (ltb_ℤ k j)) [
      | inl l ↦ rw (e, l) (p, h)
      | inr l ↦ rw (e, l) (h.0, All-emplace P k v m p h.1)
    ]
  ]

  pub All-assign :
      (P : ℤ × V → Type 0) (k : ℤ) (v : V) (m : Map V)
      → ((j : ℤ) (w : V) → P (j, w) → P (j, v))
      → All P m
      → All P (assign k v m)
  unfolding assign
  All-assign P k v [] keep h = tt
  All-assign P k v ((j, w) ∷ m) keep h = elim (Bool-cases (eqb_ℤ j k)) [
    | inl e ↦ rw e (keep j w h.0, All-assign P k v m keep h.1)
    | inr e ↦ rw e (h.0, All-assign P k v m keep h.1)
  ]

  pub All-erase : (P : ℤ × V → Type 0) (k : ℤ) (m : Map V) → All P m → All P (erase k m)
  unfolding erase
  All-erase P k [] h = tt
  All-erase P k ((j, w) ∷ m) h = elim (Bool-cases (eqb_ℤ j k)) [
    | inl e ↦ rw e (All-erase P k m h.1)
    | inr e ↦ rw e (h.0, All-erase P k m h.1)
  ]

  pub All-find :
      (P : ℤ × V → Type 0) (k : ℤ) (v : V) (m : Map V)
      → find k m ≡ some v
      → All P m
      → (j : ℤ) × P (j, v)
  unfolding find
  All-find P k v [] e h = absurd (cc e)
  All-find P k v ((j, w) ∷ m) e h = elim (Bool-cases (eqb_ℤ j k)) [
    | inl same ↦ let found : w ≡ v = cc (rw same at e) in (j, rw (← found) h.0)
    | inr other ↦ All-find P k v m (rw other at e) h.1
  ]

  -- No key stands twice.
  abbrev pub IsDistinct : Map V → Type 0
  IsDistinct [] = Unit
  IsDistinct ((k, v) ∷ m) = (find k m ≡ none) × IsDistinct m

  pub emplace-IsDistinct :
      (k : ℤ) (v : V) (m : Map V) → find k m ≡ none → IsDistinct m → IsDistinct (emplace k v m)
  unfolding emplace
  emplace-IsDistinct k v [] new h = (unfold find in refl, tt)
  emplace-IsDistinct k v ((j, w) ∷ m) new h = elim (Bool-cases (eqb_ℤ j k)) [
    | inl e ↦ rw e h
    | inr e ↦
        let later : find k m ≡ none = unfold find in (rw e at new) in
        elim (Bool-cases (ltb_ℤ k j)) [
          | inl l ↦ rw (e, l) (new, h)
          | inr l ↦
              rw (e, l)
                (
                  rw (find-emplace_new k j v m later, eqb_ℤ_sym j k e) h.0,
                  emplace-IsDistinct k v m later h.1,
                )
        ]
  ]

  pub erase-IsDistinct : (k : ℤ) (m : Map V) → IsDistinct m → IsDistinct (erase k m)
  unfolding erase
  erase-IsDistinct k [] h = tt
  erase-IsDistinct k ((j, w) ∷ m) h = elim (Bool-cases (eqb_ℤ j k)) [
    | inl e ↦ rw e (erase-IsDistinct k m h.1)
    | inr e ↦ rw e (rw (find-erase k j m, eqb_ℤ_sym j k e) h.0, erase-IsDistinct k m h.1)
  ]

  pub erase-absent : (k : ℤ) (m : Map V) → find k m ≡ none → erase k m ≡ m
  unfolding find erase
  erase-absent k [] h = refl
  erase-absent k ((j, w) ∷ m) h = elim (Bool-cases (eqb_ℤ j k)) [
    | inl e ↦ absurd (cc (rw e at h))
    | inr e ↦ rw e (ap (◌∷◌ (j, w)) (erase-absent k m (rw e at h)))
  ]

  pub find-first : (k : ℤ) (v : V) (m : Map V) → find k ((k, v) ∷ m) ≡ some v
  unfolding find
  find-first k v m = ground arith

  pub erase-first : (k : ℤ) (v : V) (m : Map V) → find k m ≡ none → erase k ((k, v) ∷ m) ≡ m
  erase-first k v m h = rw first (erase-absent k m h)
    where
      first : erase k ((k, v) ∷ m) ≡ erase k m
      first = unfold erase in ground arith
