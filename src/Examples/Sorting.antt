-- ===== src/Examples/Sorting.antt =====
-- Insertion sort of chunks by their starts, for the parameter that stands for std::sort.
use wdt.Common.{
  ◌≡◌, refl, true, false, List, [], ◌∷◌, All, arith, if◌then◌else◌, Bool-cases, inl, inr,
}
use wdt.Common.Int.{ℤ, pos, ◌≤ℤ◌, ltb_ℤ}
use mathlib.Core.List.{Permᴰ}
use mathlib.Core.List.Permᴰ
use wdt.Protocol.{Interval}
use wdt.Protocol.Chunks.Coverage.{IsSorted}
use wdt.TransferLog.Parse.Returned.{IsSorting}

abbrev pub insert : Interval → List Interval → List Interval
insert c [] = c ∷ []
insert c (d ∷ ds) =
    let later = d ∷ insert c ds in if ltb_ℤ d.start c.start then later else c ∷ d ∷ ds

abbrev pub sort : List Interval → List Interval
sort [] = []
sort (c ∷ cs) = insert c (sort cs)

insert-Permᴰ : (c : Interval) (cs : List Interval) → Permᴰ (c ∷ cs) (insert c cs)
insert-Permᴰ c [] = Permᴰ.cons refl Permᴰ.nil
insert-Permᴰ c (d ∷ ds) = elim (Bool-cases (ltb_ℤ d.start c.start)) [
  | inl e ↦ rw e (Permᴰ.trans (Permᴰ.swap refl refl) (Permᴰ.cons refl (insert-Permᴰ c ds)))
  | inr e ↦ rw e (Permᴰ.refl (c ∷ d ∷ ds))
]

sort-Permᴰ : (cs : List Interval) → Permᴰ cs (sort cs)
sort-Permᴰ [] = Permᴰ.nil
sort-Permᴰ (c ∷ cs) = Permᴰ.trans (Permᴰ.cons refl (sort-Permᴰ cs)) (insert-Permᴰ c (sort cs))

ltb_ℤ_cases : (a b : ℤ) → ltb_ℤ a b ≡ false → b ≤ℤ a
ltb_ℤ_cases a b e = ground arith

ltb_ℤ_true : (a b : ℤ) → ltb_ℤ a b ≡ true → a ≤ℤ b
ltb_ℤ_true a b e = ground arith

insert-IsSorted :
    (low : ℤ) (c : Interval) (cs : List Interval)
    → low ≤ℤ c.start
    → IsSorted low cs
    → IsSorted low (insert c cs)
insert-IsSorted low c [] h s = (h, tt)
insert-IsSorted low c (d ∷ ds) h s = elim (Bool-cases (ltb_ℤ d.start c.start)) [
  | inl e ↦ rw e (s.0, insert-IsSorted d.start c ds (ltb_ℤ_true d.start c.start e) s.1)
  | inr e ↦ rw e (h, (ltb_ℤ_cases d.start c.start e, s.1))
]

sort-IsSorted :
    (cs : List Interval) → All (λ (k : Interval). pos 0 ≤ℤ k.start) cs → IsSorted (pos 0) (sort cs)
sort-IsSorted [] h = tt
sort-IsSorted (c ∷ cs) h = insert-IsSorted (pos 0) c (sort cs) h.0 (sort-IsSorted cs h.1)

pub sort-IsSorting : IsSorting sort
sort-IsSorting cs h = record { same = sort-Permᴰ cs; sorted = sort-IsSorted cs h }
