-- ===== src/Protocol/Chunks/Coverage.antt =====
-- What merging chunks keeps, and that the remaining chunks are what the merged ones leave out.
use wdt.Common.{◌+◌, ◌<◌, ◌≡◌, refl, sym, ap, ◌∙◌, inl, inr, Bool, true, false, ◌&&◌, ◌||◌}
use wdt.Common.{List, [], ◌∷◌, All, arith, Bool-cases}
use wdt.Common.Int.{ℤ, pos, pos_part, neg_part, ltb_ℤ, leb_ℤ, ◌≤ℤ◌}
use mathlib.Core.List.{Permᴰ}
use mathlib.Core.Path.{subst}
use wdt.Protocol.{Interval, FileChunksInfo}
use wdt.Protocol.Chunks.{max_ℤ, merge_from, merge_sorted, merged, merge_chunks}

-- The offset lies in the chunk; in one of the chunks.
abbrev pub inside : ℤ → Interval → Bool
inside x chunk = leb_ℤ chunk.start x && ltb_ℤ x chunk.stop

abbrev pub covered : ℤ → List Interval → Bool
covered x [] = false
covered x (chunk ∷ chunks) = inside x chunk || covered x chunks

infix 50 ◌<ℤ◌
abbrev pub ◌<ℤ◌ : ℤ → ℤ → Type 0
a <ℤ b = pos_part a + neg_part b < pos_part b + neg_part a

-- Ordered by their starts, from `low` on.
abbrev pub IsSorted : ℤ → List Interval → Type 0
IsSorted low [] = Unit
IsSorted low (chunk ∷ chunks) = (low ≤ℤ chunk.start) × IsSorted chunk.start chunks

-- What the constructor of a chunk demands.
abbrev pub IsChunk : Interval → Type 0
IsChunk chunk = chunk.start ≤ℤ chunk.stop

-- Each behind the end of the one before, from `low` on.
abbrev pub IsOrdered : ℤ → List Interval → Type 0
IsOrdered low [] = Unit
IsOrdered low (chunk ∷ chunks) =
    (low ≤ℤ chunk.start) × (chunk.start ≤ℤ chunk.stop) × IsOrdered chunk.stop chunks

-- With a gap between any two.
abbrev pub IsBehind : ℤ → List Interval → Type 0
IsBehind low [] = Unit
IsBehind low (chunk ∷ chunks) =
    (low <ℤ chunk.start) × (chunk.start ≤ℤ chunk.stop) × IsBehind chunk.stop chunks

abbrev pub IsApart : List Interval → Type 0
IsApart [] = Unit
IsApart (chunk ∷ chunks) = (chunk.start ≤ℤ chunk.stop) × IsBehind chunk.stop chunks

IsSorted-from :
    (low low' : ℤ) (cs : List Interval) → low ≤ℤ low' → IsSorted low' cs → IsSorted low cs
IsSorted-from low low' [] le s = tt
IsSorted-from low low' (chunk ∷ chunks) le s = (omega arith, s.1)

merge_from-IsBehind :
    (low : ℤ) (cur : Interval) (cs : List Interval)
    → low <ℤ cur.start
    → IsChunk cur
    → IsSorted cur.start cs
    → All IsChunk cs
    → IsBehind low (merge_from cur cs)
unfolding merge_from
merge_from-IsBehind low cur [] lt v s vs = (lt, v, tt)
merge_from-IsBehind low cur (c ∷ cs) lt v s vs = elim (Bool-cases (ltb_ℤ cur.stop c.start)) [
  | inl apart ↦ rw apart (lt, v, merge_from-IsBehind cur.stop c cs (ground arith) vs.0 s.1 vs.1)
  | inr joined ↦ rw joined (
      merge_from-IsBehind low (record { start = cur.start; stop = max_ℤ cur.stop c.stop }) cs lt
        (ground arith) (IsSorted-from cur.start c.start cs s.0 s.1) vs.1)
]

merge_from-IsApart :
    (cur : Interval) (cs : List Interval)
    → IsChunk cur
    → IsSorted cur.start cs
    → All IsChunk cs
    → IsApart (merge_from cur cs)
unfolding merge_from
merge_from-IsApart cur [] v s vs = (v, tt)
merge_from-IsApart cur (c ∷ cs) v s vs = elim (Bool-cases (ltb_ℤ cur.stop c.start)) [
  | inl apart ↦ rw apart (v, merge_from-IsBehind cur.stop c cs (ground arith) vs.0 s.1 vs.1)
  | inr joined ↦ rw joined (
      merge_from-IsApart (record { start = cur.start; stop = max_ℤ cur.stop c.stop }) cs
        (ground arith) (IsSorted-from cur.start c.start cs s.0 s.1) vs.1)
]

joined_lem :
    (x : ℤ) (cur c : Interval)
    → cur.start ≤ℤ c.start
    → ltb_ℤ cur.stop c.start ≡ false
    → inside x (record { start = cur.start; stop = max_ℤ cur.stop c.stop })
      ≡ (inside x cur || inside x c)
joined_lem x cur c le joined = ground arith

or_assoc : (a b c : Bool) → ((a || b) || c) ≡ (a || (b || c))
or_assoc true b c = refl
or_assoc false b c = refl

covered-merge_from :
    (x : ℤ) (cur : Interval) (cs : List Interval)
    → IsSorted cur.start cs
    → covered x (merge_from cur cs) ≡ covered x (cur ∷ cs)
unfolding merge_from
covered-merge_from x cur [] s = refl
covered-merge_from x cur (c ∷ cs) s = elim (Bool-cases (ltb_ℤ cur.stop c.start)) [
  | inl apart ↦ rw (apart, covered-merge_from x c cs s.1) refl
  | inr joined ↦
      let cur' : Interval = record { start = cur.start; stop = max_ℤ cur.stop c.stop } in
      rw (joined, covered-merge_from x cur' cs (IsSorted-from cur.start c.start cs s.0 s.1))
        (ap (λ b. b || covered x cs) (joined_lem x cur c s.0 joined)
          ∙ or_assoc (inside x cur) (inside x c) (covered x cs))
]

or_swap : (a b c : Bool) → (a || (b || c)) ≡ (b || (a || c))
or_swap true true c = refl
or_swap true false c = refl
or_swap false b c = refl

covered-Permᴰ : (x : ℤ) {cs ds : List Interval} → Permᴰ cs ds → covered x cs ≡ covered x ds
covered-Permᴰ x Permᴰ.nil = refl
covered-Permᴰ x (Permᴰ.cons e d) = λ i. inside x (e i) || covered-Permᴰ x d i
covered-Permᴰ x (Permᴰ.swap {a} {b} {l = l} e f) =
    or_swap (inside x a) (inside x b) (covered x l) ∙ λ i.
    inside x (f i) || (inside x (e i) || covered x l)
covered-Permᴰ x (Permᴰ.trans d e) = covered-Permᴰ x d ∙ covered-Permᴰ x e

All-Permᴰ : {cs ds : List Interval} → Permᴰ cs ds → All IsChunk cs → All IsChunk ds
All-Permᴰ Permᴰ.nil v = tt
All-Permᴰ (Permᴰ.cons e d) v = (subst IsChunk e v.0, All-Permᴰ d v.1)
All-Permᴰ (Permᴰ.swap e f) v = (subst IsChunk f v.1.0, (subst IsChunk e v.0, v.1.1))
All-Permᴰ (Permᴰ.trans d e) v = All-Permᴰ e (All-Permᴰ d v)

-- What `std::sort` is relied on for, on chunks that begin at 0 or later: the same chunks, each start
-- at most the next.
pub record Sorts (sort : List Interval → List Interval) (cs : List Interval) : Type 0 where
  pub same : Permᴰ cs (sort cs)
  pub sorted : IsSorted (pos 0) (sort cs)

merge_sorted-IsApart :
    (cs : List Interval) → IsSorted (pos 0) cs → All IsChunk cs → IsApart (merge_sorted cs)
merge_sorted-IsApart [] s v = tt
merge_sorted-IsApart (c ∷ cs) s v = merge_from-IsApart c cs v.0 s.1 v.1

covered-merge_sorted :
    (x : ℤ) (cs : List Interval) → IsSorted (pos 0) cs → covered x (merge_sorted cs) ≡ covered x cs
covered-merge_sorted x [] s = refl
covered-merge_sorted x (c ∷ cs) s = covered-merge_from x c cs s.1

-- `mergeChunks` leaves chunks in order with a gap between any two, and the chunks cover exactly the
-- offsets that they covered before.
pub covered-merge_chunks :
    (sort : List Interval → List Interval) (info : FileChunksInfo) (x : ℤ)
    → Sorts sort info.chunks
    → All IsChunk info.chunks
    → IsApart (merge_chunks sort info).chunks
      × (covered x (merge_chunks sort info).chunks ≡ covered x info.chunks)
unfolding merge_chunks
covered-merge_chunks sort info x s v = by_list info.chunks s v
  where
    by_list :
        (cs : List Interval)
        → Sorts sort cs
        → All IsChunk cs
        → IsApart (merged sort cs) × (covered x (merged sort cs) ≡ covered x cs)
    by_list [] s v = (tt, refl)
    by_list (c ∷ cs) s v = (
      merge_sorted-IsApart (sort (c ∷ cs)) s.sorted (All-Permᴰ s.same v),
      covered-merge_sorted x (sort (c ∷ cs)) s.sorted ∙ sym (covered-Permᴰ x s.same),
    )

pub merge_chunks_keeps :
    (sort : List Interval → List Interval) (info : FileChunksInfo)
    → ((merge_chunks sort info).file_name ≡ info.file_name)
      × ((merge_chunks sort info).file_size ≡ info.file_size)
unfolding merge_chunks
merge_chunks_keeps sort info = (refl, refl)
