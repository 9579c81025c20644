-- ===== src/SourceQueue/Blocks.antt =====
-- The blocks of a file: what the loop of createIntoQueueInternal makes of a chunk.
use wdt.Common.{
  ℕ, zero, suc, ◌<◌, ◌≡◌, refl, ap, ◌∙◌, arith, Bool, true, false, ◌||◌, List, [], ◌∷◌, ◌++◌, All,
  All-append, map, Bool-cases, inl, inr,
}
use wdt.Common.Int.{ℤ, pos, ◌+ℤ◌, ◌-ℤ◌, ◌≤ℤ◌, ltb_ℤ, pos_part, int_laws, +ℤ_parts, -ℤ_parts}
use wdt.Protocol.{Interval, interval_size}
use wdt.Protocol.Chunks.Coverage.{covered, inside, ◌<ℤ◌}
use wdt.Protocol.Chunks.Remaining.{IsNonempty}
use mathlib.Core.List.{map-append}
use wdt.SourceQueue.{SourceMetaData, FileByteSource, min_ℤ, split_chunk, split_chunks, total_size}

-- The bytes of a block.
abbrev pub block_of : FileByteSource → Interval
block_of s = record { start = s.offset; stop = s.offset +ℤ s.size }

abbrev pub blocks_of : List FileByteSource → List Interval
blocks_of = map block_of

-- No larger than a block, and with a byte at least.
abbrev pub IsBlock : ℤ → FileByteSource → Type 0
IsBlock block_size s = (s.size ≤ℤ block_size) × (pos 0 <ℤ s.size)

abbrev pub sum_of : List FileByteSource → ℤ
sum_of [] = pos 0
sum_of (s ∷ sources) = s.size +ℤ sum_of sources

inside_two :
    (x offset size remaining : ℤ)
    → pos 0 ≤ℤ size
    → size ≤ℤ remaining
    → (inside x (record { start = offset; stop = offset +ℤ size })
        || inside x
            (record { start = offset +ℤ size; stop = (offset +ℤ size) +ℤ (remaining -ℤ size) }))
      ≡ inside x (record { start = offset; stop = offset +ℤ remaining })
inside_two x offset size remaining h k = ground (
  arith,
  +ℤ_parts offset size,
  -ℤ_parts remaining size,
  +ℤ_parts (offset +ℤ size) (remaining -ℤ size),
  +ℤ_parts offset remaining,
)

min_below : (a b : ℤ) → ltb_ℤ b a ≡ true → min_ℤ a b ≡ b
min_below a b e = rw e refl

min_above : (a b : ℤ) → ltb_ℤ b a ≡ false → min_ℤ a b ≡ a
min_above a b e = rw e refl

left_over : (a b : ℤ) → ltb_ℤ b a ≡ true → ltb_ℤ (pos 0) (a -ℤ b) ≡ true
left_over a b e = ground (arith, -ℤ_parts a b)

none_left : (a : ℤ) → ltb_ℤ (pos 0) (a -ℤ a) ≡ false
none_left a = ground (arith, -ℤ_parts a a)

fewer :
    (a b : ℤ) (n : ℕ) → pos_part a < suc n → pos 0 <ℤ b → ltb_ℤ b a ≡ true → pos_part (a -ℤ b) < n
fewer a b n le pb e = ground (arith, -ℤ_parts a b)

positive : (a b : ℤ) → ltb_ℤ b a ≡ true → pos 0 <ℤ (a -ℤ b)
positive a b e = ground (arith, -ℤ_parts a b)

not_above : (a b : ℤ) → ltb_ℤ b a ≡ false → a ≤ℤ b
not_above a b e = ground arith

below : (a b : ℤ) → ltb_ℤ b a ≡ true → b ≤ℤ a
below a b e = ground arith

from_zero : (a : ℤ) → pos 0 <ℤ a → pos 0 ≤ℤ a
from_zero a h = omega arith

same : (a : ℤ) → a ≤ℤ a
same a = omega arith

or_false : (a : Bool) → (a || false) ≡ a
or_false true = refl
or_false false = refl

sum_back : (a b : ℤ) → b +ℤ (a -ℤ b) ≡ a
sum_back a b = grind int_laws

plus_none : (a : ℤ) → a +ℤ pos 0 ≡ a
plus_none a = grind int_laws

-- With fuel for each byte, a block size above zero and a byte at least, the blocks of a chunk have its
-- bytes and no others.
split_chunk_lem :
    (fuel : ℕ) (metadata : SourceMetaData) (block_size offset remaining : ℤ)
    → pos_part remaining < fuel
    → pos 0 <ℤ block_size
    → pos 0 <ℤ remaining
    → ((x : ℤ)
        → covered x (blocks_of (split_chunk fuel metadata block_size offset remaining))
          ≡ inside x (record { start = offset; stop = offset +ℤ remaining }))
      × All (IsBlock block_size) (split_chunk fuel metadata block_size offset remaining)
      × (sum_of (split_chunk fuel metadata block_size offset remaining) ≡ remaining)
unfolding split_chunk
split_chunk_lem zero metadata block_size offset remaining le pb pr = absurd (omega arith)
split_chunk_lem (suc fuel) metadata block_size offset remaining le pb pr =
    elim (Bool-cases (ltb_ℤ block_size remaining)) [
      | inl more ↦
          let (cover, each, sum) =
            split_chunk_lem fuel metadata block_size (offset +ℤ block_size)
              (remaining -ℤ block_size) (fewer remaining block_size fuel le pb more) pb
              (positive remaining block_size more) in
          rw (min_below remaining block_size more, left_over remaining block_size more)
            (
              (λ x.
                  ap (λ b. inside x (record { start = offset; stop = offset +ℤ block_size }) || b)
                    (cover x)
                  ∙ inside_two x offset block_size remaining (from_zero block_size pb)
                      (below remaining block_size more)),
              ((same block_size, pb), each),
              ap (λ (z : ℤ). block_size +ℤ z) sum ∙ sum_back remaining block_size,
            )
      | inr last ↦
          rw (min_above remaining block_size last, none_left remaining)
            (
              (λ x. or_false (inside x (record { start = offset; stop = offset +ℤ remaining }))),
              ((not_above remaining block_size last, pr), tt),
              plus_none remaining,
            )
    ]

or_assoc : (a b c : Bool) → (a || (b || c)) ≡ ((a || b) || c)
or_assoc true b c = refl
or_assoc false b c = refl

none_plus : (a : ℤ) → a ≡ pos 0 +ℤ a
none_plus a = grind int_laws

plus_assoc : (a b c : ℤ) → a +ℤ (b +ℤ c) ≡ (a +ℤ b) +ℤ c
plus_assoc a b c = grind int_laws

size_above : (c : Interval) → IsNonempty c → pos 0 <ℤ interval_size c
size_above c h = omega (arith, -ℤ_parts c.stop c.start)

start_and_size : (c : Interval) → c.start +ℤ interval_size c ≡ c.stop
start_and_size c = sum_back c.stop c.start

covered-append :
    (x : ℤ) (as' bs : List Interval) → covered x (as' ++ bs) ≡ (covered x as' || covered x bs)
covered-append x [] bs = refl
covered-append x (a ∷ as') bs =
    ap (λ b. inside x a || b) (covered-append x as' bs)
    ∙ or_assoc (inside x a) (covered x as') (covered x bs)

sum_of-append : (as' bs : List FileByteSource) → sum_of (as' ++ bs) ≡ sum_of as' +ℤ sum_of bs
sum_of-append [] bs = none_plus (sum_of bs)
sum_of-append (a ∷ as') bs =
    ap (λ (z : ℤ). a.size +ℤ z) (sum_of-append as' bs) ∙ plus_assoc a.size (sum_of as') (sum_of bs)

-- The blocks of chunks that are not empty.
pub split_chunks_lem :
    (metadata : SourceMetaData) (block_size : ℤ) (chunks : List Interval)
    → pos 0 <ℤ block_size
    → All IsNonempty chunks
    → ((x : ℤ) → covered x (blocks_of (split_chunks metadata block_size chunks)) ≡ covered x chunks)
      × All (IsBlock block_size) (split_chunks metadata block_size chunks)
      × (sum_of (split_chunks metadata block_size chunks) ≡ total_size chunks)
unfolding split_chunks
split_chunks_lem metadata block_size [] pb h = ((λ x. refl), tt, refl)
split_chunks_lem metadata block_size (c ∷ chunks) pb h =
    let size = interval_size c in
    let first = split_chunk (suc (pos_part size)) metadata block_size c.start size in
    let rest = split_chunks metadata block_size chunks in
    let (cover, each, sum) =
      split_chunk_lem (suc (pos_part size)) metadata block_size c.start size (omega arith) pb
        (size_above c h.0) in
    let (cover', each', sum') = split_chunks_lem metadata block_size chunks pb h.1 in
    (
      (λ x.
          ap (covered x) (map-append block_of first rest)
          ∙ covered-append x (blocks_of first) (blocks_of rest)
          ∙ ap (λ b. b || covered x (blocks_of rest)) (cover x)
          ∙ ap
              (λ (z : ℤ).
                inside x (record { start = c.start; stop = z }) || covered x (blocks_of rest))
              (start_and_size c)
          ∙ ap (λ b. inside x c || b) (cover' x)),
      All-append (IsBlock block_size) first rest each each',
      sum_of-append first rest
          ∙ ap (λ (z : ℤ). z +ℤ sum_of rest) sum
          ∙ ap (λ (z : ℤ). size +ℤ z) sum',
    )
