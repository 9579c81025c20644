-- ===== src/Protocol/Chunks/Remaining.antt =====
-- The remaining chunks of a file are what its chunks leave out.
use wdt.Common.{◌≡◌, refl, inl, inr, Bool, true, false, not, All, if◌then◌else◌}
use wdt.Common.{List, [], ◌∷◌, arith, Bool-cases}
use wdt.Common.Int.{ℤ, pos, ltb_ℤ, ◌≤ℤ◌}
use wdt.Protocol.{Interval, FileChunksInfo}
use wdt.Protocol.Chunks.{remaining_from, get_remaining_chunks}
use wdt.Protocol.Chunks.Coverage.{covered, IsOrdered, ◌<ℤ◌, IsBehind}

covered_before :
    (x low : ℤ) (cs : List Interval) → x <ℤ low → IsOrdered low cs → covered x cs ≡ false
covered_before x low [] lt o = refl
covered_before x low (c ∷ cs) lt o =
    ground (arith, covered_before x c.stop cs (omega (arith, o.0, o.1)) o.2)

remaining_before :
    (size x low : ℤ) (cs : List Interval)
    → x <ℤ low
    → IsOrdered low cs
    → covered x (remaining_from size low cs) ≡ false
unfolding remaining_from
remaining_before size x low [] lt o = ground arith
remaining_before size x low (c ∷ cs) lt o =
    ground (arith, remaining_before size x c.stop cs (omega (arith, o.0, o.1)) o.2)

remaining_complement :
    (size x low : ℤ) (cs : List Interval)
    → low ≤ℤ x
    → x <ℤ size
    → IsOrdered low cs
    → covered x (remaining_from size low cs) ≡ not (covered x cs)
unfolding remaining_from
remaining_complement size x low [] le lt o = ground arith
remaining_complement size x low (c ∷ cs) le lt o = elim (Bool-cases (ltb_ℤ x c.stop)) [
  | inl before ↦ ground (
    arith,
    covered_before x c.stop cs (ground arith) o.2,
    remaining_before size x c.stop cs (ground arith) o.2,
  )
  | inr behind ↦ ground (arith, remaining_complement size x c.stop cs (ground arith) lt o.2)
]

IsBehind-IsOrdered : (low : ℤ) (cs : List Interval) → IsBehind low cs → IsOrdered low cs
IsBehind-IsOrdered low [] b = tt
IsBehind-IsOrdered low (c ∷ cs) b = (omega (arith, b.0), b.1, IsBehind-IsOrdered c.stop cs b.2)

-- Where the chunks are in order and none overlaps another, `getRemainingChunks` covers an offset of
-- the file exactly where no chunk does.
pub covered-get_remaining_chunks :
    (info : FileChunksInfo) (size x : ℤ)
    → IsOrdered (pos 0) info.chunks
    → pos 0 ≤ℤ x
    → x <ℤ size
    → covered x (get_remaining_chunks info size) ≡ not (covered x info.chunks)
unfolding get_remaining_chunks
covered-get_remaining_chunks info size x o le lt =
    remaining_complement size x (pos 0) info.chunks le lt o

-- A byte at least.
abbrev pub IsNonempty : Interval → Type 0
IsNonempty chunk = chunk.start <ℤ chunk.stop

remaining_from-IsNonempty :
    (size start : ℤ) (cs : List Interval) → All IsNonempty (remaining_from size start cs)
unfolding remaining_from
remaining_from-IsNonempty size start [] = by_test (ltb_ℤ start size) refl
  where
    by_test :
        (b : Bool)
        → ltb_ℤ start size ≡ b
        → All IsNonempty (if b then record { start = start; stop = size } ∷ [] else [])
    by_test true e = (ground arith, tt)
    by_test false e = tt
remaining_from-IsNonempty size start (c ∷ cs) =
    by_test (ltb_ℤ start c.start) refl (remaining_from-IsNonempty size c.stop cs)
  where
    by_test :
        (b : Bool)
        → ltb_ℤ start c.start ≡ b
        → All IsNonempty (remaining_from size c.stop cs)
        → All IsNonempty (
            if b
            then record { start = start; stop = c.start } ∷ remaining_from size c.stop cs
            else remaining_from size c.stop cs)
    by_test true e h = (ground arith, h)
    by_test false e h = h

pub get_remaining_chunks-IsNonempty :
    (info : FileChunksInfo) (size : ℤ) → All IsNonempty (get_remaining_chunks info size)
unfolding get_remaining_chunks
get_remaining_chunks-IsNonempty info size = remaining_from-IsNonempty size (pos 0) info.chunks
