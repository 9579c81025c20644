-- ===== src/TransferLog/Parse/Frames.antt =====
-- How the loop of LogParser::parseLog walks over the entries of a log: an entry is read as it was
-- framed, whatever follows, and the fuel of the loop is enough.
use wdt.Common.{ℕ, zero, suc, ◌+◌, ◌≤◌, ◌<◌, ◌≡◌, ◌≢◌, refl, ap, ◌∙◌, inl, inr}
use wdt.Common.{Bool, true, false, Option, none, some, List, [], ◌∷◌, ◌++◌, append_assoc}
use wdt.Common.{
  length, take, drop, length-append, length-take, length-drop, arith, ltb, if◌then◌else◌,
}
use wdt.Common.{append_cut, length-prefix}
use wdt.Common.{take-length-append, drop-length-append, lt→ltb, le→ltb, Bool-cases, order_cases}
use wdt.Common.Int.{pos, leb_ℤ, ltb_ℤ, pos_part}
use wdt.ErrorCodes.{ErrorCode, invalid_log}
use wdt.Serial.{FixedInt, FixedIntLaws}
use wdt.TransferLog.{Parser, ParserConfig, Disk, to_entry_type, max_entry_length}
use wdt.TransferLog.Parse.{
  Chunk, eof, extra, bad, entry, Scan, scan, round, next_round, read_chunk, read_entry,
  handle_entry, same_code,
}

-- Nothing, or an entry with fewer than so many bytes behind it.
abbrev pub IsShorter : ℕ → Chunk → Type 0
IsShorter n eof = Unit
IsShorter n (extra k) = Unit
IsShorter n bad = Unit
IsShorter n (entry type payload rest) = length rest + 3 + length payload ≤ n

IsShorter-if :
    (b : Bool) (n : ℕ) (x y : Chunk)
    → IsShorter n x
    → IsShorter n y
    → IsShorter n (if b then x else y)
IsShorter-if true n x y h k = h
IsShorter-if false n x y h k = k

-- A list of two bytes.
pub two_bytes : (bs : List ℕ) → length bs ≡ 2 → (a : ℕ) × (b : ℕ) × (bs ≡ a ∷ b ∷ [])
two_bytes [] h = absurd (omega arith)
two_bytes (a ∷ []) h = absurd (omega arith)
two_bytes (a ∷ b ∷ []) h = (a, b, refl)
two_bytes (a ∷ b ∷ c ∷ bs) h = absurd (omega arith)

module _ (f : FixedInt) (d : Disk) where
  read_entry-IsShorter :
      (pos_in_log size : ℕ) (rest : List ℕ)
      → IsShorter (length rest + 2) (read_entry f d pos_in_log size rest)
  read_entry-IsShorter pos_in_log zero rest = tt
  read_entry-IsShorter pos_in_log (suc n) [] = IsShorter-if (d.read_error pos_in_log) _ _ _ tt tt
  read_entry-IsShorter pos_in_log (suc n) (type ∷ rest) =
      IsShorter-if (d.read_error pos_in_log) _ _ _ tt whole
    where
      whole : IsShorter (suc (length rest) + 2) (
          if ltb (suc (length rest)) (suc n)
          then extra (suc (length rest) + 2)
          else entry type (take n rest) (drop n rest))
      whole = elim (order_cases (suc n) (suc (length rest))) [
        | inl le ↦
            rw (le→ltb (suc (length rest)) (suc n) le)
              (omega (arith, length-take n rest, length-drop n rest))
        | inr gt ↦ rw (lt→ltb (suc (length rest)) (suc n) gt) tt
      ]

  pub read_chunk-IsShorter :
      (pos_in_log : ℕ) (log : List ℕ) → IsShorter (length log) (read_chunk f d pos_in_log log)
  unfolding read_chunk
  read_chunk-IsShorter pos_in_log [] = IsShorter-if (d.read_error pos_in_log) _ _ _ tt tt
  read_chunk-IsShorter pos_in_log (a ∷ []) = IsShorter-if (d.read_error pos_in_log) _ _ _ tt tt
  read_chunk-IsShorter pos_in_log (a ∷ b ∷ rest) =
      let size = f.load 2 (a ∷ b ∷ []) in
      let shorter = read_entry-IsShorter (pos_in_log + 2) (pos_part size) rest in
      let sum : length rest + 2 ≡ suc (suc (length rest)) = omega arith in
      rw (← sum) (
        IsShorter-if (d.read_error pos_in_log) _ _ _ tt (
          IsShorter-if (leb_ℤ size (pos 0)) _ _ _ tt
            (IsShorter-if (ltb_ℤ (pos max_entry_length) size) _ _ _ tt shorter)))

-- Rounds that agree on every shorter log agree on this one.
round-eq :
    (d : Disk) (c : ParserConfig) (loop loop' : ℕ → List ℕ → ErrorCode → Parser → Scan)
    (n pos_in_log : ℕ) (status : ErrorCode) (p : Parser) (k : Chunk)
    → IsShorter n k
    → ((i : ℕ) (l : List ℕ) (s : ErrorCode) (r : Parser)
        → length l + 3 ≤ n
        → loop i l s r ≡ loop' i l s r)
    → round d c loop pos_in_log status p k ≡ round d c loop' pos_in_log status p k
round-eq d c loop loop' n i status p eof h same = refl
round-eq d c loop loop' n i status p (extra k) h same = refl
round-eq d c loop loop' n i status p bad h same = refl
round-eq d c loop loop' n i status p (entry type payload rest) h same =
    handled (handle_entry d c status (to_entry_type type) payload p)
  where
    handled :
        (r : Option (ErrorCode × Parser))
        → next_round loop (i + length payload + 3) rest r
          ≡ next_round loop' (i + length payload + 3) rest r
    handled none = refl
    handled (some (s, q)) = elim (Bool-cases (same_code s invalid_log)) [
      | inl e ↦ rw e refl
      | inr e ↦ rw e (same (i + length payload + 3) rest s q (omega arith))
    ]

module _ (f : FixedInt) (d : Disk) (c : ParserConfig) where
  -- More fuel than bytes is as good as any other.
  pub scan_fuel :
      (fuel more i : ℕ) (log : List ℕ) (status : ErrorCode) (p : Parser)
      → length log < fuel
      → length log < more
      → scan f d c fuel i log status p ≡ scan f d c more i log status p
  unfolding scan
  scan_fuel zero more i log status p h k = absurd (omega arith)
  scan_fuel (suc fuel) zero i log status p h k = absurd (omega arith)
  scan_fuel (suc fuel) (suc more) i log status p h k =
      round-eq d c (scan f d c fuel) (scan f d c more) (length log) i status p
        (read_chunk f d i log) (read_chunk-IsShorter f d i log)
        (λ i' l s r le. scan_fuel fuel more i' l s r (omega arith) (omega arith))

-- An entry as the encoders leave it: its length, its type and its fields.
abbrev pub frame : FixedInt → ℕ × List ℕ → List ℕ
frame f (type, payload) = f.store 2 (pos (suc (length payload))) ++ type ∷ payload

abbrev pub frames : FixedInt → List (ℕ × List ℕ) → List ℕ
frames f [] = []
frames f (e ∷ es) = frame f e ++ frames f es

-- An entry is short enough for the parser.
abbrev pub Fits : ℕ × List ℕ → Type 0
Fits (type, payload) = length payload < max_entry_length

module _ (f : FixedInt) (laws : FixedIntLaws f) where
  pub length-frame : (e : ℕ × List ℕ) → length (frame f e) ≡ length e.1 + 3
  length-frame (type, payload) = omega (
    arith,
    length-append (f.store 2 (pos (suc (length payload)))) (type ∷ payload),
    laws.length-store 2 (pos (suc (length payload))),
  )

module _ (f : FixedInt) (laws : FixedIntLaws f) (d : Disk)
    (reads : (n : ℕ) → d.read_error n ≡ false) where
  -- The two bytes of the length.
  size_read :
      (payload : List ℕ) (i : ℕ) (rest : List ℕ)
      → length payload < max_entry_length
      → read_chunk f d i (f.store 2 (pos (suc (length payload))) ++ rest)
        ≡ read_entry f d (i + 2) (suc (length payload)) rest
  unfolding read_chunk
  size_read payload i rest h =
      let size = pos (suc (length payload)) in
      let (a, b, e) = two_bytes (f.store 2 size) (laws.length-store 2 size) in
      let load : f.load 2 (a ∷ b ∷ []) ≡ size = rw (← e) (laws.load-store 2 size (omega arith)) in
      rw (e, reads i, load, positive (length payload), small (length payload) h) refl
    where
      positive : (n : ℕ) → leb_ℤ (pos (suc n)) (pos 0) ≡ false
      positive n = ground arith

      small : (n : ℕ) → n < max_entry_length → ltb_ℤ (pos max_entry_length) (pos (suc n)) ≡ false
      small n h = ground arith

  -- An entry is read whole, whatever follows.
  pub read_frame :
      (e : ℕ × List ℕ) (i : ℕ) (rest : List ℕ)
      → Fits e
      → read_chunk f d i (frame f e ++ rest) ≡ entry e.0 e.1 rest
  read_frame (type, payload) i rest h =
      rw
        (
          append_assoc,
          size_read payload i (type ∷ payload ++ rest) h,
          reads (i + 2),
          le→ltb (suc (length (payload ++ rest))) (suc (length payload))
              (omega (arith, length-append payload rest)),
          take-length-append payload rest,
          drop-length-append payload rest,
        )
        refl

  -- The beginning of an entry is known for what it is.
  pub read_torn :
      (e : ℕ × List ℕ) (i : ℕ) (q : List ℕ) (x : ℕ) (r : List ℕ)
      → Fits e
      → q ++ x ∷ r ≡ frame f e
      → q ≢ []
      → read_chunk f d i q ≡ extra (length q)
  read_torn (type, payload) i q x r h split some_bytes =
      let size = f.store 2 (pos (suc (length payload))) in
      elim (append_cut q x r size (type ∷ payload) split) [
        | inl (y, t, g) ↦
            one q
              (omega (
                arith,
                length-prefix q y t size g,
                laws.length-store 2 (pos (suc (length payload))),
              ))
              some_bytes
        | inr (t, g, k) ↦
            let shorter = length-prefix t x r (type ∷ payload) k in
            let sum : length t + 2 ≡ length (size ++ t) =
              omega
                (arith, length-append size t, laws.length-store 2 (pos (suc (length payload)))) in
            rw (g, size_read payload i t h) (cut t (i + 2) shorter ∙ ap extra sum)
      ]
    where
      one : (q : List ℕ) → length q < 2 → q ≢ [] → read_chunk f d i q ≡ extra (length q)
      one [] le ne = absurd (ne refl)
      one (a ∷ []) le ne = unfold read_chunk in rw (reads i) refl
      one (a ∷ b ∷ q) le ne = absurd (omega arith)

      cut :
          (t : List ℕ) (j : ℕ)
          → length t < suc (length payload)
          → read_entry f d j (suc (length payload)) t ≡ extra (length t + 2)
      cut [] j le = rw (reads j) refl
      cut (a ∷ t) j le = rw (reads j, lt→ltb (suc (length t)) (suc (length payload)) le) refl
