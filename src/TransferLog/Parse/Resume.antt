-- ===== src/TransferLog/Parse/Resume.antt =====
-- Parsing a log that goes on where another ended: the loop of LogParser::parseLog does on the whole
-- what it does on the parts.
use wdt.Common.{ℕ, zero, suc, ◌+◌, ◌≤◌, ◌<◌, ◌≡◌, refl, sym, ap, ◌∙◌, inl, inr, arith}
use wdt.Common.{false, Option, none, some, List, [], ◌∷◌, ◌++◌, append_assoc}
use wdt.Common.{
  length, take, drop, length-append, length-take, take-length-append, drop-length-append, take-drop,
}
use wdt.Common.{lt→ltb, le→ltb, Bool-cases, order_cases}
use wdt.Common.Int.{pos, leb_ℤ, ltb_ℤ, pos_part}
use mathlib.Core.Path.{subst}
use wdt.ErrorCodes.{ErrorCode, invalid_log}
use wdt.Serial.{FixedInt}
use wdt.TransferLog.{Parser, ParserConfig, Disk, to_entry_type, max_entry_length}
use wdt.TransferLog.Parse.{
  Chunk, eof, extra, bad, entry, Scan, ended, scan, round, next_round, read_chunk, read_entry,
  handle_entry, same_code,
}
use wdt.TransferLog.Parse.Frames.{scan_fuel}

-- What a read found, by the bytes that it took: an entry is found whatever follows it.
abbrev IsCut : (List ℕ → Chunk) → ℕ → List ℕ → Chunk → Type 0
IsCut read n log eof = length log + n ≡ 0
IsCut read n log (extra k) = k ≡ length log + n
IsCut read n log bad = Unit
IsCut read n log (entry type payload rest) =
    (front : List ℕ) × (log ≡ front ++ rest)
    × (length front + n ≡ length payload + 3)
    × ((more : List ℕ) → read (front ++ more) ≡ entry type payload more)

module _ (f : FixedInt) (d : Disk) where
  read_entry-IsCut :
      (i size : ℕ) (rest : List ℕ)
      → IsCut (read_entry f d i size) 2 rest (read_entry f d i size rest)
  read_entry-IsCut i zero rest = tt
  read_entry-IsCut i (suc n) [] = elim (Bool-cases (d.read_error i)) [
    | inl e ↦ rw e tt
    | inr e ↦ rw e refl
  ]
  read_entry-IsCut i (suc n) (type ∷ rest) = elim (Bool-cases (d.read_error i)) [
    | inl e ↦ rw e tt
    | inr e ↦ elim (order_cases (suc n) (suc (length rest))) [
      | inr gt ↦ rw (e, lt→ltb (suc (length rest)) (suc n) gt) refl
      | inl le ↦
          rw (e, le→ltb (suc (length rest)) (suc n) le)
            (
              type ∷ take n rest,
              ap (◌∷◌ type) (sym (take-drop n rest)),
              omega arith,
              λ more. whole more e le,
            )
    ]
  ]
    where
      whole :
          (more : List ℕ)
          → d.read_error i ≡ false
          → suc n ≤ suc (length rest)
          → read_entry f d i (suc n) (type ∷ take n rest ++ more) ≡ entry type (take n rest) more
      whole more e le =
          let size : length (take n rest) ≡ n = omega (arith, length-take n rest) in
          let first : take n (take n rest ++ more) ≡ take n rest =
            subst (λ k. take k (take n rest ++ more) ≡ take n rest) size
              (take-length-append (take n rest) more) in
          let second : drop n (take n rest ++ more) ≡ more =
            subst (λ k. drop k (take n rest ++ more) ≡ more) size
              (drop-length-append (take n rest) more) in
          rw
            (
              e,
              le→ltb (suc (length (take n rest ++ more))) (suc n)
                  (omega (arith, length-append (take n rest) more)),
              first,
              second,
            )
            refl

  read_chunk-IsCut : (i : ℕ) (log : List ℕ) → IsCut (read_chunk f d i) 0 log (read_chunk f d i log)
  unfolding read_chunk
  read_chunk-IsCut i [] = elim (Bool-cases (d.read_error i)) [ inl e ↦ rw e tt | inr e ↦ rw e refl ]
  read_chunk-IsCut i (a ∷ []) = elim (Bool-cases (d.read_error i)) [
    | inl e ↦ rw e tt
    | inr e ↦ rw e refl
  ]
  read_chunk-IsCut i (a ∷ b ∷ rest) = elim (Bool-cases (d.read_error i)) [
    | inl e ↦ rw e tt
    | inr e ↦ elim (Bool-cases (leb_ℤ (f.load 2 (a ∷ b ∷ [])) (pos 0))) [
      | inl small ↦ rw (e, small) tt
      | inr size ↦ elim (Bool-cases (ltb_ℤ (pos max_entry_length) (f.load 2 (a ∷ b ∷ [])))) [
        | inl large ↦ rw (e, size, large) tt
        | inr fits ↦
            rw (e, size, fits)
              (behind e size fits (read_entry f d (i + 2) (pos_part (f.load 2 (a ∷ b ∷ []))) rest)
                (read_entry-IsCut (i + 2) (pos_part (f.load 2 (a ∷ b ∷ []))) rest))
      ]
    ]
  ]
    where
      behind :
          d.read_error i ≡ false
          → leb_ℤ (f.load 2 (a ∷ b ∷ [])) (pos 0) ≡ false
          → ltb_ℤ (pos max_entry_length) (f.load 2 (a ∷ b ∷ [])) ≡ false
          → (k : Chunk) → IsCut (read_entry f d (i + 2) (pos_part (f.load 2 (a ∷ b ∷ [])))) 2 rest k
          → IsCut (read_chunk f d i) 0 (a ∷ b ∷ rest) k
      behind e size fits eof h = absurd (omega arith)
      behind e size fits (extra k) h = omega arith
      behind e size fits bad h = tt
      behind e size fits (entry type payload left) (front, whole, size', reads) = (
        a ∷ b ∷ front,
        ap (λ (l : List ℕ). a ∷ b ∷ l) whole,
        omega arith,
        λ more. rw (e, size, fits) (reads more),
      )

-- The log up to its extra bytes, after which the loop goes on from the state that it left.
pub record Resumes (f : FixedInt) (d : Disk) (c : ParserConfig) (i : ℕ) (log : List ℕ)
    (status : ErrorCode) (p : Parser) (status' : ErrorCode) (p' : Parser) (n : ℕ) : Type 0 where
  pub front : List ℕ
  pub tail : List ℕ
  pub whole : log ≡ front ++ tail
  pub size : length tail ≡ n
  pub goes_on :
      (more : List ℕ) (fuel enough : ℕ)
      → length (front ++ more) < fuel
      → length more < enough
      → scan f d c fuel i (front ++ more) status p
        ≡ scan f d c enough (i + length front) more status' p'

module _ {s s' : ErrorCode} {p p' : Parser} {n n' : ℕ} (e : ended s p n ≡ ended s' p' n') where
  ended_status : s ≡ s'
  ended_status = cc

  ended_parser : p ≡ p'
  ended_parser = cc

  ended_extra : n ≡ n'
  ended_extra = cc

module _ (f : FixedInt) (d : Disk) (c : ParserConfig) where
  -- Where the loop ends at once.
  stays :
      (i : ℕ) (log : List ℕ) (status : ErrorCode) (p : Parser) (n : ℕ)
      → length log ≡ n
      → Resumes f d c i log status p status p n
  stays i log status p n e = record {
    front = [];
    tail = log;
    whole = refl;
    size = e;
    goes_on = λ more fuel enough h k.
        let here : i + 0 ≡ i = omega arith in
        rw here (scan_fuel f d c fuel enough i more status p h k);
  }

  -- A round behind which the loop ends by a `break` goes on with the loop.
  next_round-ended :
      (loop : ℕ → List ℕ → ErrorCode → Parser → Scan) (j : ℕ) (rest : List ℕ)
      (r : Option (ErrorCode × Parser)) (status' : ErrorCode) (p' : Parser) (n : ℕ)
      → next_round loop j rest r ≡ ended status' p' n
      → (s : ErrorCode) × (q : Parser) × (r ≡ some (s, q))
        × (same_code s invalid_log ≡ false)
        × (loop j rest s q ≡ ended status' p' n)
  next_round-ended loop j rest none status' p' n e = absurd (cc e)
  next_round-ended loop j rest (some (s, q)) status' p' n e =
      elim (Bool-cases (same_code s invalid_log)) [
        | inl stop ↦ absurd (cc (rw stop at e))
        | inr go ↦ (s, q, refl, go, rw go at e)
      ]

  Resumes-entry :
      (i type : ℕ) (payload front rest log : List ℕ) (status s : ErrorCode) (p q : Parser)
      (status' : ErrorCode) (p' : Parser) (n : ℕ)
      → log ≡ front ++ rest
      → length front + 0 ≡ length payload + 3
      → ((more : List ℕ) → read_chunk f d i (front ++ more) ≡ entry type payload more)
      → handle_entry d c status (to_entry_type type) payload p ≡ some (s, q)
      → same_code s invalid_log ≡ false
      → Resumes f d c (i + length payload + 3) rest s q status' p' n
      → Resumes f d c i log status p status' p' n
  Resumes-entry i type payload front rest log status s p q status' p' n whole size reads handled go
        r =
      record {
        front = front ++ r.front;
        tail = r.tail;
        whole = whole ∙ ap (◌++◌ front) r.whole ∙ sym (append_assoc front r.front r.tail);
        size = r.size;
        goes_on = further;
      }
    where
      further :
          (more : List ℕ) (fuel enough : ℕ)
          → length ((front ++ r.front) ++ more) < fuel
          → length more < enough
          → scan f d c fuel i ((front ++ r.front) ++ more) status p
            ≡ scan f d c enough (i + length (front ++ r.front)) more status' p'
      further more zero enough le le' = absurd (omega arith)
      further more (suc fuel) enough le le' =
          let there : i + length payload + 3 + length r.front ≡ i + length (front ++ r.front) =
            omega (arith, length-append front r.front) in
          let shorter : length (r.front ++ more) < fuel = omega (
            arith,
            length-append (front ++ r.front) more,
            length-append front r.front,
            length-append r.front more,
          ) in
          unfold scan in
          rw (append_assoc, reads (r.front ++ more), handled, go, ← there)
            (r.goes_on more fuel enough shorter le')

  Resumes-round :
      (loop : ℕ → List ℕ → ErrorCode → Parser → Scan) (i : ℕ) (log : List ℕ) (status : ErrorCode)
      (p : Parser) (k : Chunk) (status' : ErrorCode) (p' : Parser) (n : ℕ)
      → read_chunk f d i log ≡ k
      → IsCut (read_chunk f d i) 0 log k
      → round d c loop i status p k ≡ ended status' p' n
      → ((j : ℕ) (rest : List ℕ) (s : ErrorCode) (q : Parser)
          → loop j rest s q ≡ ended status' p' n
          → length rest < length log
          → Resumes f d c j rest s q status' p' n)
      → Resumes f d c i log status p status' p' n
  Resumes-round loop i log status p eof status' p' n r h e later =
      rw (← ended_status e, ← ended_parser e, ← ended_extra e)
        (stays i log status p 0 (omega arith))
  Resumes-round loop i log status p (extra k) status' p' n r h e later =
      rw (← ended_status e, ← ended_parser e, ← ended_extra e)
        (stays i log status p k (omega arith))
  Resumes-round loop i log status p bad status' p' n r h e later = absurd (cc e)
  Resumes-round loop i log status p (entry type payload rest) status' p' n r
        (front, whole, size, reads) e later =
      let (s, q, handled, go, g) =
        next_round-ended loop (i + length payload + 3) rest
          (handle_entry d c status (to_entry_type type) payload p) status' p' n e in
      Resumes-entry i type payload front rest log status s p q status' p' n whole size reads handled
        go
        (later (i + length payload + 3) rest s q g
          (omega (arith, ap length whole, length-append front rest)))

  pub scan-Resumes :
      (fuel i : ℕ) (log : List ℕ) (status : ErrorCode) (p : Parser) (status' : ErrorCode)
      (p' : Parser) (n : ℕ)
      → length log < fuel
      → scan f d c fuel i log status p ≡ ended status' p' n
      → Resumes f d c i log status p status' p' n
  unfolding scan
  scan-Resumes zero i log status p status' p' n le e = absurd (omega arith)
  scan-Resumes (suc fuel) i log status p status' p' n le e =
      Resumes-round (scan f d c fuel) i log status p (read_chunk f d i log) status' p' n refl
        (read_chunk-IsCut f d i log) e
        (λ j rest s q g h. scan-Resumes fuel j rest s q status' p' n (omega arith) g)
