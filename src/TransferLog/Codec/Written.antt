-- ===== src/TransferLog/Codec/Written.antt =====
-- What LogEncoderDecoder leaves in its buffer: the entry framed by its length and type.
use wdt.Common.{ℕ, suc, ◌+◌, ◌-◌, ◌^◌, ◌≤◌, ◌<◌, ◌≡◌, refl, ap}
use wdt.Common.{List, [], ◌∷◌, length, take, set, arith, le→ltb}
use wdt.Common.Int.{pos}
use wdt.Wire.Types.{Status, Buffer, Encoder}
use wdt.Wire.Memory.{copy, copy-nil, copy-one, copy-copy, length-copy}
use wdt.Wire.Encoder.{Writes}
use wdt.Serial.{FixedInt, FixedIntLaws}
use wdt.TransferLog.{EntryType, entry_code}
use wdt.TransferLog.Codec.{encode_entry, to_int16, store_length}
use wdt.TransferLog.Parse.Frames.{frame, two_bytes}

take-copy : (mem bs : List ℕ) → length bs ≤ length mem → take (length bs) (copy mem 0 bs) ≡ bs
take-copy mem [] h = refl
take-copy [] (b ∷ bs) h = absurd (omega arith)
take-copy (x ∷ mem) (b ∷ bs) h = ap (◌∷◌ b) (take-copy mem bs (omega arith))

-- Two bytes in front of what was written behind them.
front_copy :
    (mem : List ℕ) (a b : ℕ) (bs : List ℕ)
    → length bs + 2 ≤ length mem
    → take (length bs + 2) (copy (copy mem 2 bs) 0 (a ∷ b ∷ [])) ≡ a ∷ b ∷ bs
front_copy [] a b bs h = absurd (omega arith)
front_copy (x ∷ []) a b bs h = absurd (omega arith)
front_copy (x ∷ y ∷ mem) a b bs h =
    let two : length bs + 2 ≡ suc (suc (length bs)) = omega arith in
    rw (two, copy-nil (copy mem 0 bs) 0)
      (ap (λ (l : List ℕ). a ∷ b ∷ l) (take-copy mem bs (omega arith)))

module _ (f : FixedInt) (laws : FixedIntLaws f) (max : ℕ) (small : max < 2 ^ 15) where
  -- With room for them the encoder returns the size of the framed fields, which the buffer begins
  -- with; without, it returns -1.
  pub encode_entry-frame :
      (type : EntryType) (fields : Encoder) (bs dest : List ℕ)
      → Writes max fields bs
      → max ≤ length dest
      → length bs + 3 ≤ max
      → ((encode_entry f type max fields dest).0 ≡ Status.done)
        × ((encode_entry f type max fields dest).1.off ≡ length bs + 3)
        × (take (length bs + 3) (encode_entry f type max fields dest).1.dest
            ≡ frame f (entry_code type, bs))
  encode_entry-frame type fields bs dest w room fits =
      let t = entry_code type in
      let b : Buffer = record { dest = set dest 2 t; off = 3 } in
      let size₁ : length (set dest 2 t) ≡ length dest =
        rw (← copy-one dest 2 t) (length-copy dest 2 (t ∷ [])) in
      let ran = w.fits b (omega arith) (omega arith) in
      let placed : copy (set dest 2 t) 3 bs ≡ copy dest 2 (t ∷ bs) =
        rw (← copy-one dest 2 t) (copy-copy dest 2 (t ∷ []) bs) in
      let v = pos (suc (length bs)) in
      let cast : to_int16 (3 + length bs - 2) ≡ v = to_int16_small (length bs) (omega arith) in
      let (a, c, two) = two_bytes (f.store 2 v) (laws.length-store 2 v) in
      rw (le→ltb max 3 (omega arith), ran, placed, cast)
        (
          refl,
          omega arith,
          let n : length bs + 3 ≡ length (t ∷ bs) + 2 = omega arith in
              rw (two, n) (front_copy dest a c (t ∷ bs) (omega arith)),
        )
    where
      to_int16_small : (n : ℕ) → n + 3 < 2 ^ 15 → to_int16 (3 + n - 2) ≡ pos (suc n)
      to_int16_small n h = ground arith

pub encode_entry-refused :
    (f : FixedInt) (max : ℕ) (type : EntryType) (fields : Encoder) (bs dest : List ℕ)
    → Writes max fields bs
    → 3 ≤ max
    → max ≤ length dest
    → max < length bs + 3
    → (encode_entry f type max fields dest).0 ≡ Status.refused
encode_entry-refused f max type fields bs dest w least room long =
    let b : Buffer = record { dest = set dest 2 (entry_code type); off = 3 } in
    let size₁ : length b.dest ≡ length dest =
      rw (← copy-one dest 2 (entry_code type)) (length-copy dest 2 (entry_code type ∷ [])) in
    rw (le→ltb max 3 least)
      (sealed (fields b) (w.short b (omega arith) (omega arith) (omega arith)).0)
  where
    sealed : (r : Status × Buffer) → r.0 ≡ Status.refused → (store_length f r).0 ≡ Status.refused
    sealed (Status.done, b) h = absurd (cc)
    sealed (Status.refused, b) h = refl
    sealed (Status.crashed, b) h = h
