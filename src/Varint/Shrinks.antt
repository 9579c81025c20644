-- ===== src/Varint/Shrinks.antt =====
-- A varint that is decoded takes at least one byte, from any input.
use wdt.Common.{
  ℕ, zero, suc, ◌+◌, ◌*◌, ◌%◌, ◌^◌, ◌≤◌, ◌<◌, ◌≡◌, Bool-cases, inl, inr, Option, none, some,
}
use wdt.Common.{List, [], ◌∷◌, length, arith, bit_and, bit_or, ◌==◌, take-all, take}
use wdt.Varint.{decode_loop, decode_var_u64, decode_var_i64, zig_zagged, position}

abbrev IsShorter : ℕ → Option (ℕ × List ℕ) → Type 0
IsShorter size none = Unit
IsShorter size (some (val, rest)) = length rest < size

IsShorter-later : (size : ℕ) (r : Option (ℕ × List ℕ)) → IsShorter size r → IsShorter (suc size) r
IsShorter-later size none h = h
IsShorter-later size (some (val, rest)) h = omega arith

decode_loop-IsShorter :
    (k : ℕ) (p : List ℕ) (val shift : ℕ) → IsShorter (length p) (decode_loop k p val shift)
unfolding decode_loop
decode_loop-IsShorter k [] val shift = tt
decode_loop-IsShorter zero (c ∷ p) val shift = omega arith
decode_loop-IsShorter (suc k) (c ∷ p) val shift = elim (Bool-cases (bit_and c 0x80 == 0)) [
  | inl last ↦ rw last (omega arith)
  | inr more ↦ rw more (
      IsShorter-later (length p) _
        (decode_loop-IsShorter k p (bit_or val (bit_and c 0x7f * 2 ^ shift % 2 ^ 64)) (shift + 7)))
]

-- The new position lies behind at least one byte and not behind the end.
abbrev pub IsAdvance {ℓ} : {A : Type ℓ} → ℕ → Option (A × ℕ) → Type 0
IsAdvance size none = Unit
IsAdvance size (some (val, off)) = (1 ≤ off) × (off ≤ size)

pub decode_var_u64-IsAdvance :
    (br : List ℕ) → IsAdvance (length br) (decode_var_u64 br (length br) 0)
unfolding decode_var_u64
decode_var_u64-IsAdvance br =
    let all : take (length br) br ≡ br = take-all (length br) br (omega arith) in
    rw all (placed (decode_loop 8 br 0 0) (decode_loop-IsShorter 8 br 0 0))
  where
    placed :
        (r : Option (ℕ × List ℕ))
        → IsShorter (length br) r
        → IsAdvance (length br) (position br 0 r)
    placed none h = tt
    placed (some (val, rest)) h = omega arith

pub decode_var_i64-IsAdvance :
    (br : List ℕ) → IsAdvance (length br) (decode_var_i64 br (length br) 0)
unfolding decode_var_i64
decode_var_i64-IsAdvance br =
    same_offset (decode_var_u64 br (length br) 0) (decode_var_u64-IsAdvance br)
  where
    same_offset :
        (r : Option (ℕ × ℕ)) → IsAdvance (length br) r → IsAdvance (length br) (zig_zagged r)
    same_offset none h = tt
    same_offset (some (v, off)) h = h
