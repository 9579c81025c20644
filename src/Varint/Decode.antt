-- ===== src/Varint/Decode.antt =====
-- `decodeVarU64` on what `encodeVarU64` wrote, and on any input.
use wdt.Common.{ℕ, zero, suc, ◌+◌, ◌*◌, ◌/◌, ◌%◌, ◌^◌, ◌<◌, ◌≡◌, refl, ap, ◌∙◌}
use wdt.Common.{◌⊎◌, inl, inr, List, [], ◌∷◌, ◌++◌, length, Option, none, some, bit_or, bit_and}
use wdt.Common.{
  take-all, length-append, arith, append_cons-ne-nil, lt→ltb, order_cases, lt→leb, le→leb,
}
use wdt.Common.Bits.{top_bit, low_seven_bits, or_shifted}
use wdt.Common.Int.{ℤ}
use wdt.Varint.{sign_extend, decode_loop, decode_var_u64, decode_var_i64, encode_zig_zag}
use wdt.Varint.ZigZag.{IsI64, encode_zig_zag-lt, decode_zig_zag-encode_zig_zag}
use wdt.Varint.Groups.{groups, varint}
use native.Mathlib.Nat.{pow-suc}
use native.Mathlib.Numerals.{towards_suc}

shift_by_seven : (s : ℕ) → 2 ^ (s + 7) ≡ 128 * 2 ^ s
shift_by_seven s = simp towards_suc (omega arith)

-- One more group under the shift: the sum fits the next shift.
group_bound : (val g s : ℕ) → val < 2 ^ s → g < 128 → val + g * 2 ^ s < 2 ^ (s + 7)
group_bound val g s h k = rw shift_by_seven (grind arith)

-- Seven bits and the rest, both under the shift.
split_shifted : (v s : ℕ) → v * 2 ^ s ≡ v % 128 * 2 ^ s + v / 128 * 2 ^ (s + 7)
split_shifted v s =
    omega (
      arith,
      ap (λ (t : ℕ). t * 2 ^ s) (digits_of v),
      ap (λ (t : ℕ). v / 128 * t) (shift_by_seven s),
    )
  where
    digits_of : (w : ℕ) → w ≡ w % 128 + 128 * (w / 128)
    digits_of w = omega arith

-- A field that the shift keeps within 64 bits is added.
or_field :
    (x val s : ℕ)
    → val < 2 ^ s
    → x * 2 ^ s < 2 ^ 64
    → bit_or val (x * 2 ^ s % 2 ^ 64) ≡ val + x * 2 ^ s
or_field x val s h k =
    let small : x * 2 ^ s % 2 ^ 64 ≡ x * 2 ^ s = omega arith in rw small (or_shifted s val x h)

-- The sign bits of the ninth byte are shifted out.
ninth_byte : (c : ℕ) → c < 256 → sign_extend c * 2 ^ 56 % 2 ^ 64 ≡ c * 2 ^ 56
unfolding sign_extend
ninth_byte c h = ground arith

sign_extend_small : (c : ℕ) → c < 128 → sign_extend c ≡ c
unfolding sign_extend
sign_extend_small c h = rw (lt→ltb c 128 h)

last_byte :
    (c val s : ℕ)
    → val < 2 ^ s
    → c * 2 ^ s < 2 ^ 64
    → (c < 128) ⊎ ((c < 256) × (s ≡ 56))
    → bit_or val (sign_extend c * 2 ^ s % 2 ^ 64) ≡ val + c * 2 ^ s
last_byte c val s h k (inl small) = rw (sign_extend_small c small) (or_field c val s h k)
last_byte c val s h k (inr (byte, e)) =
    let field : sign_extend c * 2 ^ s % 2 ^ 64 ≡ c * 2 ^ s = rw e (ninth_byte c byte) in
    rw field (or_shifted s val c h)

inner_byte :
    (g val s : ℕ)
    → g < 128
    → val < 2 ^ s
    → g * 2 ^ s < 2 ^ 64
    → bit_or val (bit_and (128 + g) 0x7f * 2 ^ s % 2 ^ 64) ≡ val + g * 2 ^ s
inner_byte g val s b h k =
    let low : bit_and (128 + g) 0x7f ≡ g = low_seven_bits (128 + g) ∙ omega arith in
    rw low (or_field g val s h k)

-- One round on a last byte, and on a byte with the top bit set.
decode_last :
    (k c val s : ℕ) (rest : List ℕ)
    → val < 2 ^ s
    → c * 2 ^ s < 2 ^ 64
    → (c < 128) ⊎ ((k ≡ 0) × (c < 256) × (s ≡ 56))
    → decode_loop k (c ∷ rest) val s ≡ some (val + c * 2 ^ s, rest)
unfolding decode_loop
decode_last zero c val s rest h f (inl small) = rw (last_byte c val s h f (inl small))
decode_last zero c val s rest h f (inr (_, byte, e)) = rw (last_byte c val s h f (inr (byte, e)))
decode_last (suc k) c val s rest h f (inl small) =
    ground (arith, top_bit c, last_byte c val s h f (inl small))
decode_last (suc k) c val s rest h f (inr (z, _, _)) = absurd (omega arith)

decode_inner :
    (k g val s : ℕ) (rest : List ℕ)
    → g < 128
    → val < 2 ^ s
    → g * 2 ^ s < 2 ^ 64
    → decode_loop (suc k) ((128 + g) ∷ rest) val s ≡ decode_loop k rest (val + g * 2 ^ s) (s + 7)
unfolding decode_loop
decode_inner k g val s rest b h f = ground (arith, top_bit (128 + g), inner_byte g val s b h f)

-- `v` is what is still to be read; it counts from bit `s` on.
decode_loop-groups :
    (k v val s : ℕ) (rest : List ℕ)
    → s + 7 * k ≡ 56
    → v < 256 * 128 ^ k
    → val < 2 ^ s
    → val + v * 2 ^ s < 2 ^ 64
    → decode_loop k (groups k v ++ rest) val s ≡ some (val + v * 2 ^ s, rest)
unfolding groups
decode_loop-groups zero v val s rest e hv h f =
    let byte : v % 256 ≡ v = omega arith in
    rw byte (decode_last zero v val s rest h (omega arith) (inr (refl, omega arith, omega arith)))
decode_loop-groups (suc k) v val s rest e hv h f = elim (order_cases 128 v) [
  | inr small ↦ rw (lt→leb 128 v small) (
      let byte : v % 256 ≡ v = omega arith in
      rw byte (decode_last (suc k) v val s rest h (omega arith) (inl small)))
  | inl big ↦ rw (le→leb 128 v big) (
      decode_inner k (v % 128) val s (groups k (v / 128) ++ rest) (omega arith) h
        (omega (arith, split_shifted v s))
      ∙ decode_loop-groups k (v / 128) (val + v % 128 * 2 ^ s) (s + 7) rest (omega arith)
          (omega (arith, pow-suc 128 k)) (group_bound val (v % 128) s h (omega arith))
          (omega (arith, split_shifted v s))
      ∙ ap (λ (n : ℕ). some (n, rest)) (omega (arith, split_shifted v s)))
]

-- A proper prefix of an encoding holds no number.
decode_loop_cut :
    (k v val s : ℕ) (p : List ℕ) (x : ℕ) (q : List ℕ)
    → p ++ x ∷ q ≡ groups k v
    → decode_loop k p val s ≡ none
unfolding groups decode_loop
decode_loop_cut k v val s [] x q e = refl
decode_loop_cut zero v val s (c ∷ p) x q e = absurd (append_cons-ne-nil p x q (cc))
decode_loop_cut (suc k) v val s (c ∷ p) x q e = elim (order_cases 128 v) [
  | inr small ↦
      let alone : c ∷ p ++ x ∷ q ≡ v % 256 ∷ [] = rw (lt→leb 128 v small) at e in
      absurd (append_cons-ne-nil p x q (cc))
  | inl big ↦
      let both : c ∷ p ++ x ∷ q ≡ (128 + v % 128) ∷ groups k (v / 128) =
        rw (le→leb 128 v big) at e in
      let head : c ≡ 128 + v % 128 = cc in
      ground (
        arith,
        top_bit c,
        decode_loop_cut k (v / 128) (bit_or val (bit_and c 0x7f * 2 ^ s % 2 ^ 64)) (s + 7) p x q
            (cc),
      )
]

pub decode_var_u64-varint :
    (v : ℕ) (rest : List ℕ)
    → v < 2 ^ 64
    → decode_var_u64 (varint v ++ rest) (length (varint v ++ rest)) 0 ≡ some (v, length (varint v))
unfolding decode_var_u64
decode_var_u64-varint v rest h =
    let input : List ℕ = varint v ++ rest in
    rw (take-all (length input) input (omega arith), whole)
      (ap {B = Option (ℕ × ℕ)} (λ n. some (v, n)) (omega (arith, length-append (varint v) rest)))
  where
    whole : decode_loop 8 (varint v ++ rest) 0 0 ≡ some (v, rest)
    whole =
        decode_loop-groups 8 v 0 0 rest (omega arith) (omega arith) (omega arith) (omega arith)
        ∙ ap (λ (n : ℕ). some (n, rest)) (omega arith)

pub decode_var_u64_cut :
    (v : ℕ) (p : List ℕ) (x : ℕ) (q : List ℕ)
    → p ++ x ∷ q ≡ varint v
    → decode_var_u64 p (length p) 0 ≡ none
unfolding decode_var_u64
decode_var_u64_cut v p x q e =
    rw (take-all (length p) p (omega arith), decode_loop_cut 8 v 0 0 p x q e)

pub decode_var_i64-varint :
    (v : ℤ) (rest : List ℕ)
    → IsI64 v
    → let bs = varint (encode_zig_zag v) in
      decode_var_i64 (bs ++ rest) (length (bs ++ rest)) 0 ≡ some (v, length bs)
unfolding decode_var_i64
decode_var_i64-varint v rest h = rw (
  decode_var_u64-varint (encode_zig_zag v) rest (encode_zig_zag-lt v h),
  decode_zig_zag-encode_zig_zag v h,
)

pub decode_var_i64_cut :
    (v : ℕ) (p : List ℕ) (x : ℕ) (q : List ℕ)
    → p ++ x ∷ q ≡ varint v
    → decode_var_i64 p (length p) 0 ≡ none
unfolding decode_var_i64
decode_var_i64_cut v p x q e = rw (decode_var_u64_cut v p x q e)
