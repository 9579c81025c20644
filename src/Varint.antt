-- ===== src/Varint.antt =====
-- The varint building blocks of util/SerializationUtil.h: zigzag, and 64-bit numbers in 1 to 9
-- bytes. The first eight bytes carry seven bits each under a continuation bit; a ninth byte carries
-- the last eight. A `uint64_t` is a number below 2 ^ 64, an `int64_t` an integer, a `char` a byte.
pub mod Groups
pub mod Encode
pub mod Decode
pub mod ZigZag
pub mod Shrinks
use wdt.Common.{ℕ, zero, suc, ◌+◌, ◌-◌, ◌*◌, ◌/◌, ◌%◌, ◌^◌, bit_and, bit_or, bit_xor}
use wdt.Common.{Bool, true, false, Option, none, some, List, [], ◌∷◌, ◌++◌}
use wdt.Common.{length, set, drop, ltb, leb, ◌==◌, if◌then◌else◌}
use wdt.Common.Int.{ℤ, pos, negsuc}
use wdt.Wire.Types.{Status, Buffer, Encoder, Result, ok, refused, crashed, Decoder}
use wdt.Wire.Memory.{span}

-- `static_cast<uint64_t>(val)`
pub to_u64 : ℤ → ℕ
to_u64 (pos n) = n % 2 ^ 64
to_u64 (negsuc n) = 2 ^ 64 - 1 - n % 2 ^ 64

-- `static_cast<int64_t>(val)`
pub to_i64 : ℕ → ℤ
to_i64 u = if ltb u (2 ^ 63) then pos u else negsuc (2 ^ 64 - 1 - u)

-- `val >> 63`, the arithmetic shift of an `int64_t`: 0 or -1.
pub sign_mask : ℤ → ℤ
sign_mask (pos n) = pos 0
sign_mask (negsuc n) = negsuc 0

pub encode_zig_zag : ℤ → ℕ
unfolding to_u64 sign_mask
encode_zig_zag val = bit_xor (to_u64 val * 2 % 2 ^ 64) (to_u64 (sign_mask val))

-- `-(val & 1)` on a `uint64_t`
pub negate_u64 : ℕ → ℕ
negate_u64 u = (2 ^ 64 - u) % 2 ^ 64

pub decode_zig_zag : ℕ → ℤ
unfolding to_i64 negate_u64
decode_zig_zag val = to_i64 (bit_xor (val / 2) (negate_u64 (bit_and val 1)))

-- `static_cast<char>(0x80 | (v & 0x7f))`
abbrev pub continued : ℕ → ℕ
continued v = bit_or 0x80 (bit_and v 0x7f)

-- `encodeVarU64` on a `std::string`, which returns the number of bytes too. The first argument
-- counts the rounds that `++count < 9` still lets through.
push_loop : ℕ → ℕ → List ℕ → ℕ → List ℕ × ℕ
push_loop zero count buffer v = (buffer ++ v % 256 ∷ [], count)
push_loop (suc k) count buffer v =
    let more = push_loop k (count + 1) (buffer ++ continued v ∷ []) (v / 128) in
    if leb 128 v then more else (buffer ++ v % 256 ∷ [], count)

pub push_var_u64 : List ℕ → ℕ → List ℕ × ℕ
unfolding push_loop
push_var_u64 buffer v = push_loop 8 1 buffer v

pub push_var_i64 : List ℕ → ℤ → List ℕ × ℕ
push_var_i64 buffer i64 = push_var_u64 buffer (encode_zig_zag i64)

-- `encodeVarU64` on memory: `p` goes through `data`, `off` moves only at the end, and each store is
-- behind the check that `p < end`.
store_last : ℕ → ℕ → ℕ → List ℕ → ℕ → ℕ → Status × Buffer
store_last datasz off count mem p v =
    if leb datasz p
    then (Status.refused, record { dest = mem; off = off })
    else (Status.done, record { dest = set mem p (v % 256); off = off + count })

encode_loop : ℕ → ℕ → ℕ → ℕ → List ℕ → ℕ → ℕ → Status × Buffer
unfolding store_last
encode_loop datasz off zero count mem p v = store_last datasz off count mem p v
encode_loop datasz off (suc k) count mem p v =
    let more = encode_loop datasz off k (count + 1) (set mem p (continued v)) (p + 1) (v / 128) in
    if leb 128 v
    then if leb datasz p then (Status.refused, record { dest = mem; off = off }) else more
    else store_last datasz off count mem p v

pub encode_var_u64 : ℕ → ℕ → Encoder
unfolding encode_loop
encode_var_u64 datasz v b = encode_loop datasz b.off 8 1 b.dest b.off v

pub encode_var_i64 : ℕ → ℤ → Encoder
encode_var_i64 datasz sv = encode_var_u64 datasz (encode_zig_zag sv)

-- The WDT_CHECK on a negative value ends the process.
pub encode_var_i64c : ℕ → ℤ → Encoder
encode_var_i64c datasz (pos n) b = encode_var_u64 datasz n b
encode_var_i64c datasz (negsuc n) b = (Status.crashed, b)

-- `static_cast<uint64_t>` of a signed `char`.
pub sign_extend : ℕ → ℕ
sign_extend c = if ltb c 128 then c else c + (2 ^ 64 - 256)

-- `decodeVarU64` from the pointer `p` on: the value and the bytes behind it. The empty list is
-- `p >= end`, which the code tests before the loop and after each step.
decode_loop : ℕ → List ℕ → ℕ → ℕ → Option (ℕ × List ℕ)
unfolding sign_extend
decode_loop k [] val shift = none
decode_loop zero (c ∷ p) val shift = some (bit_or val (sign_extend c * 2 ^ shift % 2 ^ 64), p)
decode_loop (suc k) (c ∷ p) val shift =
    let more = decode_loop k p (bit_or val (bit_and c 0x7f * 2 ^ shift % 2 ^ 64)) (shift + 7) in
    if bit_and c 0x80 == 0 then some (bit_or val (sign_extend c * 2 ^ shift % 2 ^ 64), p) else more

-- `p - data`
abbrev pub position : List ℕ → ℕ → Option (ℕ × List ℕ) → Option (ℕ × ℕ)
position p off none = none
position p off (some (val, rest)) = some (val, off + (length p - length rest))

-- `decodeVarU64`: the value and the new position.
pub decode_var_u64 : List ℕ → ℕ → ℕ → Option (ℕ × ℕ)
unfolding decode_loop
decode_var_u64 data_ datalen off =
    position (span data_ datalen off) off (decode_loop 8 (span data_ datalen off) 0 0)

abbrev pub zig_zagged : Option (ℕ × ℕ) → Option (ℤ × ℕ)
zig_zagged none = none
zig_zagged (some (v, off)) = some (decode_zig_zag v, off)

pub decode_var_i64 : List ℕ → ℕ → ℕ → Option (ℤ × ℕ)
decode_var_i64 data_ datalen off = zig_zagged (decode_var_u64 data_ datalen off)
