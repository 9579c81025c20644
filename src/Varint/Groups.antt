-- ===== src/Varint/Groups.antt =====
-- The bytes of a varint in plain arithmetic, lowest group first.
use wdt.Common.{ℕ, zero, suc, ◌+◌, ◌/◌, ◌%◌, ◌^◌, ◌≤◌, ◌<◌, ◌≡◌}
use wdt.Common.{List, [], ◌∷◌, ◌++◌, append_assoc, length, leb, All, if◌then◌else◌, arith}
use wdt.Common.Bits.{set_top_bit, low_seven_bits}
use wdt.Varint.{continued, push_loop, push_var_u64}

-- With `k` continuation bytes at most.
unfoldable pub groups : ℕ → ℕ → List ℕ
groups zero v = v % 256 ∷ []
groups (suc k) v =
    let rest = groups k (v / 128) in if leb 128 v then (128 + v % 128) ∷ rest else v % 256 ∷ []

-- The encoding of a `uint64_t`.
abbrev pub varint : ℕ → List ℕ
varint v = groups 8 v

pub continued_lem : (v : ℕ) → continued v ≡ 128 + v % 128
continued_lem v = rw low_seven_bits (set_top_bit (v % 128) (omega arith))

pub length-groups : (k v : ℕ) → (1 ≤ length (groups k v)) × (length (groups k v) ≤ suc k)
unfolding groups
length-groups zero v = omega arith
length-groups (suc k) v = ground (arith, length-groups k (v / 128))

pub groups-IsByte : (k v : ℕ) → All (λ b. b < 256) (groups k v)
unfolding groups
groups-IsByte zero v = omega arith
groups-IsByte (suc k) v = ground (arith, groups-IsByte k (v / 128))

-- A value below 128 ^ n takes at most `n` bytes.
pub length-groups_small : (n k v : ℕ) → v < 128 ^ suc n → length (groups k v) ≤ suc n
unfolding groups
length-groups_small n zero v h = omega arith
length-groups_small zero (suc k) v h = ground arith
length-groups_small (suc n) (suc k) v h = ground (arith, length-groups_small n k (v / 128))

push_loop-groups :
    (k count : ℕ) (buffer : List ℕ) (v : ℕ)
    → ((push_loop k count buffer v).0 ≡ buffer ++ groups k v)
      × ((push_loop k count buffer v).1 + 1 ≡ count + length (groups k v))
unfolding push_loop groups
push_loop-groups zero count buffer v = ground arith
push_loop-groups (suc k) count buffer v = ground (
  arith,
  continued_lem v,
  push_loop-groups k (count + 1) (buffer ++ continued v ∷ []) (v / 128),
  append_assoc buffer (continued v ∷ []) (groups k (v / 128)),
)

-- The overload on a string appends the varint and returns its length, which is 1 to 9.
pub push_var_u64_appends :
    (buffer : List ℕ) (v : ℕ)
    → ((push_var_u64 buffer v).0 ≡ buffer ++ varint v)
      × ((push_var_u64 buffer v).1 ≡ length (varint v))
      × (1 ≤ (push_var_u64 buffer v).1)
      × ((push_var_u64 buffer v).1 ≤ 9)
unfolding push_var_u64
push_var_u64_appends buffer v = ground (arith, push_loop-groups 8 1 buffer v, length-groups 8 v)
