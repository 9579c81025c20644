-- ===== src/Varint/Encode.antt =====
-- `encodeVarU64` on memory, on every branch.
use wdt.Common.{ℕ, zero, suc, ◌+◌, ◌-◌, ◌/◌, ◌%◌, ◌^◌, ◌≤◌, ◌<◌, ◌≡◌, refl, ap, ◌∙◌}
use wdt.Common.{◌⊎◌, inl, inr, List, [], ◌∷◌, length, set, get_elem?}
use wdt.Common.{arith, order_cases, lt→leb, le→leb}
use wdt.Common.Int.{ℤ, pos, negsuc, pos_part}
use wdt.Wire.Types.{Status, Buffer}
use wdt.Wire.Memory.{copy, copy-one, copy-copy, length-copy, get_elem?-copy_outside}
use wdt.Wire.Encoder.{put, Confined, Writes}
use wdt.Varint.{
  encode_var_i64, encode_zig_zag, continued, store_last, encode_loop, encode_var_u64,
  encode_var_i64c,
}
use wdt.Varint.Groups.{groups, varint, continued_lem, length-groups}

abbrev stored : List ℕ → ℕ → Status × Buffer
stored mem off = (Status.done, record { dest = mem; off = off })

module _ (datasz off : ℕ) where
  encode_loop_fits :
      (k count : ℕ) (mem : List ℕ) (p v : ℕ)
      → p + length (groups k v) ≤ datasz
      → encode_loop datasz off k count mem p v
        ≡ stored (copy mem p (groups k v)) (off + (count + length (groups k v) - 1))
  unfolding encode_loop groups
  encode_loop_fits zero count mem p v h = ground (arith, copy-one mem p (v % 256))
  encode_loop_fits (suc k) count mem p v h = ground (
    arith,
    continued_lem v,
    copy-one mem p (v % 256),
    copy-one mem p (128 + v % 128),
    copy-copy mem p ((128 + v % 128) ∷ []) (groups k (v / 128)),
    length-groups k (v / 128),
    encode_loop_fits k (count + 1) (set mem p (continued v)) (p + 1) (v / 128),
  )

  -- What a refused call has done: the offset stays, and only bytes from `p` up to `datasz` changed.
  record GaveUp (mem : List ℕ) (p : ℕ) (r : Status × Buffer) : Type 0 where
    status : r.0 ≡ Status.refused
    offset : r.1.off ≡ off
    same_size : length r.1.dest ≡ length mem
    untouched : (i : ℕ) → (i < p) ⊎ (datasz ≤ i) → get_elem? r.1.dest i ≡ get_elem? mem i

  GaveUp-now :
      (mem : List ℕ) (p : ℕ) → GaveUp mem p (Status.refused, record { dest = mem; off = off })
  GaveUp-now mem p = record {
    status = refl;
    offset = refl;
    same_size = refl;
    untouched = λ i h. refl;
  }

  GaveUp-later :
      (mem : List ℕ) (p x : ℕ) (r : Status × Buffer)
      → p < datasz
      → GaveUp (set mem p x) (p + 1) r
      → GaveUp mem p r
  GaveUp-later mem p x r h g = record {
    status = g.status;
    offset = g.offset;
    same_size =
        omega (arith, g.same_size, ap length (copy-one mem p x), length-copy mem p (x ∷ []));
    untouched = λ i k.
        g.untouched i (omega arith)
        ∙ rw (← copy-one mem p x) (get_elem?-copy_outside mem p (x ∷ []) i (omega arith));
  }

  store_last_short :
      (count : ℕ) (mem : List ℕ) (p v : ℕ)
      → datasz < p + 1
      → GaveUp mem p (store_last datasz off count mem p v)
  unfolding store_last
  store_last_short count mem p v h = rw (le→leb datasz p (omega arith)) (GaveUp-now mem p)

  encode_loop_short :
      (k count : ℕ) (mem : List ℕ) (p v : ℕ)
      → datasz < p + length (groups k v)
      → GaveUp mem p (encode_loop datasz off k count mem p v)
  unfolding encode_loop groups
  encode_loop_short zero count mem p v h = store_last_short count mem p v h
  encode_loop_short (suc k) count mem p v h = elim (order_cases 128 v) [
    | inr small ↦
        rw (lt→leb 128 v small) (store_last_short count mem p v (rw (lt→leb 128 v small) at h))
    | inl big ↦ elim (order_cases datasz p) [
      | inl full ↦ rw (le→leb 128 v big, le→leb datasz p full) (GaveUp-now mem p)
      | inr room ↦
          rw (le→leb 128 v big, lt→leb datasz p room)
            (GaveUp-later mem p (continued v) _ room (
              encode_loop_short k (count + 1) (set mem p (continued v)) (p + 1) (v / 128)
                (omega (arith, rw (le→leb 128 v big) at h))))
    ]
  ]

pub encode_var_u64-Writes : (max v : ℕ) → Writes max (encode_var_u64 max v) (varint v)
unfolding encode_var_u64
encode_var_u64-Writes max v = record { fits = whole; short = cut }
  where
    whole :
        (b : Buffer)
        → b.off + length (varint v) ≤ max
        → max ≤ length b.dest
        → encode_loop max b.off 8 1 b.dest b.off v ≡ (Status.done, put b (varint v))
    whole b h k =
        encode_loop_fits max b.off 8 1 b.dest b.off v h
        ∙ ap (λ (n : ℕ). stored (copy b.dest b.off (varint v)) n) (omega arith)

    cut :
        (b : Buffer)
        → b.off ≤ max
        → max < b.off + length (varint v)
        → max ≤ length b.dest
        → ((encode_loop max b.off 8 1 b.dest b.off v).0 ≡ Status.refused)
          × Confined max b (encode_loop max b.off 8 1 b.dest b.off v).1
    cut b l h k =
        let g = encode_loop_short max b.off 8 1 b.dest b.off v h in
        (
          g.status,
          record {
            same_size = g.same_size;
            forward = omega (arith, g.offset);
            within = λ _. omega (arith, g.offset);
            untouched = g.untouched;
          },
        )

-- An `int64_t` that is not negative.
abbrev pub IsCount : ℤ → Type 0
IsCount (pos n) = n < 2 ^ 63
IsCount (negsuc n) = ⊥

pub encode_var_i64c-Writes :
    (max : ℕ) (v : ℤ) → IsCount v → Writes max (encode_var_i64c max v) (varint (pos_part v))
unfolding encode_var_i64c
encode_var_i64c-Writes max (pos n) h = encode_var_u64-Writes max n
encode_var_i64c-Writes max (negsuc n) h = absurd h

pub encode_var_i64-Writes :
    (max : ℕ) (v : ℤ) → Writes max (encode_var_i64 max v) (varint (encode_zig_zag v))
unfolding encode_var_i64
encode_var_i64-Writes max v = encode_var_u64-Writes max (encode_zig_zag v)
