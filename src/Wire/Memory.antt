-- ===== src/Wire/Memory.antt =====
-- Memory as a list of bytes: what `memcpy` leaves behind, and what a range of it holds.
use wdt.Common.{ℕ, zero, suc, ◌+◌, ◌≤◌, ◌<◌, ◌≡◌, refl, ap, ◌⊎◌, arith}
use wdt.Common.{List, [], ◌∷◌, ◌++◌, length, take, drop, set, get_elem?}

-- `memcpy(mem + off, bytes)`. Bytes past the end of the memory are dropped.
abbrev pub copy {ℓ} : {A : Type ℓ} → List A → ℕ → List A → List A
copy [] off bytes = []
copy (x ∷ mem) zero [] = x ∷ mem
copy (x ∷ mem) zero (b ∷ bytes) = b ∷ copy mem zero bytes
copy (x ∷ mem) (suc off) bytes = x ∷ copy mem off bytes

module _ {ℓ} {A : Type ℓ} where
  pub copy-nil : (mem : List A) (off : ℕ) → copy mem off [] ≡ mem
  copy-nil [] off = refl
  copy-nil (x ∷ mem) zero = refl
  copy-nil (x ∷ mem) (suc off) = ap (◌∷◌ x) (copy-nil mem off)

  pub copy-one : (mem : List A) (off : ℕ) (b : A) → copy mem off (b ∷ []) ≡ set mem off b
  copy-one [] off b = refl
  copy-one (x ∷ mem) zero b = ap (◌∷◌ b) (copy-nil mem zero)
  copy-one (x ∷ mem) (suc off) b = ap (◌∷◌ x) (copy-one mem off b)

  pub length-copy : (mem : List A) (off : ℕ) (bs : List A) → length (copy mem off bs) ≡ length mem
  length-copy [] off bs = refl
  length-copy (x ∷ mem) zero [] = refl
  length-copy (x ∷ mem) zero (b ∷ bs) = ap suc (length-copy mem zero bs)
  length-copy (x ∷ mem) (suc off) bs = ap suc (length-copy mem off bs)

  pub copy-copy :
      (mem : List A) (off : ℕ) (bs cs : List A)
      → copy (copy mem off bs) (off + length bs) cs ≡ copy mem off (bs ++ cs)
  copy-copy [] off bs cs = refl
  copy-copy (x ∷ mem) zero [] cs = refl
  copy-copy (x ∷ mem) zero (b ∷ bs) cs =
      let shift : 0 + suc (length bs) ≡ suc (0 + length bs) = omega arith in
      rw shift (ap (◌∷◌ b) (copy-copy mem zero bs cs))
  copy-copy (x ∷ mem) (suc off) bs cs =
      let shift : suc off + length bs ≡ suc (off + length bs) = omega arith in
      rw shift (ap (◌∷◌ x) (copy-copy mem off bs cs))

  -- A copy leaves alone what lies outside of it.
  pub get_elem?-copy_outside :
      (mem : List A) (off : ℕ) (bs : List A) (i : ℕ)
      → (i < off) ⊎ (off + length bs ≤ i)
      → get_elem? (copy mem off bs) i ≡ get_elem? mem i
  get_elem?-copy_outside [] off bs i h = refl
  get_elem?-copy_outside (x ∷ mem) zero [] i h = refl
  get_elem?-copy_outside (x ∷ mem) zero (b ∷ bs) zero h = absurd (omega arith)
  get_elem?-copy_outside (x ∷ mem) zero (b ∷ bs) (suc i) h =
      get_elem?-copy_outside mem zero bs i (omega arith)
  get_elem?-copy_outside (x ∷ mem) (suc off) bs zero h = refl
  get_elem?-copy_outside (x ∷ mem) (suc off) bs (suc i) h =
      get_elem?-copy_outside mem off bs i (omega arith)

  -- The bytes of `mem` from `off` up to `max`, which is what `makeByteRange(mem, max, off)` spans.
  abbrev pub span : List A → ℕ → ℕ → List A
  span mem max off = drop off (take max mem)

  -- A range that begins where a copy was made holds the copy first.
  pub span-copy :
      (mem : List A) (max off : ℕ) (bs : List A)
      → off + length bs ≤ max
      → max ≤ length mem
      → span (copy mem off bs) max off ≡ bs ++ span mem max (off + length bs)
  span-copy [] max off [] h k = ap (span [] max) (omega arith)
  span-copy [] max off (b ∷ bs) h k = absurd (omega arith)
  span-copy (x ∷ mem) zero zero [] h k = refl
  span-copy (x ∷ mem) zero zero (b ∷ bs) h k = absurd (omega arith)
  span-copy (x ∷ mem) zero (suc off) bs h k = absurd (omega arith)
  span-copy (x ∷ mem) (suc max) zero [] h k = refl
  span-copy (x ∷ mem) (suc max) zero (b ∷ bs) h k =
      let shift : 0 + suc (length bs) ≡ suc (0 + length bs) = omega arith in
      rw shift (ap (◌∷◌ b) (span-copy mem max zero bs (omega arith) (omega arith)))
  span-copy (x ∷ mem) (suc max) (suc off) bs h k =
      let shift : suc off + length bs ≡ suc (off + length bs) = omega arith in
      rw shift (span-copy mem max off bs (omega arith) (omega arith))

  take-copy :
      (mem : List A) (m : ℕ) (bs : List A)
      → m ≤ length bs
      → length bs ≤ length mem
      → take m (copy mem 0 bs) ≡ take m bs
  take-copy mem zero bs h k = refl
  take-copy mem (suc m) [] h k = absurd (omega arith)
  take-copy [] (suc m) (b ∷ bs) h k = absurd (omega arith)
  take-copy (x ∷ mem) (suc m) (b ∷ bs) h k =
      ap (◌∷◌ b) (take-copy mem m bs (omega arith) (omega arith))

  -- With a limit inside the copy the range holds the front of it.
  pub span-copy_cut :
      (mem : List A) (off n : ℕ) (bs : List A)
      → n ≤ length bs
      → off + length bs ≤ length mem
      → span (copy mem off bs) (off + n) off ≡ take n bs
  span-copy_cut mem zero n bs h k =
      let whole : 0 + n ≡ n = omega arith in rw whole (take-copy mem n bs h (omega arith))
  span-copy_cut [] (suc off) n bs h k = absurd (omega arith)
  span-copy_cut (x ∷ mem) (suc off) n bs h k =
      let shift : suc off + n ≡ suc (off + n) = omega arith in
      rw shift (span-copy_cut mem off n bs h (omega arith))
