-- ===== src/Wire/Encoder.antt =====
-- Sequences of encoders, and what it means that an encoder writes given bytes.
use wdt.Common.{ℕ, ◌+◌, ◌≤◌, ◌<◌, ◌≡◌, refl, sym, ap, ◌∙◌, ◌⊎◌, inl, inr, Bool, true, false}
use wdt.Common.{List, [], ◌++◌, length, length-append, get_elem?, arith, order_cases}
use wdt.Common.{if◌then◌else◌}
use native.Mathlib.Nat.{add-zero}
use wdt.Wire.Types.{Status, Buffer, Encoder}
use wdt.Wire.Memory.{copy, copy-nil, copy-copy, length-copy, get_elem?-copy_outside}

-- `e && f`: the second runs if the first returned true.
abbrev pub continue : Encoder → Status × Buffer → Status × Buffer
continue f (Status.done, b) = f b
continue f (Status.refused, b) = (Status.refused, b)
continue f (Status.crashed, b) = (Status.crashed, b)

infixr 5 ◌>>◌
abbrev pub ◌>>◌ : Encoder → Encoder → Encoder
◌>>◌ e f b = continue f (e b)

abbrev pub skip : Encoder
skip b = (Status.done, b)

-- `if (c) { ok = e }`
abbrev pub when : Bool → Encoder → Encoder
when true e = e
when false e = skip

-- The buffer after `bs` was written at its offset.
abbrev pub put : Buffer → List ℕ → Buffer
put b bs = record { dest = copy b.dest b.off bs; off = b.off + length bs }

pub put-nil : (b : Buffer) → put b [] ≡ b
put-nil b = λ i. record { dest = copy-nil b.dest b.off i; off = add-zero b.off i }

pub put-put : (b : Buffer) (bs cs : List ℕ) → put (put b bs) cs ≡ put b (bs ++ cs)
put-put b bs cs = λ i. record { dest = copy-copy b.dest b.off bs cs i; off = offsets i }
  where
    offsets : b.off + length bs + length cs ≡ b.off + length (bs ++ cs)
    offsets = omega (arith, length-append bs cs)

-- From `b` to `c` nothing was written outside of the offsets from `b.off` up to `max`.
pub record Confined (max : ℕ) (b c : Buffer) : Type 0 where
  pub same_size : length c.dest ≡ length b.dest
  pub forward : b.off ≤ c.off
  pub within : b.off ≤ max → c.off ≤ max
  pub untouched : (i : ℕ) → (i < b.off) ⊎ (max ≤ i) → get_elem? c.dest i ≡ get_elem? b.dest i

module _ (max : ℕ) where
  pub Confined-refl : (b : Buffer) → Confined max b b
  Confined-refl b = record {
    same_size = refl;
    forward = omega arith;
    within = λ h. h;
    untouched = λ i h. refl;
  }

  pub Confined-trans : {b c d : Buffer} → Confined max b c → Confined max c d → Confined max b d
  Confined-trans {b} {c} {d} p q = record {
    same_size = q.same_size ∙ p.same_size;
    forward = omega arith;
    within = λ h. q.within (p.within h);
    untouched = λ i h.
        q.untouched i (elim h [ inl l ↦ inl (omega arith) | inr r ↦ inr r ]) ∙ p.untouched i h;
  }

  pub Confined-put :
      (b : Buffer) (bs : List ℕ) → b.off + length bs ≤ max → Confined max b (put b bs)
  Confined-put b bs h = record {
    same_size = length-copy b.dest b.off bs;
    forward = omega arith;
    within = λ _. h;
    untouched = λ i k.
        get_elem?-copy_outside b.dest b.off bs i
          (elim k [ inl l ↦ inl l | inr r ↦ inr (omega arith) ]);
  }

  -- `e` writes `bs` if they fit below `max`, and is refused if they do not, when it may have
  -- written some of them.
  pub record Writes (e : Encoder) (bs : List ℕ) : Type 0 where
    pub fits :
        (b : Buffer) → b.off + length bs ≤ max → max ≤ length b.dest → e b ≡ (Status.done, put b bs)
    pub short :
        (b : Buffer)
        → b.off ≤ max
        → max < b.off + length bs
        → max ≤ length b.dest
        → ((e b).0 ≡ Status.refused) × Confined max b (e b).1

  pub Writes-skip : Writes skip []
  Writes-skip = record {
    fits = λ b h k. ap (λ (c : Buffer). (Status.done, c)) (sym (put-nil b));
    short = λ b l h k. absurd (omega arith);
  }

  refused_first :
      {b : Buffer} (f : Encoder) (r : Status × Buffer)
      → (r.0 ≡ Status.refused) × Confined max b r.1
      → ((continue f r).0 ≡ Status.refused) × Confined max b (continue f r).1
  refused_first f (Status.done, c) (failed, kept) = absurd (cc)
  refused_first f (Status.refused, c) h = h
  refused_first f (Status.crashed, c) h = h

  pub Writes-seq :
      {e f : Encoder} {bs cs : List ℕ} → Writes e bs → Writes f cs → Writes (e >> f) (bs ++ cs)
  Writes-seq {e} {f} {bs} {cs} p q = record { fits = both; short = cut }
    where
      both :
          (b : Buffer)
          → b.off + length (bs ++ cs) ≤ max
          → max ≤ length b.dest
          → (e >> f) b ≡ (Status.done, put b (bs ++ cs))
      both b h k = rw (p.fits b (omega (arith, length-append bs cs)) k) (
          q.fits (put b bs) (omega (arith, length-append bs cs))
            (omega (arith, length-copy b.dest b.off bs))
          ∙ ap (λ (c : Buffer). (Status.done, c)) (put-put b bs cs))

      cut :
          (b : Buffer)
          → b.off ≤ max
          → max < b.off + length (bs ++ cs)
          → max ≤ length b.dest
          → (((e >> f) b).0 ≡ Status.refused) × Confined max b ((e >> f) b).1
      cut b l h k = elim (order_cases (b.off + length bs) max) [
        | inl room ↦
            let (failed, kept) =
              q.short (put b bs) room (omega (arith, length-append bs cs))
                (omega (arith, length-copy b.dest b.off bs)) in
            rw (p.fits b room k) (failed, Confined-trans (Confined-put b bs room) kept)
        | inr tight ↦ refused_first f (e b) (p.short b l tight k)
      ]

  pub Writes-when :
      (c : Bool) {e : Encoder} {bs : List ℕ}
      → Writes e bs
      → Writes (when c e) (if c then bs else [])
  Writes-when true w = w
  Writes-when false w = Writes-skip
