-- ===== src/Wire/Decoder.antt =====
-- Sequences of decoders, and what it means that a decoder reads given bytes.
use wdt.Common.{ℕ, ◌+◌, ◌-◌, ◌≤◌, ◌≡◌, refl, ap, inl, inr, Bool, true, false}
use wdt.Common.{List, [], ◌∷◌, ◌++◌, length, length-append, append_assoc, append-nil, append_cut}
use wdt.Common.{arith, if◌then◌else◌}
use wdt.Wire.Types.{Buffer, Result, ok, refused, bailed, crashed, Decoder}
use wdt.Wire.Memory.{span, span-copy}
use wdt.Wire.Encoder.{put}

module _ {ℓ κ} {A : Type ℓ} {B : Type κ} where
  -- A decoder that fails stops the ones behind it, and the range stays where it is.
  abbrev pub pass : (A → Decoder B) → Result A × List ℕ → Result B × List ℕ
  pass k (ok a, br) = k a br
  pass k (refused, br) = (refused, br)
  pass k (bailed, br) = (bailed, br)
  pass k (crashed, br) = (crashed, br)

  infixl 5 ◌>>=◌
  abbrev pub ◌>>=◌ : Decoder A → (A → Decoder B) → Decoder B
  ◌>>=◌ d k br = pass k (d br)

module _ {ℓ} {A : Type ℓ} where
  abbrev pub pure : A → Decoder A
  pure a br = (ok a, br)

  -- `if (c) { ok = d }`, with the value that is there already where the test fails.
  abbrev pub when_or : Bool → A → Decoder A → Decoder A
  when_or true a d = d
  when_or false a d = pure a

  -- A decoder as the callers see it, from a memory, a limit and an offset: `makeByteRange`, then
  -- the offset moves by what was consumed, unless the decoder returned at once.
  abbrev pub moved : List ℕ → ℕ → Result A × List ℕ → Result A × ℕ
  moved br off (bailed, rest) = (bailed, off)
  moved br off (r, rest) = (r, off + (length br - length rest))

  abbrev pub decode_at : Decoder A → List ℕ → ℕ → ℕ → Result A × ℕ
  decode_at d src max off = moved (span src max off) off (d (span src max off))

  -- The results for which the C++ returns false.
  abbrev pub IsFalse : Result A → Type 0
  IsFalse (ok a) = ⊥
  IsFalse refused = Unit
  IsFalse bailed = Unit
  IsFalse crashed = ⊥

  -- `d` reads `a` from `bs`, whatever follows, and returns false on every proper prefix of `bs`.
  pub record Reads (d : Decoder A) (bs : List ℕ) (a : A) : Type ℓ where
    pub whole : (rest : List ℕ) → d (bs ++ rest) ≡ (ok a, rest)
    pub cut : (p : List ℕ) (x : ℕ) (q : List ℕ) → p ++ x ∷ q ≡ bs → IsFalse (d p).0

  pub Reads-pure : (a : A) → Reads (pure a) [] a
  Reads-pure a = record { whole = λ rest. refl; cut = no_prefix }
    where
      no_prefix : (p : List ℕ) (x : ℕ) (q : List ℕ) → p ++ x ∷ q ≡ [] → IsFalse (pure a p).0
      no_prefix [] x q e = absurd (cc)
      no_prefix (y ∷ p) x q e = absurd (cc)

  pub Reads-when_or :
      (c : Bool) {d : Decoder A} {bs : List ℕ} {a : A}
      → Reads d bs a
      → (a' : A) → Reads (when_or c a' d) (if c then bs else []) (if c then a else a')
  Reads-when_or true r a' = r
  Reads-when_or false r a' = Reads-pure a'

  -- Decoding from the place where `bs` was put gives `a`, and the offset ends behind `bs`.
  pub decode_at-put :
      (d : Decoder A) (bs : List ℕ) {a : A} (max : ℕ) (b : Buffer)
      → ((rest : List ℕ) → d (bs ++ rest) ≡ (ok a, rest))
      → b.off + length bs ≤ max
      → max ≤ length b.dest
      → decode_at d (put b bs).dest max b.off ≡ (ok a, (put b bs).off)
  decode_at-put d bs {a} max b whole h k =
      rw (span-copy b.dest max b.off bs h k, whole _)
        (ap {B = Result A × ℕ} (λ n. (ok a, n))
          (omega (arith, length-append bs (span b.dest max (b.off + length bs)))))

  -- Where more bytes follow, the first decoder's offset ends behind its own.
  pub decode_at-put_front :
      (d : Decoder A) (bs cs : List ℕ) {a : A} (max : ℕ) (b : Buffer)
      → Reads d bs a
      → b.off + length (bs ++ cs) ≤ max
      → max ≤ length b.dest
      → decode_at d (put b (bs ++ cs)).dest max b.off ≡ (ok a, (put b bs).off)
  decode_at-put_front d bs cs {a} max b r h k =
      let rest : List ℕ = span b.dest max (b.off + length (bs ++ cs)) in
      rw (span-copy b.dest max b.off (bs ++ cs) h k, append_assoc, r.whole (cs ++ rest))
        (ap {B = Result A × ℕ} (λ n. (ok a, n)) (omega (arith, length-append bs (cs ++ rest))))

module _ {ℓ κ} {A : Type ℓ} {B : Type κ} where
  pass-IsFalse : (k : A → Decoder B) (r : Result A × List ℕ) → IsFalse r.0 → IsFalse (pass k r).0
  pass-IsFalse k (ok a, br) h = absurd h
  pass-IsFalse k (refused, br) h = h
  pass-IsFalse k (bailed, br) h = h
  pass-IsFalse k (crashed, br) h = absurd h

  pub Reads-bind :
      (k : A → Decoder B) {d : Decoder A} {bs cs : List ℕ} {a : A} {b : B}
      → Reads d bs a
      → Reads (k a) cs b
      → Reads (d >>= k) (bs ++ cs) b
  Reads-bind k {d} {bs} {cs} {a} {b} p q = record { whole = both; cut = cut }
    where
      both : (rest : List ℕ) → (d >>= k) ((bs ++ cs) ++ rest) ≡ (ok b, rest)
      both rest = rw (append_assoc, p.whole (cs ++ rest)) (q.whole rest)

      cut : (l : List ℕ) (x : ℕ) (r : List ℕ) → l ++ x ∷ r ≡ bs ++ cs → IsFalse ((d >>= k) l).0
      cut l x r e = elim (append_cut l x r bs cs e) [
        | inl (y, t, g) ↦ pass-IsFalse k (d l) (p.cut l y t g)
        | inr (t, g, h) ↦ rw (g, p.whole t) (q.cut t x r h)
      ]

  pub Reads-map :
      (g : A → B) {d : Decoder A} {bs : List ℕ} {a : A}
      → Reads d bs a
      → Reads (d >>= λ x. pure (g x)) bs (g a)
  Reads-map g {d} {bs} {a} r =
      rw (← append-nil bs) (Reads-bind (λ x. pure (g x)) r (Reads-pure (g a)))
