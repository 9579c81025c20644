-- ===== src/Wire/Exchange.antt =====
-- From one message's encoder and decoder over the same bytes: what a sender and a receiver see.
use wdt.Common.{ℕ, ◌+◌, ◌-◌, ◌≤◌, ◌<◌, ◌≡◌, ap, ◌⊎◌, inl, inr, List, ◌++◌}
use wdt.Common.{length, take, take_split, arith, order_cases}
use wdt.Wire.Types.{Status, Buffer, Encoder, Result, ok, refused, bailed, crashed, Decoder}
use wdt.Wire.Memory.{span, span-copy_cut}
use wdt.Wire.Encoder.{Writes, Confined, Confined-put, put}
use wdt.Wire.Decoder.{Reads, decode_at, decode_at-put, IsFalse, moved}

-- A buffer whose offset is at most `max`, over a memory of at least `max` bytes.
pub record IsRoom (max : ℕ) (b : Buffer) : Type 0 where
  pub start : b.off ≤ max
  pub size : max ≤ length b.dest

moved-IsFalse {ℓ} :
    {A : Type ℓ} (br : List ℕ) (off : ℕ) (r : Result A × List ℕ)
    → IsFalse r.0
    → IsFalse (moved br off r).0
moved-IsFalse br off (ok a, rest) h = h
moved-IsFalse br off (refused, rest) h = h
moved-IsFalse br off (bailed, rest) h = h
moved-IsFalse br off (crashed, rest) h = h

module _ (max : ℕ) {e : Encoder} {bs : List ℕ} (w : Writes max e bs) where
  -- The encoder returns true exactly when the bytes fit, and writes nothing outside of its room.
  pub fits_exactly :
      (b : Buffer)
      → IsRoom max b
      → ((b.off + length bs ≤ max) × ((e b).0 ≡ Status.done) × ((e b).1.off ≡ b.off + length bs))
        ⊎ ((max < b.off + length bs) × ((e b).0 ≡ Status.refused))
  fits_exactly b r = elim (order_cases (b.off + length bs) max) [
    | inl room ↦ inl (room, rw (w.fits b room r.size), rw (w.fits b room r.size))
    | inr tight ↦ inr (tight, (w.short b r.start tight r.size).0)
  ]

  pub succeeds : (b : Buffer) → IsRoom max b → b.off + length bs ≤ max → (e b).0 ≡ Status.done
  succeeds b r h = ap (λ (x : Status × Buffer). x.0) (w.fits b h r.size)

  pub moves :
      (b : Buffer) → IsRoom max b → b.off + length bs ≤ max → (e b).1.off ≡ b.off + length bs
  moves b r h = ap (λ (x : Status × Buffer). x.1.off) (w.fits b h r.size)

  -- A success with some bytes moves the offset.
  pub advances :
      (b : Buffer) → IsRoom max b → (e b).0 ≡ Status.done → 1 ≤ length bs → b.off < (e b).1.off
  advances b r d some = elim (fits_exactly b r) [
    | inl (room, done, there) ↦ omega (arith, there)
    | inr (tight, failed) ↦ absurd (cc)
  ]

  pub stays-Confined : (b : Buffer) → IsRoom max b → Confined max b (e b).1
  stays-Confined b r = elim (order_cases (b.off + length bs) max) [
    | inl room ↦ rw (w.fits b room r.size) (Confined-put max b bs room)
    | inr tight ↦ (w.short b r.start tight r.size).1
  ]

  -- A success leaves the bytes where the offset was.
  pub success :
      (b : Buffer)
      → IsRoom max b
      → (e b).0 ≡ Status.done
      → (b.off + length bs ≤ max) × (e b ≡ (Status.done, put b bs))
  success b r d = elim (order_cases (b.off + length bs) max) [
    | inl room ↦ (room, w.fits b room r.size)
    | inr tight ↦ absurd (cc ((w.short b r.start tight r.size).0))
  ]

  -- What was encoded is decoded, and the decoder's offset ends where the encoder's did.
  pub decodes_whole {ℓ} :
      {A : Type ℓ} (d : Decoder A) {a : A}
      → ((rest : List ℕ) → d (bs ++ rest) ≡ (ok a, rest))
      → (b : Buffer) → IsRoom max b
      → (e b).0 ≡ Status.done
      → decode_at d (e b).1.dest max b.off ≡ (ok a, (e b).1.off)
  decodes_whole d whole b r s =
      let (room, written) = success b r s in rw written (decode_at-put d bs max b whole room r.size)

  module _ {ℓ} {A : Type ℓ} {d : Decoder A} {a : A} (reads : Reads d bs a) where
    pub decodes_back :
        (b : Buffer)
        → IsRoom max b
        → (e b).0 ≡ Status.done
        → decode_at d (e b).1.dest max b.off ≡ (ok a, (e b).1.off)
    decodes_back = decodes_whole d reads.whole

    -- With a limit before the end of what was encoded the decoder returns false.
    pub refuses_short :
        (b : Buffer) (m : ℕ)
        → IsRoom max b
        → (e b).0 ≡ Status.done
        → b.off ≤ m
        → m < (e b).1.off
        → IsFalse (decode_at d (e b).1.dest m b.off).0
    refuses_short b m r s lo hi =
        let (room, written) = success b r s in
        let inside : m < b.off + length bs = rw written at hi in
        let (x, q, whole) = take_split (m - b.off) bs (omega arith) in
        rw (written, front room inside)
          (moved-IsFalse (take (m - b.off) bs) b.off (d (take (m - b.off) bs))
            (reads.cut (take (m - b.off) bs) x q whole))
      where
        front :
            b.off + length bs ≤ max
            → m < b.off + length bs
            → span (put b bs).dest m b.off ≡ take (m - b.off) bs
        front room inside =
            let there : b.off + (m - b.off) ≡ m = omega arith in
            rw there at (span-copy_cut b.dest b.off (m - b.off) bs (omega arith) (omega arith))
