-- ===== src/Wire/Yields.antt =====
-- What a decoder yields on any input: no failed WDT_CHECK and no read out of bounds, and a value with
-- a property where it succeeds.
use wdt.Common.{ℕ, List}
use wdt.Wire.Types.{Result, ok, refused, bailed, crashed, Decoder}
use wdt.Wire.Decoder.{◌>>=◌, pure, pass}
use wdt.Wire.Sound.{IsSound, IsSoundAt}

module _ {ℓ} {A : Type ℓ} where
  abbrev pub YieldsAt : (A → Type 0) → Result A → Type 0
  YieldsAt P (ok a) = P a
  YieldsAt P refused = Unit
  YieldsAt P bailed = Unit
  YieldsAt P crashed = ⊥

  unfoldable pub Yields : (A → Type 0) → Decoder A → Type 0
  Yields P d = (br : List ℕ) → YieldsAt P (d br).0

  pub Yields-pure : (P : A → Type 0) (a : A) → P a → Yields P (pure a)
  unfolding Yields
  Yields-pure P a h br = h

  yields_at : (n size : ℕ) (r : Result A × List ℕ) → IsSoundAt n size r → YieldsAt (λ a. Unit) r.0
  yields_at n size (ok a, rest) h = tt
  yields_at n size (refused, rest) h = tt
  yields_at n size (bailed, rest) h = tt
  yields_at n size (crashed, rest) h = h

  pub Yields-IsSound : (n : ℕ) (d : Decoder A) → IsSound n d → Yields (λ a. Unit) d
  unfolding Yields IsSound
  Yields-IsSound n d s br = yields_at n _ (d br) (s br)

module _ {ℓ κ} {A : Type ℓ} {B : Type κ} where
  pub Yields-bind :
      (P : A → Type 0) (Q : B → Type 0) (d : Decoder A) (k : A → Decoder B)
      → Yields P d
      → ((a : A) → P a → Yields Q (k a))
      → Yields Q (d >>= k)
  unfolding Yields
  Yields-bind P Q d k y z br = behind (d br) (y br)
    where
      behind : (r : Result A × List ℕ) → YieldsAt P r.0 → YieldsAt Q (pass k r).0
      behind (ok a, rest) h = z a h rest
      behind (refused, rest) h = tt
      behind (bailed, rest) h = tt
      behind (crashed, rest) h = h
