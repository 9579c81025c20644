-- ===== src/Wire/Sound.antt =====
-- Decoders that no input makes fail a WDT_CHECK or read out of bounds.
use wdt.Common.{ℕ, ◌+◌, ◌≤◌, Bool, true, false, List, length, arith}
use wdt.Wire.Types.{Result, ok, refused, bailed, crashed, Decoder}
use wdt.Wire.Decoder.{◌>>=◌, pure, when_or, pass}

module _ {ℓ} {A : Type ℓ} where
  -- From `size` bytes at most `size` are left, and `n` fewer after a success.
  abbrev pub IsSoundAt : ℕ → ℕ → Result A × List ℕ → Type 0
  IsSoundAt n size (ok a, rest) = length rest + n ≤ size
  IsSoundAt n size (refused, rest) = length rest ≤ size
  IsSoundAt n size (bailed, rest) = length rest ≤ size
  IsSoundAt n size (crashed, rest) = ⊥

  unfoldable pub IsSound : ℕ → Decoder A → Type 0
  IsSound n d = (br : List ℕ) → IsSoundAt n (length br) (d br)

  pub IsSound-pure : (a : A) → IsSound 0 (pure a)
  unfolding IsSound
  IsSound-pure a br = omega arith

  pub IsSound-when_or : (c : Bool) (a : A) (d : Decoder A) → IsSound 0 d → IsSound 0 (when_or c a d)
  unfolding IsSound
  IsSound-when_or true a d s br = s br
  IsSound-when_or false a d s br = omega arith

  pub IsSoundAt-less :
      (n m size size' : ℕ) (r : Result A × List ℕ)
      → m ≤ n
      → size ≤ size'
      → IsSoundAt n size r
      → IsSoundAt m size' r
  IsSoundAt-less n m size size' (ok a, rest) le le' h = omega arith
  IsSoundAt-less n m size size' (refused, rest) le le' h = omega arith
  IsSoundAt-less n m size size' (bailed, rest) le le' h = omega arith
  IsSoundAt-less n m size size' (crashed, rest) le le' h = h

  pub IsSound-less : (n m : ℕ) (d : Decoder A) → m ≤ n → IsSound n d → IsSound m d
  unfolding IsSound
  IsSound-less n m d le s br = IsSoundAt-less n m _ _ (d br) le (omega arith) (s br)

module _ {ℓ κ} {A : Type ℓ} {B : Type κ} where
  pub IsSoundAt-pass :
      (n size : ℕ) (k : A → Decoder B) (r : Result A × List ℕ)
      → IsSoundAt n size r
      → ((a : A) → IsSound 0 (k a))
      → IsSoundAt n size (pass k r)
  unfolding IsSound
  IsSoundAt-pass n size k (ok a, rest) h s = counted (k a rest) (s a rest)
    where
      counted : (r : Result B × List ℕ) → IsSoundAt 0 (length rest) r → IsSoundAt n size r
      counted (ok b, left) g = omega arith
      counted (refused, left) g = omega arith
      counted (bailed, left) g = omega arith
      counted (crashed, left) g = g
  IsSoundAt-pass n size k (refused, rest) h s = h
  IsSoundAt-pass n size k (bailed, rest) h s = h
  IsSoundAt-pass n size k (crashed, rest) h s = h

  pub IsSound-bind :
      (n : ℕ) (d : Decoder A) (k : A → Decoder B)
      → IsSound n d
      → ((a : A) → IsSound 0 (k a))
      → IsSound n (d >>= k)
  unfolding IsSound
  IsSound-bind n d k s t br = IsSoundAt-pass n (length br) k (d br) (s br) t
