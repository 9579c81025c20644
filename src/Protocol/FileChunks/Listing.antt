-- ===== src/Protocol/FileChunks/Listing.antt =====
-- The loop of `encodeFileChunksInfoList`: which entries it encodes into one page.
use wdt.Common.{ℕ, suc, ◌+◌, ◌≤◌, ◌<◌, ◌≡◌, refl, sym, ◌∙◌, ◌⊎◌, inl, inr, List, [], ◌∷◌, ◌++◌}
use wdt.Common.{arith, length, take, drop, length-append, All, ltb, if◌then◌else◌, order_cases}
use wdt.Common.{lt→ltb, le→ltb, lt→leb, le→leb}
use mathlib.Core.Path.{subst}
use native.Mathlib.Nat.{add-zero}
use wdt.Wire.Types.{Status, Buffer}
use wdt.Wire.Memory.{length-copy}
use wdt.Wire.Encoder.{put, put-put, put-nil}
use wdt.Wire.Exchange.{IsRoom}
use wdt.Protocol.{FileChunksInfo}
use wdt.Protocol.FileChunks.{max_encode_len, encode_list}
use wdt.Protocol.FileChunks.RoundTrip.{IsInfo, info_bytes, info-Writes, length-info_bytes}

-- The entries that would fit a page of their own.
unfoldable pub fitting : ℕ → ℕ → List FileChunksInfo → List FileChunksInfo
fitting old buf_size [] = []
fitting old buf_size (info ∷ infos) =
    if ltb buf_size (max_encode_len info + old)
    then fitting old buf_size infos
    else info ∷ fitting old buf_size infos

unfoldable pub list_bytes : List FileChunksInfo → List ℕ
list_bytes [] = []
list_bytes (info ∷ infos) = info_bytes info ++ list_bytes infos

-- The loop stopped at the end of the list, or at an entry that the page had no room for.
abbrev pub Stopped : ℕ → List FileChunksInfo → ℕ → Type 0
Stopped buf_size left off =
    (left ≡ [])
    ⊎ ((info : FileChunksInfo) × (infos : List FileChunksInfo) × (left ≡ info ∷ infos)
        × (buf_size ≤ max_encode_len info + off))

-- What the loop leaves: `n` more entries, the first of those that fit.
pub record Encoded (old buf_size : ℕ) (infos : List FileChunksInfo) (b : Buffer) (k n : ℕ)
    : Type 0 where
  pub count : n ≤ length (fitting old buf_size infos)
  pub result :
      encode_list old buf_size infos b k
      ≡ (Status.done, put b (list_bytes (take n (fitting old buf_size infos))), k + n)
  pub room : b.off + length (list_bytes (take n (fitting old buf_size infos))) ≤ buf_size
  pub stopped :
      Stopped buf_size
        (drop n (fitting old buf_size infos))
        (b.off + length (list_bytes (take n (fitting old buf_size infos))))

module _ (old buf_size : ℕ) (info : FileChunksInfo) (infos : List FileChunksInfo) where
  module _ (big : buf_size < max_encode_len info + old) where
    fitting_big : fitting old buf_size (info ∷ infos) ≡ fitting old buf_size infos
    unfolding fitting
    fitting_big = rw (lt→ltb buf_size (max_encode_len info + old) big)

    encode_list_big :
        (b : Buffer) (k : ℕ)
        → encode_list old buf_size (info ∷ infos) b k ≡ encode_list old buf_size infos b k
    unfolding encode_list
    encode_list_big b k = rw (lt→ltb buf_size (max_encode_len info + old) big)

  module _ (small : max_encode_len info + old ≤ buf_size) where
    fitting_small : fitting old buf_size (info ∷ infos) ≡ info ∷ fitting old buf_size infos
    unfolding fitting
    fitting_small = rw (le→ltb buf_size (max_encode_len info + old) small)

    encode_list_full :
        (b : Buffer) (k : ℕ)
        → buf_size ≤ max_encode_len info + b.off
        → encode_list old buf_size (info ∷ infos) b k ≡ (Status.done, b, k)
    unfolding encode_list
    encode_list_full b k full = rw (
      le→ltb buf_size (max_encode_len info + old) small,
      le→leb buf_size (max_encode_len info + b.off) full,
    )

    encode_list_free :
        (b : Buffer) (k : ℕ)
        → IsInfo info
        → IsRoom buf_size b
        → max_encode_len info + b.off < buf_size
        → encode_list old buf_size (info ∷ infos) b k
          ≡ encode_list old buf_size infos (put b (info_bytes info)) (k + 1)
    unfolding encode_list
    encode_list_free b k v r free = rw (
      le→ltb buf_size (max_encode_len info + old) small,
      lt→leb buf_size (max_encode_len info + b.off) free,
      (info-Writes buf_size info v).fits b (omega (arith, length-info_bytes info v)) r.size,
    )

nothing_encoded :
    (old buf_size : ℕ) (infos : List FileChunksInfo) (b : Buffer) (k : ℕ)
    → b.off ≤ buf_size
    → encode_list old buf_size infos b k ≡ (Status.done, b, k)
    → Stopped buf_size (fitting old buf_size infos) (b.off + 0)
    → Encoded old buf_size infos b k 0
unfolding list_bytes
nothing_encoded old buf_size infos b k r e s = record {
  count = omega arith;
  result = e ∙ λ i. (Status.done, sym (put-nil b) i, sym (add-zero k) i);
  room = omega arith;
  stopped = s;
}

one_more :
    (old buf_size : ℕ) (info : FileChunksInfo) (infos : List FileChunksInfo) (b : Buffer) (k n : ℕ)
    → fitting old buf_size (info ∷ infos) ≡ info ∷ fitting old buf_size infos
    → encode_list old buf_size (info ∷ infos) b k
      ≡ encode_list old buf_size infos (put b (info_bytes info)) (k + 1)
    → Encoded old buf_size infos (put b (info_bytes info)) (k + 1) n
    → Encoded old buf_size (info ∷ infos) b k (suc n)
unfolding list_bytes
one_more old buf_size info infos b k n f e rest =
    let later = list_bytes (take n (fitting old buf_size infos)) in
    record {
      count = rw f (omega (arith, rest.count));
      result =
          e
          ∙ rest.result
          ∙ rw f (λ i. (Status.done, put-put b (info_bytes info) later i, add_suc k n i));
      room = rw f (omega (arith, rest.room, length-append (info_bytes info) later));
      stopped = rw f (
          subst (Stopped buf_size (drop n (fitting old buf_size infos))) (together later)
            rest.stopped);
    }
  where
    add_suc : (k n : ℕ) → k + 1 + n ≡ k + suc n
    add_suc k n = omega arith

    together :
        (later : List ℕ)
        → b.off + length (info_bytes info) + length later
          ≡ b.off + length (info_bytes info ++ later)
    together later = omega (arith, length-append (info_bytes info) later)

pub encode_list-Encoded :
    (old buf_size : ℕ) (infos : List FileChunksInfo) (b : Buffer) (k : ℕ)
    → All IsInfo infos
    → IsRoom buf_size b
    → (n : ℕ) × Encoded old buf_size infos b k n
encode_list-Encoded old buf_size [] b k v r = (
  0,
  nothing_encoded old buf_size [] b k r.start (unfold encode_list in refl)
      (unfold fitting in inl refl),
)
encode_list-Encoded old buf_size (info ∷ infos) b k v r =
    elim (order_cases (max_encode_len info + old) buf_size) [
      | inr big ↦
          let (n, rest) = encode_list-Encoded old buf_size infos b k v.1 r in
          let f = fitting_big old buf_size info infos big in
          (
            n,
            record {
              count = rw f rest.count;
              result = rw (encode_list_big old buf_size info infos big b k, f) rest.result;
              room = rw f rest.room;
              stopped = rw f rest.stopped;
            },
          )
      | inl small ↦ elim (order_cases buf_size (max_encode_len info + b.off)) [
        | inl full ↦ (
          0,
          nothing_encoded old buf_size (info ∷ infos) b k r.start
              (encode_list_full old buf_size info infos small b k full)
              (rw (fitting_small old buf_size info infos small)
                (inr (info, fitting old buf_size infos, refl, omega arith))),
        )
        | inr free ↦
            let b' : Buffer = put b (info_bytes info) in
            let (n, rest) = encode_list-Encoded old buf_size infos b' (k + 1) v.1 (record {
              start = omega (arith, length-info_bytes info v.0);
              size = omega (arith, length-copy b.dest b.off (info_bytes info), r.size);
            }) in
            (
              suc n,
              one_more old buf_size info infos b k n (fitting_small old buf_size info infos small)
                  (encode_list_free old buf_size info infos small b k v.0 r free) rest,
            )
      ]
    ]
