-- ===== src/Protocol/FileChunks/Progress.antt =====
-- The loop of `ReceiverThread::sendFileChunks` around `encodeFileChunksInfoList`: it ends when every
-- entry fits a page, and does not end when the last entry does not.
use wdt.Common.{ℕ, zero, suc, ◌+◌, ◌-◌, ◌≤◌, ◌<◌, ◌≡◌, refl, ap, ◌∙◌, inl, inr, List, [], ◌∷◌, ◌++◌}
use wdt.Common.{arith, length, length-append, take, drop, length-drop, All}
use wdt.Common.{lt→ltb, le→ltb, ==_iff, order_cases}
use wdt.Common.Int.{pos}
use native.Mathlib.Nat.{zero-add}
use wdt.Wire.Types.{Buffer}
use wdt.Wire.Memory.{copy, length-copy}
use wdt.Wire.Encoder.{put}
use wdt.Serial.{FixedInt}
use wdt.Protocol.{FileChunksInfo}
use wdt.Protocol.FileChunks.{max_encode_len, finished, still_sending, send_pages}
use wdt.Protocol.FileChunks.{encode_file_chunks_info_list}
use wdt.Protocol.FileChunks.RoundTrip.{IsInfo}
use wdt.Protocol.FileChunks.Listing.{fitting, list_bytes, Stopped, Encoded, encode_list-Encoded}
use wdt.Protocol.FileChunks.Pages.{All-drop}

-- Every entry but the last may be encoded.
length-fitting_last :
    (old buf_size : ℕ) (front : List FileChunksInfo) (big : FileChunksInfo)
    → buf_size < max_encode_len big + old
    → length (fitting old buf_size (front ++ big ∷ [])) ≤ length front
unfolding fitting
length-fitting_last old buf_size [] big h =
    rw (lt→ltb buf_size (max_encode_len big + old) h) (omega arith)
length-fitting_last old buf_size (info ∷ front) big h =
    ground (arith, length-fitting_last old buf_size front big h)

drop-append_le :
    (n : ℕ) (front back : List FileChunksInfo)
    → n ≤ length front
    → drop n (front ++ back) ≡ drop n front ++ back
drop-append_le zero front back h = refl
drop-append_le (suc n) [] back h = absurd (omega arith)
drop-append_le (suc n) (info ∷ front) back h = drop-append_le n front back (omega arith)

-- Where every entry fits a page strictly, none is left out.
abbrev pub FitsPage : ℕ → FileChunksInfo → Type 0
FitsPage buf_size info = max_encode_len info + 4 < buf_size

fitting_every :
    (buf_size : ℕ) (infos : List FileChunksInfo)
    → All (FitsPage buf_size) infos
    → fitting 4 buf_size infos ≡ infos
unfolding fitting
fitting_every buf_size [] h = refl
fitting_every buf_size (info ∷ infos) h = ground (arith, fitting_every buf_size infos h.1)

module _ (f : FixedInt) (buf_size : ℕ) (infos : List FileChunksInfo)
    (valid : All IsInfo infos) where
  -- A socket that takes whatever it is given.
  abbrev whole : ℕ → ℕ → ℕ
  whole round n = n

  -- One round of the loop with such a socket.
  record Round (fuel : ℕ) (mem : List ℕ) (num n : ℕ) : Type 0 where
    mem' : List ℕ
    size : length mem' ≡ length mem
    page : Encoded 4 buf_size (drop num infos) (record { dest = mem; off = 4 }) 0 n
    step :
        send_pages f whole buf_size infos (suc fuel) mem num
        ≡ send_pages f whole buf_size infos fuel mem' (num + n)

  round :
      (fuel : ℕ) (mem : List ℕ) (num : ℕ)
      → 4 ≤ buf_size
      → buf_size ≤ length mem
      → num < length infos
      → (n : ℕ) × Round fuel mem num n
  unfolding send_pages encode_file_chunks_info_list
  round fuel mem num lo hi lt =
      let b : Buffer = record { dest = mem; off = 4 } in
      let (n, page) =
        encode_list-Encoded 4 buf_size (drop num infos) b 0 (All-drop num infos valid)
          (record { start = lo; size = hi }) in
      let bs : List ℕ = list_bytes (take n (fitting 4 buf_size (drop num infos))) in
      (
        n,
        record {
          mem' = copy (put b bs).dest 0 (f.store 4 (pos ((put b bs).off - 4)));
          size =
              length-copy (put b bs).dest 0 (f.store 4 (pos ((put b bs).off - 4)))
              ∙ length-copy mem 4 bs;
          page = page;
          step =
              rw
                (
                  page.result,
                  lt→ltb num (length infos) lt,
                  zero-add n,
                  (==_iff (put b bs).off (put b bs).off).1 refl,
                )
                refl;
        },
      )

  -- Once nothing is left the loop ends.
  send_pages_done :
      (fuel : ℕ) (mem : List ℕ) (num : ℕ)
      → length infos ≤ num
      → send_pages f whole buf_size infos (suc fuel) mem num ≡ finished num
  unfolding send_pages
  send_pages_done fuel mem num h = rw (le→ltb num (length infos) h)

  first_fits :
      (left : List FileChunksInfo) (n off : ℕ)
      → All (FitsPage buf_size) left
      → 1 ≤ length left
      → Stopped buf_size (drop n left) off
      → (n ≡ 0 → off ≡ 4)
      → 1 ≤ n
  first_fits left (suc n) off h some s o = omega arith
  first_fits [] zero off h some s o = absurd (omega arith)
  first_fits (info ∷ left) zero off h some (inl e) o = absurd (cc)
  first_fits (info ∷ left) zero off h some (inr (big, rest, e, full)) o =
      let same : info ≡ big = first_of info big left rest e in
      absurd (omega (arith, ap max_encode_len same, o refl, h.0))
    where
      or_else : FileChunksInfo → List FileChunksInfo → FileChunksInfo
      or_else d [] = d
      or_else d (x ∷ xs) = x

      first_of : (x y : FileChunksInfo) (xs ys : List FileChunksInfo) → x ∷ xs ≡ y ∷ ys → x ≡ y
      first_of x y xs ys e = ap (or_else x) e

  All-drop_fits :
      (n : ℕ) (left : List FileChunksInfo)
      → All (FitsPage buf_size) left
      → All (FitsPage buf_size) (drop n left)
  All-drop_fits zero left v = v
  All-drop_fits (suc n) [] v = tt
  All-drop_fits (suc n) (info ∷ left) v = All-drop_fits n left v.1

  some_encoded :
      (mem : List ℕ) (num n : ℕ)
      → All (FitsPage buf_size) infos
      → num < length infos
      → Encoded 4 buf_size (drop num infos) (record { dest = mem; off = 4 }) 0 n
      → (1 ≤ n) × (num + n ≤ length infos)
  unfolding list_bytes
  some_encoded mem num n fit lt page =
      let left = All-drop_fits num infos fit in
      let every = fitting_every buf_size (drop num infos) left in
      let count : n ≤ length (drop num infos) = rw every at page.count in
      (
        first_fits (drop num infos) n (4 + length (list_bytes (take n (drop num infos)))) left
            (omega (arith, length-drop num infos)) (rw every at page.stopped) (λ z. rw z refl),
        omega (arith, count, length-drop num infos),
      )

  -- Where every entry fits a page with room to spare, and the socket takes every page, the loop of
  -- `sendFileChunks` ends, after one round for each entry at most, and has then written the whole
  -- list: the fuel that counts the entries left and one more round is enough.
  pub send_pages_ends :
      (fuel : ℕ) (mem : List ℕ) (num : ℕ)
      → All (FitsPage buf_size) infos
      → 4 ≤ buf_size
      → buf_size ≤ length mem
      → num ≤ length infos
      → length infos < fuel + num
      → send_pages f whole buf_size infos fuel mem num ≡ finished (length infos)
  send_pages_ends zero mem num fit lo hi le enough = absurd (omega arith)
  send_pages_ends (suc fuel) mem num fit lo hi le enough = elim (order_cases (length infos) num) [
    | inl all ↦
        let same : num ≡ length infos = omega arith in
        send_pages_done fuel mem num all ∙ ap finished same
    | inr lt ↦
        let (n, r) = round fuel mem num lo hi lt in
        let (some, count) = some_encoded mem num n fit lt r.page in
        r.step
        ∙ send_pages_ends fuel r.mem' (num + n) fit lo (omega (arith, r.size)) count
            (omega (arith, some))
  ]

module _ (f : FixedInt) (buf_size : ℕ) (front : List FileChunksInfo) (big : FileChunksInfo)
    (valid : All IsInfo (front ++ big ∷ [])) where
  -- Where the last entry does not fit a page, and the socket takes every page, the loop of
  -- `sendFileChunks` never ends: whatever the fuel, rounds are left, since the entry is skipped and
  -- not counted.
  pub send_pages_never_ends :
      (fuel : ℕ) (mem : List ℕ) (num : ℕ)
      → buf_size < max_encode_len big + 4
      → 4 ≤ buf_size
      → buf_size ≤ length mem
      → num ≤ length front
      → send_pages f (λ round n. n) buf_size (front ++ big ∷ []) fuel mem num ≡ still_sending
  send_pages_never_ends zero mem num over lo hi le = unfold send_pages in refl
  send_pages_never_ends (suc fuel) mem num over lo hi le =
      let (n, r) =
        round f buf_size (front ++ big ∷ []) valid fuel mem num lo hi
          (omega (arith, length-append front (big ∷ []))) in
      let left : n ≤ length (fitting 4 buf_size (drop num front ++ big ∷ [])) =
        rw (drop-append_le num front (big ∷ []) le) at r.page.count in
      r.step
      ∙ send_pages_never_ends fuel r.mem' (num + n) over lo (omega (arith, r.size)) (
          omega (
            arith,
            left,
            length-fitting_last 4 buf_size (drop num front) big over,
            length-drop num front,
          ))
