-- ===== src/TransferLog/Entries/Changes.antt =====
-- The entries that change a file or a directory, and the state of LogParser.
use wdt.Common.{◌≡◌, refl, inl, inr, arith, ◌&&◌}
use wdt.Common.{Bool, true, false, Option, none, some, All-append, if◌then◌else◌, Bool-cases}
use wdt.Common.Int.{ℤ, pos, negsuc, ◌+ℤ◌, ltb_ℤ, eqb_ℤ, +ℤ_parts}
use wdt.Common.SortedMap.{
  erase-IsDistinct, find, is_some, assign, erase, find-assign, find-erase, All-assign, All-erase,
  All-find,
}
use wdt.Varint.Encode.{IsCount}
use wdt.Protocol.{FileChunksInfo}
use wdt.Protocol.Chunks.{add_chunk}
use wdt.TransferLog.{Parser, ParserConfig, Disk}
use wdt.TransferLog.Entries.{
  is_known, resized, on_resize, written, on_block, forget, on_invalidation,
  on_directory_invalidation,
}
use wdt.TransferLog.Entries.WellFormed.{
  IsWithin, IsOnDisk, IsWellFormed, IsSafe, good, invalid, inconsistent, IsSafe-if, IsSafe-invalid,
  options-IsSafe,
}

module _ (d : Disk) (c : ParserConfig) (p : Parser) (w : IsWellFormed d c p) where
  kept :
      (size : ℤ) (b : Bool) (o : Option ℤ)
      → is_some o ≡ true
      → is_some (if b then (if is_some o then some size else none) else o) ≡ true
  kept size b none h = absurd (cc)
  kept size true (some v) h = refl
  kept size false (some v) h = refl

  resized_map :
      (k size : ℤ) → IsWellFormed d c (record p { seq_id_to_size = assign k size p.seq_id_to_size })
  resized_map k size = record {
    sizes = λ j e.
        rw (find-assign k j size p.seq_id_to_size)
          (kept size (eqb_ℤ k j) (find j p.seq_id_to_size) (w.sizes j e));
    apart = w.apart;
    files = w.files;
    counts = w.counts;
    distinct = w.distinct;
    fixable = w.fixable;
  }

  resized-IsSafe :
      (k size : ℤ) (a : Option FileChunksInfo) (b : Option ℤ)
      → find k p.file_info ≡ a
      → find k p.seq_id_to_size ≡ b
      → IsSafe d c (resized c k size p a b)
  resized-IsSafe k size none b e g = IsSafe-invalid d c p
  resized-IsSafe k size (some info) none e g =
      let there : is_some (find k p.seq_id_to_size) ≡ true = w.sizes k (rw e refl) in
      absurd (cc (rw g at there))
  resized-IsSafe k size (some info) (some old) e g =
      IsSafe-if d c (ltb_ℤ size old) _ _ (λ less. IsSafe-invalid d c p)
        (λ more.
          IsSafe-if d c (c.should_preallocate_files && ltb_ℤ info.file_size size) _ _
            (λ large. IsSafe-invalid d c p) (λ fits. good refl (resized_map k size)))

  pub on_resize-IsSafe : (now k size : ℤ) → IsSafe d c (on_resize c p (now, k, size))
  on_resize-IsSafe now k size =
      options-IsSafe d c p w _
        (λ o t. resized-IsSafe k size (find k p.file_info) (find k p.seq_id_to_size) refl refl)

  block_map :
      (k start stop : ℤ) (info : FileChunksInfo)
      → find k p.file_info ≡ some info
      → IsWithin info.file_size (record { start = start; stop = stop })
      → IsWellFormed d c (record p {
        file_info = assign k (add_chunk info (record { start = start; stop = stop })) p.file_info;
      })
  block_map k start stop info e h =
      let (j, on) =
        All-find (λ (x : ℤ × FileChunksInfo). IsOnDisk d c x.1) k info p.file_info e w.files in
      let info' : FileChunksInfo = add_chunk info (record { start = start; stop = stop }) in
      let on' : IsOnDisk d c info' =
        unfold add_chunk in
        record {
          sized = on.sized;
          within = All-append (IsWithin info.file_size) info.chunks _ on.within (h, tt);
        } in
      record {
        sizes = λ j e. w.sizes j (found k j info' e);
        apart = λ j e. w.apart j (found k j info' e);
        files = All-assign _ k info' p.file_info (λ j old h. on') w.files;
        counts = w.counts;
        distinct = w.distinct;
        fixable = w.fixable;
      }
    where
      kept :
          (info : FileChunksInfo) (b : Bool) (o : Option FileChunksInfo)
          → is_some (if b then (if is_some o then some info else none) else o) ≡ true
          → is_some o ≡ true
      kept info true none h = h
      kept info false none h = h
      kept info b (some v) h = refl

      found :
          (k j : ℤ) (v : FileChunksInfo)
          → is_some (find j (assign k v p.file_info)) ≡ true
          → is_some (find j p.file_info) ≡ true
      found k j v e =
          kept v (eqb_ℤ k j) (find j p.file_info) (rw (find-assign k j v p.file_info) at e)

  written-IsSafe :
      (k start size : ℤ) (o : Option FileChunksInfo)
      → IsCount start
      → IsCount size
      → find k p.file_info ≡ o
      → IsSafe d c (some (written k start size p o))
  written-IsSafe k start size none hs hz e = invalid refl
  written-IsSafe k start size (some info) hs hz e =
      elim (Bool-cases (ltb_ℤ info.file_size (start +ℤ size))) [
        | inl outside ↦ rw outside (invalid refl)
        | inr inside ↦
            rw inside (
              good refl (block_map k start (start +ℤ size) info e (within start size hs hz inside)))
      ]
    where
      within :
          (start size : ℤ)
          → IsCount start
          → IsCount size
          → ltb_ℤ info.file_size (start +ℤ size) ≡ false
          → IsWithin info.file_size (record { start = start; stop = start +ℤ size })
      within (pos a) (pos b) hs hz e =
          (omega arith, omega (arith, +ℤ_parts (pos a) (pos b)), ground arith)
      within (pos a) (negsuc b) hs hz e = absurd hz
      within (negsuc a) b hs hz e = absurd hs

  pub on_block-IsSafe :
      (now k start size : ℤ)
      → IsCount start
      → IsCount size
      → IsSafe d c (on_block c p (now, k, start, size))
  on_block-IsSafe now k start size hs hz = options-IsSafe d c p w _ (λ o t.
      IsSafe-if d c (is_some (find k p.invalid_seq_ids)) _ _ (λ bad. good refl w)
        (λ known. written-IsSafe k start size (find k p.file_info) hs hz refl))

  forget-IsWellFormed : (k : ℤ) → IsWellFormed d c (forget k p)
  forget-IsWellFormed k = record {
    sizes = λ j e. w.sizes j (left j e);
    apart =
        λ j e. rw (find-erase k j p.invalid_seq_ids) (gone (eqb_ℤ k j) _ (w.apart j (left j e)));
    files = All-erase _ k p.file_info w.files;
    counts = All-erase _ k p.invalid_seq_ids w.counts;
    distinct = erase-IsDistinct k p.invalid_seq_ids w.distinct;
    fixable = elim w.fixable [ inl e ↦ inl (rw e (unfold erase in refl)) | inr h ↦ inr h ];
  }
    where
      still :
          {A : Type 0} (b : Bool) (o : Option A)
          → is_some (if b then none else o) ≡ true
          → is_some o ≡ true
      still true o h = absurd (cc)
      still false o h = h

      gone :
          {A : Type 0} (b : Bool) (o : Option A)
          → is_some o ≡ false
          → is_some (if b then none else o) ≡ false
      gone true o h = refl
      gone false o h = h

      left :
          (j : ℤ)
          → is_some (find j (erase k p.file_info)) ≡ true
          → is_some (find j p.file_info) ≡ true
      left j e = still (eqb_ℤ k j) _ (rw (find-erase k j p.file_info) at e)

  pub on_invalidation-IsSafe : (now k : ℤ) → IsSafe d c (on_invalidation c p (now, k))
  on_invalidation-IsSafe now k = options-IsSafe d c p w _ (λ o t.
      IsSafe-if d c (is_known k p) _ _ (λ known. good refl (forget-IsWellFormed k))
        (λ unknown. IsSafe-invalid d c p))

  pub on_directory_invalidation-IsSafe : (now : ℤ) → IsSafe d c (on_directory_invalidation c p now)
  on_directory_invalidation-IsSafe now =
      IsSafe-if d c c.parse_only _ _ (λ o. good refl w) (λ o. inconsistent refl)
