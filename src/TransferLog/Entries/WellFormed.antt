-- ===== src/TransferLog/Entries/WellFormed.antt =====
-- The state of LogParser: what every entry keeps, whatever its bytes.
use wdt.Common.{ℕ, ◌≡◌, refl, ◌⊎◌, inl, inr, not, ◌||◌}
use wdt.Common.{
  Bool, true, false, Option, none, some, List, [], ◌++◌, All, if◌then◌else◌, Bool-cases,
}
use wdt.Common.Named.{bytes_eq}
use wdt.Common.Int.{ℤ, pos, ◌≤ℤ◌, leb_ℤ, eqb_ℤ}
use wdt.Common.SortedMap.{
  eqb_ℤ→eq, IsDistinct, emplace-IsDistinct, find, is_some, emplace, find-emplace_new,
  find-emplace_self, find-emplace_old, All-emplace,
}
use wdt.ErrorCodes.{ErrorCode, ok_code, invalid_log, inconsistent_directory}
use wdt.Wire.Types.{Result, ok, refused, bailed, crashed}
use wdt.Wire.Yields.{YieldsAt}
use wdt.Varint.Encode.{IsCount}
use wdt.Protocol.{FileChunksInfo, Interval}
use wdt.TransferLog.{Parser, ParserConfig, Disk, wlog_version}
use wdt.TransferLog.Codec.{LogHeader}
use wdt.TransferLog.Entries.{decoded, is_empty, header_checks, created, is_known, on_creation}

-- Within a file of that size.
abbrev pub IsWithin : ℤ → Interval → Type 0
IsWithin size k = (pos 0 ≤ℤ k.start) × (k.start ≤ℤ k.stop) × (k.stop ≤ℤ size)

-- The size is that of the file on the disk, and the chunks lie within it.
pub record IsOnDisk (d : Disk) (c : ParserConfig) (info : FileChunksInfo) : Type 0 where
  pub sized : d.stat (c.root_dir ++ info.file_name) ≡ some info.file_size
  pub within : All (IsWithin info.file_size) info.chunks

pub record IsWellFormed (d : Disk) (c : ParserConfig) (p : Parser) : Type 0 where
  pub sizes :
      (k : ℤ) → is_some (find k p.file_info) ≡ true → is_some (find k p.seq_id_to_size) ≡ true
  pub apart :
      (k : ℤ) → is_some (find k p.file_info) ≡ true → is_some (find k p.invalid_seq_ids) ≡ false
  pub files : All (λ (x : ℤ × FileChunksInfo). IsOnDisk d c x.1) p.file_info
  pub counts : All (λ (x : ℤ × Unit {0}). IsCount x.0) p.invalid_seq_ids
  pub distinct : IsDistinct p.invalid_seq_ids
  pub fixable :
      (p.invalid_seq_ids ≡ [])
      ⊎ ((p.header_parsed ≡ true) × (c.parse_only ≡ false) × (c.resume_using_dir_tree ≡ false))

-- How a handler may end.
pub data IsSafe (d : Disk) (c : ParserConfig) (r : Option (ErrorCode × Parser)) : Type 0 where
  good : {p : Parser} → r ≡ some (ok_code, p) → IsWellFormed d c p → IsSafe d c r
  invalid : {p : Parser} → r ≡ some (invalid_log, p) → IsSafe d c r
  inconsistent : {p : Parser} → r ≡ some (inconsistent_directory, p) → IsSafe d c r

module _ (d : Disk) (c : ParserConfig) where
  pub IsSafe-if :
      (b : Bool) (x y : Option (ErrorCode × Parser))
      → (b ≡ true → IsSafe d c x)
      → (b ≡ false → IsSafe d c y)
      → IsSafe d c (if b then x else y)
  IsSafe-if true x y h k = h refl
  IsSafe-if false x y h k = k refl

  pub IsSafe-invalid : (p : Parser) → IsSafe d c (some (invalid_log, p))
  IsSafe-invalid p = invalid refl

  pub IsSafe-decoded {ℓ} :
      {A : Type ℓ} (P : A → Type 0) (p : Parser) (r : Result A)
      (k : A → Option (ErrorCode × Parser))
      → YieldsAt P r
      → ((a : A) → P a → IsSafe d c (k a))
      → IsSafe d c (decoded p r k)
  IsSafe-decoded P p (ok a) k y s = s a y
  IsSafe-decoded P p refused k y s = IsSafe-invalid p
  IsSafe-decoded P p bailed k y s = IsSafe-invalid p
  IsSafe-decoded P p crashed k y s = absurd y

  module _ (p : Parser) (w : IsWellFormed d c p) where
    -- The tests of the options, which the handlers share.
    pub options-IsSafe :
        (r : Option (ErrorCode × Parser))
        → (c.parse_only ≡ false → c.resume_using_dir_tree ≡ false → IsSafe d c r)
        → IsSafe d c (
            if c.parse_only
            then some (ok_code, p)
            else if c.resume_using_dir_tree
            then some (invalid_log, p)
            else r)
    options-IsSafe r h =
        IsSafe-if c.parse_only _ _ (λ o. good refl w)
          (λ o. IsSafe-if c.resume_using_dir_tree _ _ (λ t. IsSafe-invalid p) (λ t. h o t))

    header_parsed-IsWellFormed : IsWellFormed d c (record p { header_parsed = true })
    header_parsed-IsWellFormed = record {
      sizes = w.sizes;
      apart = w.apart;
      files = w.files;
      counts = w.counts;
      distinct = w.distinct;
      fixable = elim w.fixable [ inl e ↦ inl e | inr (h, o, t) ↦ inr (refl, o, t) ];
    }

    pub header_checks-IsSafe : (h : LogHeader) → IsSafe d c (some (header_checks c h p))
    header_checks-IsSafe h =
        by_tests (not (eqb_ℤ h.version (pos wlog_version))) (is_empty h.sender_ip) c.parse_only
          (not (bytes_eq c.recovery_id h.recovery_id)) (not (eqb_ℤ c.config h.config))
      where
        by_tests :
            (version empty only id config : Bool)
            → IsSafe d c (
                some (
                  if version
                  then (invalid_log, p)
                  else if empty
                  then (invalid_log, p)
                  else if only
                  then (ok_code, record p { header_parsed = true })
                  else if id
                  then (inconsistent_directory, p)
                  else if config
                  then (inconsistent_directory, p)
                  else (ok_code, record p { header_parsed = true })))
        by_tests true empty only id config = invalid refl
        by_tests false true only id config = invalid refl
        by_tests false false true id config = good refl header_parsed-IsWellFormed
        by_tests false false false true config = inconsistent refl
        by_tests false false false false true = inconsistent refl
        by_tests false false false false false = good refl header_parsed-IsWellFormed

    not_known :
        (k : ℤ)
        → is_known k p ≡ false
        → (find k p.file_info ≡ none) × (find k p.invalid_seq_ids ≡ none)
    not_known k h = by_cases (find k p.file_info) (find k p.invalid_seq_ids) h
      where
        by_cases :
            (a : Option FileChunksInfo) (b : Option (Unit {0}))
            → is_some a || is_some b ≡ false
            → (a ≡ none) × (b ≡ none)
        by_cases none none h = (refl, refl)
        by_cases none (some b) h = cc
        by_cases (some a) b h = cc

    -- A key that is there is not one that is not.
    other_key :
        (j k : ℤ)
        → is_some (find j p.file_info) ≡ true
        → find k p.file_info ≡ none
        → eqb_ℤ k j ≡ false
    other_key j k e new = elim (Bool-cases (eqb_ℤ k j)) [
      | inl same ↦ absurd (cc (eqb_ℤ→eq k j same))
      | inr other ↦ other
    ]

    failed-IsWellFormed :
        (k : ℤ)
        → IsCount k
        → find k p.file_info ≡ none
        → find k p.invalid_seq_ids ≡ none
        → p.header_parsed ≡ true
        → c.parse_only ≡ false
        → c.resume_using_dir_tree ≡ false
        → IsWellFormed d c (record p { invalid_seq_ids = emplace k tt p.invalid_seq_ids })
    failed-IsWellFormed k count new new' h o t = record {
      sizes = w.sizes;
      apart = λ j e.
          rw (find-emplace_new k j tt p.invalid_seq_ids new', other_key j k e new) (w.apart j e);
      files = w.files;
      counts = All-emplace _ k tt p.invalid_seq_ids count w.counts;
      distinct = emplace-IsDistinct k tt p.invalid_seq_ids new' w.distinct;
      fixable = inr (h, o, t);
    }

    verified-IsWellFormed :
        (k size : ℤ) (info : FileChunksInfo)
        → IsOnDisk d c info
        → find k p.file_info ≡ none
        → find k p.invalid_seq_ids ≡ none
        → IsWellFormed d c (record p {
          file_info = emplace k info p.file_info;
          seq_id_to_size = emplace k size p.seq_id_to_size;
        })
    verified-IsWellFormed k size info on new new' = record {
      sizes = λ j e. elim (Bool-cases (eqb_ℤ k j)) [
        | inl same ↦ rw (← eqb_ℤ→eq k j same) (find-emplace_self k size p.seq_id_to_size)
        | inr other ↦
            rw (find-emplace_old k j size p.seq_id_to_size other)
              (w.sizes j (rw (find-emplace_new k j info p.file_info new, other) at e))
      ];
      apart = λ j e. elim (Bool-cases (eqb_ℤ k j)) [
        | inl same ↦ rw (← eqb_ℤ→eq k j same, new') refl
        | inr other ↦ w.apart j (rw (find-emplace_new k j info p.file_info new, other) at e)
      ];
      files = All-emplace _ k info p.file_info on w.files;
      counts = w.counts;
      distinct = w.distinct;
      fixable = w.fixable;
    }

    pub on_creation-IsSafe :
        (now : ℤ) (file_name : List ℕ) (k size : ℤ)
        → IsCount k
        → p.header_parsed ≡ true
        → IsSafe d c (on_creation d c p (now, file_name, k, size))
    on_creation-IsSafe now file_name k size count h = options-IsSafe _ (λ o t.
        IsSafe-if (is_known k p) _ _ (λ known. IsSafe-invalid p)
          (λ unknown.
            good refl (by_stat o t (not_known k unknown) (d.stat (c.root_dir ++ file_name)) refl)))
      where
        by_stat :
            c.parse_only ≡ false
            → c.resume_using_dir_tree ≡ false
            → (find k p.file_info ≡ none) × (find k p.invalid_seq_ids ≡ none)
            → (st : Option ℤ) → d.stat (c.root_dir ++ file_name) ≡ st
            → IsWellFormed d c (created c k file_name size p st)
        by_stat o t (new, new') none e = failed-IsWellFormed k count new new' h o t
        by_stat o t (new, new') (some st_size) e =
            elim (Bool-cases (if c.should_preallocate_files then leb_ℤ size st_size else true)) [
              | inl large ↦
                  rw large
                    (verified-IsWellFormed k size _ (record { sized = e; within = tt }) new new')
              | inr small ↦ rw small (failed-IsWellFormed k count new new' h o t)
            ]
