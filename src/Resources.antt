-- ===== src/Resources.antt =====
-- WdtResourceController.h and .cpp: how many senders and receivers there are, by namespace and in all.
-- A sender or receiver is a number that stands for the object. The functions for senders and those
-- for receivers are the same code on other fields, and are one definition here, by the kind. Each call
-- is what it does where no other call comes between its critical sections.
pub mod Root
pub mod Balance
use wdt.Common.{
  ℕ, Bool, true, false, not, ◌&&◌, Option, none, some, List, [], ◌∷◌, length, map, if◌then◌else◌,
}
use wdt.Common.Int.{ℤ, pos, ◌+ℤ◌, ◌-ℤ◌, ltb_ℤ, leb_ℤ}
use wdt.Common.Named.{Named, lookup, put, remove}
use wdt.ErrorCodes.{ErrorCode, ok_code, already_exists, quota_exceeded, not_found}

pub data Kind : Type 0 where
  of_senders of_receivers : Kind

-- A field for the senders and one for the receivers.
pub record Sides {ℓ} (A : Type ℓ) : Type ℓ where
  pub senders : A
  pub receivers : A

abbrev pub side {ℓ} : {A : Type ℓ} → Kind → Sides A → A
side of_senders s = s.senders
side of_receivers s = s.receivers

abbrev pub set_side {ℓ} : {A : Type ℓ} → Kind → A → Sides A → Sides A
set_side of_senders a s = record s { senders = a }
set_side of_receivers a s = record s { receivers = a }

-- The map, the number and the limit of a namespace, for one kind.
pub record Pool : Type 0 where
  pub members : Named ℕ
  pub count : ℤ
  pub limit : ℤ

abbrev pub Namespace : Type 0
Namespace = Sides Pool

abbrev pub new_pool : ℤ → Pool
new_pool limit = record { members = []; count = pos 0; limit = limit }

-- `numSenders_ >= maxNumSenders_ && maxNumSenders_ > 0` has no quota.
abbrev pub is_below : ℤ → ℤ → Bool
is_below count limit = not (leb_ℤ limit count && ltb_ℤ (pos 0) limit)

abbrev pub has_quota : Pool → Bool
has_quota q = is_below q.count q.limit

-- The member that is found is handed back, so that it may be aborted.
abbrev pub create_or : List ℕ → ℕ → Pool → Option ℕ → ErrorCode × Option ℕ × Pool
create_or identifier member q (some old) = (already_exists, some old, q)
create_or identifier member q none = if not (has_quota q) then (quota_exceeded, none, q) else (
  ok_code,
  some member,
  record q { members = put identifier member q.members; count = q.count +ℤ pos 1 },
)

-- `createSender` and `createReceiver` of a namespace.
pub create_member : List ℕ → ℕ → Pool → ErrorCode × Option ℕ × Pool
create_member identifier member q = create_or identifier member q (lookup identifier q.members)

abbrev pub release_or : List ℕ → Pool → Option ℕ → ErrorCode × Pool
release_or identifier q none = (not_found, q)
release_or identifier q (some old) =
    (ok_code, record q { members = remove identifier q.members; count = q.count -ℤ pos 1 })

-- `releaseSender` and `releaseReceiver` of a namespace.
pub release_member : List ℕ → Pool → ErrorCode × Pool
release_member identifier q = release_or identifier q (lookup identifier q.members)

-- `releaseAllSenders` and `releaseAllReceivers`, with their number.
pub release_all_members : Pool → ℕ × Pool
release_all_members q = (length q.members, record q { members = []; count = pos 0 })

abbrev pub swept : Bool → List ℕ × ℕ → List (List ℕ) × Named ℕ → List (List ℕ) × Named ℕ
swept true (identifier, member) (erased, kept) = (identifier ∷ erased, kept)
swept false (identifier, member) (erased, kept) = (erased, (identifier, member) ∷ kept)

-- The names of the stale members, and the others.
pub sweep : (ℕ → Bool) → Named ℕ → List (List ℕ) × Named ℕ
sweep is_stale [] = ([], [])
sweep is_stale ((identifier, member) ∷ l) =
    swept (is_stale member) (identifier, member) (sweep is_stale l)

-- `releaseStaleSenders` and `releaseStaleReceivers`.
pub release_stale_members : (ℕ → Bool) → Pool → List (List ℕ) × Pool
release_stale_members is_stale q =
    let (erased, kept) = sweep is_stale q.members in
    (erased, record q { members = kept; count = q.count -ℤ pos (length erased) })

-- `getSender` and `getReceiver`, `getSenders` and `getReceivers`, `getSendersIds`.
abbrev pub get_member : List ℕ → Pool → Option ℕ
get_member identifier q = lookup identifier q.members

abbrev pub get_members : Pool → List ℕ
get_members q = map (λ (x : List ℕ × ℕ). x.1) q.members

abbrev pub get_member_ids : Pool → List (List ℕ)
get_member_ids q = map (λ (x : List ℕ × ℕ). x.0) q.members
