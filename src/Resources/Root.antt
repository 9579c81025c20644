-- ===== src/Resources/Root.antt =====
-- WdtResourceController itself. The rates of its throttler are set ahead of every creation, and are
-- left out.
pub mod Preserved
pub mod Reached
pub mod Quota
use wdt.Common.{
  ℕ, Bool, true, false, not, ◌&&◌, ◌||◌, Option, none, some, List, [], ◌∷◌, length, if◌then◌else◌,
}
use wdt.Common.Int.{ℤ, pos, ◌+ℤ◌, ◌-ℤ◌, eqb_ℤ}
use wdt.Common.Named.{Named, lookup, put, remove}
use wdt.ErrorCodes.{ErrorCode, ok_code, error, not_found, quota_exceeded}
use wdt.Resources.{
  Kind, of_senders, of_receivers, Sides, side, set_side, Pool, Namespace, new_pool, is_below,
  has_quota, create_member, release_member, release_all_members, release_stale_members, get_member,
  get_members, get_member_ids,
}

-- A number, with its limit.
pub record Tally : Type 0 where
  pub count : ℤ
  pub limit : ℤ

pub record ResourceController : Type 0 where
  pub namespaces : Named Namespace
  pub tallies : Sides Tally
  pub strict_registration : Bool
  -- `namespace_sender_limit` and `namespace_receiver_limit` of the options.
  pub namespace_limits : Sides ℤ

-- The constructor: the global limits and those of a namespace come from the options.
abbrev pub new_resource_controller : Sides ℤ → Sides ℤ → ResourceController
new_resource_controller global_limits namespace_limits = record {
  namespaces = [];
  tallies = record {
    senders = record { count = pos 0; limit = global_limits.senders };
    receivers = record { count = pos 0; limit = global_limits.receivers };
  };
  strict_registration = false;
  namespace_limits = namespace_limits;
}

abbrev pub new_namespace : ResourceController → Namespace
new_namespace c = record {
  senders = new_pool c.namespace_limits.senders;
  receivers = new_pool c.namespace_limits.receivers;
}

abbrev pub with_count : Kind → ℤ → ResourceController → ResourceController
with_count k n c = record c {
  tallies = set_side k (record (side k c.tallies) { count = n }) c.tallies;
}

-- A change of a namespace, which the code reaches by its pointer.
abbrev pub with_pool : Kind → List ℕ → Namespace → Pool → ResourceController → ResourceController
with_pool k name ns q c = record c { namespaces = put name (set_side k q ns) c.namespaces }

module _ (k : Kind) where
  abbrev pub has_quota_internal : Namespace → ResourceController → Bool
  has_quota_internal ns c =
      is_below (side k c.tallies).count (side k c.tallies).limit && has_quota (side k ns)

  abbrev pub has_quota_or : ResourceController → Option Namespace → Bool
  has_quota_or c none = is_below (side k c.tallies).count (side k c.tallies).limit
  has_quota_or c (some ns) = has_quota_internal ns c

  -- `hasSenderQuota` and `hasReceiverQuota`.
  pub has_quota_for : List ℕ → ResourceController → Bool
  has_quota_for name c = has_quota_or c (lookup name c.namespaces)

  -- Behind the call of the namespace: a failure takes the number back.
  abbrev pub created_in :
      List ℕ
      → Namespace
      → ResourceController
      → ErrorCode × Option ℕ × Pool
      → ErrorCode × Option ℕ × ResourceController
  created_in name ns c (ok_code, member, q) = (ok_code, member, with_pool k name ns q c)
  created_in name ns c (status, member, q) =
      (status, member, with_count k ((side k c.tallies).count -ℤ pos 1) (with_pool k name ns q c))

  abbrev pub create_in :
      List ℕ
      → List ℕ
      → ℕ
      → ResourceController
      → Namespace
      → ErrorCode × Option ℕ × ResourceController
  create_in name identifier member c ns =
      let counted = with_count k ((side k c.tallies).count +ℤ pos 1) c in
      if not (has_quota_internal ns c)
      then (quota_exceeded, none, c)
      else created_in name ns counted (create_member identifier member (side k ns))

  abbrev pub create_or_register :
      List ℕ
      → List ℕ
      → ℕ
      → ResourceController
      → Option Namespace
      → ErrorCode × Option ℕ × ResourceController
  create_or_register name identifier member c (some ns) = create_in name identifier member c ns
  create_or_register name identifier member c none =
      let registered = record c { namespaces = put name (new_namespace c) c.namespaces } in
      if c.strict_registration
      then (not_found, none, c)
      else create_in name identifier member registered (new_namespace c)

  -- `createSender` and `createReceiver`.
  pub create : List ℕ → List ℕ → ℕ → ResourceController → ErrorCode × Option ℕ × ResourceController
  create name identifier member c =
      create_or_register name identifier member c (lookup name c.namespaces)

  abbrev pub released_in :
      List ℕ → Namespace → ResourceController → ErrorCode × Pool → ErrorCode × ResourceController
  released_in name ns c (ok_code, q) =
      (ok_code, with_count k ((side k c.tallies).count -ℤ pos 1) (with_pool k name ns q c))
  released_in name ns c (status, q) = (error, c)

  abbrev pub release_from :
      List ℕ → List ℕ → ResourceController → Option Namespace → ErrorCode × ResourceController
  release_from name identifier c none = (error, c)
  release_from name identifier c (some ns) =
      released_in name ns c (release_member identifier (side k ns))

  -- `releaseSender` and `releaseReceiver`.
  pub release : List ℕ → List ℕ → ResourceController → ErrorCode × ResourceController
  release name identifier c = release_from name identifier c (lookup name c.namespaces)

  abbrev pub all_released : List ℕ → Namespace → ResourceController → ℕ × Pool → ResourceController
  all_released name ns c (n, q) =
      with_count k ((side k c.tallies).count -ℤ pos n) (with_pool k name ns q c)

  abbrev pub release_all_from :
      List ℕ → ResourceController → Option Namespace → ErrorCode × ResourceController
  release_all_from name c none = (error, c)
  release_all_from name c (some ns) =
      (ok_code, all_released name ns c (release_all_members (side k ns)))

  -- `releaseAllSenders` and `releaseAllReceivers`.
  pub release_all : List ℕ → ResourceController → ErrorCode × ResourceController
  release_all name c = release_all_from name c (lookup name c.namespaces)

  abbrev pub stale_released :
      List ℕ
      → Namespace
      → ResourceController
      → List (List ℕ) × Pool
      → ErrorCode × List (List ℕ) × ResourceController
  stale_released name ns c (erased, q) = (
    ok_code,
    erased,
    with_count k ((side k c.tallies).count -ℤ pos (length erased)) (with_pool k name ns q c),
  )

  abbrev pub release_stale_from :
      (ℕ → Bool)
      → List ℕ
      → ResourceController
      → Option Namespace
      → ErrorCode × List (List ℕ) × ResourceController
  release_stale_from is_stale name c none = (not_found, [], c)
  release_stale_from is_stale name c (some ns) =
      stale_released name ns c (release_stale_members is_stale (side k ns))

  -- `releaseStaleSenders` and `releaseStaleReceivers`, with the identifiers that they erase.
  pub release_stale :
      (ℕ → Bool) → List ℕ → ResourceController → ErrorCode × List (List ℕ) × ResourceController
  release_stale is_stale name c = release_stale_from is_stale name c (lookup name c.namespaces)

  abbrev pub get_from : List ℕ → Option Namespace → Option ℕ
  get_from identifier none = none
  get_from identifier (some ns) = get_member identifier (side k ns)

  -- `getSender` and `getReceiver`.
  pub get : List ℕ → List ℕ → ResourceController → Option ℕ
  get name identifier c = get_from identifier (lookup name c.namespaces)

  abbrev pub get_all_from : Option Namespace → List ℕ
  get_all_from none = []
  get_all_from (some ns) = get_members (side k ns)

  -- `getAllSenders` and `getAllReceivers`.
  pub get_all : List ℕ → ResourceController → List ℕ
  get_all name c = get_all_from (lookup name c.namespaces)

  -- `updateMaxSendersLimit` and `updateMaxReceiversLimit`, of all namespaces together and of one.
  pub update_max_limit : ℤ → ResourceController → ResourceController
  update_max_limit n c = record c {
    tallies = set_side k (record (side k c.tallies) { limit = n }) c.tallies;
  }

  abbrev pub update_limit_from :
      ℤ → List ℕ → ResourceController → Option Namespace → ResourceController
  update_limit_from n name c none = c
  update_limit_from n name c (some ns) = with_pool k name ns (record (side k ns) { limit = n }) c

  pub update_max_limit_of : List ℕ → ℤ → ResourceController → ResourceController
  update_max_limit_of name n c = update_limit_from n name c (lookup name c.namespaces)

abbrev pub register_or : List ℕ → ResourceController → Option Namespace → ResourceController
register_or name c none = record c { namespaces = put name (new_namespace c) c.namespaces }
register_or name c (some ns) = c

pub register_wdt_namespace : List ℕ → ResourceController → ErrorCode × ResourceController
register_wdt_namespace name c = (ok_code, register_or name c (lookup name c.namespaces))

-- The members of a namespace are released, and their numbers taken off.
abbrev pub without : Namespace → ResourceController → ResourceController
without ns c =
    let c' = with_count of_senders (c.tallies.senders.count -ℤ pos (length ns.senders.members)) c in
    with_count of_receivers (c.tallies.receivers.count -ℤ pos (length ns.receivers.members)) c'

abbrev pub deregister_or :
    List ℕ → ResourceController → Option Namespace → ErrorCode × ResourceController
deregister_or name c none = (error, c)
deregister_or name c (some ns) =
    (ok_code, without ns (record c { namespaces = remove name c.namespaces }))

pub de_register_wdt_namespace : List ℕ → ResourceController → ErrorCode × ResourceController
de_register_wdt_namespace name c = deregister_or name c (lookup name c.namespaces)

abbrev pub require_registration : Bool → ResourceController → ResourceController
require_registration strict c = record c { strict_registration = strict }

-- The loop of `shutdown`.
pub without_all : Named Namespace → ResourceController → ResourceController
without_all [] c = c
without_all ((name, ns) ∷ l) c = without_all l (without ns c)

-- `none` is a failed WDT_CHECK.
pub shutdown : ResourceController → Option ResourceController
shutdown c =
    let cleared : ResourceController = record (without_all c.namespaces c) { namespaces = [] } in
    if eqb_ℤ cleared.tallies.receivers.count (pos 0) && eqb_ℤ cleared.tallies.senders.count (pos 0)
    then some cleared
    else none

-- `getCounts`: namespaces, senders and receivers.
pub get_counts : ResourceController → ℕ × ℤ × ℤ
get_counts c = (length c.namespaces, c.tallies.senders.count, c.tallies.receivers.count)

-- The functions for receivers, by their names; those of the kind `of_senders` are the ones for senders.
abbrev pub has_receiver_quota : List ℕ → ResourceController → Bool
has_receiver_quota = has_quota_for of_receivers

abbrev pub create_receiver :
    List ℕ → List ℕ → ℕ → ResourceController → ErrorCode × Option ℕ × ResourceController
create_receiver = create of_receivers

abbrev pub release_receiver : List ℕ → List ℕ → ResourceController → ErrorCode × ResourceController
release_receiver = release of_receivers

abbrev pub release_all_receivers : List ℕ → ResourceController → ErrorCode × ResourceController
release_all_receivers = release_all of_receivers

abbrev pub release_stale_receivers :
    (ℕ → Bool) → List ℕ → ResourceController → ErrorCode × List (List ℕ) × ResourceController
release_stale_receivers = release_stale of_receivers

abbrev pub get_receiver : List ℕ → List ℕ → ResourceController → Option ℕ
get_receiver = get of_receivers

abbrev pub get_all_receivers : List ℕ → ResourceController → List ℕ
get_all_receivers = get_all of_receivers

abbrev pub get_ids_from : Option Namespace → List (List ℕ)
get_ids_from none = []
get_ids_from (some ns) = get_member_ids ns.senders

-- `getAllSendersIds`
pub get_all_senders_ids : List ℕ → ResourceController → List (List ℕ)
get_all_senders_ids name c = get_ids_from (lookup name c.namespaces)
