-- ===== src/Resources/Root/Preserved.antt =====
-- Every call of WdtResourceController keeps its numbers equal to what its maps hold.
use wdt.Common.{
  ℕ, ◌≡◌, refl, arith, Bool, true, false, not, Option, none, some, List, length, if◌then◌else◌,
}
use wdt.Common.Int.{ℤ, pos, ◌+ℤ◌, ◌-ℤ◌, int_laws}
use wdt.Common.Named.{lookup, put, lookup-put, AllNamed-lookup}
use wdt.ErrorCodes.{ErrorCode, quota_exceeded, not_found}
use wdt.Resources.{
  Kind, of_senders, of_receivers, side, Pool, Namespace, create_member, release_all_members,
  release_stale_members,
}
use wdt.Resources.Root.{
  ResourceController, with_count, with_pool, new_namespace, has_quota_internal, created_in,
  create_in, create_or_register, create, released_in, release_from, release, release_all_from,
  release_all, release_stale_from, release_stale, update_max_limit, update_limit_from,
  update_max_limit_of, register_or, register_wdt_namespace, deregister_or,
  de_register_wdt_namespace,
}
use wdt.Resources.Balance.{
  IsCounted, BothCounted, IsBalanced, Created, created, exists, exceeded, create_member-Created,
  Released, released, missing, release_member-Released, release_stale_members-Grows,
  release_all_members-Grows, with_pool-IsBalanced, put-IsBalanced, remove-IsBalanced,
}

side-IsCounted : (k : Kind) (ns : Namespace) → BothCounted ns → IsCounted (side k ns)
side-IsCounted of_senders ns h = h.0
side-IsCounted of_receivers ns h = h.1

-- The pool of a namespace is counted where all is balanced.
pub pool-IsCounted :
    (k : Kind) (name : List ℕ) (ns : Namespace) (c : ResourceController)
    → IsBalanced c
    → lookup name c.namespaces ≡ some ns
    → IsCounted (side k ns)
pool-IsCounted k name ns c w e =
    side-IsCounted k ns (AllNamed-lookup BothCounted name c.namespaces ns w.counted e)

back : (a : ℤ) → (a +ℤ pos 1) -ℤ pos 1 +ℤ pos 0 ≡ a +ℤ pos 0
back a = grind int_laws

plus_one : (a : ℤ) → (a +ℤ pos 1) +ℤ pos 0 ≡ a +ℤ pos 1
plus_one a = grind int_laws

-- A creation that fails behind the count takes it back.
taken_back :
    (k : Kind) (name : List ℕ) (ns : Namespace) (c : ResourceController)
    → IsBalanced c
    → lookup name c.namespaces ≡ some ns
    → (let counted = with_count k ((side k c.tallies).count +ℤ pos 1) c in
        IsBalanced (
          with_count k
            ((side k counted.tallies).count -ℤ pos 1)
            (with_pool k name ns (side k ns) counted)))
taken_back of_senders name ns c w e =
    with_pool-IsBalanced of_senders name ns ns.senders _ 0 0 c w e
      (pool-IsCounted of_senders name ns c w e, omega arith) (back c.tallies.senders.count)
taken_back of_receivers name ns c w e =
    with_pool-IsBalanced of_receivers name ns ns.receivers _ 0 0 c w e
      (pool-IsCounted of_receivers name ns c w e, omega arith) (back c.tallies.receivers.count)

plus_zero : (a : ℤ) (n : ℕ) → (a -ℤ pos n) +ℤ pos n ≡ a +ℤ pos 0
plus_zero a n = grind int_laws

pub create_in-IsBalanced :
    (k : Kind) (name identifier : List ℕ) (member : ℕ) (c : ResourceController) (ns : Namespace)
    → IsBalanced c
    → lookup name c.namespaces ≡ some ns
    → IsBalanced (create_in k name identifier member c ns).2
create_in-IsBalanced k name identifier member c ns w e = by_quota (has_quota_internal k ns c)
  where
    counted : ResourceController
    counted = with_count k ((side k c.tallies).count +ℤ pos 1) c

    by_result :
        (r : ErrorCode × Option ℕ × Pool)
        → Created (side k ns) r identifier member
        → IsBalanced (created_in k name ns counted r).2
    by_result r (created {q'} g h nowhere there grows) = rw g (
        with_pool-IsBalanced k name ns q' ((side k c.tallies).count +ℤ pos 1) 1 0 c w e grows
          (plus_one (side k c.tallies).count))
    by_result r (exists g there) = rw g (taken_back k name ns c w e)
    by_result r (exceeded g none_there) = rw g (taken_back k name ns c w e)

    by_quota :
        (b : Bool)
        → IsBalanced
            (if not b
              then (quota_exceeded, none, c)
              else created_in k name ns counted (create_member identifier member (side k ns))).2
    by_quota false = w
    by_quota true =
        by_result _
          (create_member-Created identifier member (side k ns) (pool-IsCounted k name ns c w e))

pub create-IsBalanced :
    (k : Kind) (name identifier : List ℕ) (member : ℕ) (c : ResourceController)
    → IsBalanced c
    → IsBalanced (create k name identifier member c).2
unfolding create
create-IsBalanced k name identifier member c w = by_namespace (lookup name c.namespaces) refl
  where
    by_strict :
        (b : Bool)
        → lookup name c.namespaces ≡ none
        → IsBalanced
            (if b
              then (not_found, none, c)
              else create_in k name identifier member
                  (record c { namespaces = put name (new_namespace c) c.namespaces })
                  (new_namespace c)).2
    by_strict true e = w
    by_strict false e =
        create_in-IsBalanced k name identifier member _ (new_namespace c)
          (put-IsBalanced name c w e) (lookup-put name (new_namespace c) c.namespaces)

    by_namespace :
        (o : Option Namespace)
        → lookup name c.namespaces ≡ o
        → IsBalanced (create_or_register k name identifier member c o).2
    by_namespace (some ns) e = create_in-IsBalanced k name identifier member c ns w e
    by_namespace none e = by_strict c.strict_registration e

pub release-IsBalanced :
    (k : Kind) (name identifier : List ℕ) (c : ResourceController)
    → IsBalanced c
    → IsBalanced (release k name identifier c).1
unfolding release
release-IsBalanced k name identifier c w = by_namespace (lookup name c.namespaces) refl
  where
    by_result :
        (ns : Namespace) (r : ErrorCode × Pool)
        → lookup name c.namespaces ≡ some ns
        → Released (side k ns) r
        → IsBalanced (released_in k name ns c r).1
    by_result ns r e (released {q'} g grows) =
        rw g (
          with_pool-IsBalanced k name ns q' _ 0 1 c w e grows
            (plus_zero (side k c.tallies).count 1))
    by_result ns r e (missing g) = rw g w

    by_namespace :
        (o : Option Namespace)
        → lookup name c.namespaces ≡ o
        → IsBalanced (release_from k name identifier c o).1
    by_namespace none e = w
    by_namespace (some ns) e =
        by_result ns _ e
          (release_member-Released identifier (side k ns) (pool-IsCounted k name ns c w e))

pub release_all-IsBalanced :
    (k : Kind) (name : List ℕ) (c : ResourceController)
    → IsBalanced c
    → IsBalanced (release_all k name c).1
unfolding release_all
release_all-IsBalanced k name c w = by_namespace (lookup name c.namespaces) refl
  where
    by_namespace :
        (o : Option Namespace)
        → lookup name c.namespaces ≡ o
        → IsBalanced (release_all_from k name c o).1
    by_namespace none e = w
    by_namespace (some ns) e =
        with_pool-IsBalanced k name ns (release_all_members (side k ns)).1 _ 0
          (release_all_members (side k ns)).0 c w e (release_all_members-Grows (side k ns))
          (plus_zero (side k c.tallies).count (release_all_members (side k ns)).0)

pub release_stale-IsBalanced :
    (k : Kind) (is_stale : ℕ → Bool) (name : List ℕ) (c : ResourceController)
    → IsBalanced c
    → IsBalanced (release_stale k is_stale name c).2
unfolding release_stale
release_stale-IsBalanced k is_stale name c w = by_namespace (lookup name c.namespaces) refl
  where
    by_namespace :
        (o : Option Namespace)
        → lookup name c.namespaces ≡ o
        → IsBalanced (release_stale_from k is_stale name c o).2
    by_namespace none e = w
    by_namespace (some ns) e =
        let r = release_stale_members is_stale (side k ns) in
        with_pool-IsBalanced k name ns r.1 _ 0 (length r.0) c w e
          (release_stale_members-Grows is_stale (side k ns) (pool-IsCounted k name ns c w e))
          (plus_zero (side k c.tallies).count (length r.0))

pub update_max_limit-IsBalanced :
    (k : Kind) (n : ℤ) (c : ResourceController) → IsBalanced c → IsBalanced (update_max_limit k n c)
unfolding update_max_limit
update_max_limit-IsBalanced of_senders n c w = record {
  senders = w.senders;
  receivers = w.receivers;
  counted = w.counted;
}
update_max_limit-IsBalanced of_receivers n c w = record {
  senders = w.senders;
  receivers = w.receivers;
  counted = w.counted;
}

same_count :
    (k : Kind) (n : ℤ) (c : ResourceController)
    → IsBalanced (with_count k (side k c.tallies).count c)
    → IsBalanced c
same_count of_senders n c w = w
same_count of_receivers n c w = w

pub update_max_limit_of-IsBalanced :
    (k : Kind) (name : List ℕ) (n : ℤ) (c : ResourceController)
    → IsBalanced c
    → IsBalanced (update_max_limit_of k name n c)
unfolding update_max_limit_of
update_max_limit_of-IsBalanced k name n c w = by_namespace (lookup name c.namespaces) refl
  where
    by_namespace :
        (o : Option Namespace)
        → lookup name c.namespaces ≡ o
        → IsBalanced (update_limit_from k n name c o)
    by_namespace none e = w
    by_namespace (some ns) e =
        let q : Pool = record (side k ns) { limit = n } in
        same_count k n (with_pool k name ns q c) (
          with_pool-IsBalanced k name ns q (side k c.tallies).count 0 0 c w e
            (pool-IsCounted k name ns c w e, omega arith) refl)

pub register-IsBalanced :
    (name : List ℕ) (c : ResourceController)
    → IsBalanced c
    → IsBalanced (register_wdt_namespace name c).1
unfolding register_wdt_namespace
register-IsBalanced name c w = by_namespace (lookup name c.namespaces) refl
  where
    by_namespace :
        (o : Option Namespace) → lookup name c.namespaces ≡ o → IsBalanced (register_or name c o)
    by_namespace none e = put-IsBalanced name c w e
    by_namespace (some ns) e = w

pub deregister-IsBalanced :
    (name : List ℕ) (c : ResourceController)
    → IsBalanced c
    → IsBalanced (de_register_wdt_namespace name c).1
unfolding de_register_wdt_namespace
deregister-IsBalanced name c w = by_namespace (lookup name c.namespaces) refl
  where
    by_namespace :
        (o : Option Namespace)
        → lookup name c.namespaces ≡ o
        → IsBalanced (deregister_or name c o).1
    by_namespace none e = w
    by_namespace (some ns) e = remove-IsBalanced name ns c w e
