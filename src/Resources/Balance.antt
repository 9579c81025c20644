-- ===== src/Resources/Balance.antt =====
-- The numbers of WdtResourceController agree with its maps, whatever is called.
use wdt.Common.{
  ℕ, suc, ◌+◌, ◌≡◌, refl, ap, ◌∙◌, arith, Bool, true, false, not, Option, none, some, List, [], ◌∷◌,
  length, if◌then◌else◌,
}
use wdt.Common.Int.{ℤ, pos, ◌+ℤ◌, ◌-ℤ◌, int_laws}
use wdt.Common.Named.{
  Named, lookup, lookup-put, put, remove, total, total-put, total-remove, AllNamed, AllNamed-put,
  AllNamed-remove, AllNamed-lookup,
}
use wdt.ErrorCodes.{ErrorCode, ok_code, already_exists, quota_exceeded, not_found}
use wdt.Resources.{
  Kind, of_senders, of_receivers, side, set_side, Pool, Namespace, create_member, create_or,
  release_member, release_or, release_all_members, release_stale_members, sweep, swept, has_quota,
}
use wdt.Resources.Root.{ResourceController, with_count, with_pool, new_namespace, without}

-- The number of a namespace is that of its map.
abbrev pub IsCounted : Pool → Type 0
IsCounted q = q.count ≡ pos (length q.members)

abbrev pub BothCounted : Namespace → Type 0
BothCounted ns = IsCounted ns.senders × IsCounted ns.receivers

abbrev pub members_of : Kind → Namespace → ℕ
members_of k ns = length (side k ns).members

-- The numbers of all namespaces together are the sums of theirs.
pub record IsBalanced (c : ResourceController) : Type 0 where
  pub senders : c.tallies.senders.count ≡ pos (total (members_of of_senders) c.namespaces)
  pub receivers : c.tallies.receivers.count ≡ pos (total (members_of of_receivers) c.namespaces)
  pub counted : AllNamed BothCounted c.namespaces

one_more : (a : ℤ) (n m : ℕ) → a ≡ pos n → m ≡ suc n → a +ℤ pos 1 ≡ pos m
one_more a n m e h = grind int_laws

pub some_fewer : (a : ℤ) (n k m : ℕ) → a ≡ pos n → k + m ≡ n → a -ℤ pos k ≡ pos m
some_fewer a n k m e h = grind int_laws

changed :
    (n count : ℤ) (a b more fewer : ℕ)
    → n +ℤ pos fewer ≡ count +ℤ pos more
    → count ≡ pos a
    → b + fewer ≡ a + more
    → n ≡ pos b
changed n count a b more fewer h e g = grind int_laws

-- The sum of the namespaces behind a change of one.
total-change :
    (size : Namespace → ℕ) (name : List ℕ) (ns ns' : Namespace) (l : Named Namespace)
    → lookup name l ≡ some ns
    → total size (put name ns' l) + size ns ≡ total size l + size ns'
total-change size name ns ns' l e = let sum = total-put size name ns' l in rw e at sum

length-total : (l : Named ℕ) → length l ≡ total (λ (v : ℕ). 1) l
length-total [] = refl
length-total ((key, v) ∷ l) = omega (arith, length-total l)

length-put :
    (name : List ℕ) (v : ℕ) (l : Named ℕ)
    → lookup name l ≡ none
    → length (put name v l) ≡ suc (length l)
length-put name v l e =
    let sum = total-put (λ (w : ℕ). 1) name v l in
    omega (arith, length-total l, length-total (put name v l), rw e at sum)

length-remove :
    (name : List ℕ) (v : ℕ) (l : Named ℕ)
    → lookup name l ≡ some v
    → suc (length (remove name l)) ≡ length l
length-remove name v l e =
    let sum = total-remove (λ (w : ℕ). 1) name l in
    omega (arith, length-total l, length-total (remove name l), rw e at sum)

-- A pool with so many members more, and so many fewer.
abbrev pub Grows : ℕ → ℕ → Pool → Pool → Type 0
Grows more fewer q q' = IsCounted q' × (length q.members + more ≡ length q'.members + fewer)

-- How the creation of a member ends.
pub data Created (q : Pool) (r : ErrorCode × Option ℕ × Pool) (identifier : List ℕ) (member : ℕ)
    : Type 0 where
  created :
      {q' : Pool}
      → r ≡ (ok_code, some member, q')
      → has_quota q ≡ true
      → lookup identifier q.members ≡ none
      → lookup identifier q'.members ≡ some member
      → Grows 1 0 q q'
      → Created q r identifier member
  exists :
      {old : ℕ}
      → r ≡ (already_exists, some old, q)
      → lookup identifier q.members ≡ some old
      → Created q r identifier member
  exceeded :
      r ≡ (quota_exceeded, none, q)
      → lookup identifier q.members ≡ none
      → Created q r identifier member

pub create_member-Created :
    (identifier : List ℕ) (member : ℕ) (q : Pool)
    → IsCounted q
    → Created q (create_member identifier member q) identifier member
unfolding create_member
create_member-Created identifier member q w = by_old (lookup identifier q.members) refl
  where
    by_old :
        (o : Option ℕ)
        → lookup identifier q.members ≡ o
        → Created q (create_or identifier member q o) identifier member
    by_old (some old) e = exists refl e
    by_old none e = by_quota (has_quota q) refl
      where
        by_quota :
            (b : Bool)
            → has_quota q ≡ b
            → Created q
                (if not b then (quota_exceeded, none, q) else (
                  ok_code,
                  some member,
                  record q { members = put identifier member q.members; count = q.count +ℤ pos 1 },
                ))
                identifier
                member
        by_quota false h = exceeded refl e
        by_quota true h =
            let more = length-put identifier member q.members e in
            created refl h e (lookup-put identifier member q.members)
              ((one_more q.count (length q.members) _ w more), omega (arith, more))

pub data Released (q : Pool) (r : ErrorCode × Pool) : Type 0 where
  released : {q' : Pool} → r ≡ (ok_code, q') → Grows 0 1 q q' → Released q r
  missing : r ≡ (not_found, q) → Released q r

pub release_member-Released :
    (identifier : List ℕ) (q : Pool) → IsCounted q → Released q (release_member identifier q)
unfolding release_member
release_member-Released identifier q w = by_old (lookup identifier q.members) refl
  where
    by_old :
        (o : Option ℕ) → lookup identifier q.members ≡ o → Released q (release_or identifier q o)
    by_old none e = missing refl
    by_old (some old) e =
        let fewer = length-remove identifier old q.members e in
        released refl (
          (some_fewer q.count (length q.members) 1 (length (remove identifier q.members)) w
              (omega (arith, fewer))),
          omega (arith, fewer),
        )

length-sweep :
    (is_stale : ℕ → Bool) (l : Named ℕ)
    → length (sweep is_stale l).0 + length (sweep is_stale l).1 ≡ length l
unfolding sweep
length-sweep is_stale [] = refl
length-sweep is_stale ((identifier, member) ∷ l) =
    by_test (is_stale member) (sweep is_stale l) (length-sweep is_stale l)
  where
    by_test :
        (b : Bool) (r : List (List ℕ) × Named ℕ)
        → length r.0 + length r.1 ≡ length l
        → length (swept b (identifier, member) r).0 + length (swept b (identifier, member) r).1
          ≡ suc (length l)
    by_test true r h = omega arith
    by_test false r h = omega arith

pub release_stale_members-Grows :
    (is_stale : ℕ → Bool) (q : Pool)
    → IsCounted q
    → Grows 0 (length (release_stale_members is_stale q).0) q (release_stale_members is_stale q).1
unfolding release_stale_members
release_stale_members-Grows is_stale q w =
    let sum = length-sweep is_stale q.members in
    ((some_fewer q.count (length q.members) _ _ w sum), omega (arith, sum))

pub release_all_members-Grows :
    (q : Pool) → Grows 0 (release_all_members q).0 q (release_all_members q).1
unfolding release_all_members
release_all_members-Grows q = (refl, omega arith)

-- A change of one pool of a namespace, with the number changed as its members.
pub with_pool-IsBalanced :
    (k : Kind) (name : List ℕ) (ns : Namespace) (q : Pool) (n : ℤ) (more fewer : ℕ)
    (c : ResourceController)
    → IsBalanced c
    → lookup name c.namespaces ≡ some ns
    → Grows more fewer (side k ns) q
    → n +ℤ pos fewer ≡ (side k c.tallies).count +ℤ pos more
    → IsBalanced (with_count k n (with_pool k name ns q c))
with_pool-IsBalanced of_senders name ns q n more fewer c w e (counted, sum) change = record {
  senders =
      let there =
        total-change (members_of of_senders) name ns (set_side of_senders q ns) c.namespaces e in
      changed n c.tallies.senders.count _ _ more fewer change w.senders (omega (arith, there, sum));
  receivers =
      let there =
        total-change (members_of of_receivers) name ns (set_side of_senders q ns) c.namespaces e in
      changed c.tallies.receivers.count c.tallies.receivers.count _ _ 0 0 refl w.receivers
        (omega (arith, there));
  counted =
      let had = AllNamed-lookup BothCounted name c.namespaces ns w.counted e in
      AllNamed-put BothCounted name (set_side of_senders q ns) c.namespaces (counted, had.1)
        w.counted;
}
with_pool-IsBalanced of_receivers name ns q n more fewer c w e (counted, sum) change = record {
  senders =
      let there =
        total-change (members_of of_senders) name ns (set_side of_receivers q ns) c.namespaces e in
      changed c.tallies.senders.count c.tallies.senders.count _ _ 0 0 refl w.senders
        (omega (arith, there));
  receivers =
      let there =
        total-change (members_of of_receivers) name ns (set_side of_receivers q ns) c.namespaces
          e in
      changed n c.tallies.receivers.count _ _ more fewer change w.receivers
        (omega (arith, there, sum));
  counted =
      let had = AllNamed-lookup BothCounted name c.namespaces ns w.counted e in
      AllNamed-put BothCounted name (set_side of_receivers q ns) c.namespaces (had.0, counted)
        w.counted;
}

-- A namespace that is new has no members.
pub put-IsBalanced :
    (name : List ℕ) (c : ResourceController)
    → IsBalanced c
    → lookup name c.namespaces ≡ none
    → IsBalanced (record c { namespaces = put name (new_namespace c) c.namespaces })
put-IsBalanced name c w e =
    let senders = total-put (members_of of_senders) name (new_namespace c) c.namespaces in
    let receivers = total-put (members_of of_receivers) name (new_namespace c) c.namespaces in
    record {
      senders = w.senders ∙ ap pos (omega (arith, rw e at senders));
      receivers = w.receivers ∙ ap pos (omega (arith, rw e at receivers));
      counted = AllNamed-put BothCounted name (new_namespace c) c.namespaces (refl, refl) w.counted;
    }

-- A namespace is taken out, and its numbers with it.
pub remove-IsBalanced :
    (name : List ℕ) (ns : Namespace) (c : ResourceController)
    → IsBalanced c
    → lookup name c.namespaces ≡ some ns
    → IsBalanced (without ns (record c { namespaces = remove name c.namespaces }))
remove-IsBalanced name ns c w e =
    let senders = total-remove (members_of of_senders) name c.namespaces in
    let receivers = total-remove (members_of of_receivers) name c.namespaces in
    record {
      senders = some_fewer c.tallies.senders.count _ _ _ w.senders (omega (arith, rw e at senders));
      receivers =
          some_fewer c.tallies.receivers.count _ _ _ w.receivers (omega (arith, rw e at receivers));
      counted = AllNamed-remove BothCounted name c.namespaces w.counted;
    }
