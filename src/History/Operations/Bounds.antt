-- ===== src/History/Operations/Bounds.antt =====
-- What holds of a history that the operations lead to, and how a transfer ends on it.
use wdt.Common.{◌≡◌, sym, ap, ◌∙◌, inl, inr, Bool, true, false, Option, none, some, arith}
use wdt.Common.{Bool-cases, List, length, drop, length-drop}
use wdt.Common.Int.{ℤ, pos, pos_part, neg_part, ◌≤ℤ◌}
use mathlib.Core.Path.{subst}
use wdt.ErrorCodes.{ErrorCode}
use wdt.Protocol.{Checkpoint}
use wdt.History.{
  History, ByteSource, TransferStats, new_history, set_checkpoint_and_return_to_queue,
}
use wdt.History.Operations.{
  add_source, set_local_checkpoint, set_global_checkpoint, mark_all_acknowledged,
}
use wdt.History.Operations.{mark_not_in_use}
use wdt.History.Applied.{Applied, num_failed, is_rejected}
use wdt.History.Applied.{set_checkpoint_and_return_to_queue_lem}

-- What a decoded checkpoint satisfies.
pub record IsReceived (c : Checkpoint) : Type 0 where
  pub count : pos 0 ≤ℤ c.num_blocks
  pub bytes : pos 0 ≤ℤ c.last_block_received_bytes

-- The last checkpoint counts at most the acknowledged blocks.
abbrev pub IsCovered : ℤ → Option Checkpoint → Type 0
IsCovered acked none = Unit
IsCovered acked (some c) = IsReceived c × (c.num_blocks ≤ℤ acked)

-- The acknowledged blocks are in the history.
pub record IsWellFormed (h : History) : Type 0 where
  pub not_negative : pos 0 ≤ℤ h.num_acknowledged
  pub sent : h.num_acknowledged ≤ℤ pos (length h.history)
  pub covered : IsCovered h.num_acknowledged h.last_checkpoint

-- One operation of the sender thread, or of another thread for a global checkpoint.
pub data Step (h h' : History) : Type 0 where
  added : (source : ByteSource) → h' ≡ (add_source source h).1 → Step h h'
  locally :
      (c : Checkpoint) (err : ErrorCode)
      → IsReceived c
      → set_local_checkpoint c h ≡ some (err, h')
      → Step h h'
  globally :
      (c : Checkpoint) (err : ErrorCode)
      → IsReceived c
      → set_global_checkpoint c h ≡ some (err, h')
      → Step h h'
  acknowledged : h' ≡ mark_all_acknowledged h → Step h h'
  released : h' ≡ mark_not_in_use h → Step h h'

pub data Reachable (stats : TransferStats) : History → Type 0 where
  start : Reachable stats (new_history stats)
  next : {h h' : History} → Reachable stats h → Step h h' → Reachable stats h'

covered_later :
    (acked acked' : ℤ) (last : Option Checkpoint)
    → acked ≤ℤ acked'
    → IsCovered acked last
    → IsCovered acked' last
covered_later acked acked' none le k = k
covered_later acked acked' (some c) le k = (k.0, omega (arith, k.1))

add_source-IsWellFormed :
    (source : ByteSource) (h : History) → IsWellFormed h → IsWellFormed (add_source source h).1
unfolding add_source
add_source-IsWellFormed source h w = elim (Bool-cases h.global_checkpoint) [
  | inl received ↦
      rw received (record { not_negative = w.not_negative; sent = w.sent; covered = tt })
  | inr open_still ↦
      rw open_still (record {
        not_negative = w.not_negative;
        sent = omega (arith, w.sent);
        covered = w.covered;
      })
]

mark_all-IsWellFormed : (h : History) → IsWellFormed h → IsWellFormed (mark_all_acknowledged h)
unfolding mark_all_acknowledged
mark_all-IsWellFormed h w = record {
  not_negative = omega arith;
  sent = omega arith;
  covered =
      covered_later h.num_acknowledged (pos (length h.history)) h.last_checkpoint w.sent w.covered;
}

mark_not_in_use-IsWellFormed : (h : History) → IsWellFormed h → IsWellFormed (mark_not_in_use h)
unfolding mark_not_in_use
mark_not_in_use-IsWellFormed h w = record {
  not_negative = w.not_negative;
  sent = w.sent;
  covered = w.covered;
}

pub kept_length :
    (c : Checkpoint) (h : History)
    → pos 0 ≤ℤ c.num_blocks
    → is_rejected h c ≡ false
    → pos (length (drop (num_failed h c) h.history)) ≡ c.num_blocks
kept_length c h k good = ground (arith, length-drop (num_failed h c) h.history)

Applied-IsWellFormed :
    (c : Checkpoint) (global : Bool) (h h' : History)
    → IsReceived c
    → is_rejected h c ≡ false
    → Applied c global h h'
    → IsWellFormed h'
Applied-IsWellFormed c global h h' r good a =
    let size : pos (length h'.history) ≡ c.num_blocks =
      ap (λ (l : List ByteSource). pos (length l)) a.history ∙ kept_length c h r.count good in
    record {
      not_negative = rw a.num_acknowledged r.count;
      sent = rw a.num_acknowledged (omega (arith, ap pos_part size, ap neg_part size));
      covered = rw (a.num_acknowledged, a.last_checkpoint) (r, omega arith);
    }

same_result :
    {o : Option (ErrorCode × History)} {err err' : ErrorCode} {h h' : History}
    → o ≡ some (err, h)
    → o ≡ some (err', h')
    → h ≡ h'
same_result {o} {err} {err'} {h} {h'} p q = ap (history_or h) (sym p ∙ q)
  where
    history_or : History → Option (ErrorCode × History) → History
    history_or d none = d
    history_or d (some (e, x)) = x

set_checkpoint-IsWellFormed :
    (c : Checkpoint) (global : Bool) (err : ErrorCode) (h h' : History)
    → IsReceived c
    → IsWellFormed h
    → set_checkpoint_and_return_to_queue c global h ≡ some (err, h')
    → IsWellFormed h'
set_checkpoint-IsWellFormed c global err h h' r w e =
    elim (set_checkpoint_and_return_to_queue_lem c global h r.count r.bytes) [
      | inl (bad, same) ↦ subst IsWellFormed (same_result same e) w
      | inr (good, (h'', e', applied)) ↦
          subst IsWellFormed (same_result e' e) (Applied-IsWellFormed c global h h'' r good applied)
    ]

Step-IsWellFormed : {h h' : History} → Step h h' → IsWellFormed h → IsWellFormed h'
unfolding set_local_checkpoint set_global_checkpoint
Step-IsWellFormed {h} (Step.added source e) w = rw e (add_source-IsWellFormed source h w)
Step-IsWellFormed {h} {h'} (Step.locally c err r e) w =
    set_checkpoint-IsWellFormed c false err h h' r w e
Step-IsWellFormed {h} {h'} (Step.globally c err r e) w =
    set_checkpoint-IsWellFormed c true err h h' r w e
Step-IsWellFormed {h} (Step.acknowledged e) w = rw e (mark_all-IsWellFormed h w)
Step-IsWellFormed {h} (Step.released e) w = rw e (mark_not_in_use-IsWellFormed h w)

-- Whatever sources are added and whatever checkpoints are received, with no negative count, the
-- acknowledged blocks are at least none and at most those in the history, and the last checkpoint
-- counts no more of them.
pub Reachable-IsWellFormed :
    (stats : TransferStats) (h : History) → Reachable stats h → IsWellFormed h
Reachable-IsWellFormed stats _ Reachable.start = record {
  not_negative = omega arith;
  sent = omega arith;
  covered = tt;
}
Reachable-IsWellFormed stats _ (Reachable.next {h} r s) =
    Step-IsWellFormed s (Reachable-IsWellFormed stats h r)
