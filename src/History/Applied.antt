-- ===== src/History/Applied.antt =====
-- What a checkpoint does to a history: `setCheckpointAndReturnToQueue` as a whole.
use wdt.Common.{
  ℕ, ◌-◌, ◌≡◌, refl, ◌∙◌, ◌⊎◌, inl, inr, Bool, true, false, not, Option, none, some, arith,
}
use wdt.Common.{if◌then◌else◌, ◌&&◌, ◌||◌, ◌==◌, Bool-cases, length, take, drop}
use wdt.Common.Int.{ℤ, pos, negsuc, pos_part, ltb_ℤ, ◌≤ℤ◌, ◌+ℤ◌, ◌-ℤ◌}
use wdt.ErrorCodes.{ErrorCode, ok_code, invalid_checkpoint, no_progress, code}
use wdt.Protocol.{Checkpoint}
use wdt.History.{History, validate_checkpoint}
use wdt.History.{set_checkpoint_and_return_to_queue, apply_checkpoint}
use wdt.History.Failures.{Pushed, data_sum, fail_sources-Failed}
use wdt.History.Validity.{is_contradiction, is_standstill, validate_checkpoint_lem}

-- More blocks than were sent, or a contradiction to the last checkpoint.
abbrev pub contradicts : Option Checkpoint → Checkpoint → Bool
contradicts none c = false
contradicts (some last) c = is_contradiction last c

abbrev pub is_rejected : History → Checkpoint → Bool
is_rejected h c = ltb_ℤ (pos (length h.history)) c.num_blocks || contradicts h.last_checkpoint c

abbrev pub verdict : Option Checkpoint → Checkpoint → Bool → ErrorCode
verdict none c global = ok_code
verdict (some last) c global = if is_standstill last c && not global then no_progress else ok_code

-- The number of sources that the checkpoint does not acknowledge.
abbrev pub num_failed : History → Checkpoint → ℕ
num_failed h c = length h.history - pos_part c.num_blocks

-- The acknowledged sources stay, and all others are on the queue.
pub record Applied (c : Checkpoint) (global : Bool) (h h' : History) : Type 0 where
  pub history : h'.history ≡ drop (num_failed h c) h.history
  pub queue : Pushed (take (num_failed h c) h.history) h.queue h'.queue
  pub charged :
      h'.thread_stats.effective_data_bytes +ℤ (data_sum h.history +ℤ data_sum h.queue)
      ≡ h.thread_stats.effective_data_bytes +ℤ (data_sum h'.history +ℤ data_sum h'.queue)
  pub num_acknowledged : h'.num_acknowledged ≡ c.num_blocks
  pub last_checkpoint : h'.last_checkpoint ≡ some c
  pub global_checkpoint : h'.global_checkpoint ≡ (h.global_checkpoint || global)
  pub in_use : h'.in_use ≡ h.in_use

failed_count : (n : ℕ) (v : ℤ) → pos 0 ≤ℤ v → pos_part (pos n -ℤ v) ≡ n - pos_part v
failed_count n (negsuc m) k = absurd (omega arith)
failed_count n (pos m) k = unfold ◌-ℤ◌ in ground arith

apply_checkpoint-Applied :
    (c : Checkpoint) (global : Bool) (err : ErrorCode) (h : History)
    → pos 0 ≤ℤ c.num_blocks
    → (h' : History) × (apply_checkpoint c global err h ≡ some (err, h')) × Applied c global h h'
unfolding apply_checkpoint
apply_checkpoint-Applied c global err h k =
    let (w', e, f) =
      fail_sources-Failed (num_failed h c) c h.history h.thread_stats h.queue (omega arith) in
    (
      record h {
        history = w'.history;
        global_checkpoint = h.global_checkpoint || global;
        num_acknowledged = c.num_blocks;
        last_checkpoint = some c;
        thread_stats = w'.thread_stats;
        queue = w'.sources_to_return;
      },
      rw (failed_count (length h.history) c.num_blocks k, e) refl,
      record {
        history = f.history;
        queue = f.pushed;
        charged = f.charged;
        num_acknowledged = refl;
        last_checkpoint = refl;
        global_checkpoint = refl;
        in_use = refl;
      },
    )

judged :
    (last : Option Checkpoint) (c : Checkpoint) (global : Bool)
    → pos 0 ≤ℤ c.last_block_received_bytes
    → ((contradicts last c ≡ true) × (validate_checkpoint last c global ≡ some invalid_checkpoint))
      ⊎ ((contradicts last c ≡ false)
          × (validate_checkpoint last c global ≡ some (verdict last c global)))
judged none c global h = inr (refl, unfold validate_checkpoint in refl)
judged (some last) c global h = elim (Bool-cases (is_contradiction last c)) [
  | inl bad ↦ inl (bad, validate_checkpoint_lem last c global h ∙ rw bad refl)
  | inr good ↦ inr (good, validate_checkpoint_lem last c global h ∙ rw good refl)
]

verdict-code :
    (last : Option Checkpoint) (c : Checkpoint) (global : Bool)
    → code (verdict last c global) == code invalid_checkpoint ≡ false
unfolding code
verdict-code none c global = refl
verdict-code (some last) c global = by_standstill (is_standstill last c && not global)
  where
    by_standstill :
        (b : Bool) → code (if b then no_progress else ok_code) == code invalid_checkpoint ≡ false
    by_standstill true = refl
    by_standstill false = refl

-- A checkpoint with no negative count either is rejected, for more blocks than were sent or for
-- contradicting the last one, and changes nothing; or it is taken over: the blocks that it
-- acknowledges stay, the oldest ones, all others go to the queue, each ending where it ended and
-- marked as failed, the thread's data bytes change as those of its sources do, and the result is OK
-- or, at a standstill under a local checkpoint, NO_PROGRESS.
pub set_checkpoint_and_return_to_queue_lem :
    (c : Checkpoint) (global : Bool) (h : History)
    → pos 0 ≤ℤ c.num_blocks
    → pos 0 ≤ℤ c.last_block_received_bytes
    → ((is_rejected h c ≡ true)
        × (set_checkpoint_and_return_to_queue c global h ≡ some (invalid_checkpoint, h)))
      ⊎ ((is_rejected h c ≡ false)
          × ((h' : History) × (set_checkpoint_and_return_to_queue c global h
                ≡ some (verdict h.last_checkpoint c global, h'))
              × Applied c global h h'))
unfolding set_checkpoint_and_return_to_queue code
set_checkpoint_and_return_to_queue_lem c global h k r =
    elim (Bool-cases (ltb_ℤ (pos (length h.history)) c.num_blocks)) [
      | inl over ↦ inl (rw over refl, rw over refl)
      | inr within ↦ elim (judged h.last_checkpoint c global r) [
        | inl (bad, v) ↦ inl (rw (within, bad) refl, rw (within, v) refl)
        | inr (good, v) ↦
            let (h', e, applied) =
              apply_checkpoint-Applied c global (verdict h.last_checkpoint c global) h k in
            inr (
              rw (within, good) refl,
              (h', rw (within, v, verdict-code h.last_checkpoint c global) e, applied),
            )
      ]
    ]
