-- ===== src/History/Operations/Finish.antt =====
-- How `Sender::finish` closes a history: it marks everything as acknowledged or returns what is not,
-- and then takes the statistics of the acknowledged sources.
use wdt.Common.{◌≡◌, refl, sym, ◌∙◌, ◌⊎◌, inl, inr, Bool, true, false, Option, none, some, arith}
use wdt.Common.{◌||◌, length}
use wdt.Common.Int.{pos, ltb_ℤ, eqb_ℤ}
use wdt.Protocol.{Checkpoint, new_checkpoint}
use wdt.History.{History}
use wdt.History.Operations.{return_unacked_sources_to_queue, pop_acked_source_stats}
use wdt.History.Applied.{Applied, contradicts}
use wdt.History.Applied.{set_checkpoint_and_return_to_queue_lem}
use wdt.History.Operations.Bounds.{IsWellFormed}

-- The last checkpoint names its block by a sequence number, which is 1 or more, or has none.
abbrev pub IsLocated : Option Checkpoint → Type 0
IsLocated none = Unit
IsLocated (some c) =
    (eqb_ℤ c.last_block_seq_id (pos 0) ≡ false) ⊎ (eqb_ℤ c.last_block_received_bytes (pos 0) ≡ true)

abbrev closing : History → Checkpoint
closing h = record new_checkpoint { num_blocks = h.num_acknowledged }

or_right : (a b : Bool) → b ≡ true → (a || b) ≡ false → true ≡ false
or_right true b t f = f
or_right false b t f = sym t ∙ f

module _ (h : History) (well : IsWellFormed h) where
  -- On a history that is well formed, whose last checkpoint acknowledges as many blocks, with some
  -- bytes of a block but neither its sequence number nor its offset, as a receiver before version 21
  -- sends it, and with further blocks: `returnUnackedSourcesToQueue` returns nothing to the queue,
  -- and the check of `popAckedSourceStats` fails.
  pub pop_acked-return_unacked_stuck :
      (last : Checkpoint)
      → h.last_checkpoint ≡ some last
      → last.num_blocks ≡ h.num_acknowledged
      → last.last_block_seq_id ≡ pos 0
      → last.last_block_offset ≡ pos 0
      → eqb_ℤ last.last_block_received_bytes (pos 0) ≡ false
      → eqb_ℤ h.num_acknowledged (pos (length h.history)) ≡ false
      → (return_unacked_sources_to_queue h ≡ some h) × (pop_acked_source_stats h ≡ none)
  unfolding return_unacked_sources_to_queue pop_acked_source_stats
  pop_acked-return_unacked_stuck last e n i o b more =
      elim (set_checkpoint_and_return_to_queue_lem (closing h) false h well.not_negative
        (omega arith)) [
          | inl (bad, same) ↦ (rw same refl, rw more refl)
          | inr (good, rest) ↦ absurd (
              cc (
                or_right (ltb_ℤ (pos (length h.history)) h.num_acknowledged)
                  (contradicts h.last_checkpoint (closing h)) conflict good))
        ]
    where
      conflict : contradicts h.last_checkpoint (closing h) ≡ true
      conflict = rw (e, n, i, o) (ground arith)
