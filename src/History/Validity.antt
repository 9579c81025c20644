-- ===== src/History/Validity.antt =====
-- When a checkpoint is accepted: `validateCheckpoint`.
use wdt.Common.{◌≡◌, Bool, not, some, arith}
use wdt.Common.{if◌then◌else◌, ◌&&◌, ◌||◌}
use wdt.Common.Int.{pos, ltb_ℤ, eqb_ℤ, ◌≤ℤ◌}
use wdt.ErrorCodes.{ok_code, invalid_checkpoint, no_progress}
use wdt.Protocol.{Checkpoint}
use wdt.History.{validate_checkpoint, same_block}

-- The two are the same place, with the same or another number of bytes.
abbrev pub same_count : Checkpoint → Checkpoint → Bool
same_count c last = eqb_ℤ c.num_blocks last.num_blocks

abbrev pub same_bytes : Checkpoint → Checkpoint → Bool
same_bytes c last = eqb_ℤ c.last_block_received_bytes last.last_block_received_bytes

-- Fewer blocks than before, or another number of bytes of the same block.
abbrev pub is_contradiction : Checkpoint → Checkpoint → Bool
is_contradiction last c =
    ltb_ℤ c.num_blocks last.num_blocks
    || (same_count c last && (same_block c last && not (same_bytes c last)))

-- As many blocks as before, and the same place or nothing of another block.
abbrev pub is_standstill : Checkpoint → Checkpoint → Bool
is_standstill last c =
    same_count c last
    && ((same_block c last && same_bytes c last)
        || (not (same_block c last) && eqb_ℤ c.last_block_received_bytes (pos 0)))

pub validate_checkpoint_lem :
    (last c : Checkpoint) (global : Bool)
    → pos 0 ≤ℤ c.last_block_received_bytes
    → validate_checkpoint (some last) c global
      ≡ some (
          if is_contradiction last c
          then invalid_checkpoint
          else if is_standstill last c && not global
          then no_progress
          else ok_code)
unfolding validate_checkpoint
validate_checkpoint_lem last c global h = ground arith
