-- ===== src/Examples/Histories.antt =====
-- The theorems on the transfer history at concrete inputs.
use wdt.Common.{ℕ, ◌≡◌, refl, ◌⊎◌, true, false, Option, none, some, [], ◌∷◌, arith}
use wdt.Common.Int.{pos}
use wdt.ErrorCodes.{ok_code, invalid_checkpoint}
use wdt.Protocol.{Checkpoint, new_checkpoint}
use wdt.History.{TransferStats, ByteSource, History, new_history}
use wdt.History.{set_checkpoint_and_return_to_queue}
use wdt.History.Applied.{is_rejected, verdict, Applied, set_checkpoint_and_return_to_queue_lem}
use wdt.History.Operations.{add_source, return_unacked_sources_to_queue, pop_acked_source_stats}
use wdt.History.Operations.Bounds.{IsWellFormed, Reachable, Step, Reachable-IsWellFormed}
use wdt.History.Operations.Finish.{pop_acked-return_unacked_stuck}

abbrev stats : TransferStats
stats = record {
  effective_header_bytes = pos 20;
  effective_data_bytes = pos 100;
  num_blocks = pos 1;
  failed_attempts = pos 0;
  local_err_code = ok_code;
}

abbrev block : ℕ → ByteSource
block seq_id = record {
  identifier = 97 ∷ [];
  seq_id = pos seq_id;
  offset = pos 0;
  size = pos 100;
  transfer_stats = stats;
}

-- Two blocks were sent and one is acknowledged.
abbrev sent_two : Option Checkpoint → ℕ → History
sent_two last acked = record {
  history = block 2 ∷ block 1 ∷ [];
  global_checkpoint = false;
  num_acknowledged = pos acked;
  last_checkpoint = last;
  in_use = true;
  thread_stats = stats;
  queue = [];
}

abbrev half : Checkpoint
half = record new_checkpoint {
  num_blocks = pos 1;
  last_block_seq_id = pos 2;
  last_block_received_bytes = pos 40;
  has_seq_id = true;
}

-- As a receiver without sequence numbers sends it.
abbrev half_old : Checkpoint
half_old = record new_checkpoint { num_blocks = pos 1; last_block_received_bytes = pos 40 }

set_checkpoint_and_return_to_queue_example :
    ((is_rejected (sent_two none 0) half ≡ true)
      × (set_checkpoint_and_return_to_queue half false (sent_two none 0)
          ≡ some (invalid_checkpoint, sent_two none 0)))
    ⊎ ((is_rejected (sent_two none 0) half ≡ false)
        × ((h' : History) × (set_checkpoint_and_return_to_queue half false (sent_two none 0)
              ≡ some (verdict none half false, h'))
            × Applied half false (sent_two none 0) h'))
set_checkpoint_and_return_to_queue_example =
    set_checkpoint_and_return_to_queue_lem half false (sent_two none 0) (omega arith) (omega arith)

Reachable-IsWellFormed_example : IsWellFormed (add_source (block 1) (new_history stats)).1
Reachable-IsWellFormed_example =
    Reachable-IsWellFormed stats (add_source (block 1) (new_history stats)).1
      (Reachable.next Reachable.start (Step.added (block 1) refl))

half_old-IsWellFormed : IsWellFormed (sent_two (some half_old) 1)
half_old-IsWellFormed = record {
  not_negative = omega arith;
  sent = omega arith;
  covered = (record { count = omega arith; bytes = omega arith }, omega arith);
}

pop_acked-return_unacked_stuck_example :
    (return_unacked_sources_to_queue (sent_two (some half_old) 1)
      ≡ some (sent_two (some half_old) 1))
    × (pop_acked_source_stats (sent_two (some half_old) 1) ≡ none)
pop_acked-return_unacked_stuck_example =
    pop_acked-return_unacked_stuck (sent_two (some half_old) 1) half_old-IsWellFormed half_old refl
      refl refl refl refl refl
