-- ===== src/History/Failures.antt =====
-- The sources that a checkpoint leaves unacknowledged: the loop of `setCheckpointAndReturnToQueue`.
use wdt.Common.{ℕ, zero, suc, ◌≤◌, ◌≡◌, refl, ap, true, Option, none, some}
use wdt.Common.{List, [], ◌∷◌, length, take, drop, arith, if◌then◌else◌, ◌==◌, Bool-cases, inl, inr}
use wdt.Common.Int.{ℤ, pos, pos_part, neg_part, ◌+ℤ◌, ◌-ℤ◌, +ℤ_parts, -ℤ_parts, eq_of_parts}
use wdt.ErrorCodes.{code}
use wdt.Protocol.{Checkpoint}
use wdt.History.{
  TransferStats, ByteSource, Returning, mark_source_as_failed, fail_sources, is_failed,
}
use wdt.History.{received_bytes}

-- What a source is when it comes back to the queue: the same block of the same file, shorter at its
-- front by what the receiver has, and marked as failed.
pub record IsReturned (source source' : ByteSource) : Type 0 where
  pub identifier : source'.identifier ≡ source.identifier
  pub seq_id : source'.seq_id ≡ source.seq_id
  pub end : source'.offset +ℤ source'.size ≡ source.offset +ℤ source.size
  pub failed : is_failed source'.transfer_stats ≡ true

same_end : (offset size received : ℤ) → (offset +ℤ received) +ℤ (size -ℤ received) ≡ offset +ℤ size
same_end offset size received = eq_of_parts _ _ (
    omega (
      arith,
      +ℤ_parts offset received,
      -ℤ_parts size received,
      +ℤ_parts (offset +ℤ received) (size -ℤ received),
      +ℤ_parts offset size,
    ))

moved_add : (a b c : ℤ) → (a +ℤ b) +ℤ c ≡ a +ℤ (c +ℤ b)
moved_add a b c =
    eq_of_parts _ _
      (omega (arith, +ℤ_parts a b, +ℤ_parts (a +ℤ b) c, +ℤ_parts c b, +ℤ_parts a (c +ℤ b)))

moved_sub : (a b c : ℤ) → (a -ℤ b) +ℤ c ≡ a +ℤ (c -ℤ b)
moved_sub a b c =
    eq_of_parts _ _
      (omega (arith, -ℤ_parts a b, +ℤ_parts (a -ℤ b) c, -ℤ_parts c b, +ℤ_parts a (c -ℤ b)))

module _ (source : ByteSource) (checkpoint : Option Checkpoint) (stats : TransferStats) where
  mark-IsReturned : IsReturned source (mark_source_as_failed source checkpoint stats).0
  unfolding mark_source_as_failed code
  mark-IsReturned = elim (Bool-cases (is_failed source.transfer_stats)) [
    | inl again ↦ rw again (record {
      identifier = refl;
      seq_id = refl;
      end = same_end source.offset source.size (received_bytes source checkpoint);
      failed = again;
    })
    | inr first ↦ rw first (record {
      identifier = refl;
      seq_id = refl;
      end = same_end source.offset source.size (received_bytes source checkpoint);
      failed = refl;
    })
  ]

  -- The thread and the source are charged the same number of data bytes.
  mark_charges :
      let (source', stats') = mark_source_as_failed source checkpoint stats in
      stats'.effective_data_bytes +ℤ source.transfer_stats.effective_data_bytes
      ≡ stats.effective_data_bytes +ℤ source'.transfer_stats.effective_data_bytes
  unfolding mark_source_as_failed
  mark_charges = elim (Bool-cases (is_failed source.transfer_stats)) [
    | inl again ↦ rw again (moved_add _ _ _)
    | inr first ↦ rw first (moved_sub _ _ _)
  ]

-- The data bytes that a list of sources counts as sent.
abbrev pub data_sum : List ByteSource → ℤ
data_sum [] = pos 0
data_sum (source ∷ sources) = source.transfer_stats.effective_data_bytes +ℤ data_sum sources

-- The sources were put on top of the queue one by one.
abbrev pub Pushed : List ByteSource → List ByteSource → List ByteSource → Type 0
Pushed [] queue queue' = queue' ≡ queue
Pushed (source ∷ sources) queue queue' =
    (source' : ByteSource) × IsReturned source source' × Pushed sources (source' ∷ queue) queue'

-- What `n` rounds leave.
pub record Failed (n : ℕ) (w w' : Returning) : Type 0 where
  pub history : w'.history ≡ drop n w.history
  pub pushed : Pushed (take n w.history) w.sources_to_return w'.sources_to_return
  pub charged :
      w'.thread_stats.effective_data_bytes +ℤ (data_sum w.history +ℤ data_sum w.sources_to_return)
      ≡ w.thread_stats.effective_data_bytes
        +ℤ (data_sum w'.history +ℤ data_sum w'.sources_to_return)

rebalanced :
    (st st₁ st' s s' hs q h' q' : ℤ)
    → st₁ +ℤ s ≡ st +ℤ s'
    → st' +ℤ (hs +ℤ (s' +ℤ q)) ≡ st₁ +ℤ (h' +ℤ q')
    → st' +ℤ ((s +ℤ hs) +ℤ q) ≡ st +ℤ (h' +ℤ q')
rebalanced st st₁ st' s s' hs q h' q' mark rest = eq_of_parts _ _ (
    omega (
      arith,
      ap pos_part mark,
      ap neg_part mark,
      ap pos_part rest,
      ap neg_part rest,
      +ℤ_parts st₁ s,
      +ℤ_parts st s',
      +ℤ_parts s' q,
      +ℤ_parts hs (s' +ℤ q),
      +ℤ_parts st' (hs +ℤ (s' +ℤ q)),
      +ℤ_parts h' q',
      +ℤ_parts st₁ (h' +ℤ q'),
      +ℤ_parts s hs,
      +ℤ_parts (s +ℤ hs) q,
      +ℤ_parts st' ((s +ℤ hs) +ℤ q),
      +ℤ_parts st (h' +ℤ q'),
    ))

-- With enough sources the loop ends well.
pub fail_sources-Failed :
    (n : ℕ) (c : Checkpoint) (history : List ByteSource) (stats : TransferStats)
    (queue : List ByteSource)
    → n ≤ length history
    → let w : Returning = record {
      history = history;
      thread_stats = stats;
      sources_to_return = queue;
    } in
      (w' : Returning) × (fail_sources n c w ≡ some w') × Failed n w w'
unfolding fail_sources
fail_sources-Failed zero c history stats queue h =
    (_, refl, record { history = refl; pushed = refl; charged = refl })
fail_sources-Failed (suc n) c [] stats queue h = absurd (omega arith)
fail_sources-Failed (suc n) c (source ∷ sources) stats queue h =
    let checkpoint : Option Checkpoint = if n == 0 then some c else none in
    let marked = mark_source_as_failed source checkpoint stats in
    let (w', e, f) = fail_sources-Failed n c sources marked.1 (marked.0 ∷ queue) (omega arith) in
    (
      w',
      e,
      record {
        history = f.history;
        pushed = (marked.0, mark-IsReturned source checkpoint stats, f.pushed);
        charged =
            rebalanced stats.effective_data_bytes marked.1.effective_data_bytes
              w'.thread_stats.effective_data_bytes source.transfer_stats.effective_data_bytes
              marked.0.transfer_stats.effective_data_bytes (data_sum sources) (data_sum queue)
              (data_sum w'.history) (data_sum w'.sources_to_return)
              (mark_charges source checkpoint stats) f.charged;
      },
    )
