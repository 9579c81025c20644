-- ===== src/SourceQueue/Operations/Taken.antt =====
-- Which source a thread gets from the queue.
use wdt.Common.{
  ◌≡◌, refl, sym, ap, ◌∙◌, Bool, true, false, not, List, [], ◌∷◌, ◌++◌, append-nil, append_assoc,
  All, if◌then◌else◌,
}
use wdt.Common.Int.{pos, ◌+ℤ◌}
use wdt.ErrorCodes.{ErrorCode, ok_code, error}
use wdt.SourceQueue.{FileByteSource, SourceQueue}
use wdt.SourceQueue.Operations.{
  NextSource, waits, no_source, next_source, take_source, get_next_source, has_failures,
}

-- The status, once these sources have failed too.
abbrev pub status_behind : SourceQueue → ErrorCode
status_behind q = if has_failures q then error else ok_code

-- The queue without these sources at its front, which have failed.
abbrev pub skip : List FileByteSource → List FileByteSource → SourceQueue → SourceQueue
skip skipped rest q = record q { source_queue = rest; failed_sources = q.failed_sources ++ skipped }

pub data TakeEnds (opens : FileByteSource → Bool) (queue : List FileByteSource) (q : SourceQueue)
    (r : NextSource) : Type 0 where
  found :
      (skipped rest : List FileByteSource) (s : FileByteSource)
      → queue ≡ skipped ++ s ∷ rest
      → All (λ (t : FileByteSource). opens t ≡ false) skipped
      → opens s ≡ true
      → (let q' = skip skipped rest q in
          r
          ≡ next_source
              (status_behind q')
              s
              (record q' { num_blocks_dequeued = q.num_blocks_dequeued +ℤ pos 1 }))
      → TakeEnds opens queue q r
  none_left :
      All (λ (t : FileByteSource). opens t ≡ false) queue
      → q.init_finished ≡ true
      → r ≡ no_source (status_behind (skip queue [] q)) (skip queue [] q)
      → TakeEnds opens queue q r
  stuck :
      All (λ (t : FileByteSource). opens t ≡ false) queue
      → q.init_finished ≡ false
      → r ≡ waits (skip queue [] q)
      → TakeEnds opens queue q r

module _ (opens : FileByteSource → Bool) where
  take_source_lem :
      (queue : List FileByteSource) (q : SourceQueue)
      → TakeEnds opens queue q (take_source opens queue q)
  unfolding take_source
  take_source_lem [] q = by_init q.init_finished refl
    where
      none_more : record q { source_queue = [] } ≡ skip [] [] q
      none_more =
          ap (λ (l : List FileByteSource). record q { source_queue = []; failed_sources = l })
            (sym (append-nil q.failed_sources))

      by_init :
          (b : Bool)
          → q.init_finished ≡ b
          → TakeEnds opens [] q (
              if not b
              then waits (record q { source_queue = [] })
              else no_source (status_behind q) (record q { source_queue = [] }))
      by_init true e =
          none_left tt e (ap (λ (x : SourceQueue). no_source (status_behind x) x) none_more)
      by_init false e = stuck tt e (ap waits none_more)
  take_source_lem (s ∷ queue) q =
      by_open (opens s) refl
        (take_source_lem queue (record q { failed_sources = q.failed_sources ++ s ∷ [] }))
    where
      q₁ : SourceQueue
      q₁ = record q { failed_sources = q.failed_sources ++ s ∷ [] }

      skip_one :
          (skipped rest : List FileByteSource) → skip skipped rest q₁ ≡ skip (s ∷ skipped) rest q
      skip_one skipped rest =
          ap (λ (l : List FileByteSource). record q { source_queue = rest; failed_sources = l })
            (append_assoc q.failed_sources (s ∷ []) skipped)

      more :
          (r : NextSource)
          → opens s ≡ false
          → TakeEnds opens queue q₁ r
          → TakeEnds opens (s ∷ queue) q r
      more r e (found skipped rest t split all opened g) =
          found (s ∷ skipped) rest t (ap (◌∷◌ s) split) (e, all) opened
            (g
              ∙ ap
                  (λ (x : SourceQueue).
                    next_source (status_behind x) t
                      (record x { num_blocks_dequeued = q.num_blocks_dequeued +ℤ pos 1 }))
                  (skip_one skipped rest))
      more r e (none_left all f g) =
          none_left (e, all) f
            (g ∙ ap (λ (x : SourceQueue). no_source (status_behind x) x) (skip_one queue []))
      more r e (stuck all f g) = stuck (e, all) f (g ∙ ap waits (skip_one queue []))

      at_once : record q { source_queue = queue } ≡ skip [] queue q
      at_once =
          ap (λ (l : List FileByteSource). record q { source_queue = queue; failed_sources = l })
            (sym (append-nil q.failed_sources))

      by_open :
          (b : Bool)
          → opens s ≡ b
          → TakeEnds opens queue q₁ (take_source opens queue q₁)
          → TakeEnds opens (s ∷ queue) q (
              if b
              then next_source (status_behind q) s (record q {
                source_queue = queue;
                num_blocks_dequeued = q.num_blocks_dequeued +ℤ pos 1;
              })
              else take_source opens queue q₁)
      by_open true e ends = found [] queue s refl tt e (
          ap
            (λ (x : SourceQueue).
              next_source (status_behind x) s
                (record x { num_blocks_dequeued = q.num_blocks_dequeued +ℤ pos 1 }))
            at_once)
      by_open false e ends = more _ e ends

  -- `getNextSource` takes the first source of the queue that opens and counts it as dequeued; those
  -- ahead of it go to the failed sources, in their order, and no source is lost or taken twice. Where
  -- none opens, all have failed, and the thread gets none, or waits while files are still being
  -- discovered. The status tells of the failures behind these.
  pub get_next_source_lem :
      (q : SourceQueue) → TakeEnds opens q.source_queue q (get_next_source opens q)
  unfolding get_next_source
  get_next_source_lem q = take_source_lem q.source_queue q
