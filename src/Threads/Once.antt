-- ===== src/Threads/Once.antt =====
-- A function that is executed once is run by exactly one of the threads.
use wdt.Common.{
  ℕ, zero, suc, ◌+◌, ◌≤◌, ◌<◌, ◌≡◌, refl, ap, ◌∙◌, Bool, true, false, Option, none, some,
}
use wdt.Common.{List, [], ◌∷◌, ◌++◌, replicate, ◌==◌, if◌then◌else◌, arith, le→leb}
use wdt.Threads.{ExecuteOnce, new_execute_once, execute_once}

-- So many calls one after the other, and for each whether it ran the function.
abbrev together :
    (ExecuteOnce → Option (List Bool × ExecuteOnce))
    → Option (Bool × ExecuteOnce)
    → Option (List Bool × ExecuteOnce)
together more none = none
together more (some (ran, x)) = elim (more x) [
  | none ↦ none
  | some (rans, y) ↦ some (ran ∷ rans, y)
]

pub execute_times : ℕ → ExecuteOnce → Option (List Bool × ExecuteOnce)
execute_times zero x = some ([], x)
execute_times (suc n) x = together (execute_times n) (execute_once x)

abbrev after : ℕ → Bool → ℕ → ExecuteOnce
after hits first threads = record { num_hits = hits; exec_first = first; num_threads = threads }

one_call :
    (hits : ℕ) (first : Bool) (threads : ℕ)
    → hits < threads
    → execute_once (after hits first threads)
      ≡ some (hits + 1 == (if first then 1 else threads), after (hits + 1) first threads)
unfolding execute_once
one_call hits first threads h = rw (le→leb (hits + 1) threads (omega arith))

one_more :
    (n : ℕ) (x y z : ExecuteOnce) (ran : Bool) (rans : List Bool)
    → execute_once x ≡ some (ran, y)
    → execute_times n y ≡ some (rans, z)
    → execute_times (suc n) x ≡ some (ran ∷ rans, z)
unfolding execute_times
one_more n x y z ran rans e f = rw (e, f) refl

stopped :
    (hits m threads : ℕ) (first ran ran' : Bool) (rans : List Bool)
    → ran ≡ ran'
    → hits ≡ m
    → let r : Option (List Bool × ExecuteOnce) = some (ran ∷ rans, after hits first threads) in
      r ≡ some (ran' ∷ rans, after m first threads)
stopped hits m threads first ran ran' rans e f = λ i. some (e i ∷ rans, after (f i) first threads)

no_more :
    (n hits threads : ℕ)
    → 1 ≤ hits
    → hits + n ≤ threads
    → execute_times n (after hits true threads)
      ≡ some (replicate n false, after (hits + n) true threads)
no_more zero hits threads some_hit h =
    unfold execute_times in ap (λ (m : ℕ). some ([], after m true threads)) (omega arith)
no_more (suc n) hits threads some_hit h =
    one_more n _ _ _ _ _ (one_call hits true threads (omega arith))
      (no_more n (hits + 1) threads (omega arith) (omega arith))
    ∙ stopped (hits + 1 + n) (hits + suc n) threads true (hits + 1 == 1) false (replicate n false)
        (ground arith) (omega arith)

none_left : (x : ExecuteOnce) → execute_times 0 x ≡ some ([], x)
unfolding execute_times
none_left x = refl

only_last :
    (n hits threads : ℕ)
    → hits + suc n ≡ threads
    → execute_times (suc n) (after hits false threads)
      ≡ some (replicate n false ++ true ∷ [], after threads false threads)
only_last zero hits threads h =
    one_more 0 _ _ _ _ _ (one_call hits false threads (omega arith))
      (none_left (after (hits + 1) false threads))
    ∙ stopped (hits + 1) threads threads false (hits + 1 == threads) true [] (ground arith)
        (omega arith)
only_last (suc n) hits threads h =
    one_more (suc n) _ _ _ _ _ (one_call hits false threads (omega arith))
      (only_last n (hits + 1) threads (omega arith))
    ∙ stopped threads threads threads false (hits + 1 == threads) false
        (replicate n false ++ true ∷ []) (ground arith) refl

-- Called once by each of its threads, `ExecuteOnceFunc` passes its check every time and runs the
-- function exactly once: at the first call, or at the last.
pub execute_times_once :
    (n : ℕ) (first : Bool)
    → (x : ExecuteOnce) × (execute_times (suc n) (new_execute_once (suc n) first)
        ≡ some (if first then true ∷ replicate n false else replicate n false ++ true ∷ [], x))
execute_times_once n true = (
  after (suc n) true (suc n),
  one_more n _ _ _ _ _ (one_call 0 true (suc n) (omega arith))
        (no_more n (0 + 1) (suc n) (omega arith) (omega arith))
      ∙ stopped (0 + 1 + n) (suc n) (suc n) true (0 + 1 == 1) true (replicate n false) refl
          (omega arith),
)
execute_times_once n false = (_, only_last n 0 (suc n) (omega arith))
