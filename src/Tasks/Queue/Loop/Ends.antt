-- ===== src/Tasks/Queue/Loop/Ends.antt =====
-- When the loops of infra/ScheduledTaskQueue.cpp's thread end.
use smyte_db.Prelude.{
  ℕ, zero, suc, ◌+◌, ◌<◌, ◌≡◌, refl, ap, ◌∙◌, inl, inr, List, Bool, false, Option, none, some, ◌==◌,
  if◌then◌else◌, arith, Bool-cases, ==_iff, subst,
}
use smyte_db.Prelude.Int.{ℤ, pos, ◌+ℤ◌}
use smyte_db.Endian.{Endian}
use smyte_db.RocksDb.{RocksDb}
use smyte_db.Tasks.{ScheduledTask}
use smyte_db.Tasks.Queue.{batch_processing}
use smyte_db.Tasks.Queue.Loop.{Ran, aborted, running, done, and_then, Queue, exhaust, execute}

-- A loop that is not left running by its fuel.
abbrev pub Ends : {S : Type 0} → Ran S → Type 0
Ends aborted = Unit
Ends (running s) = ⊥
Ends (done s) = Unit

and_then-Ends :
    {S : Type 0} (r : Ran S) (f : S → Ran S) → Ends r → ((s : S) → Ends (f s)) → Ends (and_then r f)
and_then-Ends aborted f h g = tt
and_then-Ends (running s) f h g = absurd h
and_then-Ends (done s) f h g = g s

add_zero : (k : ℕ) → k + 0 ≡ k
add_zero k = omega arith

add_one : (k n : ℕ) → k + suc n ≡ suc k + n
add_one k n = omega arith

module _ (e : Endian) (rocks : RocksDb) (column_family : rocks.Family)
    (process : List ScheduledTask → rocks.Batch → List ScheduledTask × rocks.Batch)
    (batch_size : ℕ) where
  abbrev Q : Type 0
  Q = Queue e rocks column_family process batch_size

  -- Every full batch leaves less to do.
  abbrev pub Shrinks : (Q → ℕ) → ℤ → Type 0
  Shrinks left max_timestamp_ms =
      (s s' : Q)
      → batch_processing e rocks column_family process batch_size s max_timestamp_ms
        ≡ some (batch_size, s')
      → left s' < left s

  -- If every full batch leaves less to do, as many rounds are enough, and one more.
  pub exhaust-Ends :
      (left : Q → ℕ) (max_timestamp_ms : ℤ)
      → Shrinks left max_timestamp_ms
      → (n : ℕ) (s : Q) → left s < n
      → Ends (exhaust e rocks column_family process batch_size max_timestamp_ms n s)
  unfolding exhaust
  exhaust-Ends left max_timestamp_ms shrinks zero s h = absurd (omega (arith, h))
  exhaust-Ends left max_timestamp_ms shrinks (suc n) s h =
      behind (batch_processing e rocks column_family process batch_size s max_timestamp_ms) refl
        (λ s' g. exhaust-Ends left max_timestamp_ms shrinks n s' g)
    where
      behind :
          (r : Option (ℕ × Q))
          → batch_processing e rocks column_family process batch_size s max_timestamp_ms ≡ r
          → ((s' : Q)
              → left s' < n
              → Ends (exhaust e rocks column_family process batch_size max_timestamp_ms n s'))
          → Ends (elim r [
            | none ↦ aborted
            | some (count, s') ↦
                if count == batch_size
                then exhaust e rocks column_family process batch_size max_timestamp_ms n s'
                else done s'
          ])
      behind none f ih = tt
      behind (some (count, s')) f ih = elim (Bool-cases (count == batch_size)) [
        | inr less ↦ rw less tt
        | inl full ↦
            let same = (==_iff count batch_size).0 full in
            rw full (ih s' (omega (arith, h, shrinks s s' (f ∙ ap (λ k. some (k, s')) same))))
      ]

  -- A full batch that changes nothing is repeated for ever, whatever run_ says.
  pub exhaust_stuck :
      (max_timestamp_ms : ℤ) (n : ℕ) (s : Q)
      → batch_processing e rocks column_family process batch_size s max_timestamp_ms
        ≡ some (batch_size, s)
      → exhaust e rocks column_family process batch_size max_timestamp_ms n s ≡ running s
  unfolding exhaust
  exhaust_stuck max_timestamp_ms zero s f = refl
  exhaust_stuck max_timestamp_ms (suc n) s f =
      let same = (==_iff batch_size batch_size).1 refl in
      rw (f, exhaust) (rw same (exhaust_stuck max_timestamp_ms n s f))

  -- The thread ends at the latest in the round that finds run_ reset, if the batches of each round do.
  pub execute-Ends :
      (run : ℕ → Bool) (clock : ℕ → ℤ) (batches : ℕ)
      → ((max_timestamp_ms : ℤ) (s : Q)
          → Ends (exhaust e rocks column_family process batch_size max_timestamp_ms batches s))
      → (n round : ℕ) (s : Q) → run (round + n) ≡ false
      → Ends (execute e rocks column_family process batch_size run clock batches (suc n) round s)
  unfolding execute
  execute-Ends run clock batches ends zero round s reset =
      let at_round : run round ≡ false = subst (λ k. run k ≡ false) (add_zero round) reset in
      rw at_round tt
  execute-Ends run clock batches ends (suc n) round s reset = elim (Bool-cases (run round)) [
    | inr now ↦ rw now tt
    | inl set ↦ rw set (
        and_then-Ends
          (exhaust e rocks column_family process batch_size (clock round +ℤ pos 1) batches s)
          (λ s'.
            execute e rocks column_family process batch_size run clock batches (suc n) (suc round)
              s')
          (ends (clock round +ℤ pos 1) s)
          (λ s'.
            execute-Ends run clock batches ends n (suc round) s'
              (subst (λ k. run k ≡ false) (add_one round n) reset)))
  ]
