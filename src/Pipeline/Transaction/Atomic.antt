-- ===== src/Pipeline/Transaction/Atomic.antt =====
-- EXEC of pipeline/TransactionalRedisHandler.cpp as one write or none. The commands are those whose
-- handlers change only the write batch.
use smyte_db.Prelude.{
  ℕ, ◌≡◌, refl, inl, inr, List, [], ◌∷◌, Bool, true, false, not, ◌&&◌, ◌||◌, Option, none, some,
  All, arith, Bool-cases, ltb, if◌then◌else◌, ◌++◌, codes,
}
use smyte_db.Prelude.Int.{ℤ}
use smyte_db.Codec.Value.{RedisValue, RedisMessage, error, Values, nil, cons, array, is_error}
use smyte_db.Pipeline.Table.{Command, error_message}
use smyte_db.Pipeline.Transaction.{
  Store, State, Handler, run_queued, write_result, finish_exec, exec,
}

module _ {World Batch : Type 0} where
  -- The handler leaves the world alone.
  abbrev pub BatchOnly : Handler World Batch × Command → Type 0
  BatchOnly (h, cmd) = (b : Batch) (w : World) → (h cmd b w).2 ≡ w

  -- The queued commands one after the other on one world: whether all succeed, their results, and
  -- the batch that they leave.
  unfoldable pub all_succeed : List (Handler World Batch × Command) → Batch → World → Bool
  all_succeed [] b w = true
  all_succeed ((h, cmd) ∷ q) b w =
      let rest = all_succeed q (h cmd b w).1 w in not (is_error (h cmd b w).0) && rest

  unfoldable pub results_of : List (Handler World Batch × Command) → Batch → World → Values
  results_of [] b w = nil
  results_of ((h, cmd) ∷ q) b w = cons (h cmd b w).0 (results_of q (h cmd b w).1 w)

  unfoldable pub batch_of : List (Handler World Batch × Command) → Batch → World → Batch
  batch_of [] b w = b
  batch_of ((h, cmd) ∷ q) b w = batch_of q (h cmd b w).1 w

module _ {World Batch : Type 0} (db : Store World Batch) where
  open db use {empty_batch, count, write}

  run-All :
      (q : List (Handler World Batch × Command)) (b : Batch) (w : World)
      → All BatchOnly q
      → all_succeed q b w ≡ true
      → run_queued db q b w ≡ (some (results_of q b w), batch_of q b w, w)
  unfolding run_queued all_succeed results_of batch_of
  run-All [] b w p h = refl
  run-All ((f, cmd) ∷ q) b w p h = elim (Bool-cases (is_error (f cmd b w).0)) [
    | inl bad ↦ absurd (impossible (is_error (f cmd b w).0) _ bad h)
    | inr good ↦
        let ih = run-All q (f cmd b w).1 w p.1 (second (is_error (f cmd b w).0) _ good h) in
        rw (p.0 b w, good) (rw ih refl)
  ]
    where
      impossible : (x y : Bool) → x ≡ true → (not x && y) ≡ true → ⊥
      impossible x y e h = ground arith

      second : (x y : Bool) → x ≡ false → (not x && y) ≡ true → y ≡ true
      second x y e h = ground arith

  run_some_fail :
      (q : List (Handler World Batch × Command)) (b : Batch) (w : World)
      → All BatchOnly q
      → all_succeed q b w ≡ false
      → ((run_queued db q b w).0 ≡ none) × ((run_queued db q b w).2 ≡ w)
  unfolding run_queued all_succeed
  run_some_fail [] b w p h = absurd (ground arith)
  run_some_fail ((f, cmd) ∷ q) b w p h = elim (Bool-cases (is_error (f cmd b w).0)) [
    | inl bad ↦ rw bad (refl, p.0 b w)
    | inr good ↦
        let ih = run_some_fail q (f cmd b w).1 w p.1 (second (is_error (f cmd b w).0) _ good h) in
        rw (p.0 b w, good) (rw ih.0 (refl, ih.1))
  ]
    where
      second : (x y : Bool) → x ≡ false → (not x && y) ≡ false → y ≡ false
      second x y e h = ground arith

  -- A batch that is not empty is written.
  abbrev pub world_after : Batch → World → World
  world_after batch w = if ltb 0 (count batch) then (write batch w).1 else w

  -- The reply for a status of the database.
  abbrev pub answer : RedisValue → Option (List ℕ) → RedisValue
  answer value none = value
  answer value (some text) = error (codes "RocksDB error: " ++ text)

  abbrev pub reply_after : RedisValue → Batch → World → RedisValue
  reply_after value batch w = if ltb 0 (count batch) then answer value (write batch w).0 else value

  by_status :
      (key : ℤ) (value : RedisValue) (r : Option (List ℕ) × World)
      → ◌≡◌ {A = World × List RedisMessage}
          (elim r.0 [
            | none ↦ (r.1, record { key = key; val = value } ∷ [])
            | some text ↦ (r.1, error_message key (codes "RocksDB error: " ++ text) ∷ [])
          ])
          (r.1, record { key = key; val = answer value r.0 } ∷ [])
  by_status key value (none, w) = refl
  by_status key value (some text, w) = refl

  write_result_lem :
      (key : ℤ) (value : RedisValue) (batch : Batch) (w : World)
      → write_result db key value batch w
        ≡ (world_after batch w, record { key = key; val = reply_after value batch w } ∷ [])
  unfolding write_result
  write_result_lem key value batch w = elim (Bool-cases (ltb 0 (count batch))) [
    | inl updates ↦ rw updates (by_status key value (write batch w))
    | inr nothing ↦ rw nothing refl
  ]

  -- EXEC in a transaction without an earlier error, all of whose queued handlers change only the
  -- batch and return no error: the one batch of all commands in their order is passed to the
  -- database, and the world is as this one write leaves it; if the batch is empty, there is no write
  -- and the world stays as it was. The one reply is the array of all results, or, if the write fails,
  -- the error of the database.
  pub exec_commits :
      (s : State World Batch) (w : World) (key : ℤ)
      → s.in_transaction ≡ true
      → s.error_encountered ≡ false
      → All BatchOnly s.queued_commands
      → all_succeed s.queued_commands empty_batch w ≡ true
      → let batch = batch_of s.queued_commands empty_batch w in
        let results = array (results_of s.queued_commands empty_batch w) in
        exec db s w key
        ≡ (world_after batch w, record { key = key; val = reply_after results batch w } ∷ [])
  unfolding exec finish_exec
  exec_commits s w key t e p h =
      rw (t, e)
        (rw (run-All s.queued_commands empty_batch w p h) (
          write_result_lem key (array (results_of s.queued_commands empty_batch w))
            (batch_of s.queued_commands empty_batch w) w))

  -- EXEC in a transaction all of whose queued handlers change only the batch, after an earlier error
  -- or with a command that returns one: the world stays as it was, and the one reply is an error.
  pub exec_aborts :
      (s : State World Batch) (w : World) (key : ℤ)
      → s.in_transaction ≡ true
      → All BatchOnly s.queued_commands
      → (s.error_encountered || not (all_succeed s.queued_commands empty_batch w)) ≡ true
      → ((exec db s w key).0 ≡ w)
        × ((text : List ℕ) × ((exec db s w key).1 ≡ error_message key text ∷ []))
  unfolding exec finish_exec
  exec_aborts s w key t p h = elim (Bool-cases s.error_encountered) [
    | inl earlier ↦ rw (t, earlier) (refl, (_, refl))
    | inr none_yet ↦
        let r =
          run_some_fail s.queued_commands empty_batch w p
            (failed s.error_encountered (all_succeed s.queued_commands empty_batch w) none_yet h) in
        rw (t, none_yet) (after_loop (run_queued db s.queued_commands empty_batch w) r.0 r.1)
  ]
    where
      failed : (x y : Bool) → x ≡ false → (x || not y) ≡ true → y ≡ false
      failed x y e h = ground arith

      after_loop :
          (r : Option Values × Batch × World)
          → r.0 ≡ none
          → r.2 ≡ w
          → ((finish_exec db key r).0 ≡ w)
            × ((text : List ℕ) × ((finish_exec db key r).1 ≡ error_message key text ∷ []))
      after_loop (none, b, w') e f = (f, (_, refl))
      after_loop (some vs, b, w') e f = absurd (cc)
