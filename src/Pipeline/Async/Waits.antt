-- ===== src/Pipeline/Async/Waits.antt =====
-- WAITFORCOMMIT of pipeline/RedisHandler.cpp.
use smyte_db.Prelude.{
  ℕ, zero, suc, ◌+◌, ◌<◌, ◌≡◌, refl, ap, true, false, Option, some, arith, subst,
}
use smyte_db.Prelude.Int.{ℤ, leb_ℤ}
use smyte_db.Pipeline.Table.{simple_string_ok}
use smyte_db.Pipeline.Async.{wait_loop, waited, wait_for_commit_command}

-- A round finds that no more than the offset was committed.
abbrev pub AwaitsAt : (ℕ → Option ℤ) → ℤ → ℕ → Type 0
AwaitsAt committed offset round =
    (last : ℤ) × (committed round ≡ some last) × (leb_ℤ last offset ≡ true)

wait_loop_terminates :
    (committed : ℕ → Option ℤ) (offset last : ℤ) (n round : ℕ)
    → ((i : ℕ) → i < n → AwaitsAt committed offset (round + i))
    → committed (round + n) ≡ some last
    → leb_ℤ last offset ≡ false
    → wait_loop (suc n) committed offset round ≡ some (round + n)
unfolding wait_loop
wait_loop_terminates committed offset last zero round waits now beyond =
    let e : round + 0 ≡ round = omega arith in
    let now' : committed round ≡ some last = subst (λ k. committed k ≡ some last) e now in
    rw (wait_loop, now', beyond, e) refl
wait_loop_terminates committed offset last (suc n) round waits now beyond =
    let e : round + suc n ≡ suc round + n = omega arith in
    let e' : round + 0 ≡ round = omega arith in
    let (first, read, behind) = waits 0 (omega arith) in
    let read' : committed round ≡ some first = subst (λ k. committed k ≡ some first) e' read in
    rw (wait_loop, read', behind, e)
      (wait_loop_terminates committed offset last n (suc round)
        (λ i h. subst (AwaitsAt committed offset) (shift i) (waits (suc i) (omega (arith, h))))
        (subst (λ k. committed k ≡ some last) e now) beyond)
  where
    shift : (i : ℕ) → round + suc i ≡ suc round + i
    shift i = omega arith

-- WAITFORCOMMIT for a linked consumer is answered by OK once more than the offset was committed: if n rounds find less and the
-- next finds more, n + 1 rounds are enough.
pub wait_for_commit_command_terminates :
    (committed : ℕ → Option ℤ) (partition offset last : ℤ) (n : ℕ)
    → ((i : ℕ) → i < n → AwaitsAt committed offset i)
    → committed n ≡ some last
    → leb_ℤ last offset ≡ false
    → wait_for_commit_command (suc n) true (some partition) (some offset) committed
      ≡ some simple_string_ok
unfolding wait_for_commit_command
wait_for_commit_command_terminates committed partition offset last n waits now beyond = ap waited (
    wait_loop_terminates committed offset last n 0
      (λ i h. subst (AwaitsAt committed offset) (from_zero i) (waits i h))
      (subst (λ k. committed k ≡ some last) (from_zero n) now) beyond)
  where
    from_zero : (i : ℕ) → i ≡ 0 + i
    from_zero i = omega arith
