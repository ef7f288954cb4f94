-- ===== src/Pipeline/Async/Examples.antt =====
-- Commands that wait (pipeline/RedisHandler.cpp) on concrete offsets.
use smyte_db.Prelude.{ℕ, ◌≡◌, refl, true, Option, none, some}
use smyte_db.Prelude.Int.{ℤ, pos}
use smyte_db.Pipeline.Table.{simple_string_ok}
use smyte_db.Pipeline.Handler.{error_invalid_integer}
use smyte_db.Pipeline.Async.{wait_for_commit_command}

-- The offset that was committed grows by one in each round.
abbrev committed : ℕ → Option ℤ
committed round = some (pos round)

waits_test :
    wait_for_commit_command 4 true (some (pos 0)) (some (pos 2)) committed ≡ some simple_string_ok
unfolding wait_for_commit_command
waits_test = refl

not_an_integer_test :
    wait_for_commit_command 4 true none (some (pos 2)) committed ≡ some error_invalid_integer
unfolding wait_for_commit_command
not_an_integer_test = refl
