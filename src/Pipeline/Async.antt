-- ===== src/Pipeline/Async.antt =====
-- pipeline/AsyncRedisHandler.h: handlers that get the key of the request, and the default commands among
-- them; and the two commands of pipeline/RedisHandler.cpp that wait, SLEEP and WAITFORCOMMIT. The
-- name of a default command is looked up again when it is called: `none` is a read past the end of the table.
pub mod Merged
pub mod Waits
mod Examples
use smyte_db.Prelude.{
  ℕ, zero, suc, List, [], ◌∷◌, Bool, true, false, Option, none, some, if◌then◌else◌, codes, map,
}
use smyte_db.Prelude.Int.{ℤ, leb_ℤ}
use smyte_db.Codec.Value.{RedisValue, error}
use smyte_db.Pipeline.Table.{
  Command, CommandHandler, Table, find, insert_all, validate_arg_count, wrong_num_args,
  error_message, simple_string_ok,
}
use smyte_db.Pipeline.Handler.{
  Func, Handled, to_lower, process_command_handler_result, error_invalid_integer,
}
use smyte_db.Kafka.Offsets.{Helper}

-- AsyncCommandHandlerFunc; a sync one may fail as said above.
abbrev pub AsyncFunc : Type 0 → Type 0
AsyncFunc World = ℤ → Command → World → Option (RedisValue × World)

module _ {World : Type 0} (base : Table (CommandHandler (Func World))) where
  abbrev pub call_base :
      Command → World → Option (CommandHandler (Func World)) → Option (RedisValue × World)
  call_base cmd world none = none
  call_base cmd world (some entry) = some (entry.handler_func cmd world)

  unfoldable pub handle_sync_command : AsyncFunc World
  handle_sync_command key [] world = none
  handle_sync_command key (name ∷ args) world =
      call_base (name ∷ args) world (find (map to_lower name) base)

  -- A default command with the signature of an async one.
  abbrev pub as_async :
      Table (CommandHandler (Func World)) → Table (CommandHandler (AsyncFunc World))
  as_async [] = []
  as_async ((name, entry) ∷ entries) =
      (
        name,
        record {
          handler_func = handle_sync_command;
          min_args = entry.min_args;
          max_args = entry.max_args;
        },
      )
      ∷ as_async entries

  unfoldable pub merge_with_default_async :
      Table (CommandHandler (AsyncFunc World)) → Table (CommandHandler (AsyncFunc World))
  merge_with_default_async new_table = insert_all new_table (as_async base)

  abbrev pub finish : ℤ → Option (RedisValue × World) → Option (Handled World)
  finish key none = none
  finish key (some (result, world)) = process_command_handler_result true base key result world

  -- handleCommand behind the look-up.
  abbrev pub call_async :
      ℤ
      → List ℕ
      → Command
      → World
      → Option (CommandHandler (AsyncFunc World))
      → Option (Handled World)
  call_async key name cmd world none = some (record { world = world; written = []; known = false })
  call_async key name cmd world (some entry) =
      if validate_arg_count cmd entry.min_args entry.max_args
      then finish key (entry.handler_func key cmd world)
      else some (record {
        world = world;
        written = error_message key (wrong_num_args name) ∷ [];
        known = true;
      })

  unfoldable pub handle_command :
      Table (CommandHandler (AsyncFunc World))
      → ℤ
      → List ℕ
      → Command
      → World
      → Option (Handled World)
  unfolding handle_sync_command process_command_handler_result
  handle_command table key name cmd world = call_async key name cmd world (find name table)

-- SLEEP, with the conversion of its argument.
unfoldable pub sleep_command : Option ℤ → RedisValue
sleep_command none = error_invalid_integer
sleep_command (some sleep_ms) = simple_string_ok

-- The loop of WAITFORCOMMIT: what each round reads of the last committed offset, `none` if the offset's key is not linked.
-- The result holds the number of waits; `none` also is a loop that goes on.
unfoldable pub wait_loop : ℕ → (ℕ → Option ℤ) → ℤ → ℕ → Option ℕ
wait_loop zero committed offset round = none
wait_loop (suc fuel) committed offset round =
    let rest = wait_loop fuel committed offset (suc round) in
    elim (committed round) [
      | none ↦ none
      | some last ↦ if leb_ℤ last offset then rest else some round
    ]

abbrev pub waited : Option ℕ → Option RedisValue
waited none = none
waited (some rounds) = some simple_string_ok

unfoldable pub wait_for_commit_command :
    ℕ → Bool → Option ℤ → Option ℤ → (ℕ → Option ℤ) → Option RedisValue
unfolding wait_loop
wait_for_commit_command fuel false partition offset committed =
    some (error (codes "WaitForCommit is not configured. Requires ConsumerHelper."))
wait_for_commit_command fuel true (some partition) (some offset) committed =
    waited (wait_loop fuel committed offset 0)
wait_for_commit_command fuel true _ _ committed = some error_invalid_integer
