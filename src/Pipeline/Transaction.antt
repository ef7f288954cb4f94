-- ===== src/Pipeline/Transaction.antt =====
-- pipeline/TransactionalRedisHandler.h and TransactionalRedisHandler.cpp. `World` is all that command
-- handlers and the database may change; RocksDB's write batch and `DB::Write` are the fields of
-- `Store`. A handler gets the command, the batch and the world, and returns its result with both.
pub mod Sessions
pub mod Atomic
mod Examples
use smyte_db.Prelude.{
  ℕ, ◌<◌, ◌≡◌, List, [], ◌∷◌, ◌++◌, Bool, true, false, not, Option, none, some, bytes_eq, ltb,
  if◌then◌else◌, codes,
}
use smyte_db.Prelude.Int.{ℤ}
use smyte_db.Codec.Value.{
  RedisValue, Values, nil, cons, array, error, simple_string, RedisMessage, is_error,
}
use smyte_db.Pipeline.Table.{
  Command, CommandHandler, Table, find, validate_arg_count, wrong_num_args, error_message,
  simple_string_ok,
}

-- rocksdb::WriteBatch and DB::Write; a status that is not ok is its text.
pub record Store (World Batch : Type 0) : Type 0 where
  pub empty_batch : Batch
  pub count : Batch → ℕ
  pub write : Batch → World → Option (List ℕ) × World

abbrev pub Handler : Type 0 → Type 0 → Type 0
Handler World Batch = Command → Batch → World → RedisValue × Batch × World

-- The private members of the class.
pub record State (World Batch : Type 0) : Type 0 where
  pub in_transaction : Bool
  pub error_encountered : Bool
  pub queued_commands : List (Handler World Batch × Command)

-- What a call leaves: the members, the world, the messages written, and the value returned.
pub record Handled (World Batch : Type 0) : Type 0 where
  pub state : State World Batch
  pub world : World
  pub written : List RedisMessage
  pub known : Bool

pub record Request : Type 0 where
  pub key : ℤ
  pub name_lower : List ℕ
  pub cmd : Command

module _ {World Batch : Type 0} (db : Store World Batch) where
  open db use {empty_batch, count, write}

  -- resetTransactionState, and the state of a new handler.
  abbrev pub fresh : State World Batch
  fresh = record { in_transaction = false; error_encountered = false; queued_commands = [] }

  -- The loop of EXEC: the results, or none as soon as one is an error.
  unfoldable pub run_queued :
      List (Handler World Batch × Command) → Batch → World → Option Values × Batch × World
  run_queued [] batch world = (some nil, batch, world)
  run_queued ((handler, cmd) ∷ rest) batch world =
      let (result, batch', world') = handler cmd batch world in
      let (results, batch'', world'') = run_queued rest batch' world' in
      if is_error result
      then (none, batch', world')
      else (elim results [ none ↦ none | some vs ↦ some (cons result vs) ], batch'', world'')

  -- writeResult: the updates first, then the result or the error of the database.
  unfoldable pub write_result : ℤ → RedisValue → Batch → World → World × List RedisMessage
  write_result key result batch world =
      if ltb 0 (count batch)
      then (let (status, world') = write batch world in
          elim status [
            | none ↦ (world', record { key = key; val = result } ∷ [])
            | some text ↦ (world', error_message key (codes "RocksDB error: " ++ text) ∷ [])
          ])
      else (world, record { key = key; val = result } ∷ [])

  -- The end of EXEC, behind its loop.
  unfoldable pub finish_exec : ℤ → Option Values × Batch × World → World × List RedisMessage
  unfolding write_result
  finish_exec key (none, batch, world) = (
    world,
    error_message key
          (codes "Transaction discarded because an error was encountered during execution")
        ∷ [],
  )
  finish_exec key (some results, batch, world) = write_result key (array results) batch world

  unfoldable pub exec : State World Batch → World → ℤ → World × List RedisMessage
  exec s world key =
      if s.in_transaction
      then (if s.error_encountered
          then (
            world,
            error_message key (codes "Transaction discarded because of previous errors") ∷ [],
          )
          else finish_exec key (run_queued s.queued_commands empty_batch world))
      else (world, error_message key (codes "EXEC without MULTI") ∷ [])

  unfoldable pub multi : State World Batch → World → ℤ → Handled World Batch
  multi s world key =
      if s.in_transaction
      then record {
        state = s;
        world = world;
        written = error_message key (codes "MULTI calls cannot be nested") ∷ [];
        known = true;
      }
      else record {
        state = record s { in_transaction = true };
        world = world;
        written = record { key = key; val = simple_string_ok } ∷ [];
        known = true;
      }

  -- A command that is neither MULTI nor EXEC, with what its look-up gives.
  unfoldable pub other :
      State World Batch
      → World
      → Request
      → Option (CommandHandler (Handler World Batch))
      → Handled World Batch
  other s world r none = record {
    state = record s { error_encountered = true };
    world = world;
    written = [];
    known = false;
  }
  other s world r (some entry) =
      if validate_arg_count r.cmd entry.min_args entry.max_args
      then (if s.in_transaction
          then record {
            state = record s {
              queued_commands = s.queued_commands ++ (entry.handler_func, r.cmd) ∷ [];
            };
            world = world;
            written = record { key = r.key; val = simple_string (codes "QUEUED") } ∷ [];
            known = true;
          }
          else (let (result, batch, world') = entry.handler_func r.cmd empty_batch world in
              let (world'', written) = write_result r.key result batch world' in
              record { state = s; world = world''; written = written; known = true }))
      else record {
        state = record s { error_encountered = true };
        world = world;
        written = error_message r.key (wrong_num_args r.name_lower) ∷ [];
        known = true;
      }

  -- handleCommandWithTransactionalHandlerTable
  unfoldable pub handle_command :
      Table (CommandHandler (Handler World Batch))
      → State World Batch
      → World
      → Request
      → Handled World Batch
  handle_command table s world r =
      if bytes_eq r.name_lower (codes "multi")
      then multi s world r.key
      else if bytes_eq r.name_lower (codes "exec")
      then (let (world', written) = exec s world r.key in
          record { state = fresh; world = world'; written = written; known = true })
      else other s world r (find r.name_lower table)

  -- Requests of one connection, one after the other.
  unfoldable pub serve :
      Table (CommandHandler (Handler World Batch))
      → State World Batch
      → World
      → List Request
      → State World Batch × World × List RedisMessage
  serve table s world [] = (s, world, [])
  serve table s world (r ∷ rs) =
      let h = handle_command table s world r in
      let (s', world', more) = serve table h.state h.world rs in (s', world', h.written ++ more)
