-- ===== src/Pipeline/Handler.antt =====
-- pipeline/RedisHandler.h and RedisHandler.cpp: how a message becomes a call of a handler, and the
-- default commands on the database. `World` is what handlers may change; `none` is a failed CHECK.
pub mod Replies
pub mod Defaults
mod Examples
use smyte_db.Prelude.{
  ℕ, ◌+◌, ◌<◌, List, [], ◌∷◌, ◌++◌, Bool, true, false, ◌&&◌, Option, none, some, length, leb, ◌==◌,
  if◌then◌else◌, codes, map, get_elem?, bytes_eq,
}
use smyte_db.Prelude.Int.{ℤ, pos}
use smyte_db.Codec.Value.{
  RedisValue, integer, error, simple_string, bulk_string, array, bulk_string_array, null_string,
  async_result, RedisMessage, is_async,
}
use smyte_db.RocksDb.{RocksDb}
use smyte_db.Kafka.Offsets.{Helper, set_lag_status}
use smyte_db.Pipeline.Table.{
  Command, CommandHandler, Table, find, validate_arg_count, wrong_num_args, error_message,
  simple_string_ok,
}
use smyte_db.Pipeline.Database.{Answers, freeze}

abbrev pub error_invalid_integer : RedisValue
error_invalid_integer = error (codes "Value is not an integer or out of range")

abbrev pub error_not_redis_array : RedisValue
error_not_redis_array = error (codes "Not a Redis Array of Bulk String")

abbrev pub internal_server_error : RedisValue
internal_server_error = error (codes "Internal server error")

abbrev pub to_lower : ℕ → ℕ
to_lower c = if leb 65 c && leb c 90 then c + 32 else c

abbrev pub Func : Type 0 → Type 0
Func World = Command → World → RedisValue × World

-- What a call leaves: the world, the messages written, and whether the command is known.
pub record Handled (World : Type 0) : Type 0 where
  pub world : World
  pub written : List RedisMessage
  pub known : Bool

module _ {World : Type 0} (allow_async : Bool) (table : Table (CommandHandler (Func World))) where
  unfoldable pub process_command_handler_result : ℤ → RedisValue → World → Option (Handled World)
  process_command_handler_result key result world =
      if is_async result
      then (if allow_async
          then some (record { world = world; written = []; known = true })
          else none)
      else some (record {
        world = world;
        written = record { key = key; val = result } ∷ [];
        known = true;
      })

  -- handleCommandWithHandlerTable behind the look-up.
  unfoldable pub call_handler :
      ℤ → List ℕ → Command → World → Option (CommandHandler (Func World)) → Option (Handled World)
  unfolding process_command_handler_result
  call_handler key name cmd world none =
      some (record { world = world; written = []; known = false })
  call_handler key name cmd world (some entry) =
      if validate_arg_count cmd entry.min_args entry.max_args
      then (let (result, world') = entry.handler_func cmd world in
          process_command_handler_result key result world')
      else some (record {
        world = world;
        written = error_message key (wrong_num_args name) ∷ [];
        known = true;
      })

  -- The end of read: an unknown command is answered by an error, a known one goes to the monitors.
  abbrev pub report_unknown : ℤ → List ℕ → Option (Handled World) → Option (Handled World)
  report_unknown key name none = none
  report_unknown key name (some h) = some (
      if h.known then h else record h {
        written =
            h.written ++ error_message key (codes "Unknown command: '" ++ (name ++ codes "'")) ∷ [];
      })

  unfoldable pub read_command : ℤ → Command → World → Option (Handled World)
  unfolding call_handler
  read_command key [] world = some (record { world = world; written = []; known = false })
  read_command key (name ∷ args) world =
      let lower = map to_lower name in
      report_unknown key lower (call_handler key lower (name ∷ args) world (find lower table))

  unfoldable pub read : RedisMessage → World → Option (Handled World)
  unfolding read_command
  read req world = elim req.val [
    | error text ↦ some (record { world = world; written = req ∷ []; known = false })
    | bulk_string_array cmd ↦ read_command req.key cmd world
    | _ ↦ some (record {
      world = world;
      written = record { key = req.key; val = error_not_redis_array } ∷ [];
      known = false;
    })
  ]

-- The default commands. A missing argument, which the check of arguments excludes, is none.
abbrev pub is_registered : ℕ → List ℕ → Bool
is_registered ctx [] = false
is_registered ctx (m ∷ ms) = let rest = is_registered ctx ms in if m == ctx then true else rest

unfoldable pub monitor_command : ℕ → List ℕ → List ℕ × RedisValue
monitor_command ctx monitors =
    (if is_registered ctx monitors then monitors else monitors ++ ctx ∷ [], simple_string_ok)

unfoldable pub freeze_command : Answers → RedisValue
unfolding freeze
freeze_command answers =
    let frozen = freeze answers [] in
    if frozen.ok then bulk_string_array frozen.file_list else internal_server_error

abbrev pub thaw_command : Bool → RedisValue
thaw_command thawed = if thawed then simple_string_ok else internal_server_error

abbrev pub ping_command : RedisValue
ping_command = simple_string (codes "PONG")

abbrev pub select_command : RedisValue
select_command = simple_string_ok

unfoldable pub ready_command : Option Helper → RedisValue
ready_command none = integer (pos 1)
ready_command (some consumer_helper) = integer (if consumer_helper.is_lagging then pos 0 else pos 1)

unfoldable pub set_ready_command : Option Helper → Option Helper × RedisValue
set_ready_command none = (none, simple_string_ok)
set_ready_command (some consumer_helper) =
    (some (set_lag_status false consumer_helper), simple_string_ok)

abbrev compact_found :
    {Handle : Type 0}
    → List ℕ
    → Option (List ℕ × List ℕ)
    → Option Handle
    → RedisValue × Option (Handle × Option (List ℕ × List ℕ))
compact_found name range none = (error (codes "Column family not found: " ++ name), none)
compact_found name range (some handle) = (simple_string_ok, some (handle, range))

abbrev compact_family :
    {Handle : Type 0}
    → List ℕ
    → Table Handle
    → Option (List ℕ × List ℕ)
    → RedisValue × Option (Handle × Option (List ℕ × List ℕ))
compact_family name families range = compact_found name range (find name families)

-- The reply, and the name and range of the compaction that is forced.
unfoldable pub compact_command :
    {Handle : Type 0}
    → Table Handle
    → Command
    → RedisValue × Option (Handle × Option (List ℕ × List ℕ))
compact_command families (c ∷ []) = compact_family (codes "default") families none
compact_command families (c ∷ name ∷ []) = compact_family name families none
compact_command families (c ∷ name ∷ begin_key ∷ []) =
    (error (codes "must specify begin and end keys"), none)
compact_command families (c ∷ name ∷ begin_key ∷ end_key ∷ []) =
    compact_family name families (some (begin_key, end_key))
compact_command families (c ∷ name ∷ begin_key ∷ end_key ∷ more) = compact_family name families none
compact_command families [] = compact_family (codes "default") families none

-- The reply to a Get, from the error of its status, if it has one, and what was found.
abbrev pub read_reply : Option (List ℕ) → Option (List ℕ) → RedisValue
read_reply (some text) value = error (codes "RocksDB error: " ++ text)
read_reply none none = null_string
read_reply none (some value) = bulk_string value

module _ (rocks : RocksDb) (metadata : rocks.Family) where
  open rocks use {Db, empty_batch, put, write, get, get_error}

  unfoldable pub get_meta_command : Command → Db → Option RedisValue
  get_meta_command (c ∷ key ∷ args) db =
      some (read_reply (get_error metadata key db) (get metadata key db))
  get_meta_command _ db = none

  unfoldable pub set_meta_command : Command → Db → Option (RedisValue × Db)
  set_meta_command (c ∷ key ∷ value ∷ args) db =
      let (status, db') = write (put metadata key value empty_batch) db in
      some (
        elim status [
          | none ↦ simple_string_ok
          | some text ↦ error (codes "RocksDB error: " ++ text)
        ],
        db',
      )
  set_meta_command _ db = none
