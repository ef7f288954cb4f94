-- ===== src/KeyValue.antt =====
-- examples/key_value/KeyValue.cpp: a key-value store with the commands GET and SET. The world of its
-- handlers is the database; `none` is an argument read out of bounds, which the check of arguments excludes.
pub mod SetGet
mod Examples
use smyte_db.Prelude.{ℕ, List, [], ◌∷◌, ◌++◌, Option, none, some, codes}
use smyte_db.Prelude.Int.{ℤ, pos}
use smyte_db.RocksDb.{RocksDb}
use smyte_db.Codec.Value.{RedisValue, error, null_string}
use smyte_db.Pipeline.Table.{Command, CommandHandler, Table, simple_string_ok}
use smyte_db.Pipeline.Handler.{Func, read_reply}
use smyte_db.Pipeline.Handler.Defaults.{Members, merge_with_default_command_handler_table}

module _ (rocks : RocksDb) (default_family : rocks.Family) where
  open rocks use {Db, empty_batch, put, write, get, get_error}

  abbrev pub World : Type 0
  World = Option Db

  unfoldable pub get_command : Command → World → RedisValue × World
  get_command (c ∷ key ∷ args) (some db) =
      (read_reply (get_error default_family key db) (get default_family key db), some db)
  get_command _ _ = (null_string, none)

  -- The reply to a Put, from its status.
  abbrev pub put_reply : Option (List ℕ) × Db → RedisValue × World
  put_reply (none, db) = (simple_string_ok, some db)
  put_reply (some text, db) = (error (codes "RocksDB error: " ++ text), some db)

  unfoldable pub set_command : Command → World → RedisValue × World
  set_command (c ∷ key ∷ value ∷ args) (some db) =
      put_reply (write (put default_family key value empty_batch) db)
  set_command _ _ = (null_string, none)

  abbrev pub own_table : Table (CommandHandler (Func World))
  own_table =
      (codes "get", record { handler_func = get_command; min_args = pos 1; max_args = pos 1 })
      ∷ (codes "set", record { handler_func = set_command; min_args = pos 2; max_args = pos 2 })
      ∷ []

  -- The default commands, with the member functions of the base class, and these two.
  unfoldable pub get_command_handler_table : Members World → Table (CommandHandler (Func World))
  unfolding merge_with_default_command_handler_table
  get_command_handler_table members = merge_with_default_command_handler_table members own_table
