-- ===== src/Pipeline/Handler/Defaults.antt =====
-- mergeWithDefaultCommandHandlerTable of pipeline/RedisHandler.h. The member functions that it names are any functions of
-- the world.
use smyte_db.Prelude.{◌∷◌, [], codes}
use smyte_db.Prelude.Int.{ℤ, pos}
use smyte_db.Pipeline.Table.{CommandHandler, Table, insert_all}
use smyte_db.Pipeline.Handler.{Func}

-- The member functions of RedisHandler that handle commands.
pub record Members (World : Type 0) : Type 0 where
  pub compact_command : Func World
  pub freeze_command : Func World
  pub get_meta_command : Func World
  pub info_command : Func World
  pub monitor_command : Func World
  pub ping_command : Func World
  pub ready_command : Func World
  pub set_ready_command : Func World
  pub select_command : Func World
  pub set_meta_command : Func World
  pub sleep_command : Func World
  pub thaw_command : Func World
  pub wait_for_commit_command : Func World

module _ {World : Type 0} (members : Members World) where
  abbrev pub handler : Func World → ℤ → ℤ → CommandHandler (Func World)
  handler func min_args max_args = record {
    handler_func = func;
    min_args = min_args;
    max_args = max_args;
  }

  -- The default command handlers.
  abbrev pub base_table : Table (CommandHandler (Func World))
  base_table =
      (codes "compact", handler members.compact_command (pos 0) (pos 3))
      ∷ (codes "freeze", handler members.freeze_command (pos 0) (pos 0))
      ∷ (codes "getmeta", handler members.get_meta_command (pos 1) (pos 1))
      ∷ (codes "info", handler members.info_command (pos 0) (pos 1))
      ∷ (codes "monitor", handler members.monitor_command (pos 0) (pos 0))
      ∷ (codes "ping", handler members.ping_command (pos 0) (pos 0))
      ∷ (codes "ready", handler members.ready_command (pos 0) (pos 0))
      ∷ (codes "setready", handler members.set_ready_command (pos 0) (pos 0))
      ∷ (codes "select", handler members.select_command (pos 1) (pos 1))
      ∷ (codes "setmeta", handler members.set_meta_command (pos 2) (pos 2))
      ∷ (codes "sleep", handler members.sleep_command (pos 1) (pos 1))
      ∷ (codes "thaw", handler members.thaw_command (pos 0) (pos 0))
      ∷ (codes "waitforcommit", handler members.wait_for_commit_command (pos 4) (pos 4))
      ∷ []

  unfoldable pub merge_with_default_command_handler_table :
      Table (CommandHandler (Func World)) → Table (CommandHandler (Func World))
  merge_with_default_command_handler_table new_table = insert_all new_table base_table
