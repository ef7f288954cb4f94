-- ===== src/Pipeline/Async/Merged.antt =====
-- The merged table of pipeline/AsyncRedisHandler.h.
use smyte_db.Pipeline.Table.{validate_arg_count, wrong_num_args, error_message, insert_all}
use smyte_db.Pipeline.Async.{finish}
use smyte_db.Prelude.{
  ℕ, ◌≡◌, ap, ◌∙◌, List, [], ◌∷◌, true, some, if◌then◌else◌, map, bytes_eq, Bool-cases, inl, inr,
}
use smyte_db.Prelude.Int.{ℤ}
use smyte_db.Pipeline.Table.{Command, CommandHandler, Table, find, or_else, find-insert_all}
use smyte_db.Pipeline.Handler.{Func, to_lower, call_handler}
use smyte_db.Pipeline.Async.{
  AsyncFunc, handle_sync_command, as_async, merge_with_default_async, handle_command, call_async,
  call_base,
}

module _ {World : Type 0} (base : Table (CommandHandler (Func World))) where
  -- A default command with the async signature.
  abbrev pub sync_entry : CommandHandler (Func World) → CommandHandler (AsyncFunc World)
  sync_entry entry = record {
    handler_func = handle_sync_command base;
    min_args = entry.min_args;
    max_args = entry.max_args;
  }

  find-as_async :
      (name : List ℕ) (entry : CommandHandler (Func World))
      (t : Table (CommandHandler (Func World)))
      → find name t ≡ some entry
      → find name (as_async base t) ≡ some (sync_entry entry)
  unfolding find
  find-as_async name entry [] h = absurd (cc)
  find-as_async name entry ((n, e) ∷ t) h = elim (Bool-cases (bytes_eq n name)) [
    | inl same ↦
        let result : some e ≡ some entry = rw (same, find) at h in
        let is_entry : e ≡ entry = cc in rw same (ap (λ x. some (sync_entry x)) is_entry)
    | inr other ↦ rw other (find-as_async name entry t (rw (other, find) at h))
  ]

  -- A default command is handled as it would be without async commands, whatever the client's own table defines under
  -- its name: the default goes first, and its handler is called with the key left out.
  pub handle_command-default :
      (new_table : Table (CommandHandler (AsyncFunc World))) (key : ℤ) (name : List ℕ)
      (args : Command) (entry : CommandHandler (Func World)) (world : World)
      → find (map to_lower name) base ≡ some entry
      → handle_command base
          (merge_with_default_async base new_table)
          key
          (map to_lower name)
          (name ∷ args)
          world
        ≡ call_handler true base key (map to_lower name) (name ∷ args) world (some entry)
  unfolding handle_command merge_with_default_async call_handler handle_sync_command
  handle_command-default new_table key name args entry world h =
      let lower = map to_lower name in
      let cmd = name ∷ args in
      let found : find lower (insert_all new_table (as_async base base)) ≡ some (sync_entry entry) =
        find-insert_all lower new_table (as_async base base)
        ∙ ap (λ o. or_else o (find lower new_table)) (find-as_async lower entry base h) in
      ap (call_async base key lower cmd world) found
      ∙ ap
          (λ o.
            if validate_arg_count cmd entry.min_args entry.max_args
            then finish base key (call_base base cmd world o)
            else some (record {
              world = world;
              written = error_message key (wrong_num_args lower) ∷ [];
              known = true;
            }))
          h
