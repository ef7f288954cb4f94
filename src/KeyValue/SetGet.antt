-- ===== src/KeyValue/SetGet.antt =====
-- What is set in examples/key_value/KeyValue.cpp can be got.
use smyte_db.Pipeline.Table.{validate_arg_count, num_args}
use smyte_db.Pipeline.Handler.{process_command_handler_result}
use smyte_db.Prelude.{
  ℕ, ◌≡◌, refl, ap, ◌∙◌, List, [], ◌∷◌, true, false, Option, none, some, if◌then◌else◌, bytes_eq,
  bytes_eq_refl, codes, map, ◌++◌,
}
use smyte_db.Prelude.Int.{ℤ, pos}
use smyte_db.RocksDb.{RocksDb}
use smyte_db.Codec.Value.{RedisValue, error, bulk_string, bulk_string_array}
use smyte_db.Pipeline.Table.{Command, CommandHandler, Table, find, insert_all, simple_string_ok}
use smyte_db.Pipeline.Handler.{
  Func, Handled, to_lower, call_handler, report_unknown, read_command, read, read_reply,
}
use smyte_db.Pipeline.Handler.Defaults.{Members, merge_with_default_command_handler_table}
use smyte_db.KeyValue.{World, get_command, set_command, get_command_handler_table, put_reply}

module _ (rocks : RocksDb) (default_family : rocks.Family)
    (members : Members (World rocks default_family)) where
  open rocks use {Db, empty_batch, put, write, get, get_error, after, after-put, get-write}

  -- What read makes of a request whose command the table has.
  abbrev pub handled : Db → ℤ → RedisValue → Option (Handled (World rocks default_family))
  handled db key value =
      some
        (record { world = some db; written = record { key = key; val = value } ∷ []; known = true })

  put_reply-ok :
      (r : Option (List ℕ) × Db)
      → r.0 ≡ none
      → put_reply rocks default_family r ≡ (simple_string_ok, some r.1)
  put_reply-ok (none, db) h = refl
  put_reply-ok (some text, db) h = absurd (cc)

  abbrev pub table : Table (CommandHandler (Func (World rocks default_family)))
  table = get_command_handler_table rocks default_family members

  -- The end of read, behind the look-up.
  abbrev answered :
      ℤ
      → List ℕ
      → Command
      → Db
      → Option (CommandHandler (Func (World rocks default_family)))
      → Option (Handled (World rocks default_family))
  answered key lower cmd db entry =
      report_unknown false table key lower (call_handler false table key lower cmd (some db) entry)

  -- The same behind the call of the handler.
  abbrev replied :
      ℤ
      → List ℕ
      → RedisValue × World rocks default_family
      → Option (Handled (World rocks default_family))
  replied key lower r =
      report_unknown false table key lower (process_command_handler_result false table key r.0 r.1)

  abbrev set_entry : CommandHandler (Func (World rocks default_family))
  set_entry = record {
    handler_func = set_command rocks default_family;
    min_args = pos 2;
    max_args = pos 2;
  }

  abbrev get_entry : CommandHandler (Func (World rocks default_family))
  get_entry = record {
    handler_func = get_command rocks default_family;
    min_args = pos 1;
    max_args = pos 1;
  }

  -- No default command has the name of one of the two.
  find-set : find (codes "set") table ≡ some set_entry
  unfolding get_command_handler_table merge_with_default_command_handler_table insert_all find
      bytes_eq
  find-set = refl

  find-get : find (codes "get") table ≡ some get_entry
  unfolding get_command_handler_table merge_with_default_command_handler_table insert_all find
      bytes_eq
  find-get = refl

  read_set :
      (key : ℤ) (name k v : List ℕ) (db : Db)
      → map to_lower name ≡ codes "set"
      → (write (put default_family k v empty_batch) db).0 ≡ none
      → read false table
          (record { key = key; val = bulk_string_array (name ∷ k ∷ v ∷ []) })
          (some db)
        ≡ handled (write (put default_family k v empty_batch) db).1 key simple_string_ok
  unfolding read read_command call_handler find bytes_eq process_command_handler_result
      validate_arg_count num_args set_command
  read_set key name k v db is_set ok =
      ap (answered key (map to_lower name) (name ∷ k ∷ v ∷ []) db)
        (ap (λ n. find n table) is_set ∙ find-set)
      ∙ ap (replied key (map to_lower name))
          (put_reply-ok (write (put default_family k v empty_batch) db) ok)

  read_get :
      (key : ℤ) (name k v : List ℕ) (db : Db)
      → map to_lower name ≡ codes "get"
      → get default_family k db ≡ some v
      → read false table (record { key = key; val = bulk_string_array (name ∷ k ∷ []) }) (some db)
        ≡ handled db key (read_reply (get_error default_family k db) (some v))
  unfolding read read_command call_handler find bytes_eq process_command_handler_result
      validate_arg_count num_args get_command
  read_get key name k v db is_get there =
      ap (answered key (map to_lower name) (name ∷ k ∷ []) db)
        (ap (λ n. find n table) is_get ∙ find-get)
      ∙ ap
          (λ o.
            replied key (map to_lower name) (read_reply (get_error default_family k db) o, some db))
          there
      ∙ by_error (get_error default_family k db)
    where
      by_error :
          (e : Option (List ℕ))
          → replied key (map to_lower name) (read_reply e (some v), some db)
            ≡ handled db key (read_reply e (some v))
      by_error none = refl
      by_error (some text) = refl

  -- A request SET, in letters of any case, with a key and a value, whose write RocksDB accepts, is answered by OK; and
  -- a request GET for the key, on the database that it leaves, leaves the database as it is, and
  -- is answered by this value, or by the error of the read, if RocksDB reports one.
  pub read_set_get :
      (key key' : ℤ) (set_name get_name k v : List ℕ) (db : Db)
      → map to_lower set_name ≡ codes "set"
      → map to_lower get_name ≡ codes "get"
      → (write (put default_family k v empty_batch) db).0 ≡ none
      → (db' : Db) × (read false table
            (record { key = key; val = bulk_string_array (set_name ∷ k ∷ v ∷ []) })
            (some db)
          ≡ handled db' key simple_string_ok)
        × (read false table
              (record { key = key'; val = bulk_string_array (get_name ∷ k ∷ []) })
              (some db')
            ≡ handled db' key' (elim (get_error default_family k db') [
              | none ↦ bulk_string v
              | some text ↦ error (codes "RocksDB error: " ++ text)
            ]))
  read_set_get key key' set_name get_name k v db is_set is_get ok =
      let batch = put default_family k v empty_batch in
      let db' = (write batch db).1 in
      (
        db',
        read_set key set_name k v db is_set ok,
        read_get key' get_name k v db' is_get (
              get-write default_family k batch db ok
              ∙ after-put default_family k k v empty_batch (get default_family k db)
              ∙ ap
                  (λ b.
                    if b
                    then some v
                    else after default_family k empty_batch (get default_family k db))
                  (bytes_eq_refl k))
            ∙ by_error key' db' (get_error default_family k db'),
      )
    where
      by_error :
          (key : ℤ) (db : Db) (e : Option (List ℕ))
          → handled db key (read_reply e (some v))
            ≡ handled db key (elim e [
              | none ↦ bulk_string v
              | some text ↦ error (codes "RocksDB error: " ++ text)
            ])
      by_error key db none = refl
      by_error key db (some text) = refl
