-- ===== src/KeyValue/Examples.antt =====
-- The store of examples/key_value/KeyValue.cpp over a sorted list of entries.
use smyte_db.Prelude.{◌≡◌, refl, List, [], ◌∷◌, false, some, codes}
use smyte_db.Prelude.Int.{pos}
use smyte_db.RocksDb.{Entry}
use smyte_db.RocksDb.Concrete.{sorted_db}
use smyte_db.Codec.Value.{bulk_string, bulk_string_array}
use smyte_db.Pipeline.Table.{simple_string_ok}
use smyte_db.Pipeline.Handler.{Func, read, ping_command}
use smyte_db.Pipeline.Handler.Defaults.{Members}
use smyte_db.KeyValue.{World}
use smyte_db.KeyValue.SetGet.{table, handled, read_set_get}

abbrev idle : Func (World sorted_db tt)
idle cmd world = (simple_string_ok, world)

abbrev members : Members (World sorted_db tt)
members = record {
  compact_command = idle;
  freeze_command = idle;
  get_meta_command = idle;
  info_command = idle;
  monitor_command = idle;
  ping_command = λ cmd world. (ping_command, world);
  ready_command = idle;
  set_ready_command = idle;
  select_command = idle;
  set_meta_command = idle;
  sleep_command = idle;
  thaw_command = idle;
  wait_for_commit_command = idle;
}

read_set_get_example :
    (db' : List Entry) × (read false
        (table sorted_db tt members)
        (record { key = pos 0; val = bulk_string_array (codes "SET" ∷ codes "k" ∷ codes "v" ∷ []) })
        (some [])
      ≡ handled sorted_db tt members db' (pos 0) simple_string_ok)
    × (read false
          (table sorted_db tt members)
          (record { key = pos 1; val = bulk_string_array (codes "Get" ∷ codes "k" ∷ []) })
          (some db')
        ≡ handled sorted_db tt members db' (pos 1) (bulk_string (codes "v")))
read_set_get_example =
    read_set_get sorted_db tt members (pos 0) (pos 1) (codes "SET") (codes "Get") (codes "k")
      (codes "v") [] refl refl refl
