-- ===== src/Pipeline/Bootstrap/Versions.antt =====
-- One-off flags in pipeline/RedisPipelineBootstrap.cpp, which a version timestamp in the database guards. `none` is a
-- failed CHECK, LOG(FATAL), or an exception of folly's conversion of the stored value.
pub mod Once
use smyte_db.Prelude.{ℕ, List, Bool, true, false, Option, none, some, if◌then◌else◌, codes}
use smyte_db.Prelude.Int.{ℤ, pos, ltb_ℤ}
use smyte_db.Codec.Value.Encode.{show_int}
use smyte_db.RocksDb.{RocksDb}

abbrev pub k_version_timestamp_key : List ℕ
k_version_timestamp_key = codes "VersionTimestamp"

abbrev pub newer : ℤ → Option ℤ → Option Bool
newer version_timestamp_ms none = none
newer version_timestamp_ms (some stored_timestamp_ms) =
    some (ltb_ℤ stored_timestamp_ms version_timestamp_ms)

-- The tests without the database in front of the one with it.
abbrev pub guarded : ℤ → ℤ → Option Bool → Option Bool
guarded version_timestamp_ms now stored =
    if ltb_ℤ version_timestamp_ms (pos 0)
    then some false
    else (if ltb_ℤ version_timestamp_ms now then some false else stored)

module _ (to_int64 : List ℕ → Option ℤ) where
  -- The test of the timestamp in the database, if it has one; `none` is a read that fails.
  abbrev pub newer_than_stored : ℤ → Option (Option (List ℕ)) → Option Bool
  newer_than_stored version_timestamp_ms none = none
  newer_than_stored version_timestamp_ms (some none) = some true
  newer_than_stored version_timestamp_ms (some (some value)) =
      newer version_timestamp_ms (to_int64 value)

  -- With the time and what is read from the database.
  unfoldable pub can_apply : ℤ → ℤ → Option (Option (List ℕ)) → Option Bool
  can_apply version_timestamp_ms now value =
      guarded version_timestamp_ms now (newer_than_stored version_timestamp_ms value)

  module _ (rocks : RocksDb) (metadata : rocks.Family) where
    open rocks use {Db, empty_batch, put, write, get, get_error}

    abbrev pub read_version : Option (List ℕ) → Option (List ℕ) → Option (Option (List ℕ))
    read_version none value = some value
    read_version (some text) value = none

    abbrev pub stored_version : Option Db → Option (Option (List ℕ))
    stored_version none = some none
    stored_version (some db) =
        read_version (get_error metadata k_version_timestamp_key db)
          (get metadata k_version_timestamp_key db)

    -- The database is null before it was opened.
    unfoldable pub can_apply_one_off_flags : ℤ → ℤ → Option Db → Option Bool
    unfolding can_apply
    can_apply_one_off_flags version_timestamp_ms now db =
        can_apply version_timestamp_ms now (stored_version db)

    abbrev pub persisted : Option (List ℕ) × Db → Option Db
    persisted (none, db) = some db
    persisted (some text, db) = none

    abbrev pub persist_if : Option Bool → ℤ → Db → Option Db
    persist_if none version_timestamp_ms db = none
    persist_if (some false) version_timestamp_ms db = some db
    persist_if (some true) version_timestamp_ms db = persisted (
        write (put metadata k_version_timestamp_key (show_int version_timestamp_ms) empty_batch) db)

    unfoldable pub persist_version_timestamp : ℤ → ℤ → Db → Option Db
    unfolding can_apply_one_off_flags
    persist_version_timestamp version_timestamp_ms now db =
        persist_if (can_apply_one_off_flags version_timestamp_ms now (some db)) version_timestamp_ms
          db
