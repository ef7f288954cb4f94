-- ===== src/Pipeline/Bootstrap/Versions/Once.antt =====
-- One-off flags of pipeline/RedisPipelineBootstrap.cpp and the version that a run persists.
use smyte_db.Prelude.{
  ℕ, subst, ◌≡◌, ◌⊎◌, inl, inr, refl, sym, ap, ◌∙◌, List, Bool, true, false, Option, none, some,
  if◌then◌else◌, bytes_eq_refl, arith,
}
use smyte_db.Prelude.Int.{ℤ, ◌≤ℤ◌}
use smyte_db.Codec.Value.Encode.{show_int}
use smyte_db.RocksDb.{RocksDb}
use smyte_db.Pipeline.Bootstrap.Versions.{
  k_version_timestamp_key, newer, guarded, persist_if, can_apply, can_apply_one_off_flags,
  persisted, persist_version_timestamp, read_version,
}

-- Tests that refuse the flags in front of the read of the database.
refused_early :
    (v v' now later : ℤ) (stored : Option Bool)
    → v' ≤ℤ v
    → now ≤ℤ later
    → guarded v now none ≡ some false
    → guarded v' later stored ≡ some false
refused_early v v' now later stored older passes h = ground arith

guarded-none : (v now : ℤ) → (guarded v now none ≡ some false) ⊎ (guarded v now none ≡ none)
guarded-none v now = ground arith

parsed_later :
    (v v' now later : ℤ) (stored : Option ℤ)
    → v' ≤ℤ v
    → now ≤ℤ later
    → guarded v now (newer v stored) ≡ some false
    → guarded v' later (newer v' stored) ≡ some false
parsed_later v v' now later none older passes h = ground arith
parsed_later v v' now later (some stored) older passes h = ground arith

module _ (to_int64 : List ℕ → Option ℤ) where
  -- Flags that were refused are refused later on, with the same value in the database and no newer version.
  refused_later :
      (v v' now later : ℤ) (value : Option (List ℕ))
      → v' ≤ℤ v
      → now ≤ℤ later
      → can_apply to_int64 v now (some value) ≡ some false
      → can_apply to_int64 v' later (some value) ≡ some false
  unfolding can_apply
  refused_later v v' now later none older passes h = ground arith
  refused_later v v' now later (some value) older passes h =
      parsed_later v v' now later (to_int64 value) older passes h

  -- Flags of the version in the database, or an older one, are refused.
  stored_refuses :
      (v v' later : ℤ)
      → v' ≤ℤ v
      → to_int64 (show_int v) ≡ some v
      → can_apply to_int64 v' later (some (some (show_int v))) ≡ some false
  unfolding can_apply
  stored_refuses v v' later older reads =
      let at_most : guarded v' later (newer v' (some v)) ≡ some false = ground arith in
      ap (λ o. guarded v' later (newer v' o)) reads ∙ at_most

  module _ (rocks : RocksDb) (metadata : rocks.Family) where
    open rocks use {Db, empty_batch, put, write, get, get_error, after, after-put, get-write}

    put-get :
        (value : List ℕ) (db db' : Db)
        → persisted to_int64 rocks metadata
            (write (put metadata k_version_timestamp_key value empty_batch) db)
          ≡ some db'
        → get metadata k_version_timestamp_key db' ≡ some value
    put-get value db db' h =
        let batch = put metadata k_version_timestamp_key value empty_batch in
        let (ok, same) = written (write batch db) db' h in
        subst (λ d. get metadata k_version_timestamp_key d ≡ some value) same
          (get-write metadata k_version_timestamp_key batch db ok
            ∙ after-put metadata k_version_timestamp_key k_version_timestamp_key value empty_batch
                (get metadata k_version_timestamp_key db)
            ∙ ap
                (λ x.
                  if x
                  then some value
                  else after metadata k_version_timestamp_key empty_batch
                      (get metadata k_version_timestamp_key db))
                (bytes_eq_refl k_version_timestamp_key))
      where
        written :
            (result : Option (List ℕ) × Db) (db' : Db)
            → persisted to_int64 rocks metadata result ≡ some db'
            → (result.0 ≡ none) × (result.1 ≡ db')
        written (none, d) db' h = (refl, cc)
        written (some text, d) db' h = absurd (cc)

    -- The flags are refused, or the database cannot be read and the start of the server ends there.
    abbrev pub NotApplied : Db → Option Bool → Type 0
    NotApplied db verdict =
        (verdict ≡ some false)
        ⊎ ((text : List ℕ) × (get_error metadata k_version_timestamp_key db ≡ some text)
            × (verdict ≡ none))

    -- What a later run reads, by what it makes of it.
    later_run :
        (v' later : ℤ) (db : Db) (failure : Option (List ℕ))
        → get_error metadata k_version_timestamp_key db ≡ failure
        → can_apply to_int64 v' later (some (get metadata k_version_timestamp_key db)) ≡ some false
        → NotApplied db (
            can_apply to_int64 v' later (
              read_version to_int64 rocks metadata failure
                (get metadata k_version_timestamp_key db)))
    unfolding can_apply
    later_run v' later db none e refused = inl refused
    later_run v' later db (some text) e refused = elim (guarded-none v' later) [
      | inl early ↦ inl early
      | inr fatal ↦ inr (text, e, fatal)
    ]

    -- A run that refused the flags, by what it read.
    first_run :
        (v v' now later : ℤ) (value : Option (List ℕ)) (failure : Option (List ℕ))
        → v' ≤ℤ v
        → now ≤ℤ later
        → can_apply to_int64 v now (read_version to_int64 rocks metadata failure value) ≡ some false
        → can_apply to_int64 v' later (some value) ≡ some false
    unfolding can_apply
    first_run v v' now later value none older passes h =
        refused_later v v' now later value older passes h
    first_run v v' now later value (some text) older passes h =
        refused_early v v' now later _ older passes h

    -- Once a run has come through the persisting of a version, which it stores unless it refuses it, flags of this
    -- version, or of an older one, are not applied by a run at a later time whose database still
    -- has the value that was left: they are refused, unless the read of the database fails,
    -- which ends the start of the server. The conversion must read the printed version back.
    pub persist-refused :
        (v v' now later : ℤ) (db db' db'' : Db)
        → persist_version_timestamp to_int64 rocks metadata v now db ≡ some db'
        → get metadata k_version_timestamp_key db'' ≡ get metadata k_version_timestamp_key db'
        → v' ≤ℤ v
        → now ≤ℤ later
        → to_int64 (show_int v) ≡ some v
        → NotApplied db'' (can_apply_one_off_flags to_int64 rocks metadata v' later (some db''))
    unfolding persist_version_timestamp can_apply_one_off_flags
    persist-refused v v' now later db db' db'' h kept older passes reads =
        later_run v' later db'' (get_error metadata k_version_timestamp_key db'') refl (
          by_result
            (can_apply to_int64 v now (
              read_version to_int64 rocks metadata (get_error metadata k_version_timestamp_key db)
                (get metadata k_version_timestamp_key db)))
            refl h)
      where
        by_result :
            (result : Option Bool)
            → can_apply to_int64 v now (
                read_version to_int64 rocks metadata
                  (get_error metadata k_version_timestamp_key db)
                  (get metadata k_version_timestamp_key db))
              ≡ result
            → persist_if to_int64 rocks metadata result v db ≡ some db'
            → can_apply to_int64 v' later (some (get metadata k_version_timestamp_key db''))
              ≡ some false
        by_result none e h = absurd (cc)
        by_result (some false) e h =
            let same : db ≡ db' = cc in
            ap (λ o. can_apply to_int64 v' later (some o))
              (kept ∙ ap (get metadata k_version_timestamp_key) (sym same))
            ∙ first_run v v' now later (get metadata k_version_timestamp_key db)
                (get_error metadata k_version_timestamp_key db) older passes e
        by_result (some true) e h =
            ap (λ o. can_apply to_int64 v' later (some o)) (kept ∙ put-get (show_int v) db db' h)
            ∙ stored_refuses v v' later older reads
