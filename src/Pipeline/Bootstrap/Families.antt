-- ===== src/Pipeline/Bootstrap/Families.antt =====
-- Column families in initializeRocksDb of pipeline/RedisPipelineBootstrap.cpp. Maps are association lists,
-- in the order in which they are gone through. The options of a column family are of any type; a handle is
-- known by the name of its family. What RocksDB and the file system answer are arguments.
-- `none` is a failed CHECK or LOG(FATAL).
pub mod Names
pub mod Required
pub mod Opened
use smyte_db.Prelude.{
  ℕ, zero, suc, List, [], ◌∷◌, ◌++◌, Bool, true, false, ◌&&◌, ◌||◌, not, Option, none, some,
  if◌then◌else◌, codes, bytes_eq,
}
use smyte_db.Prelude.Int.{ℤ, pos, negsuc, ◌+ℤ◌}
use smyte_db.Codec.Value.Encode.{show_int}
use smyte_db.Pipeline.Table.{Table, find}
use smyte_db.Kafka.Offsets.{assign}

abbrev pub default_column_family_name : List ℕ
default_column_family_name = codes "default"

abbrev pub metadata_column_family_name : List ℕ
metadata_column_family_name = codes "smyte-metadata"

unfoldable pub get_column_family_name_in_group : List ℕ → ℤ → List ℕ
get_column_family_name_in_group group_name index = group_name ++ (b'-' ∷ show_int index)

-- RocksDbColumnFamilyGroupConfig
pub record GroupConfig : Type 0 where
  pub start_shard_index : ℤ
  pub local_virtual_shard_count : ℤ
  pub shard_index_increment : ℤ

-- `i * increment`
abbrev pub times : ℕ → ℤ → ℤ
times zero increment = pos 0
times (suc i) increment = times i increment +ℤ increment

-- The rounds of a loop `for (int i = 0; i < count; i++)`.
abbrev pub rounds : ℤ → ℕ
rounds (pos n) = n
rounds (negsuc n) = 0

-- The names in a group from a round on, which processRocksDbColumnFamilyGroup calls back with.
unfoldable pub names_from : List ℕ → GroupConfig → ℕ → ℕ → List (List ℕ)
names_from group_name config i zero = []
names_from group_name config i (suc n) =
    get_column_family_name_in_group group_name
      (config.start_shard_index +ℤ times i config.shard_index_increment)
    ∷ names_from group_name config (suc i) n

unfoldable pub group_names : List ℕ → GroupConfig → List (List ℕ)
unfolding names_from
group_names group_name config =
    names_from group_name config 0 (rounds config.local_virtual_shard_count)

unfoldable pub elem : List ℕ → List (List ℕ) → Bool
elem name [] = false
elem name (x ∷ xs) = bytes_eq x name || elem name xs

-- `map.count(name) > 0`
abbrev pub is_some : {A : Type 0} → Option A → Bool
is_some none = false
is_some (some a) = true

abbrev pub has : {A : Type 0} → List ℕ → Table A → Bool
has name t = is_some (find name t)

abbrev pub keys : {A : Type 0} → Table A → List (List ℕ)
keys [] = []
keys ((k, v) ∷ t) = k ∷ keys t

-- The column families that a configurator is for.
abbrev pub names_or_own : List ℕ → Option GroupConfig → List (List ℕ)
names_or_own name none = name ∷ []
names_or_own name (some config) = group_names name config

abbrev pub names_to_drop : List ℕ → Option GroupConfig → List (List ℕ)
names_to_drop name none = []
names_to_drop name (some config) = group_names name config

module _ {Options : Type 0} where
  unfoldable pub assign_all : List (List ℕ) → Options → Table Options → Table Options
  assign_all [] options t = t
  assign_all (name ∷ names) options t = assign_all names options (assign name options t)

  -- Column families to drop, none of which may be required so far.
  unfoldable pub drop_all :
      List (List ℕ) → Options → Table Options → Table Options → Option (Table Options)
  drop_all [] options required dropped = some dropped
  drop_all (name ∷ names) options required dropped =
      if has name required
      then none
      else drop_all names options required (assign name options dropped)

  -- The loop over the configurators, given with the options that each makes: the required column families and
  -- those to drop.
  unfoldable pub configure :
      Table GroupConfig
      → Table GroupConfig
      → Table Options
      → Table Options
      → Table Options
      → Option (Table Options × Table Options)
  configure groups drops [] required dropped = some (required, dropped)
  configure groups drops ((name, options) ∷ configurators) required dropped =
      let required' = assign_all (names_or_own name (find name groups)) options required in
      elim (drop_all (names_to_drop name (find name drops)) options required' dropped) [
        | none ↦ none
        | some dropped' ↦ configure groups drops configurators required' dropped'
      ]

  abbrev pub add_missing : List ℕ → Options → Table Options → Table Options
  add_missing name options t = if has name t then t else assign name options t

  -- Each column family of the database must be required, or one to drop.
  unfoldable pub all_known : Table Options → Table Options → List (List ℕ) → Bool
  all_known required dropped [] = true
  all_known required dropped (name ∷ names) =
      (has name required || has name dropped) && all_known required dropped names

  -- The required column families that the database does not have.
  unfoldable pub missing : List (List ℕ) → Table Options → List (List ℕ)
  missing existing [] = []
  missing existing ((name, options) ∷ required) =
      let rest = missing existing required in if elem name existing then rest else name ∷ rest

-- `columnFamilyMap_.erase`, of one and of all that are to drop.
unfoldable pub erase : List ℕ → List (List ℕ) → List (List ℕ)
erase name [] = []
erase name (x ∷ xs) = let rest = erase name xs in if bytes_eq x name then rest else x ∷ rest

unfoldable pub erase_all : List (List ℕ) → List (List ℕ) → List (List ℕ)
erase_all [] names = names
erase_all (name ∷ dropped) names = erase_all dropped (erase name names)

unfoldable pub all_elem : List (List ℕ) → List (List ℕ) → Bool
all_elem names [] = true
all_elem names (x ∷ xs) = elem x names && all_elem names xs

abbrev pub add_group :
    List ℕ × List (List ℕ) → Option (Table (List (List ℕ))) → Option (Table (List (List ℕ)))
add_group group none = none
add_group group (some others) = some (group ∷ others)

-- The column families of each group, in order.
unfoldable pub make_groups : List (List ℕ) → Table GroupConfig → Option (Table (List (List ℕ)))
make_groups names [] = some []
make_groups names ((group_name, config) ∷ groups) =
    let rest = make_groups names groups in
    if all_elem names (group_names group_name config)
    then add_group (group_name, group_names group_name config) rest
    else none

-- The last test: every configured column family is there.
unfoldable pub all_present :
    {Options : Type 0} → Table GroupConfig → List (List ℕ) → Table Options → Bool
all_present groups names [] = true
all_present groups names ((name, options) ∷ configurators) =
    all_elem names (names_or_own name (find name groups)) && all_present groups names configurators

abbrev pub all_created : (List ℕ → Bool) → List (List ℕ) → Bool
all_created creates [] = true
all_created creates (name ∷ names) = creates name && all_created creates names

-- What the file system and RocksDB answer: whether the database is there, the column families that it
-- lists, whether it opens with this setting of create_if_missing, and which column families can be created.
pub record Storage : Type 0 where
  pub db_exists : Bool
  pub listed : Option (List (List ℕ))
  pub opens : Bool → Bool
  pub creates : List ℕ → Bool

-- The option create_if_missing, with the answer of canApplyOneOffFlags.
unfoldable pub create_if_missing_option : Bool → Bool → Bool → Option Bool → Option Bool
create_if_missing_option db_exists create_if_missing create_if_missing_one_off can_apply =
    if db_exists
    then some false
    else (if create_if_missing
        then some true
        else (if create_if_missing_one_off then can_apply else some false))

abbrev pub existing_column_families : Storage → Option (List (List ℕ))
existing_column_families storage =
    if storage.db_exists then storage.listed else some (default_column_family_name ∷ [])

-- What initializeRocksDb leaves: the column families with their handles, and the groups.
pub record Families : Type 0 where
  pub column_family_map : List (List ℕ)
  pub column_family_group_map : Table (List (List ℕ))

module _ {Options : Type 0} (groups drops : Table GroupConfig) (configurators : Table Options) where
  -- The two maps of options, with the required column families for which there is no configurator.
  abbrev pub with_defaults :
      Options
      → Options
      → Option (Table Options × Table Options)
      → Option (Table Options × Table Options)
  with_defaults default_options metadata_options none = none
  with_defaults default_options metadata_options (some (required, dropped)) = some (
    add_missing metadata_column_family_name metadata_options
        (add_missing default_column_family_name default_options required),
    dropped,
  )

  unfoldable pub plan : Options → Options → Option (Table Options × Table Options)
  unfolding configure
  plan default_options metadata_options =
      with_defaults default_options metadata_options (configure groups drops configurators [] [])

  abbrev pub finish : List (List ℕ) → Option (Table (List (List ℕ))) → Option Families
  finish names none = none
  finish names (some made) =
      if all_elem names (default_column_family_name ∷ metadata_column_family_name ∷ [])
        && all_present groups names configurators
      then some (record { column_family_map = names; column_family_group_map = made })
      else none

  -- Opening the database, creating what is missing and dropping what is to drop.
  unfoldable pub open_families :
      Storage → Bool → Table Options → Table Options → List (List ℕ) → Option Families
  open_families storage create required dropped existing =
      let names = erase_all (keys dropped) (existing ++ missing existing required) in
      if all_known required dropped existing
        && (storage.opens create && all_created storage.creates (missing existing required))
      then finish names (make_groups names groups)
      else none

  abbrev pub open_planned :
      Storage
      → Option Bool
      → Option (Table Options × Table Options)
      → Option (List (List ℕ))
      → Option Families
  open_planned storage (some create) (some (required, dropped)) (some existing) =
      open_families storage create required dropped existing
  open_planned storage _ _ _ = none

  -- With the flags create_if_missing and create_if_missing_one_off, and the answer of canApplyOneOffFlags.
  unfoldable pub initialize_rocks_db :
      Storage → Bool → Bool → Option Bool → Options → Options → Option Families
  unfolding plan open_families create_if_missing_option
  initialize_rocks_db storage create_if_missing create_if_missing_one_off can_apply default_options
        metadata_options =
      open_planned storage
        (create_if_missing_option storage.db_exists create_if_missing create_if_missing_one_off
          can_apply)
        (plan default_options metadata_options) (existing_column_families storage)
