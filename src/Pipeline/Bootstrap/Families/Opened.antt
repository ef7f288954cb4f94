-- ===== src/Pipeline/Bootstrap/Families/Opened.antt =====
-- What initializeRocksDb of pipeline/RedisPipelineBootstrap.cpp leaves behind.
use smyte_db.Pipeline.Bootstrap.Families.{create_if_missing_option}
use smyte_db.Prelude.{
  ℕ, subst, ◌≡◌, refl, sym, ap, ◌∙◌, List, [], ◌∷◌, ◌++◌, Bool, true, false, ◌&&◌, ◌||◌, Option,
  none, some, bytes_eq, arith, inl, inr, ||-either, &&-both, if-some,
}
use smyte_db.Pipeline.Table.{Table}
use smyte_db.Pipeline.Bootstrap.Families.{
  GroupConfig, elem, keys, group_names, all_known, missing, erase_all, all_elem, all_present,
  make_groups, add_group, default_column_family_name, metadata_column_family_name, Storage,
  Families, plan, finish, open_families, open_planned, existing_column_families,
  initialize_rocks_db, all_created,
}
use smyte_db.Pipeline.Bootstrap.Families.Names.{all_elem-elem}
use smyte_db.Pipeline.Bootstrap.Families.Required.{
  is_needed, is_configured, has-plan, all_present-elem, opened-has,
}

-- The names in each group.
abbrev pub group_table : Table GroupConfig → Table (List (List ℕ))
group_table [] = []
group_table ((group_name, config) ∷ rest) =
    (group_name, group_names group_name config) ∷ group_table rest

add_group-cons :
    (group : List ℕ × List (List ℕ)) (rest : Option (Table (List (List ℕ))))
    (expected made : Table (List (List ℕ)))
    → ((others : Table (List (List ℕ))) → rest ≡ some others → others ≡ expected)
    → add_group group rest ≡ some made
    → made ≡ group ∷ expected
add_group-cons group none expected made others_as_expected h = absurd (cc)
add_group-cons group (some others) expected made others_as_expected h =
    let same : group ∷ others ≡ made = cc in
    sym same ∙ ap (λ t. group ∷ t) (others_as_expected others refl)

make_groups-table :
    (names : List (List ℕ)) (gs : Table GroupConfig) (made : Table (List (List ℕ)))
    → make_groups names gs ≡ some made
    → made ≡ group_table gs
unfolding make_groups
make_groups-table names [] made h = cc
make_groups-table names ((group_name, config) ∷ gs) made h =
    let group : List ℕ × List (List ℕ) = (group_name, group_names group_name config) in
    let (there, e) =
      if-some (all_elem names (group_names group_name config))
        (add_group group (make_groups names gs)) made h in
    add_group-cons group (make_groups names gs) (group_table gs) made (make_groups-table names gs) e

same_tests : (a b : Bool) → (a ≡ true → b ≡ true) → (b ≡ true → a ≡ true) → a ≡ b
same_tests true b f g = sym (f refl)
same_tests false true f g = g refl
same_tests false false f g = refl

module _ {Options : Type 0} (groups drops : Table GroupConfig) (configurators : Table Options) where
  needed-elem :
      (name : List ℕ) (names : List (List ℕ))
      → (all_elem names (default_column_family_name ∷ metadata_column_family_name ∷ [])
          && all_present groups names configurators)
        ≡ true
      → is_needed groups name configurators ≡ true
      → elem name names ≡ true
  unfolding elem
  needed-elem name names h needed =
      let built_in = default_column_family_name ∷ metadata_column_family_name ∷ [] in
      let (both, present) =
        &&-both (all_elem names built_in) (all_present groups names configurators) h in
      elim (||-either (is_configured groups name configurators)
        (bytes_eq default_column_family_name name || bytes_eq metadata_column_family_name name)
        needed) [
          | inl configured ↦
              all_present-elem groups drops name names configurators present configured
          | inr required ↦ all_elem-elem name names built_in both (
              one_of (bytes_eq default_column_family_name name)
                (bytes_eq metadata_column_family_name name) required)
        ]
    where
      one_of : (a b : Bool) → (a || b) ≡ true → (a || (b || false)) ≡ true
      one_of a b h = ground arith

  -- The column families that are open, and the groups.
  abbrev pub AreNeeded : Families → Type 0
  AreNeeded f =
      ((name : List ℕ) → elem name f.column_family_map ≡ is_needed groups name configurators)
      × (f.column_family_group_map ≡ group_table groups)

  opened-AreNeeded :
      (storage : Storage) (create : Bool) (default_options metadata_options : Options)
      (p : Table Options × Table Options) (existing : List (List ℕ)) (f : Families)
      → plan groups drops configurators default_options metadata_options ≡ some p
      → open_families groups drops configurators storage create p.0 p.1 existing ≡ some f
      → AreNeeded f
  unfolding open_families
  opened-AreNeeded storage create default_options metadata_options p existing f planned h =
      let names = erase_all (keys p.1) (existing ++ missing existing p.0) in
      let (checked, e) =
        if-some
          (all_known p.0 p.1 existing
            && (storage.opens create && all_created storage.creates (missing existing p.0)))
          (finish groups drops configurators names (make_groups names groups)) f h in
      let (known, more) = &&-both (all_known p.0 p.1 existing) _ checked in
      finished names
        (λ name there.
          sym (has-plan groups drops name configurators default_options metadata_options p planned)
          ∙ opened-has groups drops name p.0 p.1 existing known there)
        (make_groups names groups) refl e
    where
      finished :
          (names : List (List ℕ))
          → ((name : List ℕ) → elem name names ≡ true → is_needed groups name configurators ≡ true)
          → (made : Option (Table (List (List ℕ)))) → make_groups names groups ≡ made
          → finish groups drops configurators names made ≡ some f
          → AreNeeded f
      finished names only none m e = absurd (cc)
      finished names only (some made) m e =
          let (checked, same) =
            if-some
              (all_elem names (default_column_family_name ∷ metadata_column_family_name ∷ [])
                && all_present groups names configurators)
              (some (record { column_family_map = names; column_family_group_map = made })) f e in
          let same' : record { column_family_map = names; column_family_group_map = made } ≡ f =
            cc in
          subst AreNeeded same' (
            λ name.
                same_tests (elem name names) (is_needed groups name configurators) (only name)
                  (needed-elem name names checked),
            make_groups-table names groups made m,
          )

  -- When the server has opened its database, whatever was in it and whatever configurations were given, exactly the column families
  -- that it needs are open: the default one, the one for metadata, and those of the
  -- configurators, a single one each or those of a group. None that was to drop is left, and each
  -- configured group consists of its column families, in the order of its shards.
  pub initialize_rocks_db-AreNeeded :
      (storage : Storage) (create_if_missing create_if_missing_one_off : Bool)
      (can_apply : Option Bool) (default_options metadata_options : Options) (f : Families)
      → initialize_rocks_db groups drops configurators storage create_if_missing
          create_if_missing_one_off can_apply default_options metadata_options
        ≡ some f
      → AreNeeded f
  unfolding initialize_rocks_db
  initialize_rocks_db-AreNeeded storage create_if_missing create_if_missing_one_off can_apply
        default_options metadata_options f h =
      by_plan
        (create_if_missing_option storage.db_exists create_if_missing create_if_missing_one_off
          can_apply)
        (plan groups drops configurators default_options metadata_options)
        (existing_column_families storage) refl h
    where
      by_plan :
          (c : Option Bool) (o : Option (Table Options × Table Options))
          (existing : Option (List (List ℕ)))
          → plan groups drops configurators default_options metadata_options ≡ o
          → open_planned groups drops configurators storage c o existing ≡ some f
          → AreNeeded f
      by_plan none o existing e h = absurd (cc)
      by_plan (some c) none existing e h = absurd (cc)
      by_plan (some c) (some p) none e h = absurd (cc)
      by_plan (some c) (some p) (some existing) e h =
          opened-AreNeeded storage c default_options metadata_options p existing f e h
