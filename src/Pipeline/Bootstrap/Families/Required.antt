-- ===== src/Pipeline/Bootstrap/Families/Required.antt =====
-- The column families that initializeRocksDb of pipeline/RedisPipelineBootstrap.cpp opens.
use smyte_db.Prelude.{
  ℕ, ◌≡◌, refl, sym, ap, ◌∙◌, List, [], ◌∷◌, ◌++◌, Bool, true, false, ◌&&◌, ◌||◌, not, Option, none,
  some, bytes_eq, bytes_eq_sound, arith, Bool-cases, Option-cases, inl, inr, ||-either, &&-both,
}
use smyte_db.Pipeline.Table.{Table, find}
use smyte_db.Pipeline.Bootstrap.Families.{
  GroupConfig, elem, has, keys, names_or_own, names_to_drop, assign_all, drop_all, configure,
  add_missing, all_known, missing, erase_all, all_elem, all_present, default_column_family_name,
  metadata_column_family_name, plan, with_defaults,
}
use smyte_db.Pipeline.Bootstrap.Families.Names.{
  elem-append, elem-erase_all, has-assign, has-assign_all, elem-keys, missing-has, all_elem-elem,
}

-- A column family is configured if it is one of a configurator's.
unfoldable pub is_configured :
    {Options : Type 0} → Table GroupConfig → List ℕ → Table Options → Bool
is_configured groups name [] = false
is_configured groups name ((k, options) ∷ configurators) =
    elem name (names_or_own k (find k groups)) || is_configured groups name configurators

-- The column families that a server needs.
abbrev pub is_needed : {Options : Type 0} → Table GroupConfig → List ℕ → Table Options → Bool
is_needed groups name configurators =
    is_configured groups name configurators
    || (bytes_eq default_column_family_name name || bytes_eq metadata_column_family_name name)

add_missing-has :
    {Options : Type 0} (name key : List ℕ) (options : Options) (t : Table Options)
    → has name (add_missing key options t) ≡ (has name t || bytes_eq key name)
add_missing-has name key options t = elim (Bool-cases (has key t)) [
  | inl there ↦ rw there (kept there)
  | inr gone ↦ rw gone (has-assign name key options t ∙ swap (bytes_eq key name) (has name t))
]
  where
    swap : (a b : Bool) → (a || b) ≡ (b || a)
    swap a b = ground arith

    found : has key t ≡ true → bytes_eq key name ≡ true → has name t ≡ true
    found there same = rw (bytes_eq_sound key name same) at there

    kept : has key t ≡ true → has name t ≡ (has name t || bytes_eq key name)
    kept there = ground (arith, found there)

module _ {Options : Type 0} (groups drops : Table GroupConfig) where
  pub has-configure :
      (name : List ℕ) (configurators required dropped : Table Options)
      (p : Table Options × Table Options)
      → configure groups drops configurators required dropped ≡ some p
      → has name p.0 ≡ (is_configured groups name configurators || has name required)
  unfolding configure is_configured
  has-configure name [] required dropped p h =
      let same : (required, dropped) ≡ p = cc in ap (λ q. has name q.0) (sym same)
  has-configure name ((k, options) ∷ configurators) required dropped p h =
      let required' = assign_all (names_or_own k (find k groups)) options required in
      elim (Option-cases (drop_all (names_to_drop k (find k drops)) options required' dropped)) [
        | inl stops ↦ let impossible : none ≡ some p = rw (stops, configure) at h in absurd (cc)
        | inr (dropped', e) ↦
            let rest : configure groups drops configurators required' dropped' ≡ some p =
              rw (e, configure) at h in
            has-configure name configurators required' dropped' p rest
            ∙ ap (λ b. is_configured groups name configurators || b)
                (has-assign_all name (names_or_own k (find k groups)) options required)
            ∙ regroup (elem name (names_or_own k (find k groups)))
                (is_configured groups name configurators) (has name required)
      ]
    where
      regroup : (a b c : Bool) → (b || (a || c)) ≡ ((a || b) || c)
      regroup a b c = ground arith

  -- The required column families are those that are needed.
  pub has-plan :
      (name : List ℕ) (configurators : Table Options) (default_options metadata_options : Options)
      (p : Table Options × Table Options)
      → plan groups drops configurators default_options metadata_options ≡ some p
      → has name p.0 ≡ is_needed groups name configurators
  unfolding plan find
  has-plan name configurators default_options metadata_options p h =
      by_result (configure groups drops configurators [] []) refl h
    where
      regroup : (a b c : Bool) → (((a || false) || b) || c) ≡ (a || (b || c))
      regroup a b c = ground arith

      by_result :
          (o : Option (Table Options × Table Options))
          → configure groups drops configurators [] [] ≡ o
          → with_defaults groups drops configurators default_options metadata_options o ≡ some p
          → has name p.0 ≡ is_needed groups name configurators
      by_result none e h = absurd (cc)
      by_result (some (required, dropped)) e h =
          let with_default = add_missing default_column_family_name default_options required in
          let same : (
            add_missing metadata_column_family_name metadata_options with_default,
            dropped,
          )
              ≡ p =
            cc in
          let d = bytes_eq default_column_family_name name in
          let m = bytes_eq metadata_column_family_name name in
          ap (λ q. has name q.0) (sym same)
          ∙ add_missing-has name metadata_column_family_name metadata_options with_default
          ∙ ap (λ b. b || m)
              (add_missing-has name default_column_family_name default_options required)
          ∙ ap (λ b. (b || d) || m) (has-configure name configurators [] [] (required, dropped) e)
          ∙ regroup (is_configured groups name configurators) d m

  pub all_present-elem :
      (name : List ℕ) (names : List (List ℕ)) (configurators : Table Options)
      → all_present groups names configurators ≡ true
      → is_configured groups name configurators ≡ true
      → elem name names ≡ true
  unfolding all_present is_configured
  all_present-elem name names [] h c = absurd (cc)
  all_present-elem name names ((k, options) ∷ configurators) h c =
      let (here, rest) =
        &&-both (all_elem names (names_or_own k (find k groups)))
          (all_present groups names configurators) h in
      elim (||-either (elem name (names_or_own k (find k groups)))
        (is_configured groups name configurators) c) [
          | inl own ↦ all_elem-elem name names (names_or_own k (find k groups)) here own
          | inr further ↦ all_present-elem name names configurators rest further
        ]

  pub all_known-either :
      (name : List ℕ) (required dropped : Table Options) (existing : List (List ℕ))
      → all_known required dropped existing ≡ true
      → elem name existing ≡ true
      → (has name required || has name dropped) ≡ true
  unfolding all_known elem
  all_known-either name required dropped [] h e = absurd (cc)
  all_known-either name required dropped (x ∷ xs) h e =
      let (here, rest) =
        &&-both (has x required || has x dropped) (all_known required dropped xs) h in
      elim (||-either (bytes_eq x name) (elem name xs) e) [
        | inl same ↦ rw (bytes_eq_sound x name same) at here
        | inr further ↦ all_known-either name required dropped xs rest further
      ]

  -- What is there in the end is required: it was there and is not dropped, or it was missing.
  pub opened-has :
      (name : List ℕ) (required dropped : Table Options) (existing : List (List ℕ))
      → all_known required dropped existing ≡ true
      → elem name (erase_all (keys dropped) (existing ++ missing existing required)) ≡ true
      → has name required ≡ true
  opened-has name required dropped existing known h =
      let left : (elem name (existing ++ missing existing required)
            && not (elem name (keys dropped)))
          ≡ true =
        sym (elem-erase_all name (keys dropped) (existing ++ missing existing required)) ∙ h in
      let (there, kept) =
        &&-both (elem name (existing ++ missing existing required)) (not (elem name (keys dropped)))
          left in
      let not_dropped : not (has name dropped) ≡ true =
        ap not (sym (elem-keys name dropped)) ∙ kept in
      elim (||-either (elem name existing) (elem name (missing existing required))
        (sym (elem-append name existing (missing existing required)) ∙ there)) [
          | inl old ↦
              let either : (has name required || has name dropped) ≡ true =
                all_known-either name required dropped existing known old in
              ground arith
          | inr new ↦ missing-has name existing required new
        ]
