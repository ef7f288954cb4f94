-- ===== src/Pipeline/Bootstrap/Families/Names.antt =====
-- Membership in the names and maps of pipeline/RedisPipelineBootstrap.cpp.
use smyte_db.Prelude.{
  ℕ, ◌≡◌, refl, List, [], ◌∷◌, ◌++◌, true, false, ◌&&◌, ◌||◌, not, bytes_eq, bytes_eq_sound,
  bytes_eq_refl, arith, Bool-cases, ||-either, &&-both, inl, inr,
}
use smyte_db.Pipeline.Table.{Table, find}
use smyte_db.Kafka.Offsets.{assign}
use smyte_db.Kafka.Offsets.Lag.{find-assign}
use smyte_db.Pipeline.Bootstrap.Families.{
  elem, has, keys, assign_all, erase, erase_all, missing, all_elem,
}

pub elem-append :
    (name : List ℕ) (xs ys : List (List ℕ)) → elem name (xs ++ ys) ≡ (elem name xs || elem name ys)
unfolding elem
elem-append name [] ys = refl
elem-append name (x ∷ xs) ys = rw (elem-append name xs ys) (ground arith)

same_name :
    (x gone name : List ℕ)
    → bytes_eq x name ≡ true
    → bytes_eq gone name ≡ true
    → bytes_eq x gone ≡ true
same_name x gone name h g =
    rw (bytes_eq_sound x name h, bytes_eq_sound gone name g) (bytes_eq_refl name)

pub elem-erase :
    (name gone : List ℕ) (xs : List (List ℕ))
    → elem name (erase gone xs) ≡ (elem name xs && not (bytes_eq gone name))
unfolding elem erase
elem-erase name gone [] = refl
elem-erase name gone (x ∷ xs) = elim (Bool-cases (bytes_eq x gone)) [
  | inl same ↦ rw same (rw (elem-erase name gone xs, bytes_eq_sound x gone same) (ground arith))
  | inr other ↦ rw other (rw (elem-erase name gone xs) (kept other))
]
  where
    kept :
        bytes_eq x gone ≡ false
        → (bytes_eq x name || (elem name xs && not (bytes_eq gone name)))
          ≡ ((bytes_eq x name || elem name xs) && not (bytes_eq gone name))
    kept other = ground (arith, same_name x gone name)

pub elem-erase_all :
    (name : List ℕ) (gone names : List (List ℕ))
    → elem name (erase_all gone names) ≡ (elem name names && not (elem name gone))
unfolding elem erase_all
elem-erase_all name [] names = ground arith
elem-erase_all name (g ∷ gone) names =
    rw (elem-erase_all name gone (erase g names), elem-erase name g names) (ground arith)

module _ {A : Type 0} where
  pub has-assign :
      (name key : List ℕ) (v : A) (t : Table A)
      → has name (assign key v t) ≡ (bytes_eq key name || has name t)
  has-assign name key v t = rw (find-assign name key v t) (ground arith)

  pub has-assign_all :
      (name : List ℕ) (names : List (List ℕ)) (v : A) (t : Table A)
      → has name (assign_all names v t) ≡ (elem name names || has name t)
  unfolding elem assign_all
  has-assign_all name [] v t = refl
  has-assign_all name (x ∷ xs) v t =
      rw (has-assign_all name xs v (assign x v t), has-assign name x v t) (ground arith)

  pub elem-keys : (name : List ℕ) (t : Table A) → elem name (keys t) ≡ has name t
  unfolding elem find
  elem-keys name [] = refl
  elem-keys name ((k, v) ∷ t) = rw (elem-keys name t) (ground arith)

  -- A missing column family is required.
  pub missing-has :
      (name : List ℕ) (existing : List (List ℕ)) (t : Table A)
      → elem name (missing existing t) ≡ true
      → has name t ≡ true
  unfolding elem missing find
  missing-has name existing [] h = absurd (cc)
  missing-has name existing ((k, v) ∷ t) h = elim (Bool-cases (elem k existing)) [
    | inl there ↦
        let rest : elem name (missing existing t) ≡ true = rw (there, elem, missing) at h in
        let later : has name t ≡ true = missing-has name existing t rest in ground arith
    | inr gone ↦
        let here : (bytes_eq k name || elem name (missing existing t)) ≡ true =
          rw (gone, elem, missing) at h in
        elim (||-either (bytes_eq k name) (elem name (missing existing t)) here) [
          | inl same ↦ rw same refl
          | inr rest ↦
              let later : has name t ≡ true = missing-has name existing t rest in ground arith
        ]
  ]

pub all_elem-elem :
    (name : List ℕ) (names xs : List (List ℕ))
    → all_elem names xs ≡ true
    → elem name xs ≡ true
    → elem name names ≡ true
unfolding elem all_elem
all_elem-elem name names [] h e = absurd (cc)
all_elem-elem name names (x ∷ xs) h e = elim (Bool-cases (bytes_eq x name)) [
  | inl same ↦
      let (here, rest) = &&-both (elem x names) (all_elem names xs) h in
      rw (bytes_eq_sound x name same) at here
  | inr other ↦ all_elem-elem name names xs (ground arith) (ground arith)
]
