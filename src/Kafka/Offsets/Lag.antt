-- ===== src/Kafka/Offsets/Lag.antt =====
-- The lag of consumers in infra/kafka/ConsumerHelper.h.
use smyte_db.Prelude.{
  ℕ, ◌≡◌, refl, sym, ap, ◌∙◌, List, [], ◌∷◌, Bool, true, false, Option, some, if◌then◌else◌,
  bytes_eq, bytes_eq_sound, bytes_eq_refl, arith, Bool-cases, inl, inr,
}
use smyte_db.Pipeline.Table.{Table, find}
use smyte_db.Kafka.Offsets.{Helper, assign, any_lagging, set_no_lag}

same_test : (k j i : List ℕ) → bytes_eq j i ≡ true → bytes_eq k i ≡ bytes_eq k j
same_test k j i h = ap (bytes_eq k) (sym (bytes_eq_sound j i h))

find-same :
    {A : Type 0} (k key name : List ℕ) (v old : A) (rest : Option A)
    → bytes_eq k key ≡ true
    → (if bytes_eq k name then some v else rest)
      ≡ (if bytes_eq key name then some v else (if bytes_eq k name then some old else rest))
find-same k key name v old rest h = rw (bytes_eq_sound k key h) (ground arith)

same_name :
    (k key name : List ℕ)
    → bytes_eq k name ≡ true
    → bytes_eq key name ≡ true
    → bytes_eq k key ≡ true
same_name k key name h j =
    rw (bytes_eq_sound k name h, bytes_eq_sound key name j) (bytes_eq_refl name)

find-other :
    {A : Type 0} (k key name : List ℕ) (v old : A) (rest : Option A)
    → bytes_eq k key ≡ false
    → (if bytes_eq k name then some old else (if bytes_eq key name then some v else rest))
      ≡ (if bytes_eq key name then some v else (if bytes_eq k name then some old else rest))
find-other k key name v old rest h = ground (arith, same_name k key name)

pub find-assign :
    {A : Type 0} (name key : List ℕ) (v : A) (t : Table A)
    → find name (assign key v t) ≡ (if bytes_eq key name then some v else find name t)
unfolding find assign
find-assign name key v [] = refl
find-assign name key v ((k, old) ∷ t) = elim (Bool-cases (bytes_eq k key)) [
  | inl same ↦ rw same (find-same k key name v old (find name t) same)
  | inr other ↦
      rw other (rw (find-assign name key v t) (find-other k key name v old (find name t) other))
]

-- A helper is consistent if it counts as lagging exactly while some consumer does.
abbrev pub IsConsistent : Helper → Type 0
IsConsistent h = h.is_lagging ≡ any_lagging h.lag_statuses

none_lagging :
    (name : List ℕ) (v : Bool) (t : Table Bool)
    → any_lagging t ≡ false
    → find name t ≡ some v
    → v ≡ false
unfolding any_lagging find
none_lagging name v [] h f = absurd (cc)
none_lagging name v ((k, b) ∷ t) h f = ground (arith, none_lagging name v t)

settled :
    (key name : List ℕ) (old : Bool) (t : Table Bool)
    → any_lagging t ≡ false
    → find key t ≡ some old
    → find name t ≡ (if bytes_eq key name then some false else find name t)
settled key name old t h f = elim (Bool-cases (bytes_eq key name)) [
  | inl same ↦ rw same (
      ap (λ n. find n t) (sym (bytes_eq_sound key name same))
      ∙ f
      ∙ ap some (none_lagging key old t h f))
  | inr other ↦ rw other refl
]

-- For a linked consumer of a consistent helper, setNoLag succeeds: the consumer no longer lags, the
-- status of all others is as before, and the helper is consistent again, so that it stops to lag
-- as a whole exactly with the last of its consumers.
pub set_no_lag_lem :
    (h : Helper) (key : List ℕ) (old : Bool)
    → IsConsistent h
    → find key h.lag_statuses ≡ some old
    → (h' : Helper) × (set_no_lag key h ≡ some h')
      × IsConsistent h'
      × ((name : List ℕ)
          → find name h'.lag_statuses
            ≡ (if bytes_eq key name then some false else find name h.lag_statuses))
unfolding set_no_lag
set_no_lag_lem h key old c f = elim (Bool-cases h.is_lagging) [
  | inl lagging ↦ (
    record h {
      lag_statuses = assign key false h.lag_statuses;
      is_lagging = any_lagging (assign key false h.lag_statuses);
    },
    rw (lagging, f)
        (ap
          (λ b. some (record h { lag_statuses = assign key false h.lag_statuses; is_lagging = b }))
          (as_it_is (any_lagging (assign key false h.lag_statuses)))),
    refl,
    λ name. find-assign name key false h.lag_statuses,
  )
  | inr caught_up ↦
      (h, rw caught_up refl, c, λ name. settled key name old h.lag_statuses (sym c ∙ caught_up) f)
]
  where
    as_it_is : (b : Bool) → (if b then true else false) ≡ b
    as_it_is true = refl
    as_it_is false = refl
