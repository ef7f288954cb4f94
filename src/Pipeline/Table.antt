-- ===== src/Pipeline/Table.antt =====
-- The command handler tables of pipeline/RedisHandler.h, and the check of a command's arguments in
-- pipeline/RedisHandler.cpp. A command is the list of its strings, the name first; a table is an
-- association list, of which the code uses look-ups and insertions that keep what is there.
use smyte_db.Prelude.{
  ℕ, ◌≡◌, refl, sym, ap, ◌∙◌, ◌⊎◌, ◌↔◌, inl, inr, List, [], ◌∷◌, ◌++◌, Bool, true, false, ◌&&◌,
  ◌||◌, Option, none, some, length, bytes_eq, bytes_eq_sound, if◌then◌else◌, arith, codes,
  Bool-cases,
}
use smyte_db.Prelude.Int.{ℤ, negsuc, eqb_ℤ, leb_ℤ, sub_ℕ, ◌≤ℤ◌}
use smyte_db.Codec.Value.{RedisValue, RedisMessage, error, simple_string}

abbrev pub Command : Type 0
Command = List (List ℕ)

pub record CommandHandler (F : Type 0) : Type 0 where
  pub handler_func : F
  pub min_args : ℤ
  pub max_args : ℤ

abbrev pub Table : Type 0 → Type 0
Table A = List (List ℕ × A)

module _ {A : Type 0} where
  unfoldable pub find : List ℕ → Table A → Option A
  find name [] = none
  find name ((n, h) ∷ t) = if bytes_eq n name then some h else find name t

  -- An insertion that does nothing if the key is there.
  unfoldable pub insert : List ℕ × A → Table A → Table A
  unfolding find
  insert (n, h) t = elim (find n t) [ none ↦ t ++ (n, h) ∷ [] | some old ↦ t ]

  unfoldable pub insert_all : Table A → Table A → Table A
  unfolding insert
  insert_all [] t = t
  insert_all (e ∷ es) t = insert_all es (insert e t)

  -- The second, unless the first is there.
  abbrev pub or_else : Option A → Option A → Option A
  or_else none b = b
  or_else (some a) b = some a

  find-append :
      (name : List ℕ) (t u : Table A) → find name (t ++ u) ≡ or_else (find name t) (find name u)
  unfolding find
  find-append name [] u = refl
  find-append name ((n, h) ∷ t) u = ground (arith, find-append name t u)

  or_else-none : (o : Option A) → or_else o none ≡ o
  or_else-none none = refl
  or_else-none (some a) = refl

  or_else_assoc : (a b c : Option A) → or_else (or_else a b) c ≡ or_else a (or_else b c)
  or_else_assoc none b c = refl
  or_else_assoc (some a) b c = refl

  find_present :
      (name n : List ℕ) (h old : A) (t : Table A)
      → find n t ≡ some old
      → find name t ≡ or_else (find name t) (if bytes_eq n name then some h else none)
  find_present name n h old t e = elim (Bool-cases (bytes_eq n name)) [
    | inl same ↦ let f = ap (λ k. find k t) (sym (bytes_eq_sound n name same)) ∙ e in rw f refl
    | inr other ↦ rw other (sym (or_else-none (find name t)))
  ]

  find-insert :
      (name n : List ℕ) (h : A) (t : Table A)
      → find name (insert (n, h) t)
        ≡ or_else (find name t) (if bytes_eq n name then some h else none)
  find-insert name n h t = by_presence (find n t) refl
    where
      by_presence :
          (o : Option A)
          → find n t ≡ o
          → find name (insert (n, h) t)
            ≡ or_else (find name t) (if bytes_eq n name then some h else none)
      by_presence none e =
          unfold insert in
          rw (e, insert) (rw (find-append name t ((n, h) ∷ [])) (unfold find in refl))
      by_presence (some old) e = unfold insert in rw (e, insert) (find_present name n h old t e)

  -- After all insertions, a name is looked up in the old table and then in the new one.
  pub find-insert_all :
      (name : List ℕ) (es t : Table A)
      → find name (insert_all es t) ≡ or_else (find name t) (find name es)
  unfolding insert_all
  find-insert_all name [] t = sym (or_else-none (find name t))
  find-insert_all name ((n, h) ∷ es) t =
      find-insert_all name es (insert (n, h) t)
      ∙ ap (λ o. or_else o (find name es)) (find-insert name n h t)
      ∙ or_else_assoc (find name t) _ (find name es)
      ∙ ap (or_else (find name t)) (head_first (bytes_eq n name))
    where
      head_first :
          (b : Bool)
          → or_else (if b then some h else none) (find name es)
            ≡ (if b then some h else find name es)
      head_first true = refl
      head_first false = refl

-- `int numArgs = cmd.size() - 1`, which is -1 for an empty command.
unfoldable pub num_args : Command → ℤ
num_args cmd = sub_ℕ (length cmd) 1

unfoldable pub validate_arg_count : Command → ℤ → ℤ → Bool
unfolding num_args
validate_arg_count cmd min_args max_args =
    if eqb_ℤ min_args (negsuc 0) && eqb_ℤ max_args (negsuc 0)
    then true
    else (eqb_ℤ min_args (negsuc 0) || leb_ℤ min_args (num_args cmd))
      && (eqb_ℤ max_args (negsuc 0) || leb_ℤ (num_args cmd) max_args)

-- The check lets a command pass exactly if each bound that is not -1 is kept.
pub validate_arg_count_iff :
    (cmd : Command) (min_args max_args : ℤ)
    → (validate_arg_count cmd min_args max_args ≡ true) ↔ (
        ((min_args ≡ negsuc 0) ⊎ (min_args ≤ℤ num_args cmd))
        × ((max_args ≡ negsuc 0) ⊎ (num_args cmd ≤ℤ max_args)))
unfolding validate_arg_count
validate_arg_count_iff cmd min_args max_args = (λ h. ground arith, λ h. ground arith)

-- kWrongNumArgsTemplate with a name put in.
unfoldable pub wrong_num_args : List ℕ → List ℕ
wrong_num_args name = codes "Wrong number of arguments for '" ++ (name ++ codes "' command")

-- The message of writeError.
abbrev pub error_message : ℤ → List ℕ → RedisMessage
error_message key msg = record { key = key; val = error msg }

abbrev pub simple_string_ok : RedisValue
simple_string_ok = simple_string (codes "OK")
