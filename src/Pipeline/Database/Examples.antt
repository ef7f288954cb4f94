-- ===== src/Pipeline/Database/Examples.antt =====
-- A key with a blank, a percent sign and a tilde, and a database with a manifest and a log.
use smyte_db.Prelude.{
  ℕ, ◌≡◌, refl, List, [], ◌∷◌, ◌++◌, true, none, some, arith, codes, All, replicate,
}
use smyte_db.Prelude.Int.{ℤ, pos}
use smyte_db.Codec.Value.Encode.{decimal}
use smyte_db.Pipeline.Database.{
  Answers, escape_key_str, escape_loop, hex_value, freeze, live_names, log_names, starts_with,
}
use smyte_db.Pipeline.Database.Keys.{IsPlain, unescape, escape_key_str_lem}

escape_key_str_lem_example :
    (key : List ℕ) × (escape_key_str (codes "a %~b") (codes "k:") ≡ codes "k:" ++ key)
    × All IsPlain key
    × (unescape key ≡ codes "a %~b")
escape_key_str_lem_example =
    escape_key_str_lem (codes "a %~b") (codes "k:")
      (omega arith, (omega arith, (omega arith, (omega arith, (omega arith, tt)))))

escape-blank : escape_key_str (codes "a %~b") (codes "k:") ≡ codes "k:a%20%25%7Eb"
unfolding escape_key_str escape_loop hex_value
escape-blank = refl

abbrev one_byte : ℤ → List ℕ
one_byte x = 7 ∷ replicate 7 0

abbrev seven : List ℕ → ℤ
seven bytes = pos 7

abbrev answers : Answers
answers = record {
  disabled = true;
  live_files = some (codes "/CURRENT" ∷ codes "/MANIFEST-01" ∷ [], 5);
  wal_files = none;
}

freeze_names :
    (freeze (record answers { wal_files = some ((codes "/02.log", 9) ∷ []) }) []).file_list
    ≡ codes "/CURRENT" ∷ codes "/MANIFEST-01:5" ∷ codes "/02.log:9" ∷ []
unfolding freeze live_names log_names starts_with decimal
freeze_names = refl
