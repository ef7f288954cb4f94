-- ===== src/RocksDb.antt =====
-- RocksDB, which the program only calls, as a record: column families of keys and values, write
-- batches, and iterators with an upper bound. The laws are what RocksDB documents: an iterator
-- yields a family's entries up to the bound, a look-up finds them, and the updates of a batch take
-- effect in their order, and all of them if the write succeeds. That the entries come in the
-- order of their keys is stated where it is used.
pub mod Concrete
use smyte_db.Prelude.{
  ℕ, List, [], ◌∷◌, ◌≡◌, Bool, true, false, Option, none, some, if◌then◌else◌, bytes_eq, All,
}
use smyte_db.Endian.Order.{lex_lt}

abbrev pub Entry : Type 0
Entry = List ℕ × List ℕ

-- The entries in front of the first one that is not below the bound.
unfoldable pub before : List ℕ → List Entry → List Entry
before bound [] = []
before bound (e ∷ es) = let rest = before bound es in if lex_lt e.0 bound then e ∷ rest else []

unfoldable pub find_entry : List ℕ → List Entry → Option (List ℕ)
find_entry k [] = none
find_entry k (e ∷ es) = if bytes_eq k e.0 then some e.1 else find_entry k es

-- Each key is below all that follow it.
abbrev pub Ascending : List Entry → Type 0
Ascending [] = Unit
Ascending (e ∷ es) = All (λ later. lex_lt e.0 later.0 ≡ true) es × Ascending es

pub record RocksDb : Type 1 where
  pub Db : Type 0
  pub Family : Type 0
  pub Batch : Type 0
  pub empty_batch : Batch
  pub put : Family → List ℕ → List ℕ → Batch → Batch
  pub delete : Family → List ℕ → Batch → Batch
  -- `none` is the status ok, `some` a text
  pub write : Batch → Db → Option (List ℕ) × Db
  -- what a Get finds, and the text of its status if that is neither ok nor not-found
  pub get : Family → List ℕ → Db → Option (List ℕ)
  pub get_error : Family → List ℕ → Db → Option (List ℕ)
  pub entries : Family → Db → List Entry
  -- SeekToFirst and Next, with `iterate_upper_bound`
  pub iterate : Family → List ℕ → Db → List Entry
  -- what a batch makes of the value of a key
  pub after : Family → List ℕ → Batch → Option (List ℕ) → Option (List ℕ)
  pub after-empty : (f : Family) (k : List ℕ) (o : Option (List ℕ)) → after f k empty_batch o ≡ o
  pub after-put :
      (f : Family) (k k' v : List ℕ) (b : Batch) (o : Option (List ℕ))
      → after f k (put f k' v b) o ≡ (if bytes_eq k k' then some v else after f k b o)
  pub after-delete :
      (f : Family) (k k' : List ℕ) (b : Batch) (o : Option (List ℕ))
      → after f k (delete f k' b) o ≡ (if bytes_eq k k' then none else after f k b o)
  pub get-write :
      (f : Family) (k : List ℕ) (b : Batch) (db : Db)
      → (write b db).0 ≡ none
      → get f k (write b db).1 ≡ after f k b (get f k db)
  pub get-entries : (f : Family) (k : List ℕ) (db : Db) → get f k db ≡ find_entry k (entries f db)
  pub iterate-before :
      (f : Family) (bound : List ℕ) (db : Db) → iterate f bound db ≡ before bound (entries f db)
