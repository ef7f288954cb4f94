-- ===== src/RocksDb/Concrete.antt =====
-- A store with one family: its entries in the order of their keys. A batch is the list of its
-- updates, the last one first.
use smyte_db.Prelude.{
  ℕ, List, [], ◌∷◌, ◌≡◌, refl, sym, ap, ◌∙◌, true, Option, none, some, if◌then◌else◌, bytes_eq,
  bytes_eq_sound, arith,
}
use smyte_db.Endian.Order.{lex_lt}
use smyte_db.RocksDb.{Entry, before, find_entry, RocksDb}

-- An update: a value to put, or none to delete.
abbrev pub Update : Type 0
Update = List ℕ × Option (List ℕ)

unfoldable pub insert_entry : List ℕ → List ℕ → List Entry → List Entry
insert_entry k v [] = (k, v) ∷ []
insert_entry k v (e ∷ es) =
    let rest = insert_entry k v es in
    if bytes_eq k e.0 then (k, v) ∷ es else if lex_lt k e.0 then (k, v) ∷ e ∷ es else e ∷ rest

unfoldable pub remove_entry : List ℕ → List Entry → List Entry
remove_entry k [] = []
remove_entry k (e ∷ es) = let rest = remove_entry k es in if bytes_eq k e.0 then rest else e ∷ rest

unfoldable pub apply_update : Update → List Entry → List Entry
unfolding insert_entry remove_entry
apply_update (k, some v) es = insert_entry k v es
apply_update (k, none) es = remove_entry k es

unfoldable pub apply_all : List Update → List Entry → List Entry
unfolding apply_update
apply_all [] es = es
apply_all (u ∷ us) es = apply_update u (apply_all us es)

unfoldable pub after_all : List ℕ → List Update → Option (List ℕ) → Option (List ℕ)
after_all k [] o = o
after_all k (u ∷ us) o = let rest = after_all k us o in if bytes_eq k u.0 then u.1 else rest

same_test : (k j i : List ℕ) → bytes_eq j i ≡ true → bytes_eq k i ≡ bytes_eq k j
same_test k j i h = ap (bytes_eq k) (sym (bytes_eq_sound j i h))

same_key : (k j i : List ℕ) → bytes_eq k j ≡ true → bytes_eq j i ≡ bytes_eq k i
same_key k j i h = ap (λ l. bytes_eq l i) (sym (bytes_eq_sound k j h))

find-insert :
    (k j v : List ℕ) (es : List Entry)
    → find_entry k (insert_entry j v es) ≡ (if bytes_eq k j then some v else find_entry k es)
unfolding find_entry insert_entry
find-insert k j v [] = refl
find-insert k j v (e ∷ es) =
    ground (arith, find-insert k j v es, same_test k j e.0, same_key k j e.0)

find-remove :
    (k j : List ℕ) (es : List Entry)
    → find_entry k (remove_entry j es) ≡ (if bytes_eq k j then none else find_entry k es)
unfolding find_entry remove_entry
find-remove k j [] = ground arith
find-remove k j (e ∷ es) = ground (arith, find-remove k j es, same_test k j e.0, same_key k j e.0)

pub find-apply_all :
    (k : List ℕ) (us : List Update) (es : List Entry)
    → find_entry k (apply_all us es) ≡ after_all k us (find_entry k es)
unfolding apply_all after_all
find-apply_all k [] es = refl
find-apply_all k ((j, some v) ∷ us) es =
    find-insert k j v (apply_all us es)
    ∙ ap (λ o. if bytes_eq k j then some v else o) (find-apply_all k us es)
find-apply_all k ((j, none) ∷ us) es =
    find-remove k j (apply_all us es)
    ∙ ap (λ o. if bytes_eq k j then none else o) (find-apply_all k us es)

pub after_all-nil : (k : List ℕ) (o : Option (List ℕ)) → after_all k [] o ≡ o
unfolding after_all
after_all-nil k o = refl

pub after_all-cons :
    (k : List ℕ) (u : Update) (us : List Update) (o : Option (List ℕ))
    → after_all k (u ∷ us) o ≡ (if bytes_eq k u.0 then u.1 else after_all k us o)
unfolding after_all
after_all-cons k u us o = refl

-- Reads and writes succeed.
abbrev pub sorted_db : RocksDb
sorted_db = record {
  Db = List Entry;
  Family = Unit;
  Batch = List Update;
  empty_batch = [];
  put = λ f k v b. (k, some v) ∷ b;
  delete = λ f k b. (k, none) ∷ b;
  write = λ b db. (none, apply_all b db);
  get = λ f k db. find_entry k db;
  get_error = λ f k db. none;
  entries = λ f db. db;
  iterate = λ f bound db. before bound db;
  after = λ f k b o. after_all k b o;
  after-empty = λ f k o. after_all-nil k o;
  after-put = λ f k k' v b o. after_all-cons k (k', some v) b o;
  after-delete = λ f k k' b o. after_all-cons k (k', none) b o;
  get-write = λ f k b db h. find-apply_all k b db;
  get-entries = λ f k db. refl;
  iterate-before = λ f bound db. refl;
}
