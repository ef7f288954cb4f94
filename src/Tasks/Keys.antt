-- ===== src/Tasks/Keys.antt =====
-- The keys of scheduled tasks (infra/ScheduledTask.h): their order is that of the tasks' times.
use smyte_db.Prelude.{
  ℕ, ◌<◌, ◌≤◌, ◌≡◌, ◌≢◌, refl, sym, ◌∙◌, List, [], ◌∷◌, ◌++◌, true, false, ltb, arith, append-nil,
  subst,
}
use smyte_db.Prelude.Int.{pos}
use smyte_db.Endian.{Endian}
use smyte_db.Endian.Order.{lex_lt, lex_lt-of_digits, lex_lt-append}
use smyte_db.Tasks.{ScheduledTask}

lex_lt_asym : (xs ys : List ℕ) → lex_lt xs ys ≡ true → lex_lt ys xs ≡ false
unfolding lex_lt
lex_lt_asym [] [] h = refl
lex_lt_asym [] (y ∷ ys) h = refl
lex_lt_asym (x ∷ xs) [] h = absurd (cc)
lex_lt_asym (x ∷ xs) (y ∷ ys) h = ground (arith, lex_lt_asym xs ys)

lex_lt_prefix : (xs us : List ℕ) → lex_lt (xs ++ us) xs ≡ false
unfolding lex_lt
lex_lt_prefix [] [] = refl
lex_lt_prefix [] (u ∷ us) = refl
lex_lt_prefix (x ∷ xs) us = ground (arith, lex_lt_prefix xs us)

module _ (e : Endian) where
  open e use {store, length-store, store-IsBytes, of_digits-store}

  -- A new task whose time is a number of milliseconds that fits in int64_t.
  pub record IsNew (t : ScheduledTask) : Type 0 where
    pub millis : ℕ
    pub in_range : millis < 9223372036854775808
    pub time : t.scheduled_time_ms ≡ pos millis
    pub key : t.key ≡ store 8 (pos millis) ++ t.data_key
    pub has_data_key : t.data_key ≢ []
    pub completed : t.completed ≡ false

  pub store-order :
      (m n : ℕ)
      → m < 9223372036854775808
      → n < 9223372036854775808
      → lex_lt (store 8 (pos m)) (store 8 (pos n)) ≡ ltb m n
  store-order m n hm hn =
      lex_lt-of_digits (store 8 (pos m)) (store 8 (pos n))
        (omega (arith, length-store 8 (pos m), length-store 8 (pos n))) (store-IsBytes 8 (pos m))
        (store-IsBytes 8 (pos n))
      ∙ ground (arith, of_digits-store 8 (pos m), of_digits-store 8 (pos n))

  -- The earlier of two times comes first, whatever follows the timestamps.
  pub earlier_first :
      (m n : ℕ) (us vs : List ℕ)
      → m < n
      → n < 9223372036854775808
      → lex_lt (store 8 (pos m) ++ us) (store 8 (pos n) ++ vs) ≡ true
  earlier_first m n us vs h hn =
      lex_lt-append (store 8 (pos m)) (store 8 (pos n)) us vs
        (omega (arith, length-store 8 (pos m), length-store 8 (pos n)))
        (ground (arith, store-order m n))

  pub times_ascend :
      (m n : ℕ) (us vs : List ℕ)
      → m < 9223372036854775808
      → lex_lt (store 8 (pos m) ++ us) (store 8 (pos n) ++ vs) ≡ true
      → m ≤ n
  times_ascend m n us vs hm h =
      ground (
        arith,
        earlier_first n m vs us,
        lex_lt_asym (store 8 (pos n) ++ vs) (store 8 (pos m) ++ us),
      )

  -- The same, with nothing behind the later or the earlier one.
  before_bound :
      (m bound : ℕ) (us : List ℕ)
      → m < bound
      → bound < 9223372036854775808
      → lex_lt (store 8 (pos m) ++ us) (store 8 (pos bound)) ≡ true
  before_bound m bound us h hb =
      subst (λ l. lex_lt (store 8 (pos m) ++ us) l ≡ true) (append-nil (store 8 (pos bound)))
        (earlier_first m bound us [] h hb)

  bound_before :
      (bound m : ℕ) (us : List ℕ)
      → bound < m
      → m < 9223372036854775808
      → lex_lt (store 8 (pos bound)) (store 8 (pos m) ++ us) ≡ true
  bound_before bound m us h hm =
      subst (λ l. lex_lt l (store 8 (pos m) ++ us) ≡ true) (append-nil (store 8 (pos bound)))
        (earlier_first bound m [] us h hm)

  at_bound :
      (m bound : ℕ) (us : List ℕ)
      → m ≡ bound
      → lex_lt (store 8 (pos m) ++ us) (store 8 (pos bound)) ≡ false
  at_bound m bound us q =
      subst (λ n. lex_lt (store 8 (pos n) ++ us) (store 8 (pos bound)) ≡ false) (sym q)
        (lex_lt_prefix (store 8 (pos bound)) us)

  -- A key lies below an encoded bound exactly if its time does.
  pub key_below :
      (m bound : ℕ) (us : List ℕ)
      → m < 9223372036854775808
      → bound < 9223372036854775808
      → lex_lt (store 8 (pos m) ++ us) (store 8 (pos bound)) ≡ ltb m bound
  key_below m bound us hm hb = ground (
    arith,
    before_bound m bound us,
    at_bound m bound us,
    bound_before bound m us,
    lex_lt_asym (store 8 (pos bound)) (store 8 (pos m) ++ us),
  )
