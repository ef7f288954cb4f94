-- ===== src/Kafka/Store/Log.antt =====
-- The log of a partition, of which infra/kafka/store/Consumer.cpp reads the files.
use smyte_db.Prelude.{
  ℕ, zero, suc, ◌+◌, ◌≡◌, refl, ap, List, [], ◌∷◌, ◌++◌, Option, none, some, arith,
}
use smyte_db.Prelude.Int.{ℤ}
use smyte_db.Kafka.Store.{Answer, State, Origin, object_name, validate}

module _ {Message : Type 0} (log : ℕ → Message) where
  -- The messages from an offset on.
  abbrev pub segment : ℕ → ℕ → List Message
  segment start zero = []
  segment start (suc n) = log start ∷ segment (start + 1) n

  -- The same with their offsets.
  abbrev pub numbered : ℕ → ℕ → List (ℕ × Message)
  numbered start zero = []
  numbered start (suc n) = (start, log start) ∷ numbered (start + 1) n

  pub numbered-append :
      (start m n : ℕ) → numbered start m ++ numbered (start + m) n ≡ numbered start (m + n)
  numbered-append start zero n =
      let e : start + 0 ≡ start = omega arith in let e' : 0 + n ≡ n = omega arith in rw (e, e') refl
  numbered-append start (suc m) n =
      let e : start + suc m ≡ start + 1 + m = omega arith in
      let e' : suc m + n ≡ suc (m + n) = omega arith in
      rw (e, e') (ap (λ l. (start, log start) ∷ l) (numbered-append (start + 1) m n))

  -- The reader of a file of which so many records are left.
  abbrev pub reader_at : ℕ → ℕ → Option (List Message)
  reader_at start zero = none
  reader_at start (suc n) = some (segment start (suc n))

  -- The reader holds the messages from the next offset on, up to the file that comes next; there
  -- is none between two files.
  abbrev pub IsConsistent : State Message → Type 0
  IsConsistent s =
      (left : ℕ) × (s.next_file_offset ≡ s.next_kafka_offset + left)
      × (s.current_data_reader ≡ reader_at s.next_kafka_offset left)

  -- A store is genuine if an object that passes the validation holds as many messages of the log as
  -- it counts, from the offset in its name on.
  abbrev pub IsGenuine : (List ℕ → Option ℤ) → Origin → (List ℕ → Answer Message) → Type 0
  IsGenuine to_int64 origin store =
      (file_offset : ℕ) (file : ℕ × List Message)
      → validate to_int64 (store (object_name origin file_offset)) ≡ some file
      → file.1 ≡ segment file_offset file.0
