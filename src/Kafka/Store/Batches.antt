-- ===== src/Kafka/Store/Batches.antt =====
-- Batches of the consumer in infra/kafka/store/Consumer.cpp, against the log of the partition.
use smyte_db.Prelude.{
  ℕ, zero, suc, subst, ◌+◌, ◌≤◌, ◌<◌, ◌≡◌, refl, ◌∙◌, List, [], ◌∷◌, Bool, true, false, Option,
  none, some, arith, leb, ◌==◌, if◌then◌else◌, Bool-cases, Option-cases, inl, inr, All, codes,
}
use smyte_db.Prelude.Int.{ℤ, pos, negsuc}
use smyte_db.Pipeline.Table.{find}
use smyte_db.Kafka.Store.{
  Answer, unavailable, object, State, validate, object_name, Origin, consume_loop, download_file,
  download_object_and_validate, count_of, positive, advance, close_file,
}
use smyte_db.Kafka.Store.Log.{numbered, segment, IsConsistent, IsGenuine}

module _ {Message : Type 0} (log : ℕ → Message) where
  -- A batch of at most `room` messages is consumed from a state: it is the next part of the log, and
  -- it holds a message if the loop is entered.
  abbrev pub IsConsumed :
      State Message → ℕ → Bool → Option (State Message × List (ℕ × Message)) → Type 0
  IsConsumed s room entered result =
      (s' : State Message) × (count : ℕ) × (result
        ≡ some (s', numbered log s.next_kafka_offset count))
      × (count ≤ room)
      × (s'.next_kafka_offset ≡ s.next_kafka_offset + count)
      × IsConsistent log s'
      × (entered ≡ true → 0 < room → 0 < count)

  -- A message in front of what is consumed behind it.
  IsConsumed-cons :
      (s : State Message) (room : ℕ) (entered : Bool)
      (rest : Option (State Message × List (ℕ × Message)))
      → (records : List Message) → IsConsumed (advance s records) room entered rest
      → IsConsumed s (suc room) true (elim rest [
        | none ↦ none
        | some (s', out) ↦ some (s', (s.next_kafka_offset, log s.next_kafka_offset) ∷ out)
      ])
  IsConsumed-cons s room entered rest records (s', count, e, bound, next, consistent, progress) =
      (s', suc count, rw e refl, omega arith, omega arith, consistent, λ _ _. omega arith)

  pub consume_loop-IsConsumed :
      (goes_on : ℕ → Bool) (room round : ℕ) (s : State Message) (left : ℕ)
      → s.next_file_offset ≡ s.next_kafka_offset + suc left
      → s.current_data_reader ≡ some (segment log s.next_kafka_offset (suc left))
      → IsConsumed s room
          (goes_on round)
          (consume_loop goes_on room round s (segment log s.next_kafka_offset (suc left)))
  unfolding consume_loop
  consume_loop-IsConsumed goes_on zero round s left f r =
      (s, 0, refl, omega arith, omega arith, (suc left, f, r), λ _ h. h)
  consume_loop-IsConsumed goes_on (suc room) round s zero f r = elim (Bool-cases (goes_on round)) [
    | inr stops ↦ rw stops (s, 0, refl, omega arith, omega arith, (1, f, r), λ h _. absurd (cc))
    | inl enters ↦
        let last : leb s.next_file_offset (s.next_kafka_offset + 1) ≡ true = ground arith in
        let meets : (s.next_kafka_offset + 1 == s.next_file_offset) ≡ true = ground arith in
        rw (enters, last, meets)
          (close_file s, 1, refl, omega arith, refl, (0, omega arith, refl), λ _ _. omega arith)
  ]
  consume_loop-IsConsumed goes_on (suc room) round s (suc left) f r =
      elim (Bool-cases (goes_on round)) [
        | inr stops ↦
            rw stops
              (s, 0, refl, omega arith, omega arith, (suc (suc left), f, r), λ h _. absurd (cc))
        | inl enters ↦
            let more : leb s.next_file_offset (s.next_kafka_offset + 1) ≡ false = ground arith in
            let records = segment log (s.next_kafka_offset + 1) (suc left) in
            rw (enters, more)
              (IsConsumed-cons s room (goes_on (suc round))
                (consume_loop goes_on room (suc round) (advance s records) records) records
                (consume_loop-IsConsumed goes_on room (suc round) (advance s records) left
                  (omega arith) refl))
      ]

  module _ (to_int64 : List ℕ → Option ℤ) (origin : Origin) where
    positive_lem : (o : Option ℤ) (n : ℕ) → positive o ≡ some n → 0 < n
    positive_lem none n h = absurd (cc)
    positive_lem (some (pos zero)) n h = absurd (cc)
    positive_lem (some (pos (suc m))) n h = ground arith
    positive_lem (some (negsuc m)) n h = absurd (cc)

    count_of_positive : (o : Option (List ℕ)) (n : ℕ) → count_of to_int64 o ≡ some n → 0 < n
    count_of_positive none n h = absurd (cc)
    count_of_positive (some value) n h = positive_lem (to_int64 value) n h

    validate_positive :
        (a : Answer Message) (file : ℕ × List Message)
        → validate to_int64 a ≡ some file
        → 0 < file.0
    unfolding validate
    validate_positive unavailable file h = absurd (cc)
    validate_positive (object none rs) file h = absurd (cc)
    validate_positive (object (some metadata) rs) file h =
        elim (Option-cases (count_of to_int64 (find (codes "count") metadata))) [
          | inl fails ↦ let no_file : none ≡ some file = rw (fails, validate) at h in absurd (cc)
          | inr (n, e) ↦
              let same : some (n, rs) ≡ some file = rw (e, validate) at h in
              let same' : (n, rs) ≡ file = cc in
              subst (λ x. 0 < x.0) same' (count_of_positive (find (codes "count") metadata) n e)
        ]

    again_lem :
        (retry : Bool) (o : Option (ℕ × List Message)) (file : ℕ × List Message)
        → (if retry then o else none) ≡ some file
        → o ≡ some file
    again_lem true o file h = h
    again_lem false o file h = absurd (cc)

    -- What a download gives of genuine stores.
    pub download_file-IsGenuine :
        (file_offset : ℕ) (retry : Bool) (stores : List (List ℕ → Answer Message))
        → All (IsGenuine log to_int64 origin) stores
        → (file : ℕ × List Message)
        → download_file to_int64 origin file_offset retry stores ≡ some file
        → (0 < file.0) × (file.1 ≡ segment log file_offset file.0)
    unfolding download_file download_object_and_validate
    download_file-IsGenuine file_offset retry [] g file h = absurd (cc)
    download_file-IsGenuine file_offset retry (store ∷ stores) g file h =
        elim (Option-cases (validate to_int64 (store (object_name origin file_offset)))) [
          | inl fails ↦ download_file-IsGenuine file_offset retry stores g.1 file (
              again_lem retry (download_file to_int64 origin file_offset retry stores) file
                (rw (fails, download_file, download_object_and_validate) at h))
          | inr (found, e) ↦
              let same : some found ≡ some file =
                rw (e, download_file, download_object_and_validate) at h in
              let valid : validate to_int64 (store (object_name origin file_offset)) ≡ some file =
                e ∙ same in
              (validate_positive _ file valid, g.0 file_offset file valid)
        ]
