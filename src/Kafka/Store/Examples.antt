-- ===== src/Kafka/Store/Examples.antt =====
-- The consumer of infra/kafka/store/Consumer.cpp on concrete files.
use smyte_db.Prelude.{
  ℕ, ◌+◌, ◌<◌, ◌≡◌, ◌⊎◌, refl, List, [], ◌∷◌, true, Option, none, some, arith, codes, bytes_eq,
  subst,
}
use smyte_db.Prelude.Int.{ℤ, pos, negsuc}
use smyte_db.Kafka.Store.{
  Answer, unavailable, object, State, Environment, Origin, get_object_name, validate, download_file,
  init, consume_batch, consume_batches, download_object_and_validate,
}
use smyte_db.Kafka.Store.Log.{numbered, segment, IsConsistent, IsGenuine}
use smyte_db.Kafka.Store.Resume.{StandsAt, init-StandsAt, init_missing}
use smyte_db.Kafka.Store.Delivery.{consume_batches-numbered, consume_batch_progress}

object_name_test :
    get_object_name (codes "p/") (codes "t") 3 41 ≡ codes "p/t/000003/00000000000000000041"
unfolding get_object_name smyte_db.Codec.Value.Encode.decimal
object_name_test = refl

abbrev origin : Origin
origin = record { object_name_prefix = codes "p/"; topic = codes "t"; partition = 3 }

-- A log of the same message all over, in files of two.
abbrev log : ℕ → ℕ
log n = 7

abbrev to_int64 : List ℕ → Option ℤ
to_int64 value = some (pos 2)

abbrev store : List ℕ → Answer ℕ
store name = object (some ((codes "count", codes "2") ∷ [])) (7 ∷ 7 ∷ [])

store-IsGenuine : IsGenuine log to_int64 origin store
unfolding validate smyte_db.Pipeline.Table.find bytes_eq
store-IsGenuine file_offset file h =
    let same : some (2, 7 ∷ 7 ∷ []) ≡ some file = h in
    let same' : (2, 7 ∷ 7 ∷ []) ≡ file = cc in
    subst (λ f. f.1 ≡ segment log file_offset f.0) same' refl

no_object-IsGenuine : IsGenuine log to_int64 origin (λ name. unavailable)
unfolding validate
no_object-IsGenuine file_offset file h = absurd (cc)

abbrev env : Environment ℕ
env = record {
  running = true;
  stores = (λ name. unavailable) ∷ store ∷ [];
  still_running = true;
  goes_on = λ round. true;
}

abbrev between_files : State ℕ
between_files = record {
  current_data_reader = none;
  current_file_offset = 3;
  next_file_offset = 5;
  next_kafka_offset = 5;
}

consume_batches-numbered_example :
    (s' : State ℕ) × (count : ℕ) × (consume_batches to_int64 origin (env ∷ env ∷ []) between_files
      ≡ some (s', numbered log 5 count))
    × (s'.next_kafka_offset ≡ 5 + count)
    × IsConsistent log s'
consume_batches-numbered_example =
    consume_batches-numbered log to_int64 origin (env ∷ env ∷ []) between_files
      (
        (no_object-IsGenuine, (store-IsGenuine, tt)),
        ((no_object-IsGenuine, (store-IsGenuine, tt)), tt),
      )
      (0, refl, refl)

-- Two batches hand on two files.
abbrev handed_on : Option (State ℕ × List (ℕ × ℕ)) → Option (List (ℕ × ℕ))
handed_on none = none
handed_on (some (s, out)) = some out

two_files_test :
    handed_on (consume_batches to_int64 origin (env ∷ env ∷ []) between_files)
    ≡ some ((5, 7) ∷ (6, 7) ∷ (7, 7) ∷ (8, 7) ∷ [])
unfolding consume_batches smyte_db.Kafka.Store.consume_batch smyte_db.Kafka.Store.consume_loop
    download_file download_object_and_validate validate smyte_db.Pipeline.Table.find bytes_eq
two_files_test = refl

init-StandsAt_example :
    StandsAt log 4
      (init to_int64 origin (negsuc 999) (store ∷ []) (some (pos 4, pos 3)) (negsuc 999))
unfolding download_file download_object_and_validate validate smyte_db.Pipeline.Table.find bytes_eq
init-StandsAt_example =
    init-StandsAt log to_int64 origin (store ∷ []) (negsuc 999) (negsuc 999) (pos 4) 4 3
      (store-IsGenuine, tt) refl refl (omega arith) (2, 7 ∷ 7 ∷ []) refl (omega arith)

-- init when the store has nothing yet.
abbrev init_empty : ℤ → Option (State ℕ)
init_empty committed_offset =
    init to_int64 origin (negsuc 999) ((λ name. unavailable) ∷ []) (some (committed_offset, pos 3))
      (negsuc 999)

-- At the start of a file, the batches that follow wait for it.
init_missing_example :
    ((◌≡◌ {A = ℕ} 3 3)
      × ((s s' : State ℕ) × (count : ℕ) × (init_empty (pos 3) ≡ some s)
          × (consume_batches to_int64 origin (env ∷ []) s ≡ some (s', numbered log 3 count))))
    ⊎ ((3 < 3) × (init_empty (pos 3) ≡ none))
unfolding download_file download_object_and_validate validate
init_missing_example =
    init_missing log to_int64 origin ((λ name. unavailable) ∷ []) (negsuc 999) (negsuc 999) (pos 3)
      3 3 (env ∷ []) refl refl (omega arith) refl ((no_object-IsGenuine, (store-IsGenuine, tt)), tt)

-- In the middle of a file, the consumer crashes.
crash_test : init_empty (pos 4) ≡ none
unfolding init download_file download_object_and_validate validate smyte_db.Kafka.Store.open_at
    smyte_db.Kafka.Store.open_reader smyte_db.Kafka.Store.seek
crash_test = refl

consume_batch_progress_example :
    (s' : State ℕ) × (count : ℕ) × (0 < count)
    × (consume_batch to_int64 origin env between_files ≡ some (s', numbered log 5 count))
    × (s'.next_kafka_offset ≡ 5 + count)
unfolding download_file download_object_and_validate validate smyte_db.Pipeline.Table.find bytes_eq
consume_batch_progress_example =
    consume_batch_progress log to_int64 origin env between_files
      (no_object-IsGenuine, (store-IsGenuine, tt)) (0, refl, refl) refl
