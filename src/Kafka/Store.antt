-- ===== src/Kafka/Store.antt =====
-- infra/kafka/store/Consumer.h and Consumer.cpp: a consumer that reads its messages from files in an
-- object store. Messages are of any type; a reader is the list of the records it has left; what
-- the store answers to a download, the clock and the flag that stop() clears are the environment.
-- Offsets are natural numbers: the code checks that they are not negative, and they stay far
-- below 2^63. `none` is a failed CHECK, LOG(FATAL) or a read through a null reader.
pub mod Log
pub mod Batches
pub mod Delivery
pub mod Resume
mod Examples
use smyte_db.Prelude.{
  ℕ, zero, suc, ◌+◌, ◌-◌, List, [], ◌∷◌, ◌++◌, Bool, true, false, ◌&&◌, ◌||◌, Option, none, some,
  length, ltb, leb, ◌==◌, if◌then◌else◌, codes, replicate,
}
use smyte_db.Prelude.Int.{ℤ, pos, negsuc, eqb_ℤ, leb_ℤ}
use smyte_db.Codec.Value.Encode.{decimal}
use smyte_db.Pipeline.Table.{Table, find}

abbrev pub k_max_batch_size : ℕ
k_max_batch_size = 10000

-- "{:06d}" and "{:020d}"
abbrev pub zero_padded : ℕ → ℕ → List ℕ
zero_padded width n = replicate (width - length (decimal n)) b'0' ++ decimal n

unfoldable pub get_object_name : List ℕ → List ℕ → ℕ → ℕ → List ℕ
get_object_name prefix topic partition file_offset =
    prefix ++ (topic ++ (b'/' ∷ (zero_padded 6 partition ++ (b'/' ∷ zero_padded 20 file_offset))))

-- What a download gives: an error, or an object with its metadata, if any, and the records of the file.
pub data Answer (Message : Type 0) : Type 0 where
  unavailable : Answer Message
  object : Option (Table (List ℕ)) → List Message → Answer Message

pub record State (Message : Type 0) : Type 0 where
  pub current_data_reader : Option (List Message)
  pub current_file_offset : ℕ
  pub next_file_offset : ℕ
  pub next_kafka_offset : ℕ

-- What happens around a call of consumeBatch: the flag at its start, the store at each
-- round of the download, the flag behind the download, and for each round of the loop
-- whether the flag is set and time is left.
pub record Environment (Message : Type 0) : Type 0 where
  pub running : Bool
  pub stores : List (List ℕ → Answer Message)
  pub still_running : Bool
  pub goes_on : ℕ → Bool

-- A count that is not positive is refused.
abbrev pub positive : Option ℤ → Option ℕ
positive (some (pos (suc n))) = some (suc n)
positive _ = none

abbrev pub count_of : (List ℕ → Option ℤ) → Option (List ℕ) → Option ℕ
count_of to_int64 none = none
count_of to_int64 (some value) = positive (to_int64 value)

-- Where the messages come from: the prefix of the objects' names, the topic and the partition.
pub record Origin : Type 0 where
  pub object_name_prefix : List ℕ
  pub topic : List ℕ
  pub partition : ℕ

abbrev pub object_name : Origin → ℕ → List ℕ
object_name origin file_offset =
    get_object_name origin.object_name_prefix origin.topic origin.partition file_offset

module _ {Message : Type 0} where
  -- The record count of an object, which the result -1 stands for if it is none.
  unfoldable pub validate : (List ℕ → Option ℤ) → Answer Message → Option (ℕ × List Message)
  validate to_int64 unavailable = none
  validate to_int64 (object none records) = none
  validate to_int64 (object (some metadata) records) =
      elim (count_of to_int64 (find (codes "count") metadata)) [
        | none ↦ none
        | some n ↦ some (n, records)
      ]

  -- `CHECK(currentDataReader_->read(msg))` so many times: a read through a null reader crashes, and one
  -- behind the last record fails the CHECK.
  unfoldable pub seek : ℕ → Option (List Message) → Option (Option (List Message))
  seek zero reader = some reader
  seek (suc n) none = none
  seek (suc n) (some []) = none
  seek (suc n) (some (m ∷ records)) = seek n (some records)

  -- The reader of the initial file and its record count, with what was downloaded.
  unfoldable pub open_reader :
      ℕ → ℕ → Option (ℕ × List Message) → Option (Option (List Message) × ℕ)
  open_reader offset file_offset none = some (none, 0)
  open_reader offset file_offset (some (count, records)) =
      if ltb offset (file_offset + count) then some (some records, count) else none

  abbrev pub opened_state : ℕ → ℕ → ℕ → Option (List Message) → State Message
  opened_state offset file_offset count reader = record {
    current_data_reader = reader;
    current_file_offset = file_offset;
    next_file_offset = file_offset + count;
    next_kafka_offset = offset;
  }

  abbrev pub landed : ℕ → ℕ → ℕ → Option (Option (List Message)) → Option (State Message)
  landed offset file_offset count none = none
  landed offset file_offset count (some reader) =
      some (opened_state offset file_offset count reader)

  -- The end of init: the loop that moves the reader on to the offset.
  abbrev pub seek_to : ℕ → ℕ → Option (Option (List Message) × ℕ) → Option (State Message)
  seek_to offset file_offset none = none
  seek_to offset file_offset (some (reader, count)) =
      landed offset file_offset count (seek (offset - file_offset) reader)

  -- init behind its checks of the offsets, with what was downloaded.
  unfoldable pub open_at : ℕ → ℕ → Option (ℕ × List Message) → Option (State Message)
  unfolding seek open_reader
  open_at offset file_offset file = seek_to offset file_offset (open_reader offset file_offset file)

  -- A round of consumeBatch's loop behind the read of a message: the file is used up, or there is more.
  abbrev pub advance : State Message → List Message → State Message
  advance s records = record s {
    current_data_reader = some records;
    next_kafka_offset = s.next_kafka_offset + 1;
  }

  abbrev pub close_file : State Message → State Message
  close_file s = record s {
    current_data_reader = none;
    next_kafka_offset = s.next_kafka_offset + 1;
  }

  -- The loop of consumeBatch with the rounds that kMaxBatchSize leaves, the rounds so far, and the
  -- records of the reader: the state, and the messages processed with their offsets.
  unfoldable pub consume_loop :
      (ℕ → Bool)
      → ℕ
      → ℕ
      → State Message
      → List Message
      → Option (State Message × List (ℕ × Message))
  consume_loop goes_on zero round s records = some (s, [])
  consume_loop goes_on (suc room) round s [] = if goes_on round then none else some (s, [])
  consume_loop goes_on (suc room) round s (m ∷ records) =
      let rest = consume_loop goes_on room (suc round) (advance s records) records in
      if goes_on round
      then (if leb s.next_file_offset (s.next_kafka_offset + 1)
          then (if s.next_kafka_offset + 1 == s.next_file_offset
              then some (close_file s, (s.next_kafka_offset, m) ∷ [])
              else none)
          else elim rest [
            | none ↦ none
            | some (s', out) ↦ some (s', (s.next_kafka_offset, m) ∷ out)
          ])
      else some (s, [])

  -- The flag behind the download: without a file, the download ends only once it is cleared.
  abbrev pub runs_on : Environment Message → Option (ℕ × List Message) → Bool
  runs_on env none = false
  runs_on env (some file) = env.still_running

  abbrev pub open_file :
      Environment Message
      → State Message
      → Option (ℕ × List Message)
      → Option (State Message × List (ℕ × Message))
  open_file env s none = none
  open_file env s (some (count, records)) =
      consume_loop env.goes_on k_max_batch_size 0
        (record s {
          current_data_reader = some records;
          current_file_offset = s.next_file_offset;
          next_file_offset = s.next_file_offset + count;
        })
        records

  -- The start of a new file.
  abbrev pub open_next :
      Environment Message
      → State Message
      → Option (ℕ × List Message)
      → Option (State Message × List (ℕ × Message))
  open_next env s file = if runs_on env file then open_file env s file else some (s, [])

module _ {Message : Type 0} (to_int64 : List ℕ → Option ℤ) (origin : Origin) where
  unfoldable pub download_object_and_validate :
      ℕ → (List ℕ → Answer Message) → Option (ℕ × List Message)
  download_object_and_validate file_offset store =
      validate to_int64 (store (object_name origin file_offset))

  -- The loop of downloadFile: one state of the store for each round in which the flag is set.
  unfoldable pub download_file :
      ℕ → Bool → List (List ℕ → Answer Message) → Option (ℕ × List Message)
  download_file file_offset retry [] = none
  download_file file_offset retry (store ∷ stores) =
      let again = download_file file_offset retry stores in
      elim (download_object_and_validate file_offset store) [
        | some file ↦ some file
        | none ↦ if retry then again else none
      ]

  abbrev pub open_checked : List (List ℕ → Answer Message) → ℤ → ℤ → Option (State Message)
  open_checked stores (pos offset) (pos file_offset) =
      if leb file_offset offset
      then open_at offset file_offset (download_file file_offset false stores)
      else none
  open_checked stores _ _ = none

  -- init, behind that of the offset manager; the committed offsets are what the helper loads.
  unfoldable pub init :
      ℤ → List (List ℕ → Answer Message) → Option (ℤ × ℤ) → ℤ → Option (State Message)
  unfolding open_at
  init offset_stored stores none initial_offset = none
  init offset_stored stores (some (committed_offset, file_offset)) initial_offset =
      if leb_ℤ (pos 0) initial_offset || eqb_ℤ initial_offset offset_stored
      then open_checked stores
          (if eqb_ℤ initial_offset offset_stored then committed_offset else initial_offset)
          file_offset
      else none

  abbrev pub consume_from :
      Environment Message
      → State Message
      → Option (List Message)
      → Option (State Message × List (ℕ × Message))
  consume_from env s (some records) = consume_loop env.goes_on k_max_batch_size 0 s records
  consume_from env s none =
      if s.next_kafka_offset == s.next_file_offset
      then open_next env s (download_file s.next_file_offset true env.stores)
      else none

  unfoldable pub consume_batch :
      Environment Message → State Message → Option (State Message × List (ℕ × Message))
  consume_batch env s =
      if env.running then consume_from env s s.current_data_reader else some (s, [])

  -- The consumer's thread: one batch after the other.
  unfoldable pub consume_batches :
      List (Environment Message) → State Message → Option (State Message × List (ℕ × Message))
  consume_batches [] s = some (s, [])
  consume_batches (env ∷ envs) s = elim (consume_batch env s) [
    | none ↦ none
    | some (s', out) ↦ elim (consume_batches envs s') [
      | none ↦ none
      | some (s'', more) ↦ some (s'', out ++ more)
    ]
  ]
