-- ===== src/Kafka/Store/Resume.antt =====
-- init of infra/kafka/store/Consumer.cpp, which opens the file of the committed offsets.
use smyte_db.Prelude.{
  ℕ, subst, zero, suc, ◌+◌, ◌-◌, ◌≤◌, ◌<◌, ◌≡◌, refl, sym, ap, ◌∙◌, List, true, false, Option, none,
  some, arith, ltb, leb, All, ◌||◌, if◌then◌else◌, Bool-cases, inl, inr, ltb→lt, ◌⊎◌,
}
use smyte_db.Prelude.Int.{ℤ, pos, eqb_ℤ, leb_ℤ}
use smyte_db.Kafka.Store.{
  Answer, State, Origin, Environment, init, open_at, open_reader, download_file, seek, landed,
  consume_batches,
}
use smyte_db.Kafka.Store.Delivery.{consume_batches-numbered}
use smyte_db.Kafka.Store.Log.{numbered, segment, IsConsistent, IsGenuine}
use smyte_db.Kafka.Store.Batches.{download_file-IsGenuine}

-- The offset that init starts from: the committed one if the stored offset is asked for, or the one asked for.
abbrev pub start_offset : ℤ → ℤ → ℤ → ℤ
start_offset offset_stored initial_offset committed_offset =
    if eqb_ℤ initial_offset offset_stored then committed_offset else initial_offset

-- A consumer between two files.
abbrev pub without_file : {Message : Type 0} → ℕ → State Message
without_file offset = record {
  current_data_reader = none;
  current_file_offset = offset;
  next_file_offset = offset;
  next_kafka_offset = offset;
}

module _ {Message : Type 0} (log : ℕ → Message) where
  seek-segment :
      (start skipped left : ℕ)
      → seek skipped (some (segment log start (skipped + left)))
        ≡ some (some (segment log (start + skipped) left))
  unfolding seek
  seek-segment start zero left =
      let e : start + 0 ≡ start = omega arith in
      let e' : 0 + left ≡ left = omega arith in rw (e, e') refl
  seek-segment start (suc skipped) left =
      let e : start + suc skipped ≡ start + 1 + skipped = omega arith in
      let e' : suc skipped + left ≡ suc (skipped + left) = omega arith in
      rw (e, e') (seek-segment (start + 1) skipped left)

  open_at-seek :
      (offset file_offset skipped left : ℕ)
      → offset ≡ file_offset + skipped
      → (s : State Message) × (open_at offset file_offset
            (some (skipped + suc left, segment log file_offset (skipped + suc left)))
          ≡ some s)
        × (s.next_kafka_offset ≡ offset)
        × IsConsistent log s
  unfolding open_at open_reader
  open_at-seek offset file_offset skipped left e =
      let before : ltb offset (file_offset + (skipped + suc left)) ≡ true = ground arith in
      let found : seek skipped (some (segment log file_offset (skipped + suc left)))
          ≡ some (some (segment log offset (suc left))) =
        seek-segment file_offset skipped (suc left)
        ∙ ap (λ n. some (some (segment log n (suc left)))) (sym e) in
      let gap : offset - file_offset ≡ skipped = omega arith in
      (
        record {
          current_data_reader = some (segment log offset (suc left));
          current_file_offset = file_offset;
          next_file_offset = file_offset + (skipped + suc left);
          next_kafka_offset = offset;
        },
        rw before (
            ap (landed offset file_offset (skipped + suc left))
              (ap (λ n. seek n (some (segment log file_offset (skipped + suc left)))) gap ∙ found)),
        refl,
        (suc left, omega arith, refl),
      )

  open_at_file :
      (offset file_offset : ℕ) (file : ℕ × List Message)
      → file_offset ≤ offset
      → offset < file_offset + file.0
      → file.1 ≡ segment log file_offset file.0
      → (s : State Message) × (open_at offset file_offset (some file) ≡ some s)
        × (s.next_kafka_offset ≡ offset)
        × IsConsistent log s
  open_at_file offset file_offset (count, records) from before genuine =
      let e : count ≡ (offset - file_offset) + suc (file_offset + count - offset - 1) =
        omega arith in
      let (s, opened, next, consistent) =
        open_at-seek offset file_offset (offset - file_offset) (file_offset + count - offset - 1)
          (omega (arith, from)) in
      (
        s,
        rw (genuine) (
            subst (λ n. open_at offset file_offset (some (n, segment log file_offset n)) ≡ some s)
              (sym e) opened),
        next,
        consistent,
      )

  -- A loop that reads at all reads through the null reader.
  seek_null : (n : ℕ) → 0 < n → seek {Message = Message} n none ≡ none
  unfolding seek
  seek_null zero h = absurd (omega (arith, h))
  seek_null (suc n) h = refl

  open_at_missing :
      (offset file_offset : ℕ)
      → file_offset < offset
      → open_at {Message = Message} offset file_offset none ≡ none
  unfolding open_at open_reader
  open_at_missing offset file_offset further =
      ap (landed offset file_offset 0) (seek_null (offset - file_offset) (omega (arith, further)))

  open_at_start :
      (offset : ℕ) → open_at {Message = Message} offset offset none ≡ some (without_file offset)
  unfolding open_at open_reader seek
  open_at_start offset =
      let no_gap : offset - offset ≡ 0 = omega arith in
      let no_records : offset + 0 ≡ offset = omega arith in
      ap (λ n. landed {Message = Message} offset offset 0 (seek n none)) no_gap
      ∙ ap (λ n. some (record (without_file offset) { next_file_offset = n })) no_records

  -- The consumer stands at an offset, behind init.
  abbrev pub StandsAt : ℕ → Option (State Message) → Type 0
  StandsAt offset result =
      (s : State Message) × (result ≡ some s) × (s.next_kafka_offset ≡ offset) × IsConsistent log s

  module _ (to_int64 : List ℕ → Option ℤ) (origin : Origin)
      (stores : List (List ℕ → Answer Message)) where
    -- init at an offset that the committed file, which the store has, reaches: with genuine stores, it succeeds, and
    -- the consumer stands at the offset, in a consistent state. The offset is the committed
    -- one if the stored offset is asked for, or else the one asked for.
    pub init-StandsAt :
        (offset_stored initial_offset committed_offset : ℤ) (offset file_offset : ℕ)
        → All (IsGenuine log to_int64 origin) stores
        → (leb_ℤ (pos 0) initial_offset || eqb_ℤ initial_offset offset_stored) ≡ true
        → start_offset offset_stored initial_offset committed_offset ≡ pos offset
        → file_offset ≤ offset
        → (file : ℕ × List Message)
        → download_file to_int64 origin file_offset false stores ≡ some file
        → offset < file_offset + file.0
        → StandsAt offset (
            init to_int64 origin offset_stored stores
              (some (committed_offset, pos file_offset))
              initial_offset)
    unfolding init
    init-StandsAt offset_stored initial_offset committed_offset offset file_offset g accepted start
          from file e before =
        let in_order : leb file_offset offset ≡ true = ground arith in
        let (some_records, genuine) =
          download_file-IsGenuine log to_int64 origin file_offset false stores g file e in
        rw (accepted, start, in_order, e) (open_at_file offset file_offset file from before genuine)

    -- init when the committed file is not in the store, followed by any batches on genuine stores. If the
    -- offset is the one that the file starts at, init succeeds without a file, and the
    -- batches, which wait for the file, fail no CHECK and hand on the log without a gap from the
    -- offset on. But if the offset is further on, init crashes: it reads through a null reader.
    pub init_missing :
        (offset_stored initial_offset committed_offset : ℤ) (offset file_offset : ℕ)
        (envs : List (Environment Message))
        → (leb_ℤ (pos 0) initial_offset || eqb_ℤ initial_offset offset_stored) ≡ true
        → start_offset offset_stored initial_offset committed_offset ≡ pos offset
        → file_offset ≤ offset
        → download_file to_int64 origin file_offset false stores ≡ none
        → All (λ env. All (IsGenuine log to_int64 origin) env.stores) envs
        → let result =
            init to_int64 origin offset_stored stores
              (some (committed_offset, pos file_offset))
              initial_offset in
          ((file_offset ≡ offset)
            × ((s s' : State Message) × (count : ℕ) × (result ≡ some s)
                × (consume_batches to_int64 origin envs s ≡ some (s', numbered log offset count))))
          ⊎ ((file_offset < offset) × (result ≡ none))
    unfolding init
    init_missing offset_stored initial_offset committed_offset offset file_offset envs accepted
          start from e g =
        let in_order : leb file_offset offset ≡ true = ground arith in
        rw (accepted, start, in_order, e)
          (elim (Bool-cases (ltb file_offset offset)) [
            | inl further ↦ inr (
              ltb→lt file_offset offset further,
              open_at_missing offset file_offset (ltb→lt file_offset offset further),
            )
            | inr meets ↦
                let same : file_offset ≡ offset = ground arith in
                let (s', count, run, next, consistent) =
                  consume_batches-numbered log to_int64 origin envs (without_file offset) g
                    (0, omega arith, refl) in
                inl (
                  same,
                  (
                    without_file offset,
                    s',
                    count,
                    ap (λ n. open_at offset n none) same ∙ open_at_start offset,
                    run,
                  ),
                )
          ])
