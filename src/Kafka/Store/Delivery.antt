-- ===== src/Kafka/Store/Delivery.antt =====
-- What the consumer in infra/kafka/store/Consumer.cpp hands on, batch after batch.
use smyte_db.Prelude.{
  ℕ, zero, suc, ◌+◌, ◌<◌, ◌≡◌, refl, ap, ◌∙◌, List, [], ◌∷◌, ◌++◌, Bool, true, ◌&&◌, Option, none,
  some, arith, ◌==◌, Bool-cases, Option-cases, inl, inr, All,
}
use smyte_db.Prelude.Int.{ℤ}
use smyte_db.Kafka.Store.{
  State, Environment, Origin, consume_from, consume_batch, consume_batches, download_file,
  k_max_batch_size, open_file, open_next, runs_on,
}
use smyte_db.Kafka.Store.Log.{
  numbered, numbered-append, segment, reader_at, IsConsistent, IsGenuine,
}
use smyte_db.Kafka.Store.Batches.{IsConsumed, consume_loop-IsConsumed, download_file-IsGenuine}

module _ {Message : Type 0} (log : ℕ → Message) (to_int64 : List ℕ → Option ℤ)
    (origin : Origin) where
  -- Whether a batch gets to its loop: the flag is set before and behind the download, if there is
  -- one, and time is left.
  abbrev pub has_reader : Environment Message → State Message → Option (List Message) → Bool
  has_reader env s (some records) = true
  has_reader env s none =
      runs_on env (download_file to_int64 origin s.next_file_offset true env.stores)

  abbrev pub gets_to_loop : Environment Message → State Message → Bool
  gets_to_loop env s = env.running && has_reader env s s.current_data_reader && env.goes_on 0

  open_file-IsConsumed :
      (env : Environment Message) (s : State Message) (count : ℕ) (records : List Message)
      → 0 < count
      → records ≡ segment log s.next_file_offset count
      → s.next_file_offset ≡ s.next_kafka_offset
      → IsConsumed log s k_max_batch_size (env.goes_on 0) (open_file env s (some (count, records)))
  open_file-IsConsumed env s zero records positive_count genuine f =
      absurd (omega (arith, positive_count))
  open_file-IsConsumed env s (suc left) records positive_count genuine f =
      let held : records ≡ segment log s.next_kafka_offset (suc left) =
        genuine ∙ ap (λ n. segment log n (suc left)) f in
      rw held (
        consume_loop-IsConsumed log env.goes_on k_max_batch_size 0
          (record s {
            current_data_reader = some (segment log s.next_kafka_offset (suc left));
            current_file_offset = s.next_file_offset;
            next_file_offset = s.next_file_offset + suc left;
          })
          left (omega (arith, f)) refl)

  open_next-IsConsumed :
      (env : Environment Message) (s : State Message)
      → All (IsGenuine log to_int64 origin) env.stores
      → s.next_file_offset ≡ s.next_kafka_offset
      → s.current_data_reader ≡ none
      → IsConsumed log s k_max_batch_size
          (runs_on env (download_file to_int64 origin s.next_file_offset true env.stores)
            && env.goes_on 0)
          (open_next env s (download_file to_int64 origin s.next_file_offset true env.stores))
  open_next-IsConsumed env s g f r =
      elim (Option-cases (download_file to_int64 origin s.next_file_offset true env.stores)) [
        | inl fails ↦
            rw fails (s, 0, refl, omega arith, omega arith, (0, omega arith, r), λ h _. absurd (cc))
        | inr (file, e) ↦ rw e (elim (Bool-cases env.still_running) [
          | inr stops ↦
              rw stops
                (s, 0, refl, omega arith, omega arith, (0, omega arith, r), λ h _. absurd (cc))
          | inl runs ↦ rw runs (
              let (some_records, genuine) =
                download_file-IsGenuine log to_int64 origin s.next_file_offset true env.stores g
                  file e in
              open_file-IsConsumed env s file.0 file.1 some_records genuine f)
        ])
      ]

  consume_from-IsConsumed :
      (env : Environment Message) (s : State Message) (left : ℕ) (reader : Option (List Message))
      → All (IsGenuine log to_int64 origin) env.stores
      → s.next_file_offset ≡ s.next_kafka_offset + left
      → reader ≡ reader_at log s.next_kafka_offset left
      → s.current_data_reader ≡ reader
      → IsConsumed log s k_max_batch_size
          (has_reader env s reader && env.goes_on 0)
          (consume_from to_int64 origin env s reader)
  consume_from-IsConsumed env s zero reader g f e r =
      let meets : (s.next_kafka_offset == s.next_file_offset) ≡ true = ground arith in
      rw (e, meets) (open_next-IsConsumed env s g (omega (arith, f)) (r ∙ e))
  consume_from-IsConsumed env s (suc left) reader g f e r =
      rw e (consume_loop-IsConsumed log env.goes_on k_max_batch_size 0 s left f (r ∙ e))

  -- A batch fails no CHECK: what it hands on is the next part of the log with its offsets, at most 10000
  -- messages, and the state it leaves is consistent and stands right behind them. It hands
  -- on a message at least if it gets to its loop.
  pub consume_batch-IsConsumed :
      (env : Environment Message) (s : State Message)
      → All (IsGenuine log to_int64 origin) env.stores
      → IsConsistent log s
      → IsConsumed log s k_max_batch_size (gets_to_loop env s) (consume_batch to_int64 origin env s)
  unfolding consume_batch
  consume_batch-IsConsumed env s g (left, f, r) = elim (Bool-cases env.running) [
    | inr stops ↦ rw stops (s, 0, refl, omega arith, omega arith, (left, f, r), λ h _. absurd (cc))
    | inl runs ↦ rw runs (consume_from-IsConsumed env s left s.current_data_reader g f r refl)
  ]

  consume_batches-cons :
      (env : Environment Message) (envs : List (Environment Message)) (s s₁ s₂ : State Message)
      → (out more : List (ℕ × Message)) → consume_batch to_int64 origin env s ≡ some (s₁, out)
      → consume_batches to_int64 origin envs s₁ ≡ some (s₂, more)
      → consume_batches to_int64 origin (env ∷ envs) s ≡ some (s₂, out ++ more)
  unfolding consume_batches
  consume_batches-cons env envs s s₁ s₂ out more h j = rw (consume_batches, h, j) refl

  -- A batch makes progress: with genuine stores and a consistent state, a batch that gets to its loop
  -- hands on a message at least, and the next offset of the state moves on behind it.
  pub consume_batch_progress :
      (env : Environment Message) (s : State Message)
      → All (IsGenuine log to_int64 origin) env.stores
      → IsConsistent log s
      → gets_to_loop env s ≡ true
      → (s' : State Message) × (count : ℕ) × (0 < count)
        × (consume_batch to_int64 origin env s ≡ some (s', numbered log s.next_kafka_offset count))
        × (s'.next_kafka_offset ≡ s.next_kafka_offset + count)
  consume_batch_progress env s g consistent enters =
      let (s', count, e, bound, next, consistent', progress) =
        consume_batch-IsConsumed env s g consistent in
      (s', count, progress enters (omega arith), e, next)

  -- A run of the consumer's thread delivers each message once and in order, whatever happens
  -- around it: with genuine stores, batches from a consistent state fail no CHECK, all that they
  -- hand on is a part of the log without a gap, from the next offset of the state on, and
  -- the state they leave is consistent and stands right behind it.
  pub consume_batches-numbered :
      (envs : List (Environment Message)) (s : State Message)
      → All (λ env. All (IsGenuine log to_int64 origin) env.stores) envs
      → IsConsistent log s
      → (s' : State Message) × (count : ℕ) × (consume_batches to_int64 origin envs s
          ≡ some (s', numbered log s.next_kafka_offset count))
        × (s'.next_kafka_offset ≡ s.next_kafka_offset + count)
        × IsConsistent log s'
  unfolding consume_batches
  consume_batches-numbered [] s g consistent = (s, 0, refl, omega arith, consistent)
  consume_batches-numbered (env ∷ envs) s g consistent =
      let (s₁, m, e₁, bound, next₁, consistent₁, progress) =
        consume_batch-IsConsumed env s g.0 consistent in
      let (s₂, n, e₂, next₂, consistent₂) = consume_batches-numbered envs s₁ g.1 consistent₁ in
      let next_part : numbered log s₁.next_kafka_offset n
          ≡ numbered log (s.next_kafka_offset + m) n =
        ap (λ k. numbered log k n) next₁ in
      let out = numbered log s.next_kafka_offset m in
      (
        s₂,
        m + n,
        consume_batches-cons env envs s s₁ s₂ out (numbered log s₁.next_kafka_offset n) e₁ e₂
            ∙ ap (λ part. some (s₂, out ++ part)) next_part
            ∙ ap (λ part. some (s₂, part)) (numbered-append log s.next_kafka_offset m n),
        omega (arith, next₁, next₂),
        consistent₂,
      )
