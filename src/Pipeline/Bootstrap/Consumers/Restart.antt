-- ===== src/Pipeline/Bootstrap/Consumers/Restart.antt =====
-- Offsets of consumers when a server of pipeline/RedisPipelineBootstrap.cpp starts again.
use smyte_db.Prelude.{if-some, subst, if-either, ◌==◌, ◌&&◌, ◌||◌}
use smyte_db.Kafka.Offsets.{new_helper}
use smyte_db.Kafka.Consumer.{is_empty}
use smyte_db.Pipeline.Bootstrap.Families.{elem}
use smyte_db.Pipeline.Bootstrap.Consumers.{
  from_beginning, from_offset, with_helper, initialize_kafka_consumer, no_factories,
}
use smyte_db.Prelude.{
  ℕ, suc, ◌≡◌, refl, sym, ap, ◌∙◌, List, [], ◌∷◌, Bool, true, false, Option, none, some,
  if◌then◌else◌, if-some, subst, Option-cases, inl, inr,
}
use smyte_db.Prelude.Int.{ℤ, pos, leb_ℤ, ◌≤ℤ◌}
use smyte_db.Codec.Value.Encode.{show_int}
use smyte_db.Pipeline.Table.{Table}
use smyte_db.Pipeline.Config.{Json, KafkaConsumerConfig, create_from_json}
use smyte_db.Kafka.Offsets.{Helper, link_topic_partition}
use smyte_db.RocksDb.{RocksDb}
use smyte_db.Pipeline.Bootstrap.Versions.{
  k_version_timestamp_key, can_apply_one_off_flags, persist_version_timestamp,
}
use smyte_db.Pipeline.Bootstrap.Versions.Once.{persist-refused, NotApplied}
use smyte_db.Pipeline.Bootstrap.Consumers.{
  SpecialOffsets, apply_one_off, linked, initialize_one, initialize_all,
}

module _ (to_int64 : List ℕ → Option ℤ) (special : SpecialOffsets) (rocks : RocksDb)
    (metadata : rocks.Family) (factories : List (List ℕ)) (version_timestamp_ms : ℤ) where
  open rocks use {Db, get}

  -- With a database that cannot be read, only a consumer without one-off flags goes on.
  apply_one_off_unread :
      (now : ℤ) (config : KafkaConsumerConfig) (key : List ℕ) (h : Helper) (db : Db)
      → can_apply_one_off_flags to_int64 rocks metadata version_timestamp_ms now (some db) ≡ none
      → apply_one_off to_int64 special rocks metadata factories version_timestamp_ms now config key
          h db
        ≡ (if config.consume_from_beginning_one_off
            then none
            else (if leb_ℤ (pos 0) config.initial_offset_one_off then none else some (h, db)))
  unfolding apply_one_off
  apply_one_off_unread now config key h db fatal = rw fatal refl

  nothing_applied :
      (beginning offset : Bool) (config : KafkaConsumerConfig) (key : List ℕ) (h : Helper) (db : Db)
      → (if beginning
          then from_beginning to_int64 special rocks metadata factories version_timestamp_ms config
              key h db
              (some false)
          else (if offset
              then from_offset to_int64 special rocks metadata factories version_timestamp_ms config
                  key h db
                  (some false)
              else some (h, db)))
        ≡ some (h, db)
  nothing_applied true offset config key h db = refl
  nothing_applied false true config key h db = refl
  nothing_applied false false config key h db = refl

  apply_one_off_refused :
      (now : ℤ) (config : KafkaConsumerConfig) (key : List ℕ) (h : Helper) (db : Db)
      → can_apply_one_off_flags to_int64 rocks metadata version_timestamp_ms now (some db)
        ≡ some false
      → apply_one_off to_int64 special rocks metadata factories version_timestamp_ms now config key
          h db
        ≡ some (h, db)
  unfolding apply_one_off
  apply_one_off_refused now config key h db refused =
      let beginning = config.consume_from_beginning_one_off in
      let offset = leb_ℤ (pos 0) config.initial_offset_one_off in
      ap
        (λ c.
          if beginning
          then from_beginning to_int64 special rocks metadata factories version_timestamp_ms config
              key h db c
          else (if offset
              then from_offset to_int64 special rocks metadata factories version_timestamp_ms config
                  key h db c
              else some (h, db)))
        refused
      ∙ nothing_applied beginning offset config key h db

  apply_one_off-same :
      (now : ℤ) (config : KafkaConsumerConfig) (key : List ℕ) (h : Helper) (db : Db)
      (p : Helper × Db)
      → NotApplied to_int64 rocks metadata db
          (can_apply_one_off_flags to_int64 rocks metadata version_timestamp_ms now (some db))
      → apply_one_off to_int64 special rocks metadata factories version_timestamp_ms now config key
          h db
        ≡ some p
      → p ≡ (h, db)
  apply_one_off-same now config key h db p (inl refused) e =
      let result : some p ≡ some (h, db) =
        sym e ∙ apply_one_off_refused now config key h db refused in
      cc
  apply_one_off-same now config key h db p (inr (text, failed, fatal)) e =
      by_flags config.consume_from_beginning_one_off (leb_ℤ (pos 0) config.initial_offset_one_off)
        (sym (apply_one_off_unread now config key h db fatal) ∙ e)
    where
      by_flags :
          (beginning offset : Bool)
          → (if beginning then none else (if offset then none else some (h, db))) ≡ some p
          → p ≡ (h, db)
      by_flags true offset f = absurd (cc)
      by_flags false true f = absurd (cc)
      by_flags false false f = cc

  linked-same :
      (now : ℤ) (config : KafkaConsumerConfig) (db : Db) (link : Option (List ℕ × Helper))
      (p : Helper × Db)
      → NotApplied to_int64 rocks metadata db
          (can_apply_one_off_flags to_int64 rocks metadata version_timestamp_ms now (some db))
      → linked to_int64 special rocks metadata factories version_timestamp_ms now config db link
        ≡ some p
      → p.1 ≡ db
  linked-same now config db none p refused e = absurd (cc)
  linked-same now config db (some (key, h)) p refused e =
      ap (λ q. q.1) (apply_one_off-same now config key h db p refused e)

  initialize_one-same :
      (now : ℤ) (h : Helper) (db : Db) (config : Option KafkaConsumerConfig) (p : Helper × Db)
      → NotApplied to_int64 rocks metadata db
          (can_apply_one_off_flags to_int64 rocks metadata version_timestamp_ms now (some db))
      → initialize_one to_int64 special rocks metadata factories version_timestamp_ms now h db
          config
        ≡ some p
      → p.1 ≡ db
  unfolding initialize_one
  initialize_one-same now h db none p refused e = absurd (cc)
  initialize_one-same now h db (some config) p refused e =
      let link =
        link_topic_partition to_int64 special.offset_invalid config.topic config.partition
          config.offset_key_suffix h in
      let (known, e') =
        if-some (elem config.consumer_name factories)
          (linked to_int64 special rocks metadata factories version_timestamp_ms now config db link)
          p e in
      linked-same now config db link p refused e'

  pub initialize_all-same :
      (clock : ℕ → ℤ) (round : ℕ) (entries : List (Table Json)) (h : Helper) (db : Db)
      (p : Helper × Db)
      → ((i : ℕ)
          → NotApplied to_int64 rocks metadata db (
              can_apply_one_off_flags to_int64 rocks metadata version_timestamp_ms
                (clock i)
                (some db)))
      → initialize_all to_int64 special rocks metadata factories version_timestamp_ms clock round
          entries h db
        ≡ some p
      → p.1 ≡ db
  unfolding initialize_all
  initialize_all-same clock round [] h db p refused e =
      let same : (h, db) ≡ p = cc in ap (λ q. q.1) (sym same)
  initialize_all-same clock round (entry ∷ entries) h db p refused e =
      elim (Option-cases (
        initialize_one to_int64 special rocks metadata factories version_timestamp_ms (clock round)
          h db (create_from_json special.offset_invalid entry))) [
            | inl stops ↦
                let impossible : none ≡ some p = rw (stops, initialize_all) at e in absurd (cc)
            | inr (q, one) ↦
                let kept : q.1 ≡ db =
                  initialize_one-same (clock round) h db
                    (create_from_json special.offset_invalid entry) q (refused round) one in
                let rest : initialize_all to_int64 special rocks metadata factories
                      version_timestamp_ms clock (suc round) entries q.0 q.1
                    ≡ some p =
                  rw (one, initialize_all) at e in
                initialize_all-same clock (suc round) entries q.0 q.1 p
                  (λ i.
                    subst
                      (λ d. NotApplied to_int64 rocks metadata d (
                        can_apply_one_off_flags to_int64 rocks metadata version_timestamp_ms
                          (clock i) (some d)))
                      (sym kept) (refused i))
                  rest
                ∙ kept
          ]

  with_helper-same :
      (o : Option (Helper × Db)) (p : Option Helper × Db) (db : Db)
      → with_helper to_int64 special rocks metadata factories version_timestamp_ms o ≡ some p
      → ((q : Helper × Db) → o ≡ some q → q.1 ≡ db)
      → p.1 ≡ db
  with_helper-same none p db e f = absurd (cc)
  with_helper-same (some (h, d)) p db e f =
      let same : (some h, d) ≡ p = cc in sym (ap (λ q. q.1) same) ∙ f (h, d) refl

-- One-off flags of consumers are not applied again when the server restarts: if an earlier run came to persist
-- version v, and the database still has the value it left, then a run with this version or an
-- older one, at a later time, leaves the database, and so all committed offsets, as they are,
-- whatever the configurations of its consumers are.
pub initialize_kafka_consumer-same :
    (to_int64 : List ℕ → Option ℤ) (special : SpecialOffsets) (rocks : RocksDb)
    (metadata : rocks.Family) (factories : List (List ℕ))
    → (v v' persisted_at : ℤ) (clock : ℕ → ℤ) (before after db : rocks.Db)
    → persist_version_timestamp to_int64 rocks metadata v persisted_at before ≡ some after
    → rocks.get metadata k_version_timestamp_key db
      ≡ rocks.get metadata k_version_timestamp_key after
    → v' ≤ℤ v
    → ((i : ℕ) → persisted_at ≤ℤ clock i)
    → to_int64 (show_int v) ≡ some v
    → (parse_json : List ℕ → Option (List (Table Json))) (configs : List ℕ)
      (has_database_manager : Bool) (processors queues : ℕ)
    → (p : Option Helper × rocks.Db)
    → initialize_kafka_consumer to_int64 special rocks metadata factories v' parse_json configs
        has_database_manager processors queues clock db
      ≡ some p
    → p.1 ≡ db
unfolding initialize_kafka_consumer
initialize_kafka_consumer-same to_int64 special rocks metadata factories v v' persisted_at clock
      before after db persisted kept older passes reads parse_json configs has_database_manager
      processors queues p h =
    elim (if-either (no_factories factories || is_empty configs) (some (none, db))
      (from_entries (parse_json configs)) (some p) h) [
        | inl idle ↦ let same : (none, db) ≡ p = cc in sym (ap (λ q. q.1) same)
        | inr runs ↦ by_entries (parse_json configs) runs
      ]
  where
    from_entries : Option (List (Table Json)) → Option (Option Helper × rocks.Db)
    from_entries parsed = elim parsed [
      | none ↦ none
      | some entries ↦
          if has_database_manager && processors == queues
          then with_helper to_int64 special rocks metadata factories v' (
              initialize_all to_int64 special rocks metadata factories v' clock 0 entries new_helper
                db)
          else none
    ]

    by_entries : (parsed : Option (List (Table Json))) → from_entries parsed ≡ some p → p.1 ≡ db
    by_entries none e = absurd (cc)
    by_entries (some entries) e =
        let run =
          initialize_all to_int64 special rocks metadata factories v' clock 0 entries new_helper
            db in
        let (ready, e') =
          if-some (has_database_manager && processors == queues)
            (with_helper to_int64 special rocks metadata factories v' run) p e in
        with_helper-same to_int64 special rocks metadata factories v' run p db e' (λ q e''.
          initialize_all-same to_int64 special rocks metadata factories v' clock 0 entries
            new_helper db q
            (λ i.
              persist-refused to_int64 rocks metadata v v' persisted_at (clock i) before after db
                persisted kept older (passes i) reads)
            e'')
