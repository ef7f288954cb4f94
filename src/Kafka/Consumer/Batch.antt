-- ===== src/Kafka/Consumer/Batch.antt =====
-- What a batch of infra/kafka/Consumer.h processes.
use smyte_db.Prelude.{
  ℕ, subst, ◌+◌, ◌⊎◌, zero, suc, ◌≤◌, ◌≡◌, refl, List, [], ◌∷◌, true, false, Option, none, some,
  length, arith, Bool-cases, Option-cases, inl, inr,
}
use smyte_db.Kafka.Offsets.{Helper, set_no_lag}
use smyte_db.Kafka.Consumer.{
  ErrorCode, err_no_error, err_timed_out, err_partition_eof, err_queue_full, err_other, Message,
  Round, is_ok, process_error, consume_loop, process_one, stop_at_error, consume_batch,
}

module _ {Payload : Type 0} (offset_key : List ℕ) (rounds : ℕ → Round Payload) where
  -- Rounds in a row that are entered and answer these messages without an error.
  abbrev pub AreReceived : ℕ → List Payload → Type 0
  AreReceived round [] = Unit
  AreReceived round (m ∷ ms) =
      ((rounds round).goes_on ≡ true)
      × ((msg : Message Payload) × ((rounds round).answer ≡ some msg)
          × (is_ok msg.err ≡ true)
          × (msg.payload ≡ m))
      × AreReceived (suc round) ms

  -- Why the loop ends at a round, and what it leaves of the helper.
  pub data EndsAt (helper : Helper) : ℕ → Helper → Type 0 where
    out_of_time : (round : ℕ) → (rounds round).goes_on ≡ false → EndsAt helper round helper
    no_message : (round : ℕ) → (rounds round).answer ≡ none → EndsAt helper round helper
    at_error :
        (round : ℕ) (msg : Message Payload) (helper' : Helper)
        → (rounds round).answer ≡ some msg
        → is_ok msg.err ≡ false
        → process_error offset_key msg.err helper ≡ some helper'
        → EndsAt helper round helper'

  process_error_total :
      (err : ErrorCode) (helper caught_up : Helper)
      → set_no_lag offset_key helper ≡ some caught_up
      → (helper' : Helper) × (process_error offset_key err helper ≡ some helper')
  unfolding process_error
  process_error_total err_no_error helper caught_up h = (helper, refl)
  process_error_total err_timed_out helper caught_up h = (helper, refl)
  process_error_total err_partition_eof helper caught_up h = (caught_up, h)
  process_error_total err_queue_full helper caught_up h = (helper, refl)
  process_error_total err_other helper caught_up h = (helper, refl)

  -- What is processed from a round on, with so much room, and why no more is.
  abbrev pub IsBatch : ℕ → ℕ → Helper → Option (Helper × List Payload) → Type 0
  IsBatch room round helper result =
      (helper' : Helper) × (ms : List Payload) × (result ≡ some (helper', ms))
      × AreReceived round ms
      × (length ms ≤ room)
      × (((length ms ≡ room) × (helper' ≡ helper)) ⊎ EndsAt helper (round + length ms) helper')

  EndsAt-once :
      (room round : ℕ) (helper helper' : Helper)
      → EndsAt helper round helper'
      → IsBatch room round helper (some (helper', []))
  EndsAt-once room round helper helper' e =
      let here : round ≡ round + 0 = omega arith in
      (helper', [], refl, tt, omega arith, inr (subst (λ n. EndsAt helper n helper') here e))

  process_one-IsBatch :
      (room round : ℕ) (helper : Helper) (msg : Message Payload)
      (rest : Option (Helper × List Payload))
      → (rounds round).goes_on ≡ true
      → (rounds round).answer ≡ some msg
      → is_ok msg.err ≡ true
      → IsBatch room (suc round) helper rest
      → IsBatch (suc room) round helper (process_one offset_key msg rest)
  process_one-IsBatch room round helper msg rest goes a ok (helper', ms, e, received, bound, end) =
      let next : suc round + length ms ≡ round + suc (length ms) = omega arith in
      (
        helper',
        msg.payload ∷ ms,
        rw e refl,
        (goes, (msg, a, ok, refl), received),
        omega arith,
        elim end [
          | inl (filled, same) ↦ inl (omega (arith, filled), same)
          | inr ends ↦ inr (subst (λ n. EndsAt helper n helper') next ends)
        ],
      )

  stop_at_error-IsBatch :
      (room round : ℕ) (helper caught_up : Helper) (msg : Message Payload)
      → set_no_lag offset_key helper ≡ some caught_up
      → (rounds round).answer ≡ some msg
      → is_ok msg.err ≡ false
      → IsBatch room round helper
          (stop_at_error offset_key (process_error offset_key msg.err helper))
  stop_at_error-IsBatch room round helper caught_up msg linked a bad =
      let (helper', e) = process_error_total msg.err helper caught_up linked in
      rw e (EndsAt-once room round helper helper' (at_error round msg helper' a bad e))

  consume_loop-IsBatch :
      (room round : ℕ) (helper caught_up : Helper)
      → set_no_lag offset_key helper ≡ some caught_up
      → IsBatch room round helper (consume_loop offset_key rounds room round helper)
  unfolding consume_loop
  consume_loop-IsBatch zero round helper caught_up linked =
      (helper, [], refl, tt, omega arith, inl (refl, refl))
  consume_loop-IsBatch (suc room) round helper caught_up linked =
      elim (Bool-cases (rounds round).goes_on) [
        | inr late ↦ rw late (EndsAt-once (suc room) round helper helper (out_of_time round late))
        | inl goes ↦ elim (Option-cases (rounds round).answer) [
          | inl a ↦ rw (goes, a) (EndsAt-once (suc room) round helper helper (no_message round a))
          | inr (msg, a) ↦ elim (Bool-cases (is_ok msg.err)) [
            | inl ok ↦
                rw (goes, a, ok)
                  (process_one-IsBatch room round helper msg
                    (consume_loop offset_key rounds room (suc round) helper) goes a ok
                    (consume_loop-IsBatch room (suc round) helper caught_up linked))
            | inr bad ↦
                rw (goes, a, bad)
                  (stop_at_error-IsBatch (suc room) round helper caught_up msg linked a bad)
          ]
        ]
      ]

  -- A batch of a linked consumer fails no CHECK. What it processes are the messages of the rounds from the
  -- first on, all of them entered and free of errors, at most 10000; and either it is full,
  -- and the helper as before, or it ends at the very next round, which is out of time, gets no
  -- message, or gets an error that processError has dealt with.
  pub consume_batch-IsBatch :
      (helper caught_up : Helper)
      → set_no_lag offset_key helper ≡ some caught_up
      → IsBatch 10000 0 helper (consume_batch offset_key rounds helper)
  unfolding consume_batch
  consume_batch-IsBatch helper caught_up linked =
      consume_loop-IsBatch 10000 0 helper caught_up linked
