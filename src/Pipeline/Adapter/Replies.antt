-- ===== src/Pipeline/Adapter/Replies.antt =====
-- What pipeline/OrderedRedisMessageAdapter passes on, and which replies it takes.
use smyte_db.Prelude.{
  ℕ, zero, suc, ◌+◌, ◌<◌, ◌≡◌, refl, length, ap, ◌∙◌, inl, inr, List, [], ◌∷◌, ◌++◌, true, false,
  not, ◌&&◌, Option, none, some, get_elem?, set, arith, Bool-cases, subst, All, All-append,
}
use smyte_db.Prelude.Int.{pos, negsuc, ◌-ℤ◌, eqb_ℤ, eqb_ℤ-sound, low_bits}
use smyte_db.Codec.Value.{RedisValue, RedisMessage, is_async}
use smyte_db.Pipeline.Adapter.{
  Adapter, init, read, flush, fulfil, write, Event, request, reply, run,
}
use smyte_db.Pipeline.Adapter.Order.{IsValid}
use smyte_db.Pipeline.Adapter.Keys.{Consecutive, FirstWaits}

-- The messages that the handlers have written.
abbrev pub replies : List Event → List RedisMessage
replies [] = []
replies (request m ∷ es) = replies es
replies (reply m ∷ es) = m ∷ replies es

module _ {κ} (P : RedisMessage → Type κ) where
  -- A pending output waits, or holds what was written for it.
  abbrev Held : RedisMessage → Type κ
  Held m = is_async m.val ≡ false → P m

  record FromReplies (b : Adapter) (out : List RedisMessage) : Type κ where
    held : All Held b.pending
    sent : All P out

  abbrev Sent : Option (Adapter × List RedisMessage) → Type κ
  Sent none = Unit
  Sent (some (b, out)) = FromReplies b out

  flush-Held : (k : ℕ) (ms : List RedisMessage) → All Held ms → Sent (some (flush k ms))
  unfolding flush
  flush-Held k [] h = record { held = tt; sent = tt }
  flush-Held k (m ∷ ms) h =
      let f = flush-Held (suc k) ms h.1 in
      elim (Bool-cases (is_async m.val)) [
        | inl async ↦ rw async (record { held = h; sent = tt })
        | inr sync ↦ rw sync (record { held = f.held; sent = (h.0 sync, f.sent) })
      ]

  set-Held :
      (i : ℕ) (ms : List RedisMessage) (v : RedisMessage)
      → All Held ms
      → P v
      → All Held (set ms i v)
  set-Held i [] v h p = tt
  set-Held zero (x ∷ ms) v h p = (λ s. p, h.1)
  set-Held (suc i) (x ∷ ms) v h p = (h.0, set-Held i ms v h.1 p)

  fulfil-Sent :
      (a : Adapter) (msg : RedisMessage) (i : ℕ) (o : Option RedisMessage)
      → All Held a.pending
      → P msg
      → Sent (fulfil a msg i o)
  fulfil-Sent a msg i none h p = tt
  fulfil-Sent a msg i (some output) h p =
      elim (Bool-cases
        (eqb_ℤ output.key msg.key && (is_async output.val && not (is_async msg.val)))) [
          | inr refused ↦ rw refused tt
          | inl fits ↦
              let same : msg ≡ record output { val = msg.val } =
                ground (arith, eqb_ℤ-sound output.key msg.key) in
              rw fits (
                flush-Held a.start_key (set a.pending i (record output { val = msg.val }))
                  (set-Held i a.pending (record output { val = msg.val }) h (subst P same p)))
        ]

  write-Sent : (a : Adapter) (msg : RedisMessage) → All Held a.pending → P msg → Sent (write a msg)
  unfolding write
  write-Sent a msg h p = elim (Bool-cases (eqb_ℤ msg.key (negsuc 0))) [
    | inl special ↦ rw special (record { held = h; sent = (p, tt) })
    | inr normal ↦ rw normal (fulfil-Sent a msg _ (get_elem? a.pending _) h p)
  ]

  read-Held :
      (a : Adapter) (msg : RedisMessage) → All Held a.pending → All Held (read a msg).0.pending
  unfolding read
  read-Held a msg h = All-append Held a.pending _ h (λ s. absurd (cc), tt)

  run-Sent :
      (a : Adapter) (es : List Event) → All Held a.pending → All P (replies es) → Sent (run a es)
  unfolding run
  run-Sent a [] h p = record { held = h; sent = tt }
  run-Sent a (request m ∷ es) h p = run-Sent (read a m).0 es (read-Held a m h) p
  run-Sent a (reply m ∷ es) h p =
      after_write (write a m) (write-Sent a m h p.0) (λ b w. run-Sent b es w p.1)
    where
      and_then :
          (out : List RedisMessage) (r : Option (Adapter × List RedisMessage))
          → All P out
          → Sent r
          → Sent (elim r [ none ↦ none | some (c, more) ↦ some (c, out ++ more) ])
      and_then out none w s = tt
      and_then out (some (c, more)) w s = record {
        held = s.held;
        sent = All-append P out more w s.sent;
      }

      after_write :
          (r : Option (Adapter × List RedisMessage))
          → Sent r
          → ((b : Adapter) → All Held b.pending → Sent (run b es))
          → Sent (elim r [
            | none ↦ none
            | some (b, out) ↦ elim (run b es) [
              | none ↦ none
              | some (c, more) ↦ some (c, out ++ more)
            ]
          ])
      after_write none s rest = tt
      after_write (some (b, out)) s rest = and_then out (run b es) s.sent (rest b s.held)

  -- Whatever the history of a connection, if no CHECK fails: what holds of every message that the
  -- handlers have written, key and value, holds of every message that is passed on. So nothing is
  -- made up, and no value changes its key.
  pub run_from_replies :
      (es : List Event) (b : Adapter) (out : List RedisMessage)
      → All P (replies es)
      → run init es ≡ some (b, out)
      → All P out
  run_from_replies es b out h e =
      let s : Sent (some (b, out)) = subst Sent e (run-Sent init es tt h) in s.sent

key_at :
    (k i : ℕ) (ms : List RedisMessage) (m : RedisMessage)
    → Consecutive k ms
    → get_elem? ms i ≡ some m
    → m.key ≡ pos (k + i)
key_at k i [] m h e = absurd (cc)
key_at k zero (x ∷ ms) m h e = ground arith
key_at k (suc i) (x ∷ ms) m h e = key_at (suc k) i ms m h.1 e ∙ ap pos (shift k i)
  where
    shift : (k i : ℕ) → suc k + i ≡ k + suc i
    shift k i = omega arith

index_at : (k i : ℕ) → i < 18446744073709551616 → low_bits (pos (k + i) -ℤ pos k) 64 ≡ i
index_at k i h = ground arith

-- What a write passes on of pending outputs, and what it holds back: the longest fulfilled front, and the rest.
pub record Passed (start : ℕ) (ms : List RedisMessage) (b : Adapter) (out : List RedisMessage)
    : Type 0 where
  pub whole : out ++ b.pending ≡ ms
  pub fulfilled : All (λ m. is_async m.val ≡ false) out
  pub waits : FirstWaits b.pending
  pub counted : b.start_key ≡ start + length out

flush-Passed : (k : ℕ) (ms : List RedisMessage) → Passed k ms (flush k ms).0 (flush k ms).1
unfolding flush
flush-Passed k [] = record { whole = refl; fulfilled = tt; waits = tt; counted = omega arith }
flush-Passed k (m ∷ ms) =
    let f = flush-Passed (suc k) ms in
    elim (Bool-cases (is_async m.val)) [
      | inl async ↦
          rw async (record { whole = refl; fulfilled = tt; waits = async; counted = omega arith })
      | inr sync ↦ rw sync (record {
        whole = ap (λ l. m ∷ l) f.whole;
        fulfilled = (sync, f.fulfilled);
        waits = f.waits;
        counted = omega (arith, f.counted);
      })
    ]

accepted :
    (a : Adapter) (i : ℕ) (output : RedisMessage) (v : RedisValue)
    → IsValid a
    → i < 18446744073709551616
    → get_elem? a.pending i ≡ some output
    → is_async output.val ≡ true
    → is_async v ≡ false
    → write a (record { key = pos (a.start_key + i); val = v })
      ≡ some (flush a.start_key (set a.pending i (record output { val = v })))
unfolding write
accepted a i output v valid h e waits done =
    let key = key_at a.start_key i a.pending output valid.keys e in
    rw (index_at a.start_key i h) (rw e (rw (key, waits, done) (ground arith)))

-- In a valid adapter, a reply to the request at an index below 2^64 of the pending ones, if it still
-- waits and the value is no async result, fails no CHECK. With the value put at the index, the
-- pending outputs are then passed on up to the first that waits, in their order; those from
-- there on are held back, and the start key counts those that were passed on.
pub write_accepts :
    (a : Adapter) (i : ℕ) (output : RedisMessage) (v : RedisValue)
    → IsValid a
    → i < 18446744073709551616
    → get_elem? a.pending i ≡ some output
    → is_async output.val ≡ true
    → is_async v ≡ false
    → (b : Adapter) × (out : List RedisMessage) × (write a
          (record { key = pos (a.start_key + i); val = v })
        ≡ some (b, out))
      × Passed a.start_key (set a.pending i (record output { val = v })) b out
write_accepts a i output v valid h e waits done =
    let ms = set a.pending i (record output { val = v }) in
    (
      (flush a.start_key ms).0,
      (flush a.start_key ms).1,
      accepted a i output v valid h e waits done,
      flush-Passed a.start_key ms,
    )
