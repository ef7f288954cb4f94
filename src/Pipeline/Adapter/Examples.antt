-- ===== src/Pipeline/Adapter/Examples.antt =====
-- A connection with three requests, whose replies come out of order, and a message to all monitors.
use smyte_db.Prelude.{ℕ, ◌+◌, ◌≡◌, ◌≢◌, refl, List, [], ◌∷◌, some, none, length, set, arith, All}
use smyte_db.Prelude.Int.{ℤ, pos, negsuc}
use smyte_db.Codec.Value.{RedisMessage, integer, null_string, async_result}
use smyte_db.Pipeline.Adapter.{Adapter, init, read, flush, write, Event, request, reply, run}
use smyte_db.Pipeline.Adapter.Keys.{Consecutive, FirstWaits, answers}
use smyte_db.Pipeline.Adapter.Order.{requests, IsValid, run_ordered}
use smyte_db.Pipeline.Adapter.Replies.{Passed, run_from_replies, write_accepts}

abbrev ping : RedisMessage
ping = record { key = pos 0; val = null_string }

abbrev numbered : ℤ → ℕ → RedisMessage
numbered k n = record { key = k; val = integer (pos n) }

abbrev history : List Event
history =
    request ping
    ∷ request ping
    ∷ reply (numbered (pos 1) 7)
    ∷ reply (numbered (negsuc 0) 9)
    ∷ request ping
    ∷ reply (numbered (pos 0) 5)
    ∷ []

abbrev waiting : Adapter
waiting = record { start_key = 2; pending = record { key = pos 2; val = async_result } ∷ [] }

abbrev passed_on : List RedisMessage
passed_on = numbered (negsuc 0) 9 ∷ numbered (pos 0) 5 ∷ numbered (pos 1) 7 ∷ []

run-history : run init history ≡ some (waiting, passed_on)
unfolding run read write flush
run-history = refl

run_ordered_example :
    Consecutive 0 (answers passed_on)
    × (length (answers passed_on) + length waiting.pending ≡ requests history)
    × FirstWaits waiting.pending
run_ordered_example = run_ordered history waiting passed_on run-history

-- A message that no handler has doubled.
abbrev Below10 : RedisMessage → Type 0
Below10 m = m.val ≢ integer (pos 10)

run_from_replies_example : All Below10 passed_on
run_from_replies_example =
    run_from_replies Below10 history waiting passed_on
      ((λ e. ground arith), ((λ e. ground arith), ((λ e. ground arith), tt))) run-history

waiting-IsValid : IsValid waiting
waiting-IsValid = record { keys = (refl, tt); waits = refl }

write_accepts_example :
    (b : Adapter) × (out : List RedisMessage) × (write waiting
        (record { key = pos (waiting.start_key + 0); val = null_string })
      ≡ some (b, out))
    × Passed waiting.start_key
        (set waiting.pending 0 (record { key = pos 2; val = null_string }))
        b
        out
write_accepts_example =
    write_accepts waiting 0 (record { key = pos 2; val = async_result }) null_string waiting-IsValid
      (omega arith) refl refl refl

-- A second reply to one request fails a CHECK.
reply_twice :
    run init
      (request ping ∷ request ping ∷ reply (numbered (pos 1) 7) ∷ reply (numbered (pos 1) 8) ∷ [])
    ≡ none
unfolding run read write flush
reply_twice = refl
