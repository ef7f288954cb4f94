-- ===== src/Pipeline/Adapter.antt =====
-- pipeline/OrderedRedisMessageAdapter.h and OrderedRedisMessageAdapter.cpp: replies may come in any
-- order, and are passed on in the order of the requests. `none` is a failed CHECK. The start key
-- counts the replies passed on so far, and stays far below 2^63.
pub mod Keys
pub mod Order
pub mod Replies
mod Examples
use smyte_db.Prelude.{
  ℕ, suc, ◌+◌, List, [], ◌∷◌, ◌++◌, Bool, true, false, not, ◌&&◌, Option, none, some, length,
  get_elem?, set, if◌then◌else◌,
}
use smyte_db.Prelude.Int.{ℤ, pos, negsuc, ◌-ℤ◌, eqb_ℤ, low_bits}
use smyte_db.Codec.Value.{RedisMessage, async_result, is_async}

pub record Adapter : Type 0 where
  pub start_key : ℕ
  pub pending : List RedisMessage

abbrev pub init : Adapter
init = record { start_key = 0; pending = [] }

-- The message that read passes on, under its new key.
unfoldable pub read : Adapter → RedisMessage → Adapter × RedisMessage
read a msg =
    let key = pos (a.start_key + length a.pending) in
    (
      record a { pending = a.pending ++ record { key = key; val = async_result } ∷ [] },
      record msg { key = key },
    )

-- The loop of write: the outputs up to the first that is not fulfilled.
unfoldable pub flush : ℕ → List RedisMessage → Adapter × List RedisMessage
flush start [] = (record { start_key = start; pending = [] }, [])
flush start (m ∷ ms) =
    let (a, out) = flush (suc start) ms in
    if is_async m.val then (record { start_key = start; pending = m ∷ ms }, []) else (a, m ∷ out)

-- What write does with the pending output at an index.
abbrev pub fulfil :
    Adapter → RedisMessage → ℕ → Option RedisMessage → Option (Adapter × List RedisMessage)
fulfil a msg index none = none
fulfil a msg index (some output) =
    if eqb_ℤ output.key msg.key && (is_async output.val && not (is_async msg.val))
    then some (flush a.start_key (set a.pending index (record output { val = msg.val })))
    else none

-- The messages that write passes on. The index is a `size_t`, and so wraps.
unfoldable pub write : Adapter → RedisMessage → Option (Adapter × List RedisMessage)
write a msg =
    if eqb_ℤ msg.key (negsuc 0)
    then some (a, msg ∷ [])
    else (let index = low_bits (msg.key -ℤ pos a.start_key) 64 in
        fulfil a msg index (get_elem? a.pending index))

-- What happens to the adapter of one connection.
pub data Event : Type 0 where
  request : RedisMessage → Event
  reply : RedisMessage → Event

-- A history, with all that was passed on to the client.
unfoldable pub run : Adapter → List Event → Option (Adapter × List RedisMessage)
run a [] = some (a, [])
run a (request m ∷ es) = run (read a m).0 es
run a (reply m ∷ es) = elim (write a m) [
  | none ↦ none
  | some (a', out) ↦ elim (run a' es) [ none ↦ none | some (a'', more) ↦ some (a'', out ++ more) ]
]
