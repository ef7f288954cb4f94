-- ===== src/Tasks.antt =====
-- infra/ScheduledTask.h. boost::endian is an argument; `none` is a failed CHECK.

pub mod Keys
pub mod Queue
use smyte_db.Prelude.{
  ℕ, ◌<◌, ◌≡◌, List, [], ◌∷◌, ◌++◌, Bool, true, false, ◌&&◌, Option, none, some, bytes_eq,
  if◌then◌else◌, take,
}
use smyte_db.Prelude.Int.{ℤ, pos, eqb_ℤ, leb_ℤ}
use smyte_db.Endian.{Endian}

pub record ScheduledTask : Type 0 where
  pub scheduled_time_ms : ℤ
  pub data_key : List ℕ
  pub value : List ℕ
  pub completed : Bool
  pub key : List ℕ

abbrev pub mark_completed : ScheduledTask → ScheduledTask
mark_completed t = record t { completed = true }

unfoldable pub equals : ScheduledTask → ScheduledTask → Bool
equals a b =
    eqb_ℤ a.scheduled_time_ms b.scheduled_time_ms
    && (bytes_eq a.data_key b.data_key && bytes_eq a.value b.value)

module _ (e : Endian) where
  open e use {store, load}

  unfoldable pub encode_timestamp : ℤ → Option (List ℕ)
  encode_timestamp timestamp_ms =
      if leb_ℤ (pos 0) timestamp_ms then some (store 8 timestamp_ms) else none

  unfoldable pub decode_timestamp : List ℕ → ℤ
  decode_timestamp buf = load 8 (take 8 buf)

  -- The constructor.
  unfoldable pub new_task : ℤ → List ℕ → List ℕ → Option ScheduledTask
  unfolding encode_timestamp
  new_task time [] value = none
  new_task time (c ∷ cs) value = elim (encode_timestamp time) [
    | none ↦ none
    | some timestamp ↦ some (record {
      scheduled_time_ms = time;
      data_key = c ∷ cs;
      value = value;
      completed = false;
      key = timestamp ++ (c ∷ cs);
    })
  ]
