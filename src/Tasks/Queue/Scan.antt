-- ===== src/Tasks/Queue/Scan.antt =====
-- What scanPendingTasks of infra/ScheduledTaskQueue.cpp finds.
use smyte_db.Prelude.{
  ℕ, zero, suc, ◌+◌, ◌-◌, ◌<◌, ◌≤◌, ◌≡◌, ◌≢◌, refl, sym, ap, ◌∙◌, inl, inr, List, [], ◌∷◌, ◌++◌,
  Bool, true, false, ◌||◌, Option, some, length, ltb, ◌==◌, if◌then◌else◌, arith, Bool-cases, All,
  take, drop, map, length-append, subst,
}
use smyte_db.Prelude.Int.{ℤ, pos, ltb_ℤ}
use smyte_db.Endian.{Endian}
use smyte_db.Endian.Order.{lex_lt}
use smyte_db.Endian.Signed.{load-store, take-store, drop-store}
use smyte_db.RocksDb.{RocksDb, Entry, before, Ascending}
use smyte_db.Tasks.{ScheduledTask, encode_timestamp, decode_timestamp, new_task}
use smyte_db.Tasks.Keys.{IsNew, key_below, times_ascend}
use smyte_db.Tasks.Queue.{task_of, scan, scan_pending_tasks}

abbrev pub entry_of : ScheduledTask → Entry
entry_of t = (t.key, t.value)

-- The tasks scheduled before a time.
abbrev pub due : ℕ → List ScheduledTask → List ScheduledTask
due max [] = []
due max (t ∷ ts) =
    let rest = due max ts in if ltb_ℤ t.scheduled_time_ms (pos max) then t ∷ rest else rest

-- At most so many, or all if the limit is 0.
abbrev pub up_to : ℕ → List ScheduledTask → List ScheduledTask
up_to limit ts = if limit == 0 then ts else take limit ts

due-All :
    (P : ScheduledTask → Type 0) (max : ℕ) (ts : List ScheduledTask) → All P ts → All P (due max ts)
due-All P max [] h = tt
due-All P max (t ∷ ts) (p, h) =
    let rest = due-All P max ts h in
    elim (Bool-cases (ltb_ℤ t.scheduled_time_ms (pos max))) [
      | inl now ↦ rw now (p, rest)
      | inr not_yet ↦ rw not_yet rest
    ]

module _ (e : Endian) where
  open e use {store, load, length-store}

  decoded : (t : ScheduledTask) (n : IsNew e t) → decode_timestamp e t.key ≡ t.scheduled_time_ms
  unfolding decode_timestamp
  decoded t n =
      ap (λ k. load 8 (take 8 k)) n.key
      ∙ ap (load 8) (take-store e 8 (pos n.millis) t.data_key)
      ∙ load-store e (pos n.millis) n.in_range
      ∙ sym n.time

  data_key_of : (t : ScheduledTask) (n : IsNew e t) → drop 8 t.key ≡ t.data_key
  data_key_of t n = rw n.key (drop-store e 8 (pos n.millis) t.data_key)

  long_key : (t : ScheduledTask) (n : IsNew e t) → ltb (length t.key) 8 ≡ false
  long_key t n = rw n.key (
      ground
        (arith, length-append (store 8 (pos n.millis)) t.data_key, length-store 8 (pos n.millis)))

  encoded : (m : ℕ) → encode_timestamp e (pos m) ≡ some (store 8 (pos m))
  unfolding encode_timestamp
  encoded m = ground arith

  from_parts :
      (m : ℕ) (time : ℤ) (data_key value : List ℕ) (completed : Bool) (key : List ℕ)
      → time ≡ pos m
      → key ≡ store 8 (pos m) ++ data_key
      → data_key ≢ []
      → completed ≡ false
      → new_task e time data_key value
        ≡ some (record {
          scheduled_time_ms = time;
          data_key = data_key;
          value = value;
          completed = completed;
          key = key;
        })
  unfolding new_task
  from_parts m time [] value completed key t k d c = absurd (d refl)
  from_parts m time (x ∷ xs) value completed key t k d c =
      rw (t, k, c) (rw (encoded m, new_task) refl)

  rebuilt :
      (t : ScheduledTask) (n : IsNew e t)
      → new_task e t.scheduled_time_ms t.data_key t.value ≡ some t
  rebuilt t n =
      from_parts n.millis t.scheduled_time_ms t.data_key t.value t.completed t.key n.time n.key
        n.has_data_key n.completed

  -- The entry of a new task is read back as the task.
  pub task_of-entry : (t : ScheduledTask) → IsNew e t → task_of e (entry_of t) ≡ some t
  unfolding task_of
  task_of-entry t n = rw (long_key t n, decoded t n, data_key_of t n) (rebuilt t n)

  -- What the loop still takes after some rounds.
  abbrev window : ℕ → ℕ → List ScheduledTask → List ScheduledTask
  window limit count ts = if limit == 0 then ts else take (limit - count) ts

  take_none : (n : ℕ) → take {A = ScheduledTask} n [] ≡ []
  take_none zero = refl
  take_none (suc n) = refl

  window_none : (limit count : ℕ) → window limit count [] ≡ []
  window_none limit count = ground (arith, take_none (limit - count))

  take_one :
      (limit count : ℕ) (t : ScheduledTask) (ts : List ScheduledTask)
      → count < limit
      → take (limit - count) (t ∷ ts) ≡ t ∷ take (limit - suc count) ts
  take_one limit count t ts h =
      let q : limit - count ≡ suc (limit - suc count) = omega arith in ap (λ n. take n (t ∷ ts)) q

  take_nothing : (n : ℕ) (ts : List ScheduledTask) → n ≡ 0 → take n ts ≡ []
  take_nothing n ts h = ap (λ n. take n ts) h

  by_limit :
      (limit count : ℕ) (t : ScheduledTask) (ts : List ScheduledTask)
      → if◌then◌else◌ {A = Option (ℕ × List ScheduledTask)}
          (limit == 0 || ltb count limit)
          (some (suc count + length (window limit (suc count) ts), t ∷ window limit (suc count) ts))
          (some (count, []))
        ≡ some (count + length (window limit count (t ∷ ts)), window limit count (t ∷ ts))
  by_limit limit count t ts =
      ground (arith, take_one limit count t ts, take_nothing (limit - count) (t ∷ ts))

  scan-entries :
      (limit count : ℕ) (ts : List ScheduledTask)
      → All (IsNew e) ts
      → scan e limit count (map entry_of ts)
        ≡ some (count + length (window limit count ts), window limit count ts)
  unfolding scan
  scan-entries limit count [] h = rw (window_none limit count) (ground arith)
  scan-entries limit count (t ∷ ts) (n, h) =
      rw (task_of-entry t n, scan-entries limit (suc count) ts h) (by_limit limit count t ts)

  -- Behind a task that is not due, none is.
  none_due :
      (max first : ℕ) (us : List ℕ) (ts : List ScheduledTask)
      → first < 9223372036854775808
      → max ≤ first
      → All (IsNew e) ts
      → All (λ later. lex_lt (store 8 (pos first) ++ us) later.0 ≡ true) (map entry_of ts)
      → due max ts ≡ []
  none_due max first us [] hf hm h a = refl
  none_due max first us (t ∷ ts) hf hm (n, h) (a, later) =
      let q =
        times_ascend e first n.millis us t.data_key hf
          (subst (λ k. lex_lt (store 8 (pos first) ++ us) k ≡ true) n.key a) in
      rw n.time (ground (arith, none_due max first us ts hf hm h later))

  key_due :
      (max : ℕ) (t : ScheduledTask) (n : IsNew e t)
      → max < 9223372036854775808
      → lex_lt t.key (store 8 (pos max)) ≡ ltb_ℤ t.scheduled_time_ms (pos max)
  key_due max t n hm =
      rw (n.key, n.time) (key_below e n.millis max t.data_key n.in_range hm ∙ (ground arith))

  too_late :
      (max : ℕ) (t : ScheduledTask) (n : IsNew e t)
      → ltb_ℤ t.scheduled_time_ms (pos max) ≡ false
      → max ≤ n.millis
  too_late max t n h = late max n.millis (subst (λ x. ltb_ℤ x (pos max) ≡ false) n.time h)
    where
      late : (max m : ℕ) → ltb_ℤ (pos m) (pos max) ≡ false → max ≤ m
      late max m h = ground arith

  before-entries :
      (max : ℕ) (ts : List ScheduledTask)
      → max < 9223372036854775808
      → All (IsNew e) ts
      → Ascending (map entry_of ts)
      → before (store 8 (pos max)) (map entry_of ts) ≡ map entry_of (due max ts)
  unfolding before
  before-entries max [] hm h a = refl
  before-entries max (t ∷ ts) hm (n, h) (a, later) =
      elim (Bool-cases (ltb_ℤ t.scheduled_time_ms (pos max))) [
        | inl now ↦
            rw (key_due max t n hm, now)
              (ap (λ es. entry_of t ∷ es) (before-entries max ts hm h later))
        | inr not_yet ↦
            rw (key_due max t n hm, not_yet)
              (sym (
                ap (map entry_of) (
                  none_due max n.millis t.data_key ts n.in_range (too_late max t n not_yet) h (
                    subst (λ k. All (λ later. lex_lt k later.0 ≡ true) (map entry_of ts)) n.key
                      a))))
      ]

module _ (e : Endian) (rocks : RocksDb) (column_family : rocks.Family) where
  open rocks use {Db, entries, iterate, iterate-before}

  found-entries :
      (db : Db) (ts : List ScheduledTask) (max : ℕ)
      → entries column_family db ≡ map entry_of ts
      → All (IsNew e) ts
      → Ascending (entries column_family db)
      → max < 9223372036854775808
      → iterate column_family (e.store 8 (pos max)) db ≡ map entry_of (due max ts)
  found-entries db ts max es h a hm =
      iterate-before column_family (e.store 8 (pos max)) db
      ∙ ap (before (e.store 8 (pos max))) es
      ∙ before-entries e max ts hm h (subst Ascending es a)

  -- A scan of a column family whose entries, in ascending order of their keys, are those of new
  -- tasks finds the tasks scheduled before the given time, which fits in int64_t, in that order:
  -- all if the limit is 0, and the first so many as the limit says if not. It reports their number.
  pub scan_pending_tasks-due :
      (db : Db) (ts : List ScheduledTask) (max limit : ℕ)
      → entries column_family db ≡ map entry_of ts
      → All (IsNew e) ts
      → Ascending (entries column_family db)
      → max < 9223372036854775808
      → scan_pending_tasks e rocks column_family db (pos max) limit
        ≡ some (length (up_to limit (due max ts)), up_to limit (due max ts))
  unfolding scan_pending_tasks
  scan_pending_tasks-due db ts max limit es h a hm =
      rw (encoded e max, scan_pending_tasks)
        (rw (found-entries db ts max es h a hm)
          (scan-entries e limit 0 (due max ts) (due-All (IsNew e) max ts h) ∙ ground arith))
