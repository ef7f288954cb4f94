-- ===== src/Pipeline/Monitors/Silence.antt =====
-- What monitors in pipeline/RedisHandler.cpp get once they are closed.
use smyte_db.Prelude.{◌∙◌}
use smyte_db.Pipeline.Monitors.{no_monitors}
use smyte_db.Prelude.{
  subst, ◌-◌, ℕ, suc, ◌+◌, ◌≤◌, ◌≡◌, refl, List, [], ◌∷◌, ◌++◌, Bool, true, false, Option, none,
  some, if◌then◌else◌, ◌==◌, arith, All, All-append, Bool-cases, ◌⊎◌, inl, inr,
}
use smyte_db.Codec.Value.{RedisMessage}
use smyte_db.Pipeline.Handler.{is_registered, monitor_command}
use smyte_db.Pipeline.Monitors.{
  State, Event, monitor, command, deliver, close, handle, run, remove_monitor, deliver_one,
  write_to_monitor_context, take_out,
}

abbrev pub times_in : ℕ → List ℕ → ℕ
times_in ctx [] = 0
times_in ctx (m ∷ ms) = let rest = times_in ctx ms in if m == ctx then suc rest else rest

times_in-append :
    (ctx c : ℕ) (ms : List ℕ)
    → times_in ctx (ms ++ c ∷ []) ≡ times_in ctx ms + (if c == ctx then 1 else 0)
times_in-append ctx c [] = ground arith
times_in-append ctx c (m ∷ ms) = ground (arith, times_in-append ctx c ms)

unregistered : (ctx : ℕ) (ms : List ℕ) → is_registered ctx ms ≡ false → times_in ctx ms ≡ 0
unregistered ctx [] h = refl
unregistered ctx (m ∷ ms) h = ground (arith, unregistered ctx ms)

unlisted : (ctx : ℕ) (ms : List ℕ) → times_in ctx ms ≡ 0 → is_registered ctx ms ≡ false
unlisted ctx [] h = refl
unlisted ctx (m ∷ ms) h = ground (arith, unlisted ctx ms)

times_in-remove_monitor :
    (ctx c : ℕ) (ms : List ℕ)
    → times_in ctx (remove_monitor c ms) ≡ times_in ctx ms - (if c == ctx then 1 else 0)
unfolding remove_monitor
times_in-remove_monitor ctx c [] = ground arith
times_in-remove_monitor ctx c (m ∷ ms) = ground (arith, times_in-remove_monitor ctx c ms)

times_in-monitor_command :
    (ctx c : ℕ) (ms : List ℕ) → times_in ctx ms ≤ 1 → times_in ctx (monitor_command c ms).0 ≤ 1
unfolding monitor_command
times_in-monitor_command ctx c ms h = elim (Bool-cases (is_registered c ms)) [
  | inl there ↦ rw there h
  | inr new ↦ rw new (rw (times_in-append ctx c ms) (added (Bool-cases (c == ctx)) new))
]
  where
    added :
        ((c == ctx) ≡ true) ⊎ ((c == ctx) ≡ false)
        → is_registered c ms ≡ false
        → times_in ctx ms + (if c == ctx then 1 else 0) ≤ 1
    added (inl same) new =
        let e : c ≡ ctx = ground arith in
        let none_yet : times_in ctx ms ≡ 0 =
          unregistered ctx ms (subst (λ x. is_registered x ms ≡ false) e new) in
        rw same (omega (arith, none_yet))
    added (inr other) new = rw other (omega (arith, h))

-- Whether an event makes a context a monitor.
unfoldable pub registers : ℕ → Event → Bool
registers ctx (monitor c) = c == ctx
registers ctx _ = false

-- A context is registered once at most.
times_in-handle :
    (ctx : ℕ) (e : Event) (s : State)
    → times_in ctx s.monitors ≤ 1
    → times_in ctx (handle e s).0.monitors ≤ 1
unfolding handle
times_in-handle ctx (monitor c) s h = times_in-monitor_command ctx c s.monitors h
times_in-handle ctx (command c text) s h = h
times_in-handle ctx (deliver n) s h = h
times_in-handle ctx (close c) s h = ground (arith, times_in-remove_monitor ctx c s.monitors)

times_in-run :
    (ctx : ℕ) (es : List Event) (s : State)
    → times_in ctx s.monitors ≤ 1
    → times_in ctx (run es s).0.monitors ≤ 1
unfolding run
times_in-run ctx [] s h = h
times_in-run ctx (e ∷ es) s h = times_in-run ctx es (handle e s).0 (times_in-handle ctx e s h)

is_registered-close :
    (ctx : ℕ) (s : State)
    → times_in ctx s.monitors ≤ 1
    → is_registered ctx (handle (close ctx) s).0.monitors ≡ false
unfolding handle
is_registered-close ctx s h =
    unlisted ctx (remove_monitor ctx s.monitors)
      (ground (arith, times_in-remove_monitor ctx ctx s.monitors))

-- No message of these is to a context.
abbrev pub SpareContext : ℕ → List (ℕ × RedisMessage) → Type 0
SpareContext ctx out = All (λ w. (w.0 == ctx) ≡ false) out

other_context :
    (ctx c : ℕ) (ms : List ℕ)
    → is_registered ctx ms ≡ false
    → is_registered c ms ≡ true
    → (c == ctx) ≡ false
other_context ctx c ms h there = elim (Bool-cases (c == ctx)) [
  | inr other ↦ other
  | inl same ↦
      let e : c ≡ ctx = ground arith in
      let there' : is_registered ctx ms ≡ true = subst (λ x. is_registered x ms ≡ true) e there in
      absurd (cc)
]

deliver_one-SpareContext :
    (ctx : ℕ) (ms : List ℕ) (call : Option (ℕ × List ℕ))
    → is_registered ctx ms ≡ false
    → SpareContext ctx (deliver_one ms call)
unfolding write_to_monitor_context
deliver_one-SpareContext ctx ms none h = tt
deliver_one-SpareContext ctx ms (some (c, text)) h = elim (Bool-cases (is_registered c ms)) [
  | inr gone ↦ rw (gone, write_to_monitor_context) tt
  | inl there ↦ rw (there, write_to_monitor_context) (other_context ctx c ms h there, tt)
]

not_registered :
    (ctx c : ℕ) (ms : List ℕ)
    → (c == ctx) ≡ false
    → is_registered ctx ms ≡ false
    → is_registered ctx (monitor_command c ms).0 ≡ false
unfolding monitor_command
not_registered ctx c ms other h = elim (Bool-cases (is_registered c ms)) [
  | inl there ↦ rw there h
  | inr new ↦
      let none_yet : times_in ctx ms ≡ 0 = unregistered ctx ms h in
      let none_then : times_in ctx (ms ++ c ∷ []) ≡ 0 =
        times_in-append ctx c ms ∙ rw other (omega (arith, none_yet)) in
      rw new (unlisted ctx (ms ++ c ∷ []) none_then)
]

-- A context that is no monitor stays so, and gets nothing, at an event that does not make it one.
handle-SpareContext :
    (ctx : ℕ) (e : Event) (s : State)
    → is_registered ctx s.monitors ≡ false
    → registers ctx e ≡ false
    → (is_registered ctx (handle e s).0.monitors ≡ false) × SpareContext ctx (handle e s).1
unfolding handle registers
handle-SpareContext ctx (monitor c) s h r = (not_registered ctx c s.monitors r h, tt)
handle-SpareContext ctx (command c text) s h r = (h, tt)
handle-SpareContext ctx (deliver n) s h r =
    (h, deliver_one-SpareContext ctx s.monitors (take_out n s.pending).0 h)
handle-SpareContext ctx (close c) s h r =
    let gone : times_in ctx s.monitors ≡ 0 = unregistered ctx s.monitors h in
    (
      unlisted ctx (remove_monitor c s.monitors)
          (ground (arith, times_in-remove_monitor ctx c s.monitors)),
      tt,
    )

run-SpareContext :
    (ctx : ℕ) (es : List Event) (s : State)
    → is_registered ctx s.monitors ≡ false
    → All (λ e. registers ctx e ≡ false) es
    → SpareContext ctx (run es s).1
unfolding run
run-SpareContext ctx [] s h r = tt
run-SpareContext ctx (e ∷ es) s h r =
    let (still, spared) = handle-SpareContext ctx e s h r.0 in
    All-append (λ w. (w.0 == ctx) ≡ false) (handle e s).1 (run es (handle e s).0).1 spared
      (run-SpareContext ctx es (handle e s).0 still r.1)

-- Nothing is written to a closed connection on behalf of monitoring: whatever happened before, with calls for the context still
-- pending in its thread, once it is closed no message goes to it any more, as long as it does
-- not send MONITOR again.
pub close-SpareContext :
    (ctx : ℕ) (history later : List Event)
    → All (λ e. registers ctx e ≡ false) later
    → SpareContext ctx (run later (handle (close ctx) (run history no_monitors).0).0).1
close-SpareContext ctx history later r =
    run-SpareContext ctx later (handle (close ctx) (run history no_monitors).0).0
      (is_registered-close ctx (run history no_monitors).0
        (times_in-run ctx history no_monitors (omega arith)))
      r
