-- ===== src/Pipeline/Monitors.antt =====
-- Monitors and connections in pipeline/RedisHandler.h and RedisHandler.cpp. A context is known by a number. A
-- broadcast leaves a call for each other monitor, which its own thread runs later on.
pub mod Silence
mod Examples
use smyte_db.Prelude.{
  ℕ, zero, suc, ◌-◌, ◌/◌, ◌%◌, List, [], ◌∷◌, ◌++◌, Bool, true, false, Option, none, some,
  if◌then◌else◌, ◌==◌, length, codes, replicate,
}
use smyte_db.Prelude.Int.{ℤ, pos, negsuc}
use smyte_db.Codec.Value.{RedisMessage, RedisValue, simple_string}
use smyte_db.Codec.Value.Encode.{decimal}
use smyte_db.Pipeline.Table.{Command}
use smyte_db.Pipeline.Handler.{is_registered, monitor_command}

-- removeMonitor
unfoldable pub remove_monitor : ℕ → List ℕ → List ℕ
remove_monitor ctx [] = []
remove_monitor ctx (m ∷ ms) = let rest = remove_monitor ctx ms in if m == ctx then ms else m ∷ rest

-- broadcastCmd: the monitors that the command is to be sent to.
unfoldable pub broadcast_cmd : ℕ → List ℕ → List ℕ
broadcast_cmd ctx [] = []
broadcast_cmd ctx (m ∷ ms) = let rest = broadcast_cmd ctx ms in if m == ctx then rest else m ∷ rest

-- "{:0>6}"
abbrev pub six_digits : ℕ → List ℕ
six_digits n = replicate (6 - length (decimal n)) b'0' ++ decimal n

abbrev pub join : Command → List ℕ
join [] = []
join (word ∷ []) = word
join (word ∷ words) = word ++ (codes "\" \"" ++ join words)

-- The line for a monitor, with folly's backslashify and the time in microseconds.
unfoldable pub monitor_text : (List ℕ → List ℕ) → ℕ → List ℕ → Command → List ℕ
monitor_text backslashify now monitor_addr cmd =
    decimal (now / 1000000)
    ++ (b'.'
        ∷ (six_digits (now % 1000000)
            ++ (codes " [0 "
                ++ (monitor_addr ++ (codes "] \"" ++ (backslashify (join cmd) ++ codes "\""))))))

-- writeToMonitorContext: a context that is not registered any more gets nothing.
unfoldable pub write_to_monitor_context : List ℕ → ℕ → List ℕ → Option RedisMessage
write_to_monitor_context text ctx monitors =
    if is_registered ctx monitors
    then some (record { key = negsuc 0; val = simple_string text })
    else none

-- The monitors, and the calls left for other threads with their texts.
pub record State : Type 0 where
  pub monitors : List ℕ
  pub pending : List (ℕ × List ℕ)

abbrev pub no_monitors : State
no_monitors = record { monitors = []; pending = [] }

-- A context sends MONITOR or another command with its line, the first or a later one of the pending calls runs, or a
-- context is closed.
pub data Event : Type 0 where
  monitor : ℕ → Event
  command : ℕ → List ℕ → Event
  deliver : ℕ → Event
  close : ℕ → Event

abbrev pub to_each : List ℕ → List ℕ → List (ℕ × List ℕ)
to_each [] text = []
to_each (m ∷ ms) text = (m, text) ∷ to_each ms text

-- A pending call taken out of the list.
unfoldable pub take_out : ℕ → List (ℕ × List ℕ) → Option (ℕ × List ℕ) × List (ℕ × List ℕ)
take_out n [] = (none, [])
take_out zero (p ∷ ps) = (some p, ps)
take_out (suc n) (p ∷ ps) = let (found, rest) = take_out n ps in (found, p ∷ rest)

abbrev pub written_to : ℕ → Option RedisMessage → List (ℕ × RedisMessage)
written_to ctx none = []
written_to ctx (some m) = (ctx, m) ∷ []

abbrev pub deliver_one : List ℕ → Option (ℕ × List ℕ) → List (ℕ × RedisMessage)
deliver_one monitors none = []
deliver_one monitors (some (ctx, text)) =
    written_to ctx (write_to_monitor_context text ctx monitors)

-- The state behind an event, and the messages written to monitors.
unfoldable pub handle : Event → State → State × List (ℕ × RedisMessage)
handle (monitor ctx) s =
    let (monitors, reply) = monitor_command ctx s.monitors in (record s { monitors = monitors }, [])
handle (command ctx text) s =
    (record s { pending = s.pending ++ to_each (broadcast_cmd ctx s.monitors) text }, [])
handle (deliver n) s =
    let (call, rest) = take_out n s.pending in
    (record s { pending = rest }, deliver_one s.monitors call)
handle (close ctx) s = (record s { monitors = remove_monitor ctx s.monitors }, [])

unfoldable pub run : List Event → State → State × List (ℕ × RedisMessage)
unfolding handle
run [] s = (s, [])
run (e ∷ es) s = let (s', out) = handle e s in let (s'', more) = run es s' in (s'', out ++ more)
