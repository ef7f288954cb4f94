-- ===== src/Pipeline/Monitors/Examples.antt =====
-- Monitors of pipeline/RedisHandler.cpp on concrete events.
use smyte_db.Pipeline.Monitors.Silence.{registers}
use smyte_db.Prelude.{◌≡◌, refl, List, [], ◌∷◌, codes}
use smyte_db.Codec.Value.{RedisMessage}
use smyte_db.Codec.Value.Encode.{decimal}
use smyte_db.Pipeline.Monitors.{
  Event, monitor, command, deliver, close, handle, run, no_monitors, monitor_text,
}
use smyte_db.Pipeline.Monitors.Silence.{SpareContext, close-SpareContext}

monitor_text_test :
    monitor_text
      (λ s. s)
      1458363281367954
      (codes "172.17.42.1:55983")
      (codes "get" ∷ codes "abc" ∷ [])
    ≡ codes "1458363281.367954 [0 172.17.42.1:55983] \"get\" \"abc\""
unfolding monitor_text decimal smyte_db.Codec.Value.Encode.decimal_fuel
monitor_text_test = refl

-- 1 and 2 are monitors; 3 sends a command, and both calls are pending when 1 is closed.
abbrev history : List Event
history = monitor 1 ∷ monitor 2 ∷ command 3 (codes "x") ∷ []

abbrev later : List Event
later = deliver 0 ∷ deliver 0 ∷ []

close-SpareContext_example :
    SpareContext 1 (run later (handle (close 1) (run history no_monitors).0).0).1
unfolding registers
close-SpareContext_example = close-SpareContext 1 history later (refl, (refl, tt))
