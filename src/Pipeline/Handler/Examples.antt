-- ===== src/Pipeline/Handler/Examples.antt =====
-- A connection to a handler with one command.
use smyte_db.Prelude.{ℕ, suc, ◌≡◌, refl, List, [], ◌∷◌, some, codes}
use smyte_db.Prelude.Int.{pos}
use smyte_db.Codec.Value.{integer, RedisMessage}
use smyte_db.Pipeline.Table.{CommandHandler, Table}
use smyte_db.Pipeline.Handler.{Func}
use smyte_db.Pipeline.Handler.Replies.{Request, AllReplied, serve, serve_replies}

abbrev count_up : Func ℕ
count_up cmd world = (integer (pos world), suc world)

abbrev counters : Table (CommandHandler (Func ℕ))
counters =
    (codes "incr", record { handler_func = count_up; min_args = pos 0; max_args = pos 0 }) ∷ []

-- The second has an argument too many, and the third is unknown.
abbrev requests : List Request
requests =
    (pos 0, codes "INCR", [])
    ∷ (pos 1, codes "incr", codes "x" ∷ [])
    ∷ (pos 2, codes "decr", [])
    ∷ (pos 3, codes "incr", [])
    ∷ []

serve_replies_example :
    (world' : ℕ) × (out : List RedisMessage) × (serve counters requests 7 ≡ some (world', out))
    × AllReplied counters requests 7 world' out
serve_replies_example = serve_replies counters requests 7 ((λ cmd world. refl), tt)
