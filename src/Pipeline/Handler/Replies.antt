-- ===== src/Pipeline/Handler/Replies.antt =====
-- A connection to a handler of pipeline/RedisHandler.h without async commands. The pipeline of
-- pipeline/RedisPipelineFactory.h then has no adapter that brings replies into order.
use smyte_db.Prelude.{
  ℕ, ◌≡◌, ◌⊎◌, refl, ap, List, [], ◌∷◌, ◌++◌, true, false, Option, none, some, All, codes,
  Bool-cases, Option-cases, inl, inr, map, subst, bytes_eq,
}
use smyte_db.Prelude.Int.{ℤ}
use smyte_db.Codec.Value.{bulk_string_array, RedisMessage, is_async}
use smyte_db.Pipeline.Table.{
  Command, CommandHandler, Table, find, validate_arg_count, wrong_num_args, error_message,
}
use smyte_db.Pipeline.Handler.{
  Func, Handled, process_command_handler_result, call_handler, read_command, read, to_lower,
}

-- A request as the decoder passes it on: its key, the command's name and the arguments.
abbrev pub Request : Type 0
Request = ℤ × List ℕ × List (List ℕ)

abbrev pub message_of : Request → RedisMessage
message_of (key, name, args) = record { key = key; val = bulk_string_array (name ∷ args) }

module _ {World : Type 0} (table : Table (CommandHandler (Func World))) where
  -- The requests of a connection, one after the other.
  unfoldable pub serve : List Request → World → Option (World × List RedisMessage)
  unfolding read
  serve [] world = some (world, [])
  serve (r ∷ rs) world = elim (read false table (message_of r) world) [
    | none ↦ none
    | some h ↦ elim (serve rs h.world) [
      | none ↦ none
      | some (world', more) ↦ some (world', h.written ++ more)
    ]
  ]

  -- A handler that answers at once.
  abbrev pub IsSync : List ℕ × CommandHandler (Func World) → Type 0
  IsSync (name, entry) =
      (cmd : Command) (world : World) → is_async (entry.handler_func cmd world).0 ≡ false

  -- The one reply to a request, and the world behind it: the result of the command's handler, if it takes so many
  -- arguments, or else an error, which changes nothing.
  abbrev pub Replied : Request → World → World → RedisMessage → Type 0
  Replied (key, name, args) world world' m =
      ((find (map to_lower name) table ≡ none)
        × (world' ≡ world)
        × (m ≡ error_message key (codes "Unknown command: '" ++ (map to_lower name ++ codes "'"))))
      ⊎ ((entry : CommandHandler (Func World)) × (find (map to_lower name) table ≡ some entry)
          × (((validate_arg_count (name ∷ args) entry.min_args entry.max_args ≡ false)
                × (world' ≡ world)
                × (m ≡ error_message key (wrong_num_args (map to_lower name))))
              ⊎ ((validate_arg_count (name ∷ args) entry.min_args entry.max_args ≡ true)
                  × (world' ≡ (entry.handler_func (name ∷ args) world).1)
                  × (m ≡ record { key = key; val = (entry.handler_func (name ∷ args) world).0 }))))

  -- One reply to each request, in their order, on the world that the requests before it leave.
  abbrev pub AllReplied : List Request → World → World → List RedisMessage → Type 0
  AllReplied [] world world' [] = world' ≡ world
  AllReplied [] world world' (m ∷ ms) = ⊥
  AllReplied (r ∷ rs) world world' [] = ⊥
  AllReplied (r ∷ rs) world world' (m ∷ ms) =
      (between : World) × Replied r world between m × AllReplied rs between world' ms

  find-IsSync :
      (name : List ℕ) (t : Table (CommandHandler (Func World)))
      (entry : CommandHandler (Func World))
      → All IsSync t
      → find name t ≡ some entry
      → (cmd : Command) (world : World) → is_async (entry.handler_func cmd world).0 ≡ false
  unfolding find
  find-IsSync name [] entry h e = absurd (cc)
  find-IsSync name ((n, x) ∷ t) entry h e = elim (Bool-cases (bytes_eq n name)) [
    | inl here ↦
        let found : some x ≡ some entry = rw here at e in
        let same : x ≡ entry = cc in
        subst
          (λ (y : CommandHandler (Func World)).
            (cmd : Command) (world : World) → is_async (y.handler_func cmd world).0 ≡ false)
          same h.0
    | inr further ↦
        let found : find name t ≡ some entry = rw (further, find) at e in
        find-IsSync name t entry h.1 found
  ]

  -- read comes to an end, with one message.
  abbrev Once : Request → World → Option (Handled World) → Type 0
  Once r world o =
      (h : Handled World) × (m : RedisMessage) × (o ≡ some h)
      × (h.written ≡ m ∷ [])
      × Replied r world h.world m

  read-Once :
      (r : Request) (world : World)
      → All IsSync table
      → Once r world (read false table (message_of r) world)
  unfolding read read_command call_handler process_command_handler_result
  read-Once (key, name, args) world sync = elim (Option-cases (find (map to_lower name) table)) [
    | inl unknown ↦ rw unknown (_, _, refl, refl, inl (refl, refl, refl))
    | inr (entry, found) ↦
        elim (Bool-cases (validate_arg_count (name ∷ args) entry.min_args entry.max_args)) [
          | inr misfit ↦
              rw (found, misfit) (_, _, refl, refl, inr (entry, refl, inl (misfit, refl, refl)))
          | inl fits ↦
              let now =
                find-IsSync (map to_lower name) table entry sync found (name ∷ args) world in
              rw (found, fits, now) (_, _, refl, refl, inr (entry, refl, inr (fits, refl, refl)))
        ]
  ]

  -- A connection to a handler none of whose commands answers later: every sequence of requests is served to the end,
  -- with exactly one reply to each, in the order of the requests and under their keys. The reply
  -- is the result of the command's handler, on the world that the requests before have left, or
  -- an error for an unknown command or a wrong number of arguments, which leaves the world as it is.
  pub serve_replies :
      (rs : List Request) (world : World)
      → All IsSync table
      → (world' : World) × (out : List RedisMessage) × (serve rs world ≡ some (world', out))
        × AllReplied rs world world' out
  unfolding serve
  serve_replies [] world sync = (world, [], refl, refl)
  serve_replies (r ∷ rs) world sync =
      let (h, m, e, one, replied) = read-Once r world sync in
      let (world', out, rest, all_replied) = serve_replies rs h.world sync in
      (
        world',
        m ∷ out,
        rw (serve, e, rest) (ap (λ ms. some (world', ms ++ out)) one),
        (h.world, replied, all_replied),
      )
