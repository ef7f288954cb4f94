-- ===== src/Pipeline/Transaction/Sessions.antt =====
-- Whole transactions of pipeline/TransactionalRedisHandler.cpp: MULTI, commands, EXEC.
use smyte_db.Prelude.{
  ◌≡◌, refl, ◌⊎◌, inl, inr, List, [], ◌∷◌, ◌++◌, Bool, true, false, none, some, bytes_eq, codes,
  append_assoc, append-nil,
}
use smyte_db.Codec.Value.{simple_string, RedisMessage}
use smyte_db.Pipeline.Table.{
  Command, CommandHandler, Table, find, validate_arg_count, error_message, simple_string_ok,
}
use smyte_db.Pipeline.Transaction.{
  Store, State, Handler, Request, fresh, run_queued, finish_exec, exec, multi, other,
  handle_command, serve,
}

abbrev pub IsMulti : Request → Type 0
IsMulti r = bytes_eq r.name_lower (codes "multi") ≡ true

-- Neither MULTI nor EXEC.
pub record IsOrdinary (r : Request) : Type 0 where
  pub not_multi : bytes_eq r.name_lower (codes "multi") ≡ false
  pub not_exec : bytes_eq r.name_lower (codes "exec") ≡ false

pub record IsExec (r : Request) : Type 0 where
  pub not_multi : bytes_eq r.name_lower (codes "multi") ≡ false
  pub is_exec : bytes_eq r.name_lower (codes "exec") ≡ true

abbrev pub queued_reply : Request → RedisMessage
queued_reply r = record { key = r.key; val = simple_string (codes "QUEUED") }

abbrev pub ok_reply : Request → RedisMessage
ok_reply r = record { key = r.key; val = simple_string_ok }

module _ {World Batch : Type 0} (db : Store World Batch)
    (table : Table (CommandHandler (Handler World Batch))) where
  open db use {empty_batch}

  -- A request together with the table's entry for it, which takes as many arguments.
  pub record Known : Type 0 where
    pub request : Request
    pub entry : CommandHandler (Handler World Batch)
    pub ordinary : IsOrdinary request
    pub found : find request.name_lower table ≡ some entry
    pub fits : validate_arg_count request.cmd entry.min_args entry.max_args ≡ true

  -- An ordinary request that the table lacks, or that has the wrong number of arguments.
  pub record Wrong (r : Request) : Type 0 where
    pub ordinary : IsOrdinary r
    pub refused :
        (find r.name_lower table ≡ none)
        ⊎ ((entry : CommandHandler (Handler World Batch)) × (find r.name_lower table ≡ some entry)
            × (validate_arg_count r.cmd entry.min_args entry.max_args ≡ false))

  abbrev pub requests : List Known → List Request
  requests [] = []
  requests (k ∷ ks) = k.request ∷ requests ks

  abbrev pub queue : List Known → List (Handler World Batch × Command)
  queue [] = []
  queue (k ∷ ks) = (k.entry.handler_func, k.request.cmd) ∷ queue ks

  abbrev pub queued_replies : List Known → List RedisMessage
  queued_replies [] = []
  queued_replies (k ∷ ks) = queued_reply k.request ∷ queued_replies ks

  known_step :
      (k : Known) (s : State World Batch) (w : World)
      → s.in_transaction ≡ true
      → handle_command db table s w k.request ≡ record {
        state = record s {
          queued_commands = s.queued_commands ++ (k.entry.handler_func, k.request.cmd) ∷ [];
        };
        world = w;
        written = queued_reply k.request ∷ [];
        known = true;
      }
  unfolding handle_command other
  known_step k s w t =
      rw (k.ordinary.not_multi, k.ordinary.not_exec) (rw (k.found, other) (rw (k.fits, t) refl))

  multi_step :
      (r : Request) (s : State World Batch) (w : World)
      → IsMulti r
      → s.in_transaction ≡ false
      → handle_command db table s w r ≡ record {
        state = record s { in_transaction = true };
        world = w;
        written = ok_reply r ∷ [];
        known = true;
      }
  unfolding handle_command multi
  multi_step r s w m t = rw m (rw t refl)

  exec_step :
      (r : Request) (s : State World Batch) (w : World)
      → IsExec r
      → handle_command db table s w r ≡ record {
        state = fresh db;
        world = (exec db s w r.key).0;
        written = (exec db s w r.key).1;
        known = true;
      }
  unfolding handle_command
  exec_step r s w e = rw (e.not_multi, e.is_exec) refl

  -- Known commands in a transaction, and what comes behind them.
  queue_lem :
      (ks : List Known) (rest : List Request) (error_encountered : Bool)
      (q : List (Handler World Batch × Command)) (w : World)
      → serve db table
          (record {
            in_transaction = true;
            error_encountered = error_encountered;
            queued_commands = q;
          })
          w
          (requests ks ++ rest)
        ≡ (let r =
              serve db table
                (record {
                  in_transaction = true;
                  error_encountered = error_encountered;
                  queued_commands = q ++ queue ks;
                })
                w
                rest in
            (r.0, r.1, queued_replies ks ++ r.2))
  unfolding serve
  queue_lem [] rest error_encountered q w = rw (append-nil q) refl
  queue_lem (k ∷ ks) rest error_encountered q w =
      rw
        (known_step k
          (record {
            in_transaction = true;
            error_encountered = error_encountered;
            queued_commands = q;
          })
          w refl)
        (rw
          (queue_lem ks rest error_encountered (q ++ (k.entry.handler_func, k.request.cmd) ∷ []) w)
          (rw (append_assoc q ((k.entry.handler_func, k.request.cmd) ∷ []) (queue ks)) refl))

  -- From any state outside of a transaction with nothing queued: MULTI, known commands, EXEC.
  session :
      (m e : Request) (ks : List Known) (error_encountered : Bool) (w : World)
      → IsMulti m
      → IsExec e
      → serve db table
          (record {
            in_transaction = false;
            error_encountered = error_encountered;
            queued_commands = [];
          })
          w
          (m ∷ (requests ks ++ e ∷ []))
        ≡ (let r =
              exec db
                (record {
                  in_transaction = true;
                  error_encountered = error_encountered;
                  queued_commands = queue ks;
                })
                w
                e.key in
            (fresh db, r.0, ok_reply m ∷ (queued_replies ks ++ r.1)))
  unfolding serve
  session m e ks error_encountered w im ie =
      rw
        (multi_step m
          (record {
            in_transaction = false;
            error_encountered = error_encountered;
            queued_commands = [];
          })
          w im refl)
        (rw (queue_lem ks (e ∷ []) error_encountered [] w) (
          rw
            (exec_step e
              (record {
                in_transaction = true;
                error_encountered = error_encountered;
                queued_commands = queue ks;
              })
              w ie)
            (rw append-nil refl)))

  -- On a new connection: MULTI, known commands with fitting arguments and EXEC are answered by OK, by
  -- QUEUED for each command and by what EXEC makes of the handlers, which run only then, in the
  -- order of the commands, from an empty batch and the world before MULTI; then the state is new.
  pub serve_transaction :
      (m e : Request) (ks : List Known) (w : World)
      → IsMulti m
      → IsExec e
      → serve db table (fresh db) w (m ∷ (requests ks ++ e ∷ [])) ≡ (
          let r = finish_exec db e.key (run_queued db (queue ks) empty_batch w) in
          (fresh db, r.0, ok_reply m ∷ (queued_replies ks ++ r.1)))
  unfolding exec
  serve_transaction m e ks w im ie = session m e ks false w im ie

  Wrong-step :
      (r : Request) (w : World)
      → Wrong r
      → ((handle_command db table (fresh db) w r).state
          ≡ record { in_transaction = false; error_encountered = true; queued_commands = [] })
        × ((handle_command db table (fresh db) w r).world ≡ w)
  unfolding handle_command other
  Wrong-step r w bad =
      rw (bad.ordinary.not_multi, bad.ordinary.not_exec)
        (elim bad.refused [
          | inl missing ↦ rw (missing, other) (refl, refl)
          | inr (entry, found, misfit) ↦ rw (found, other) (rw misfit (refl, refl))
        ])

  -- A command that is unknown or has a wrong number of arguments, sent before MULTI, spoils the next
  -- transaction: its known commands are all queued, and then EXEC discards them because of previous
  -- errors and leaves the world alone.
  pub error_before_multi :
      (r m e : Request) (ks : List Known) (w : World)
      → Wrong r
      → IsMulti m
      → IsExec e
      → let h = handle_command db table (fresh db) w r in
        serve db table h.state h.world (m ∷ (requests ks ++ e ∷ [])) ≡ (
          fresh db,
          w,
          ok_reply m
              ∷ (queued_replies ks
                  ++ error_message e.key (codes "Transaction discarded because of previous errors")
                    ∷ []),
        )
  unfolding exec
  error_before_multi r m e ks w bad im ie =
      let h = Wrong-step r w bad in rw (h.0, h.1) (session m e ks true w im ie)
