-- ===== src/Pipeline/Transaction/Examples.antt =====
-- A handler with one command that adds the size of its argument to the batch, and one that fails.
use smyte_db.Prelude.{
  ℕ, ◌+◌, ◌≡◌, refl, List, [], ◌∷◌, ◌++◌, true, false, none, length, codes, inl, bytes_eq,
}
use smyte_db.Prelude.Int.{pos, negsuc}
use smyte_db.Codec.Value.{integer, error, array, nil, cons}
use smyte_db.Pipeline.Table.{
  Command, CommandHandler, Table, find, validate_arg_count, error_message,
}
use smyte_db.Pipeline.Transaction.{
  Store, State, Handler, Request, fresh, run_queued, finish_exec, exec, serve, handle_command,
  write_result,
}
use smyte_db.Pipeline.Transaction.Atomic.{
  all_succeed, results_of, batch_of, exec_commits, exec_aborts,
}
use smyte_db.Pipeline.Transaction.Sessions.{
  IsMulti, IsExec, Known, Wrong, serve_transaction, error_before_multi, requests, queue,
  queued_replies, ok_reply,
}

abbrev sum : List ℕ → ℕ → ℕ
sum [] n = n
sum (x ∷ xs) n = x + sum xs n

-- The world is a number, a batch the numbers to be added to it.
abbrev adder : Store ℕ (List ℕ)
adder = record { empty_batch = []; count = length; write = λ b w. (none, sum b w) }

abbrev add : Handler ℕ (List ℕ)
add cmd b w = (integer (pos (length cmd)), b ++ length cmd ∷ [], w)

abbrev refuse : Handler ℕ (List ℕ)
refuse cmd b w = (error (codes "no"), b, w)

abbrev add_entry : CommandHandler (Handler ℕ (List ℕ))
add_entry = record { handler_func = add; min_args = pos 1; max_args = negsuc 0 }

abbrev table : Table (CommandHandler (Handler ℕ (List ℕ)))
table = (codes "add", add_entry) ∷ []

abbrev named : ℕ → List ℕ → Command → Request
named key name args = record { key = pos key; name_lower = name; cmd = name ∷ args }

add_known : Known adder table
unfolding find validate_arg_count bytes_eq
add_known = record {
  request = named 1 (codes "add") (codes "x" ∷ []);
  entry = add_entry;
  ordinary = record { not_multi = refl; not_exec = refl };
  found = refl;
  fits = refl;
}

opening-IsMulti : IsMulti (named 0 (codes "multi") [])
unfolding bytes_eq
opening-IsMulti = refl

closing-IsExec : IsExec (named 2 (codes "exec") [])
unfolding bytes_eq
closing-IsExec = record { not_multi = refl; is_exec = refl }

unknown_Wrong : Wrong adder table (named 7 (codes "get") [])
unfolding find bytes_eq
unknown_Wrong = record {
  ordinary = record { not_multi = refl; not_exec = refl };
  refused = inl refl;
}

serve_transaction_example :
    serve adder table (fresh adder) 40 (
      named 0 (codes "multi") []
      ∷ (requests adder table (add_known ∷ []) ++ named 2 (codes "exec") [] ∷ []))
    ≡ (let r =
          finish_exec adder (pos 2) (run_queued adder (queue adder table (add_known ∷ [])) [] 40) in
        (
          fresh adder,
          r.0,
          ok_reply (named 0 (codes "multi") [])
              ∷ (queued_replies adder table (add_known ∷ []) ++ r.1),
        ))
serve_transaction_example =
    serve_transaction adder table (named 0 (codes "multi") []) (named 2 (codes "exec") [])
      (add_known ∷ []) 40 opening-IsMulti closing-IsExec

error_before_multi_example :
    let h = handle_command adder table (fresh adder) 40 (named 7 (codes "get") []) in
    serve adder table h.state h.world (
      named 0 (codes "multi") []
      ∷ (requests adder table (add_known ∷ []) ++ named 2 (codes "exec") [] ∷ []))
    ≡ (
      fresh adder,
      40,
      ok_reply (named 0 (codes "multi") [])
          ∷ (queued_replies adder table (add_known ∷ [])
              ++ error_message (pos 2) (codes "Transaction discarded because of previous errors")
                ∷ []),
    )
error_before_multi_example =
    error_before_multi adder table (named 7 (codes "get") []) (named 0 (codes "multi") [])
      (named 2 (codes "exec") []) (add_known ∷ []) 40 unknown_Wrong opening-IsMulti closing-IsExec

abbrev two_adds : State ℕ (List ℕ)
two_adds = record {
  in_transaction = true;
  error_encountered = false;
  queued_commands = (add, codes "add" ∷ []) ∷ (add, codes "add" ∷ codes "x" ∷ []) ∷ [];
}

exec_commits_example : exec adder two_adds 40 (pos 5) ≡ (
  43,
  record { key = pos 5; val = array (cons (integer (pos 1)) (cons (integer (pos 2)) nil)) } ∷ [],
)
unfolding all_succeed results_of batch_of
exec_commits_example =
    exec_commits adder two_adds 40 (pos 5) refl refl ((λ b w. refl), ((λ b w. refl), tt)) refl

two_adds_run : exec adder two_adds 40 (pos 5) ≡ (
  43,
  record { key = pos 5; val = array (cons (integer (pos 1)) (cons (integer (pos 2)) nil)) } ∷ [],
)
unfolding exec finish_exec run_queued write_result
two_adds_run = refl

abbrev failing : State ℕ (List ℕ)
failing = record two_adds { queued_commands = (add, codes "add" ∷ []) ∷ (refuse, []) ∷ [] }

exec_aborts_example :
    ((exec adder failing 40 (pos 5)).0 ≡ 40)
    × ((text : List ℕ) × ((exec adder failing 40 (pos 5)).1 ≡ error_message (pos 5) text ∷ []))
unfolding all_succeed
exec_aborts_example =
    exec_aborts adder failing 40 (pos 5) refl ((λ b w. refl), ((λ b w. refl), tt)) refl
