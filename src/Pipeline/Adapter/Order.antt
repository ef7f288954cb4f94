-- ===== src/Pipeline/Adapter/Order.antt =====
-- Replies leave pipeline/OrderedRedisMessageAdapter in the order of the requests.
use smyte_db.Pipeline.Adapter.Keys.{
  Consecutive, FirstWaits, answers, Consecutive-append, answers-append, answers-Consecutive,
  set-Consecutive, FirstWaits-append,
}
use smyte_db.Prelude.{
  ℕ, suc, ◌+◌, ◌≡◌, refl, sym, ap, ◌∙◌, inl, inr, List, [], ◌∷◌, ◌++◌, not, ◌&&◌, Option, none,
  some, length, get_elem?, set, length-append, length-set, arith, Bool-cases, subst,
}
use smyte_db.Prelude.Int.{pos, negsuc, eqb_ℤ}
use smyte_db.Codec.Value.{RedisMessage, async_result, is_async}
use smyte_db.Pipeline.Adapter.{
  Adapter, init, read, flush, fulfil, write, Event, request, reply, run,
}

abbrev pub requests : List Event → ℕ
requests [] = 0
requests (request m ∷ es) = suc (requests es)
requests (reply m ∷ es) = requests es

-- The pending outputs carry the keys from the start key on, and the first of them waits.
pub record IsValid (a : Adapter) : Type 0 where
  pub keys : Consecutive a.start_key a.pending
  pub waits : FirstWaits a.pending

-- From one state to another, some answers later.
pub record Answered (a b : Adapter) (out : List RedisMessage) : Type 0 where
  pub valid : IsValid b
  pub in_order : Consecutive a.start_key (answers out)
  pub counted : b.start_key ≡ a.start_key + length (answers out)

zero_add : (k : ℕ) → 0 + k ≡ k
zero_add k = omega arith

record Flushed (k : ℕ) (ms : List RedisMessage) (r : Adapter × List RedisMessage) : Type 0 where
  in_order : Consecutive k r.1
  counted : r.0.start_key ≡ k + length r.1
  kept : Consecutive r.0.start_key r.0.pending
  waits : FirstWaits r.0.pending
  size : r.0.start_key + length r.0.pending ≡ k + length ms

flush-Flushed : (k : ℕ) (ms : List RedisMessage) → Consecutive k ms → Flushed k ms (flush k ms)
unfolding flush
flush-Flushed k [] h = record {
  in_order = tt;
  counted = omega arith;
  kept = tt;
  waits = tt;
  size = refl;
}
flush-Flushed k (m ∷ ms) h =
    let f = flush-Flushed (suc k) ms h.1 in
    elim (Bool-cases (is_async m.val)) [
      | inl async ↦
          rw async
            (record { in_order = tt; counted = omega arith; kept = h; waits = async; size = refl })
      | inr sync ↦ rw sync (record {
        in_order = (h.0, f.in_order);
        counted = omega (arith, f.counted);
        kept = f.kept;
        waits = f.waits;
        size = omega (arith, f.size);
      })
    ]

-- One step or many, unless a CHECK has failed: the answers so far, and what is still pending after
-- so many requests.
pub record Went (a b : Adapter) (n : ℕ) (out : List RedisMessage) : Type 0 where
  pub answered : Answered a b out
  pub total : b.start_key + length b.pending ≡ a.start_key + length a.pending + n

abbrev Fine : Adapter → ℕ → Option (Adapter × List RedisMessage) → Type 0
Fine a n none = Unit
Fine a n (some (b, out)) = Went a b n out

flush-Fine :
    (a : Adapter) (ms : List RedisMessage)
    → Consecutive a.start_key ms
    → length ms ≡ length a.pending
    → Fine a 0 (some (flush a.start_key ms))
flush-Fine a ms h l =
    let f = flush-Flushed a.start_key ms h in
    let same = answers-Consecutive a.start_key (flush a.start_key ms).1 f.in_order in
    record {
      answered = record {
        valid = record { keys = f.kept; waits = f.waits };
        in_order = subst (Consecutive a.start_key) (sym same) f.in_order;
        counted = f.counted ∙ ap (λ l. a.start_key + length l) (sym same);
      };
      total = omega (arith, f.size, l);
    }

fulfil-Fine :
    (a : Adapter) (msg : RedisMessage) (i : ℕ) (o : Option RedisMessage)
    → IsValid a
    → get_elem? a.pending i ≡ o
    → Fine a 0 (fulfil a msg i o)
fulfil-Fine a msg i none v e = tt
fulfil-Fine a msg i (some output) v e =
    elim (Bool-cases
      (eqb_ℤ output.key msg.key && (is_async output.val && not (is_async msg.val)))) [
        | inr refused ↦ rw refused tt
        | inl fits ↦ rw fits (
            flush-Fine a (set a.pending i (record output { val = msg.val }))
              (set-Consecutive a.start_key i a.pending output msg.val v.keys e)
              (length-set a.pending i (record output { val = msg.val })))
      ]

write-Fine : (a : Adapter) (msg : RedisMessage) → IsValid a → Fine a 0 (write a msg)
unfolding write
write-Fine a msg v = elim (Bool-cases (eqb_ℤ msg.key (negsuc 0))) [
  | inl special ↦ rw special (record {
    answered = record { valid = v; in_order = ground arith; counted = ground arith };
    total = omega arith;
  })
  | inr normal ↦ rw normal (fulfil-Fine a msg _ (get_elem? a.pending _) v refl)
]

read-IsValid : (a : Adapter) (msg : RedisMessage) → IsValid a → IsValid (read a msg).0
unfolding read
read-IsValid a msg v = record {
  keys = Consecutive-append a.start_key a.pending _ v.keys (refl, tt);
  waits = FirstWaits-append a.pending _ refl v.waits;
}

read_total :
    (a b : Adapter) (msg : RedisMessage) (n : ℕ) (out : List RedisMessage)
    → Went (read a msg).0 b n out
    → Went a b (suc n) out
unfolding read
read_total a b msg n out w = record {
  answered = record {
    valid = w.answered.valid;
    in_order = w.answered.in_order;
    counted = w.answered.counted;
  };
  total = omega (
    arith,
    w.total,
    length-append a.pending
        (record { key = pos (a.start_key + length a.pending); val = async_result } ∷ []),
  );
}

Went-trans :
    (a b c : Adapter) (m n : ℕ) (xs ys : List RedisMessage)
    → Went a b m xs
    → Went b c n ys
    → Went a c (m + n) (xs ++ ys)
Went-trans a b c m n xs ys p q =
    let both = answers-append xs ys in
    record {
      answered = record {
        valid = q.answered.valid;
        in_order = subst (Consecutive a.start_key) (sym both) (
            Consecutive-append a.start_key (answers xs) (answers ys) p.answered.in_order
              (subst (λ k. Consecutive k (answers ys)) p.answered.counted q.answered.in_order));
        counted = omega (
          arith,
          p.answered.counted,
          q.answered.counted,
          ap length both,
          length-append (answers xs) (answers ys),
        );
      };
      total = omega (arith, p.total, q.total);
    }

run-Fine : (a : Adapter) (es : List Event) → IsValid a → Fine a (requests es) (run a es)
unfolding run
run-Fine a [] v = record {
  answered = record { valid = v; in_order = tt; counted = omega arith };
  total = omega arith;
}
run-Fine a (request m ∷ es) v =
    after_read (run (read a m).0 es) (run-Fine (read a m).0 es (read-IsValid a m v))
  where
    after_read :
        (r : Option (Adapter × List RedisMessage))
        → Fine (read a m).0 (requests es) r
        → Fine a (suc (requests es)) r
    after_read none h = tt
    after_read (some (b, out)) h = read_total a b m (requests es) out h
run-Fine a (reply m ∷ es) v = after_write (write a m) (write-Fine a m v) (λ b w. run-Fine b es w)
  where
    and_then :
        (b : Adapter) (out : List RedisMessage) (r : Option (Adapter × List RedisMessage))
        → Went a b 0 out
        → Fine b (requests es) r
        → Fine a (requests es) (elim r [ none ↦ none | some (c, more) ↦ some (c, out ++ more) ])
    and_then b out none w h = tt
    and_then b out (some (c, more)) w h =
        subst (λ n. Went a c n (out ++ more)) (zero_add (requests es))
          (Went-trans a b c 0 (requests es) out more w h)

    after_write :
        (r : Option (Adapter × List RedisMessage))
        → Fine a 0 r
        → ((b : Adapter) → IsValid b → Fine b (requests es) (run b es))
        → Fine a (requests es) (elim r [
          | none ↦ none
          | some (b, out) ↦ elim (run b es) [ none ↦ none | some (c, more) ↦ some (c, out ++ more) ]
        ])
    after_write none h rest = tt
    after_write (some (b, out)) h rest = and_then b out (run b es) h (rest b h.answered.valid)

Fine-at :
    (a b : Adapter) (n : ℕ) (out : List RedisMessage) (r : Option (Adapter × List RedisMessage))
    → r ≡ some (b, out)
    → Fine a n r
    → Went a b n out
Fine-at a b n out r e h = subst (Fine a n) e h

-- Whatever the history of a connection, if no CHECK fails: the answers are passed on with the keys
-- 0, 1, 2 and so on in that order, that is in the order of the requests; answers passed on and
-- outputs held back are together as many as the requests; and the first output that is held back is
-- one whose reply has not come.
pub run_ordered :
    (es : List Event) (b : Adapter) (out : List RedisMessage)
    → run init es ≡ some (b, out)
    → Consecutive 0 (answers out)
      × (length (answers out) + length b.pending ≡ requests es)
      × FirstWaits b.pending
run_ordered es b out e =
    let w =
      Fine-at init b (requests es) out (run init es) e
        (run-Fine init es (record { keys = tt; waits = tt })) in
    (w.answered.in_order, omega (arith, w.total, w.answered.counted), w.answered.valid.waits)
