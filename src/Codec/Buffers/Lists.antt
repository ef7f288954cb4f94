-- ===== src/Codec/Buffers/Lists.antt =====
-- Buffers that are lists: a queue is the list of its chunks, and a cursor the list of the chunks
-- that are left. The laws of `Buffers` hold of them.
use smyte_db.Prelude.{
  ℕ, zero, suc, ◌-◌, ◌≡◌, refl, ap, ◌∙◌, List, [], ◌∷◌, ◌++◌, length, take, drop, Option, none,
  some, arith, length-append, append-nil,
}
use smyte_db.Codec.Buffers.Chain.{Terminated, found, out_of_range, split_at}
use smyte_db.Codec.Buffers.Record.{Buffers}

abbrev pub flat : List (List ℕ) → List ℕ
flat [] = []
flat (c ∷ cs) = c ++ flat cs

abbrev pub first : List (List ℕ) → List ℕ
first [] = []
first (c ∷ cs) = c

abbrev pub others : List (List ℕ) → List ℕ
others [] = []
others (c ∷ cs) = flat cs

-- Drops bytes and keeps the chunks.
abbrev pub drop_bytes : ℕ → List (List ℕ) → List (List ℕ)
drop_bytes n [] = []
drop_bytes n ([] ∷ cs) = drop_bytes n cs
drop_bytes zero ((b ∷ c) ∷ cs) = (b ∷ c) ∷ cs
drop_bytes (suc n) ((b ∷ c) ∷ cs) = drop_bytes n (c ∷ cs)

abbrev pub head_or_zero : List ℕ → ℕ
head_or_zero [] = 0
head_or_zero (b ∷ bs) = b

abbrev pub terminated : Option (List ℕ × List ℕ) → Terminated (List (List ℕ))
terminated none = out_of_range
terminated (some (s, rest)) = found s (rest ∷ [])

pub flat-drop_bytes : (n : ℕ) (cs : List (List ℕ)) → flat (drop_bytes n cs) ≡ drop n (flat cs)
flat-drop_bytes zero [] = refl
flat-drop_bytes (suc n) [] = refl
flat-drop_bytes n ([] ∷ cs) = flat-drop_bytes n cs
flat-drop_bytes zero ((b ∷ c) ∷ cs) = refl
flat-drop_bytes (suc n) ((b ∷ c) ∷ cs) = flat-drop_bytes n (c ∷ cs)

pub flat_split : (cs : List (List ℕ)) → flat cs ≡ first cs ++ others cs
flat_split [] = refl
flat_split (c ∷ cs) = refl

pub read_head :
    (c : List (List ℕ)) (b : ℕ) (bs : List ℕ)
    → flat c ≡ b ∷ bs
    → (head_or_zero (flat c) ≡ b) × (flat (drop_bytes 1 c) ≡ bs)
read_head c b bs e = (ap head_or_zero e, flat-drop_bytes 1 c ∙ ap (drop 1) e)

pub terminated_found :
    (o : Option (List ℕ × List ℕ)) (s rest : List ℕ)
    → o ≡ some (s, rest)
    → (d : List (List ℕ)) × (terminated o ≡ found s d) × (flat d ≡ rest)
terminated_found o s rest e = (rest ∷ [], ap terminated e, append-nil rest)

pub distance_ahead :
    (c start : List (List ℕ)) (pre : List ℕ)
    → flat start ≡ pre ++ flat c
    → length (flat start) - length (flat c) ≡ length pre
distance_ahead c start pre e = omega (arith, ap length e, length-append pre (flat c))

abbrev pub list_buffers : Buffers
list_buffers = record {
  Queue = List (List ℕ);
  Cursor = List (List ℕ);
  contents = flat;
  bytes = flat;
  chain_length = λ q. length (flat q);
  front = λ q. q;
  trim_start = drop_bytes;
  total_length = λ c. length (flat c);
  current = first;
  behind = others;
  skip = drop_bytes;
  read = λ c. (head_or_zero (flat c), drop_bytes 1 c);
  read_fixed_string = λ n c. (take n (flat c), drop_bytes n c);
  read_terminated_string = λ t c. terminated (split_at t (flat c));
  distance = λ c start. length (flat start) - length (flat c);
  chain_length_lem = λ q. refl;
  bytes-front = λ q. refl;
  contents-trim_start = λ n q h. flat-drop_bytes n q;
  total_length_lem = λ c. refl;
  bytes_split = flat_split;
  bytes-skip = λ n c h. flat-drop_bytes n c;
  read_lem = read_head;
  read_fixed_string_lem = λ n c h. (refl, flat-drop_bytes n c);
  read_terminated_found = λ t c s rest e. terminated_found (split_at t (flat c)) s rest e;
  read_terminated_missing = λ t c e. ap terminated e;
  distance_lem = distance_ahead;
}
