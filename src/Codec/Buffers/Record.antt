-- ===== src/Codec/Buffers/Record.antt =====
-- The operations of `folly::IOBufQueue` and `folly::io::Cursor`, and their laws.
use smyte_db.Prelude.{ℕ, ◌≤◌, ◌≡◌, List, ◌∷◌, ◌++◌, length, take, drop, none, some}
use smyte_db.Codec.Buffers.Chain.{Terminated, found, out_of_range, split_at}

pub record Buffers : Type 1 where
  pub Queue : Type 0
  pub Cursor : Type 0
  pub contents : Queue → List ℕ
  pub bytes : Cursor → List ℕ
  -- IOBufQueue
  pub chain_length : Queue → ℕ
  pub front : Queue → Cursor
  pub trim_start : ℕ → Queue → Queue
  -- Cursor; `current` is the text from data() on, of length(), and `behind` what follows it
  pub total_length : Cursor → ℕ
  pub current : Cursor → List ℕ
  pub behind : Cursor → List ℕ
  pub skip : ℕ → Cursor → Cursor
  pub read : Cursor → ℕ × Cursor
  pub read_fixed_string : ℕ → Cursor → List ℕ × Cursor
  pub read_terminated_string : ℕ → Cursor → Terminated Cursor
  pub distance : Cursor → Cursor → ℕ
  pub chain_length_lem : (q : Queue) → chain_length q ≡ length (contents q)
  pub bytes-front : (q : Queue) → bytes (front q) ≡ contents q
  pub contents-trim_start :
      (n : ℕ) (q : Queue)
      → n ≤ length (contents q)
      → contents (trim_start n q) ≡ drop n (contents q)
  pub total_length_lem : (c : Cursor) → total_length c ≡ length (bytes c)
  pub bytes_split : (c : Cursor) → bytes c ≡ current c ++ behind c
  pub bytes-skip : (n : ℕ) (c : Cursor) → n ≤ length (bytes c) → bytes (skip n c) ≡ drop n (bytes c)
  pub read_lem :
      (c : Cursor) (b : ℕ) (bs : List ℕ)
      → bytes c ≡ b ∷ bs
      → ((read c).0 ≡ b) × (bytes (read c).1 ≡ bs)
  pub read_fixed_string_lem :
      (n : ℕ) (c : Cursor)
      → n ≤ length (bytes c)
      → ((read_fixed_string n c).0 ≡ take n (bytes c))
        × (bytes (read_fixed_string n c).1 ≡ drop n (bytes c))
  pub read_terminated_found :
      (t : ℕ) (c : Cursor) (s rest : List ℕ)
      → split_at t (bytes c) ≡ some (s, rest)
      → (d : Cursor) × (read_terminated_string t c ≡ found s d) × (bytes d ≡ rest)
  pub read_terminated_missing :
      (t : ℕ) (c : Cursor) → split_at t (bytes c) ≡ none → read_terminated_string t c ≡ out_of_range
  pub distance_lem :
      (c start : Cursor) (pre : List ℕ)
      → bytes start ≡ pre ++ bytes c
      → distance c start ≡ length pre
