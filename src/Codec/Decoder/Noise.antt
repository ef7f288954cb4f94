-- ===== src/Codec/Decoder/Noise.antt =====
-- skipNoise of codec/RedisDecoder.cpp, whatever the buffers.
use smyte_db.Prelude.{
  ℕ, zero, suc, ◌+◌, ◌≤◌, ◌<◌, ◌≡◌, refl, sym, ap, ◌∙◌, List, [], ◌∷◌, ◌++◌, length, drop, Option,
  Bool, true, false, not, ◌&&◌, ltb, leb, ◌==◌, if◌then◌else◌, arith, length-append, length-drop,
  Bool-cases, inl, inr,
}
use smyte_db.Prelude.Int.{ℤ}
use smyte_db.Codec.Buffers.{Buffers}
use smyte_db.Codec.Decoder.{crlf_run, skip_noise_step, skip_noise_loop, skip_noise}

-- The bytes without the leading pairs of a carriage return and a line feed.
unfoldable pub drop_crlf : List ℕ → List ℕ
drop_crlf [] = []
drop_crlf (a ∷ []) = a ∷ []
drop_crlf (a ∷ b ∷ rest) = let r = drop_crlf rest in if a == 13 && b == 10 then r else a ∷ b ∷ rest

-- Those pairs.
unfoldable pub noise : List ℕ → List ℕ
noise [] = []
noise (a ∷ []) = []
noise (a ∷ b ∷ rest) = let r = noise rest in if a == 13 && b == 10 then a ∷ b ∷ r else []

pub noise-append-drop_crlf : (l : List ℕ) → l ≡ noise l ++ drop_crlf l
unfolding noise drop_crlf
noise-append-drop_crlf [] = refl
noise-append-drop_crlf (a ∷ []) = refl
noise-append-drop_crlf (a ∷ b ∷ rest) = ground (arith, noise-append-drop_crlf rest)

crlf_run-le : (l : List ℕ) → crlf_run l ≤ length l
unfolding crlf_run
crlf_run-le [] = omega arith
crlf_run-le (a ∷ []) = omega arith
crlf_run-le (a ∷ b ∷ rest) = ground (arith, crlf_run-le rest)

-- A run that ends inside the buffer has passed all the noise.
run_stops :
    (l more : List ℕ)
    → crlf_run l + 1 < length l
    → drop (crlf_run l) (l ++ more) ≡ drop_crlf (l ++ more)
unfolding crlf_run drop_crlf
run_stops [] more h = absurd (omega arith)
run_stops (a ∷ []) more h = absurd (omega arith)
run_stops (a ∷ b ∷ rest) more h = ground (arith, run_stops rest more)

run_goes_on : (l more : List ℕ) → drop_crlf (drop (crlf_run l) (l ++ more)) ≡ drop_crlf (l ++ more)
unfolding crlf_run drop_crlf
run_goes_on [] more = refl
run_goes_on (a ∷ []) more = refl
run_goes_on (a ∷ b ∷ rest) more = ground (arith, run_goes_on rest more)

pub short-drop_crlf : (l : List ℕ) → length l < 2 → drop_crlf l ≡ l
unfolding drop_crlf
short-drop_crlf [] h = refl
short-drop_crlf (a ∷ []) h = refl
short-drop_crlf (a ∷ b ∷ rest) h = absurd (omega arith)

inside : (i n : ℕ) → not (ltb (i + 1) n) ≡ false → i + 1 < n
inside i n h = ground arith

advances : (i n : ℕ) → ltb n 2 ≡ false → not (ltb (i + 1) n) ≡ true → 0 < i
advances i n long h = ground arith

module _ (bufs : Buffers) (to_int64 : List ℕ → Option ℤ) (can_reserve : ℕ → Bool) where
  open bufs use {
    Queue, Cursor, contents, bytes, front, total_length, current, behind, skip, read, bytes-front,
    total_length_lem, bytes_split, bytes-skip, read_lem,
  }

  abbrev step : Cursor → Cursor × Bool
  step = skip_noise_step bufs to_int64 can_reserve

  -- What a round leaves to do.
  record Progress (c : Cursor) (r : Cursor × Bool) : Type 0 where
    same : drop_crlf (bytes r.0) ≡ drop_crlf (bytes c)
    done : r.1 ≡ false → bytes r.0 ≡ drop_crlf (bytes c)
    moved : r.1 ≡ true → length (bytes r.0) < length (bytes c)

  -- Two bytes that lie in different buffers.
  step_short :
      (c : Cursor) (a b : ℕ) (rest : List ℕ)
      → ltb (length (current c)) 2 ≡ true
      → bytes c ≡ a ∷ b ∷ rest
      → Progress c (step c)
  unfolding skip_noise_step drop_crlf
  step_short c a b rest short e =
      let first = read_lem c a (b ∷ rest) e in
      let second = read_lem (read c).1 b rest first.1 in
      let skipped = bytes-skip 2 c (rw e (omega arith)) ∙ ap (drop 2) e in
      record {
        same = ground (arith, ap drop_crlf skipped, ap drop_crlf e);
        done = ground (arith, ap drop_crlf e);
        moved = ground (arith, ap length e, ap length skipped);
      }

  step_long : (c : Cursor) → ltb (length (current c)) 2 ≡ false → Progress c (step c)
  unfolding skip_noise_step
  step_long c long =
      let i = crlf_run (current c) in
      let bound = crlf_run-le (current c) in
      let whole = bytes_split c in
      let size = ap length whole ∙ length-append (current c) (behind c) in
      let skipped = bytes-skip i c (omega (arith, bound, size)) in
      let rest = skipped ∙ ap (drop i) whole in
      rw long (record {
        same = ap drop_crlf rest ∙ run_goes_on (current c) (behind c) ∙ ap drop_crlf (sym whole);
        done = λ stop.
            rest
            ∙ run_stops (current c) (behind c) (inside i (length (current c)) stop)
            ∙ ap drop_crlf (sym whole);
        moved = λ go.
            let forward = advances i (length (current c)) long go in
            omega (arith, forward, ap length skipped, length-drop i (bytes c), bound, size);
      })

  step-Progress : (c : Cursor) (l : List ℕ) → bytes c ≡ l → 2 ≤ length l → Progress c (step c)
  step-Progress c [] e h = absurd (omega arith)
  step-Progress c (a ∷ []) e h = absurd (omega arith)
  step-Progress c (a ∷ b ∷ rest) e h = elim (Bool-cases (ltb (length (current c)) 2)) [
    | inl short ↦ step_short c a b rest short e
    | inr long ↦ step_long c long
  ]

  loop_lem :
      (fuel : ℕ) (c : Cursor)
      → length (bytes c) ≤ fuel
      → bytes (skip_noise_loop bufs to_int64 can_reserve fuel c) ≡ drop_crlf (bytes c)
  unfolding skip_noise_loop
  loop_lem zero c h = sym (short-drop_crlf (bytes c) (omega arith))
  loop_lem (suc fuel) c h = elim (Bool-cases (leb 2 (total_length c))) [
    | inr few ↦ rw few (sym (short-drop_crlf (bytes c) (ground (arith, total_length_lem c))))
    | inl many ↦
        let p = step-Progress c (bytes c) refl (ground (arith, total_length_lem c)) in
        rw many (elim (Bool-cases (step c).1) [
          | inl more ↦ rw more (loop_lem fuel (step c).0 (omega (arith, p.moved more)) ∙ p.same)
          | inr done ↦ rw done (p.done done)
        ])
  ]

  -- skipNoise drops exactly the leading pairs of a carriage return and a line feed, also where they
  -- lie across buffers, and its rounds are enough.
  pub bytes-skip_noise :
      (q : Queue) → bytes (skip_noise bufs to_int64 can_reserve (front q)) ≡ drop_crlf (contents q)
  unfolding skip_noise
  bytes-skip_noise q =
      loop_lem (total_length (front q)) (front q) (omega (arith, total_length_lem (front q)))
      ∙ ap drop_crlf (bytes-front q)
