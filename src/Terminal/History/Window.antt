-- ===== src/Terminal/History/Window.antt =====
-- The history of services/terminal_sessions.py is a window on the end of the output.
use portex.Common.{
  ℕ, ◌+◌, ◌-◌, ◌≤◌, ◌<◌, ◌≡◌, refl, ap, inl, inr, Bool, true, List, [], ◌∷◌, ◌++◌, ltb, arith,
  Bool-cases, length, length-append, ltb→lt,
}
use portex.Text.{Text}
use portex.Terminal.History.{History, empty_history, utf8_length, trim, append_output_history}

-- The bytes of a list of chunks.
pub total_bytes : List Text → ℕ
total_bytes [] = 0
total_bytes (c ∷ cs) = utf8_length c + total_bytes cs

-- The byte count is that of the chunks, and it is within the limit.
pub record IsBounded (max_bytes : ℕ) (h : History) : Type 0 where
  pub counted : h.bytes ≡ total_bytes h.chunks
  pub within : h.bytes ≤ max_bytes

total_bytes-append : (xs ys : List Text) → total_bytes (xs ++ ys) ≡ total_bytes xs + total_bytes ys
unfolding total_bytes
total_bytes-append [] ys = omega arith
total_bytes-append (x ∷ xs) ys = omega (arith, total_bytes-append xs ys)

pub trim-IsBounded :
    (max_bytes : ℕ) (chunks : List Text) (bytes : ℕ) (t : Bool)
    → bytes ≡ total_bytes chunks
    → IsBounded max_bytes (trim max_bytes chunks bytes t)
unfolding trim total_bytes
trim-IsBounded m [] bytes t h = ground arith
trim-IsBounded m (c ∷ cs) bytes t h =
    ground (arith, trim-IsBounded m cs (bytes - utf8_length c) true)

-- The kept chunks are what is left of all chunks behind a dropped front part, they fit in the limit,
-- and no longer part from the end does.
pub record IsLongestEnd (max_bytes : ℕ) (all kept : List Text) : Type 0 where
  pub dropped : List Text
  pub split : dropped ++ kept ≡ all
  pub fits : total_bytes kept ≤ max_bytes
  pub longest :
      (front back : List Text)
      → front ++ back ≡ all
      → total_bytes back ≤ max_bytes
      → length back ≤ length kept

cons_longest :
    (max_bytes : ℕ) (c : Text) (cs kept : List Text)
    → max_bytes < total_bytes (c ∷ cs)
    → IsLongestEnd max_bytes cs kept
    → (front back : List Text) → front ++ back ≡ c ∷ cs
    → total_bytes back ≤ max_bytes
    → length back ≤ length kept
cons_longest m c cs kept over w [] back e fits = absurd (omega (arith, ap total_bytes e))
cons_longest m c cs kept over w (x ∷ front) back e fits = w.longest front back (cc) fits

trim-IsLongestEnd :
    (max_bytes : ℕ) (chunks : List Text) (bytes : ℕ) (t : Bool)
    → bytes ≡ total_bytes chunks
    → IsLongestEnd max_bytes chunks (trim max_bytes chunks bytes t).chunks
unfolding trim
trim-IsLongestEnd m [] bytes t h = record {
  dropped = [];
  split = refl;
  fits = unfold total_bytes in omega arith;
  longest = λ front back e fits. omega (arith, length-append front back, ap length e);
}
trim-IsLongestEnd m (c ∷ cs) bytes t h = elim (Bool-cases (ltb m bytes)) [
  | inl over ↦
      let w : IsLongestEnd m cs (trim m cs (bytes - utf8_length c) true).chunks =
        trim-IsLongestEnd m cs (bytes - utf8_length c) true (rest_bytes bytes h) in
      rw over (record {
        dropped = c ∷ w.dropped;
        split = ap (◌∷◌ c) w.split;
        fits = w.fits;
        longest = cons_longest m c cs _ (omega (arith, ltb→lt m bytes over)) w;
      })
  | inr fits ↦ rw fits (record {
    dropped = [];
    split = refl;
    fits = ground (arith, h, fits);
    longest = λ front back e f. omega (arith, length-append front back, ap length e);
  })
]
  where
    rest_bytes : (b : ℕ) → b ≡ total_bytes (c ∷ cs) → b - utf8_length c ≡ total_bytes cs
    rest_bytes b e = unfold total_bytes in omega arith

-- Every append keeps the history within its limit and its byte count true.
pub append_output_history-IsBounded :
    (max_bytes : ℕ) (h : History) (chunk : Text)
    → IsBounded max_bytes h
    → IsBounded max_bytes (append_output_history max_bytes h chunk)
unfolding append_output_history total_bytes
append_output_history-IsBounded m h chunk b = ground (
  arith,
  total_bytes-append h.chunks (chunk ∷ []),
  trim-IsBounded m (h.chunks ++ chunk ∷ []) (h.bytes + utf8_length chunk) h.truncated,
)

append_trims :
    (max_bytes : ℕ) (h : History) (chunk : Text)
    → 0 < max_bytes
    → 0 < utf8_length chunk
    → append_output_history max_bytes h chunk
      ≡ trim max_bytes (h.chunks ++ chunk ∷ []) (h.bytes + utf8_length chunk) h.truncated
unfolding append_output_history
append_trims m h [] pos some_bytes = unfold utf8_length in absurd (omega arith)
append_trims m h (c ∷ r) pos some_bytes = ground arith

-- With a positive byte limit, a history within it and a chunk that has bytes, an append keeps the
-- longest end part of the old chunks followed by the new one that fits in the limit: it fits, and no
-- longer end part does.
pub append_output_history-IsLongestEnd :
    (max_bytes : ℕ) (h : History) (chunk : Text)
    → IsBounded max_bytes h
    → 0 < max_bytes
    → 0 < utf8_length chunk
    → IsLongestEnd max_bytes
        (h.chunks ++ chunk ∷ [])
        (append_output_history max_bytes h chunk).chunks
append_output_history-IsLongestEnd m h chunk b pos some_bytes =
    rw (append_trims m h chunk pos some_bytes) (
      trim-IsLongestEnd m (h.chunks ++ chunk ∷ []) (h.bytes + utf8_length chunk) h.truncated
        (unfold total_bytes in omega (arith, b.counted, total_bytes-append h.chunks (chunk ∷ []))))

-- An empty history is within every limit.
pub empty-IsBounded : (max_bytes : ℕ) → IsBounded max_bytes empty_history
unfolding total_bytes
empty-IsBounded max_bytes = record { counted = refl; within = omega arith }
