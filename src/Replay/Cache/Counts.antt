-- ===== src/Replay/Cache/Counts.antt =====
-- Counting the times of a range in chunks.
use bybit_intraday_trading_b.Prelude.{
  ℕ, zero, suc, ◌+◌, ◌-◌, ◌*◌, ◌/◌, min, ◌≤◌, ◌<◌, ◌≡◌, refl, ap, inl, inr, true, List, [], ◌∷◌,
  ◌++◌, ◌==◌, length, arith, Bool-cases,
}
use bybit_intraday_trading_b.Replay.Types.{Outcome, done, Candle}
use bybit_intraday_trading_b.Replay.Request.Laws.{IsInterval, IsAligned}
use bybit_intraday_trading_b.Replay.Rows.{member, times_of}
use bybit_intraday_trading_b.Replay.Cache.{range_times, count_in, count_missing}

-- the length of a chunk that starts at `cursor`, with `k` more times up to the end of the range
pub chunk_end_lem :
    (i k cursor : ℕ)
    → IsInterval i
    → let last = min (cursor + k * i) (cursor + 9999 * i) in
      ((last - cursor) / i + 1 ≡ min (k + 1) 10_000) × (last + i ≡ cursor + min (k + 1) 10_000 * i)
chunk_end_lem i k cursor (inl e) = rw e (omega arith, omega arith)
chunk_end_lem i k cursor (inr (inl e)) = rw e (omega arith, omega arith)
chunk_end_lem i k cursor (inr (inr e)) = rw e (omega arith, omega arith)

pub range_times-+ :
    (i m n from : ℕ)
    → range_times i (m + n) from ≡ range_times i m from ++ range_times i n (from + m * i)
unfolding range_times
range_times-+ i zero n from =
    let none_first : 0 + n ≡ n = omega arith in
    let from_there : from + 0 * i ≡ from = omega arith in rw (none_first, from_there) refl
range_times-+ i (suc m) n from =
    let one_first : suc m + n ≡ suc (m + n) = omega arith in
    let from_next : from + suc m * i ≡ from + i + m * i = omega arith in
    rw (one_first, from_next) (ap (λ rest. from ∷ rest) (range_times-+ i m n (from + i)))

pub count_in-append :
    (actual xs ys : List ℕ) → count_in actual (xs ++ ys) ≡ count_in actual xs + count_in actual ys
unfolding count_in
count_in-append actual [] ys = omega arith
count_in-append actual (x ∷ xs) ys = ground (arith, count_in-append actual xs ys)

-- each time is counted on one side
pub count-length :
    (actual expected : List ℕ)
    → count_in actual expected + count_missing actual expected ≡ length expected
unfolding count_in count_missing
count-length actual [] = refl
count-length actual (t ∷ expected) = ground (arith, count-length actual expected)

pub length-range_times : (i n from : ℕ) → length (range_times i n from) ≡ n
unfolding range_times
length-range_times i zero from = refl
length-range_times i (suc n) from = ap suc (length-range_times i n (from + i))

pub count_in-same :
    (xs ys expected : List ℕ)
    → ((t : ℕ) → member t expected ≡ true → member t xs ≡ member t ys)
    → count_in xs expected ≡ count_in ys expected
unfolding count_in member
count_in-same xs ys [] h = refl
count_in-same xs ys (t ∷ expected) h =
    ground (
      arith,
      h t (ground arith),
      count_in-same xs ys expected λ u there. h u (ground (arith, there)),
    )

pub range_times-within :
    (i n from t : ℕ) → member t (range_times i n from) ≡ true → (from ≤ t) × (t + i ≤ from + n * i)
unfolding range_times member
range_times-within i zero from t h = cc
range_times-within i (suc n) from t h = elim (Bool-cases (t == from)) [
  | inl same ↦ (ground (arith, same), ground (arith, same))
  | inr later ↦
      let (above, below) = range_times-within i n (from + i) t (ground (arith, h, later)) in
      (omega (arith, above), omega (arith, below))
]

-- the two counts of a chunk, by those of another list that agrees on its times
pub counts_same :
    (xs ys expected : List ℕ) (n : ℕ)
    → length expected ≡ n
    → ((t : ℕ) → member t expected ≡ true → member t xs ≡ member t ys)
    → ◌≡◌ {A = Outcome (ℕ × ℕ)}
        (done (count_in xs expected, count_missing xs expected))
        (done (count_in ys expected, n - count_in ys expected))
counts_same xs ys expected n long h =
    let found = count_in-same xs ys expected h in
    let lacking : count_missing xs expected ≡ n - count_in ys expected =
      omega (arith, count-length xs expected, found, long) in
    rw (found, lacking) refl

pub fit_lem : (i n : ℕ) → IsInterval i → n * i ≤ 10_000 * i → n ≤ 10_000
fit_lem i n (inl e) h = omega (arith, rw e at h)
fit_lem i n (inr (inl e)) h = omega (arith, rw e at h)
fit_lem i n (inr (inr e)) h = omega (arith, rw e at h)

pub length-times_of : (rows : List Candle) → length (times_of rows) ≡ length rows
unfolding times_of
length-times_of [] = refl
length-times_of (c ∷ rows) = ap suc (length-times_of rows)

-- all of the times are counted, exactly when each of them is in the list
pub count_in-all :
    (actual expected : List ℕ)
    → count_in actual expected ≡ length expected
    → (t : ℕ) → member t expected ≡ true
    → member t actual ≡ true
unfolding count_in member
count_in-all actual [] h t there = cc
count_in-all actual (u ∷ expected) h t there = elim (Bool-cases (member u actual)) [
  | inl held ↦ elim (Bool-cases (t == u)) [
    | inl same ↦ let e : t ≡ u = ground (arith, same) in rw e held
    | inr other ↦
        count_in-all actual expected (ground (arith, held, h)) t (ground (arith, other, there))
  ]
  | inr lacks ↦ absurd (ground (arith, lacks, h, count-length actual expected))
]

pub all-count_in :
    (actual expected : List ℕ)
    → ((t : ℕ) → member t expected ≡ true → member t actual ≡ true)
    → count_in actual expected ≡ length expected
unfolding count_in member
all-count_in actual [] h = refl
all-count_in actual (u ∷ expected) h =
    ground (
      arith,
      h u (ground arith),
      all-count_in actual expected λ t there. h t (ground (arith, there)),
    )

pub range_times-nth :
    (i n j from t : ℕ) → t ≡ from + j * i → j < n → member t (range_times i n from) ≡ true
unfolding range_times member
range_times-nth i zero j from t e h = absurd (omega (arith, h))
range_times-nth i (suc n) zero from t e h =
    let start : t ≡ from = omega (arith, e) in ground (arith, start)
range_times-nth i (suc n) (suc j) from t e h =
    ground (arith, range_times-nth i n j (from + i) t (omega (arith, e)) (omega (arith, h)))

-- how far a multiple of the interval is from another, in intervals
pub nth_lem :
    (i from t : ℕ)
    → IsInterval i
    → IsAligned i from
    → IsAligned i t
    → from ≤ t
    → t ≡ from + (t - from) / i * i
nth_lem i from t (inl e) hf ht h = rw e (omega (arith, rw e at hf, rw e at ht, h))
nth_lem i from t (inr (inl e)) hf ht h = rw e (omega (arith, rw e at hf, rw e at ht, h))
nth_lem i from t (inr (inr e)) hf ht h = rw e (omega (arith, rw e at hf, rw e at ht, h))

-- fewer intervals fit before a time than up to a later one
pub nth_lt :
    (i from t end : ℕ) → IsInterval i → from ≤ t → t ≤ end → (t - from) / i < (end - from) / i + 1
nth_lt i from t end (inl e) h k = rw e (omega (arith, h, k))
nth_lt i from t end (inr (inl e)) h k = rw e (omega (arith, h, k))
nth_lt i from t end (inr (inr e)) h k = rw e (omega (arith, h, k))

pub range_times-multiple :
    (i n from t : ℕ) → member t (range_times i n from) ≡ true → (j : ℕ) × (t ≡ from + j * i)
unfolding range_times member
range_times-multiple i zero from t h = cc
range_times-multiple i (suc n) from t h = elim (Bool-cases (t == from)) [
  | inl same ↦ (0, ground (arith, same))
  | inr later ↦
      let (j, e) = range_times-multiple i n (from + i) t (ground (arith, h, later)) in
      (suc j, omega (arith, e))
]
