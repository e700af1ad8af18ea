-- ===== src/Replay/Client/Laws.antt =====
-- Which attempt decides the answer of `get_kline` in backend/replay_collector.py.
use bybit_intraday_trading_b.Prelude.{
  ℕ, zero, suc, ◌+◌, ◌<◌, ◌≤◌, ◌≡◌, refl, sym, subst, ◌==◌, Bool-cases, inl, inr, arith,
}
use bybit_intraday_trading_b.Prelude.Int.{ℤ, pos, negsuc}
use bybit_intraday_trading_b.Python.{Value, Python}
use bybit_intraday_trading_b.Replay.Types.{Outcome, done, failed, transport, other}
use bybit_intraday_trading_b.Replay.Client.{
  Reply, Verdict, answered, retry, refused, escapes, bounded_retries, verdict, decide_last, decide,
  attempts, get_kline,
}

abbrev pub IsRetry : Verdict → Type 0
IsRetry (answered v) = ⊥
IsRetry (retry text) = Unit
IsRetry (refused text) = ⊥
IsRetry (escapes text) = ⊥

-- what the deciding attempt makes of its reply; a retry decides only where none is left
abbrev pub Settles : ℕ → Verdict → Outcome Value → Type 0
Settles left (answered v) result = result ≡ done v
Settles left (retry text) result = (left ≡ 0) × (result ≡ failed transport text)
Settles left (refused text) result = result ≡ failed transport text
Settles left (escapes text) result = result ≡ failed other text

module _ (py : Python) (opener : ℕ → Reply) where
  -- the attempt `n`, with `left` retries after it, decides; those from `first` on before it did not
  pub record Decided (first n left : ℕ) (result : Outcome Value × ℕ) : Type 0 where
    pub from_first : first ≤ n
    pub retried : (i : ℕ) → first ≤ i → i < n → IsRetry (verdict py (opener i))
    pub settled : Settles left (verdict py (opener n)) result.0
    pub requests : result.1 ≡ n + 1

  -- an attempt that settles the call is the deciding one
  settled_here :
      (first left : ℕ) (v : Verdict) (result : Outcome Value)
      → verdict py (opener first) ≡ v
      → Settles left v result
      → Decided first first left (result, first + 1)
  settled_here first left v result e settles = record {
    from_first = omega arith;
    retried = λ i from before. absurd (omega (arith, from, before));
    settled = subst (λ w. Settles left w result) (sym e) settles;
    requests = refl;
  }

  last-Decided :
      (first : ℕ) (v : Verdict)
      → verdict py (opener first) ≡ v
      → Decided first first 0 (decide_last py first v)
  unfolding decide_last
  last-Decided first (answered v) e = settled_here first 0 (answered v) (done v) e refl
  last-Decided first (retry text) e =
      settled_here first 0 (retry text) (failed transport text) e (refl, refl)
  last-Decided first (refused text) e =
      settled_here first 0 (refused text) (failed transport text) e refl
  last-Decided first (escapes text) e =
      settled_here first 0 (escapes text) (failed other text) e refl

  -- the attempt that decides, and how many retries are left after it
  abbrev pub Decides : ℕ → ℕ → Outcome Value × ℕ → Type 0
  Decides left first result =
      (n : ℕ) × (rest : ℕ) × (n + rest ≡ first + left) × Decided first n rest result

  earlier-Decides :
      (first left : ℕ) (v : Verdict) (later : Outcome Value × ℕ)
      → verdict py (opener first) ≡ v
      → Decides left (first + 1) later
      → Decides (suc left) first (decide py first v later)
  unfolding decide
  earlier-Decides first left (answered v) later e h =
      (first, suc left, refl, settled_here first (suc left) (answered v) (done v) e refl)
  earlier-Decides first left (refused text) later e h = (
    first,
    suc left,
    refl,
    settled_here first (suc left) (refused text) (failed transport text) e refl,
  )
  earlier-Decides first left (escapes text) later e h = (
    first,
    suc left,
    refl,
    settled_here first (suc left) (escapes text) (failed other text) e refl,
  )
  earlier-Decides first left (retry text) later e (n, rest, sum, d) = (
    n,
    rest,
    omega (arith, sum),
    record {
      from_first = omega (arith, d.from_first);
      retried = λ i from before. elim (Bool-cases (i == first)) [
        | inl same ↦
            let here : i ≡ first = ground (arith, same) in
            subst (λ j. IsRetry (verdict py (opener j))) (sym here) (subst IsRetry (sym e) tt)
        | inr after ↦ d.retried i (ground (arith, after, from)) before
      ];
      settled = d.settled;
      requests = d.requests;
    },
  )

  attempts-Decides : (left first : ℕ) → Decides left first (attempts py opener left first)
  unfolding attempts
  attempts-Decides zero first =
      (first, 0, omega arith, last-Decided first (verdict py (opener first)) refl)
  attempts-Decides (suc left) first =
      earlier-Decides first left (verdict py (opener first)) _ refl
        (attempts-Decides left (first + 1))

-- Whatever the opener replies, `get_kline` ends with the first attempt whose reply is not to be
-- retried, or with the last of the attempts that the setting allows, makes one request for each
-- attempt up to it, at most seven, and returns, refuses or raises what that reply says.
pub get_kline-Decides :
    (py : Python) (opener : ℕ → Reply) (max_retries : ℤ)
    → Decides py opener (bounded_retries max_retries) 0 (get_kline py opener max_retries)
      × ((get_kline py opener max_retries).1 ≤ 7)
unfolding get_kline
get_kline-Decides py opener max_retries =
    let decided = attempts-Decides py opener (bounded_retries max_retries) 0 in
    (decided, omega (arith, decided.2, decided.3.requests, at_most_six max_retries))
  where
    at_most_six : (n : ℤ) → bounded_retries n ≤ 6
    at_most_six (pos n) = omega arith
    at_most_six (negsuc n) = omega arith
