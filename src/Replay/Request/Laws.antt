-- ===== src/Replay/Request/Laws.antt =====
-- An accepted request names exactly the closed candles of the requested range.
use bybit_intraday_trading_b.Prelude.{
  ℕ, zero, suc, ◌+◌, ◌-◌, ◌*◌, ◌/◌, ◌%◌, min, ◌≤◌, ◌<◌, ◌≡◌, ◌∙◌, refl, ap, ◌⊎◌, subst, inl, inr,
  String, Option, none, some, ltb, leb, arith, Bool-cases, if◌then◌else◌,
}
use bybit_intraday_trading_b.Prelude.Int.{ℤ, pos, negsuc}
use bybit_intraday_trading_b.Python.{Value, dict, Python}
use bybit_intraday_trading_b.Replay.Types.{done, SyncRequest}
use bybit_intraday_trading_b.Replay.Types.Laws.{
  Returns, >>=-Returns, guard-Returns, or_raise-Returns, or_raise_last-Returns, done-Returns,
  failed-Returns, some_injective,
}
use bybit_intraday_trading_b.Replay.Request.{
  max_replay_candles, interval_ms, at_least, to_integer, bounded, aligned_range, integer_ms,
  normalize_timeframe, normalize_sync_request,
}

abbrev pub IsInterval : ℕ → Type 0
IsInterval i = (i ≡ 300_000) ⊎ (i ≡ 900_000) ⊎ (i ≡ 3_600_000)

abbrev pub IsAligned : ℕ → ℕ → Type 0
IsAligned i t = t % i ≡ 0

-- `t` opens a candle of the requested range that has closed by `now`
abbrev pub IsClosedIn : ℕ → ℕ → ℕ → ℕ → ℕ → Type 0
IsClosedIn i now start end t = IsAligned i t × (start ≤ t) × (t ≤ end) × (t + i ≤ now)

-- `a` and `e` are the first and the last closed candle of the range
abbrev pub IsRange : ℕ → ℕ → ℕ → ℕ → ℕ → ℕ → ℕ → Type 0
IsRange i now start end a e last =
    IsClosedIn i now start end a
    × IsClosedIn i now start end e
    × (a ≤ e)
    × (e ≤ last)
    × ((t : ℕ) → IsClosedIn i now start end t → (a ≤ t) × (t ≤ e))

-- `t // i * i` is the last multiple of `i` up to `t`
floor_lem :
    (i t : ℕ) → IsInterval i → IsAligned i (t / i * i) × (t / i * i ≤ t) × (t < t / i * i + i)
floor_lem i t (inl e) = rw e (omega arith, omega arith, omega arith)
floor_lem i t (inr (inl e)) = rw e (omega arith, omega arith, omega arith)
floor_lem i t (inr (inr e)) = rw e (omega arith, omega arith, omega arith)

-- a multiple less than one interval above another is not above it
pub aligned_le : (i s t : ℕ) → IsInterval i → IsAligned i s → IsAligned i t → s < t + i → s ≤ t
aligned_le i s t (inl e) hs ht h = omega (arith, rw e at hs, rw e at ht, rw e at h)
aligned_le i s t (inr (inl e)) hs ht h = omega (arith, rw e at hs, rw e at ht, rw e at h)
aligned_le i s t (inr (inr e)) hs ht h = omega (arith, rw e at hs, rw e at ht, rw e at h)

interval_ms-IsInterval : (text : String) {i : ℕ} → interval_ms text ≡ some i → IsInterval i
unfolding interval_ms
interval_ms-IsInterval text h = grind (arith, h)

normalize_timeframe-IsInterval :
    (py : Python) (v : Value) → Returns (λ frame. IsInterval frame.1) (normalize_timeframe py v)
unfolding normalize_timeframe
normalize_timeframe-IsInterval py v =
    or_raise-Returns _ _ _ _ λ i known. done-Returns _ (interval_ms-IsInterval _ known)

-- the first multiple of `i` from `a'` on, and the last up to `e'` and `last`, where they are in order
range_in_order :
    (a e last : ℕ) {range : ℕ × ℕ × ℕ}
    → (if ltb e a then none else some (a, e, last)) ≡ some range
    → (a ≤ e) × ((a, e, last) ≡ range)
range_in_order a e last h = elim (Bool-cases (ltb e a)) [
  | inl late ↦ cc (rw late at h)
  | inr ordered ↦ (ground (arith, ordered), some_injective _ _ (rw ordered at h))
]

min-cases : (a b : ℕ) → (min a b ≡ a) ⊎ (min a b ≡ b)
min-cases a b = elim (Bool-cases (leb a b)) [
  | inl below ↦ inl (ground (arith, below))
  | inr above ↦ inr (ground (arith, above))
]

module _ (i now start end : ℕ) (known : IsInterval i) where
  -- `a` and `b` are the multiples next to the two ends, `last` the last closed candle
  range_lem :
      (a b last : ℕ)
      → IsAligned i a × (start ≤ a) × (a < start + i)
      → IsAligned i b × (b ≤ end) × (end < b + i)
      → IsAligned i last × (last + i ≤ now) × (now < last + i + i)
      → a ≤ min b last
      → IsRange i now start end a (min b last) last
  range_lem a b last (ha, a1, a2) (hb, b1, b2) (hl, l1, l2) ordered =
      let aligned : IsAligned i (min b last) = elim (min-cases b last) [
        | inl e ↦ rw e hb
        | inr e ↦ rw e hl
      ] in
      (
        (ha, a1, omega arith, omega arith),
        (aligned, omega arith, omega arith, omega arith),
        ordered,
        omega arith,
        λ t (ht, t1, t2, t3). (
          aligned_le i a t known ha ht (omega arith),
          aligned_le i t (min b last) known ht aligned
              (elim (min-cases b last) [ inl e ↦ omega (arith, e) | inr e ↦ omega (arith, e) ]),
        ),
      )

  multiple_lem : (k : ℕ) → IsAligned i (k * i)
  multiple_lem k = elim known [
    | inl e ↦ rw e (omega arith)
    | inr (inl e) ↦ rw e (omega arith)
    | inr (inr e) ↦ rw e (omega arith)
  ]

  closed_before :
      (k : ℕ) → now / i ≡ suc k → IsAligned i (k * i) × (k * i + i ≤ now) × (now < k * i + i + i)
  closed_before k e =
      let (_, down, under) = floor_lem i now known in
      let counted : now / i * i ≡ k * i + i = ap (λ (n : ℕ). n * i) e ∙ omega arith in
      (multiple_lem k, omega arith, omega arith)

  first_after :
      IsAligned i ((start + i - 1) / i * i)
      × (start ≤ (start + i - 1) / i * i)
      × ((start + i - 1) / i * i < start + i)
  first_after =
      let (aligned, down, under) = floor_lem i (start + i - 1) known in
      let wide : 0 < i = elim known [
        | inl e ↦ omega (arith, e)
        | inr (inl e) ↦ omega (arith, e)
        | inr (inr e) ↦ omega (arith, e)
      ] in
      (aligned, omega arith, omega arith)

  aligned_range-IsRange :
      {range : ℕ × ℕ × ℕ} (periods : ℕ)
      → now / i ≡ periods
      → aligned_range i start end periods ≡ some range
      → IsRange i now start end range.0 range.1 range.2
  unfolding aligned_range
  aligned_range-IsRange zero e h = cc
  aligned_range-IsRange (suc k) e h =
      let (ordered, same) =
        range_in_order ((start + i - 1) / i * i) (min (end / i * i) (k * i)) (k * i) h in
      subst (λ (r : ℕ × ℕ × ℕ). IsRange i now start end r.0 r.1 r.2) same
        (range_lem ((start + i - 1) / i * i) (end / i * i) (k * i) first_after
          (floor_lem i end known) (closed_before k e) ordered)

at_least-le : (least : ℕ) (n : ℤ) (k : ℕ) → at_least least n ≡ some k → least ≤ k
unfolding at_least
at_least-le least (pos n) k h = ground (arith, h)
at_least-le least (negsuc n) k h = cc

bounded-le :
    (least : ℕ) (o : Option ℤ) (not_integer too_small : String)
    → Returns (λ n. least ≤ n) (bounded least o not_integer too_small)
unfolding bounded
bounded-le least none not_integer too_small = failed-Returns _ _
bounded-le least (some n) not_integer too_small =
    or_raise_last-Returns _ _ _ λ k h. at_least-le least n k h

integer_ms-le :
    (py : Python) (name : String) (v : Value)
    → Returns (λ n. 1_000_000_000_000 ≤ n) (integer_ms py name v)
unfolding integer_ms
integer_ms-le py name v = bounded-le _ (to_integer py v) _ _

-- The request that `normalize_sync_request` returns names a known interval and at most 200000
-- candles, from a start of at least 10^12 to an end that are the first and the last multiple of the interval in the
-- requested range whose candle has closed by `now`.
pub record IsValid (now : ℕ) (r : SyncRequest) : Type 0 where
  pub known : IsInterval r.interval
  pub counted : r.expected ≡ (r.end_time - r.start_time) / r.interval + 1
  pub late : 1_000_000_000_000 ≤ r.start_time
  pub limited : r.expected ≤ max_replay_candles
  pub range :
      IsRange r.interval now r.requested_start r.requested_end r.start_time r.end_time r.last_closed

request-Returns :
    (py : Python) (now : ℕ) (payload : Value)
    → Returns (IsValid now) (normalize_sync_request py now payload)
unfolding normalize_sync_request
request-Returns py now (dict payload) = >>=-Returns _ _ λ symbol _. >>=-Returns _ _ λ frame framed.
    >>=-Returns _ _ λ start started. >>=-Returns _ _ λ end _. guard-Returns _ _ _ _ λ ordered.
      or_raise-Returns _ _ _ _ λ range ranged. guard-Returns _ _ _ _ λ limited.
        >>=-Returns _ _ λ force _.
          let known : IsInterval frame.1 =
            (normalize_timeframe-IsInterval py _).result frame framed in
          let ranges = aligned_range-IsRange frame.1 now start end known _ refl ranged in
          let late = (integer_ms-le py _ _).result start started in
          done-Returns _ (record {
            known = known;
            counted = refl;
            limited = ground (arith, limited);
            late = omega (arith, late, ranges.0.1);
            range = ranges;
          })
request-Returns py now v = failed-Returns _ _

-- A request that is accepted names a known interval and at most 200000 candles; its start and its
-- end are the first and the last candle of the requested range that have closed by `now`, from
-- 10^12 on, and every such candle of the range lies between them.
pub normalize_sync_request-IsValid :
    (py : Python) (now : ℕ) (payload : Value) (r : SyncRequest)
    → normalize_sync_request py now payload ≡ done r
    → IsValid now r
normalize_sync_request-IsValid py now payload = (request-Returns py now payload).result

pub interval_positive : (i : ℕ) → IsInterval i → (0 < i) × (i ≤ 1_000_000_000_000)
interval_positive i (inl e) = (omega (arith, e), omega (arith, e))
interval_positive i (inr (inl e)) = (omega (arith, e), omega (arith, e))
interval_positive i (inr (inr e)) = (omega (arith, e), omega (arith, e))
