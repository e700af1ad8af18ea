-- ===== src/Handoff/History/Enqueue.antt =====
-- `_queue_candidate` of backend/setup_worker.py keeps the keys of the queue distinct, and a restart
-- empties the queue.
use bybit_intraday_trading_b.Prelude.{
  ℕ, zero, suc, ◌≡◌, sym, subst, ◌≢◌, inl, inr, String, false, Option, List, [], ◌∷◌, ◌++◌, str_eq,
  eq_iff, All, All-append, drop, Bool-cases,
}
use bybit_intraday_trading_b.Python.{Fields, Python}
use bybit_intraday_trading_b.Handoff.Types.{Claim, Submission}
use bybit_intraday_trading_b.Handoff.Queue.{key_of, has_key, queue_candidate}
use bybit_intraday_trading_b.Handoff.Safe.{Holds, Fresh, Absent, Distinct, Covered}

All-drop : (P : Fields → Type 0) (n : ℕ) (q : List Fields) → All P q → All P (drop n q)
All-drop P zero q h = h
All-drop P (suc n) [] h = h
All-drop P (suc n) (row ∷ q) h = All-drop P n q h.1

module _ (py : Python) where
  Distinct-drop : (n : ℕ) (q : List Fields) → Distinct py q → Distinct py (drop n q)
  Distinct-drop zero q h = h
  Distinct-drop (suc n) [] h = h
  Distinct-drop (suc n) (row ∷ q) h = Distinct-drop n q h.1

  has_key-Absent : (key : String) (q : List Fields) → has_key py key q ≡ false → Absent py key q
  unfolding has_key
  has_key-Absent key [] h = tt
  has_key-Absent key (row ∷ q) h = elim (Bool-cases (str_eq (key_of py row) key)) [
    | inl same ↦ cc (rw same at h)
    | inr other ↦
        (λ e. cc (other, (eq_iff (key_of py row) key).1 e), has_key-Absent key q (rw other at h))
  ]

  Distinct-append :
      (row : Fields) (q : List Fields)
      → Absent py (key_of py row) q
      → Distinct py q
      → Distinct py (q ++ (row ∷ []))
  Distinct-append row [] a h = (tt, tt)
  Distinct-append row (r ∷ q) a h =
      (All-append _ q (row ∷ []) h.0 ((λ e. a.0 (sym e)), tt), Distinct-append row q a.1 h.1)

  -- a queue whose keys are distinct stays so, and any other key that was absent stays absent
  pub queue_candidate_facts :
      (limit : ℕ) (row : Fields) (q : List Fields)
      → Distinct py q
      → let left = (queue_candidate py limit row q).1 in
        Distinct py left
        × ((other : String) → key_of py row ≢ other → Absent py other q → Absent py other left)
  unfolding queue_candidate
  queue_candidate_facts limit row q h = elim (Bool-cases (has_key py (key_of py row) q)) [
    | inl known ↦ rw known (h, λ other ne a. a)
    | inr new ↦ rw new (
      Distinct-drop _ _ (Distinct-append row q (has_key-Absent _ q new) h),
      λ other ne a. All-drop _ _ _ (All-append _ q (row ∷ []) a (ne, tt)),
    )
  ]

  pub Covered-Fresh :
      (key : String) (q left : List Fields) (a : Option Claim) (orders : List Submission)
      → ((other : String) → key ≢ other → Absent py other q → Absent py other left)
      → Fresh key orders
      → Covered py q a orders
      → Covered py left a orders
  Covered-Fresh key q left a [] f fresh h = tt
  Covered-Fresh key q left a (s ∷ orders) f fresh h = (
    elim h.0 [
      | inl absent ↦ inl (f s.candidate_key (λ e. fresh.0 (sym e)) absent)
      | inr held ↦ inr held
    ],
    Covered-Fresh key q left a orders f fresh.1 h.1,
  )

  pub Covered-Holds :
      (key : String) (q left : List Fields) (a : Option Claim) (orders : List Submission)
      → ((other : String) → key ≢ other → Absent py other q → Absent py other left)
      → Holds key a
      → Covered py q a orders
      → Covered py left a orders
  Covered-Holds key q left a [] f held h = tt
  Covered-Holds key q left a (s ∷ orders) f held h = (
    elim (Bool-cases (str_eq key s.candidate_key)) [
      | inl same ↦ inr (subst (λ k. Holds k a) ((eq_iff key s.candidate_key).0 same) held)
      | inr other ↦ elim h.0 [
        | inl absent ↦
            inl (f s.candidate_key (λ e. cc (other, (eq_iff key s.candidate_key).1 e)) absent)
        | inr mine ↦ inr mine
      ]
    ],
    Covered-Holds key q left a orders f held h.1,
  )

  pub Covered-empty :
      (q : List Fields) (a : Option Claim) (orders : List Submission)
      → Covered py q a orders
      → Covered py [] a orders
  Covered-empty q a [] h = tt
  Covered-empty q a (s ∷ orders) h = (inl tt, Covered-empty q a orders h.1)
