-- ===== src/Handoff/Safe.antt =====
-- The invariant behind "at most one order for each candidate" and the facts about the queue and
-- the claims that keep it.
pub mod Claims
pub mod Steps
pub mod Complete
pub mod Prepare
pub mod Submit
pub mod Run
use bybit_intraday_trading_b.Prelude.{
  ◌≡◌, sym, ◌∙◌, ◌≢◌, ◌⊎◌, inl, inr, String, Option, none, some, List, [], ◌∷◌, str_eq, eq_iff, All,
  All-map, if◌then◌else◌, Bool-cases, Option-cases,
}
use bybit_intraday_trading_b.Python.{Fields, Python}
use bybit_intraday_trading_b.Handoff.Types.{Claim, Submission}
use bybit_intraday_trading_b.Handoff.Queue.{key_of, pop_first}
use bybit_intraday_trading_b.Handoff.Core.{Core}

-- the active claim is one for the candidate `key`
abbrev pub Holds : String → Option Claim → Type 0
Holds key none = ⊥
Holds key (some c) = c.candidate_key ≡ key

-- no order was submitted for `key`
abbrev pub Fresh : String → List Submission → Type 0
Fresh key = All (λ s. s.candidate_key ≢ key)

-- no two orders were submitted for one candidate
abbrev pub Once : List Submission → Type 0
Once [] = Unit
Once (s ∷ rest) = Fresh s.candidate_key rest × Once rest

-- the local variable `claim` and the stored claim are for one candidate
abbrev pub Linked : Option Claim → Option Claim → Type 0
Linked none a = Unit
Linked (some c) none = Unit
Linked (some c) (some d) = c.candidate_key ≡ d.candidate_key

module _ (py : Python) where
  -- no row of the queue has the key
  abbrev pub Absent : String → List Fields → Type 0
  Absent key = All (λ row. key_of py row ≢ key)

  -- no two rows of the queue have one key
  abbrev pub Distinct : List Fields → Type 0
  Distinct [] = Unit
  Distinct (row ∷ rest) = Absent (key_of py row) rest × Distinct rest

  -- A candidate for which an order was submitted is out of the queue, or the claim is still its.
  abbrev pub Covered : List Fields → Option Claim → List Submission → Type 0
  Covered queue active = All (λ s. Absent s.candidate_key queue ⊎ Holds s.candidate_key active)

  abbrev pub IsSafe : Core → Type 0
  IsSafe c =
      Covered c.queue c.active c.orders
      × Distinct c.queue
      × Once c.orders
      × Linked c.local_claim c.active

  pub Covered-claim :
      (queue : List Fields) (a b : Option Claim) (orders : List Submission)
      → ((key : String) → Holds key a → Holds key b)
      → Covered queue a orders
      → Covered queue b orders
  Covered-claim queue a b orders f =
      All-map orders
        (λ s h. elim h [ inl absent ↦ inl absent | inr held ↦ inr (f s.candidate_key held) ])

  pub Covered-queue :
      (queue left : List Fields) (a : Option Claim) (orders : List Submission)
      → ((key : String) → Absent key queue → Absent key left)
      → Covered queue a orders
      → Covered left a orders
  Covered-queue queue left a orders f =
      All-map orders
        (λ s h. elim h [ inl absent ↦ inl (f s.candidate_key absent) | inr held ↦ inr held ])

  -- the claim may go once its candidate is out of the queue
  pub Covered-none :
      (queue : List Fields) (a : Option Claim) (orders : List Submission) (key : String)
      → ((other : String) → Holds other a → other ≡ key)
      → Absent key queue
      → Covered queue a orders
      → Covered queue none orders
  Covered-none queue a orders key only absent = All-map orders (λ s h. elim h [
    | inl gone ↦ inl gone
    | inr held ↦ inl (subst_absent queue (only s.candidate_key held))
  ])
    where
      subst_absent : (q : List Fields) {other : String} → other ≡ key → Absent other queue
      subst_absent q e = rw e absent

  -- with no claim, the head of the queue is a candidate for which no order was submitted
  pub Fresh-head :
      (row : Fields) (rest : List Fields) (orders : List Submission)
      → Covered (row ∷ rest) none orders
      → Fresh (key_of py row) orders
  Fresh-head row rest orders =
      All-map orders (λ s h e. elim h [ inl absent ↦ absent.0 (sym e) | inr held ↦ held ])

  -- which row `pop_first` takes
  pop_first-cons :
      (key : String) (row : Fields) (rows left : List Fields)
      → pop_first py key (row ∷ rows) ≡ some left
      → ((key_of py row ≡ key) × (left ≡ rows))
        ⊎ ((l : List Fields) × (key_of py row ≢ key)
            × (pop_first py key rows ≡ some l)
            × (left ≡ row ∷ l))
  unfolding pop_first
  pop_first-cons key row rows left e = elim (Bool-cases (str_eq (key_of py row) key)) [
    | inl same ↦ inl ((eq_iff (key_of py row) key).0 same, cc (rw same at e))
    | inr other ↦ elim (Option-cases (pop_first py key rows)) [
      | inl gone ↦ cc (rw (other, gone) at e)
      | inr (l, found) ↦ inr (
        l,
        λ same. cc (other, (eq_iff (key_of py row) key).1 same),
        found,
        cc (rw (other, found) at e),
      )
    ]
  ]

  pub Absent-pop_first :
      (key other : String) (queue left : List Fields)
      → pop_first py key queue ≡ some left
      → Absent other queue
      → Absent other left
  unfolding pop_first
  Absent-pop_first key other [] left e h = cc
  Absent-pop_first key other (row ∷ rows) left e h = elim (pop_first-cons key row rows left e) [
    | inl (_, same) ↦ rw same h.1
    | inr (l, _, found, longer) ↦ rw longer (h.0, Absent-pop_first key other rows l found h.1)
  ]

  pub pop_first-none :
      (key : String) (queue : List Fields) → pop_first py key queue ≡ none → Absent key queue
  unfolding pop_first
  pop_first-none key [] e = tt
  pop_first-none key (row ∷ rows) e = elim (Bool-cases (str_eq (key_of py row) key)) [
    | inl same ↦ cc (rw same at e)
    | inr other ↦ elim (Option-cases (pop_first py key rows)) [
      | inl gone ↦
          (λ same. cc (other, (eq_iff (key_of py row) key).1 same), pop_first-none key rows gone)
      | inr (l, found) ↦ cc (rw (other, found) at e)
    ]
  ]

  pub Distinct-pop_first :
      (key : String) (queue left : List Fields)
      → pop_first py key queue ≡ some left
      → Distinct queue
      → Absent key left × Distinct left
  unfolding pop_first
  Distinct-pop_first key [] left e h = cc
  Distinct-pop_first key (row ∷ rows) left e h = elim (pop_first-cons key row rows left e) [
    | inl (mine, same) ↦ rw (same, ← mine) h
    | inr (l, other, found, longer) ↦
        let (absent, distinct) = Distinct-pop_first key rows l found h.1 in
        rw longer
          ((other, absent), (Absent-pop_first key (key_of py row) rows l found h.0, distinct))
  ]
