-- ===== src/OrderFill/Poll/Laws.antt =====
-- What the polls of `verify_final_fill` (backend/engines/order_fill.py) rest on, and what they cost.
use bybit_intraday_trading_b.Prelude.{
  ℕ, zero, suc, ◌+◌, ◌≤◌, ◌≡◌, refl, ◌⊎◌, inl, inr, String, Bool, true, false, Option, none, some,
  List, [], ◌∷◌, All, arith, Bool-cases, Option-cases,
}
use bybit_intraday_trading_b.Python.{Value}
use bybit_intraday_trading_b.OrderFill.Types.{
  Source, realtime, history, StatusRow, Row, found, missing, Verification, OrderRef, Answer,
  returns, raises, Env,
}
use bybit_intraday_trading_b.OrderFill.Classify.{status_row, classified}
use bybit_intraday_trading_b.OrderFill.Poll.{
  Progress, Ended, decided, used_up, Round, no_round, first_with, verdict, is_partial, head_of,
  first_of, last_of, unverified, deadline, result_of, request, note_row, note_answer, query,
  round_of, after_round, settle, poll,
}

first_with-All :
    (P : Verification → Type 0) (test : Verification → Bool) (l : List Verification)
    (v : Verification)
    → All P l
    → first_with test l ≡ some v
    → P v × (test v ≡ true)
unfolding first_with
first_with-All P test [] v h e = cc
first_with-All P test (u ∷ rest) v h e = elim (Bool-cases (test u)) [
  | inl hit ↦ let same : u ≡ v = cc (rw hit at e) in rw (← same) (h.0, hit)
  | inr miss ↦ first_with-All P test rest v h.1 (rw miss at e)
]

module _ (env : Env) (symbol : String) (order : OrderRef) where
  open env use {py}

  -- `v` is the classification of a row that the exchange answered in an attempt up to number `most`
  pub record Shows (most : ℕ) (v : Verification) : Type 0 where
    pub attempt : ℕ
    pub source : Source
    pub payload : Value
    pub row : StatusRow
    pub answered : env.requester attempt (request env symbol source order) ≡ returns payload
    pub has_row : status_row py source payload ≡ found row
    pub in_time : attempt ≤ most
    pub classifies : v ≡ classified py row attempt

  note_row-Shows :
      (attempt : ℕ) (source : Source) (payload : Value) (row : Row) (r : Round)
      → env.requester attempt (request env symbol source order) ≡ returns payload
      → status_row py source payload ≡ row
      → All (Shows attempt) r.candidates
      → All (Shows attempt) (note_row env symbol attempt row r).candidates
  unfolding note_row
  note_row-Shows attempt source payload (missing message) r answered e h = h
  note_row-Shows attempt source payload (found row) r answered e h = (
    record {
      attempt = attempt;
      source = source;
      payload = payload;
      row = row;
      answered = answered;
      has_row = e;
      in_time = omega arith;
      classifies = refl;
    },
    h,
  )

  note_answer-Shows :
      (attempt : ℕ) (source : Source) (a : Answer) (r : Round)
      → env.requester attempt (request env symbol source order) ≡ a
      → All (Shows attempt) r.candidates
      → All (Shows attempt) (note_answer env symbol source attempt a r).candidates
  unfolding note_answer
  note_answer-Shows attempt source (raises name) r e h = h
  note_answer-Shows attempt source (returns payload) r e h =
      note_row-Shows attempt source payload (status_row py source payload) r e refl h

  round_of-Shows :
      (attempt : ℕ) → All (Shows attempt) (round_of env symbol order attempt).candidates
  unfolding round_of query no_round
  round_of-Shows attempt =
      note_answer-Shows attempt realtime _ _ refl (note_answer-Shows attempt history _ _ refl tt)

  verdict-Shows :
      (most : ℕ) (l : List Verification) (v : Verification)
      → All (Shows most) l
      → verdict l ≡ some v
      → Shows most v
  unfolding verdict
  verdict-Shows most l v h e = elim (Option-cases (first_with (λ u. u.accepted) l)) [
    | inl none_accepted ↦ (first_with-All _ (λ u. u.terminal) l v h (rw none_accepted at e)).0
    | inr (u, hit) ↦
        let same : u ≡ v = cc (rw hit at e) in rw (← same) (first_with-All _ _ l u h hit).0
  ]

  Shows-later : (n most : ℕ) (v : Verification) → n ≤ most → Shows n v → Shows most v
  Shows-later n most v le h = record {
    attempt = h.attempt;
    source = h.source;
    payload = h.payload;
    row = h.row;
    answered = h.answered;
    has_row = h.has_row;
    in_time = omega (arith, h.in_time, le);
    classifies = h.classifies;
  }

-- a verification that accepts nothing
abbrev pub Refuses : Option Verification → Type 0
Refuses none = Unit
Refuses (some v) = v.accepted ≡ false

deadline_unresolved :
    (ids : String × String) (total : ℕ) (errors : List String) (o : Option Verification)
    → (deadline ids total errors o).unresolved ≡ true
unfolding deadline unverified
deadline_unresolved ids total errors none = refl
deadline_unresolved ids total errors (some v) = refl

deadline-Refuses :
    (ids : String × String) (total : ℕ) (errors : List String) (o : Option Verification)
    → Refuses o
    → (deadline ids total errors o).accepted ≡ false
unfolding deadline unverified
deadline-Refuses ids total errors none h = refl
deadline-Refuses ids total errors (some v) h = h

first_of-Refuses : (o q : Option Verification) → Refuses o → Refuses q → Refuses (first_of o q)
first_of-Refuses none q h g = g
first_of-Refuses (some v) q h g = h

first_with-none :
    (test : Verification → Bool) (l : List Verification)
    → first_with test l ≡ none
    → All (λ v. test v ≡ false) l
unfolding first_with
first_with-none test [] e = tt
first_with-none test (v ∷ rest) e = elim (Bool-cases (test v)) [
  | inl hit ↦ cc (rw hit at e)
  | inr miss ↦ (miss, first_with-none test rest (rw miss at e))
]

verdict-none : (l : List Verification) → verdict l ≡ none → first_with (λ v. v.accepted) l ≡ none
unfolding verdict
verdict-none l e = elim (Option-cases (first_with (λ v. v.accepted) l)) [
  | inl nothing ↦ nothing
  | inr (v, hit) ↦ cc (rw hit at e)
]

head_of-Refuses : (l : List Verification) → All (λ v. v.accepted ≡ false) l → Refuses (head_of l)
head_of-Refuses [] h = tt
head_of-Refuses (v ∷ rest) h = h.0

first_with-Refuses :
    (test : Verification → Bool) (l : List Verification)
    → All (λ v. v.accepted ≡ false) l
    → Refuses (first_with test l)
unfolding first_with
first_with-Refuses test [] h = tt
first_with-Refuses test (v ∷ rest) h = elim (Bool-cases (test v)) [
  | inl hit ↦ rw hit h.0
  | inr miss ↦ rw miss (first_with-Refuses test rest h.1)
]

last_of-Refuses :
    (l : List Verification) (last : Option Verification)
    → verdict l ≡ none
    → Refuses last
    → Refuses (last_of l last)
unfolding last_of
last_of-Refuses l last e h =
    let refused = first_with-none (λ v. v.accepted) l (verdict-none l e) in
    first_of-Refuses _ _ (first_with-Refuses is_partial l refused)
      (first_of-Refuses _ _ (head_of-Refuses l refused) h)

-- How a run of the polls ends: decided by a row of the exchange, or with nothing accepted.
module _ (env : Env) (symbol : String) (order : OrderRef) where
  abbrev pub Ends : ℕ → Ended × Progress → Type 0
  Ends most (decided v, p) = Shows env symbol order most v
  Ends most (used_up, p) = Refuses p.last

  settle-Ends :
      (most : ℕ) (o : Option Verification) (now : Progress) (later : Ended × Progress)
      → ((v : Verification) → o ≡ some v → Shows env symbol order most v)
      → (o ≡ none → Ends most later)
      → Ends most (settle o now later)
  unfolding settle
  settle-Ends most (some v) now later shows ends = shows v refl
  settle-Ends most none now later shows ends = ends refl

  pub poll-Ends :
      (delays : Bool) (left attempt most : ℕ) (p : Progress)
      → attempt + left ≤ most + 1
      → Refuses p.last
      → Ends most (poll env symbol delays order left attempt p)
  unfolding poll after_round
  poll-Ends delays zero attempt most p le h = h
  poll-Ends delays (suc left) attempt most p le h =
      let r = round_of env symbol order attempt in
      settle-Ends most (verdict r.candidates) _ _
        (λ v e. Shows-later env symbol order attempt most v (omega (arith, le)) (
          verdict-Shows env symbol order attempt r.candidates v
            (round_of-Shows env symbol order attempt) e))
        (λ e.
          poll-Ends delays left (attempt + 1) most _ (omega (arith, le))
            (last_of-Refuses r.candidates p.last e h))

  pub result_of-Shows :
      (ids : String × String) (most : ℕ) (r : Ended × Progress)
      → Ends most r
      → (((result_of ids most r).unresolved ≡ false) ⊎ ((result_of ids most r).accepted ≡ true))
      → Shows env symbol order most (result_of ids most r)
  unfolding result_of
  result_of-Shows ids most (decided v, p) h settled = h
  result_of-Shows ids most (used_up, p) h (inl resolved) =
      cc (resolved, deadline_unresolved ids most p.errors p.last)
  result_of-Shows ids most (used_up, p) h (inr accepted) =
      cc (accepted, deadline-Refuses ids most p.errors p.last h)
