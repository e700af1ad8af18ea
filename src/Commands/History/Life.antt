-- ===== src/Commands/History/Life.antt =====
-- How the methods of backend/execution_command_storage.py change the row of a command.
use bybit_intraday_trading_b.Prelude.{
  ℕ, ◌≡◌, refl, ◌⊎◌, inl, inr, String, Bool, true, not, ◌||◌, Option, none, some, List, [], ◌∷◌,
  ◌++◌, ◌==◌, arith, leb, Bool-cases,
}
use bybit_intraday_trading_b.Python.{Fields, is_empty}
use bybit_intraday_trading_b.Commands.Types.{
  CommandState, available, reserved, order_pending, partially_filled, managing, closing, closed,
  failed, is_available, allowed, Command,
}
use bybit_intraday_trading_b.Commands.Table.{
  find, is_occupied, slots_unique, count_active, update_where, first_available,
}
use bybit_intraday_trading_b.Commands.Storage.{
  max_active_slots, is_blank, answered, has_state, reserved_row, is_claimable, reserve, published,
  insert_unless, insert_new, refreshed_row, refresh, is_held, moved_row, move,
  publish_execution_command, refresh_stale_execution_command, claim_selected,
  claim_execution_command, transition_known, transition_named, transition_execution_command,
}
use bybit_intraday_trading_b.Commands.Storage.Laws.{same_state}
use bybit_intraday_trading_b.Commands.History.{
  Step, publish, refresh as refresh_step, claim, late_claim, transition,
}

-- The row `c` stays, is refreshed while it is available, or makes an allowed transition with its
-- payload and its time of creation.
abbrev pub Evolves : Command → Command → Type 0
Evolves c d =
    (d ≡ c)
    ⊎ ((d.candidate_key ≡ c.candidate_key)
        × (d.created_at ≡ c.created_at)
        × ((is_available c.state ≡ true) × (d.state ≡ available)
            ⊎ (has_state d.state (allowed c.state) ≡ true) × (d.payload ≡ c.payload)))

-- every row evolves, and other rows may follow
abbrev pub Follows : List Command → List Command → Type 0
Follows [] after = Unit
Follows (c ∷ rows) [] = ⊥
Follows (c ∷ rows) (d ∷ after) = Evolves c d × Follows rows after

Follows-self : (rows : List Command) → Follows rows rows
Follows-self [] = tt
Follows-self (c ∷ rows) = (inl refl, Follows-self rows)

Follows-append : (rows more : List Command) → Follows rows (rows ++ more)
Follows-append [] more = tt
Follows-append (c ∷ rows) more = (inl refl, Follows-append rows more)

update_where-Follows :
    (condition : Command → Bool) (change : Command → Command)
    → ((c : Command) → condition c ≡ true → Evolves c (change c))
    → (rows : List Command) → Follows rows (update_where condition change rows)
unfolding update_where
update_where-Follows condition change f [] = tt
update_where-Follows condition change f (c ∷ rows) = elim (Bool-cases (condition c)) [
  | inl met ↦ rw met (f c met, update_where-Follows condition change f rows)
  | inr unmet ↦ rw unmet (inl refl, update_where-Follows condition change f rows)
]

answered-Follows :
    (found : Option Command) (change : Command → Command) (old new : List Command)
    → Follows old new
    → Follows old (answered found change old new).1
unfolding answered
answered-Follows found change old new h = elim (Bool-cases (slots_unique new)) [
  | inl unique ↦ rw unique h
  | inr clash ↦ rw clash (Follows-self old)
]

insert_unless-Follows :
    (o : Option Command) (c : Command) (rows : List Command)
    → Follows rows (insert_unless o c rows).1
unfolding insert_unless
insert_unless-Follows none c rows = Follows-append rows (c ∷ [])
insert_unless-Follows (some old) c rows = Follows-self rows

may_reserve : (s : CommandState) → is_available s ≡ true → has_state reserved (allowed s) ≡ true
unfolding has_state
may_reserve available h = refl
may_reserve reserved h = cc
may_reserve order_pending h = cc
may_reserve partially_filled h = cc
may_reserve managing h = cc
may_reserve closing h = cc
may_reserve closed h = cc
may_reserve failed h = cc

reserved-Evolves :
    (key owner : String) (slot timestamp : ℕ) (c : Command)
    → is_claimable key c ≡ true
    → Evolves c (reserved_row slot owner timestamp c)
unfolding reserved_row
reserved-Evolves key owner slot timestamp c h =
    inr (refl, refl, inr (may_reserve c.state (ground (arith, h)), refl))

refreshed-Evolves :
    (key : String) (payload : Fields) (timestamp : ℕ) (c : Command)
    → is_claimable key c ≡ true
    → Evolves c (refreshed_row payload timestamp c)
unfolding refreshed_row
refreshed-Evolves key payload timestamp c h = inr (refl, refl, inl (ground (arith, h), refl))

moved-Evolves :
    (key owner : String) (expected target : CommandState) (timestamp : ℕ)
    → has_state target (allowed expected) ≡ true
    → (c : Command) → is_held key owner expected c ≡ true
    → Evolves c (moved_row target timestamp c)
unfolding moved_row
moved-Evolves key owner expected target timestamp permitted c h =
    let was : expected ≡ c.state = same_state expected c.state (ground (arith, h)) in
    inr (refl, refl, inr (rw was at permitted, refl))

module _ (strip upper : String → String) (before : String → String → Bool) where
  selected-Follows :
      (owner : String) (slot timestamp : ℕ) (o : Option Command) (rows : List Command)
      → Follows rows (claim_selected strip upper before owner slot timestamp o rows).1
  unfolding claim_selected reserve
  selected-Follows owner slot timestamp none rows = Follows-self rows
  selected-Follows owner slot timestamp (some c) rows =
      answered-Follows _ _ rows _
        (update_where-Follows _ _ (reserved-Evolves c.candidate_key owner slot timestamp) rows)

  known-Follows :
      (key owner : String) (expected target : CommandState) (timestamp : ℕ) (rows : List Command)
      → Follows rows
          (transition_known strip upper before key owner expected target timestamp rows).1
  unfolding transition_known move
  known-Follows key owner expected target timestamp rows =
      elim (Bool-cases (has_state target (allowed expected))) [
        | inl permitted ↦ rw permitted (
            answered-Follows _ _ rows _ (
              update_where-Follows _ _ (moved-Evolves key owner expected target timestamp permitted)
                rows))
        | inr refused ↦ rw refused (Follows-self rows)
      ]

  named-Follows :
      (key owner : String) (expected next : Option CommandState) (timestamp : ℕ)
      (rows : List Command)
      → Follows rows (transition_named strip upper before key owner expected next timestamp rows).1
  unfolding transition_named
  named-Follows key owner (some expected) (some next) timestamp rows =
      known-Follows key owner expected next timestamp rows
  named-Follows key owner none next timestamp rows = Follows-self rows
  named-Follows key owner (some expected) none timestamp rows = Follows-self rows

  -- A method keeps every row in its place: the row stays as it is, is refreshed while it is
  -- available, or makes an allowed transition and keeps its payload. New rows come after them.
  pub Step-Follows :
      {rows after : List Command} → Step strip upper before rows after → Follows rows after
  unfolding publish_execution_command insert_new refresh_stale_execution_command refresh
      claim_execution_command transition_execution_command
  Step-Follows (publish key payload timestamp rows) = elim (Bool-cases (is_empty (strip key))) [
    | inl blank ↦ rw blank (Follows-self rows)
    | inr named ↦ elim (Bool-cases (is_blank payload)) [
      | inl nothing_there ↦ rw (named, nothing_there) (Follows-self rows)
      | inr given ↦
          rw (named, given)
            (insert_unless-Follows (find (strip key) rows) (published (strip key) payload timestamp)
              rows)
    ]
  ]
  Step-Follows (refresh_step key payload timestamp rows) =
      elim (Bool-cases (is_empty (strip key))) [
        | inl blank ↦ rw blank (Follows-self rows)
        | inr named ↦ elim (Bool-cases (is_blank payload)) [
          | inl nothing_there ↦ rw (named, nothing_there) (Follows-self rows)
          | inr given ↦
              rw (named, given)
                (answered-Follows _ _ rows _
                  (update_where-Follows _ _ (refreshed-Evolves (strip key) payload timestamp) rows))
        ]
      ]
  Step-Follows (claim owner slot timestamp rows) = elim (Bool-cases (is_empty (strip owner))) [
    | inl blank ↦ rw blank (Follows-self rows)
    | inr named ↦ elim (Bool-cases (not (slot == 1 || (slot == 2 || slot == 3)))) [
      | inl beyond ↦ rw (named, beyond) (Follows-self rows)
      | inr within ↦
          elim (Bool-cases (is_occupied slot rows || leb max_active_slots (count_active rows))) [
            | inl full ↦ rw (named, within, full) (Follows-self rows)
            | inr free ↦
                rw (named, within, free)
                  (selected-Follows (strip owner) slot timestamp (first_available before rows) rows)
          ]
    ]
  ]
  Step-Follows (late_claim owner slot timestamp c rows low high) =
      selected-Follows owner slot timestamp (some c) rows
  Step-Follows (transition key owner expected next timestamp rows) =
      elim (Bool-cases (is_empty (strip key) || is_empty (strip owner))) [
        | inl blank ↦ rw blank (Follows-self rows)
        | inr named ↦ rw named (named-Follows (strip key) (strip owner) _ _ timestamp rows)
      ]
