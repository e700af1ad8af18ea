-- ===== src/Commands/History/Laws.antt =====
-- What every history of the command table of backend/execution_command_storage.py keeps.
use bybit_intraday_trading_b.Prelude.{
  ℕ, ◌≤◌, ◌≡◌, refl, ◌∙◌, inl, inr, String, Bool, true, false, not, ◌||◌, Option, none, some, List,
  [], ◌∷◌, ◌==◌, All, All-append, arith, leb, Bool-cases,
}
use bybit_intraday_trading_b.Python.{Fields, is_empty}
use bybit_intraday_trading_b.Commands.Types.{CommandState, is_active, allowed, Command}
use bybit_intraday_trading_b.Commands.Table.{
  find, is_occupied, slots_unique, count_active, first_available,
}
use bybit_intraday_trading_b.Commands.Table.Laws.{
  IsSound, count_active-max, update_where-All, slots_unique-append,
}
use bybit_intraday_trading_b.Commands.Storage.{
  max_active_slots, is_blank, answered, has_state, reserved_row, is_claimable, reserve, published,
  insert_unless, insert_new, refreshed_row, refresh, is_held, moved_row, move,
  publish_execution_command, refresh_stale_execution_command, claim_selected,
  claim_execution_command, transition_known, transition_named, transition_execution_command,
}
use bybit_intraday_trading_b.Commands.Storage.Laws.{
  reserved-IsSound, refreshed-IsSound, moved-IsSound,
}
use bybit_intraday_trading_b.Commands.History.{
  Step, publish, refresh as refresh_step, claim, late_claim, transition, History, nothing,
  then_step, IsTable,
}

answered-IsTable :
    (found : Option Command) (change : Command → Command) (old new : List Command)
    → IsTable old
    → All IsSound new
    → IsTable (answered found change old new).1
unfolding answered
answered-IsTable found change old new h sound = elim (Bool-cases (slots_unique new)) [
  | inl unique ↦ rw unique (sound, unique)
  | inr clash ↦ rw clash h
]

insert_unless-IsTable :
    (o : Option Command) (c : Command) (rows : List Command)
    → is_active c.state ≡ false
    → IsSound c
    → IsTable rows
    → IsTable (insert_unless o c rows).1
unfolding insert_unless
insert_unless-IsTable none c rows idle sound h =
    (All-append IsSound rows (c ∷ []) h.0 (sound, tt), slots_unique-append rows c idle ∙ h.1)
insert_unless-IsTable (some old) c rows idle sound h = h

module _ (strip upper : String → String) (before : String → String → Bool) where
  publish-IsTable :
      (key : String) (payload : Fields) (timestamp : ℕ) (rows : List Command)
      → IsTable rows
      → IsTable (publish_execution_command strip upper before key payload timestamp rows).1
  unfolding publish_execution_command insert_new
  publish-IsTable key payload timestamp rows h = elim (Bool-cases (is_empty (strip key))) [
    | inl blank ↦ rw blank h
    | inr named ↦ elim (Bool-cases (is_blank payload)) [
      | inl nothing_there ↦ rw (named, nothing_there) h
      | inr given ↦
          rw (named, given)
            (insert_unless-IsTable (find (strip key) rows) (published (strip key) payload timestamp)
              rows refl (λ e. cc, λ e. refl) h)
    ]
  ]

  refresh-IsTable :
      (key : String) (payload : Fields) (timestamp : ℕ) (rows : List Command)
      → IsTable rows
      → IsTable (refresh_stale_execution_command strip upper before key payload timestamp rows).1
  unfolding refresh_stale_execution_command refresh
  refresh-IsTable key payload timestamp rows h = elim (Bool-cases (is_empty (strip key))) [
    | inl blank ↦ rw blank h
    | inr named ↦ elim (Bool-cases (is_blank payload)) [
      | inl nothing_there ↦ rw (named, nothing_there) h
      | inr given ↦
          rw (named, given)
            (answered-IsTable _ _ rows _ h (
              update_where-All (is_claimable (strip key)) (refreshed_row payload timestamp) rows
                (λ c sound met. refreshed-IsSound payload timestamp c) h.0))
    ]
  ]

  selected-IsTable :
      (owner : String) (slot timestamp : ℕ) (o : Option Command) (rows : List Command)
      → 1 ≤ slot
      → slot ≤ 3
      → IsTable rows
      → IsTable (claim_selected strip upper before owner slot timestamp o rows).1
  unfolding claim_selected reserve
  selected-IsTable owner slot timestamp none rows low high h = h
  selected-IsTable owner slot timestamp (some c) rows low high h = answered-IsTable _ _ rows _ h (
      update_where-All (is_claimable c.candidate_key) (reserved_row slot owner timestamp) rows
        (λ d sound met. reserved-IsSound owner slot timestamp d low high) h.0)

  claim-IsTable :
      (owner : String) (slot timestamp : ℕ) (rows : List Command)
      → IsTable rows
      → IsTable (claim_execution_command strip upper before owner slot timestamp rows).1
  unfolding claim_execution_command
  claim-IsTable owner slot timestamp rows h = elim (Bool-cases (is_empty (strip owner))) [
    | inl blank ↦ rw blank h
    | inr named ↦ elim (Bool-cases (not (slot == 1 || (slot == 2 || slot == 3)))) [
      | inl beyond ↦ rw (named, beyond) h
      | inr within ↦
          elim (Bool-cases (is_occupied slot rows || leb max_active_slots (count_active rows))) [
            | inl full ↦ rw (named, within, full) h
            | inr free ↦
                rw (named, within, free)
                  (selected-IsTable (strip owner) slot timestamp (first_available before rows) rows
                    (ground (arith, within)) (ground (arith, within)) h)
          ]
    ]
  ]

  known-IsTable :
      (key owner : String) (expected target : CommandState) (timestamp : ℕ) (rows : List Command)
      → IsTable rows
      → IsTable (transition_known strip upper before key owner expected target timestamp rows).1
  unfolding transition_known move
  known-IsTable key owner expected target timestamp rows h =
      elim (Bool-cases (has_state target (allowed expected))) [
        | inl permitted ↦ rw permitted (
            answered-IsTable _ _ rows _ h (
              update_where-All (is_held key owner expected) (moved_row target timestamp) rows
                (moved-IsSound key owner expected target timestamp permitted) h.0))
        | inr refused ↦ rw refused h
      ]

  transition-IsTable :
      (key owner : String) (expected next : Option CommandState) (timestamp : ℕ)
      (rows : List Command)
      → IsTable rows
      → IsTable (transition_named strip upper before key owner expected next timestamp rows).1
  unfolding transition_named
  transition-IsTable key owner (some expected) (some next) timestamp rows h =
      known-IsTable key owner expected next timestamp rows h
  transition-IsTable key owner none next timestamp rows h = h
  transition-IsTable key owner (some expected) none timestamp rows h = h

  Step-IsTable :
      {rows after : List Command}
      → Step strip upper before rows after
      → IsTable rows
      → IsTable after
  unfolding transition_execution_command
  Step-IsTable (publish key payload timestamp rows) h = publish-IsTable key payload timestamp rows h
  Step-IsTable (refresh_step key payload timestamp rows) h =
      refresh-IsTable key payload timestamp rows h
  Step-IsTable (claim owner slot timestamp rows) h = claim-IsTable owner slot timestamp rows h
  Step-IsTable (late_claim owner slot timestamp c rows low high) h =
      selected-IsTable owner slot timestamp (some c) rows low high h
  Step-IsTable (transition key owner expected next timestamp rows) h =
      elim (Bool-cases (is_empty (strip key) || is_empty (strip owner))) [
        | inl blank ↦ rw blank h
        | inr named ↦ rw named (transition-IsTable (strip key) (strip owner) _ _ timestamp rows h)
      ]

  History-IsTable : {rows : List Command} → History strip upper before rows → IsTable rows
  unfolding slots_unique
  History-IsTable nothing = (tt, refl)
  History-IsTable (then_step past step) = Step-IsTable step (History-IsTable past)

  -- In every history of the table, claims that race included, at most three commands are active,
  -- no two active rows share a slot, every active row has a slot from 1 to 3, and an available
  -- row has no owner.
  pub at_most_three_active :
      {rows : List Command}
      → History strip upper before rows
      → (count_active rows ≤ 3) × (slots_unique rows ≡ true) × All IsSound rows
  at_most_three_active {rows} past =
      let (sound, unique) = History-IsTable past in
      (count_active-max rows sound unique, unique, sound)
