-- ===== src/Commands/Storage.antt =====
-- The methods of `ExecutionCommandStorageMixin` of backend/execution_command_storage.py. A method is
-- one transaction; a transaction that raises leaves the table as it was.
pub mod Laws
pub mod Roundtrip
use bybit_intraday_trading_b.Prelude.{
  ℕ, zero, suc, ◌+◌, String, Bool, true, false, not, ◌&&◌, ◌||◌, Option, none, some, List, [], ◌∷◌,
  ◌++◌, ◌==◌, leb, min, max, str_eq, if◌then◌else◌,
}
use bybit_intraday_trading_b.Prelude.Int.{ℤ, pos, negsuc}
use bybit_intraday_trading_b.Python.{Fields, end, field, is_empty}
use bybit_intraday_trading_b.Commands.Types.{
  CommandState, available, reserved, is_available, allowed, state_name, named_in, all_states,
  Command, value_error, unique_violation, Answer, returns, raises,
}
use bybit_intraday_trading_b.Commands.Table.{
  has_key, find, is_occupied, slots_unique, count_active, update_where, first_where,
  first_available, ordered,
}

-- `MAX_ACTIVE_SLOTS`
abbrev pub max_active_slots : ℕ
max_active_slots = 3

-- `not payload`, for a dict
abbrev pub is_blank : Fields → Bool
is_blank end = true
is_blank (field key value rest) = false

-- the answer of an `UPDATE` with `RETURNING`, and the table: the first of the rows that it changes,
-- as it is changed, unless the new table breaks the index
unfoldable pub answered :
    Option Command
    → (Command → Command)
    → List Command
    → List Command
    → Answer (Option Command) × List Command
answered found change old new =
    if slots_unique new
    then (returns (elim found [ none ↦ none | some c ↦ some (change c) ]), new)
    else (raises unique_violation, old)

abbrev pub is_state : CommandState → CommandState → Bool
is_state s t = str_eq (state_name s) (state_name t)

-- `target in …`, `state IN (…)`
unfoldable pub has_state : CommandState → List CommandState → Bool
has_state s [] = false
has_state s (t ∷ states) = is_state s t || has_state s states

-- `WHERE state IN (…)`, where states are asked for
unfoldable pub selected : List CommandState → List Command → List Command
selected states [] = []
selected [] (c ∷ rows) = c ∷ selected [] rows
selected (s ∷ states) (c ∷ rows) =
    let rest = selected (s ∷ states) rows in
    if has_state c.state (s ∷ states) then c ∷ rest else rest

-- `max(1, min(1000, int(limit)))`
unfoldable pub bounded_limit : ℤ → ℕ
bounded_limit (pos n) = max 1 (min 1000 n)
bounded_limit (negsuc n) = 1

-- `LIMIT %s`
unfoldable pub take : ℕ → List Command → List Command
take zero rows = []
take (suc n) [] = []
take (suc n) (c ∷ rows) = c ∷ take n rows

-- the row that the `UPDATE` of a claim writes
unfoldable pub reserved_row : ℕ → String → ℕ → Command → Command
reserved_row slot owner timestamp c = record c {
  state = reserved;
  slot_id = some slot;
  owner_id = some owner;
  updated_at = timestamp;
}

-- `WHERE candidate_key=%s AND state='AVAILABLE'`
abbrev pub is_claimable : String → Command → Bool
is_claimable key c = has_key key c && is_available c.state

-- the `UPDATE` of a claim
unfoldable pub reserve : String → ℕ → String → ℕ → List Command → List Command
reserve key slot owner timestamp rows =
    update_where (is_claimable key) (reserved_row slot owner timestamp) rows

-- the row that `publish_execution_command` inserts
abbrev pub published : String → Fields → ℕ → Command
published key payload timestamp = record {
  candidate_key = key;
  slot_id = none;
  state = available;
  payload = payload;
  owner_id = none;
  created_at = timestamp;
  updated_at = timestamp;
}

-- `ON CONFLICT(candidate_key) DO NOTHING`, given the row that has the key
unfoldable pub insert_unless : Option Command → Command → List Command → Bool × List Command
insert_unless none c rows = (true, rows ++ (c ∷ []))
insert_unless (some old) c rows = (false, rows)

unfoldable pub insert_new : Command → List Command → Bool × List Command
insert_new c rows = insert_unless (find c.candidate_key rows) c rows

-- the row that `refresh_stale_execution_command` writes
unfoldable pub refreshed_row : Fields → ℕ → Command → Command
refreshed_row payload timestamp c = record c {
  state = available;
  slot_id = none;
  owner_id = none;
  payload = payload;
  updated_at = timestamp;
}

unfoldable pub refresh : String → Fields → ℕ → List Command → List Command
refresh key payload timestamp rows =
    update_where (is_claimable key) (refreshed_row payload timestamp) rows

abbrev pub is_owner : String → Option String → Bool
is_owner owner none = false
is_owner owner (some o) = str_eq o owner

-- `WHERE candidate_key=%s AND owner_id=%s AND state=%s`
abbrev pub is_held : String → String → CommandState → Command → Bool
is_held key owner expected c =
    has_key key c && (is_owner owner c.owner_id && is_state expected c.state)

unfoldable pub moved_row : CommandState → ℕ → Command → Command
moved_row target timestamp c = record c { state = target; updated_at = timestamp }

-- the `UPDATE` of a transition
unfoldable pub move :
    String → String → CommandState → CommandState → ℕ → List Command → List Command
move key owner expected target timestamp rows =
    update_where (is_held key owner expected) (moved_row target timestamp) rows

-- `strip`, `upper` are the methods of text, `before` the order of text in the database
module _ (strip upper : String → String) (before : String → String → Bool) where
  unfoldable pub publish_execution_command :
      String → Fields → ℕ → List Command → Answer Bool × List Command
  publish_execution_command candidate_key payload timestamp rows =
      if is_empty (strip candidate_key)
      then (raises (value_error "candidate_key is required"), rows)
      else if is_blank payload
      then (raises (value_error "immutable Step-8 payload is required"), rows)
      else let inserted = insert_new (published (strip candidate_key) payload timestamp) rows in
        (returns inserted.0, inserted.1)

  unfoldable pub get_execution_command : String → List Command → Option Command
  get_execution_command candidate_key rows =
      if is_empty (strip candidate_key) then none else find (strip candidate_key) rows

  -- the rows that an `UPDATE` with `RETURNING` gives back, of which the first is fetched
  unfoldable pub refresh_stale_execution_command :
      String → Fields → ℕ → List Command → Answer (Option Command) × List Command
  refresh_stale_execution_command candidate_key payload timestamp rows =
      if is_empty (strip candidate_key)
      then (raises (value_error "candidate_key is required"), rows)
      else if is_blank payload
      then (raises (value_error "fresh Step-8 payload is required"), rows)
      else answered (first_where (is_claimable (strip candidate_key)) rows)
          (refreshed_row payload timestamp) rows
          (refresh (strip candidate_key) payload timestamp rows)

  -- the states that the caller names; a name that is no state is left out
  unfoldable pub normalized : List String → List CommandState
  normalized [] = []
  normalized (name ∷ names) =
      let rest = normalized names in
      elim (named_in all_states (upper name)) [ none ↦ rest | some s ↦ s ∷ rest ]

  unfoldable pub list_execution_commands : List String → ℤ → List Command → List Command
  list_execution_commands states limit rows =
      take (bounded_limit limit) (ordered before (selected (normalized states) rows))

  -- the last part of `claim_execution_command`: the `UPDATE` of the row that was selected
  unfoldable pub claim_selected :
      String → ℕ → ℕ → Option Command → List Command → Answer (Option Command) × List Command
  claim_selected owner slot timestamp none rows = (returns none, rows)
  claim_selected owner slot timestamp (some c) rows =
      answered (first_where (is_claimable c.candidate_key) rows) (reserved_row slot owner timestamp)
        rows (reserve c.candidate_key slot owner timestamp rows)

  unfoldable pub claim_execution_command :
      String → ℕ → ℕ → List Command → Answer (Option Command) × List Command
  claim_execution_command owner_id slot timestamp rows =
      if is_empty (strip owner_id)
      then (raises (value_error "owner_id is required"), rows)
      else if not (slot == 1 || (slot == 2 || slot == 3))
      then (raises (value_error "slot_id must be 1, 2, or 3"), rows)
      else if is_occupied slot rows || leb max_active_slots (count_active rows)
      then (returns none, rows)
      else claim_selected (strip owner_id) slot timestamp (first_available before rows) rows

  -- the last part of `transition_execution_command`, once both states are known
  unfoldable pub transition_known :
      String
      → String
      → CommandState
      → CommandState
      → ℕ
      → List Command
      → Answer (Option Command) × List Command
  transition_known key owner expected target timestamp rows =
      if not (has_state target (allowed expected))
      then (raises (value_error "Invalid execution command transition"), rows)
      else answered (first_where (is_held key owner expected) rows) (moved_row target timestamp)
          rows (move key owner expected target timestamp rows)

  unfoldable pub transition_named :
      String
      → String
      → Option CommandState
      → Option CommandState
      → ℕ
      → List Command
      → Answer (Option Command) × List Command
  transition_named key owner (some expected) (some target) timestamp rows =
      transition_known key owner expected target timestamp rows
  transition_named key owner none target timestamp rows =
      (raises (value_error "Invalid execution command transition"), rows)
  transition_named key owner (some expected) none timestamp rows =
      (raises (value_error "Invalid execution command transition"), rows)

  unfoldable pub transition_execution_command :
      String → String → String → String → ℕ → List Command → Answer (Option Command) × List Command
  transition_execution_command candidate_key owner_id expected_state next_state timestamp rows =
      if is_empty (strip candidate_key) || is_empty (strip owner_id)
      then (raises (value_error "candidate_key and owner_id are required"), rows)
      else transition_named (strip candidate_key) (strip owner_id)
          (named_in all_states (upper expected_state)) (named_in all_states (upper next_state))
          timestamp rows
