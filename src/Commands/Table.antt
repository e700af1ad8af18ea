-- ===== src/Commands/Table.antt =====
-- The SQL statements of backend/execution_command_storage.py, on the table as a list of its rows.
pub mod Find
pub mod Laws
use bybit_intraday_trading_b.Prelude.{
  ℕ, ◌+◌, String, Bool, true, false, not, ◌&&◌, ◌||◌, Option, none, some, List, [], ◌∷◌, ◌==◌, ltb,
  str_eq, if◌then◌else◌,
}
use bybit_intraday_trading_b.Commands.Types.{is_active, is_available, Command}

-- `candidate_key=%s`
unfoldable pub has_key : String → Command → Bool
has_key key c = str_eq c.candidate_key key

-- `SELECT … WHERE candidate_key=%s`
unfoldable pub find : String → List Command → Option Command
find key [] = none
find key (c ∷ rows) = let later = find key rows in if has_key key c then some c else later

-- `slot_id=%s AND state IN (…)`: NULL equals nothing
abbrev pub same_slot : Option ℕ → ℕ → Bool
same_slot none slot = false
same_slot (some n) slot = n == slot

abbrev pub occupies : ℕ → Command → Bool
occupies slot c = is_active c.state && same_slot c.slot_id slot

unfoldable pub is_occupied : ℕ → List Command → Bool
is_occupied slot [] = false
is_occupied slot (c ∷ rows) = occupies slot c || is_occupied slot rows

-- whether the slot of a row, active or not, is used again by a row of the list
abbrev pub used_again : Bool → Option ℕ → List Command → Bool
used_again active none rows = false
used_again active (some n) rows = active && is_occupied n rows

-- the unique index `ux_execution_commands_active_slot` holds
unfoldable pub slots_unique : List Command → Bool
slots_unique [] = true
slots_unique (c ∷ rows) = not (used_again (is_active c.state) c.slot_id rows) && slots_unique rows

-- `SELECT COUNT(*) … WHERE state IN (…)`
unfoldable pub count_active : List Command → ℕ
count_active [] = 0
count_active (c ∷ rows) =
    let rest = count_active rows in if is_active c.state then rest + 1 else rest

-- `UPDATE … WHERE`: each row that meets the condition is changed
unfoldable pub update_where : (Command → Bool) → (Command → Command) → List Command → List Command
update_where condition change [] = []
update_where condition change (c ∷ rows) =
    (if condition c then change c else c) ∷ update_where condition change rows

-- the first row that meets the condition, for `RETURNING`
unfoldable pub first_where : (Command → Bool) → List Command → Option Command
first_where condition [] = none
first_where condition (c ∷ rows) =
    let later = first_where condition rows in if condition c then some c else later

-- `before` is the order of text in the database
module _ (before : String → String → Bool) where
  -- `ORDER BY created_at,candidate_key`
  unfoldable pub comes_first : Command → Command → Bool
  comes_first c d =
      ltb c.created_at d.created_at
      || (c.created_at == d.created_at && not (before d.candidate_key c.candidate_key))

  abbrev pub earlier : Command → Option Command → Command
  earlier c none = c
  earlier c (some d) = if comes_first c d then c else d

  -- `WHERE state='AVAILABLE' ORDER BY created_at,candidate_key LIMIT 1`
  unfoldable pub first_available : List Command → Option Command
  first_available [] = none
  first_available (c ∷ rows) =
      let rest = first_available rows in
      if is_available c.state then some (earlier c rest) else rest

  -- insertion into an ordered list
  unfoldable pub insert_ordered : Command → List Command → List Command
  insert_ordered c [] = c ∷ []
  insert_ordered c (d ∷ rows) =
      let rest = insert_ordered c rows in if comes_first c d then c ∷ (d ∷ rows) else d ∷ rest

  unfoldable pub ordered : List Command → List Command
  ordered [] = []
  ordered (c ∷ rows) = insert_ordered c (ordered rows)
