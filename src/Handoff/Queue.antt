-- ===== src/Handoff/Queue.antt =====
-- `remove_exact_candidate` of backend/setup_queue_transaction.py on the queue of the setup worker,
-- which has no `remove_confirmed` of its own, and `_queue_candidate` of backend/setup_worker.py.
use bybit_intraday_trading_b.Prelude.{
  ℕ, ◌-◌, String, Bool, true, false, Option, none, some, List, [], ◌∷◌, ◌++◌, str_eq, length, drop,
  if◌then◌else◌,
}
use bybit_intraday_trading_b.Python.{Fields, Python, get, str_or_empty, is_empty}
use bybit_intraday_trading_b.Handoff.Types.{lit, Reason}

module _ (py : Python) where
  -- `str(row.get("candidateKey") or "")`
  unfoldable pub key_of : Fields → String
  key_of row = str_or_empty py (get "candidateKey" row)

  -- `queue.pop(index)` at the first row with the key; `none` if there is no such row
  unfoldable pub pop_first : String → List Fields → Option (List Fields)
  pop_first key [] = none
  pop_first key (row ∷ rows) =
      let rest = pop_first key rows in
      if str_eq (key_of row) key
      then some rows
      else elim rest [ none ↦ none | some left ↦ some (row ∷ left) ]

  unfoldable pub remove_exact_candidate : String → List Fields → (Bool × Reason) × List Fields
  remove_exact_candidate key queue =
      if is_empty key
      then ((false, lit "Candidate key is missing." ∷ []), queue)
      else elim (pop_first key queue) [
        | none ↦ ((true, lit "matching candidate already absent" ∷ []), queue)
        | some left ↦ ((true, lit "matching candidate removed" ∷ []), left)
      ]

  -- `any(row.get("candidateKey") == key for row in queue)`, where keys are texts
  unfoldable pub has_key : String → List Fields → Bool
  has_key key [] = false
  has_key key (row ∷ rows) =
      let rest = has_key key rows in if str_eq (key_of row) key then true else rest

  -- `_queue_candidate`: `queue[-queue_limit:]` keeps the newest `queue_limit` rows
  unfoldable pub queue_candidate : ℕ → Fields → List Fields → Bool × List Fields
  queue_candidate queue_limit candidate queue =
      if has_key (key_of candidate) queue
      then (false, queue)
      else let longer = queue ++ (candidate ∷ []) in
        (true, drop (length longer - queue_limit) longer)
