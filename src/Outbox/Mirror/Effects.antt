-- ===== src/Outbox/Mirror/Effects.antt =====
-- What one candidate does to the table and the counts of `_mirror_postgres` of
-- backend/execution_command_outbox.py.
use bybit_intraday_trading_b.Prelude.{
  ℕ, ◌+◌, ◌≤◌, ◌≡◌, refl, ap, inl, inr, String, Bool, true, false, Option, none, some, List, [],
  ◌∷◌, arith, length, str_eq, Bool-cases, length-append,
}
use bybit_intraday_trading_b.Python.{Fields, get, is_empty}
use bybit_intraday_trading_b.Commands.Types.{
  Command, Answer, returns as succeeds, raises as refuses,
}
use bybit_intraday_trading_b.Commands.Table.{find}
use bybit_intraday_trading_b.Commands.Storage.{
  is_blank, published as published_row, insert_unless, insert_new, publish_execution_command,
}
use bybit_intraday_trading_b.Outbox.Types.{Fault, no_fault, write_fails, read_fails, Env}
use bybit_intraday_trading_b.Outbox.Validation.{validation_error}
use bybit_intraday_trading_b.Outbox.Mirror.{
  Mirroring, note_waiting, note_conflict, note_mirrored, set_table, retry_later, publish, read_back,
  mirror_stored, mirror_written, mirror_answer, mirror_checked, mirror_one,
}

-- a table with at most one row added
abbrev pub IsWritten : Bool → List Command → List Command → Type 0
IsWritten true old new = length new ≡ length old + 1
IsWritten false old new = new ≡ old

-- what `publish_execution_command` answers
abbrev pub IsAnswer : List Command → Answer Bool × List Command → Type 0
IsAnswer old (refuses failure, new) = new ≡ old
IsAnswer old (succeeds created, new) = IsWritten created old new

insert_unless-IsWritten :
    (o : Option Command) (c : Command) (rows : List Command)
    → IsWritten (insert_unless o c rows).0 rows (insert_unless o c rows).1
unfolding insert_unless
insert_unless-IsWritten none c rows = length-append rows (c ∷ [])
insert_unless-IsWritten (some old) c rows = refl

-- the counts before and after one candidate
pub record Change (s after : Mirroring) : Type 0 where
  pub one_row : length after.rows ≡ length s.rows + 1
  pub one_count :
      after.published + (after.duplicates + after.waiting)
      ≡ s.published + (s.duplicates + s.waiting) + 1
  pub conflicts_wait : after.conflicts + s.waiting ≤ s.conflicts + after.waiting
  pub grows : length s.table + after.published ≤ length after.table + s.published
  pub grows_at_most :
      length after.table + (s.published + s.waiting)
      ≤ length s.table + (after.published + after.waiting)

waiting-Change :
    (row : Fields) (created : Bool) (new : List Command) (s : Mirroring)
    → IsWritten created s.table new
    → Change s (note_waiting row (set_table new s))
unfolding note_waiting set_table
waiting-Change row true new s w = record {
  one_row = length-append s.rows _;
  one_count = omega arith;
  conflicts_wait = omega arith;
  grows = omega (arith, w);
  grows_at_most = omega (arith, w);
}
waiting-Change row false new s w = record {
  one_row = length-append s.rows _;
  one_count = omega arith;
  conflicts_wait = omega arith;
  grows = omega (arith, ap length w);
  grows_at_most = omega (arith, ap length w);
}

conflict-Change :
    (row : Fields) (created : Bool) (new : List Command) (s : Mirroring)
    → IsWritten created s.table new
    → Change s (note_conflict (note_waiting row (set_table new s)))
unfolding note_conflict note_waiting set_table
conflict-Change row true new s w = record {
  one_row = length-append s.rows _;
  one_count = omega arith;
  conflicts_wait = omega arith;
  grows = omega (arith, w);
  grows_at_most = omega (arith, w);
}
conflict-Change row false new s w = record {
  one_row = length-append s.rows _;
  one_count = omega arith;
  conflicts_wait = omega arith;
  grows = omega (arith, ap length w);
  grows_at_most = omega (arith, ap length w);
}

mirrored-Change :
    (row : Fields) (created : Bool) (new : List Command) (s : Mirroring)
    → IsWritten created s.table new
    → Change s (note_mirrored created row (set_table new s))
unfolding note_mirrored set_table
mirrored-Change row true new s w = record {
  one_row = length-append s.rows _;
  one_count = omega arith;
  conflicts_wait = omega arith;
  grows = omega (arith, w);
  grows_at_most = omega (arith, w);
}
mirrored-Change row false new s w = record {
  one_row = length-append s.rows _;
  one_count = omega arith;
  conflicts_wait = omega arith;
  grows = omega (arith, ap length w);
  grows_at_most = omega (arith, ap length w);
}

module _ (env : Env) where
  open env use {py}

  publish-IsAnswer :
      (key : String) (c : Fields) (timestamp : ℕ) (rows : List Command)
      → IsAnswer rows (publish env key c timestamp rows)
  unfolding publish_execution_command insert_new
  publish-IsAnswer key c timestamp rows = elim (Bool-cases (is_empty (py.strip key))) [
    | inl blank ↦ rw blank refl
    | inr named ↦ elim (Bool-cases (is_blank c)) [
      | inl nothing_there ↦ rw (named, nothing_there) refl
      | inr given ↦
          rw (named, given)
            (insert_unless-IsWritten (find (py.strip key) rows)
              (published_row (py.strip key) c timestamp) rows)
    ]
  ]

  mirror_stored-Change :
      (key : String) (c : Fields) (created : Bool) (o : Option Command) (new : List Command)
      (s : Mirroring)
      → IsWritten created s.table new
      → Change s (mirror_stored env key c created o (set_table new s))
  unfolding mirror_stored
  mirror_stored-Change key c created none new s w = waiting-Change _ created new s w
  mirror_stored-Change key c created (some d) new s w =
      elim (Bool-cases (str_eq (env.canonical d.payload) (env.canonical c))) [
        | inl same ↦ rw same (mirrored-Change _ created new s w)
        | inr other ↦ rw other (conflict-Change _ created new s w)
      ]

  mirror_written-Change :
      (fault : Fault) (key : String) (c : Fields) (created : Bool) (new : List Command)
      (s : Mirroring)
      → IsWritten created s.table new
      → Change s (mirror_written env fault key c created new s)
  unfolding mirror_written retry_later
  mirror_written-Change no_fault key c created new s w =
      mirror_stored-Change key c created (read_back env key new) new s w
  mirror_written-Change (read_fails text) key c created new s w = waiting-Change _ created new s w
  mirror_written-Change (write_fails true text) key c created new s w =
      waiting-Change _ created new s w
  mirror_written-Change (write_fails false text) key c created new s w =
      waiting-Change _ false s.table s refl

  mirror_answer-Change :
      (fault : Fault) (key : String) (c : Fields) (a : Answer Bool) (new : List Command)
      (s : Mirroring)
      → IsAnswer s.table (a, new)
      → Change s (mirror_answer env fault key c (a, new) s)
  unfolding mirror_answer retry_later set_table
  mirror_answer-Change fault key c (refuses failure) new s w = waiting-Change _ false s.table s refl
  mirror_answer-Change fault key c (succeeds created) new s w =
      mirror_written-Change fault key c created new s w

  mirror_checked-Change :
      (n timestamp : ℕ) (c : Fields) (error : Option String) (s : Mirroring)
      → Change s (mirror_checked env n timestamp c error s)
  unfolding mirror_checked set_table
  mirror_checked-Change n timestamp c (some error) s = waiting-Change _ false s.table s refl
  mirror_checked-Change n timestamp c none s =
      let key = py.to_str (get "candidateKey" c) in
      let answer = publish env key c timestamp s.table in
      mirror_answer-Change (env.fault n) key c answer.0 answer.1 s
        (publish-IsAnswer key c timestamp s.table)

  pub mirror_one-Change :
      (n timestamp : ℕ) (c : Fields) (s : Mirroring) → Change s (mirror_one env n timestamp c s)
  unfolding mirror_one
  mirror_one-Change n timestamp c s = mirror_checked-Change n timestamp c (validation_error env c) s
