-- ===== src/Outbox/Mirror/Outcome.antt =====
-- What `_mirror_postgres` of backend/execution_command_outbox.py does with one candidate that meets no
-- fault.
use bybit_intraday_trading_b.Prelude.{
  ℕ, ◌≡◌, refl, ◌∙◌, String, true, false, Option, none, some, [], ◌∷◌, ◌++◌, str_eq, if◌then◌else◌,
  eq_iff,
}
use bybit_intraday_trading_b.Python.{Fields, end, field, get, is_empty}
use bybit_intraday_trading_b.Commands.Types.{Command}
use bybit_intraday_trading_b.Commands.Table.{has_key, find}
use bybit_intraday_trading_b.Commands.Storage.{
  is_blank, published as published_row, insert_unless, insert_new, publish_execution_command,
  get_execution_command,
}
use bybit_intraday_trading_b.Outbox.Types.{no_fault, Env}
use bybit_intraday_trading_b.Outbox.Validation.{unless◌report◌then◌, validation_error}
use bybit_intraday_trading_b.Outbox.Mirror.{
  Mirroring, note_waiting, note_conflict, note_mirrored, set_table, mirrored_row, conflict_row,
  publish, mirror_stored, mirror_written, mirror_answer, mirror_checked, mirror_one,
}
use bybit_intraday_trading_b.Outbox.Mirror.Refines.{command_key}
use bybit_intraday_trading_b.Commands.Table.Find.{find-append_miss}

module _ (env : Env) where
  open env use {py}

  -- what becomes of a valid candidate, by the command that the table has under its key
  abbrev pub mirrored_as : ℕ → Fields → Option Command → Mirroring → Mirroring
  mirrored_as timestamp c none s =
      let key = command_key env c in
      let row = published_row (py.strip key) c timestamp in
      note_mirrored true (mirrored_row key c row true) (set_table (s.table ++ (row ∷ [])) s)
  mirrored_as timestamp c (some old) s =
      if str_eq (env.canonical old.payload) (env.canonical c)
      then note_mirrored false (mirrored_row (command_key env c) c old false) s
      else note_conflict (note_waiting (conflict_row c) s)

  valid_filled : (c : Fields) → validation_error env c ≡ none → is_blank c ≡ false
  unfolding validation_error get
  valid_filled end h = cc
  valid_filled (field k v d) h = refl

  own_key :
      (timestamp : ℕ) (key : String) (c : Fields)
      → find key (published_row key c timestamp ∷ []) ≡ some (published_row key c timestamp)
  unfolding find has_key
  own_key timestamp key c =
      let same : str_eq key key ≡ true = (eq_iff key key).1 refl in rw same refl

  stored-mirrored_as :
      (timestamp : ℕ) (c : Fields) (s : Mirroring)
      → is_empty (py.strip (command_key env c)) ≡ false
      → is_blank c ≡ false
      → (o : Option Command) → find (py.strip (command_key env c)) s.table ≡ o
      → mirror_answer env no_fault
          (command_key env c)
          c
          (publish env (command_key env c) c timestamp s.table)
          s
        ≡ mirrored_as timestamp c o s
  unfolding mirror_answer mirror_written mirror_stored publish_execution_command insert_new
      insert_unless get_execution_command set_table
  stored-mirrored_as timestamp c s named given none new =
      let key = py.strip (command_key env c) in
      let same : str_eq (env.canonical c) (env.canonical c) ≡ true = (eq_iff _ _).1 refl in
      let there =
        find-append_miss key s.table (published_row key c timestamp ∷ []) new
        ∙ own_key timestamp key c in
      rw (named, given, new, named, there, same) refl
  stored-mirrored_as timestamp c s named given (some old) there =
      rw (named, given, there, named, there) refl

  -- A valid candidate whose key is not blank and that meets no fault is published where the table
  -- has no command under the key, counted as a duplicate where it has one with the same payload, and
  -- otherwise left waiting as a conflict with the table as it was.
  pub mirror_one-mirrored_as :
      (n timestamp : ℕ) (c : Fields) (s : Mirroring)
      → validation_error env c ≡ none
      → is_empty (py.strip (command_key env c)) ≡ false
      → env.fault n ≡ no_fault
      → mirror_one env n timestamp c s
        ≡ mirrored_as timestamp c (find (py.strip (command_key env c)) s.table) s
  unfolding mirror_one mirror_checked
  mirror_one-mirrored_as n timestamp c s valid named safe =
      rw (valid, safe) (stored-mirrored_as timestamp c s named (valid_filled c valid) _ refl)
