-- ===== src/Commands/Table/Find.antt =====
-- Looking up a key in the table of backend/execution_command_storage.py after rows were added.
use bybit_intraday_trading_b.Prelude.{
  ◌≡◌, refl, inl, inr, String, none, some, List, [], ◌∷◌, ◌++◌, Bool-cases,
}
use bybit_intraday_trading_b.Commands.Types.{Command}
use bybit_intraday_trading_b.Commands.Table.{has_key, find}

pub find-append_hit :
    (key : String) (rows more : List Command) (d : Command)
    → find key rows ≡ some d
    → find key (rows ++ more) ≡ some d
unfolding find
find-append_hit key [] more d h = cc
find-append_hit key (c ∷ rows) more d h = elim (Bool-cases (has_key key c)) [
  | inl here ↦ rw here (rw here at h)
  | inr other ↦ rw other (find-append_hit key rows more d (rw other at h))
]

pub find-append_miss :
    (key : String) (rows more : List Command)
    → find key rows ≡ none
    → find key (rows ++ more) ≡ find key more
unfolding find
find-append_miss key [] more h = refl
find-append_miss key (c ∷ rows) more h = elim (Bool-cases (has_key key c)) [
  | inl here ↦ cc (rw here at h)
  | inr other ↦ rw other (find-append_miss key rows more (rw other at h))
]
