-- ===== src/Commands/Storage/Roundtrip.antt =====
-- Publishing a command and reading it back, in backend/execution_command_storage.py.
use bybit_intraday_trading_b.Prelude.{
  ℕ, ◌≡◌, ◌∙◌, refl, sym, ap, inl, inr, String, Bool, true, false, Option, none, some, List, [],
  ◌∷◌, ◌++◌, str_eq, if◌then◌else◌, Bool-cases, Option-cases, eq_iff,
}
use bybit_intraday_trading_b.Python.{Fields, is_empty}
use bybit_intraday_trading_b.Commands.Types.{Command, Answer, returns}
use bybit_intraday_trading_b.Commands.Table.{has_key, find}
use bybit_intraday_trading_b.Commands.Table.Find.{find-append_hit, find-append_miss}
use bybit_intraday_trading_b.Commands.Storage.{
  is_blank, published, insert_unless, insert_new, publish_execution_command, get_execution_command,
}

-- the row that a key has after a publication, from the one that it had
abbrev pub first_row : Option Command → Command → Command
first_row none new = new
first_row (some old) new = old

abbrev pub is_new : Option Command → Bool
is_new none = true
is_new (some old) = false

module _ (strip upper : String → String) (before : String → String → Bool) (key : String)
    (payload : Fields) (timestamp : ℕ) (rows : List Command) where
  abbrev old : Option Command
  old = get_execution_command strip upper before key rows

  abbrev new : Command
  new = published (strip key) payload timestamp

  abbrev after : Answer Bool × List Command
  after = publish_execution_command strip upper before key payload timestamp rows

  find_published : find (strip key) (new ∷ []) ≡ some new
  unfolding find has_key
  find_published = rw ((eq_iff (strip key) (strip key)).1 refl) refl

  find_others : (other : String) → (strip key ≡ other → ⊥) → find other (new ∷ []) ≡ none
  unfolding find has_key
  find_others other differs = elim (Bool-cases (str_eq (strip key) other)) [
    | inl same ↦ absurd (differs ((eq_iff (strip key) other).0 same))
    | inr apart ↦ rw apart refl
  ]

  find_kept :
      (other : String)
      → find other (new ∷ []) ≡ none
      → find other (rows ++ (new ∷ [])) ≡ find other rows
  find_kept other none_new = elim (Option-cases (find other rows)) [
    | inl absent ↦ find-append_miss other rows (new ∷ []) absent ∙ (none_new ∙ sym absent)
    | inr (row, there) ↦ find-append_hit other rows (new ∷ []) row there ∙ sym there
  ]

  -- Where the key and the payload are not blank, a publication returns whether the key was new; what is
  -- then read under the key is the row that it had, or else the published one; and what is read under
  -- any other key is as it was.
  pub get_execution_command-publish_execution_command :
      is_empty (strip key) ≡ false
      → is_blank payload ≡ false
      → (after.0 ≡ returns (is_new old))
        × (get_execution_command strip upper before key after.1 ≡ some (first_row old new))
        × ((other : String)
            → (strip key ≡ strip other → ⊥)
            → get_execution_command strip upper before other after.1
              ≡ get_execution_command strip upper before other rows)
  unfolding publish_execution_command get_execution_command insert_new insert_unless
  get_execution_command-publish_execution_command named given =
      elim (Option-cases (find (strip key) rows)) [
        | inl absent ↦
            rw (named, given, absent)
              (
                refl,
                find-append_miss (strip key) rows (new ∷ []) absent ∙ find_published,
                λ other differs.
                    ap (λ found. if is_empty (strip other) then none else found)
                      (find_kept (strip other) (find_others (strip other) differs)),
              )
        | inr (row, there) ↦ rw (named, given, there) (refl, there, λ other differs. refl)
      ]
