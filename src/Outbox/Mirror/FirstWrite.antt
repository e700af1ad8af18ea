-- ===== src/Outbox/Mirror/FirstWrite.antt =====
-- What `_mirror_postgres` of backend/execution_command_outbox.py makes of the command table, as a
-- map from keys to commands.
use bybit_intraday_trading_b.Prelude.{
  ℕ, ◌≡◌, ◌⊎◌, refl, ap, sym, subst, inl, inr, String, Bool, Option, none, some, List, [], ◌∷◌,
  ◌++◌, str_eq, Bool-cases, Option-cases, eq_iff, Among,
}
use bybit_intraday_trading_b.Python.{Fields, is_empty}
use bybit_intraday_trading_b.Commands.Types.{Command}
use bybit_intraday_trading_b.Commands.Table.{has_key, find}
use bybit_intraday_trading_b.Commands.Table.Find.{find-append_hit, find-append_miss}
use bybit_intraday_trading_b.Commands.Storage.{
  is_blank, published as published_row, insert_unless, insert_new, publish_execution_command,
}
use bybit_intraday_trading_b.Outbox.Types.{Store, Env}
use bybit_intraday_trading_b.Outbox.Validation.{validation_error}
use bybit_intraday_trading_b.Outbox.Mirror.{mirror_postgres}
use bybit_intraday_trading_b.Outbox.Mirror.Refines.{
  command_key, with_candidate, Publishes, finished, skipped, written, mirror_postgres-Publishes,
}

-- a publication leaves the table or adds a row with a new key
publish-cases :
    (strip upper : String → String) (before : String → String → Bool) (key : String) (d : Fields)
    (timestamp : ℕ) (rows : List Command)
    → ((publish_execution_command strip upper before key d timestamp rows).1 ≡ rows)
      ⊎ ((find (strip key) rows ≡ none)
          × ((publish_execution_command strip upper before key d timestamp rows).1
              ≡ rows ++ (published_row (strip key) d timestamp ∷ [])))
unfolding publish_execution_command insert_new insert_unless
publish-cases strip upper before key d timestamp rows = elim (Bool-cases (is_empty (strip key))) [
  | inl blank ↦ inl (rw blank refl)
  | inr named ↦ elim (Bool-cases (is_blank d)) [
    | inl nothing_there ↦ inl (rw (named, nothing_there) refl)
    | inr given ↦ elim (Option-cases (find (strip key) rows)) [
      | inl new ↦ inr (new, rw (named, given, new) refl)
      | inr (old, there) ↦ inl (rw (named, given, there) refl)
    ]
  ]
]

module _ (env : Env) where
  open env use {py}

  -- The row under a key afterwards: the one that was there; else none, or the available command of a
  -- valid candidate with the key.
  abbrev pub IsFirstWrite : ℕ → List Fields → String → Option Command → Option Command → Type 0
  IsFirstWrite timestamp cs key (some old) new = new ≡ some old
  IsFirstWrite timestamp cs key none new =
      (new ≡ none)
      ⊎ ((c : Fields) × Among c cs
          × (validation_error env c ≡ none)
          × (py.strip (command_key env c) ≡ key)
          × (new ≡ some (published_row key c timestamp)))

  insert-IsFirstWrite :
      (timestamp : ℕ) (c : Fields) (cs : List Fields) (key : String) (rows : List Command)
      → validation_error env c ≡ none
      → find (py.strip (command_key env c)) rows ≡ none
      → (o : Option Command) → find key rows ≡ o
      → IsFirstWrite timestamp
          (c ∷ cs)
          key
          o
          (find key (rows ++ (published_row (py.strip (command_key env c)) c timestamp ∷ [])))
  unfolding find has_key
  insert-IsFirstWrite timestamp c cs key rows valid new (some d) e = find-append_hit key rows _ d e
  insert-IsFirstWrite timestamp c cs key rows valid new none e =
      rw
        (find-append_miss key rows (published_row (py.strip (command_key env c)) c timestamp ∷ [])
          e)
        (elim (Bool-cases (str_eq (py.strip (command_key env c)) key)) [
          | inl same ↦
              let at : py.strip (command_key env c) ≡ key = (eq_iff _ _).0 same in
              rw same
                (inr (c, inl refl, valid, at, ap (λ k. some (published_row k c timestamp)) at))
          | inr other ↦ rw other (inl refl)
        ])

  same-IsFirstWrite :
      (timestamp : ℕ) (cs : List Fields) (key : String) (o : Option Command)
      → IsFirstWrite timestamp cs key o o
  same-IsFirstWrite timestamp cs key none = inl refl
  same-IsFirstWrite timestamp cs key (some d) = refl

  with_candidate-cases :
      (timestamp : ℕ) (c : Fields) (rows : List Command)
      → (with_candidate env c timestamp rows ≡ rows)
        ⊎ ((find (py.strip (command_key env c)) rows ≡ none)
            × (with_candidate env c timestamp rows
                ≡ rows ++ (published_row (py.strip (command_key env c)) c timestamp ∷ [])))
  with_candidate-cases timestamp c rows =
      publish-cases py.strip py.upper env.database_before (command_key env c) c timestamp rows

  with_candidate-IsFirstWrite :
      (timestamp : ℕ) (c : Fields) (cs : List Fields) (key : String) (rows : List Command)
      → validation_error env c ≡ none
      → IsFirstWrite timestamp
          (c ∷ cs)
          key
          (find key rows)
          (find key (with_candidate env c timestamp rows))
  with_candidate-IsFirstWrite timestamp c cs key rows valid =
      let P : List Command → Type 0 =
        λ table. IsFirstWrite timestamp (c ∷ cs) key (find key rows) (find key table) in
      elim (with_candidate-cases timestamp c rows) [
        | inl same ↦ subst P (sym same) (same-IsFirstWrite timestamp (c ∷ cs) key (find key rows))
        | inr (new, made) ↦
            subst P (sym made)
              (insert-IsFirstWrite timestamp c cs key rows valid new (find key rows) refl)
      ]

  later-IsFirstWrite :
      (timestamp : ℕ) (c : Fields) (cs : List Fields) (key : String) (o new : Option Command)
      → IsFirstWrite timestamp cs key o new
      → IsFirstWrite timestamp (c ∷ cs) key o new
  later-IsFirstWrite timestamp c cs key (some d) new h = h
  later-IsFirstWrite timestamp c cs key none new (inl h) = inl h
  later-IsFirstWrite timestamp c cs key none new (inr (d, among, valid, at, made)) =
      inr (d, inr among, valid, at, made)

  chain-IsFirstWrite :
      (timestamp : ℕ) (c : Fields) (cs : List Fields) (key : String) (o middle new : Option Command)
      → IsFirstWrite timestamp (c ∷ cs) key o middle
      → IsFirstWrite timestamp cs key middle new
      → IsFirstWrite timestamp (c ∷ cs) key o new
  chain-IsFirstWrite timestamp c cs key (some d) middle new h next =
      subst (λ m. IsFirstWrite timestamp cs key m new) h next
  chain-IsFirstWrite timestamp c cs key none middle new (inl h) next =
      later-IsFirstWrite timestamp c cs key none new
        (subst (λ m. IsFirstWrite timestamp cs key m new) h next)
  chain-IsFirstWrite timestamp c cs key none middle new (inr (d, among, valid, named, h)) next =
      inr (d, among, valid, named, subst (λ m. IsFirstWrite timestamp cs key m new) h next)

  Publishes-IsFirstWrite :
      (timestamp : ℕ) (key : String) {cs : List Fields} {rows after : List Command}
      → Publishes env timestamp cs rows after
      → IsFirstWrite timestamp cs key (find key rows) (find key after)
  Publishes-IsFirstWrite timestamp key (finished rows) =
      same-IsFirstWrite timestamp [] key (find key rows)
  Publishes-IsFirstWrite timestamp key (skipped c {cs} rest) =
      later-IsFirstWrite timestamp c cs key _ _ (Publishes-IsFirstWrite timestamp key rest)
  Publishes-IsFirstWrite timestamp key (written c {cs} rows valid rest) =
      chain-IsFirstWrite timestamp c cs key (find key rows) _ _
        (with_candidate-IsFirstWrite timestamp c cs key rows valid)
        (Publishes-IsFirstWrite timestamp key rest)

  -- As a map from keys to commands, the table of a mirror is written once for each key: a command
  -- that is there is kept, and a new one is the available command of a valid candidate with that
  -- key.
  pub mirror_postgres-IsFirstWrite :
      (store : Store) (timestamp : ℕ) (cs : List Fields) (table : List Command) (key : String)
      → IsFirstWrite timestamp cs key
          (find key table)
          (find key (mirror_postgres env store timestamp cs table).counts.table)
  mirror_postgres-IsFirstWrite store timestamp cs table key =
      Publishes-IsFirstWrite timestamp key (mirror_postgres-Publishes env store timestamp cs table)
