-- ===== src/Outbox/Mirror/Refines.antt =====
-- `_mirror_postgres` of backend/execution_command_outbox.py as publications in the command table of
-- backend/execution_command_storage.py.
use bybit_intraday_trading_b.Prelude.{
  ℕ, ◌+◌, ◌≡◌, ◌⊎◌, refl, subst, inl, inr, String, Bool, true, false, Option, none, some, List, [],
  ◌∷◌, str_eq, Bool-cases,
}
use bybit_intraday_trading_b.Python.{Fields, get}
use bybit_intraday_trading_b.Commands.Types.{
  Command, Answer, returns as succeeds, raises as refuses,
}
use bybit_intraday_trading_b.Commands.History.{publish as publish_step, History, then_step}
use bybit_intraday_trading_b.Outbox.Types.{Fault, no_fault, write_fails, read_fails, Store, Env}
use bybit_intraday_trading_b.Outbox.Validation.{validation_error}
use bybit_intraday_trading_b.Outbox.Mirror.{
  Mirroring, note_waiting, note_conflict, note_mirrored, set_table, retry_later, wait_all,
  begin_mirroring, publish, store_error, mirror_stored, mirror_written, mirror_answer,
  mirror_checked, mirror_one, mirror_all, mirror_usable, mirror_postgres,
}

module _ (env : Env) where
  open env use {py}

  abbrev pub command_key : Fields → String
  command_key c = py.to_str (get "candidateKey" c)

  -- the table after the publication of a candidate
  abbrev pub with_candidate : Fields → ℕ → List Command → List Command
  with_candidate c timestamp rows = (publish env (command_key c) c timestamp rows).1

  -- Publications of some of the candidates, each valid, in their order.
  pub data Publishes (timestamp : ℕ) : List Fields → List Command → List Command → Type 0 where
    finished : (rows : List Command) → Publishes timestamp [] rows rows
    skipped :
        (c : Fields) {cs : List Fields} {rows after : List Command}
        → Publishes timestamp cs rows after
        → Publishes timestamp (c ∷ cs) rows after
    written :
        (c : Fields) {cs : List Fields} (rows : List Command) {after : List Command}
        → validation_error env c ≡ none
        → Publishes timestamp cs (with_candidate c timestamp rows) after
        → Publishes timestamp (c ∷ cs) rows after

  -- the table of a candidate's mirroring: as it was, or with the candidate published
  abbrev pub IsMirrored : Fields → ℕ → List Command → List Command → Type 0
  IsMirrored c timestamp old new =
      (new ≡ old) ⊎ ((validation_error env c ≡ none) × (new ≡ with_candidate c timestamp old))

  mirror_stored-table :
      (key : String) (c : Fields) (created : Bool) (o : Option Command) (s : Mirroring)
      → (mirror_stored env key c created o s).table ≡ s.table
  unfolding mirror_stored note_waiting note_conflict note_mirrored
  mirror_stored-table key c created none s = refl
  mirror_stored-table key c true (some d) s =
      elim (Bool-cases (str_eq (env.canonical d.payload) (env.canonical c))) [
        | inl same ↦ rw same refl
        | inr other ↦ rw other refl
      ]
  mirror_stored-table key c false (some d) s =
      elim (Bool-cases (str_eq (env.canonical d.payload) (env.canonical c))) [
        | inl same ↦ rw same refl
        | inr other ↦ rw other refl
      ]

  mirror_written-table :
      (fault : Fault) (key : String) (c : Fields) (created : Bool) (new : List Command)
      (s : Mirroring)
      → ((mirror_written env fault key c created new s).table ≡ s.table)
        ⊎ ((mirror_written env fault key c created new s).table ≡ new)
  unfolding mirror_written retry_later note_waiting set_table
  mirror_written-table no_fault key c created new s = inr (mirror_stored-table key c created _ _)
  mirror_written-table (read_fails text) key c created new s = inr refl
  mirror_written-table (write_fails true text) key c created new s = inr refl
  mirror_written-table (write_fails false text) key c created new s = inl refl

  mirror_answer-table :
      (fault : Fault) (key : String) (c : Fields) (a : Answer Bool) (new : List Command)
      (s : Mirroring)
      → ((mirror_answer env fault key c (a, new) s).table ≡ s.table)
        ⊎ ((mirror_answer env fault key c (a, new) s).table ≡ new)
  unfolding mirror_answer retry_later note_waiting
  mirror_answer-table fault key c (refuses failure) new s = inl refl
  mirror_answer-table fault key c (succeeds created) new s =
      mirror_written-table fault key c created new s

  mirror_checked-IsMirrored :
      (n timestamp : ℕ) (c : Fields) (error : Option String) (s : Mirroring)
      → validation_error env c ≡ error
      → IsMirrored c timestamp s.table (mirror_checked env n timestamp c error s).table
  unfolding mirror_checked note_waiting
  mirror_checked-IsMirrored n timestamp c (some error) s e = inl refl
  mirror_checked-IsMirrored n timestamp c none s e =
      let answer = publish env (command_key c) c timestamp s.table in
      elim (mirror_answer-table (env.fault n) (command_key c) c answer.0 answer.1 s) [
        | inl same ↦ inl same
        | inr new ↦ inr (e, new)
      ]

  then-Publishes :
      (timestamp : ℕ) (c : Fields) (cs : List Fields) (old new after : List Command)
      → IsMirrored c timestamp old new
      → Publishes timestamp cs new after
      → Publishes timestamp (c ∷ cs) old after
  then-Publishes timestamp c cs old new after (inl same) rest =
      skipped c (subst (λ rows. Publishes timestamp cs rows after) same rest)
  then-Publishes timestamp c cs old new after (inr (valid, made)) rest =
      written c old valid (subst (λ rows. Publishes timestamp cs rows after) made rest)

  mirror_all-Publishes :
      (n timestamp : ℕ) (cs : List Fields) (s : Mirroring)
      → Publishes timestamp cs s.table (mirror_all env n timestamp cs s).table
  unfolding mirror_all mirror_one
  mirror_all-Publishes n timestamp [] s = finished s.table
  mirror_all-Publishes n timestamp (c ∷ cs) s =
      let next = mirror_one env n timestamp c s in
      then-Publishes timestamp c cs s.table next.table _
        (mirror_checked-IsMirrored n timestamp c (validation_error env c) s refl)
        (mirror_all-Publishes (n + 1) timestamp cs next)

  nothing_published :
      (timestamp : ℕ) (cs : List Fields) (rows : List Command) → Publishes timestamp cs rows rows
  nothing_published timestamp [] rows = finished rows
  nothing_published timestamp (c ∷ cs) rows = skipped c (nothing_published timestamp cs rows)

  wait_all-table :
      (reason : String) (cs : List Fields) (s : Mirroring) → (wait_all reason cs s).table ≡ s.table
  unfolding wait_all note_waiting
  wait_all-table reason [] s = refl
  wait_all-table reason (c ∷ cs) s = wait_all-table reason cs _

  usable-Publishes :
      (error : Option String) (timestamp : ℕ) (cs : List Fields) (rows : List Command)
      → Publishes timestamp cs rows (mirror_usable env error timestamp cs rows).counts.table
  unfolding mirror_usable begin_mirroring
  usable-Publishes none timestamp cs rows =
      mirror_all-Publishes 0 timestamp cs (begin_mirroring rows)
  usable-Publishes (some reason) timestamp cs rows =
      rw (wait_all-table reason cs (begin_mirroring rows)) (nothing_published timestamp cs rows)

  pub mirror_postgres-Publishes :
      (store : Store) (timestamp : ℕ) (cs : List Fields) (rows : List Command)
      → Publishes timestamp cs rows (mirror_postgres env store timestamp cs rows).counts.table
  unfolding mirror_postgres
  mirror_postgres-Publishes store timestamp cs rows =
      usable-Publishes (store_error env store) timestamp cs rows

  pub Publishes-History :
      (timestamp : ℕ) {cs : List Fields} {rows after : List Command}
      → Publishes timestamp cs rows after
      → History py.strip py.upper env.database_before rows
      → History py.strip py.upper env.database_before after
  Publishes-History timestamp (finished rows) past = past
  Publishes-History timestamp (skipped c rest) past = Publishes-History timestamp rest past
  Publishes-History timestamp (written c rows valid rest) past =
      Publishes-History timestamp rest (then_step past (publish_step _ _ timestamp rows))
