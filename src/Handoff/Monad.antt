-- ===== src/Handoff/Monad.antt =====
-- The effects of backend/execution_handoff.py: a run may raise, and the process may die inside it.
-- What was written before that stays written, so the world comes back in every case.
use bybit_intraday_trading_b.Prelude.{◌+◌, Bool, Option, none, some, if◌then◌else◌}
use bybit_intraday_trading_b.Handoff.Types.{
  Reason, World, Fault, none_at_all, fails_before, fails_after, dies_before, dies_after, Call,
  returns, raises, dies, Env,
}

pub data Exit : Type 0 where
  exception : Reason → Exit
  died : Exit

pub data Result (A : Type 0) : Type 0 where
  ok : A → Result A
  err : Exit → Result A

abbrev pub Action : Type 0 → Type 0
Action A = World → Result A × World

module _ {A : Type 0} where
  abbrev pub pure : A → Action A
  pure a w = (ok a, w)

  abbrev pub raise : Reason → Action A
  raise r w = (err (exception r), w)

  abbrev pub gets : (World → A) → Action A
  gets f w = (ok (f w), w)

  abbrev pub or_raise : Option A → Reason → Action A
  or_raise none r = raise r
  or_raise (some a) r = pure a

  -- `if` between two blocks of statements
  unfoldable pub branch : Bool → Action A → Action A → Action A
  branch b m n = if b then m else n

  abbrev pub call : Call A → Action A
  call (returns a) w = (ok a, w)
  call (raises r) w = (err (exception r), w)
  call dies w = (err died, w)

infixl 5 ◌>>=◌ ◌>>◌
abbrev pub continue : {A B : Type 0} → Result A → (A → Action B) → Action B
continue (ok a) f w = f a w
continue (err e) f w = (err e, w)

unfoldable pub ◌>>=◌ : {A B : Type 0} → Action A → (A → Action B) → Action B
◌>>=◌ m f w = let (r, w') = m w in continue r f w'

unfoldable pub ◌>>◌ : {A B : Type 0} → Action A → Action B → Action B
◌>>◌ m k w = let (r, w') = m w in continue r (λ _. k) w'

abbrev pub modify : (World → World) → Action (Unit {0})
modify f w = (ok tt, f w)

abbrev pub tick : World → World
tick w = record w { ticks = w.ticks + 1 }

-- how a call with the effect `f` goes under a fault
abbrev pub under : {A : Type 0} → Fault → (World → A × World) → Action A
under none_at_all f w = let (a, w') = f w in (ok a, w')
under (fails_before r) f w = (err (exception r), w)
under (fails_after r) f w = let (_, w') = f w in (err (exception r), w')
under dies_before f w = (err died, w)
under dies_after f w = let (_, w') = f w in (err died, w')

-- A call of the store or the journal.
unfoldable pub effect : {A : Type 0} → Env → (World → A × World) → Action A
effect env f w = under (env.fault w.ticks) f (tick w)

-- `try: m except Exception: h`. A process that dies runs no handler.
unfoldable pub catch : {A : Type 0} → Action A → (Reason → Action A) → Action A
catch m h w =
    let (r, w') = m w in
    elim r [ ok a ↦ (ok a, w') | err e ↦ elim e [ exception x ↦ h x w' | died ↦ (err died, w') ] ]
