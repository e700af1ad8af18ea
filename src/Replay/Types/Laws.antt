-- ===== src/Replay/Types/Laws.antt =====
-- What a chain of steps that returned says of its steps.
use bybit_intraday_trading_b.Prelude.{
  ◌≡◌, refl, subst, String, Bool, true, false, Option, none, some,
}
use bybit_intraday_trading_b.Replay.Types.{Kind, Outcome, done, failed, ◌>>=◌, guard, or_raise}

pub >>=-done :
    {A B : Type 0} (m : Outcome A) (f : A → Outcome B) {b : B}
    → (m >>= f) ≡ done b
    → (a : A) × (m ≡ done a) × (f a ≡ done b)
unfolding ◌>>=◌ guard or_raise
>>=-done (done a) f h = (a, refl, h)
>>=-done (failed kind text) f h = cc

pub guard-done :
    {B : Type 0} (c : Bool) (kind : Kind) (text : String) (f : Unit → Outcome B) {b : B}
    → (guard c kind text >>= f) ≡ done b
    → (c ≡ true) × (f tt ≡ done b)
unfolding ◌>>=◌ guard or_raise
guard-done true kind text f h = (refl, h)
guard-done false kind text f h = cc

pub or_raise-done :
    {A B : Type 0} (o : Option A) (kind : Kind) (text : String) (f : A → Outcome B) {b : B}
    → (or_raise o kind text >>= f) ≡ done b
    → (a : A) × (o ≡ some a) × (f a ≡ done b)
unfolding ◌>>=◌ guard or_raise
or_raise-done none kind text f h = cc
or_raise-done (some a) kind text f h = (a, refl, h)

pub done_injective : {A : Type 0} (a b : A) → done a ≡ done b → a ≡ b
done_injective a b h = cc

pub some_injective : {A : Type 0} (a b : A) → some a ≡ some b → a ≡ b
some_injective a b h = cc

-- whatever the step returns satisfies `P`
pub record Returns {A : Type 0} (P : A → Type 0) (m : Outcome A) : Type 0 where
  pub result : (a : A) → m ≡ done a → P a

pub >>=-Returns :
    {A B : Type 0} {P : B → Type 0} (m : Outcome A) (f : A → Outcome B)
    → ((a : A) → m ≡ done a → Returns P (f a))
    → Returns P (m >>= f)
>>=-Returns m f h = record {
  result = λ b e. let (a, ea, eb) = >>=-done m f e in (h a ea).result b eb;
}

pub guard-Returns :
    {B : Type 0} {P : B → Type 0} (c : Bool) (kind : Kind) (text : String) (f : Unit → Outcome B)
    → (c ≡ true → Returns P (f tt))
    → Returns P (guard c kind text >>= f)
guard-Returns c kind text f h = record {
  result = λ b e. let (ec, eb) = guard-done c kind text f e in (h ec).result b eb;
}

pub or_raise-Returns :
    {A B : Type 0} {P : B → Type 0} (o : Option A) (kind : Kind) (text : String) (f : A → Outcome B)
    → ((a : A) → o ≡ some a → Returns P (f a))
    → Returns P (or_raise o kind text >>= f)
or_raise-Returns o kind text f h = record {
  result = λ b e. let (a, ea, eb) = or_raise-done o kind text f e in (h a ea).result b eb;
}

pub done-Returns : {A : Type 0} {P : A → Type 0} (a : A) → P a → Returns P (done a)
done-Returns {A} {P} a h = record { result = λ b e. subst P (done_injective a b e) h }

pub failed-Returns :
    {A : Type 0} {P : A → Type 0} (kind : Kind) (text : String) → Returns P (failed kind text)
failed-Returns kind text = record { result = λ b e. cc e }

pub or_raise_last-Returns :
    {A : Type 0} {P : A → Type 0} (o : Option A) (kind : Kind) (text : String)
    → ((a : A) → o ≡ some a → P a)
    → Returns P (or_raise o kind text)
unfolding or_raise
or_raise_last-Returns none kind text h = failed-Returns kind text
or_raise_last-Returns (some a) kind text h = done-Returns a (h a refl)
