-- ===== src/Handoff/Rules.antt =====
-- Triples for the actions of the handoff: from a world in which `P` holds, an action returns a
-- value for which `Q` holds, or it ends by an exception or by the death of the process in a world
-- in which `E` holds. One rule for each way to build an action.
use bybit_intraday_trading_b.Prelude.{◌≡◌, refl, Bool, true, false, Option, none, some}
use bybit_intraday_trading_b.Handoff.Types.{
  Reason, World, Fault, none_at_all, fails_before, fails_after, dies_before, dies_after, Call,
  returns, raises, dies, Env,
}
use bybit_intraday_trading_b.Handoff.Monad.{
  exception, died, Result, ok, err, Action, pure, raise, gets, or_raise, call, branch, continue,
  ◌>>=◌, ◌>>◌, modify, tick, under, effect, catch,
}

abbrev pub Pred : Type 1
Pred = World → Type 0

abbrev pub Post : {A : Type 0} → (A → Pred) → Pred → Result A × World → Type 0
Post Q E (ok a, w) = Q a w
Post Q E (err _, w) = E w

pub record Triple {A : Type 0} (P : Pred) (m : Action A) (Q : A → Pred) (E : Pred) : Type 0 where
  pub at : (w : World) → P w → Post Q E (m w)

module _ {A : Type 0} {Q : A → Pred} {E : Pred} where
  Post-mono :
      (Q' : A → Pred) (E' : Pred)
      → ((a : A) (w : World) → Q a w → Q' a w)
      → ((w : World) → E w → E' w)
      → (r : Result A × World) → Post Q E r
      → Post Q' E' r
  Post-mono Q' E' hq he (ok a, w) p = hq a w p
  Post-mono Q' E' hq he (err x, w) p = he w p

module _ {A B : Type 0} {R : A → Pred} {Q : B → Pred} {E : Pred} where
  continue-Post :
      (f : A → Action B)
      → ((a : A) → Triple (R a) (f a) Q E)
      → (r : Result A) (w : World) → Post R E (r, w)
      → Post Q E (continue r f w)
  continue-Post f hf (ok a) w p = (hf a).at w p
  continue-Post f hf (err x) w p = p

module _ {A : Type 0} {Q : A → Pred} {E F : Pred} where
  catch-Post :
      (h : Reason → Action A)
      → ((r : Reason) → Triple E (h r) Q F)
      → ((w : World) → E w → F w)
      → (r : Result A) (w : World) → Post Q E (r, w)
      → Post Q F (elim r [
        | ok a ↦ (ok a, w)
        | err e ↦ elim e [ exception x ↦ h x w | died ↦ (err died, w) ]
      ])
  catch-Post h hh d (ok a) w p = p
  catch-Post h hh d (err (exception x)) w p = (hh x).at w p
  catch-Post h hh d (err died) w p = d w p

module _ {A : Type 0} {P : Pred} {Q : A → Pred} {E : Pred} where
  pub pure_rule : (a : A) → ((w : World) → P w → Q a w) → Triple P (pure a) Q E
  pure_rule a h = record { at = h }

  pub raise_rule : (r : Reason) → ((w : World) → P w → E w) → Triple P (raise r) Q E
  raise_rule r h = record { at = h }

  pub gets_rule : (f : World → A) → ((w : World) → P w → Q (f w) w) → Triple P (gets f) Q E
  gets_rule f h = record { at = h }

  pub or_raise_rule :
      (o : Option A) (r : Reason)
      → ((a : A) → o ≡ some a → (w : World) → P w → Q a w)
      → ((w : World) → P w → E w)
      → Triple P (or_raise o r) Q E
  or_raise_rule none r h e = record { at = e }
  or_raise_rule (some a) r h e = record { at = h a refl }

  pub call_rule :
      (c : Call A)
      → ((a : A) → c ≡ returns a → (w : World) → P w → Q a w)
      → ((w : World) → P w → E w)
      → Triple P (call c) Q E
  call_rule (returns a) h e = record { at = h a refl }
  call_rule (raises r) h e = record { at = e }
  call_rule dies h e = record { at = e }

  pub branch_rule :
      (b : Bool) (m n : Action A)
      → (b ≡ true → Triple P m Q E)
      → (b ≡ false → Triple P n Q E)
      → Triple P (branch b m n) Q E
  unfolding branch
  branch_rule true m n hm hn = hm refl
  branch_rule false m n hm hn = hn refl

  under-Post :
      (fault : Fault) (f : World → A × World)
      → ((w : World) → P w → Q (f w).0 (f w).1)
      → ((w : World) → P w → E w)
      → ((a : A) (w : World) → Q a w → E w)
      → (w : World) → P w
      → Post Q E (under fault f w)
  under-Post none_at_all f h e q w p = h w p
  under-Post (fails_before r) f h e q w p = e w p
  under-Post (fails_after r) f h e q w p = q (f w).0 (f w).1 (h w p)
  under-Post dies_before f h e q w p = e w p
  under-Post dies_after f h e q w p = q (f w).0 (f w).1 (h w p)

  -- a call of the store or the journal, whatever befalls it
  pub effect_rule :
      (env : Env) (f : World → A × World)
      → ((w : World) → P w → P (tick w))
      → ((w : World) → P w → Q (f w).0 (f w).1)
      → ((w : World) → P w → E w)
      → ((a : A) (w : World) → Q a w → E w)
      → Triple P (effect env f) Q E
  unfolding effect
  effect_rule env f t h e q = record {
    at = λ w p. under-Post (env.fault w.ticks) f h e q (tick w) (t w p);
  }

  -- a part of the precondition that does not speak of the world
  pub fact_rule : (Φ : Type 0) (m : Action A) → (Φ → Triple P m Q E) → Triple (λ w. P w × Φ) m Q E
  fact_rule Φ m t = record { at = λ w h. (t h.1).at w h.0 }

  pub weaken_rule :
      (P' : Pred) (m : Action A) → ((w : World) → P' w → P w) → Triple P m Q E → Triple P' m Q E
  weaken_rule P' m h t = record { at = λ w p. t.at w (h w p) }

  pub strengthen_rule :
      (Q' : A → Pred) (E' : Pred) (m : Action A)
      → ((a : A) (w : World) → Q a w → Q' a w)
      → ((w : World) → E w → E' w)
      → Triple P m Q E
      → Triple P m Q' E'
  strengthen_rule Q' E' m hq he t = record { at = λ w p. Post-mono Q' E' hq he (m w) (t.at w p) }

module _ {A B : Type 0} {P : Pred} {R : A → Pred} {Q : B → Pred} {E : Pred} where
  pub bind_rule :
      (m : Action A) (f : A → Action B)
      → Triple P m R E
      → ((a : A) → Triple (R a) (f a) Q E)
      → Triple P (m >>= f) Q E
  unfolding ◌>>=◌
  bind_rule m f hm hf = record {
    at = λ w p. let (r, w') = m w in continue-Post f hf r w' (hm.at w p);
  }

module _ {A B : Type 0} {P R : Pred} {Q : B → Pred} {E : Pred} where
  pub seq_rule :
      (m : Action A) (k : Action B) → Triple P m (λ _. R) E → Triple R k Q E → Triple P (m >> k) Q E
  unfolding ◌>>◌
  seq_rule m k hm hk = record {
    at = λ w p. let (r, w') = m w in continue-Post (λ _. k) (λ _. hk) r w' (hm.at w p);
  }

module _ {P : Pred} {Q : Unit {0} → Pred} {E : Pred} where
  pub modify_rule : (f : World → World) → ((w : World) → P w → Q tt (f w)) → Triple P (modify f) Q E
  modify_rule f h = record { at = h }

module _ {A : Type 0} {P : Pred} {Q : A → Pred} {E F : Pred} where
  -- the handler starts where the body has raised; a death leaves the world as it is
  pub catch_rule :
      (m : Action A) (h : Reason → Action A)
      → Triple P m Q E
      → ((r : Reason) → Triple E (h r) Q F)
      → ((w : World) → E w → F w)
      → Triple P (catch m h) Q F
  unfolding catch
  catch_rule m h hm hh d = record {
    at = λ w p. let (r, w') = m w in catch-Post h hh d r w' (hm.at w p);
  }
