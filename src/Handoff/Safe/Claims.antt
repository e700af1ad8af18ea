-- ===== src/Handoff/Safe/Claims.antt =====
-- How the calls of backend/execution_handoff.py that write the claim change the core.
use bybit_intraday_trading_b.Prelude.{ℕ, ◌≡◌, refl, Bool, true, false, Option, none, some}
use bybit_intraday_trading_b.Python.{Fields}
use bybit_intraday_trading_b.Handoff.Types.{Claim, ClaimState, Env, World}
use bybit_intraday_trading_b.Handoff.Claims.{
  Created, created, conflict, load_active_claim, put_active, put_active_if_absent, delete_active,
  put_last, load_last_claim, check_saved, persist_claim, check_created, settle_creation,
  create_claim, fresh_claim, transition_claim, check_archived, archive_and_clear_claim,
}
use bybit_intraday_trading_b.Handoff.Rules.{
  Triple, pure_rule, raise_rule, or_raise_rule, effect_rule, bind_rule, seq_rule, branch_rule,
  strengthen_rule,
}
use bybit_intraday_trading_b.Handoff.Core.{Core, core, On}

module _ (env : Env) (X : Core → Type 0) where
  pub load_active_claim_rule :
      Triple (On X) (load_active_claim env) (λ o. On (λ c. X c × (c.active ≡ o))) (On X)
  unfolding load_active_claim
  load_active_claim_rule = effect_rule env _ (λ w h. h) (λ w h. (h, refl)) (λ w h. h) (λ a w h. h.0)

  module _ (d : Claim) (write : (c : Core) → X c → X (record c { active = some d })) where
    put_active_rule :
        Triple (On X) (put_active env d) (λ _. On (λ c. X c × (c.active ≡ some d))) (On X)
    unfolding put_active
    put_active_rule =
        effect_rule env _ (λ w h. h) (λ w h. (write (core w) h, refl)) (λ w h. h) (λ a w h. h.0)

    check_saved_rule :
        (saved : Claim)
        → Triple
            (On (λ c. X c × (saved ≡ d)))
            (check_saved env d saved)
            (λ s. On (λ c. X c × (s ≡ d)))
            (On X)
    unfolding check_saved
    check_saved_rule saved =
        branch_rule _ _ _ (λ _. raise_rule _ (λ w h. h.0))
          (λ _. branch_rule _ _ _ (λ _. raise_rule _ (λ w h. h.0)) (λ _. pure_rule _ (λ w h. h)))

    load_after_put :
        Triple
          (On (λ c. X c × (c.active ≡ some d)))
          (load_active_claim env)
          (λ o. On (λ c. (X c × (c.active ≡ some d)) × (c.active ≡ o)))
          (On (λ c. X c × (c.active ≡ some d)))
    unfolding load_active_claim
    load_after_put = effect_rule env _ (λ w h. h) (λ w h. (h, refl)) (λ w h. h) (λ a w h. h.0)

    -- What was written is what is read back, if anything is returned.
    pub persist_claim_rule :
        Triple (On X) (persist_claim env d) (λ saved. On (λ c. X c × (saved ≡ d))) (On X)
    unfolding persist_claim
    persist_claim_rule = seq_rule _ _ put_active_rule (
        bind_rule {R = λ o. On (λ c. (X c × (c.active ≡ some d)) × (c.active ≡ o))} _ _
          (strengthen_rule _ _ _ (λ o w h. h) (λ w h. h.0) load_after_put)
          (λ o.
            bind_rule {R = λ saved. On (λ c. X c × (saved ≡ d))} _ _
              (or_raise_rule _ _ (λ saved e w h. (h.0.0, cc (e, h.1, h.0.1))) (λ w h. h.0.0))
              check_saved_rule))

    -- `_transition_claim`, which writes `d`
    pub transition_claim_rule :
        (claim : Claim) (state : ClaimState) (timestamp : ℕ)
        → d ≡ record claim { state = state; updated_at = timestamp }
        → Triple
            (On X)
            (transition_claim env claim state timestamp)
            (λ saved. On (λ c. X c × (saved ≡ d)))
            (On X)
    unfolding transition_claim
    transition_claim_rule claim state timestamp e = rw (← e) persist_claim_rule

-- `_archive_and_clear_claim`: on a normal end the active claim is gone
module _ (env : Env) (X Y F : Core → Type 0) (d : Claim)
    (archive : (c : Core) → X c → X (record c { last = some d }))
    (clear : (c : Core) → X c → Y (record c { active = none })) (x_fails : (c : Core) → X c → F c)
    (y_fails : (c : Core) → Y c → F c) where
  check_archived_rule :
      (o : Option Claim) → Triple (On X) (check_archived env d o) (λ _. On Y) (On F)
  unfolding check_archived delete_active
  check_archived_rule none = raise_rule _ (λ w h. x_fails (core w) h)
  check_archived_rule (some archived) =
      branch_rule _ _ _
        (λ _.
          effect_rule env _ (λ w h. h) (λ w h. clear (core w) h) (λ w h. x_fails (core w) h)
            (λ a w h. y_fails (core w) h))
        (λ _. raise_rule _ (λ w h. x_fails (core w) h))

  pub archive_and_clear_claim_rule :
      Triple (On X) (archive_and_clear_claim env d) (λ _. On Y) (On F)
  unfolding archive_and_clear_claim put_last load_last_claim
  archive_and_clear_claim_rule =
      seq_rule {R = On X} _ _
        (effect_rule env _ (λ w h. h) (λ w h. archive (core w) h) (λ w h. x_fails (core w) h)
          (λ a w h. x_fails (core w) h))
        (bind_rule {R = λ _. On X} _ _
          (effect_rule env _ (λ w h. h) (λ w h. h) (λ w h. x_fails (core w) h)
            (λ a w h. x_fails (core w) h))
          check_archived_rule)

-- `_create_claim` in a world with no active claim: the claim that it returns is the stored one
module _ (env : Env) (X Y F : Core → Type 0) (candidate : Fields) (timestamp : ℕ)
    (write : (c : Core)
      → X c
      → Y (record c { active = some (fresh_claim env candidate timestamp) }))
    (x_fails : (c : Core) → X c → F c) (y_fails : (c : Core) → Y c → F c) where
  abbrev mine : Claim
  mine = fresh_claim env candidate timestamp

  -- what holds once the row was inserted, or was found there
  abbrev Inserted : Bool → Core → Type 0
  Inserted true c = Y c × (c.active ≡ some mine)
  Inserted false c = ⊥

  abbrev pub WithClaim : Created → Core → Type 0
  WithClaim (created claim) c = Y c × (c.active ≡ some claim) × (claim ≡ mine)
  WithClaim (conflict _) c = ⊥

  put_active_if_absent_rule :
      Triple
        (On (λ c. X c × (c.active ≡ none)))
        (put_active_if_absent env mine)
        (λ b. On (Inserted b))
        (On F)
  unfolding put_active_if_absent
  put_active_if_absent_rule =
      effect_rule env _ (λ w h. h) insert (λ w h. x_fails (core w) h.0) fails
    where
      insert :
          (w : World)
          → On (λ c. X c × (c.active ≡ none)) w
          → let (b, w') : Bool × World = elim w.active [
            | none ↦ (true, record w { active = some mine })
            | some _ ↦ (false, w)
          ] in
            On (Inserted b) w'
      insert w h = rw h.1 (write (core w) h.0, refl)

      fails : (b : Bool) (w : World) → On (Inserted b) w → On F w
      fails true w h = y_fails (core w) h.0
      fails false w h = absurd h

  check_created_rule :
      (o : Option Claim)
      → Triple
          (On (λ c. Inserted true c × (c.active ≡ o)))
          (check_created env mine o)
          (λ r. On (WithClaim r))
          (On F)
  unfolding check_created
  check_created_rule none = raise_rule _ (λ w h. y_fails (core w) h.0.0)
  check_created_rule (some saved) =
      branch_rule _ _ _ (λ _. pure_rule _ (λ w h. (h.0.0, h.1, cc (h.0.1, h.1))))
        (λ _. raise_rule _ (λ w h. y_fails (core w) h.0.0))

  settle_creation_rule :
      (b : Bool)
      → Triple (On (Inserted b)) (settle_creation env mine b) (λ r. On (WithClaim r)) (On F)
  unfolding settle_creation load_active_claim
  settle_creation_rule true =
      bind_rule {R = λ o. On (λ c. Inserted true c × (c.active ≡ o))} _ _
        (effect_rule env _ (λ w h. h) (λ w h. (h, refl)) (λ w h. y_fails (core w) h.0)
          (λ a w h. y_fails (core w) h.0.0))
        check_created_rule
  settle_creation_rule false = record { at = λ w h. absurd h }

  pub create_claim_rule :
      Triple
        (On (λ c. X c × (c.active ≡ none)))
        (create_claim env candidate timestamp)
        (λ r. On (WithClaim r))
        (On F)
  unfolding create_claim
  create_claim_rule =
      bind_rule {R = λ b. On (Inserted b)} _ _ put_active_if_absent_rule settle_creation_rule
