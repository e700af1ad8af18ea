-- ===== src/Handoff/Fill/Laws.antt =====
-- What `_mandatory_fill_decision` of backend/execution_handoff.py accepts, and which state of the
-- claim each of its decisions leads to.
use bybit_intraday_trading_b.Prelude.{
  ◌≡◌, refl, ◌↔◌, inl, inr, String, Bool, true, false, not, ◌&&◌, arith, Bool-cases, eq_iff,
}
use bybit_intraday_trading_b.Python.{
  Value, null, bool, dict, Fields, Python, get, is_true, is_false, equals_zero,
}
use bybit_intraday_trading_b.Handoff.Types.{unresolved, FillDecision}
use bybit_intraday_trading_b.Handoff.Fill.{
  all_evidence, failure_code, needs_review, gather, decide_fill, decide_verification,
  mandatory_fill_decision, ret_code_ok, normalized_fill_state, positive_number,
}
use bybit_intraday_trading_b.Handoff.Submit.{is_terminal_code, is_terminal_no_fill, resolution_of}

is_true_iff : (v : Value) → (is_true v ≡ true) ↔ (v ≡ bool true)
is_true_iff (bool true) = (λ h. refl, λ h. refl)
is_true_iff (bool false) = (λ h. cc, λ h. cc)
is_true_iff null = (λ h. cc, λ h. cc)
is_true_iff _ = (λ h. cc, λ h. cc)

is_false_iff : (v : Value) → (is_false v ≡ true) ↔ (v ≡ bool false)
is_false_iff (bool false) = (λ h. refl, λ h. refl)
is_false_iff (bool true) = (λ h. cc, λ h. cc)
is_false_iff null = (λ h. cc, λ h. cc)
is_false_iff _ = (λ h. cc, λ h. cc)

and_iff : (a b : Bool) → ((a && b) ≡ true) ↔ ((a ≡ true) × (b ≡ true))
and_iff true b = (λ h. (refl, h), λ h. h.1)
and_iff false b = (λ h. cc, λ h. h.0)

×_iff : {A B C D : Type 0} → A ↔ B → C ↔ D → (A × C) ↔ (B × D)
×_iff f g = (λ h. (f.0 h.0, g.0 h.1), λ h. (f.1 h.0, g.1 h.1))

trans_iff : {A B C : Type 0} → A ↔ B → B ↔ C → A ↔ C
trans_iff f g = (λ h. g.0 (f.0 h), λ h. f.1 (g.1 h))

-- one more piece of evidence
also : (a b : Bool) {A B : Type 0} → (a ≡ true) ↔ A → (b ≡ true) ↔ B → ((a && b) ≡ true) ↔ (A × B)
also a b f g = trans_iff (and_iff a b) (×_iff f g)

module _ (py : Python) where
  -- the response `d` and its verification `v` show a full and final fill
  abbrev pub IsFullFill : Fields → Fields → Type 0
  IsFullFill d v =
      (get "accepted" d ≡ bool true)
      × ((get "finalFilled" d ≡ bool true)
          × ((equals_zero (get "exchangeRetCode" d) ≡ true)
              × ((get "accepted" v ≡ bool true)
                  × ((get "finalFilled" v ≡ bool true)
                      × ((get "terminal" v ≡ bool true)
                          × ((get "unresolved" v ≡ bool false)
                              × ((normalized_fill_state py (get "state" v) ≡ "filled")
                                  × (positive_number py (get "cumExecQty" v) ≡ true))))))))

  -- the evidence that `order` must carry to count as filled
  abbrev pub IsFilledEvidence : Value → Type 0
  IsFilledEvidence order =
      (d : Fields) × (v : Fields) × (order ≡ dict d)
      × (ret_code_ok py d ≡ true)
      × (get "fillVerification" d ≡ dict v)
      × IsFullFill d v

  all_evidence_iff : (d v : Fields) → (all_evidence (gather py d v) ≡ true) ↔ IsFullFill d v
  unfolding gather
  all_evidence_iff d v = also _ _ (is_true_iff (get "accepted" d)) (
      also _ _ (is_true_iff (get "finalFilled" d)) (
        also _ _ (λ h. h, λ h. h)
          (also _ _ (is_true_iff (get "accepted" v)) (
            also _ _ (is_true_iff (get "finalFilled" v)) (
              also _ _ (is_true_iff (get "terminal" v)) (
                also _ _ (is_false_iff (get "unresolved" v)) (
                  also _ _ (eq_iff (normalized_fill_state py (get "state" v)) "filled")
                    (λ h. h, λ h. h))))))))

  decide_fill_accepted :
      (d v : Fields) → (decide_fill py d v).accepted ≡ true → all_evidence (gather py d v) ≡ true
  unfolding decide_fill
  decide_fill_accepted d v h = elim (Bool-cases (all_evidence (gather py d v))) [
    | inl full ↦ full
    | inr part ↦ cc (rw part at h)
  ]

  accepted_of_full :
      (d v : Fields) → all_evidence (gather py d v) ≡ true → (decide_fill py d v).accepted ≡ true
  unfolding decide_fill
  accepted_of_full d v h = rw h

  decide_verification_accepted :
      (d : Fields) (v : Value)
      → (decide_verification py d v).accepted ≡ true
      → (f : Fields) × (v ≡ dict f) × (all_evidence (gather py d f) ≡ true)
  unfolding decide_verification
  decide_verification_accepted d (dict f) h = (f, refl, decide_fill_accepted d f h)
  decide_verification_accepted d null h = cc
  decide_verification_accepted d _ h = cc

  accepted_evidence :
      (order : Value) → (mandatory_fill_decision py order).accepted ≡ true → IsFilledEvidence order
  unfolding mandatory_fill_decision
  accepted_evidence (dict d) h = elim (Bool-cases (ret_code_ok py d)) [
    | inl success ↦
        let (f, ver, full) =
          decide_verification_accepted d (get "fillVerification" d) (rw success at h) in
        (d, f, refl, success, ver, (all_evidence_iff d f).0 full)
    | inr refused ↦ cc (rw refused at h)
  ]
  accepted_evidence null h = cc
  accepted_evidence _ h = cc

  evidence_accepted :
      (order : Value) (d v : Fields)
      → order ≡ dict d
      → ret_code_ok py d ≡ true
      → get "fillVerification" d ≡ dict v
      → all_evidence (gather py d v) ≡ true
      → (mandatory_fill_decision py order).accepted ≡ true
  unfolding mandatory_fill_decision decide_verification
  evidence_accepted order d v is_dict code ver full =
      rw (is_dict, code, ver) (accepted_of_full d v full)

  -- An order is accepted as filled exactly when the response is a dict with return code 0 whose
  -- `fillVerification` is a dict, `accepted` and `finalFilled` are True in both, `exchangeRetCode`
  -- is 0, `terminal` is True, `unresolved` is False, the normalised state is "filled" and
  -- `cumExecQty` is a positive number.
  pub mandatory_fill_decision_iff :
      (order : Value)
      → ((mandatory_fill_decision py order).accepted ≡ true) ↔ IsFilledEvidence order
  mandatory_fill_decision_iff order = (
    accepted_evidence order,
    λ h.
        let (d, v, is_dict, code, ver, full) = h in
        evidence_accepted order d v is_dict code ver ((all_evidence_iff d v).1 full),
  )

  -- the two fields of a decision agree
  abbrev IsConsistent : FillDecision → Type 0
  IsConsistent d = (resolution_of d ≡ unresolved) ↔ (d.requires_operator_review ≡ true)

  failure_code_review :
      (s : String) → is_terminal_code (failure_code s) ≡ not (needs_review (failure_code s))
  unfolding failure_code
  failure_code_review s = ground arith

  decide_fill-IsConsistent : (d v : Fields) → IsConsistent (decide_fill py d v)
  unfolding decide_fill resolution_of is_terminal_no_fill
  decide_fill-IsConsistent d v =
      ground (arith, failure_code_review (normalized_fill_state py (get "state" v)))

  decide_verification-IsConsistent :
      (d : Fields) (v : Value) → IsConsistent (decide_verification py d v)
  unfolding decide_verification resolution_of is_terminal_no_fill
  decide_verification-IsConsistent d (dict f) = decide_fill-IsConsistent d f
  decide_verification-IsConsistent d null = ground arith
  decide_verification-IsConsistent d _ = ground arith

  mandatory-IsConsistent : (order : Value) → IsConsistent (mandatory_fill_decision py order)
  unfolding mandatory_fill_decision resolution_of is_terminal_no_fill
  mandatory-IsConsistent (dict d) = elim (Bool-cases (ret_code_ok py d)) [
    | inl success ↦ rw success (decide_verification-IsConsistent d (get "fillVerification" d))
    | inr refused ↦ rw refused (ground arith)
  ]
  mandatory-IsConsistent null = ground arith
  mandatory-IsConsistent _ = ground arith

  -- The claim is left UNRESOLVED exactly when the decision asks for the operator; every other
  -- decision resolves it as filled or as not filled.
  pub unresolved_iff_review :
      (order : Value)
      → (resolution_of (mandatory_fill_decision py order) ≡ unresolved)
        ↔ ((mandatory_fill_decision py order).requires_operator_review ≡ true)
  unresolved_iff_review order = mandatory-IsConsistent order
