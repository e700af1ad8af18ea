-- ===== src/OrderFill/Finalize/Filled.antt =====
-- What the handoff (`_mandatory_fill_decision` of backend/execution_handoff.py) reads of an order that
-- `finalize_entry_order` of backend/engines/order_fill.py accepts.
use Prim.Native.Char.{Char}
use text.Mathlib.TextLemmas.{cons-append, nil-append}
use bybit_intraday_trading_b.Prelude.{
  ℕ, ◌≡◌, refl, sym, ap, ◌∙◌, ◌↔◌, inl, inr, String, Bool, true, false, none, some,
}
use bybit_intraday_trading_b.Prelude.Int.{ℤ, pos, negsuc, is_zero}
use bybit_intraday_trading_b.Python.{
  Value, bool, int, str, dict, Fields, Python, get, get_or, equals_zero,
}
use bybit_intraday_trading_b.Python.Laws.{get-put, get_or-put}
use bybit_intraday_trading_b.Handoff.Fill.{
  ret_code_ok, mandatory_fill_decision, positive_number, normalized_fill_state, join_alnum,
}
use bybit_intraday_trading_b.Handoff.Fill.Laws.{IsFullFill, mandatory_fill_decision_iff}
use bybit_intraday_trading_b.OrderFill.Classify.{positive, classified}
use bybit_intraday_trading_b.OrderFill.Classify.Laws.{class_of-IsCoherent}
use bybit_intraday_trading_b.OrderFill.Types.{Verification, StatusRow, filled, Env}
use bybit_intraday_trading_b.OrderFill.Poll.{verify_final_fill}
use bybit_intraday_trading_b.OrderFill.Poll.Results.{verify-ShownBy}
use bybit_intraday_trading_b.OrderFill.Finalize.{
  verification_fields, final_of, with_code, final_result,
}

-- `int` of an integer is that integer.
abbrev pub KeepsInt : Python → Type 0
KeepsInt py = (n : ℤ) → py.to_int (int n) ≡ some n

pub ret_code_ok-int :
    (py : Python) (d : Fields) (c : ℤ)
    → KeepsInt py
    → get_or "retCode" (int (negsuc 0)) d ≡ int c
    → ret_code_ok py d ≡ is_zero c
unfolding ret_code_ok
ret_code_ok-int py d (pos n) keeps e =
    let read : py.to_int (get_or "retCode" (int (negsuc 0)) d) ≡ some (pos n) =
      rw e (keeps (pos n)) in
    rw (ret_code_ok, read) refl
ret_code_ok-int py d (negsuc n) keeps e =
    let read : py.to_int (get_or "retCode" (int (negsuc 0)) d) ≡ some (negsuc n) =
      rw e (keeps (negsuc n)) in
    rw (ret_code_ok, read) refl

-- what the handoff reads of an order that is accepted
module _ (source : Fields) (v : Verification) (accepted : v.accepted ≡ true) where
  read_accepted : get "accepted" (final_result source v) ≡ bool true
  unfolding final_result with_code final_of
  read_accepted = rw accepted (simp get-put refl)

  read_final_filled : get "finalFilled" (final_result source v) ≡ bool true
  unfolding final_result with_code final_of
  read_final_filled = rw accepted (simp get-put refl)

  read_verification : get "fillVerification" (final_result source v) ≡ dict (verification_fields v)
  unfolding final_result with_code final_of
  read_verification = rw accepted (simp get-put refl)

  read_exchange_code : get "exchangeRetCode" (final_result source v) ≡ get "retCode" source
  unfolding final_result with_code final_of
  read_exchange_code = rw accepted (simp get-put refl)

  read_code : (e : Value) → get_or "retCode" e (final_result source v) ≡ int (pos 0)
  unfolding final_result with_code final_of
  read_code e = rw accepted (simp get_or-put refl)

abbrev single : Char → String
single c = String.◌∷◌ c String.[]

-- every character of the text is alphanumeric and in lower case
abbrev pub KeepsChars : Python → String → Type 0
KeepsChars py String.[] = Unit
KeepsChars py (String.◌∷◌ c s) = (py.isalnum c ≡ true) × (py.lower c ≡ single c) × KeepsChars py s

-- What Python documents of `int`, `str`, `isalnum` and `lower`: `int` of an integer and `str` of a
-- text are their argument, and the letters of "filled" are alphanumeric and in lower case.
pub record IsBuiltin (py : Python) : Type 0 where
  pub keeps_int : KeepsInt py
  pub keeps_str : (s : String) → py.to_str (str s) ≡ s
  pub keeps_filled : KeepsChars py "filled"

join_alnum-keeps : (py : Python) (s : String) → KeepsChars py s → join_alnum py s ≡ s
unfolding join_alnum
join_alnum-keeps py String.[] h = refl
join_alnum-keeps py (String.◌∷◌ c s) (alnum, lower, rest) =
    rw (alnum, lower, join_alnum-keeps py s rest)
      (cons-append c "" s ∙ ap (λ t. String.◌∷◌ c t) (nil-append s))

filled_name : (py : Python) → IsBuiltin py → normalized_fill_state py (str "filled") ≡ "filled"
unfolding normalized_fill_state
filled_name py b = rw (b.keeps_str "filled") (join_alnum-keeps py "filled" b.keeps_filled)

-- what `_classified` gives for an order that it accepts
pub record IsFilled (v : Verification) : Type 0 where
  pub accepted : v.accepted ≡ true
  pub final_filled : v.final_filled ≡ true
  pub state : v.state ≡ filled
  pub terminal : v.terminal ≡ true
  pub unresolved : v.unresolved ≡ false
  pub row : StatusRow
  pub has_row : v.row ≡ some row
  pub no_ids : v.ids ≡ none

classified-IsFilled :
    (py : Python) (row : StatusRow) (attempt : ℕ)
    → (classified py row attempt).accepted ≡ true
    → IsFilled (classified py row attempt)
unfolding classified
classified-IsFilled py row attempt h =
    let c =
      class_of-IsCoherent (normalized_fill_state py (str row.order_status))
        (positive py row.cum_exec_qty) in
    record {
      accepted = h;
      final_filled = h;
      state = c.accepted_is_filled h;
      terminal = c.resolved_is_terminal (c.accepted_is_resolved h);
      unresolved = c.accepted_is_resolved h;
      row = row;
      has_row = refl;
      no_ids = refl;
    }

dict_injective : (a b : Fields) → dict a ≡ dict b → a ≡ b
dict_injective a b e = cc

some_injective : (a b : StatusRow) → some a ≡ some b → a ≡ b
some_injective a b e = cc

module _ (py : Python) (b : IsBuiltin py) (source : Fields) (v : Verification) (f : IsFilled v)
    (acknowledged : equals_zero (get "retCode" source) ≡ true) where
  quantity : get "cumExecQty" (verification_fields v) ≡ f.row.cum_exec_qty
  unfolding get
  quantity = rw (f.no_ids, f.has_row) refl

  full_fill :
      positive_number py f.row.cum_exec_qty ≡ true
      → IsFullFill py (final_result source v) (verification_fields v)
  unfolding get
  full_fill enough = (
    read_accepted source v f.accepted,
    (
      read_final_filled source v f.accepted,
      (
        rw (read_exchange_code source v f.accepted) acknowledged,
        (
          ap bool f.accepted,
          (
            ap bool f.final_filled,
            (
              ap bool f.terminal,
              (ap bool f.unresolved, (rw f.state (filled_name py b), rw quantity enough)),
            ),
          ),
        ),
      ),
    ),
  )

  filled_decision :
      ((mandatory_fill_decision py (dict (final_result source v))).accepted ≡ true)
      ↔ (positive_number py f.row.cum_exec_qty ≡ true)
  filled_decision = (
    λ h.
        let (d, w, is_dict, _, ver, full) =
          (mandatory_fill_decision_iff py (dict (final_result source v))).0 h in
        let same : verification_fields v ≡ w = dict_injective _ _ (
          sym (read_verification source v f.accepted)
          ∙ (ap (get "fillVerification") (dict_injective _ _ is_dict) ∙ ver)) in
        rw (← quantity, same) full.1.1.1.1.1.1.1.1,
    λ enough. (mandatory_fill_decision_iff py (dict (final_result source v))).1 (
      final_result source v,
      verification_fields v,
      refl,
      ret_code_ok-int py (final_result source v) (pos 0) b.keeps_int
          (read_code source v f.accepted (int (negsuc 0))),
      read_verification source v f.accepted,
      full_fill enough,
    ),
  )

  pub filled_decision_row :
      ((mandatory_fill_decision py (dict (final_result source v))).accepted ≡ true)
      → (row : StatusRow) × (v.row ≡ some row) × (positive_number py row.cum_exec_qty ≡ true)
  filled_decision_row h = (f.row, f.has_row, filled_decision.0 h)

  pub row_filled_decision :
      (row : StatusRow)
      → v.row ≡ some row
      → positive_number py row.cum_exec_qty ≡ true
      → (mandatory_fill_decision py (dict (final_result source v))).accepted ≡ true
  row_filled_decision row e enough =
      let same : f.row ≡ row = some_injective _ _ (sym f.has_row ∙ e) in
      filled_decision.1 (rw same enough)

pub shown_IsFilled :
    (env : Env) (symbol : String) (order : Fields) (attempts : ℤ) (delays : Bool)
    → (verify_final_fill env symbol (dict order) attempts delays).accepted ≡ true
    → IsFilled (verify_final_fill env symbol (dict order) attempts delays)
shown_IsFilled env symbol order attempts delays h =
    elim (verify-ShownBy env symbol order attempts delays (inr h)) [
      | inl (_, refused) ↦ cc (h, refused)
      | inr s ↦ rw s.classifies (classified-IsFilled env.py s.row s.attempt (rw s.classifies at h))
    ]
