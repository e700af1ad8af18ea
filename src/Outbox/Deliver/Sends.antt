-- ===== src/Outbox/Deliver/Sends.antt =====
-- What `_deliver_direct` of backend/execution_command_outbox.py posts, and how often.
use bybit_intraday_trading_b.Prelude.{
  ◌≡◌, refl, sym, inl, inr, String, Bool, true, false, not, ◌&&◌, ◌||◌, List, [], ◌∷◌, All,
  if◌then◌else◌, Bool-cases,
}
use bybit_intraday_trading_b.Python.{
  Fields, get, is_true, is_false, is_text, is_empty, str_or_empty,
}
use bybit_intraday_trading_b.Handoff.Fill.{is_in, positive_number}
use bybit_intraday_trading_b.Outbox.Types.{Checked, payload, invalid, Posted, Settings, Env}
use bybit_intraday_trading_b.Outbox.Payload.{
  unless◌say◌then◌, payload_of, key_of, symbol_of, handoff_payload, handoff_settings,
}
use bybit_intraday_trading_b.Outbox.Deliver.{
  Delivery, is_same, note_invalid, note_duplicate, note_retry, note_delivered, note_sent,
  delivery_key, note_answer, send, deliver_payload, deliver_checked, deliver_one, deliver_all,
}

unless_payload :
    (b : Bool) (reason : String) (rest : Checked) (d : Fields)
    → (unless b say reason then rest) ≡ payload d
    → (b ≡ true) × (rest ≡ payload d)
unless_payload true reason rest d h = (refl, h)
unless_payload false reason rest d h = absurd (invalid_apart h)
  where
    invalid_apart : {r : String} {e : Fields} → invalid r ≡ payload e → ⊥
    invalid_apart h = cc

payload_injective : (d e : Fields) → payload d ≡ payload e → d ≡ e
payload_injective d e h = cc

module _ (env : Env) where
  open env use {py}

  -- A candidate that Entry Safety approved and that is not submitted, of grade A+ or A, with a key, a
  -- symbol, a side and a positive entry price.
  abbrev pub IsApproved : Fields → Type 0
  IsApproved c =
      (is_true (get "riskApproved" c) && is_text "APPROVED_RISK" (get "riskStatus" c) ≡ true)
      × (is_in (str_or_empty py (get "grade" c)) ("A+" ∷ "A" ∷ []) ≡ true)
      × (is_false (get "orderSubmitted" c) ≡ true)
      × (not (is_empty (key_of env c))
            && (not (is_empty (symbol_of env c))
                && is_in (str_or_empty py (get "side" c)) ("Buy" ∷ "Sell" ∷ []))
          ≡ true)
      × (positive_number py (get "entryReference" c) ≡ true)

  -- the payload of a candidate that was offered and is approved, sent where a URL and a token are set
  abbrev pub IsPost : (Fields → Type 0) → Fields → Type 0
  IsPost Offered d =
      (c : Fields) × Offered c
      × IsApproved c
      × (d
          ≡ payload_of (key_of env c) (symbol_of env c) (str_or_empty py (get "side" c))
              (str_or_empty py (get "grade" c)) c)
      × (is_empty (handoff_settings env).url || is_empty (handoff_settings env).token ≡ false)

  handoff_payload-IsApproved :
      (c d : Fields)
      → handoff_payload env c ≡ payload d
      → IsApproved c
        × (d
            ≡ payload_of
                (key_of env c)
                (symbol_of env c)
                (str_or_empty py (get "side" c))
                (str_or_empty py (get "grade" c))
                c)
  unfolding handoff_payload
  handoff_payload-IsApproved c d h =
      let a = unless_payload _ _ _ d h in
      let b = unless_payload _ _ _ d a.1 in
      let e = unless_payload _ _ _ d b.1 in
      let f = unless_payload _ _ _ d e.1 in
      let g = unless_payload _ _ _ d f.1 in
      ((a.0, b.0, e.0, f.0, g.0), payload_injective _ _ (sym g.1))

  note_answer-sent :
      (key : String) (d : Fields) (p : Posted) (s : Delivery)
      → (note_answer env key d p s).sent ≡ s.sent
  unfolding note_answer note_delivered note_retry
  note_answer-sent key d p s = elim (Bool-cases p.ok) [
    | inl good ↦ rw good refl
    | inr bad ↦ rw bad refl
  ]

  -- a post is added where the payload is new and a URL and a token are set, else nothing
  deliver_payload-sent :
      (P : List Fields → Type 0) (settings : Settings) (key : String) (d : Fields) (s : Delivery)
      → P s.sent
      → (is_empty settings.url || is_empty settings.token ≡ false
          → is_same (env.canonical d) (s.known key) ≡ false
          → P (d ∷ s.sent))
      → P (deliver_payload env settings key d s).sent
  unfolding deliver_payload send note_duplicate note_retry note_sent
  deliver_payload-sent P settings key d s same more =
      elim (Bool-cases (is_same (env.canonical d) (s.known key))) [
        | inl known ↦ rw known same
        | inr new ↦ elim (Bool-cases (is_empty settings.url || is_empty settings.token)) [
          | inl missing ↦ rw (new, missing) same
          | inr configured ↦
              rw (new, configured, note_answer-sent key d _ (note_sent d s)) (more configured new)
        ]
      ]

  module _ (Offered : Fields → Type 0) where
    deliver_checked-IsPost :
        (c : Fields) (checked : Checked) (s : Delivery)
        → handoff_payload env c ≡ checked
        → Offered c
        → All (IsPost Offered) s.sent
        → All (IsPost Offered) (deliver_checked env (handoff_settings env) c checked s).sent
    unfolding deliver_checked note_invalid
    deliver_checked-IsPost c (invalid reason) s e offered h = h
    deliver_checked-IsPost c (payload d) s e offered h =
        let approved = handoff_payload-IsApproved c d e in
        deliver_payload-sent (λ sent. All (IsPost Offered) sent) (handoff_settings env)
          (delivery_key env c) d s h
          (λ configured new. ((c, offered, approved.0, approved.1, configured), h))

    pub deliver_all-IsPost :
        (cs : List Fields) (s : Delivery)
        → All Offered cs
        → All (IsPost Offered) s.sent
        → All (IsPost Offered) (deliver_all env (handoff_settings env) cs s).sent
    unfolding deliver_all deliver_one
    deliver_all-IsPost [] s offered h = h
    deliver_all-IsPost (c ∷ cs) s offered h =
        deliver_all-IsPost cs _ offered.1
          (deliver_checked-IsPost c (handoff_payload env c) s refl offered.0 h)
