-- ===== src/Outbox/Deliver/Counts.antt =====
-- The counts of `_deliver_direct` of backend/execution_command_outbox.py against its rows.
use bybit_intraday_trading_b.Prelude.{
  ℕ, ◌+◌, ◌≤◌, ◌<◌, ◌≡◌, refl, ◌↔◌, inl, inr, String, Bool, true, false, ◌&&◌, ◌||◌, List, [], ◌∷◌,
  ◌++◌, arith, ltb, ◌==◌, length, if◌then◌else◌, Bool-cases, length-append,
}
use bybit_intraday_trading_b.Python.{Fields, get, is_text, is_empty}
use bybit_intraday_trading_b.Python.Laws.{str_eq-apart}
use bybit_intraday_trading_b.Outbox.Types.{Checked, payload, invalid, Posted, Settings, Env}
use bybit_intraday_trading_b.Outbox.Payload.{handoff_payload, handoff_settings}
use bybit_intraday_trading_b.Outbox.Deliver.{
  Known, Delivery, is_same, invalid_row, duplicate_row, unconfigured_row, retry_row, delivered_row,
  note_invalid, note_duplicate, note_retry, note_delivered, note_sent, status_of, begin_delivery,
  note_answer, send, deliver_payload, deliver_checked, deliver_one, deliver_all, deliver_direct,
}

-- how many rows have the state
abbrev pub in_state : String → List Fields → ℕ
in_state state [] = 0
in_state state (row ∷ rows) =
    if is_text state (get "state" row) then in_state state rows + 1 else in_state state rows

in_state-append :
    (state : String) (xs ys : List Fields)
    → in_state state (xs ++ ys) ≡ in_state state xs + in_state state ys
in_state-append state [] ys = omega arith
in_state-append state (x ∷ xs) ys = elim (Bool-cases (is_text state (get "state" x))) [
  | inl here ↦ rw (here, in_state-append state xs ys) (omega arith)
  | inr other ↦ rw (other, in_state-append state xs ys) (omega arith)
]

-- the counts of the loop are those of its rows, of which there are `n`
abbrev pub IsCounted : ℕ → Delivery → Type 0
IsCounted n s =
    (s.delivered ≡ in_state "DELIVERED" s.rows)
    × (s.retrying ≡ in_state "NODE_HANDOFF_RETRY" s.rows)
    × (s.rejected_invalid ≡ in_state "INVALID" s.rows)
    × (s.delivered + (s.retrying + s.rejected_invalid) ≡ n)
    × (length s.rows ≡ n)
    × (s.duplicates ≤ s.delivered)

-- a row's share of the three counts
abbrev Adds : Fields → ℕ → ℕ → ℕ → Type 0
Adds row d r i =
    (in_state "DELIVERED" (row ∷ []) ≡ d)
    × (in_state "NODE_HANDOFF_RETRY" (row ∷ []) ≡ r)
    × (in_state "INVALID" (row ∷ []) ≡ i)

invalid_row-Adds :
    (key : String) (c : Fields) (reason : String) → Adds (invalid_row key c reason) 0 0 1
unfolding invalid_row get
invalid_row-Adds key c reason = (refl, refl, refl)

duplicate_row-Adds : (key : String) (d : Fields) → Adds (duplicate_row key d) 1 0 0
unfolding duplicate_row get
duplicate_row-Adds key d = (refl, refl, refl)

unconfigured_row-Adds : (key : String) (d : Fields) → Adds (unconfigured_row key d) 0 1 0
unfolding unconfigured_row get
unconfigured_row-Adds key d = (refl, refl, refl)

append_row :
    (rows : List Fields) (row : Fields) (d r i : ℕ)
    → Adds row d r i
    → (in_state "DELIVERED" (rows ++ (row ∷ [])) ≡ in_state "DELIVERED" rows + d)
      × (in_state "NODE_HANDOFF_RETRY" (rows ++ (row ∷ []))
          ≡ in_state "NODE_HANDOFF_RETRY" rows + r)
      × (in_state "INVALID" (rows ++ (row ∷ [])) ≡ in_state "INVALID" rows + i)
      × (length (rows ++ (row ∷ [])) ≡ length rows + 1)
append_row rows row d r i a = ground (
  arith,
  a,
  in_state-append "DELIVERED" rows (row ∷ []),
  in_state-append "NODE_HANDOFF_RETRY" rows (row ∷ []),
  in_state-append "INVALID" rows (row ∷ []),
  length-append rows (row ∷ []),
)

note_invalid-IsCounted :
    (n : ℕ) (row : Fields) (s : Delivery)
    → Adds row 0 0 1
    → IsCounted n s
    → IsCounted (n + 1) (note_invalid row s)
unfolding note_invalid
note_invalid-IsCounted n row s a h = ground (arith, h, append_row s.rows row 0 0 1 a)

note_duplicate-IsCounted :
    (n : ℕ) (row : Fields) (s : Delivery)
    → Adds row 1 0 0
    → IsCounted n s
    → IsCounted (n + 1) (note_duplicate row s)
unfolding note_duplicate
note_duplicate-IsCounted n row s a h = ground (arith, h, append_row s.rows row 1 0 0 a)

note_retry-IsCounted :
    (n : ℕ) (error : String) (row : Fields) (s : Delivery)
    → Adds row 0 1 0
    → IsCounted n s
    → IsCounted (n + 1) (note_retry error row s)
unfolding note_retry
note_retry-IsCounted n error row s a h = ground (arith, h, append_row s.rows row 0 1 0 a)

note_delivered-IsCounted :
    (n : ℕ) (key text : String) (row : Fields) (s : Delivery)
    → Adds row 1 0 0
    → IsCounted n s
    → IsCounted (n + 1) (note_delivered key text row s)
unfolding note_delivered
note_delivered-IsCounted n key text row s a h = ground (arith, h, append_row s.rows row 1 0 0 a)

module _ (env : Env) where
  note_answer-IsCounted :
      (n : ℕ) (key : String) (d : Fields) (p : Posted) (s : Delivery)
      → IsCounted n s
      → IsCounted (n + 1) (note_answer env key d p s)
  unfolding note_answer delivered_row retry_row get
  note_answer-IsCounted n key d p s h = elim (Bool-cases p.ok) [
    | inl good ↦ rw good (
        note_delivered-IsCounted n key (env.canonical d) (delivered_row env key d p.body) s
          (refl, refl, refl) h)
    | inr bad ↦ rw bad (note_retry-IsCounted n _ _ s (refl, refl, refl) h)
  ]

  deliver_payload-IsCounted :
      (settings : Settings) (n : ℕ) (key : String) (d : Fields) (s : Delivery)
      → IsCounted n s
      → IsCounted (n + 1) (deliver_payload env settings key d s)
  unfolding deliver_payload send note_sent
  deliver_payload-IsCounted settings n key d s h =
      elim (Bool-cases (is_same (env.canonical d) (s.known key))) [
        | inl known ↦
            rw known
              (note_duplicate-IsCounted n (duplicate_row key d) s (duplicate_row-Adds key d) h)
        | inr new ↦ elim (Bool-cases (is_empty settings.url || is_empty settings.token)) [
          | inl missing ↦
              rw (new, missing) (note_retry-IsCounted n _ _ s (unconfigured_row-Adds key d) h)
          | inr configured ↦
              rw (new, configured) (note_answer-IsCounted n key d _ (note_sent d s) h)
        ]
      ]

  deliver_checked-IsCounted :
      (settings : Settings) (n : ℕ) (c : Fields) (checked : Checked) (s : Delivery)
      → IsCounted n s
      → IsCounted (n + 1) (deliver_checked env settings c checked s)
  unfolding deliver_checked
  deliver_checked-IsCounted settings n c (invalid reason) s h =
      note_invalid-IsCounted n _ s (invalid_row-Adds _ c reason) h
  deliver_checked-IsCounted settings n c (payload d) s h =
      deliver_payload-IsCounted settings n _ d s h

  deliver_all-IsCounted :
      (settings : Settings) (cs : List Fields) (n : ℕ) (s : Delivery)
      → IsCounted n s
      → IsCounted (n + length cs) (deliver_all env settings cs s)
  unfolding deliver_all deliver_one
  deliver_all-IsCounted settings [] n s h = let all : n + 0 ≡ n = omega arith in rw all h
  deliver_all-IsCounted settings (c ∷ cs) n s h =
      let shift : n + 1 + length cs ≡ n + length (c ∷ cs) = omega arith in
      rw (← shift) (
        deliver_all-IsCounted settings cs (n + 1) (deliver_one env settings c s)
          (deliver_checked-IsCounted settings n c (handoff_payload env c) s h))

abbrev degraded_if : Bool → String
degraded_if busy = if busy then "DEGRADED" else "WAIT"

abbrev passed_if : Bool → Bool → String
passed_if good busy = if good then "PASS" else degraded_if busy

not_pass : (busy : Bool) → degraded_if busy ≡ "PASS" → ⊥
not_pass true = str_eq-apart "DEGRADED" "PASS" refl
not_pass false = str_eq-apart "WAIT" "PASS" refl

passes_only : (good busy : Bool) → passed_if good busy ≡ "PASS" → good ≡ true
passes_only true busy e = refl
passes_only false busy e = absurd (not_pass busy e)

status-pass :
    (cs : List Fields) (s : Delivery)
    → IsCounted (length cs) s
    → (status_of cs s ≡ "PASS") ↔ ((0 < length cs) × (s.delivered ≡ length cs))
unfolding status_of
status-pass [] s h = (
  λ e. absurd (not_pass (ltb 0 s.retrying || ltb 0 s.rejected_invalid) e),
  λ e. ground (arith, e),
)
status-pass (c ∷ cs) s h = (
  λ e. ground (arith, h, passes_only (s.retrying == 0 && s.rejected_invalid == 0) _ e),
  λ e.
      let clean : s.retrying == 0 && s.rejected_invalid == 0 ≡ true = ground (arith, h, e.1) in
      rw clean refl,
)

-- Each candidate of a delivery gets one row; the counts delivered, retrying and invalid are the
-- numbers of rows in those states and add up to the number of candidates; and the status is PASS
-- exactly when there are candidates and all are delivered.
pub deliver_direct-IsCounted :
    (env : Env) (known : Known) (sent candidates : List Fields)
    → IsCounted (length candidates) (deliver_direct env known sent candidates)
      × ((status_of candidates (deliver_direct env known sent candidates) ≡ "PASS") ↔ (
          (0 < length candidates)
          × ((deliver_direct env known sent candidates).delivered ≡ length candidates)))
unfolding deliver_direct begin_delivery
deliver_direct-IsCounted env known sent candidates =
    let total : 0 + length candidates ≡ length candidates = omega arith in
    let counted : IsCounted (length candidates) (deliver_direct env known sent candidates) =
      rw (← total) (
        deliver_all-IsCounted env (handoff_settings env) candidates 0 (begin_delivery known sent)
          (refl, refl, refl, refl, refl, omega arith)) in
    (counted, status-pass candidates _ counted)
