-- ===== src/Outbox/Deliver/Again.antt =====
-- A second delivery of the same candidates by `_deliver_direct` of
-- backend/execution_command_outbox.py.
use bybit_intraday_trading_b.Prelude.{
  ℕ, ◌+◌, ◌≤◌, ◌≡◌, refl, ap, ◌∙◌, inl, inr, String, Bool, true, false, not, ◌||◌, List, [], ◌∷◌,
  All, arith, length, str_eq, if◌then◌else◌, Bool-cases, eq_iff,
}
use bybit_intraday_trading_b.Python.{Fields, is_empty}
use bybit_intraday_trading_b.Python.Laws.{str_eq-apart_sym}
use bybit_intraday_trading_b.Outbox.Types.{Checked, payload, invalid, Posted, Settings, Env}
use bybit_intraday_trading_b.Outbox.Payload.{handoff_payload, handoff_settings}
use bybit_intraday_trading_b.Outbox.Deliver.{
  Known, Delivery, remember, is_same, note_invalid, note_duplicate, note_retry, note_delivered,
  note_sent, begin_delivery, delivery_key, note_answer, send, deliver_payload, deliver_checked,
  deliver_one, deliver_all, deliver_direct,
}

-- a payload that is not known to be delivered
abbrev pub is_open_as : Env → Known → String → Checked → Bool
is_open_as env known key (invalid reason) = false
is_open_as env known key (payload d) = not (is_same (env.canonical d) (known key))

abbrev one_if : Bool → ℕ
one_if b = if b then 1 else 0

module _ (env : Env) where
  abbrev pub is_open : Known → Fields → Bool
  is_open known c = is_open_as env known (delivery_key env c) (handoff_payload env c)

  -- how many candidates have a payload that is not known to be delivered
  abbrev pub count_open : Known → List Fields → ℕ
  count_open known [] = 0
  count_open known (c ∷ cs) = one_if (is_open known c) + count_open known cs

  -- the candidate's key is that of none of the others
  abbrev pub HasOwnKey : Fields → List Fields → Type 0
  HasOwnKey c cs = All (λ d. str_eq (delivery_key env c) (delivery_key env d) ≡ false) cs

  abbrev pub AreDistinct : List Fields → Type 0
  AreDistinct [] = Unit
  AreDistinct (c ∷ cs) = HasOwnKey c cs × AreDistinct cs

  is_open-same :
      (before after : Known) (c : Fields)
      → after (delivery_key env c) ≡ before (delivery_key env c)
      → is_open after c ≡ is_open before c
  is_open-same before after c e = open_same (handoff_payload env c)
    where
      open_same :
          (checked : Checked)
          → is_open_as env after (delivery_key env c) checked
            ≡ is_open_as env before (delivery_key env c) checked
      open_same (invalid reason) = refl
      open_same (payload d) = ap (λ o. not (is_same (env.canonical d) o)) e

  -- what one candidate does to the rest of the loop's state
  record Effect (c : Fields) (checked : Checked) (s after : Delivery) : Type 0 where
    other_keys : (k : String) → str_eq (delivery_key env c) k ≡ false → after.known k ≡ s.known k
    -- it is left open only if it is to be retried
    left_open :
        one_if (is_open_as env after.known (delivery_key env c) checked) + s.retrying
        ≤ after.retrying
    -- it is posted only if it was open
    posts :
        length after.sent
        ≤ length s.sent + one_if (is_open_as env s.known (delivery_key env c) checked)

  one_if-max : (b : Bool) → one_if b ≤ 1
  one_if-max true = omega arith
  one_if-max false = omega arith

  note_answer-Effect :
      (c d : Fields) (p : Posted) (s : Delivery)
      → is_same (env.canonical d) (s.known (delivery_key env c)) ≡ false
      → Effect c (payload d) s (note_answer env (delivery_key env c) d p (note_sent d s))
  unfolding note_answer note_delivered note_retry note_sent remember
  note_answer-Effect c d p s new = elim (Bool-cases p.ok) [
    | inl good ↦
        let itself : str_eq (delivery_key env c) (delivery_key env c) ≡ true =
          (eq_iff _ _).1 refl in
        let same : str_eq (env.canonical d) (env.canonical d) ≡ true = (eq_iff _ _).1 refl in
        rw good (record {
          other_keys = λ k apart. rw apart refl;
          left_open = rw (itself, same) (omega arith);
          posts = rw new (omega arith);
        })
    | inr bad ↦ rw bad (record {
      other_keys = λ k apart. refl;
      left_open = omega (arith, one_if-max _);
      posts = rw new (omega arith);
    })
  ]

  deliver_payload-Effect :
      (settings : Settings) (c d : Fields) (s : Delivery)
      → Effect c (payload d) s (deliver_payload env settings (delivery_key env c) d s)
  unfolding deliver_payload send note_duplicate note_retry
  deliver_payload-Effect settings c d s =
      elim (Bool-cases (is_same (env.canonical d) (s.known (delivery_key env c)))) [
        | inl known ↦ rw known (record {
          other_keys = λ k apart. refl;
          left_open = rw known (omega arith);
          posts = omega arith;
        })
        | inr new ↦ elim (Bool-cases (is_empty settings.url || is_empty settings.token)) [
          | inl missing ↦
              rw (new, missing)
                (record {
                  other_keys = λ k apart. refl;
                  left_open = omega (arith, one_if-max _);
                  posts = omega arith;
                })
          | inr configured ↦ rw (new, configured) (note_answer-Effect c d _ s new)
        ]
      ]

  deliver_checked-Effect :
      (settings : Settings) (c : Fields) (checked : Checked) (s : Delivery)
      → Effect c checked s (deliver_checked env settings c checked s)
  unfolding deliver_checked note_invalid
  deliver_checked-Effect settings c (invalid reason) s = record {
    other_keys = λ k apart. refl;
    left_open = omega arith;
    posts = omega arith;
  }
  deliver_checked-Effect settings c (payload d) s = deliver_payload-Effect settings c d s

  deliver_one-Effect :
      (settings : Settings) (c : Fields) (s : Delivery)
      → Effect c (handoff_payload env c) s (deliver_one env settings c s)
  unfolding deliver_one
  deliver_one-Effect settings c s = deliver_checked-Effect settings c (handoff_payload env c) s

  count_open-same :
      (before after : Known) (cs : List Fields)
      → All (λ c. after (delivery_key env c) ≡ before (delivery_key env c)) cs
      → count_open after cs ≡ count_open before cs
  count_open-same before after [] h = refl
  count_open-same before after (c ∷ cs) h =
      rw (is_open-same before after c h.0, count_open-same before after cs h.1) refl

  others_kept :
      (c : Fields) (cs : List Fields) (s after : Delivery)
      → Effect c (handoff_payload env c) s after
      → HasOwnKey c cs
      → All (λ d. after.known (delivery_key env d) ≡ s.known (delivery_key env d)) cs
  others_kept c [] s after e h = tt
  others_kept c (d ∷ cs) s after e h =
      (e.other_keys (delivery_key env d) h.0, others_kept c cs s after e h.1)

  -- the loop leaves a key alone that none of its candidates has
  deliver_all-other_keys :
      (settings : Settings) (c : Fields) (cs : List Fields) (s : Delivery)
      → HasOwnKey c cs
      → (deliver_all env settings cs s).known (delivery_key env c) ≡ s.known (delivery_key env c)
  unfolding deliver_all
  deliver_all-other_keys settings c [] s h = refl
  deliver_all-other_keys settings c (d ∷ cs) s h =
      deliver_all-other_keys settings c cs (deliver_one env settings d s) h.1
      ∙ (deliver_one-Effect settings d s).other_keys (delivery_key env c) (str_eq-apart_sym _ _ h.0)

  deliver_all-left_open :
      (settings : Settings) (cs : List Fields) (s : Delivery)
      → AreDistinct cs
      → count_open (deliver_all env settings cs s).known cs + s.retrying
        ≤ (deliver_all env settings cs s).retrying
  unfolding deliver_all
  deliver_all-left_open settings [] s h = omega arith
  deliver_all-left_open settings (c ∷ cs) s h =
      let after = deliver_one env settings c s in
      let own =
        is_open-same after.known (deliver_all env settings cs after).known c
          (deliver_all-other_keys settings c cs after h.0) in
      rw own (
        omega (
          arith,
          deliver_all-left_open settings cs after h.1,
          (deliver_one-Effect settings c s).left_open,
        ))

  deliver_all-posts :
      (settings : Settings) (cs : List Fields) (s : Delivery)
      → AreDistinct cs
      → length (deliver_all env settings cs s).sent ≤ length s.sent + count_open s.known cs
  unfolding deliver_all
  deliver_all-posts settings [] s h = omega arith
  deliver_all-posts settings (c ∷ cs) s h =
      let after = deliver_one env settings c s in
      let effect = deliver_one-Effect settings c s in
      let same = count_open-same s.known after.known cs (others_kept c cs s after effect h.0) in
      omega (arith, deliver_all-posts settings cs after h.1, effect.posts, same)

  -- Candidates with distinct keys that are delivered twice in a row: the second delivery posts at
  -- most as many payloads as the first left to be retried.
  pub redelivery-bound :
      (known : Known) (sent cs : List Fields)
      → AreDistinct cs
      → length
          (deliver_direct env
            (deliver_direct env known sent cs).known
            (deliver_direct env known sent cs).sent
            cs).sent
        ≤ length (deliver_direct env known sent cs).sent
          + (deliver_direct env known sent cs).retrying
  unfolding deliver_direct begin_delivery
  redelivery-bound known sent cs h =
      let first = deliver_direct env known sent cs in
      omega (
        arith,
        deliver_all-left_open (handoff_settings env) cs (begin_delivery known sent) h,
        deliver_all-posts (handoff_settings env) cs (begin_delivery first.known first.sent) h,
      )
