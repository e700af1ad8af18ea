-- ===== src/Outbox/Build/Fingerprint.antt =====
-- The fingerprint of the queues in backend/execution_command_outbox.py and the order of their rows.
use mathlib.Core.List.{Permᴰ}
use mathlib.Core.List.Permᴰ as PermD
use bybit_intraday_trading_b.Prelude.{
  ◌≡◌, refl, String, Bool, true, false, List, ◌∷◌, if◌then◌else◌,
}
use bybit_intraday_trading_b.Python.{Fields, get, truthy, str_or_empty}
use bybit_intraday_trading_b.Python.Order.Laws.{sorted_texts-Perm}
use bybit_intraday_trading_b.Outbox.Types.{Env}
use bybit_intraday_trading_b.Outbox.Build.{keys_of, fingerprint_of}

module _ (env : Env) where
  open env use {py}

  abbrev has_key : Fields → Bool
  has_key row = truthy (get "candidateKey" row)

  abbrev key : Fields → String
  key row = str_or_empty py (get "candidateKey" row)

  -- one row before the keys of the others
  abbrev with_key : Bool → String → List String → List String
  with_key b k rest = if b then k ∷ rest else rest

  with_key-Perm :
      (b : Bool) (k : String) {xs ys : List String}
      → Permᴰ xs ys
      → Permᴰ (with_key b k xs) (with_key b k ys)
  with_key-Perm true k p = Permᴰ.cons refl p
  with_key-Perm false k p = p

  with_key-swap :
      (b c : Bool) (j k : String) (xs : List String)
      → Permᴰ (with_key b j (with_key c k xs)) (with_key c k (with_key b j xs))
  with_key-swap true true j k xs = Permᴰ.swap refl refl
  with_key-swap true false j k xs = PermD.refl _
  with_key-swap false true j k xs = PermD.refl _
  with_key-swap false false j k xs = PermD.refl _

  keys_of-Perm : {xs ys : List Fields} → Permᴰ xs ys → Permᴰ (keys_of env xs) (keys_of env ys)
  unfolding keys_of
  keys_of-Perm Permᴰ.nil = Permᴰ.nil
  keys_of-Perm (Permᴰ.cons {a} same p) =
      rw (← same) (with_key-Perm (has_key a) (key a) (keys_of-Perm p))
  keys_of-Perm (Permᴰ.swap {a} {b} {l = l} first second) =
      rw (← first, ← second) (with_key-swap (has_key a) (has_key b) (key a) (key b) (keys_of env l))
  keys_of-Perm (Permᴰ.trans p q) = Permᴰ.trans (keys_of-Perm p) (keys_of-Perm q)

  -- The fingerprint of the two queues does not depend on the order of their rows.
  pub fingerprint_of-Perm :
      (risk sizing : Fields) {risks risks_after sizings sizings_after : List Fields}
      → Permᴰ risks risks_after
      → Permᴰ sizings sizings_after
      → fingerprint_of env risk risks sizing sizings
        ≡ fingerprint_of env risk risks_after sizing sizings_after
  unfolding fingerprint_of
  fingerprint_of-Perm risk sizing p q =
      rw (sorted_texts-Perm (keys_of-Perm p), sorted_texts-Perm (keys_of-Perm q)) refl
