-- ===== src/Commands/Storage/Laws.antt =====
-- The transitions of backend/execution_command_storage.py, and what its updates make of a row.
use bybit_intraday_trading_b.Prelude.{
  ℕ, ◌≤◌, ◌≡◌, refl, sym, ap, ◌∙◌, ◌⊎◌, inl, inr, String, true, false, Option, none, some, arith,
  eq_iff,
}
use bybit_intraday_trading_b.Python.{Fields}
use bybit_intraday_trading_b.Commands.Types.{
  CommandState, available, reserved, order_pending, partially_filled, managing, closing, closed,
  failed, is_active, is_available, allowed, state_name, named_in, all_states, Command,
}
use bybit_intraday_trading_b.Commands.Table.Laws.{IsSound}
use bybit_intraday_trading_b.Commands.Storage.{
  is_state, has_state, reserved_row, refreshed_row, is_owner, is_held, moved_row,
}

named_self : (s : CommandState) → named_in all_states (state_name s) ≡ some s
unfolding named_in
named_self available = refl
named_self reserved = refl
named_self order_pending = refl
named_self partially_filled = refl
named_self managing = refl
named_self closing = refl
named_self closed = refl
named_self failed = refl

some_injective : (s t : CommandState) → some s ≡ some t → s ≡ t
some_injective s t e = cc

pub same_state : (s t : CommandState) → is_state s t ≡ true → s ≡ t
same_state s t h =
    let same = (eq_iff (state_name s) (state_name t)).0 h in
    some_injective s t (sym (named_self s) ∙ (ap (named_in all_states) same ∙ named_self t))

never_available : (s t : CommandState) → has_state t (allowed s) ≡ true → is_available t ≡ false
unfolding has_state
never_available available available h = cc
never_available reserved available h = cc
never_available order_pending available h = cc
never_available partially_filled available h = cc
never_available managing available h = cc
never_available closing available h = cc
never_available closed available h = cc
never_available failed available h = cc
never_available s reserved h = refl
never_available s order_pending h = refl
never_available s partially_filled h = refl
never_available s managing h = refl
never_available s closing h = refl
never_available s closed h = refl
never_available s failed h = refl

from_unfinished :
    (s t : CommandState)
    → has_state t (allowed s) ≡ true
    → (is_available s ≡ true) ⊎ (is_active s ≡ true)
unfolding has_state
from_unfinished available t h = inl refl
from_unfinished reserved t h = inr refl
from_unfinished order_pending t h = inr refl
from_unfinished partially_filled t h = inr refl
from_unfinished managing t h = inr refl
from_unfinished closing t h = inr refl
from_unfinished closed t h = cc
from_unfinished failed t h = cc

owned : (owner : String) (o : Option String) → is_owner owner o ≡ true → o ≡ none → ⊥
owned owner none h e = cc
owned owner (some p) h e = cc

-- each update leaves sound rows sound

pub reserved-IsSound :
    (owner : String) (slot timestamp : ℕ) (c : Command)
    → 1 ≤ slot
    → slot ≤ 3
    → IsSound (reserved_row slot owner timestamp c)
unfolding reserved_row
reserved-IsSound owner slot timestamp c low high = (λ h. (slot, refl, low, high), λ h. cc)

pub refreshed-IsSound :
    (payload : Fields) (timestamp : ℕ) (c : Command) → IsSound (refreshed_row payload timestamp c)
unfolding refreshed_row
refreshed-IsSound payload timestamp c = (λ h. cc, λ h. refl)

pub moved-IsSound :
    (key owner : String) (expected target : CommandState) (timestamp : ℕ)
    → has_state target (allowed expected) ≡ true
    → (c : Command) → IsSound c
    → is_held key owner expected c ≡ true
    → IsSound (moved_row target timestamp c)
unfolding moved_row
moved-IsSound key owner expected target timestamp permitted c sound held =
    let was : expected ≡ c.state = same_state expected c.state (ground (arith, held)) in
    let mine : is_owner owner c.owner_id ≡ true = ground (arith, held) in
    let never = never_available expected target permitted in
    (
      λ h. elim (from_unfinished expected target permitted) [
        | inl waiting ↦
            let gone : ⊥ = owned owner c.owner_id mine (sound.1 (rw was at waiting)) in
            elim gone [ ]
        | inr active ↦ sound.0 (rw was at active)
      ],
      λ h. cc (never, h),
    )
