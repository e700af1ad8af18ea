-- ===== src/OrderFill/Classify/Laws.antt =====
-- What the classification of backend/engines/order_fill.py never says.
use bybit_intraday_trading_b.Prelude.{◌≡◌, String, Bool, true, false, arith}
use bybit_intraday_trading_b.Handoff.Fill.{is_in}
use bybit_intraday_trading_b.OrderFill.Types.{filled}
use bybit_intraday_trading_b.OrderFill.Classify.{Class, class_of, filled_names}

-- how the four fields of a class agree, for an order of which something was executed or not
pub record IsCoherent (executed : Bool) (c : Class) : Type 0 where
  pub accepted_is_executed : c.accepted ≡ true → executed ≡ true
  pub accepted_is_resolved : c.accepted ≡ true → c.unresolved ≡ false
  pub accepted_is_filled : c.accepted ≡ true → c.state ≡ filled
  pub resolved_is_terminal : c.unresolved ≡ false → c.terminal ≡ true
  pub executed_is_kept : c.unresolved ≡ false → executed ≡ true → c.accepted ≡ true

pub class_of-IsCoherent :
    (status : String) (executed : Bool) → IsCoherent executed (class_of status executed)
unfolding class_of
class_of-IsCoherent status executed = record {
  accepted_is_executed = ground arith;
  accepted_is_resolved = ground arith;
  accepted_is_filled = ground arith;
  resolved_is_terminal = ground arith;
  executed_is_kept = ground arith;
}

pub class_accepted :
    (status : String) (executed : Bool)
    → (class_of status executed).accepted ≡ true
    → is_in status filled_names ≡ true
unfolding class_of
class_accepted status executed h = ground (arith, h)
