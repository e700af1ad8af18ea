-- ===== src/InstanceGuard/Tests.antt =====
-- An instance that leads and one that may not, and the theorems at inputs that meet their hypotheses.
use bybit_intraday_trading_b.Prelude.{ℕ, ◌≡◌, refl, true, false, none, some}
use bybit_intraday_trading_b.Python.{bool, end, field}
use bybit_intraday_trading_b.Python.Fixed.{python}
use bybit_intraday_trading_b.InstanceGuard.OneLock.{no_sessions, one_lock, one_lock-Laws}
use bybit_intraday_trading_b.InstanceGuard.Instance.{
  default_lock_id, lock_id, marked_bot, set_core_state, start_acquiring, blocked, promoted, checked,
}
use bybit_intraday_trading_b.InstanceGuard.Guard.{
  is_leader, after_ping, check_session, snapshot, after_lock, after_connect, acquire_lock, acquire,
}
use bybit_intraday_trading_b.InstanceGuard.Guard.Closed.{IsDisabled, acquire-IsDisabled}
use bybit_intraday_trading_b.InstanceGuard.History.{
  imported_module, World, replace, acquires, History, begins, then_step,
}
use bybit_intraday_trading_b.InstanceGuard.History.Leader.{one_leader}

abbrev started : World python one_lock
started = record { instances = λ n. imported_module none; database = no_sessions }

abbrev led : World python one_lock
led =
    replace python one_lock 0
      (acquire one_lock (λ n. 100) (lock_id python none) true (started.instances 0)
        started.database)
      started

led_past : History python one_lock led
led_past = then_step (begins (λ n. none) no_sessions) (acquires 0 (λ n. 100) none true started)

it_leads : (is_leader one_lock (λ n. 101) (led.instances 0) led.database).0 ≡ true
unfolding replace acquire acquire_lock after_connect after_lock promoted set_core_state marked_bot
    start_acquiring lock_id is_leader snapshot check_session after_ping checked
it_leads = refl

it_leads_still :
    (is_leader one_lock
      (λ n. 102)
      (led.instances 0)
      (is_leader one_lock (λ n. 101) (led.instances 0) led.database).1.1).0
    ≡ true
unfolding replace acquire acquire_lock after_connect after_lock promoted set_core_state marked_bot
    start_acquiring lock_id is_leader snapshot check_session after_ping checked
it_leads_still = refl

one_leader_example : ◌≡◌ {A = ℕ} 0 0
one_leader_example =
    one_leader python one_lock one_lock-Laws led led_past 0 0 (λ n. 101) (λ n. 102) refl it_leads
      it_leads_still

it_is_blocked :
    (acquire one_lock
      (λ n. 100)
      default_lock_id
      false
      (imported_module (some (field "enabled" (bool true) end)))
      no_sessions).0.state.leader
    ≡ false
unfolding acquire acquire_lock blocked set_core_state start_acquiring
it_is_blocked = refl

acquire-IsDisabled_example :
    IsDisabled
      (acquire one_lock
        (λ n. 100)
        default_lock_id
        false
        (imported_module (some (field "enabled" (bool true) end)))
        no_sessions).0.bot
acquire-IsDisabled_example =
    acquire-IsDisabled one_lock (λ n. 100) default_lock_id false
      (imported_module (some (field "enabled" (bool true) end))) no_sessions it_is_blocked
