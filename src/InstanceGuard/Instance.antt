-- ===== src/InstanceGuard/Instance.antt =====
-- The module's state of backend/runtime_instance_guard.py in one process, with `_lock_id`,
-- `_set_core_state` and the updates of `_STATE`.
use Prim.Native.String.{◌++◌ as append}
use bybit_intraday_trading_b.Prelude.{
  ℕ, ◌^◌, String, Bool, true, false, Option, none, some, ltb, if◌then◌else◌,
}
use bybit_intraday_trading_b.Prelude.Int.{ℤ, pos, negsuc}
use bybit_intraday_trading_b.Python.{bool, str, dict, Fields, end, field, put, Python}

abbrev pub default_lock_id : ℤ
default_lock_id = pos 742_026_073_001

-- `_STATE`
pub record GuardState : Type 0 where
  pub status : String
  pub leader : Bool
  pub lock_id : ℤ
  pub acquired_at : ℕ
  pub released_at : ℕ
  pub last_checked_at : ℕ
  pub last_error : Option String
  pub reason : String

abbrev pub initial_state : GuardState
initial_state = record {
  status = "not_initialized";
  leader = false;
  lock_id = default_lock_id;
  acquired_at = 0;
  released_at = 0;
  last_checked_at = 0;
  last_error = none;
  reason = "Runtime leadership has not been initialized.";
}

-- The module in one process: `_CONNECTION`, `_STATE`, whether `_CORE` is set, and `BOT_STATE` of the
-- core, where it is a dict with its lock.
pub record Instance : Type 0 where
  pub connection : Option ℕ
  pub state : GuardState
  pub has_core : Bool
  pub bot : Option Fields

-- `-(2**63) <= value < 2**63`
abbrev pub is_word : ℤ → Bool
is_word (pos n) = ltb n (2 ^ 63)
is_word (negsuc n) = ltb n (2 ^ 63)

-- `_lock_id`, once `int(raw)` is known
unfoldable pub lock_id_of : Option ℤ → ℤ
lock_id_of none = default_lock_id
lock_id_of (some n) = if is_word n then n else default_lock_id

-- `_lock_id`, from the value of `RUNTIME_LEADER_LOCK_ID`
unfoldable pub lock_id : Python → Option String → ℤ
lock_id py none = default_lock_id
lock_id py (some raw) = lock_id_of (py.to_int (str raw))

unfoldable pub mark_leadership : Bool → String → String → Fields → Fields
mark_leadership leader status reason d =
    put "runtimeLeadership"
      (dict (
        field "leader" (bool leader)
          (field "status" (str status) (field "reason" (str reason) end))))
      (put "runtimeExecutionLeader" (bool leader) d)

unfoldable pub disable : String → Fields → Fields
disable reason d = put "lastReason" (str reason) (
    put "executionGuard" (dict (field "ok" (bool false) (field "reason" (str reason) end)))
      (put "enabled" (bool false) d))

unfoldable pub marked : Bool → String → String → Fields → Fields
marked leader status reason d =
    let shown = mark_leadership leader status reason d in
    if leader then shown else disable reason shown

unfoldable pub marked_bot : Bool → String → String → Option Fields → Option Fields
marked_bot leader status reason none = none
marked_bot leader status reason (some d) = some (marked leader status reason d)

-- `_set_core_state`
unfoldable pub set_core_state : Bool → String → Instance → Instance
set_core_state leader reason i = record i { bot = marked_bot leader i.state.status reason i.bot }

-- `_set_core_state(_CORE, …)`, where there is a core
unfoldable pub set_known_core : String → Instance → Instance
set_known_core reason i = if i.has_core then set_core_state false reason i else i

-- the `_STATE.update`s of `acquire`, `snapshot_unlocked` and `release`
unfoldable pub start_acquiring : ℤ → ℕ → Instance → Instance
start_acquiring lock now i = record i {
  state = record i.state {
    status = "acquiring";
    leader = false;
    lock_id = lock;
    last_checked_at = now;
    last_error = none;
  };
}

abbrev pub no_store : String
no_store = "Persistent PostgreSQL store is unavailable; runtime leadership denied."

unfoldable pub blocked : Instance → Instance
blocked i =
    set_core_state false no_store
      (record i { state = record i.state { status = "blocked"; reason = no_store } })

abbrev pub other_owner : String
other_owner = "Another runtime instance owns the automatic-execution leader lock."

unfoldable pub standby : ℕ → Instance → Instance
standby now i = set_core_state false other_owner (record i {
  state = record i.state {
    status = "standby";
    leader = false;
    reason = other_owner;
    last_checked_at = now;
  };
})

abbrev pub own_lock : String
own_lock = "This instance owns the automatic-execution leader lock."

unfoldable pub promoted : ℕ → ℕ → Instance → Instance
promoted session now i = set_core_state true own_lock (record i {
  connection = some session;
  state = record i.state {
    status = "leader";
    leader = true;
    acquired_at = now;
    released_at = 0;
    last_checked_at = now;
    last_error = none;
    reason = own_lock;
  };
})

unfoldable pub failed : String → ℕ → Instance → Instance
failed text now i =
    let reason = append "Runtime leadership check failed: " text in
    set_core_state false reason (record i {
      state = record i.state {
        status = "error";
        leader = false;
        last_error = some text;
        last_checked_at = now;
        reason = reason;
      };
    })

abbrev pub connection_lost : String
connection_lost = "Runtime leader connection was lost; automatic execution is blocked."

unfoldable pub lost : String → ℕ → Instance → Instance
lost text now i = set_known_core connection_lost (record i {
  connection = none;
  state = record i.state {
    status = "lost";
    leader = false;
    last_checked_at = now;
    last_error = some text;
    reason = connection_lost;
  };
})

unfoldable pub checked : ℕ → Instance → Instance
checked now i = record i { state = record i.state { last_checked_at = now; last_error = none } }

abbrev pub is_set : Option ℕ → Bool
is_set none = false
is_set (some s) = true

-- the error of a query that raised
unfoldable pub note_error : Option String → Instance → Instance
note_error none i = i
note_error (some text) i = record i { state = record i.state { last_error = some text } }

unfoldable pub released : String → ℕ → ℕ → Instance → Instance
released reason released_now checked_now i = record i {
  connection = none;
  state = record i.state {
    status = "released";
    leader = false;
    released_at = released_now;
    last_checked_at = checked_now;
    reason = reason;
  };
}

unfoldable pub forget_core : Instance → Instance
forget_core i = record i { has_core = false }
