-- ===== src/OrderFill/Poll.antt =====
-- `verify_final_fill` of backend/engines/order_fill.py: the polls of the two order queries.
pub mod Laws
pub mod Calls
pub mod Results
use Prim.Native.String.{◌++◌ as append}
use bybit_intraday_trading_b.Prelude.{
  ℕ, zero, suc, ◌+◌, ◌-◌, String, Bool, true, false, not, ◌&&◌, ◌||◌, Option, none, some, List, [],
  ◌∷◌, ◌++◌, max, length, drop, if◌then◌else◌,
}
use bybit_intraday_trading_b.Prelude.Int.{ℤ, pos, negsuc}
use bybit_intraday_trading_b.Python.{Value, str, dict, get, or_else, equals_zero, is_empty}
use bybit_intraday_trading_b.OrderFill.Types.{
  Source, realtime, history, source_name, path_of, Row, found, missing, FillState, partial, timeout,
  invalid_create_response, create_rejected, verification_error, Verification, OrderRef, by_id,
  by_link_id, Request, Answer, returns, raises, Env,
}
use bybit_intraday_trading_b.OrderFill.Classify.{identifiers, status_row, classified}

-- What the polls leave: the verification that is returned, or `last` and `errors` once the attempts
-- are used up; `requests` has the calls of `requester`, each with the number of its attempt, in
-- order, and `sleeps` counts those of `sleeper`.
pub record Progress : Type 0 where
  pub last : Option Verification
  pub errors : List String
  pub requests : List (ℕ × Request)
  pub sleeps : ℕ

pub data Ended : Type 0 where
  decided : Verification → Ended
  used_up : Ended

-- one attempt: the rows that were found, the errors, and the queries that were sent
pub record Round : Type 0 where
  pub candidates : List Verification
  pub messages : List String
  pub asked : List (ℕ × Request)

unfoldable pub no_round : Round
no_round = record { candidates = []; messages = []; asked = [] }

abbrev pub add_candidate : Verification → Round → Round
add_candidate v r = record r { candidates = v ∷ r.candidates }

abbrev pub add_message : String → Round → Round
add_message s r = record r { messages = s ∷ r.messages }

-- the call of `requester` in an attempt
abbrev pub add_query : ℕ → Request → Round → Round
add_query attempt q r = record r { asked = (attempt, q) ∷ r.asked }

-- the first candidate that satisfies the test
unfoldable pub first_with : (Verification → Bool) → List Verification → Option Verification
first_with test [] = none
first_with test (v ∷ rest) = let later = first_with test rest in if test v then some v else later

abbrev pub first_of : Option Verification → Option Verification → Option Verification
first_of (some v) other = some v
first_of none other = other

-- the loops over `candidates`: one that is accepted, else one that is terminal
unfoldable pub verdict : List Verification → Option Verification
verdict candidates =
    first_of (first_with (λ v. v.accepted) candidates) (first_with (λ v. v.terminal) candidates)

abbrev pub is_partial : Verification → Bool
is_partial v = elim v.state [ partial ↦ true | _ ↦ false ]

abbrev pub head_of : List Verification → Option Verification
head_of [] = none
head_of (v ∷ rest) = some v

-- the new `last`
unfoldable pub last_of : List Verification → Option Verification → Option Verification
last_of candidates last =
    first_of (first_with is_partial candidates) (first_of (head_of candidates) last)

-- `errors[-4:]`
unfoldable pub last_four : List String → List String
last_four errors = drop (length errors - 4) errors

-- `"; ".join(…)`
unfoldable pub joined : List String → String
joined [] = ""
joined (s ∷ []) = s
joined (s ∷ (t ∷ rest)) = append s (append "; " (joined (t ∷ rest)))

unfoldable pub message_of : List String → String
message_of errors =
    let text = joined (last_four errors) in
    if is_empty text then "Order status verification failed." else text

-- a verification with no row
unfoldable pub unverified : FillState → Bool → Bool → String → Verification
unverified state terminal unresolved reason = record {
  ok = false;
  accepted = false;
  final_filled = false;
  state = state;
  terminal = terminal;
  unresolved = unresolved;
  attempts = 0;
  reason = reason;
  row = none;
  ids = none;
}

-- `max(1, int(attempts))`
unfoldable pub total_attempts : ℤ → ℕ
total_attempts (pos n) = max 1 n
total_attempts (negsuc n) = 1

-- the end of `verify_final_fill`, once the attempts are used up
unfoldable pub deadline : String × String → ℕ → List String → Option Verification → Verification
deadline ids total errors (some last) = record last {
  state = if is_partial last then partial else timeout;
  terminal = false;
  unresolved = true;
  reason = "Final full fill was not confirmed before the verification deadline.";
}
deadline ids total errors none =
    record (unverified verification_error false true (message_of errors)) {
      attempts = total;
      ids = some ids;
    }

unfoldable pub result_of : String × String → ℕ → Ended × Progress → Verification
result_of ids total (decided v, p) = v
result_of ids total (used_up, p) = deadline ids total p.errors p.last

unfoldable pub order_ref : String × String → OrderRef
order_ref ids = if is_empty ids.0 then by_link_id ids.1 else by_id ids.0

-- `sleeper(delay_seconds)` between two attempts; `delays` is `delay_seconds > 0`
abbrev pub slept : Bool → ℕ → ℕ → ℕ
slept delays zero sleeps = sleeps
slept delays (suc left) sleeps = if delays then sleeps + 1 else sleeps

unfoldable pub after_round : Round → Progress → Progress
after_round r p = record p {
  last = last_of r.candidates p.last;
  errors = p.errors ++ r.messages;
  requests = p.requests ++ r.asked;
}

-- what follows a round: its verdict, or the attempts that are left
unfoldable pub settle : Option Verification → Progress → Ended × Progress → Ended × Progress
settle (some v) now later = (decided v, now)
settle none now later = later

unfoldable pub no_progress : Progress
no_progress = record { last = none; errors = []; requests = []; sleeps = 0 }

module _ (env : Env) (symbol : String) where
  open env use {py}

  abbrev pub request : Source → OrderRef → Request
  request source order = record { path = path_of source; symbol = symbol; order = order }

  -- one query, before the candidates and errors of the ones that follow
  unfoldable pub note_row : ℕ → Row → Round → Round
  note_row attempt (found row) r = add_candidate (classified py row attempt) r
  note_row attempt (missing message) r = add_message message r

  unfoldable pub note_answer : Source → ℕ → Answer → Round → Round
  note_answer source attempt (raises name) r =
      add_message (append (source_name source) (append ": " name)) r
  note_answer source attempt (returns payload) r = note_row attempt (status_row py source payload) r

  unfoldable pub query : OrderRef → ℕ → Source → Round → Round
  query order attempt source r =
      let q = request source order in
      add_query attempt q (note_answer source attempt (env.requester attempt q) r)

  unfoldable pub round_of : OrderRef → ℕ → Round
  round_of order attempt = query order attempt realtime (query order attempt history no_round)

  -- the attempts from number `attempt` on, of which `left` are left
  unfoldable pub poll : Bool → OrderRef → ℕ → ℕ → Progress → Ended × Progress
  poll delays order zero attempt p = (used_up, p)
  poll delays order (suc left) attempt p =
      let r = round_of order attempt in
      let now = after_round r p in
      settle (verdict r.candidates) now (
        poll delays order left (attempt + 1) (record now { sleeps = slept delays left now.sleeps }))

  -- the polls of an order with the identifiers `ids`, and what they cost
  unfoldable pub poll_order : String × String → ℤ → Bool → Ended × Progress
  poll_order ids attempts delays =
      poll delays (order_ref ids) (total_attempts attempts) 1 no_progress

  unfoldable pub verify_ids : String × String → ℤ → Bool → Verification
  verify_ids ids attempts delays =
      if is_empty ids.0 && is_empty ids.1
      then unverified verification_error false true
          "Order acknowledgement did not include an order identifier."
      else result_of ids (total_attempts attempts) (poll_order ids attempts delays)

  unfoldable pub verify_final_fill : Value → ℤ → Bool → Verification
  verify_final_fill (dict order) attempts delays =
      if not (equals_zero (get "retCode" order))
      then unverified create_rejected true false
          (py.to_str (or_else (get "retMsg" order) (str "Order create was rejected.")))
      else verify_ids (identifiers py (dict order)) attempts delays
  verify_final_fill _ attempts delays =
      unverified invalid_create_response true true "Order-create response is invalid."
