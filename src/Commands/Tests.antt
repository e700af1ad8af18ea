-- ===== src/Commands/Tests.antt =====
-- Runs of the command table on concrete inputs, and the theorem at a history with a race.
use bybit_intraday_trading_b.Prelude.{
  ◌≤◌, ◌≡◌, refl, String, Bool, true, false, some, List, [], All, arith, str_eq,
}
use bybit_intraday_trading_b.Python.{is_empty, int, Fields, end, field}
use bybit_intraday_trading_b.Prelude.Int.{pos}
use bybit_intraday_trading_b.Commands.Types.{Command, returns}
use bybit_intraday_trading_b.Commands.Table.{slots_unique, count_active}
use bybit_intraday_trading_b.Commands.Table.Laws.{IsSound}
use bybit_intraday_trading_b.Commands.Storage.{
  is_blank, get_execution_command, published, publish_execution_command, claim_execution_command,
  claim_selected,
}
use bybit_intraday_trading_b.Commands.Storage.Roundtrip.{
  first_row, is_new, get_execution_command-publish_execution_command,
}
use bybit_intraday_trading_b.Commands.History.{nothing, then_step, publish, claim, late_claim}
use bybit_intraday_trading_b.Commands.History.Life.{Follows, Step-Follows}
use bybit_intraday_trading_b.Commands.History.Laws.{at_most_three_active}

abbrev same : String → String
same s = s

abbrev before : String → String → Bool
before s t = str_eq s "A"

abbrev payload : Fields
payload = field "qty" (int (pos 1)) end

abbrev one_row : List Command
one_row = (publish_execution_command same same before "A" payload 10 []).1

abbrev two_rows : List Command
two_rows = (publish_execution_command same same before "B" payload 11 one_row).1

abbrev claimed : List Command
claimed = (claim_execution_command same same before "node-1" 1 12 two_rows).1

-- another worker had selected the second row for the slot that is now taken
abbrev raced : List Command
raced = (claim_selected same same before "node-2" 1 13 (some (published "B" payload 11)) claimed).1

at_most_three_active_example :
    (count_active raced ≤ 3) × (slots_unique raced ≡ true) × All IsSound raced
at_most_three_active_example = at_most_three_active same same before {rows = raced} (
    then_step
      (then_step
        (then_step (then_step nothing (publish "A" payload 10 [])) (publish "B" payload 11 one_row))
        (claim "node-1" 1 12 two_rows))
      (late_claim "node-2" 1 13 (published "B" payload 11) claimed (omega arith) (omega arith)))

Step-Follows_example : Follows two_rows claimed
Step-Follows_example =
    Step-Follows same same before {rows = two_rows} {after = claimed} (claim "node-1" 1 12 two_rows)

named : is_empty "C" ≡ false
named = refl

given : is_blank payload ≡ false
given = refl

get_execution_command-publish_execution_command_example :
    ((publish_execution_command same same before "C" payload 14 two_rows).0
      ≡ returns (is_new (get_execution_command same same before "C" two_rows)))
    × (get_execution_command same same before "C"
          (publish_execution_command same same before "C" payload 14 two_rows).1
        ≡ some (
            first_row
              (get_execution_command same same before "C" two_rows)
              (published "C" payload 14)))
    × ((other : String)
        → ("C" ≡ other → ⊥)
        → get_execution_command same same before other
            (publish_execution_command same same before "C" payload 14 two_rows).1
          ≡ get_execution_command same same before other two_rows)
get_execution_command-publish_execution_command_example =
    get_execution_command-publish_execution_command same same before "C" payload 14 two_rows named
      given
