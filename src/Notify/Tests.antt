-- ===== src/Notify/Tests.antt =====
-- A subscriber that is given a number, takes three rows and is stopped, and the theorems at it.
use libapostol.Prelude.{
  length, ◌*◌, ◌⊎◌, ℕ, ◌+◌, ◌≤◌, ◌≡◌, refl, Bool, true, false, Option, none, some, List, [], ◌∷◌,
  Bytes, codes, arith,
}
use libapostol.Notify.{
  NotifyRow, NotifyOptions, subscribe_query, take_query, policy_query, ack, nack, listen, on_row,
  on_number, registered, NotifySubscriber, new_subscriber, parse_id,
}
use libapostol.Notify.Rows.{
  find_row, insert_row, erase_row, complete, refuse, drain, stop, completes, stops, perform_all,
}
use libapostol.Notify.Events.{
  subscribe, heartbeat_now, sweep_now, read_policy, start, begins, on_subscribed, subscribed,
  answer_subscribe, take, on_wake, answer_take,
}
use libapostol.Notify.Steps.{Event, starts, calls, wakes, answers_subscribe, answers_take, run}
use libapostol.Notify.Statements.{stop_sql, dollars, stop_sql-dollars, ack_sql, strip_separators}
use libapostol.Notify.Ledger.{times_settled, rows}
use libapostol.Notify.Ledger.Runs.{arrivals, run-settled}
use libapostol.Notify.Stopping.Runs.{run-Still_stopped}
use libapostol.Notify.Stopped.{Still}
use libapostol.Notify.Registered.{times_given, times_ended, is_one}
use libapostol.Notify.Registered.Runs.{run-registered}

abbrev options : NotifyOptions
options = record {
  expected_mode = codes "queue";
  has_legacy = false;
  heartbeat = 5;
  sweep = 2;
  policy_every = 60;
  answer_within = 5;
  retry = 1;
}

abbrev row : ℕ → NotifyRow
row id = record { id = id; payload = codes "x"; key = none; token = 9; attempts = 1 }

-- Row 7 is confirmed by its handler, row 8 is given back as its handler throws, row 9 waits.
abbrev working : List Event
working =
    starts
    ∷ answers_subscribe (record { drawn = λ base. base; calls = [] }) (subscribed 3 1000)
    ∷ wakes (codes "7")
    ∷ answers_take (completes (row 7) (codes "SELECT 1;") ∷ []) none (row 7)
    ∷ answers_take [] (some (codes "late")) (row 8)
    ∷ answers_take [] none (row 9)
    ∷ []

-- A stop, and an answer to a take that comes after it.
abbrev stop_events : List Event
stop_events = calls (stops (codes "going down")) ∷ answers_take [] none (row 10) ∷ []

abbrev stopped_events : List Event
stopped_events =
    starts
    ∷ answers_subscribe (record { drawn = λ base. base; calls = [] }) (subscribed 3 1000)
    ∷ answers_take [] none (row 9)
    ∷ stop_events

-- The lines open the subscriber for the tests below.
outcome : NotifySubscriber
unfolding run find_row insert_row erase_row complete refuse drain stop perform_all subscribe
    heartbeat_now sweep_now read_policy start begins on_subscribed answer_subscribe take on_wake
    answer_take parse_id
outcome = run working (new_subscriber options)

outcome_of_stop : NotifySubscriber
unfolding outcome
outcome_of_stop = run stopped_events (new_subscriber options)

working_example :
    ((run working (new_subscriber options)).effects
      ≡ policy_query
        ∷ subscribe_query
        ∷ registered 3
        ∷ listen 3
        ∷ on_number 3
        ∷ take_query 7 3
        ∷ on_row (row 7)
        ∷ ack (row 7) (codes "SELECT 1;")
        ∷ on_row (row 8)
        ∷ nack (row 8) (codes "error: late")
        ∷ on_row (row 9)
        ∷ [])
    × ((run working (new_subscriber options)).taken ≡ row 9 ∷ [])
unfolding outcome libapostol.Prelude.digits_value
working_example = (refl, refl)

stopped_example :
    ((run stopped_events (new_subscriber options)).taken ≡ [])
    × ((run stopped_events (new_subscriber options)).stopped ≡ true)
    × ((run stopped_events (new_subscriber options)).number ≡ 0)
unfolding outcome
stopped_example = (refl, refl, refl)

ack_sql_example :
    ack_sql (row 7) (codes "SELECT 1; \n") ≡ codes "SELECT 1\n;\nSELECT notify.ack(7, 9)"
unfolding ack_sql strip_separators libapostol.Prelude.decimal_from
ack_sql_example = refl

run-settled_example :
    arrivals 9 9 working (new_subscriber options)
    ≡ rows 9 9 (run working (new_subscriber options)).taken
      + times_settled 9 9 (run working (new_subscriber options)).effects
run-settled_example = run-settled options working 9 9

run-Still_stopped_example :
    Still
      (run stopped_events (new_subscriber options))
      (run stop_events (run stopped_events (new_subscriber options)))
run-Still_stopped_example = run-Still_stopped options stopped_events stop_events stopped_example.1

run-registered_example :
    (times_given 3 (run working (new_subscriber options)).effects
      ≡ is_one (run working (new_subscriber options)).number 3
        + times_ended 3 (run working (new_subscriber options)).effects)
    × (((run working (new_subscriber options)).subscribing ≡ false)
        ⊎ ((run working (new_subscriber options)).number ≡ 0))
    × (((run working (new_subscriber options)).retry_timer ≡ none)
        ⊎ ((run working (new_subscriber options)).number ≡ 0))
run-registered_example = run-registered options working 3 (omega arith)

stop_sql-dollars_example :
    dollars (stop_sql 3 (row 7 ∷ row 8 ∷ []) (codes "a $notify$ b"))
    ≡ 4 * length (row 7 ∷ row 8 ∷ [])
stop_sql-dollars_example = stop_sql-dollars 3 (row 7 ∷ row 8 ∷ []) (codes "a $notify$ b")
