-- ===== src/Notify.antt =====
-- src/dbplatform/notify_subscriber.cpp, include/apostol/notify_subscriber.hpp: the class
-- NotifySubscriber, which takes the rows of a channel of the database and gives them to a module.
-- Numbers in the answers of the database come read, as numbers from 0 on, and its clock in
-- milliseconds. The statements, the calls of the module's handlers and the subscriptions to channels
-- are a list of effects in their order. The handlers that a completion may bring and the log are left
-- out.
pub mod Statements
pub mod Timers
pub mod Rows
pub mod Events
pub mod Steps
pub mod Ledger
pub mod Stopped
pub mod Stopping
pub mod Registered
mod Tests
use libapostol.Prelude.{
  ℕ, ◌+◌, ◌*◌, ◌^◌, ltb, ◌==◌, Bool, true, false, not, ◌&&◌, ◌||◌, Option, none, some, List, [],
  ◌∷◌, ◌++◌, Bytes, all, is_empty, digits_value, leb, if◌then◌else◌,
}

-- `key` is `none` when the producer gave none.
pub record NotifyRow : Type 0 where
  pub id : ℕ
  pub payload : Bytes
  pub key : Option Bytes
  pub token : ℕ
  pub attempts : ℕ

-- Seconds.
pub record NotifyOptions : Type 0 where
  pub expected_mode : Bytes
  pub has_legacy : Bool
  pub heartbeat : ℕ
  pub sweep : ℕ
  pub policy_every : ℕ
  pub answer_within : ℕ
  pub retry : ℕ

-- In their order: statements on the listener, those on the connections of the pool, the channels, and
-- what the module is told. `registered` and `forgot` are no calls: the database gave a number, and it
-- did not know one any more. `stop_batch` has the rows that it refuses.
pub data Effect : Type 0 where
  subscribe_query : Effect
  drain_query heartbeat_query : ℕ → Effect
  stop_batch : ℕ → List NotifyRow → Bytes → Effect
  take_query : ℕ → ℕ → Effect
  ack nack : NotifyRow → Bytes → Effect
  sweep_query : ℕ → Effect
  policy_query : Effect
  listen unlisten : ℕ → Effect
  listen_legacy : Effect
  on_row : NotifyRow → Effect
  on_number on_lapse : ℕ → Effect
  not_with_module : NotifyRow → Effect
  registered forgot : ℕ → Effect

-- A timer is `none`, or armed with its delay: seconds, milliseconds for the sweep. `heartbeat_of` is
-- the number that the heartbeat under way was sent for.
pub record NotifySubscriber : Type 0 where
  pub options : NotifyOptions
  pub number : ℕ
  pub seen_at : ℕ
  pub listening : Option ℕ
  pub taken : List NotifyRow
  pub started : Bool
  pub subscribing : Bool
  pub draining : Bool
  pub stopped : Bool
  pub heartbeat_in_flight : Bool
  pub heartbeat_of : ℕ
  pub sweep_in_flight : Bool
  pub policy_in_flight : Bool
  pub alive : ℕ
  pub policy_sweep : ℕ
  pub policy_ok : Bool
  pub heartbeat_timer : Option ℕ
  pub sweep_timer : Option ℕ
  pub policy_timer : Option ℕ
  pub retry_timer : Option ℕ
  pub effects : List Effect

abbrev pub new_subscriber : NotifyOptions → NotifySubscriber
new_subscriber options = record {
  options = options;
  number = 0;
  seen_at = 0;
  listening = none;
  taken = [];
  started = false;
  subscribing = false;
  draining = false;
  stopped = false;
  heartbeat_in_flight = false;
  heartbeat_of = 0;
  sweep_in_flight = false;
  policy_in_flight = false;
  alive = 0;
  policy_sweep = 0;
  policy_ok = false;
  heartbeat_timer = none;
  sweep_timer = none;
  policy_timer = none;
  retry_timer = none;
  effects = [];
}

abbrev pub emit : Effect → NotifySubscriber → NotifySubscriber
emit e s = record s { effects = s.effects ++ (e ∷ []) }

abbrev pub is_digit : ℕ → Bool
is_digit c = leb b'0' c && leb c b'9'

-- std::from_chars of an int64_t over the whole text.
abbrev pub digits_of : Bytes → Option ℕ
digits_of ds = if not (is_empty ds) && all is_digit ds then some (digits_value 0 ds) else none

abbrev pub below : ℕ → Option ℕ → Option ℕ
below limit none = none
below limit (some n) = if ltb n limit then some n else none

-- A minus sign is read, and only -0 is not negative.
unfoldable pub parse_id : Bytes → Option ℕ
parse_id [] = none
parse_id (c ∷ cs) =
    if c == b'-' then below 1 (digits_of cs) else below (2 ^ 63) (digits_of (c ∷ cs))
