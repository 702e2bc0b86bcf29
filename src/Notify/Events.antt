-- ===== src/Notify/Events.antt =====
-- The events of a subscriber: its timers, the answers of the database, the wake-ups, and the module.
use libapostol.Prelude.{
  ℕ, ◌+◌, ◌-◌, ◌*◌, ltb, ◌==◌, Bool, true, false, not, ◌&&◌, ◌||◌, Option, none, some, List, ◌++◌,
  Bytes, codes, bytes_eq, if◌then◌else◌,
}
use libapostol.Notify.{
  NotifyRow, subscribe_query, drain_query, heartbeat_query, take_query, sweep_query, policy_query,
  listen, unlisten, listen_legacy, on_row, on_number, on_lapse, registered, forgot,
  NotifySubscriber, emit, parse_id,
}
use libapostol.Notify.Timers.{
  heartbeat_every, sweep_every, alive_seconds, arm_heartbeat, arm_sweep, arm_policy, arm_retry,
}
use libapostol.Notify.Rows.{has_row, insert_row, refuse, stop, default_reason, Call, perform_all}

unfoldable pub subscribe : NotifySubscriber → NotifySubscriber
subscribe s =
    if s.subscribing || s.draining || s.stopped
    then s
    else emit subscribe_query (record s { subscribing = true })

unfoldable pub heartbeat_now : NotifySubscriber → NotifySubscriber
heartbeat_now s =
    if s.number == 0 || s.stopped || s.heartbeat_in_flight
    then s
    else emit (heartbeat_query s.number)
        (record s { heartbeat_in_flight = true; heartbeat_of = s.number })

unfoldable pub sweep_now : NotifySubscriber → NotifySubscriber
sweep_now s =
    if s.number == 0 || s.draining || s.stopped || s.sweep_in_flight
    then s
    else emit (sweep_query s.number) (record s { sweep_in_flight = true })

unfoldable pub read_policy : NotifySubscriber → NotifySubscriber
read_policy s =
    if s.policy_in_flight || s.stopped
    then s
    else emit policy_query (record s { policy_in_flight = true })

unfoldable pub start : NotifySubscriber → NotifySubscriber
start s =
    let begun : NotifySubscriber = record s { started = true } in
    let listens = if s.options.has_legacy then emit listen_legacy begun else begun in
    if s.started then s else subscribe (arm_policy (read_policy listens))

-- What the random generator draws, and what a handler of the module calls.
pub record Chance : Type 0 where
  pub drawn : ℕ → ℕ
  pub calls : List Call

abbrev pub stop_listening : NotifySubscriber → NotifySubscriber
stop_listening s = elim s.listening [
  | none ↦ s
  | some n ↦ emit (unlisten n) (record s { listening = none })
]

abbrev pub says_number : (ℕ → ℕ) → ℕ → NotifySubscriber → NotifySubscriber
says_number drawn n s = if s.draining then emit (drain_query n) s else arm_sweep drawn s

unfoldable pub begins : Chance → ℕ → NotifySubscriber → NotifySubscriber
begins c n s =
    let listens : NotifySubscriber = record (stop_listening s) { number = n; listening = some n } in
    perform_all c.calls
      (emit (on_number n) (arm_heartbeat (says_number c.drawn n (emit (listen n) listens))))

-- The answer of notify.subscribe, a number below 1 as 0.
unfoldable pub on_subscribed : Chance → ℕ → NotifySubscriber → NotifySubscriber
on_subscribed c n s =
    let given = emit (registered n) s in
    if n == 0
    then arm_retry s
    else if s.stopped
    then stop default_reason (record given { number = n })
    else begins c n given

-- A statement failed, or answered.
pub data Subscribed : Type 0 where
  not_subscribed : Subscribed
  subscribed : ℕ → ℕ → Subscribed

-- The answers come only to statements that are under way.
unfoldable pub answer_subscribe : Chance → Subscribed → NotifySubscriber → NotifySubscriber
answer_subscribe c not_subscribed s =
    if s.subscribing then arm_retry (record s { subscribing = false }) else s
answer_subscribe c (subscribed n at) s =
    if s.subscribing then on_subscribed c n (record s { subscribing = false; seen_at = at }) else s

unfoldable pub confirm_listen : NotifySubscriber → NotifySubscriber
confirm_listen s = heartbeat_now (sweep_now s)

unfoldable pub take : ℕ → NotifySubscriber → NotifySubscriber
take id s = if has_row id s.taken then s else emit (take_query id s.number) s

unfoldable pub on_wake : Bytes → NotifySubscriber → NotifySubscriber
on_wake payload s =
    if s.draining || s.stopped || s.number == 0
    then s
    else elim (parse_id payload) [ none ↦ s | some id ↦ take id s ]

-- taken_.emplace leaves a row that is there.
abbrev pub with_row : NotifyRow → NotifySubscriber → NotifySubscriber
with_row row s = if has_row row.id s.taken then s else record s { taken = insert_row row s.taken }

-- The answer of notify.take, where it has a row; `error` is what the handler of rows throws.
unfoldable pub answer_take :
    List Call → Option Bytes → NotifyRow → NotifySubscriber → NotifySubscriber
answer_take calls error row s =
    let given = with_row row s in
    let called = perform_all calls (emit (on_row row) given) in
    if s.stopped then refuse row (codes "stopping: taken after the stop") given else elim error [
      | none ↦ called
      | some text ↦
          if has_row row.id called.taken
          then refuse row (codes "error: " ++ text) called
          else called
    ]

pub data Beat : Type 0 where
  not_beaten unknown : Beat
  beaten : ℕ → Beat

-- The database does not know the number any more.
abbrev pub resubscribe : List Call → NotifySubscriber → NotifySubscriber
resubscribe calls s = subscribe (
    perform_all calls
      (emit (on_number 0) (emit (forgot s.number) (record s { number = 0; seen_at = 0 }))))

-- A gap of `alive`, less a margin, between two heartbeats by the clock of the database; a gap below 0
-- is none.
abbrev pub lapse : List Call → ℕ → ℕ → NotifySubscriber → NotifySubscriber
lapse calls was at s =
    if was == 0 || at == 0 || s.draining || ltb (at - was + 100) (alive_seconds s * 1000)
    then s
    else perform_all calls (emit (on_lapse (at - was)) s)

unfoldable pub answer_heartbeat : List Call → Beat → NotifySubscriber → NotifySubscriber
answer_heartbeat calls beat s =
    let idle : NotifySubscriber = record s { heartbeat_in_flight = false } in
    let still = s.heartbeat_of == s.number && not s.stopped in
    if not s.heartbeat_in_flight then s else if not still then idle else elim beat [
      | not_beaten ↦ idle
      | unknown ↦ resubscribe calls idle
      | beaten at ↦ lapse calls s.seen_at at (record idle { seen_at = at })
    ]

unfoldable pub answer_sweep : NotifySubscriber → NotifySubscriber
answer_sweep s = record s { sweep_in_flight = false }

-- A row of notify.channel_policy: seconds are 0 where they are null or not positive.
pub record Policy : Type 0 where
  pub mode : Bytes
  pub classified : Bool
  pub alive : ℕ
  pub sweep : ℕ

abbrev pub is_armed : Option ℕ → Bool
is_armed none = false
is_armed (some delay) = true

-- New delays arm the timers that run again.
abbrev pub with_policy : (ℕ → ℕ) → Policy → NotifySubscriber → NotifySubscriber
with_policy drawn p s =
    let read : NotifySubscriber = record s { alive = p.alive; policy_sweep = p.sweep } in
    let beats =
      if not (heartbeat_every read == heartbeat_every s) && is_armed s.heartbeat_timer
      then arm_heartbeat read
      else read in
    if not (sweep_every read == sweep_every s) && is_armed s.sweep_timer
    then arm_sweep drawn beats
    else beats

abbrev pub matches : Bytes → Policy → Bool
matches expected p = p.classified && (bytes_eq p.mode expected || bytes_eq p.mode (codes "legacy"))

-- `none`: not readable, or no row.
unfoldable pub answer_policy : (ℕ → ℕ) → Option Policy → NotifySubscriber → NotifySubscriber
answer_policy drawn answer s =
    let idle : NotifySubscriber = record s { policy_in_flight = false } in
    elim answer [
      | none ↦ record idle { policy_ok = false }
      | some p ↦ record (with_policy drawn p idle) { policy_ok = matches s.options.expected_mode p }
    ]
