-- ===== src/Notify/Rows.antt =====
-- The rows with the module: what it calls for them, and the stop.
use libapostol.Prelude.{
  ℕ, ◌==◌, ltb, Bool, true, false, ◌&&◌, ◌||◌, Option, none, some, List, [], ◌∷◌, Bytes, codes,
  is_empty, if◌then◌else◌,
}
use libapostol.Notify.{
  NotifyRow, drain_query, stop_batch, ack, nack, not_with_module, NotifySubscriber, emit,
}
use libapostol.Notify.Timers.{cancel_timers}

-- taken_.find
unfoldable pub find_row : ℕ → List NotifyRow → Option NotifyRow
find_row id [] = none
find_row id (r ∷ rs) = let rest = find_row id rs in if r.id == id then some r else rest

unfoldable pub erase_row : ℕ → List NotifyRow → List NotifyRow
erase_row id [] = []
erase_row id (r ∷ rs) = let rest = erase_row id rs in if r.id == id then rs else r ∷ rest

-- taken_.emplace at an id that is not there: the map is in the order of the ids.
unfoldable pub insert_row : NotifyRow → List NotifyRow → List NotifyRow
insert_row row [] = row ∷ []
insert_row row (r ∷ rs) =
    let rest = insert_row row rs in if ltb r.id row.id then r ∷ rest else row ∷ r ∷ rs

abbrev pub has_row : ℕ → List NotifyRow → Bool
has_row id rs = elim (find_row id rs) [ none ↦ false | some r ↦ true ]

-- The row is with the module, under this token.
abbrev pub is_with_module : NotifyRow → NotifySubscriber → Bool
is_with_module row s = elim (find_row row.id s.taken) [
  | none ↦ false
  | some r ↦ r.token == row.token
]

abbrev pub without_row : NotifyRow → NotifySubscriber → NotifySubscriber
without_row row s = record s { taken = erase_row row.id s.taken }

unfoldable pub complete : NotifyRow → Bytes → NotifySubscriber → NotifySubscriber
complete row result_sql s =
    if is_with_module row s
    then emit (ack row result_sql) (without_row row s)
    else emit (not_with_module row) s

unfoldable pub refuse : NotifyRow → Bytes → NotifySubscriber → NotifySubscriber
refuse row reason s = if is_with_module row s then emit (nack row reason) (without_row row s) else s

-- The number is said again by on_subscribed() where there is none yet.
unfoldable pub drain : NotifySubscriber → NotifySubscriber
drain s =
    let draining : NotifySubscriber = record s {
      draining = true;
      sweep_timer = none;
      retry_timer = none;
    } in
    if s.draining || s.stopped
    then s
    else if s.number == 0
    then draining
    else emit (drain_query s.number) draining

unfoldable pub stop : Bytes → NotifySubscriber → NotifySubscriber
stop reason s =
    let stopping : NotifySubscriber = record (cancel_timers s) {
      stopped = true;
      draining = true;
    } in
    if s.stopped && s.number == 0 || s.number == 0 && is_empty s.taken
    then stopping
    else record (emit (stop_batch s.number s.taken reason) stopping) { taken = []; number = 0 }

abbrev pub default_reason : Bytes
default_reason = codes "stopping: the process stopped before the work was finished"

-- What the module calls.
pub data Call : Type 0 where
  completes refuses : NotifyRow → Bytes → Call
  drains : Call
  stops : Bytes → Call

abbrev pub perform : Call → NotifySubscriber → NotifySubscriber
perform (completes row result_sql) s = complete row result_sql s
perform (refuses row reason) s = refuse row reason s
perform drains s = drain s
perform (stops reason) s = stop reason s

unfoldable pub perform_all : List Call → NotifySubscriber → NotifySubscriber
perform_all [] s = s
perform_all (c ∷ cs) s = perform_all cs (perform c s)
