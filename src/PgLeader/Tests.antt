-- ===== src/PgLeader/Tests.antt =====
-- The life of one lock: it connects, gets the role, is confirmed, and gets no answer any more.
use libapostol.Prelude.{
  any, ℕ, ◌-◌, ◌≤◌, ◌≡◌, refl, true, false, some, List, [], ◌∷◌, ◌++◌, Bytes, codes, bytes_eq,
}
use libapostol.Pg.{
  busy, PgConnection, started, connect_start, polling_ok, connect_poll, sent, send_query, Read,
  results, collect_results,
}
use libapostol.PgLeader.{
  PgLeaderLock, Answers, on_lost, on_acquired, query, try_lock, probe, answer_timeout, new_lock,
  one_space, pop_blanks, one_line, hash_from, key_hash, lose, send, acquired, cell, refused,
  last_result, decide, judge, handle, without,
}
use libapostol.PgLeader.Events.{
  connect, poll_handshake, read_answer, on_busy, on_conn, on_io, tick_conn, tick, fresh, start,
  readable, seconds, Event, ticks, asks_fresh, on_socket, run,
}
use libapostol.PgLeader.Fresh.{is_closed, fresh_sound}
use libapostol.PgLeader.Role.{view, Inv}
use libapostol.PgLeader.Role.Runs.{run-start-Inv}
use libapostol.PgLeader.Role.Overdue.{is_loss, run-retired, waiting, tick-overdue}

-- The published value for the text "a".
key_hash-a : key_hash (codes "a") ≡ 0xaf63dc4c8601ec8c
unfolding hash_from
key_hash-a = refl

one_line-runs : one_line (codes " closed\n\tby  server\n") ≡ codes "closed by server"
unfolding one_space pop_blanks
one_line-runs = refl

-- Socket 7 opens and connects, a query goes out whole, and a read brings nothing.
abbrev at : ℕ → Read → Answers
at now reading = record {
  now = now;
  start = started 7;
  polling = polling_ok;
  polled_fd = some 7;
  sending = sent false;
  reading = reading;
  flushed = true;
  alive = true;
  error_message = [];
  modified = true;
  closed_by_server = false;
}

abbrev waits : ℕ → Answers
waits now = at now (results [] false)

abbrev says : ℕ → Bytes → Answers
says now answer = at now (
    results
      (record {
        ok = true;
        error_message = [];
        columns = 2;
        rows = (some answer ∷ some (codes "41") ∷ []) ∷ [];
      }
        ∷ [])
      true)

-- At 0 the session opens, at 1 it is up and asks for the lock, at 2 the role is given.
abbrev beginning : List (Event × Answers)
beginning = (on_socket readable, waits 1) ∷ (on_socket readable, says 2 (codes "t")) ∷ []

abbrev new_leader : PgLeaderLock
new_leader = run beginning (start (waits 0) (new_lock 5))

new_leader-effects : new_leader.effects ≡ query true try_lock ∷ on_acquired ∷ []
unfolding start connect connect_start connect_poll poll_handshake send send_query read_answer
    collect_results handle refused last_result cell judge decide acquired on_busy on_conn on_io
    without bytes_eq
new_leader-effects = refl

-- At 7 the lock asks again, at 8 it is confirmed, at 13 it asks.
abbrev life : List (Event × Answers)
life =
    beginning
    ++ ((ticks, waits 7)
        ∷ (on_socket readable, says 8 (codes "t"))
        ∷ (asks_fresh, waits 9)
        ∷ (ticks, waits 13)
        ∷ [])

abbrev leading : PgLeaderLock
leading = run life (start (waits 0) (new_lock 5))

run-start-Inv_example : Inv (view leading)
run-start-Inv_example = run-start-Inv 5 (waits 0) life

-- Connected, asking for the lock.
abbrev asking : PgConnection
asking = record { state = busy; fd = some 7; pending_results = []; needs_flush = false }

-- A leader that asked at 13 whether it still is one.
abbrev probing : PgLeaderLock
probing = record {
  interval = 5;
  conn = some asking;
  timer = true;
  asked = probe;
  set_up = true;
  since = 13;
  confirmed = 8;
  held = true;
  inert = false;
  last_holder = [];
  waiting_logged = false;
  last_error = [];
  session_pid = codes "41";
  watched = 7 ∷ [];
  effects = [];
}

fresh_sound_example :
    (probing.held ≡ true)
    × (is_closed (waits 15) probing.conn ≡ false)
    × ((15 - probing.confirmed ≤ answer_timeout probing) × ((fresh (waits 15) probing).0 ≡ probing))
unfolding fresh
fresh_sound_example = fresh_sound (waits 15) probing refl

tick-overdue_example :
    ((tick (waits 30) probing).effects
      ≡ on_lost (one_line (seconds (codes "no answer from the server in ") 15)) ∷ [])
    × ((tick (waits 30) probing).held ≡ false)
    × ((tick (waits 30) probing).inert ≡ true)
    × ((tick (waits 30) probing).conn ≡ some (waiting [] asking))
tick-overdue_example = tick-overdue [] (waits 30) asking probing refl refl refl refl refl refl

-- The role is given at 2, asked for again at 7, and at 8 no longer there.
abbrev losing : List (Event × Answers)
losing = beginning ++ ((ticks, waits 7) ∷ (on_socket readable, says 8 (codes "f")) ∷ [])

losing-told : any is_loss (run losing (start (waits 0) (new_lock 5))).effects ≡ true
unfolding start connect connect_start connect_poll poll_handshake send send_query read_answer
    collect_results handle refused last_result cell judge decide acquired on_busy on_conn on_io
    without bytes_eq tick tick_conn lose
losing-told = refl

run-retired_example :
    run life (run losing (start (waits 0) (new_lock 5))) ≡ run losing (start (waits 0) (new_lock 5))
run-retired_example = run-retired 5 (waits 0) losing life losing-told
