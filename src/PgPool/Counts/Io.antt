-- ===== src/PgPool/Counts/Io.antt =====
-- The events of a socket leave every query in one place.
use mathlib.Core.Path.{subst}
use libapostol.Prelude.{
  ℕ, ◌≡◌, ◌≢◌, refl, sym, ◌==◌, Bool, true, false, not, ◌&&◌, ◌||◌, some, List, [], arith, is_empty,
  by_test,
}
use libapostol.Pg.{
  PgConnection, ready, busy, failed, connect_poll, Read, broken, results, collect_results, flush,
  consume_notify,
}
use libapostol.PgPool.{Member, PgPool, member, set_member}
use libapostol.PgPool.Opening.{growth_round, record_connect_failure, has_socket}
use libapostol.PgPool.Calls.{strip_results, finish_query}
use libapostol.PgPool.Sockets.{
  Io, is_ok, is_failed, give_up, on_connecting, on_ready, goes_on, is_in, read_results,
}
use libapostol.PgPool.Counts.{holds, holds_idle}
use libapostol.PgPool.Counts.Invariant.{Inv, Free, put-Free-Inv}
use libapostol.PgPool.Counts.Opened.{put-Free, record_connect_failure-Inv, replace_connection-Inv}
use libapostol.PgPool.Counts.Released.{holds-le, Of}
use libapostol.PgPool.Counts.Sending.{There-Free}
use libapostol.PgPool.Counts.Dispatch.{dispatch_queue-Inv}
use libapostol.PgPool.Counts.Happening.{same-Inv, lose-Inv, finish_query-Inv}

record_connect_failure-conns :
    (now round : ℕ) (p : PgPool) → (record_connect_failure now round p).conns ≡ p.conns
unfolding record_connect_failure
record_connect_failure-conns now round p =
    let P : PgPool → Type 0 = λ r. r.conns ≡ p.conns in
    by_test P (round == growth_round) _ _ (λ _. refl)
      (λ _. by_test P (not (round == p.connect_round)) _ _ (λ _. refl) (λ _. refl))

consume_notify-needs_flush :
    (b : Bool) (l : PgConnection) → (consume_notify b l).0.needs_flush ≡ l.needs_flush
unfolding consume_notify
consume_notify-needs_flush true l = refl
consume_notify-needs_flush false l = refl

collect_results-needs_flush :
    (r : Read) (l : PgConnection) → (collect_results r l).0.needs_flush ≡ l.needs_flush
unfolding collect_results
collect_results-needs_flush broken l = refl
collect_results-needs_flush (results rs true) l = refl
collect_results-needs_flush (results rs false) l = ground arith

collect_results-state :
    (r : Read) (l : PgConnection)
    → is_in (collect_results r l).0.state failed ≡ false
    → is_in (collect_results r l).0.state ready ≡ false
    → (collect_results r l).0.state ≡ l.state
unfolding collect_results
collect_results-state broken l h k = cc h
collect_results-state (results rs true) l h k = cc k
collect_results-state (results rs false) l h k = ground (arith, h, k)

pub flush_lem :
    (b : Bool) (l : PgConnection)
    → (flush b l).1 ≡ true
    → ((flush b l).0.needs_flush ≡ false) × ((flush b l).0.state ≡ l.state)
unfolding flush
flush_lem true l h = (refl, refl)
flush_lem false l h = cc h

module _ (x : ℕ) where
  -- A connection that is not busy has no query, whatever becomes of its link.
  idle_link-Inv :
      (c d : Member) (p : PgPool)
      → member c.key p.conns ≡ some c
      → holds x c ≡ 0
      → d.key ≡ c.key
      → d.current ≡ c.current
      → Inv x [] p
      → Inv x [] (set_member d p)
  idle_link-Inv c d p there none_held key current h =
      put-Free-Inv x [] d p
        (subst (λ (k : ℕ). Free x k p) (sym key) (There-Free x c p there none_held))
        (ground (arith, current, none_held)) h

  pub idle_state :
      (c : Member) (p : PgPool)
      → member c.key p.conns ≡ some c
      → c.link.state ≢ busy
      → Inv x [] p
      → holds x c ≡ 0
  idle_state c p there idle h =
      let same : holds_idle x c ≡ holds x c = ground (arith, idle) in
      omega (arith, same, h.idle, holds-le x c.key c p.conns there (holds_idle x))

  give_up-Inv :
      (io : Io) (c d : Member) (p : PgPool)
      → member c.key p.conns ≡ some c
      → holds x c ≡ 0
      → d.key ≡ c.key
      → d.current ≡ c.current
      → Inv x [] p
      → Inv x [] (give_up io d p)
  give_up-Inv io c d p there none_held key current h =
      let free = subst (λ (k : ℕ). Free x k p) (sym key) (There-Free x c p there none_held) in
      let still_free : Free x d.key (record_connect_failure io.opens.now d.round (set_member d p)) =
        λ b found. put-Free x d p (ground (arith, current, none_held)) free b (
          subst (λ (cs : List Member). member d.key cs ≡ some b)
            (record_connect_failure-conns io.opens.now d.round (set_member d p)) found) in
      replace_connection-Inv x [] io.opens d
        (record_connect_failure io.opens.now d.round (set_member d p)) still_free
        (record_connect_failure-Inv x [] io.opens.now d.round (set_member d p)
          (idle_link-Inv c d p there none_held key current h))

  pub on_connecting-Inv :
      (io : Io) (c : Member) (p : PgPool)
      → member c.key p.conns ≡ some c
      → holds x c ≡ 0
      → Inv x [] p
      → Inv x [] (on_connecting io c p)
  unfolding on_connecting
  on_connecting-Inv io c p there none_held h =
      let polled : Member = record c { link = connect_poll io.polling io.polled_fd c.link } in
      let broken : Member = record polled { link = record (polled.link) { state = failed } } in
      let linked = idle_link-Inv c polled p there none_held refl refl h in
      by_test (Inv x []) (is_failed io.polling || not (has_socket polled.link)) _ _
        (λ _. give_up-Inv io c polled p there none_held refl refl h)
        (λ _.
          by_test (Inv x []) (not io.watched_again) _ _
            (λ _. give_up-Inv io c broken p there none_held refl refl h)
            (λ _.
              by_test (Inv x []) (is_ok io.polling) _ _
                (λ _. dispatch_queue-Inv x io.next c.key _ linked) (λ _. linked)))

  pub on_ready-Inv :
      (io : Io) (c : Member) (p : PgPool)
      → member c.key p.conns ≡ some c
      → holds x c ≡ 0
      → Inv x [] p
      → Inv x [] (on_ready io c p)
  unfolding on_ready
  on_ready-Inv io c p there none_held h =
      let link = (consume_notify io.alive c.link).0 in
      by_test (Inv x []) (consume_notify io.alive c.link).1 _ _
        (λ _. idle_link-Inv c (record c { link = link }) p there none_held refl refl h)
        (λ _.
          lose-Inv x io c (record c { link = link }) p (record { there = there; same = refl })
            (consume_notify-needs_flush io.alive c.link) h)

  goes_on-Inv :
      (io : Io) (key : ℕ) (out : PgPool × Bool) → Inv x [] out.0 → Inv x [] (goes_on io key out)
  goes_on-Inv io key out h =
      by_test (Inv x []) out.1 _ _ (λ _. dispatch_queue-Inv x io.next key out.0 h) (λ _. h)

  pub read_results-Inv :
      (io : Io) (c : Member) (p : PgPool)
      → member c.key p.conns ≡ some c
      → Inv x [] p
      → Inv x [] (read_results io c p)
  unfolding read_results
  read_results-Inv io c p there h =
      let link = (collect_results io.reading c.link).0 in
      let rs = (collect_results io.reading c.link).1 in
      let stripped = strip_results c.reset_results rs in
      let read : Member = record c { link = link } in
      let done : Member = record read { reset_results = 0 } in
      let of : Of c read p = record { there = there; same = refl } in
      let flushes = collect_results-needs_flush io.reading c.link in
      let state = collect_results-state io.reading c.link in
      by_test (Inv x []) (is_in link.state failed) _ _ (λ _. lose-Inv x io c read p of flushes h)
        (λ kept.
          by_test (Inv x []) (is_empty rs) _ _
            (λ _.
              by_test (Inv x []) (is_in link.state ready) _ _
                (λ _.
                  goes_on-Inv io c.key (finish_query [] io.handler read p)
                    (finish_query-Inv x [] io.handler c read p of h))
                (λ waits. same-Inv x c read p there refl refl (state kept waits) flushes h))
            (λ _.
              by_test (Inv x []) (is_empty stripped && not (is_in link.state ready)) _ _
                (λ waits.
                  same-Inv x c done p there refl refl (state kept (ground (arith, waits))) flushes
                    h)
                (λ _. goes_on-Inv io c.key (finish_query stripped io.handler done p) (
                  finish_query-Inv x stripped io.handler c done p
                    (record { there = there; same = refl }) h))))
