-- ===== src/PgPool/Counts/Sending.antt =====
-- Sending a query on a connection, from execute() and from the queue.
use mathlib.Core.Path.{subst}
use libapostol.Prelude.{
  ℕ, ◌+◌, ◌≤◌, ◌≡◌, refl, sym, Bool, true, not, none, some, List, [], ◌∷◌, arith, if◌then◌else◌,
  by_test, Bool-cases, inl, inr,
}
use libapostol.Pg.{
  busy, ready, PgConnection, Sent, not_connected, lost_connection, not_sent, not_flushed, sent,
  send_query,
}
use libapostol.PgPool.{
  PgRetry, never, if_lost, PgQuery, Member, Fate, PgPool, member, set_member, note_whole,
}
use libapostol.PgPool.Opening.{Reset}
use libapostol.PgPool.Restoring.{try_reconnect}
use libapostol.PgPool.Queries.{
  send_on, in_flight, takes_queries, split_canceled, without_id, contains, discards, skip_canceled,
}
use libapostol.PgPool.Counts.{
  total-put_member, is_one, is_query, queries, is_repeatable_query, repeatable, holds, holds_unsent,
  holds_idle, ended, times, issued, repeatable-le-queries,
}
use libapostol.Prelude.{total, total-append, total-snoc}
use libapostol.PgPool.Counts.Invariant.{Inv, Free}
use libapostol.PgPool.Counts.Opened.{try_reconnect-Inv}
use libapostol.PgPool.Counts.Released.{holds-le}

module _ (x : ℕ) where
  pub issued_le : (n : ℕ) → issued x n ≤ 1
  issued_le n = ground arith

  -- A query in flight that must not be repeated, and that now has gone out whole.
  pub noted-Inv :
      (q : PgQuery) (p : PgPool)
      → times x p.gone_out + is_query x q + queries x p.queue + total (holds_unsent x) p.conns ≤ 1
      → repeatable x p.inflight + is_query x q ≤ queries x p.inflight
      → Inv x [] p
      → Inv x [] (record p { gone_out = q.id ∷ p.gone_out })
  unfolding total
  noted-Inv q p room inside h = record {
    placed = h.placed;
    owned = h.owned;
    idle = h.idle;
    once = omega (arith, room);
    again = omega (
      arith,
      room,
      inside,
      h.again,
      h.placed,
      repeatable-le-queries x p.queue,
      issued_le p.next_id,
    );
    fresh = omega (arith, room, inside, h.placed, h.fresh, issued_le p.next_id);
    started = h.started;
  }

  pub note_whole-Inv :
      (whole : Bool) (q : PgQuery) (p : PgPool)
      → (q.retry ≡ never → whole ≡ true → Inv x [] (record p { gone_out = q.id ∷ p.gone_out }))
      → Inv x [] p
      → Inv x [] (note_whole whole q p)
  note_whole-Inv whole q p noted h = go q.retry refl
    where
      go :
          (r : PgRetry)
          → q.retry ≡ r
          → Inv x [] (elim r [
            | never ↦ if whole then record p { gone_out = q.id ∷ p.gone_out } else p
            | if_lost ↦ p
          ])
      go never e = by_test (Inv x []) whole _ _ (noted e) (λ _. h)
      go if_lost e = h

  module _ (q : PgQuery) (c d : Member) (p : PgPool) (there : member d.key p.conns ≡ some c)
      (idle : holds x c ≡ 0) (is_busy : d.link.state ≡ busy) (h : Inv x (q ∷ []) p) where
    unsent_now : ℕ
    unsent_now = if d.link.needs_flush then is_query x q else 0

    unsents :
        total (holds_unsent x) (set_member (record d { current = some q.id }) p).conns
        ≤ total (holds_unsent x) p.conns + unsent_now
    unfolding unsent_now
    unsents =
        let counts =
          total-put_member (holds_unsent x) d.key c (record d { current = some q.id }) p.conns
            there in
        let now : holds_unsent x (record d { current = some q.id }) ≡ unsent_now = ground arith in
        omega (arith, counts, now)

    in_flight-Inv : Inv x [] (in_flight q d p)
    unfolding total unsent_now
    in_flight-Inv =
        let e : Member = record d { current = some q.id } in
        let held = total-put_member (holds x) d.key c e p.conns there in
        let idles = total-put_member (holds_idle x) d.key c e p.conns there in
        let no_idle : holds_idle x e ≡ 0 = ground (arith, is_busy) in
        let least : unsent_now ≤ is_query x q = ground arith in
        record {
          placed = omega (arith, h.placed, total-snoc (is_query x) p.inflight q);
          owned = omega (arith, h.owned, total-snoc (is_query x) p.inflight q, held, idle);
          idle = omega (arith, h.idle, idles, no_idle);
          once = omega (arith, h.once, unsents, least);
          again = omega (arith, h.again, total-snoc (is_repeatable_query x) p.inflight q);
          fresh = h.fresh;
          started = h.started;
        }

    pub sent-Inv : Inv x [] (note_whole (not d.link.needs_flush) q (in_flight q d p))
    unfolding total unsent_now
    sent-Inv =
        note_whole-Inv (not d.link.needs_flush) q (in_flight q d p)
          (λ once whole.
            let no_unsent : unsent_now ≡ 0 = ground (arith, whole) in
            let no_repeat : is_repeatable_query x q ≡ 0 = ground (arith, once) in
            noted-Inv q (in_flight q d p) (omega (arith, h.once, unsents, no_unsent))
              (omega (
                arith,
                no_repeat,
                total-snoc (is_repeatable_query x) p.inflight q,
                total-snoc (is_query x) p.inflight q,
                repeatable-le-queries x p.inflight,
              ))
              in_flight-Inv)
          in_flight-Inv

pub send_on-key : (s : Sent) (n : ℕ) (q : PgQuery) (c : Member) → (send_on s n q c).0.key ≡ c.key
unfolding send_on
send_on-key s n q c = refl

pub send_on-busy :
    (s : Sent) (n : ℕ) (q : PgQuery) (c : Member)
    → (send_on s n q c).1 ≡ true
    → (send_on s n q c).0.link.state ≡ busy
unfolding send_on send_query
send_on-busy not_connected n q c h = cc h
send_on-busy lost_connection n q c h = cc h
send_on-busy not_sent n q c h = cc h
send_on-busy not_flushed n q c h = cc h
send_on-busy (sent more) n q c h = refl

module _ (x : ℕ) where
  pub idle-holds :
      (moving : List PgQuery) (c : Member) (p : PgPool)
      → member c.key p.conns ≡ some c
      → c.link.state ≡ ready
      → Inv x moving p
      → holds x c ≡ 0
  idle-holds moving c p there e h =
      let same : holds_idle x c ≡ holds x c = ground (arith, e) in
      omega (arith, same, h.idle, holds-le x c.key c p.conns there (holds_idle x))

  pub takes-ready : (c : Member) → takes_queries c ≡ true → c.link.state ≡ ready
  takes-ready c h = ground (arith, h)

  pub There-Free :
      (c : Member) (p : PgPool) → member c.key p.conns ≡ some c → holds x c ≡ 0 → Free x c.key p
  There-Free c p there e d found = ground (arith, there, found, e)

  module _ (moving : List PgQuery) (c : Member) (p : PgPool) (there : member c.key p.conns ≡ some c)
      (takes : takes_queries c ≡ true) (h : Inv x moving p) where
    -- A connection that takes queries has none, however its link changes.
    pub reconnect-Inv :
        (r : Reset) (d : Member)
        → d.key ≡ c.key
        → d.current ≡ none
        → Inv x moving (try_reconnect r d p).0
    reconnect-Inv r d same e =
        let free = There-Free c p there (idle-holds moving c p there (takes-ready c takes) h) in
        try_reconnect-Inv x moving r d p (subst (λ (k : ℕ). Free x k p) (sym same) free)
          (ground (arith, e)) h

    pub reconnect_same-Inv :
        (r : Reset) (link : PgConnection)
        → Inv x moving (try_reconnect r (record c { link = link }) p).0
    reconnect_same-Inv r link =
        let idle = idle-holds moving c p there (takes-ready c takes) h in
        try_reconnect-Inv x moving r (record c { link = link }) p (There-Free c p there idle) idle h

  -- Canceled queries leave the front of the queue.
  split_canceled-total :
      (f : PgQuery → ℕ) (ids : List ℕ) (qs : List PgQuery)
      → total f (split_canceled ids qs).0 + total f (split_canceled ids qs).1 ≡ total f qs
  unfolding total split_canceled
  split_canceled-total f ids [] = refl
  split_canceled-total f ids (q ∷ qs) = elim (Bool-cases (contains q.id ids)) [
    | inl found ↦ rw found (omega (arith, split_canceled-total f (without_id q.id ids) qs))
    | inr other ↦ rw other (omega arith)
  ]

  discards-total : (qs : List PgQuery) → ended x (discards qs) ≡ queries x qs
  unfolding total
  discards-total [] = refl
  discards-total (q ∷ qs) = omega (arith, discards-total qs)

  pub skip_canceled-Inv : (p : PgPool) → Inv x [] p → Inv x [] (skip_canceled p)
  unfolding skip_canceled
  skip_canceled-Inv p h =
      let dropped = (split_canceled p.canceled_ids p.queue).0 in
      let counts = split_canceled-total (is_query x) p.canceled_ids p.queue in
      let repeats = split_canceled-total (is_repeatable_query x) p.canceled_ids p.queue in
      record {
        placed = omega (
          arith,
          h.placed,
          counts,
          discards-total dropped,
          total-append (λ (e : ℕ × Fate). is_one e.0 x) p.fates (discards dropped),
        );
        owned = h.owned;
        idle = h.idle;
        once = omega (arith, h.once, counts);
        again = omega (arith, h.again, repeats);
        fresh = h.fresh;
        started = h.started;
      }
