-- ===== src/PgPool/Counts/Opened.antt =====
-- Opening, resetting and replacing connections moves no query.
use mathlib.Core.Path.{subst}
use libapostol.Prelude.{
  ◌&&◌, ◌||◌, leb, is_empty, by_test, by_option, true, List, [], ◌∷◌, ℕ, zero, suc, ◌+◌, ◌-◌, ◌≡◌,
  refl, sym, ltb, ◌==◌, Bool, not, arith, length, Bool-cases, Option-cases, inl, inr,
}
use libapostol.Pg.{new_connection, connect_start}
use libapostol.PgPool.{PgQuery, Member, PgPool, member, set_member}
use libapostol.PgPool.Opening.{
  OpeningReason, for_min, for_growth, growth_round, round_for, fresh_member, deferred, open_growth,
  connecting_in, grow_for_queue, is_idle, close_each, keys_of, close_idle, Reset, not_reset,
  no_socket, reset, refused_reset, Opens, record_connect_failure, schedule_reconnect_timer,
  open_member, open_missing, ensure_min_connections, healthy_count, open_each, start,
  remove_connection,
}
use libapostol.PgPool.Restoring.{
  replace_connection, Reconnected, reconnecting, not_reconnecting, reset_threw, or_replaced,
  reset_member, try_reconnect, restore,
}
use libapostol.PgPool.Counts.{member-key, holds, put_member-none, member-put_member}
use libapostol.PgPool.Counts.Invariant.{Inv, Free, put-Free-Inv, drop-Free-Inv, append_free-Inv}

module _ (x : ℕ) (moving : List PgQuery) where
  pub record_connect_failure-Inv :
      (now round : ℕ) (p : PgPool)
      → Inv x moving p
      → Inv x moving (record_connect_failure now round p)
  unfolding record_connect_failure
  record_connect_failure-Inv now round p h =
      by_test (Inv x moving) (round == growth_round) _ _ (λ _. h)
        (λ _. by_test (Inv x moving) (not (round == p.connect_round)) _ _ (λ _. h) (λ _. h))

  schedule_reconnect_timer-Inv :
      (a : Opens) (p : PgPool) → Inv x moving p → Inv x moving (schedule_reconnect_timer a p).0
  schedule_reconnect_timer-Inv a p h = elim (Bool-cases p.reconnect_timer) [
    | inl e ↦ simp e h
    | inr e ↦ elim (Bool-cases a.timer_added) [ inl f ↦ simp (e, f) h | inr f ↦ simp (e, f) h ]
  ]

  deferred-Inv :
      (why : OpeningReason) (a : Opens) (p : PgPool)
      → Inv x moving p
      → Inv x moving (deferred why a p).0
  deferred-Inv for_min a p h = schedule_reconnect_timer-Inv a p h
  deferred-Inv for_growth a p h = h

  abbrev InvOut : PgPool × Bool → Type 0
  InvOut out = Inv x moving out.0

  open_member-Inv :
      (why : OpeningReason) (a : Opens) (p : PgPool)
      → Inv x moving p
      → Inv x moving (open_member why a p).0
  unfolding open_member
  open_member-Inv why a p h =
      by_test InvOut (ltb a.now p.next_connect_attempt) _ _ (λ _. deferred-Inv why a p h)
        (λ _.
          by_test InvOut (not (connect_start (a.starts p.next_key) new_connection).1) _ _
            (λ _.
              record_connect_failure-Inv a.now (round_for why p)
                (record p { next_key = suc p.next_key }) h)
            (λ _.
              by_test InvOut (a.watched p.next_key) _ _
                (λ _.
                  append_free-Inv x moving
                    (fresh_member p.next_key (connect_start (a.starts p.next_key) new_connection).0
                      (round_for why p))
                    (record p { next_key = suc p.next_key }) refl h)
                (λ _. h)))

  open_missing-Inv :
      (n : ℕ) (a : Opens) (p : PgPool) → Inv x moving p → Inv x moving (open_missing n a p).0
  unfolding open_missing
  open_missing-Inv zero a p h = h
  open_missing-Inv (suc n) a p h =
      let opened = open_member for_min a p in
      let kept = open_member-Inv for_min a p h in
      by_test InvOut (ltb (length p.conns) (p.max_conns + p.min_conns)) _ _
        (λ _. by_test InvOut opened.1 _ _ (λ _. open_missing-Inv n a opened.0 kept) (λ _. kept))
        (λ _. h)

  open_growth-Inv :
      (free demand : ℕ) (a : Opens) (p : PgPool)
      → Inv x moving p
      → Inv x moving (open_growth free demand a p).0
  unfolding open_growth
  open_growth-Inv zero demand a p h = h
  open_growth-Inv (suc free) demand a p h =
      let opened = open_member for_growth a p in
      let kept = open_member-Inv for_growth a p h in
      by_test InvOut (ltb (healthy_count p) p.max_conns && ltb (connecting_in p.conns) demand) _ _
        (λ _.
          by_test InvOut (not opened.1 || length opened.0.conns == length p.conns) _ _ (λ _. kept)
            (λ _. open_growth-Inv free demand a opened.0 kept))
        (λ _. h)

  pub grow_for_queue-Inv :
      (a : Opens) (demand : ℕ) (p : PgPool)
      → Inv x moving p
      → Inv x moving (grow_for_queue a demand p).0
  unfolding grow_for_queue
  grow_for_queue-Inv a demand p h =
      by_test InvOut
        (leb p.max_conns p.min_conns
          || p.detached
          || ltb (healthy_count p) p.min_conns
          || ltb a.now p.growth_paused_until)
        _ _ (λ _. h)
        (λ _. open_growth-Inv (p.max_conns + p.min_conns - length p.conns) demand a p h)

  pub ensure_min_connections-Inv :
      (a : Opens) (p : PgPool) → Inv x moving p → Inv x moving (ensure_min_connections a p).0
  unfolding ensure_min_connections
  ensure_min_connections-Inv a p h = elim (Bool-cases (p.lazy && not p.used)) [
    | inl e ↦ rw e h
    | inr e ↦ rw e (open_missing-Inv (p.min_conns - healthy_count p) a p h)
  ]

  open_each-Inv :
      (n : ℕ) (a : Opens) (p : PgPool) → Inv x moving p → Inv x moving (open_each n a p).0
  unfolding open_each
  open_each-Inv zero a p h = h
  open_each-Inv (suc n) a p h =
      let opened = open_member for_min a p in
      let kept = open_member-Inv for_min a p h in
      by_test InvOut opened.1 _ _ (λ _. open_each-Inv n a opened.0 kept) (λ _. kept)

  pub start-Inv : (a : Opens) (p : PgPool) → Inv x moving p → Inv x moving (start a p).0
  unfolding start
  start-Inv a p h = elim (Bool-cases (p.lazy && not p.used)) [
    | inl e ↦ rw e h
    | inr e ↦ rw e (open_each-Inv p.min_conns a p h)
  ]

  is_idle-holds : (idle_long : Bool) (c : Member) → is_idle idle_long c ≡ true → holds x c ≡ 0
  is_idle-holds idle_long c h = ground (arith, h)

  close_each-Inv :
      (idle_long : ℕ → Bool) (keys : List ℕ) (healthy : ℕ) (p : PgPool)
      → Inv x moving p
      → Inv x moving (close_each idle_long keys healthy p)
  unfolding close_each remove_connection
  close_each-Inv idle_long [] healthy p h = h
  close_each-Inv idle_long (key ∷ keys) healthy p h =
      by_option (Inv x moving) (member key p.conns) _ _
        (λ _. close_each-Inv idle_long keys healthy p h)
        (λ c e.
          by_test (Inv x moving) (is_idle (idle_long key) c && ltb p.min_conns healthy) _ _
            (λ closes. close_each-Inv idle_long keys (healthy - 1) (remove_connection c p) (
              drop-Free-Inv x moving c.key p
                (λ d found. ground (
                  arith,
                  found,
                  e,
                  member-key key c p.conns e,
                  is_idle-holds (idle_long key) c (ground (arith, closes)),
                ))
                h))
            (λ _. close_each-Inv idle_long keys healthy p h))

  pub close_idle-Inv :
      (idle_long : ℕ → Bool) (p : PgPool) → Inv x moving p → Inv x moving (close_idle idle_long p)
  unfolding close_idle
  close_idle-Inv idle_long p h =
      by_test (Inv x moving) (not (is_empty p.queue)) _ _ (λ _. h)
        (λ _. close_each-Inv idle_long (keys_of p) (healthy_count p) p h)

  pub replace_connection-Inv :
      (a : Opens) (c : Member) (p : PgPool)
      → Free x c.key p
      → Inv x moving p
      → Inv x moving (replace_connection a c p).0
  unfolding replace_connection remove_connection
  replace_connection-Inv a c p free h =
      ensure_min_connections-Inv a _ (drop-Free-Inv x moving c.key p free h)

reset_member-holds :
    (x : ℕ) (r : Reset) (round : ℕ) (c : Member)
    → holds x c ≡ 0
    → holds x (reset_member r round c).0 ≡ 0
unfolding reset_member
reset_member-holds x not_reset round c e = e
reset_member-holds x no_socket round c e = e
reset_member-holds x (reset fd) round c e = e
reset_member-holds x (refused_reset fd) round c e = e

reset_member-key : (r : Reset) (round : ℕ) (c : Member) → (reset_member r round c).0.key ≡ c.key
unfolding reset_member
reset_member-key not_reset round c = refl
reset_member-key no_socket round c = refl
reset_member-key (reset fd) round c = refl
reset_member-key (refused_reset fd) round c = refl

module _ (x : ℕ) where
  -- A connection without a query, under its key, leaves the key free.
  pub put-Free :
      (d : Member) (p : PgPool) → holds x d ≡ 0 → Free x d.key p → Free x d.key (set_member d p)
  put-Free d p e free c there = elim (Option-cases (member d.key p.conns)) [
    | inl no_one ↦ absurd (ground (arith, put_member-none d.key d p.conns no_one, no_one, there))
    | inr (b, was) ↦ ground (arith, member-put_member d.key b d p.conns was refl, there, e)
  ]

  module _ (moving : List PgQuery) where
    pub try_reconnect-Inv :
        (r : Reset) (c : Member) (p : PgPool)
        → Free x c.key p
        → holds x c ≡ 0
        → Inv x moving p
        → Inv x moving (try_reconnect r c p).0
    unfolding try_reconnect
    try_reconnect-Inv r c p free e h =
        put-Free-Inv x moving (reset_member r p.connect_round c).0 p
          (subst (λ (k : ℕ). Free x k p) (sym (reset_member-key r p.connect_round c)) free)
          (reset_member-holds x r p.connect_round c e) h

    or_replaced-Inv :
        (outcome : Reconnected) (p : PgPool) (q : PgPool × Bool)
        → Inv x moving p
        → Inv x moving q.0
        → Inv x moving (or_replaced outcome p q).0
    or_replaced-Inv reconnecting p q h k = h
    or_replaced-Inv reset_threw p q h k = h
    or_replaced-Inv not_reconnecting p q h k = k

    pub restore-Inv :
        (r : Reset) (a : Opens) (c : Member) (p : PgPool)
        → Free x c.key p
        → holds x c ≡ 0
        → Inv x moving p
        → Inv x moving (restore r a c p).0
    unfolding restore try_reconnect
    restore-Inv r a c p free e h =
        let d = (reset_member r p.connect_round c).0 in
        let same = reset_member-key r p.connect_round c in
        let reset_pool = try_reconnect-Inv r c p free e h in
        let still_free =
          subst (λ (k : ℕ). Free x k (set_member d p)) same
            (put-Free d p (reset_member-holds x r p.connect_round c e)
              (subst (λ (k : ℕ). Free x k p) (sym same) free)) in
        or_replaced-Inv (try_reconnect r c p).1 (try_reconnect r c p).0
          (replace_connection a c (try_reconnect r c p).0) reset_pool
          (replace_connection-Inv x moving a c (try_reconnect r c p).0 still_free reset_pool)
