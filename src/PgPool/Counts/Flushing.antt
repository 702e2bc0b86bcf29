-- ===== src/PgPool/Counts/Flushing.antt =====
-- A busy connection, and all events of a socket, leave every query in one place.
use mathlib.Core.Path.{subst}
use libapostol.Prelude.{
  ℕ, ◌≡◌, refl, sym, true, false, not, ◌&&◌, some, List, [], ◌∷◌, arith, by_test, by_option,
}
use libapostol.Pg.{PgConnState, connecting, ready, busy, failed, flush}
use libapostol.PgPool.{
  PgRetry, never, if_lost, PgQuery, Member, PgPool, member, set_member, take_query,
}
use libapostol.PgPool.Queries.{Watching, watched, unwatched, refused}
use libapostol.PgPool.Sockets.{
  Io, lose, on_connecting, on_ready, goes_whole, on_busy, on_member, on_io,
}
use libapostol.PgPool.Counts.{
  is_query, is_repeatable_query, holds, holds_unsent, holds_idle, total-put_member,
  member-put_member, take_query-some, repeatable-le-queries,
}
use libapostol.PgPool.Counts.Invariant.{Inv, put-Inv}
use libapostol.PgPool.Counts.Released.{holds-le}
use libapostol.PgPool.Counts.Sending.{note_whole-Inv, noted-Inv}
use libapostol.PgPool.Counts.Dispatch.{found_there}
use libapostol.PgPool.Counts.Happening.{lose-Inv}
use libapostol.PgPool.Counts.Io.{
  flush_lem, idle_state, on_connecting-Inv, on_ready-Inv, read_results-Inv,
}

module _ (x : ℕ) where
  module _ (c d : Member) (p : PgPool) (there : member c.key p.conns ≡ some c) (key : d.key ≡ c.key)
      (current : d.current ≡ c.current) (state : d.link.state ≡ c.link.state)
      (was_unsent : c.link.needs_flush ≡ true) (all_out : d.link.needs_flush ≡ false)
      (h : Inv x [] p) where
    there_d : member d.key p.conns ≡ some c
    there_d = subst (λ (k : ℕ). member k p.conns ≡ some c) (sym key) there

    unsent_before : holds_unsent x c ≡ holds x c
    unsent_before = ground (arith, was_unsent)

    unsent_after : holds_unsent x d ≡ 0
    unsent_after = ground (arith, all_out)

    flushed-Inv : Inv x [] (set_member d p)
    flushed-Inv =
        let idle : holds_idle x d ≡ holds_idle x c = ground (arith, current, state) in
        put-Inv x [] c d p there_d (ground (arith, current)) (omega (arith, unsent_after))
          (omega (arith, idle, h.idle, holds-le x c.key c p.conns there (holds_idle x))) h

    noted_whole-Inv :
        (id : ℕ) (q : PgQuery)
        → c.current ≡ some id
        → (take_query id p.inflight).0 ≡ some q
        → q.retry ≡ never
        → Inv x [] (record (set_member d p) { gone_out = q.id ∷ p.gone_out })
    noted_whole-Inv id q e found once =
        let (same, counts) = take_query-some (is_query x) id q p.inflight found in
        let (_, repeats) = take_query-some (is_repeatable_query x) id q p.inflight found in
        let held : holds x c ≡ is_query x q = ground (arith, e, same) in
        let no_repeat : is_repeatable_query x q ≡ 0 = ground (arith, once) in
        let unsents = total-put_member (holds_unsent x) d.key c d p.conns there_d in
        noted-Inv x q (set_member d p)
          (omega (arith, h.once, unsents, unsent_before, unsent_after, held))
          (omega (
            arith,
            counts,
            repeats,
            no_repeat,
            repeatable-le-queries x (take_query id p.inflight).1,
          ))
          flushed-Inv

    goes_whole-Inv : Inv x [] (goes_whole c (set_member d p))
    goes_whole-Inv =
        by_option (Inv x []) c.current _ _ (λ _. flushed-Inv)
          (λ id e.
            by_option (Inv x []) (take_query id p.inflight).0 _ _ (λ _. flushed-Inv)
              (λ q found.
                note_whole-Inv x true q (set_member d p)
                  (λ once _. noted_whole-Inv id q e found once) flushed-Inv))

  goes_whole-conns : (c : Member) (p : PgPool) → (goes_whole c p).conns ≡ p.conns
  goes_whole-conns c p =
      let P : PgPool → Type 0 = λ r. r.conns ≡ p.conns in
      by_option P c.current _ _ (λ _. refl)
        (λ id _. by_option P (take_query id p.inflight).0 _ _ (λ _. refl) (λ q _. noted q q.retry))
    where
      noted :
          (q : PgQuery) (r : PgRetry)
          → (elim r as (λ _. PgPool) [
            | never ↦ record p { gone_out = q.id ∷ p.gone_out }
            | if_lost ↦ p
          ]).conns
            ≡ p.conns
      noted q never = refl
      noted q if_lost = refl

  rewatched-Inv :
      (w : Watching) (a b c : PgPool)
      → Inv x [] a
      → Inv x [] b
      → Inv x [] c
      → Inv x [] (elim w [ watched ↦ a | unwatched ↦ b | refused ↦ c ])
  rewatched-Inv watched a b c h k l = h
  rewatched-Inv unwatched a b c h k l = k
  rewatched-Inv refused a b c h k l = l

  on_busy-Inv :
      (io : Io) (c : Member) (p : PgPool)
      → member c.key p.conns ≡ some c
      → Inv x [] p
      → Inv x [] (on_busy io c p)
  unfolding on_busy
  on_busy-Inv io c p there h =
      let link = (flush io.flushed c.link).0 in
      let sent : Member = record c { link = link } in
      let whole = goes_whole c (set_member sent p) in
      let reads_on = read_results-Inv x io c p there h in
      by_test (Inv x []) (not (io.writable && c.link.needs_flush)) _ _ (λ _. reads_on)
        (λ flushes.
          by_test (Inv x []) (not (flush io.flushed c.link).1) _ _
            (λ _. by_test (Inv x []) io.readable _ _ (λ _. reads_on) (λ _. h))
            (λ out.
              let (all_out, state) = flush_lem io.flushed c.link (ground (arith, out)) in
              let noted =
                goes_whole-Inv c sent p there refl refl state (ground (arith, flushes)) all_out h in
              let there_now : member sent.key whole.conns ≡ some sent =
                subst (λ (cs : List Member). member sent.key cs ≡ some sent)
                  (sym (goes_whole-conns c (set_member sent p)))
                  (member-put_member c.key c sent p.conns there refl) in
              rewatched-Inv io.rewatching _ _ _
                (by_test (Inv x []) io.readable _ _
                  (λ _. read_results-Inv x io sent whole there_now noted) (λ _. noted))
                (lose-Inv x io sent sent whole (record { there = there_now; same = refl }) refl
                  noted)
                noted))

  on_member-Inv :
      (io : Io) (c : Member) (p : PgPool)
      → member c.key p.conns ≡ some c
      → Inv x [] p
      → Inv x [] (on_member io c p)
  unfolding on_member
  on_member-Inv io c p there h = go c.link.state refl
    where
      go :
          (s : PgConnState)
          → c.link.state ≡ s
          → Inv x [] (elim s [
            | connecting ↦ on_connecting io c p
            | ready ↦ on_ready io c p
            | busy ↦ on_busy io c p
            | failed ↦ lose io c p
          ])
      go connecting e =
          on_connecting-Inv x io c p there (idle_state x c p there (λ b. cc (e, b)) h) h
      go ready e = on_ready-Inv x io c p there (idle_state x c p there (λ b. cc (e, b)) h) h
      go busy e = on_busy-Inv io c p there h
      go failed e = lose-Inv x io c c p (record { there = there; same = refl }) refl h

  pub on_io-Inv : (io : Io) (key : ℕ) (p : PgPool) → Inv x [] p → Inv x [] (on_io io key p)
  unfolding on_io
  on_io-Inv io key p h =
      by_option (Inv x []) (member key p.conns) _ _ (λ _. h)
        (λ c e. on_member-Inv io c p (found_there x key c p e) h)
