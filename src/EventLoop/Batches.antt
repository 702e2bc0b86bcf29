-- ===== src/EventLoop/Batches.antt =====
-- Which handlers a batch of events reaches.
use libapostol.Prelude.{
  ℕ, ◌≡◌, refl, ap, sym, ◌∙◌, ltb, true, List, [], ◌∷◌, ◌++◌, arith, inl, inr, Bool-cases,
  Option-cases, append-nil, append_assoc,
}
use libapostol.EventLoop.{
  IoEntry, Call, EventLoop, entry_of, Deed, called, dispatch_io, Event, on_socket, elsewhere,
  one_event, batch_from, poll_once,
}
use libapostol.EventLoop.Registrations.{
  Registered, Keeps, same_Keeps, then_Keeps, perform_all-Keeps, dispatch_io-Keeps,
}

-- Each call is of a registration in a table.
abbrev pub AllRegistered : List Call → List (ℕ × IoEntry) → Type 0
AllRegistered [] handlers = true ≡ true
AllRegistered (c ∷ cs) handlers = Registered c.fd c.seq handlers × AllRegistered cs handlers

AllRegistered-append :
    (cs ds : List Call) (handlers : List (ℕ × IoEntry))
    → AllRegistered cs handlers
    → AllRegistered ds handlers
    → AllRegistered (cs ++ ds) handlers
AllRegistered-append [] ds handlers h k = k
AllRegistered-append (c ∷ cs) ds handlers (h, hs) k = (h, AllRegistered-append cs ds handlers hs k)

abbrev with_calls : List Call → EventLoop → EventLoop
with_calls cs l = record l { calls = cs }

-- What an event, or several, do in a batch that was collected when the loop was `first`.
record Reaches (first l l' : EventLoop) : Type 0 where
  new : List Call
  grown : l'.calls ≡ l.calls ++ new
  registered : AllRegistered new first.io_handlers
  keeps : Keeps (with_calls l'.calls first) l'

silent_Reaches :
    (first l l' : EventLoop) → Keeps (with_calls l.calls first) l → Keeps l l' → Reaches first l l'
silent_Reaches first l l' h k =
    let all = then_Keeps (with_calls l.calls first) l l' h k in
    record {
      new = [];
      grown = k.silent ∙ sym (append-nil l.calls);
      registered = refl;
      keeps = record { counts = all.counts; old = all.old; silent = refl };
    }

dispatch_io-Reaches :
    (first : EventLoop) (fd events : ℕ) (e : IoEntry) (deed : Deed) (l : EventLoop)
    → Keeps (with_calls l.calls first) l
    → Registered fd e.seq first.io_handlers
    → Reaches first l (dispatch_io fd events e deed l)
dispatch_io-Reaches first fd events e deed l h r =
    let begun = called fd events e l in
    let works = dispatch_io-Keeps fd events e deed l in
    let all =
      then_Keeps (with_calls begun.calls first) begun _
        (record { counts = h.counts; old = h.old; silent = refl }) works in
    record {
      new = record { fd = fd; seq = e.seq; events = events } ∷ [];
      grown = works.silent;
      registered = (r, refl);
      keeps = record { counts = all.counts; old = all.old; silent = refl };
    }

one_event-Reaches :
    (first : EventLoop) (ev : Event) (l : EventLoop)
    → Keeps (with_calls l.calls first) l
    → Reaches first l (one_event first.registration_seq ev l)
unfolding one_event
one_event-Reaches first (elsewhere operations) l h =
    silent_Reaches first l _ h (perform_all-Keeps operations l)
one_event-Reaches first (on_socket fd events deed) l h =
    elim (Option-cases (entry_of fd l.io_handlers)) [
      | inl no_one ↦ rw (no_one, one_event) (silent_Reaches first l l h (same_Keeps l))
      | inr (e, there) ↦ elim (Bool-cases (ltb first.registration_seq e.seq)) [
        | inl newer ↦ rw (there, newer, one_event) (silent_Reaches first l l h (same_Keeps l))
        | inr known ↦ elim (h.old fd e there) [
          | inl later ↦ absurd (ground (arith, known, later))
          | inr r ↦
              rw (there, known, one_event)
                (dispatch_io-Reaches first fd events e deed l h
                  (record { entry = r.entry; there = r.there; same = r.same }))
        ]
      ]
    ]

batch_from-Reaches :
    (first : EventLoop) (es : List Event) (l : EventLoop)
    → Keeps (with_calls l.calls first) l
    → Reaches first l (batch_from first.registration_seq es l)
unfolding batch_from
batch_from-Reaches first [] l h = silent_Reaches first l l h (same_Keeps l)
batch_from-Reaches first (ev ∷ es) l h = elim (Bool-cases l.running) [
  | inr ends ↦ simp ends (silent_Reaches first l l h (same_Keeps l))
  | inl runs ↦
      let now = one_event-Reaches first ev l h in
      let rest = batch_from-Reaches first es (one_event first.registration_seq ev l) now.keeps in
      simp runs (record {
        new = now.new ++ rest.new;
        grown =
            rest.grown
            ∙ ap (λ (cs : List Call). cs ++ rest.new) now.grown
            ∙ append_assoc l.calls now.new rest.new;
        registered =
            AllRegistered-append now.new rest.new first.io_handlers now.registered rest.registered;
        keeps = rest.keeps;
      })
]

-- Whatever the handlers of a batch do, register and remove, under the same descriptors again too: an
-- event reaches only a handler that was registered for its descriptor when the batch was collected.
pub poll_once-AllRegistered :
    (events : List Event) (l : EventLoop)
    → (new : List Call) × ((poll_once events l).calls ≡ l.calls ++ new)
      × AllRegistered new l.io_handlers
poll_once-AllRegistered events l =
    let reaches = batch_from-Reaches l events l (same_Keeps l) in
    (reaches.new, reaches.grown, reaches.registered)
