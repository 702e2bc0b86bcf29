-- ===== src/EventLoop/Faults.antt =====
-- What becomes of a handler that throws.
use libapostol.Prelude.{
  ℕ, ◌≤◌, ◌≡◌, ◌⊎◌, refl, ap, sym, ◌∙◌, ◌==◌, Bool, true, false, Option, none, some, arith, inl,
  inr, Bool-cases, Option-cases, if◌then◌else◌,
}
use mathlib.Core.Path.{subst}
use libapostol.EventLoop.{
  IoEntry, EventLoop, entry_of, put, remove_io, Modified, done, lost, refused, modify_io,
  perform_all, Deed, end_of_input, io_handler_threw, take_off, called, dispatch_io,
}
use libapostol.EventLoop.Registrations.{erased}
use libapostol.EventLoop.Marks.{Marked, perform_all-Marked}

-- No registration of a descriptor under a number.
Gone : ℕ → ℕ → EventLoop → Type 0
Gone fd seq l = (x : IoEntry) → entry_of fd l.io_handlers ≡ some x → (x.seq == seq) ≡ false

removed_Gone : (fd seq : ℕ) (l : EventLoop) → Gone fd seq (remove_io fd l)
unfolding Gone
removed_Gone fd seq l x there = absurd (ground (arith, there, erased fd l.io_handlers))

entry_or : IoEntry → Option IoEntry → IoEntry
entry_or d none = d
entry_or d (some z) = z

same_entry : (e x : IoEntry) → some e ≡ some x → e ≡ x
unfolding entry_or
same_entry e x h = ap (entry_or e) h

none-Gone : (fd seq : ℕ) (l : EventLoop) → entry_of fd l.io_handlers ≡ none → Gone fd seq l
unfolding Gone
none-Gone fd seq l e x there = absurd (ground (arith, there, e))

other_Gone :
    (fd seq : ℕ) (e : IoEntry) (l : EventLoop)
    → entry_of fd l.io_handlers ≡ some e
    → (e.seq == seq) ≡ false
    → Gone fd seq l
unfolding Gone
other_Gone fd seq e l there other x there' =
    ap (λ (z : IoEntry). z.seq == seq) (sym (same_entry e x (sym there ∙ there'))) ∙ other

take_off-Gone : (fd seq : ℕ) (l : EventLoop) → Gone fd seq (take_off fd seq l)
unfolding take_off
take_off-Gone fd seq l = elim (Option-cases (entry_of fd l.io_handlers)) [
  | inl no_one ↦ rw (no_one, take_off) (none-Gone fd seq l no_one)
  | inr (e, there) ↦ elim (Bool-cases (e.seq == seq)) [
    | inl same ↦ rw (there, same, take_off) (removed_Gone fd seq l)
    | inr other ↦ rw (there, other, take_off) (other_Gone fd seq e l there other)
  ]
]

-- After the call of a handler by its entry: its registration is gone, or it had not thrown before, and
-- is marked if it threw now.
pub Settled : ℕ → IoEntry → Deed → EventLoop → Type 0
Settled fd e deed l =
    (x : IoEntry)
    → entry_of fd l.io_handlers ≡ some x
    → ((x.seq == e.seq) ≡ false) ⊎ ((e.faulted ≡ false) × (deed.threw ≡ true → x.faulted ≡ true))

Gone-Settled :
    (fd : ℕ) (e : IoEntry) (deed : Deed) (l : EventLoop) → Gone fd e.seq l → Settled fd e deed l
unfolding Gone Settled
Gone-Settled fd e deed l h x there = inl (h x there)

put_found : (fd : ℕ) (g : IoEntry) (l : EventLoop) → entry_of fd (put fd g l).io_handlers ≡ some g
unfolding entry_of
put_found fd g l = ground arith

modify_io-found :
    (fd events : ℕ) (g : IoEntry) (l : EventLoop)
    → entry_of fd l.io_handlers ≡ some g
    → modify_io done fd events l ≡ (put fd (record g { events = events }) l, true)
unfolding modify_io
modify_io-found fd events g l there = rw (there, modify_io) refl

-- The entry is marked, and its socket watched for the end of input.
armed-faulted :
    (answer : Modified) (fd events : ℕ) (g x : IoEntry) (l : EventLoop)
    → g.faulted ≡ true
    → (modify_io answer fd events (put fd g l)).1 ≡ true
    → entry_of fd (modify_io answer fd events (put fd g l)).0.io_handlers ≡ some x
    → x.faulted ≡ true
unfolding modify_io
armed-faulted lost fd events g x l marks ok there = cc ok
armed-faulted refused fd events g x l marks ok there = cc ok
armed-faulted done fd events g x l marks ok there =
    let watched : IoEntry = record g { events = events } in
    let found = put_found fd watched (put fd g l) in
    let same =
      ap (λ (r : EventLoop × Bool). entry_of fd r.0.io_handlers)
        (modify_io-found fd events g (put fd g l) (put_found fd g l)) in
    sym (ap (λ (z : IoEntry). z.faulted) (same_entry watched x (sym found ∙ sym same ∙ there)))
    ∙ marks

-- What the loop does for a handler that throws for the first time.
marks_it : ℕ → IoEntry → IoEntry → Deed → EventLoop → EventLoop × Bool
marks_it fd e f deed l =
    modify_io deed.modified fd (end_of_input f.events) (put fd (record f { faulted = true }) l)

-- A handler that threw and still has its registration.
module _ (fd : ℕ) (e f : IoEntry) (deed : Deed) (l : EventLoop)
    (there : entry_of fd l.io_handlers ≡ some f) (same : (f.seq == e.seq) ≡ true) where
  threw-again : f.faulted ≡ true → io_handler_threw fd e.seq deed l ≡ remove_io fd l
  unfolding io_handler_threw
  threw-again again = ground (arith, there, same, again)

  threw-not_shut :
      f.faulted ≡ false → deed.shut ≡ false → io_handler_threw fd e.seq deed l ≡ remove_io fd l
  unfolding io_handler_threw
  threw-not_shut first not_shut = ground (arith, there, same, first, not_shut)

  threw-marked :
      f.faulted ≡ false
      → deed.shut ≡ true
      → io_handler_threw fd e.seq deed l ≡ (
          if (marks_it fd e f deed l).1
          then (marks_it fd e f deed l).0
          else remove_io fd (marks_it fd e f deed l).0)
  unfolding io_handler_threw marks_it
  threw-marked first shut = rw (there, same, first, shut, io_handler_threw) refl

removed-Settled :
    (fd : ℕ) (e : IoEntry) (deed : Deed) (l : EventLoop) → Settled fd e deed (remove_io fd l)
removed-Settled fd e deed l = Gone-Settled fd e deed (remove_io fd l) (removed_Gone fd e.seq l)

-- A handler that throws for the first time, whose socket could be shut.
marked-Settled :
    (fd : ℕ) (e f : IoEntry) (deed : Deed) (l : EventLoop)
    → e.faulted ≡ false
    → Settled fd e deed (
        if (marks_it fd e f deed l).1
        then (marks_it fd e f deed l).0
        else remove_io fd (marks_it fd e f deed l).0)
unfolding marks_it Settled
marked-Settled fd e f deed l sound = elim (Bool-cases (marks_it fd e f deed l).1) [
  | inl ok ↦ simp ok (λ x there. inr (
    sound,
    λ t.
        armed-faulted deed.modified fd (end_of_input f.events) (record f { faulted = true }) x l
          refl ok there,
  ))
  | inr not_ok ↦ simp not_ok (removed-Settled fd e deed (marks_it fd e f deed l).0)
]

threw-none :
    (fd seq : ℕ) (deed : Deed) (l : EventLoop)
    → entry_of fd l.io_handlers ≡ none
    → io_handler_threw fd seq deed l ≡ l
unfolding io_handler_threw
threw-none fd seq deed l no_one = ground (arith, no_one)

threw-other :
    (fd seq : ℕ) (f : IoEntry) (deed : Deed) (l : EventLoop)
    → entry_of fd l.io_handlers ≡ some f
    → (f.seq == seq) ≡ false
    → io_handler_threw fd seq deed l ≡ l
unfolding io_handler_threw
threw-other fd seq f deed l there other = ground (arith, there, other)

sound-Settled :
    (fd : ℕ) (e : IoEntry) (deed : Deed) (l : EventLoop)
    → e.faulted ≡ false
    → deed.threw ≡ false
    → Settled fd e deed l
unfolding Settled
sound-Settled fd e deed l sound ends x there = inr (sound, λ t. absurd (ground (arith, t, ends)))

threw-Settled :
    (fd : ℕ) (e : IoEntry) (deed : Deed) (l : EventLoop)
    → (e.faulted ≡ true → Marked fd e.seq l)
    → Settled fd e deed (io_handler_threw fd e.seq deed l)
threw-Settled fd e deed l h = elim (Option-cases (entry_of fd l.io_handlers)) [
  | inl no_one ↦
      subst (Settled fd e deed) (sym (threw-none fd e.seq deed l no_one))
        (Gone-Settled fd e deed l (none-Gone fd e.seq l no_one))
  | inr (f, there) ↦ elim (Bool-cases (f.seq == e.seq)) [
    | inr other ↦
        subst (Settled fd e deed) (sym (threw-other fd e.seq f deed l there other))
          (Gone-Settled fd e deed l (other_Gone fd e.seq f l there other))
    | inl same ↦ elim (Bool-cases f.faulted) [
      | inl again ↦
          subst (Settled fd e deed) (sym (threw-again fd e f deed l there same again))
            (removed-Settled fd e deed l)
      | inr first ↦ elim (Bool-cases deed.shut) [
        | inr not_shut ↦
            subst (Settled fd e deed) (sym (threw-not_shut fd e f deed l there same first not_shut))
              (removed-Settled fd e deed l)
        | inl shut ↦
            subst (Settled fd e deed) (sym (threw-marked fd e f deed l there same first shut)) (
              marked-Settled fd e f deed l (elim (Bool-cases e.faulted) [
                | inr sound ↦ sound
                | inl faulted ↦
                    absurd
                      (ground (arith, first, (h faulted).marked f there (ground (arith, same))))
              ]))
      ]
    ]
  ]
]

-- A handler that throws is told of the end of its input once: after the call of a handler by its entry,
-- its registration is gone, or it had not thrown before and is marked if it threw now; whatever it did
-- to the loop, and whatever the kernel answers; where numbers of registrations have been given out in
-- order.
pub dispatch_io-Settled :
    (fd events : ℕ) (e : IoEntry) (deed : Deed) (l : EventLoop)
    → entry_of fd l.io_handlers ≡ some e
    → e.seq ≤ l.registration_seq
    → Settled fd e deed (dispatch_io fd events e deed l)
unfolding dispatch_io
dispatch_io-Settled fd events e deed l there below =
    let begun = called fd events e l in
    let after = perform_all deed.operations begun in
    let stays : e.faulted ≡ true → Marked fd e.seq after = λ t.
      perform_all-Marked fd e.seq deed.operations begun (record {
        marked = λ x there' same.
            ap (λ (z : IoEntry). z.faulted) (sym (same_entry e x (sym there ∙ there'))) ∙ t;
        below = below;
      }) in
    elim (Bool-cases deed.threw) [
      | inl threw ↦ simp threw (threw-Settled fd e deed after stays)
      | inr ends ↦ elim (Bool-cases e.faulted) [
        | inl faulted ↦
            simp (ends, faulted) (Gone-Settled fd e deed _ (take_off-Gone fd e.seq after))
        | inr sound ↦ simp (ends, sound) (sound-Settled fd e deed after sound ends)
      ]
    ]
