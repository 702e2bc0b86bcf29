-- ===== src/EventLoop/Registrations.antt =====
-- What the operations of the loop leave of its registrations.
use libapostol.Prelude.{
  ℕ, suc, ◌≤◌, ◌<◌, ◌≡◌, ◌⊎◌, refl, ap, sym, ◌∙◌, ◌==◌, Bool, true, false, none, some, List, [],
  ◌∷◌, arith, inl, inr, Bool-cases, Option-cases,
}
use libapostol.EventLoop.{
  IoEntry, EventLoop, entry_of, erase, put, remove_io, Modified, done, lost, refused, add_io,
  modify_io, Operation, adds, modifies, removes, adds_timer, stops, perform, perform_all, Deed,
  end_of_input, io_handler_threw, take_off, called, dispatch_io,
}

-- A descriptor is registered under a number.
pub record Registered (fd seq : ℕ) (handlers : List (ℕ × IoEntry)) : Type 0 where
  pub entry : IoEntry
  pub there : entry_of fd handlers ≡ some entry
  pub same : entry.seq ≡ seq

-- Every registration of the second loop is one of the first, or newer; and no handler was called.
pub record Keeps (l l' : EventLoop) : Type 0 where
  pub counts : l.registration_seq ≤ l'.registration_seq
  pub old :
      (fd : ℕ) (e : IoEntry)
      → entry_of fd l'.io_handlers ≡ some e
      → (l.registration_seq < e.seq) ⊎ Registered fd e.seq l.io_handlers
  pub silent : l'.calls ≡ l.calls

pub erased : (fd : ℕ) (es : List (ℕ × IoEntry)) → entry_of fd (erase fd es) ≡ none
unfolding entry_of erase
erased fd [] = refl
erased fd ((y, f) ∷ es) = elim (Bool-cases (y == fd)) [
  | inl gone ↦ rw gone (erased fd es)
  | inr stays ↦ rw (stays, stays) (erased fd es)
]

pub entry_of-erase :
    (x fd : ℕ) (es : List (ℕ × IoEntry)) (e : IoEntry)
    → entry_of x (erase fd es) ≡ some e
    → entry_of x es ≡ some e
unfolding entry_of erase
entry_of-erase x fd [] e h = h
entry_of-erase x fd ((y, f) ∷ es) e h = elim (Bool-cases (y == fd)) [
  | inl gone ↦ elim (Bool-cases (y == x)) [
    | inl found ↦
        let same : x ≡ fd = ground (arith, gone, found) in
        absurd
          (ground (arith, h, gone, ap (λ (z : ℕ). entry_of z (erase fd es)) same, erased fd es))
    | inr other ↦ rw other (entry_of-erase x fd es e (ground (arith, h, gone)))
  ]
  | inr stays ↦ elim (Bool-cases (y == x)) [
    | inl found ↦ rw found (ground (arith, h, stays, found))
    | inr other ↦ rw other (entry_of-erase x fd es e (ground (arith, h, stays, other)))
  ]
]

pub entry_of-put :
    (x fd : ℕ) (f e : IoEntry) (l : EventLoop)
    → entry_of x (put fd f l).io_handlers ≡ some e
    → ((f ≡ e) × (fd ≡ x)) ⊎ (entry_of x l.io_handlers ≡ some e)
unfolding entry_of
entry_of-put x fd f e l h = elim (Bool-cases (fd == x)) [
  | inl same ↦ inl (ground (arith, h, same), ground (arith, same))
  | inr other ↦ inr (entry_of-erase x fd l.io_handlers e (ground (arith, h, other)))
]

pub same_Keeps : (l : EventLoop) → Keeps l l
same_Keeps l = record {
  counts = ground arith;
  old = λ fd e h. inr (record { entry = e; there = h; same = refl });
  silent = refl;
}

pub then_Keeps : (l m n : EventLoop) → Keeps l m → Keeps m n → Keeps l n
then_Keeps l m n h k = record {
  counts = ground (arith, h.counts, k.counts);
  old = λ fd e there. elim (k.old fd e there) [
    | inl newer ↦ inl (ground (arith, h.counts, newer))
    | inr known ↦ elim (h.old fd known.entry known.there) [
      | inl newer ↦ inl (rw (← known.same) newer)
      | inr first ↦
          inr (record { entry = first.entry; there = first.there; same = first.same ∙ known.same })
    ]
  ];
  silent = k.silent ∙ h.silent;
}

-- An entry with another mask or mark, under its number.
put-Keeps :
    (fd : ℕ) (f g : IoEntry) (l : EventLoop)
    → entry_of fd l.io_handlers ≡ some f
    → g.seq ≡ f.seq
    → Keeps l (put fd g l)
put-Keeps fd f g l there same = record {
  counts = ground arith;
  old = λ x e h. elim (entry_of-put x fd g e l h) [
    | inl (is_g, is_fd) ↦ inr (record {
      entry = f;
      there = ap (λ (z : ℕ). entry_of z l.io_handlers) (sym is_fd) ∙ there;
      same = sym same ∙ ap (λ (z : IoEntry). z.seq) is_g;
    })
    | inr was ↦ inr (record { entry = e; there = was; same = refl })
  ];
  silent = refl;
}

remove_io-Keeps : (fd : ℕ) (l : EventLoop) → Keeps l (remove_io fd l)
remove_io-Keeps fd l = record {
  counts = ground arith;
  old = λ x e h.
      inr (record { entry = e; there = entry_of-erase x fd l.io_handlers e h; same = refl });
  silent = refl;
}

add_io-Keeps :
    (ok : Bool) (fd events callback : ℕ) (l : EventLoop) → Keeps l (add_io ok fd events callback l)
unfolding add_io
add_io-Keeps false fd events callback l = same_Keeps l
add_io-Keeps true fd events callback l = record {
  counts = ground arith;
  old = λ x e h.
      elim (entry_of-put x fd _ e (record l { registration_seq = suc l.registration_seq }) h) [
        | inl (is_new, is_fd) ↦ inl (rw (← is_new) (ground arith))
        | inr was ↦ inr (record { entry = e; there = was; same = refl })
      ];
  silent = refl;
}

modify_io-Keeps :
    (answer : Modified) (fd events : ℕ) (l : EventLoop) → Keeps l (modify_io answer fd events l).0
unfolding modify_io
modify_io-Keeps done fd events l = elim (Option-cases (entry_of fd l.io_handlers)) [
  | inl no_one ↦ rw (no_one, modify_io) (same_Keeps l)
  | inr (f, there) ↦
      rw (there, modify_io) (put-Keeps fd f (record f { events = events }) l there refl)
]
modify_io-Keeps lost fd events l = remove_io-Keeps fd l
modify_io-Keeps refused fd events l = same_Keeps l

perform-Keeps : (o : Operation) (l : EventLoop) → Keeps l (perform o l)
perform-Keeps (adds ok fd events callback) l = add_io-Keeps ok fd events callback l
perform-Keeps (modifies answer fd events) l = modify_io-Keeps answer fd events l
perform-Keeps (removes fd) l = remove_io-Keeps fd l
perform-Keeps adds_timer l = record {
  counts = ground arith;
  old = λ x e h. inr (record { entry = e; there = h; same = refl });
  silent = refl;
}
perform-Keeps stops l = record {
  counts = ground arith;
  old = λ x e h. inr (record { entry = e; there = h; same = refl });
  silent = refl;
}

pub perform_all-Keeps : (os : List Operation) (l : EventLoop) → Keeps l (perform_all os l)
unfolding perform_all
perform_all-Keeps [] l = same_Keeps l
perform_all-Keeps (o ∷ os) l =
    then_Keeps l (perform o l) _ (perform-Keeps o l) (perform_all-Keeps os (perform o l))

take_off-Keeps : (fd seq : ℕ) (l : EventLoop) → Keeps l (take_off fd seq l)
unfolding take_off
take_off-Keeps fd seq l = elim (Option-cases (entry_of fd l.io_handlers)) [
  | inl no_one ↦ rw (no_one, take_off) (same_Keeps l)
  | inr (e, there) ↦ elim (Bool-cases (e.seq == seq)) [
    | inl same ↦ rw (there, same, take_off) (remove_io-Keeps fd l)
    | inr other ↦ rw (there, other, take_off) (same_Keeps l)
  ]
]

-- The entry of a handler that threw is marked, and its socket watched for the end of input.
marks-Keeps :
    (fd : ℕ) (e : IoEntry) (deed : Deed) (l : EventLoop)
    → entry_of fd l.io_handlers ≡ some e
    → Keeps l
        (modify_io deed.modified fd
          (end_of_input e.events)
          (put fd (record e { faulted = true }) l)).0
marks-Keeps fd e deed l there =
    let marked = put fd (record e { faulted = true }) l in
    then_Keeps l marked _ (put-Keeps fd e (record e { faulted = true }) l there refl)
      (modify_io-Keeps deed.modified fd (end_of_input e.events) marked)

io_handler_threw-Keeps :
    (fd seq : ℕ) (deed : Deed) (l : EventLoop) → Keeps l (io_handler_threw fd seq deed l)
unfolding io_handler_threw
io_handler_threw-Keeps fd seq deed l = elim (Option-cases (entry_of fd l.io_handlers)) [
  | inl no_one ↦ rw (no_one, io_handler_threw) (same_Keeps l)
  | inr (e, there) ↦
      let marked = put fd (record e { faulted = true }) l in
      let armed = modify_io deed.modified fd (end_of_input e.events) marked in
      elim (Bool-cases (e.seq == seq)) [
        | inr other ↦ rw (there, other, io_handler_threw) (same_Keeps l)
        | inl same ↦ elim (Bool-cases e.faulted) [
          | inl again ↦ rw (there, same, again, io_handler_threw) (remove_io-Keeps fd l)
          | inr first ↦ elim (Bool-cases deed.shut) [
            | inr open_still ↦
                rw (there, same, first, open_still, io_handler_threw) (remove_io-Keeps fd l)
            | inl shut ↦ elim (Bool-cases armed.1) [
              | inl ok ↦
                  rw (there, same, first, shut, ok, io_handler_threw)
                    (marks-Keeps fd e deed l there)
              | inr not_ok ↦
                  rw (there, same, first, shut, not_ok, io_handler_threw)
                    (then_Keeps l armed.0 _ (marks-Keeps fd e deed l there)
                      (remove_io-Keeps fd armed.0))
            ]
          ]
        ]
      ]
]

pub dispatch_io-Keeps :
    (fd events : ℕ) (e : IoEntry) (deed : Deed) (l : EventLoop)
    → Keeps (called fd events e l) (dispatch_io fd events e deed l)
unfolding dispatch_io
dispatch_io-Keeps fd events e deed l =
    let begun = called fd events e l in
    let after = perform_all deed.operations begun in
    let works = perform_all-Keeps deed.operations begun in
    elim (Bool-cases deed.threw) [
      | inl threw ↦
          simp threw (then_Keeps begun after _ works (io_handler_threw-Keeps fd e.seq deed after))
      | inr ends ↦ elim (Bool-cases e.faulted) [
        | inl faulted ↦
            simp (ends, faulted) (then_Keeps begun after _ works (take_off-Keeps fd e.seq after))
        | inr sound ↦ simp (ends, sound) works
      ]
    ]
