-- ===== src/EventLoop/Marks.antt =====
-- A registration that is marked as thrown stays marked.
use libapostol.Prelude.{
  ℕ, suc, ◌≤◌, ◌≡◌, refl, ap, sym, ◌∙◌, Bool, true, false, some, List, [], ◌∷◌, arith, inl, inr,
  Option-cases,
}
use libapostol.EventLoop.{
  IoEntry, EventLoop, entry_of, put, remove_io, Modified, done, lost, refused, add_io, modify_io,
  Operation, adds, modifies, removes, adds_timer, stops, perform, perform_all,
}
use libapostol.EventLoop.Registrations.{entry_of-erase, entry_of-put}

-- The registration of a descriptor under a number, if it is there, has thrown; and later registrations
-- have greater numbers.
pub record Marked (fd seq : ℕ) (l : EventLoop) : Type 0 where
  pub marked : (x : IoEntry) → entry_of fd l.io_handlers ≡ some x → x.seq ≡ seq → x.faulted ≡ true
  pub below : seq ≤ l.registration_seq

remove_io-Marked : (fd seq y : ℕ) (l : EventLoop) → Marked fd seq l → Marked fd seq (remove_io y l)
remove_io-Marked fd seq y l h = record {
  marked = λ x there same. h.marked x (entry_of-erase fd y l.io_handlers x there) same;
  below = h.below;
}

-- The entry that is put keeps its number and its mark.
put-Marked :
    (fd seq y : ℕ) (f g : IoEntry) (l : EventLoop)
    → entry_of y l.io_handlers ≡ some f
    → g.seq ≡ f.seq
    → g.faulted ≡ f.faulted
    → Marked fd seq l
    → Marked fd seq (put y g l)
put-Marked fd seq y f g l found numbers marks h = record {
  marked = λ x there same. elim (entry_of-put fd y g x l there) [
    | inl (is_g, is_fd) ↦
        sym (ap (λ (z : IoEntry). z.faulted) is_g)
        ∙ marks
        ∙ h.marked f (ap (λ (z : ℕ). entry_of z l.io_handlers) (sym is_fd) ∙ found)
            (sym numbers ∙ ap (λ (z : IoEntry). z.seq) is_g ∙ same)
    | inr was ↦ h.marked x was same
  ];
  below = h.below;
}

add_io-Marked :
    (fd seq : ℕ) (ok : Bool) (y events callback : ℕ) (l : EventLoop)
    → Marked fd seq l
    → Marked fd seq (add_io ok y events callback l)
unfolding add_io
add_io-Marked fd seq false y events callback l h = h
add_io-Marked fd seq true y events callback l h = record {
  marked = λ x there same.
      elim (entry_of-put fd y _ x (record l { registration_seq = suc l.registration_seq }) there) [
        | inl (is_new, is_fd) ↦
            absurd (ground (arith, h.below, ap (λ (z : IoEntry). z.seq) is_new ∙ same))
        | inr was ↦ h.marked x was same
      ];
  below = ground (arith, h.below);
}

modify_io-Marked :
    (fd seq : ℕ) (answer : Modified) (y events : ℕ) (l : EventLoop)
    → Marked fd seq l
    → Marked fd seq (modify_io answer y events l).0
unfolding modify_io
modify_io-Marked fd seq done y events l h = elim (Option-cases (entry_of y l.io_handlers)) [
  | inl no_one ↦ rw (no_one, modify_io) h
  | inr (f, there) ↦
      rw (there, modify_io)
        (put-Marked fd seq y f (record f { events = events }) l there refl refl h)
]
modify_io-Marked fd seq lost y events l h = remove_io-Marked fd seq y l h
modify_io-Marked fd seq refused y events l h = h

perform-Marked :
    (fd seq : ℕ) (o : Operation) (l : EventLoop) → Marked fd seq l → Marked fd seq (perform o l)
perform-Marked fd seq (adds ok y events callback) l h =
    add_io-Marked fd seq ok y events callback l h
perform-Marked fd seq (modifies answer y events) l h = modify_io-Marked fd seq answer y events l h
perform-Marked fd seq (removes y) l h = remove_io-Marked fd seq y l h
perform-Marked fd seq adds_timer l h = record { marked = h.marked; below = ground (arith, h.below) }
perform-Marked fd seq stops l h = record { marked = h.marked; below = h.below }

pub perform_all-Marked :
    (fd seq : ℕ) (os : List Operation) (l : EventLoop)
    → Marked fd seq l
    → Marked fd seq (perform_all os l)
unfolding perform_all
perform_all-Marked fd seq [] l h = h
perform_all-Marked fd seq (o ∷ os) l h =
    perform_all-Marked fd seq os (perform o l) (perform-Marked fd seq o l h)
