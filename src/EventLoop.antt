-- ===== src/EventLoop.antt =====
-- src/core/event_loop.cpp, include/apostol/event_loop.hpp: the I/O side of the class EventLoop, as it
-- is built without APOSTOL_EPOLL_ET. What a handler does during an event comes with the event, and what
-- the kernel answers comes with the operation. The numbers of
-- registrations, 64 bits wide, are taken not to wrap. The log is left out.
pub mod Registrations
pub mod Batches
pub mod Marks
pub mod Faults
mod Tests
use libapostol.Prelude.{
  ℕ, suc, ltb, ◌==◌, bit_or, Bool, true, false, not, Option, none, some, List, [], ◌∷◌, ◌++◌,
  if◌then◌else◌,
}

-- `callback` tells the handlers apart.
pub record IoEntry : Type 0 where
  pub events : ℕ
  pub callback : ℕ
  pub seq : ℕ
  pub faulted : Bool

-- A call of a handler: the descriptor, the number of its registration, and the events.
pub record Call : Type 0 where
  pub fd : ℕ
  pub seq : ℕ
  pub events : ℕ

pub record EventLoop : Type 0 where
  pub io_handlers : List (ℕ × IoEntry)
  pub registration_seq : ℕ
  pub running : Bool
  pub calls : List Call

unfoldable pub entry_of : ℕ → List (ℕ × IoEntry) → Option IoEntry
entry_of fd [] = none
entry_of fd ((x, e) ∷ es) = let rest = entry_of fd es in if x == fd then some e else rest

unfoldable pub erase : ℕ → List (ℕ × IoEntry) → List (ℕ × IoEntry)
erase fd [] = []
erase fd ((x, e) ∷ es) = let rest = erase fd es in if x == fd then rest else (x, e) ∷ rest

abbrev pub put : ℕ → IoEntry → EventLoop → EventLoop
put fd e l = record l { io_handlers = (fd, e) ∷ erase fd l.io_handlers }

abbrev pub remove_io : ℕ → EventLoop → EventLoop
remove_io fd l = record l { io_handlers = erase fd l.io_handlers }

-- EPOLL_CTL_MOD: it is done, the socket is gone (EBADF, ENOENT, EPERM), or another error, which throws.
pub data Modified : Type 0 where
  done lost refused : Modified

-- EPOLL_CTL_ADD fails when `ok` is false, which throws.
unfoldable pub add_io : Bool → ℕ → ℕ → ℕ → EventLoop → EventLoop
add_io ok fd events callback l =
    let seq = suc l.registration_seq in
    if not ok
    then l
    else put fd (record { events = events; callback = callback; seq = seq; faulted = false })
        (record l { registration_seq = seq })

unfoldable pub modify_io : Modified → ℕ → ℕ → EventLoop → EventLoop × Bool
modify_io done fd events l = elim (entry_of fd l.io_handlers) [
  | none ↦ (l, true)
  | some e ↦ (put fd (record e { events = events }) l, true)
]
modify_io lost fd events l = (remove_io fd l, false)
modify_io refused fd events l = (l, false)

-- What a handler may do to the loop; of add_timer, the number that it takes.
pub data Operation : Type 0 where
  adds : Bool → ℕ → ℕ → ℕ → Operation
  modifies : Modified → ℕ → ℕ → Operation
  removes : ℕ → Operation
  adds_timer stops : Operation

abbrev pub perform : Operation → EventLoop → EventLoop
perform (adds ok fd events callback) l = add_io ok fd events callback l
perform (modifies answer fd events) l = (modify_io answer fd events l).0
perform (removes fd) l = remove_io fd l
perform adds_timer l = record l { registration_seq = suc l.registration_seq }
perform stops l = record l { running = false }

unfoldable pub perform_all : List Operation → EventLoop → EventLoop
perform_all [] l = l
perform_all (o ∷ os) l = perform_all os (perform o l)

-- What a handler does, whether it throws then, and what the kernel answers to the shutdown of its
-- socket and to the change of its events after that.
pub record Deed : Type 0 where
  pub operations : List Operation
  pub threw : Bool
  pub shut : Bool
  pub modified : Modified

-- EPOLLIN and EPOLLRDHUP
abbrev pub end_of_input : ℕ → ℕ
end_of_input events = bit_or (bit_or events 1) 0x2000

unfoldable pub io_handler_threw : ℕ → ℕ → Deed → EventLoop → EventLoop
io_handler_threw fd seq deed l = elim (entry_of fd l.io_handlers) [
  | none ↦ l
  | some e ↦
      let marked = put fd (record e { faulted = true }) l in
      let armed = modify_io deed.modified fd (end_of_input e.events) marked in
      if not (e.seq == seq)
      then l
      else if e.faulted
      then remove_io fd l
      else if not deed.shut
      then remove_io fd l
      else if armed.1
      then armed.0
      else remove_io fd armed.0
]

-- A holder that was told of the end of input and kept its descriptor is taken off.
unfoldable pub take_off : ℕ → ℕ → EventLoop → EventLoop
take_off fd seq l = elim (entry_of fd l.io_handlers) [
  | none ↦ l
  | some e ↦ if not (e.seq == seq) then l else remove_io fd l
]

abbrev pub called : ℕ → ℕ → IoEntry → EventLoop → EventLoop
called fd events e l = record l {
  calls = l.calls ++ (record { fd = fd; seq = e.seq; events = events } ∷ []);
}

unfoldable pub dispatch_io : ℕ → ℕ → IoEntry → Deed → EventLoop → EventLoop
dispatch_io fd events e deed l =
    let after = perform_all deed.operations (called fd events e l) in
    if deed.threw
    then io_handler_threw fd e.seq deed after
    else if not e.faulted
    then after
    else take_off fd e.seq after

-- An event that epoll_wait reports: of a socket, or of a timer or a signal, whose callback may use the
-- loop too.
pub data Event : Type 0 where
  on_socket : ℕ → ℕ → Deed → Event
  elsewhere : List Operation → Event

unfoldable pub one_event : ℕ → Event → EventLoop → EventLoop
one_event collected_at (elsewhere operations) l = perform_all operations l
one_event collected_at (on_socket fd events deed) l = elim (entry_of fd l.io_handlers) [
  | none ↦ l
  | some e ↦ if ltb collected_at e.seq then l else dispatch_io fd events e deed l
]

unfoldable pub batch_from : ℕ → List Event → EventLoop → EventLoop
batch_from collected_at [] l = l
batch_from collected_at (e ∷ es) l =
    let rest = batch_from collected_at es (one_event collected_at e l) in
    if not l.running then l else rest

-- The events that epoll_wait has collected.
abbrev pub poll_once : List Event → EventLoop → EventLoop
poll_once events l = batch_from l.registration_seq events l
