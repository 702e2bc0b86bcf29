-- ===== src/EventLoop/Tests.antt =====
-- A batch in which one handler gives the descriptor of the next event to another holder.
use libapostol.Prelude.{ℕ, ◌≡◌, refl, true, false, arith, List, [], ◌∷◌, ◌++◌}
use libapostol.EventLoop.{
  IoEntry, Call, EventLoop, entry_of, erase, done, add_io, modify_io, io_handler_threw, adds,
  removes, perform_all, Deed, dispatch_io, take_off, Event, on_socket, one_event, batch_from,
  poll_once,
}
use libapostol.EventLoop.Faults.{Settled, dispatch_io-Settled}
use libapostol.EventLoop.Batches.{AllRegistered, poll_once-AllRegistered}

abbrev entry : ℕ → IoEntry
entry seq = record { events = 1; callback = 10; seq = seq; faulted = false }

-- Descriptors 5 and 6 are registered.
abbrev watching : EventLoop
watching = record {
  io_handlers = (5, entry 1) ∷ (6, entry 2) ∷ [];
  registration_seq = 2;
  running = true;
  calls = [];
}

-- The handler of 5 closes 6, which is opened and registered again.
abbrev reopens : Deed
reopens = record {
  operations = removes 6 ∷ adds true 6 1 20 ∷ [];
  threw = false;
  shut = true;
  modified = done;
}

abbrev idle : Deed
idle = record { operations = []; threw = false; shut = true; modified = done }

abbrev batch : List Event
batch = on_socket 5 1 reopens ∷ on_socket 6 1 idle ∷ []

batch-calls : (poll_once batch watching).calls ≡ record { fd = 5; seq = 1; events = 1 } ∷ []
unfolding entry_of erase add_io perform_all dispatch_io take_off one_event batch_from
batch-calls = refl

poll_once-AllRegistered_example :
    (new : List Call) × ((poll_once batch watching).calls ≡ [] ++ new)
    × AllRegistered new watching.io_handlers
poll_once-AllRegistered_example = poll_once-AllRegistered batch watching

-- The handler throws, and its socket is shut.
abbrev throws : Deed
throws = record idle { threw = true }

throws-marked :
    (poll_once (on_socket 5 1 throws ∷ []) watching).io_handlers
    ≡ (5, record { events = 0x2001; callback = 10; seq = 1; faulted = true }) ∷ (6, entry 2) ∷ []
unfolding entry_of erase modify_io perform_all io_handler_threw dispatch_io one_event batch_from
throws-marked = refl

-- The entry of 5, which has thrown before.
abbrev thrown : IoEntry
thrown = record (entry 1) { faulted = true }

abbrev once_thrown : EventLoop
once_thrown = record watching { io_handlers = (5, thrown) ∷ (6, entry 2) ∷ [] }

dispatch_io-Settled_example : Settled 5 thrown throws (dispatch_io 5 1 thrown throws once_thrown)
unfolding entry_of
dispatch_io-Settled_example = dispatch_io-Settled 5 1 thrown throws once_thrown refl (omega arith)
