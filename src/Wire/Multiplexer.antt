-- ===== src/Wire/Multiplexer.antt =====
-- python/vedadb/wire/vbp/multiplexer.py: many requests over one connection, told apart by a
-- sequence byte. Each method is a function on `Mux`; a step of another thread is one of the other
-- functions, applied where the lock is not held.
pub mod Alloc
pub mod Dispatch
pub mod Call
pub mod Free
pub mod Many
mod Examples
use vedadb_driver.Base.{
  ℕ, zero, suc, ◌+◌, ◌%◌, Bool, true, false, ◌||◌, Option, none, some, List, [], ◌∷◌, ◌++◌, map,
  ltb, ◌==◌, if◌then◌else◌, length, Result, ok, err,
}
use vedadb_driver.Base.Int.{ℤ, pos}
use vedadb_driver.Base.Dict.{Dict, get, put, remove, nat_eq}
use vedadb_driver.Wire.Opcodes.{
  op_auth_challenge, op_auth_ok, op_rows_finished, op_command_complete, op_error, op_pong, op_close,
  op_stream_end,
}
use vedadb_driver.Wire.Frame.{Frame, FrameError, out_of_range, write_frame}

-- `protocol_error` is VBPProtocolError, and `vbp_error` carries the ERROR frame that the source
-- parses into the fields of VBPError.
pub data MuxError : Type 0 where
  protocol_error value_error timed_out key_error : MuxError
  vbp_error : Frame → MuxError

-- What a stream callback puts into its queue.
pub data Item : Type 0 where
  chunk failed : Frame → Item

-- `events` says of each waiter's event whether it is set; `streams` holds the queue of each
-- stream callback.
pub record Mux : Type 0 where
  pub inflight : Dict ℕ (List Frame)
  pub events : Dict ℕ Bool
  pub errors : Dict ℕ (Option Frame)
  pub streams : Dict ℕ (List Item)
  pub next_seq : ℕ
  pub closing : Bool

abbrev pub new : Mux
new = record {
  inflight = [];
  events = [];
  errors = [];
  streams = [];
  next_seq = 0;
  closing = false;
}

-- `_TERMINAL_OPCODES`
unfoldable pub is_terminal : ℕ → Bool
is_terminal op =
    op == op_rows_finished
    || (op == op_command_complete
        || (op == op_error
            || (op == op_auth_ok
                || (op == op_auth_challenge
                    || (op == op_pong || (op == op_stream_end || op == op_close))))))

abbrev is_some {ℓ} : {A : Type ℓ} → Option A → Bool
is_some none = false
is_some (some a) = true

-- The loop of `_alloc_seq`, `k` rounds left. Where the scan comes back to its start the lock is
-- released for a moment: `others` is what the other threads do in it.
alloc_loop : (Mux → Mux) → ℕ → ℕ → Mux → Result MuxError ℕ × Mux
alloc_loop others zero start m = (err protocol_error, m)
alloc_loop others (suc k) start m =
    let m' : Mux = record m { next_seq = (m.next_seq + 1) % 256 } in
    let again = alloc_loop others k start (if m'.next_seq == start then others m' else m') in
    if is_some (get m.next_seq m.inflight) then again else (ok m.next_seq, m')

unfoldable pub alloc_seq : (Mux → Mux) → Mux → Result MuxError ℕ × Mux
unfolding alloc_loop
alloc_seq others m = alloc_loop others 256 m.next_seq m

-- The three assignments that follow each `_alloc_seq`.
unfoldable pub register : ℕ → Mux → Mux
register seq m = record m {
  inflight = put seq [] m.inflight;
  events = put seq false m.events;
  errors = put seq none m.errors;
}

abbrev pub set_all : Dict ℕ Bool → Dict ℕ Bool
set_all = map (λ e. (e.0, true))

-- `close`: the reader's thread and the socket are not part of the state.
unfoldable pub close : Mux → Mux
close m = if m.closing then m else record m { closing = true; events = set_all m.events }

written : Bool → Result FrameError (List ℕ) → ℕ → Mux → Result MuxError (Unit {0}) × Mux
unfolding close
written sent (err out_of_range) seq m = (err value_error, m)
written sent (err _) seq m = (err protocol_error, close (record m { events = remove seq m.events }))
written sent (ok bytes) seq m =
    if sent
    then (ok tt, m)
    else (err protocol_error, close (record m { events = remove seq m.events }))

-- `_send_frame`, with `sent` false where the socket fails. A ValueError passes through.
unfoldable pub send_frame : Bool → ℕ → ℤ → ℤ → List ℕ → Mux → Result MuxError (Unit {0}) × Mux
unfolding written write_frame
send_frame sent seq op flags body m = written sent (write_frame [] (pos seq) op flags body) seq m

-- The `except` and `finally` blocks that forget a request.
unfoldable pub unregister : ℕ → Mux → Mux
unregister seq m = record m {
  inflight = remove seq m.inflight;
  events = remove seq m.events;
  errors = remove seq m.errors;
}

start_sent : ℕ → Result MuxError (Unit {0}) × Mux → Result MuxError ℕ × Mux
unfolding unregister
start_sent seq (ok _, m) = (ok seq, m)
start_sent seq (err e, m) = (err e, unregister seq m)

start_alloc : Bool → ℤ → ℤ → List ℕ → Result MuxError ℕ × Mux → Result MuxError ℕ × Mux
unfolding start_sent register send_frame
start_alloc sent op flags body (err e, m) = (err e, m)
start_alloc sent op flags body (ok seq, m) =
    start_sent seq (send_frame sent seq op flags body (register seq m))

-- `call` up to its wait; with `flags` 0 also `_send_with_alloc`.
unfoldable pub start : (Mux → Mux) → Bool → ℤ → ℤ → List ℕ → Mux → Result MuxError ℕ × Mux
unfolding start_alloc alloc_seq
start others sent op flags body m = start_alloc sent op flags body (alloc_seq others m)

-- `self._inflight.pop(seq, [])`
abbrev or_empty : Option (List Frame) → List Frame
or_empty none = []
or_empty (some frames) = frames

outcome : Option (Option Frame) → List Frame → Result MuxError (List Frame)
outcome (some (some f)) frames = err (vbp_error f)
outcome _ frames = ok frames

-- The end of `call`, by whether the event is there and is set when the wait is over.
finish_event : Option Bool → ℕ → Mux → Result MuxError (List Frame) × Mux
unfolding outcome unregister
finish_event none seq m = (err key_error, m)
finish_event (some false) seq m = (err timed_out, m)
finish_event (some true) seq m =
    (outcome (get seq m.errors) (or_empty (get seq m.inflight)), unregister seq m)

unfoldable pub finish : ℕ → Mux → Result MuxError (List Frame) × Mux
unfolding finish_event
finish seq m = finish_event (get seq m.events) seq m

call_started : (Mux → Mux) → Result MuxError ℕ × Mux → Result MuxError (List Frame) × Mux
call_started env (err e, m) = (err e, m)
call_started env (ok seq, m) = finish seq (env m)

-- `call`, with `env` what the other threads do until the event is set or the timeout is over.
unfoldable pub call :
    (Mux → Mux) → (Mux → Mux) → Bool → ℤ → ℤ → List ℕ → Mux → Result MuxError (List Frame) × Mux
unfolding call_started
call others env sent op flags body m = call_started env (start others sent op flags body m)

set_event : ℕ → Mux → Mux
set_event seq m =
    if is_some (get seq m.events) then record m { events = put seq true m.events } else m

-- What the callback of `stream` puts into its queue.
abbrev item_of : Frame → Item
item_of f = if f.op == op_error then failed f else chunk f

dispatch_stream : Option (List Item) → Option (List Frame) → Frame → Mux → Mux
unfolding set_event
dispatch_stream (some queue) bucket f m =
    let m' : Mux = record m { streams = put f.seq (queue ++ item_of f ∷ []) m.streams } in
    if is_terminal f.op then set_event f.seq m' else m'
dispatch_stream none none f m = m
dispatch_stream none (some bucket) f m =
    let m' : Mux = record m { inflight = put f.seq (bucket ++ f ∷ []) m.inflight } in
    if is_terminal f.op
    then set_event f.seq
        (if f.op == op_error then record m' { errors = put f.seq (some f) m'.errors } else m')
    else m'

unfoldable pub dispatch_frame : Frame → Mux → Mux
unfolding dispatch_stream
dispatch_frame f m = dispatch_stream (get f.seq m.streams) (get f.seq m.inflight) f m

-- The frames that the reader dispatches one after another.
unfoldable pub dispatch_all : List Frame → Mux → Mux
unfolding dispatch_frame
dispatch_all [] m = m
dispatch_all (f ∷ fs) m = dispatch_all fs (dispatch_frame f m)

-- The `finally` block of `_read_loop`.
unfoldable pub wake_all : Mux → Mux
wake_all m = record m { events = set_all m.events }
