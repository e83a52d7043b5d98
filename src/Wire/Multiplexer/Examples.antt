-- ===== src/Wire/Multiplexer/Examples.antt =====
-- Requests of python/vedadb/wire/vbp/multiplexer.py at concrete values.
use vedadb_driver.Base.{
  ℕ, ◌<◌, ◌≡◌, refl, true, false, none, some, List, [], ◌∷◌, arith, if◌then◌else◌, err,
}
use vedadb_driver.Base.Int.{pos}
use vedadb_driver.Base.Dict.{get, put, nat_eq}
use vedadb_driver.Wire.Frame.{Frame}
use vedadb_driver.Wire.Multiplexer.{Mux, timed_out, new, register, alloc_seq, dispatch_all, call}
use vedadb_driver.Wire.Multiplexer.Alloc.{Allocates, alloc_seq-Allocates}
use vedadb_driver.Wire.Multiplexer.Dispatch.{for_seq, ended, last_error, Waits, dispatch_all-Waits}
use vedadb_driver.Wire.Multiplexer.Call.{StreamsInFlight, reply, reader, call_response}
use vedadb_driver.Base.{inr}
use vedadb_driver.Wire.Multiplexer.Many.{call_many, call_many_released}
use vedadb_driver.Wire.Multiplexer.Free.{Free}

-- Request 0 waits, and the next number is 0 again.
abbrev one : Mux
one = register 0 new

-- Two frames for request 1, one of them the end, and one for request 0 between them.
abbrev replies : List Frame
replies =
    record { seq = 1; op = 0x0a; flags = 0; body = [] }
    ∷ record { seq = 0; op = 0x17; flags = 0; body = 5 ∷ [] }
    ∷ record { seq = 1; op = 0x0c; flags = 0; body = [] }
    ∷ []

one-free : get 1 one.inflight ≡ none
unfolding register get put
one-free = refl

one-Free_two : Free 2 one
unfolding register get put
one-Free_two = refl

one-Waits : Waits one 0 [] false none
unfolding register get put
one-Waits = record { no_stream = refl; bucket = refl; event = refl; recorded = refl }

one-StreamsInFlight : StreamsInFlight one
unfolding register get put
one-StreamsInFlight s h = refl

one-next : one.next_seq < 256
unfolding register
one-next = omega arith

alloc_seq-Allocates_example : (seq : ℕ) × Allocates one (alloc_seq (λ m. m) one) seq
alloc_seq-Allocates_example = alloc_seq-Allocates (λ m. m) one 1 one-next (omega arith) one-free

dispatch_all-Waits_example :
    Waits
      (dispatch_all replies one)
      0
      (for_seq 0 replies)
      (ended (for_seq 0 replies))
      (last_error none (for_seq 0 replies))
dispatch_all-Waits_example = dispatch_all-Waits replies one 0 one-Waits

call_response_example :
    (seq : ℕ) × (get seq one.inflight ≡ none)
    × (let own = for_seq seq replies in
        let r = call (λ m. m) (reader replies false) true (pos 16) (pos 0) [] one in
        (r.0 ≡ (if ended own then reply own else err timed_out))
        × (get seq r.1.inflight ≡ (if ended own then none else some own)))
call_response_example =
    call_response (λ m. m) replies false (pos 16) (pos 0) [] one 1 one-next one-StreamsInFlight
      (omega arith) one-free (refl, refl, omega arith)

-- The second of two requests has an opcode that is no byte: it had number 2.
call_many_released_example :
    Free 2 (call_many (λ m. m) (λ m. m) ((true, pos 16, []) ∷ (true, pos 300, []) ∷ []) one).1
call_many_released_example =
    call_many_released (λ m. m) (λ m. m) ((true, pos 16, []) ∷ (true, pos 300, []) ∷ []) one 2
      (inr (λ m h. h, λ m h. h, one-Free_two))
