-- ===== src/Wire/Multiplexer/Call.antt =====
-- `call` of python/vedadb/wire/vbp/multiplexer.py, from the request to what it returns.
use vedadb_driver.Base.{
  ℕ, ◌+◌, ◌%◌, ◌≤◌, ◌<◌, ◌≡◌, refl, Bool, true, false, Option, none, some, List, [], ◌∷◌, arith,
  ◌||◌, if◌then◌else◌, length, Result, ok, err,
}
use vedadb_driver.Base.Int.{ℤ, within}
use vedadb_driver.Base.Dict.{Dict, get, get-put, get-remove, nat_eq}
use vedadb_driver.Wire.Frame.{Frame, max_frame_len}
use vedadb_driver.Wire.Multiplexer.{
  Mux, MuxError, timed_out, vbp_error, register, send_frame, start, call, call_started, finish,
  dispatch_all, wake_all, set_all,
}
use vedadb_driver.Wire.Multiplexer.Alloc.{alloc_seq-Allocates}
use vedadb_driver.Wire.Multiplexer.Dispatch.{for_seq, ended, last_error, Waits, dispatch_all-Waits}

-- No stream callback is registered under a free sequence number.
abbrev pub StreamsInFlight : Mux → Type 0
StreamsInFlight m = (s : ℕ) → get s m.inflight ≡ none → get s m.streams ≡ none

-- A request that `write_frame` accepts.
abbrev pub CanSend : ℤ → ℤ → List ℕ → Type 0
CanSend op flags body =
    (within 0 0xff op ≡ true) × (within 0 0xff flags ≡ true) × (2 + length body ≤ max_frame_len)

send_frame_ok :
    (seq : ℕ) (op flags : ℤ) (body : List ℕ) (m : Mux)
    → seq < 256
    → CanSend op flags body
    → send_frame true seq op flags body m ≡ (ok tt, m)
unfolding send_frame
send_frame_ok seq op flags body m hs h = ground arith

register-Waits :
    (seq : ℕ) (m : Mux) → get seq m.streams ≡ none → Waits (register seq m) seq [] false none
unfolding register
register-Waits seq m h = grind (arith, get-put)

-- A request that was sent waits with no frames, under a number that was free.
record Started (m : Mux) (r : Result MuxError ℕ × Mux) (seq : ℕ) : Type 0 where
  is_ok : r.0 ≡ ok seq
  was_free : get seq m.inflight ≡ none
  waits : Waits r.1 seq [] false none

start-Started :
    (others : Mux → Mux) (op flags : ℤ) (body : List ℕ) (m : Mux) (s : ℕ)
    → m.next_seq < 256
    → StreamsInFlight m
    → s < 256
    → get s m.inflight ≡ none
    → CanSend op flags body
    → (seq : ℕ) × Started m (start others true op flags body m) seq
unfolding start
start-Started others op flags body m s hn hw hs free h =
    let (seq, a) = alloc_seq-Allocates others m s hn hs free in
    let m' : Mux = record m { next_seq = (seq + 1) % 256 } in
    (
      seq,
      rw (a.result, send_frame_ok seq op flags body (register seq m') a.is_byte h)
          (record {
            is_ok = refl;
            was_free = a.is_free;
            waits = register-Waits seq m' (hw seq a.is_free);
          }),
    )

get-set_all :
    (s : ℕ) (d : Dict ℕ Bool) {done : Bool} → get s d ≡ some done → get s (set_all d) ≡ some true
unfolding get
get-set_all s [] h = cc
get-set_all s ((j, v) ∷ d) {done} h = ground (arith, get-set_all s d {done = done})

wake_all-Waits :
    (m : Mux) (s : ℕ) {b : List Frame} {done : Bool} {error : Option Frame}
    → Waits m s b done error
    → Waits (wake_all m) s b true error
unfolding wake_all
wake_all-Waits m s w = record {
  no_stream = w.no_stream;
  bucket = w.bucket;
  event = get-set_all s m.events w.event;
  recorded = w.recorded;
}

-- What the response of a request says.
abbrev pub reply : List Frame → Result MuxError (List Frame)
reply own = elim (last_error none own) [ none ↦ ok own | some f ↦ err (vbp_error f) ]

-- The other threads while a request waits: the reader dispatches frames, and may end.
abbrev pub reader : List Frame → Bool → Mux → Mux
reader fs eof m = if eof then wake_all (dispatch_all fs m) else dispatch_all fs m

reader-Waits :
    (fs : List Frame) (eof : Bool) (m : Mux) (s : ℕ)
    → Waits m s [] false none
    → let own = for_seq s fs in
      Waits (reader fs eof m) s own (eof || ended own) (last_error none own)
reader-Waits fs true m s w = wake_all-Waits _ s (dispatch_all-Waits fs m s w)
reader-Waits fs false m s w = dispatch_all-Waits fs m s w

finish_done :
    (m : Mux) (s : ℕ) (own : List Frame) (done : Bool)
    → Waits m s own done (last_error none own)
    → ((finish s m).0 ≡ (if done then reply own else err timed_out))
      × (get s (finish s m).1.inflight ≡ (if done then none else some own))
unfolding finish
finish_done m s own done w = grind (arith, get-remove)

call_started_ok :
    (env : Mux → Mux) (seq : ℕ) (r : Result MuxError ℕ × Mux)
    → r.0 ≡ ok seq
    → call_started env r ≡ finish seq (env r.1)
unfolding call_started
call_started_ok env seq (ok n, m) h = cc
call_started_ok env seq (err e, m) h = cc

-- A request that can be sent, while some sequence number is free, gets such a number. If the reader
-- then dispatches any frames `fs`, for this and for other requests, the call returns exactly its
-- own frames in order, or raises VBPError with the last ERROR among them, as soon as one of them
-- ends the response or the reader ends; and it gives the number back. Otherwise it raises
-- TimeoutError, and the number stays taken.
pub call_response :
    (others : Mux → Mux) (fs : List Frame) (eof : Bool) (op flags : ℤ) (body : List ℕ) (m : Mux)
    (s : ℕ)
    → m.next_seq < 256
    → StreamsInFlight m
    → s < 256
    → get s m.inflight ≡ none
    → CanSend op flags body
    → (seq : ℕ) × (get seq m.inflight ≡ none)
      × (let own = for_seq seq fs in
          let r = call others (reader fs eof) true op flags body m in
          (r.0 ≡ (if eof || ended own then reply own else err timed_out))
          × (get seq r.1.inflight ≡ (if eof || ended own then none else some own)))
unfolding call
call_response others fs eof op flags body m s hn hw hs free h =
    let (seq, st) = start-Started others op flags body m s hn hw hs free h in
    let started = start others true op flags body m in
    (
      seq,
      st.was_free,
      rw (call_started_ok (reader fs eof) seq started st.is_ok) (
          finish_done (reader fs eof started.1) seq (for_seq seq fs) (eof || ended (for_seq seq fs))
            (reader-Waits fs eof started.1 seq st.waits)),
    )
