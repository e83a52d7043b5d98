-- ===== src/Wire/Multiplexer/Free.antt =====
-- Sequence numbers that no request has, while the multiplexer of python/vedadb/wire/vbp/multiplexer.py
-- gives out another and sends a request.
use vedadb_driver.Base.{
  ℕ, zero, suc, ◌+◌, ◌%◌, ◌≡◌, refl, ap, ◌∙◌, Bool, false, inl, inr, Bool-cases, none, List, [],
  arith, if◌then◌else◌, if_cases, Result, ok, err, ◌==◌,
}
use vedadb_driver.Base.Int.{ℤ}
use vedadb_driver.Base.Dict.{get, get-put, get-remove, nat_eq}
use vedadb_driver.Wire.Frame.{
  FrameError, out_of_range, bad_magic, frame_too_short, frame_too_large, connection_closed,
  incomplete,
}
use vedadb_driver.Wire.Multiplexer.{
  Mux, MuxError, is_some, alloc_loop, alloc_seq, register, close, written, send_frame, unregister,
  start_sent, start_alloc, start,
}

pub get-unregister :
    (s t : ℕ) (m : Mux)
    → get t (unregister s m).inflight ≡ (if s == t then none else get t m.inflight)
unfolding unregister
get-unregister s t m = get-remove s t m.inflight

abbrev pub Free : ℕ → Mux → Type 0
Free s m = get s m.inflight ≡ none

-- What other threads do puts no request in flight under the number.
abbrev pub KeepsFree : ℕ → (Mux → Mux) → Type 0
KeepsFree s f = (m : Mux) → Free s m → Free s (f m)

alloc_loop-Free :
    (s : ℕ) (others : Mux → Mux) (k start : ℕ) (m : Mux)
    → KeepsFree s others
    → Free s m
    → Free s (alloc_loop others k start m).1
unfolding alloc_loop
alloc_loop-Free s others zero start m keeps h = h
alloc_loop-Free s others (suc k) start m keeps h =
    let m' : Mux = record m { next_seq = (m.next_seq + 1) % 256 } in
    let again = if m'.next_seq == start then others m' else m' in
    let h' : Free s again = if_cases (Free s) (m'.next_seq == start) (λ _. keeps m' h) (λ _. h) in
    if_cases (λ (r : Result MuxError ℕ × Mux). Free s r.1) (is_some (get m.next_seq m.inflight))
      (λ _. alloc_loop-Free s others k start again keeps h') (λ _. h)

close-inflight : (m : Mux) → (close m).inflight ≡ m.inflight
unfolding close
close-inflight m = ground arith

written-inflight :
    (sent : Bool) (r : Result FrameError (List ℕ)) (seq : ℕ) (m : Mux)
    → (written sent r seq m).1.inflight ≡ m.inflight
unfolding written
written-inflight sent (ok bytes) seq m =
    if_cases (λ (r : Result MuxError (Unit {0}) × Mux). r.1.inflight ≡ m.inflight) sent (λ _. refl)
      (λ _. close-inflight _)
written-inflight sent (err out_of_range) seq m = refl
written-inflight sent (err bad_magic) seq m = close-inflight _
written-inflight sent (err frame_too_short) seq m = close-inflight _
written-inflight sent (err frame_too_large) seq m = close-inflight _
written-inflight sent (err connection_closed) seq m = close-inflight _
written-inflight sent (err incomplete) seq m = close-inflight _

send_frame-inflight :
    (sent : Bool) (seq : ℕ) (op flags : ℤ) (body : List ℕ) (m : Mux)
    → (send_frame sent seq op flags body m).1.inflight ≡ m.inflight
unfolding send_frame
send_frame-inflight sent seq op flags body m = written-inflight sent _ seq m

-- The number is free, unless it is the one given out.
abbrev pub Sent : ℕ → Result MuxError ℕ × Mux → Type 0
Sent s (ok seq, m) = (seq == s) ≡ false → Free s m
Sent s (err e, m) = Free s m

start_sent-Sent :
    (s seq : ℕ) (r : Result MuxError (Unit {0}) × Mux)
    → ((seq == s) ≡ false → Free s r.1)
    → Sent s (start_sent seq r)
unfolding start_sent
start_sent-Sent s seq (ok _, m) h = h
start_sent-Sent s seq (err e, m) h = elim (Bool-cases (seq == s)) [
  | inl p ↦ get-unregister seq s m ∙ rw p refl
  | inr p ↦ get-unregister seq s m ∙ rw p (h p)
]

start_alloc-Sent :
    (s : ℕ) (sent : Bool) (op flags : ℤ) (body : List ℕ) (r : Result MuxError ℕ × Mux)
    → Free s r.1
    → Sent s (start_alloc sent op flags body r)
unfolding start_alloc
start_alloc-Sent s sent op flags body (err e, m) h = h
start_alloc-Sent s sent op flags body (ok seq, m) h =
    start_sent-Sent s seq (send_frame sent seq op flags body (register seq m)) (λ p.
      ap (get s) (send_frame-inflight sent seq op flags body (register seq m))
      ∙ (unfold register in get-put seq s [] m.inflight ∙ rw p h))

pub start-Sent :
    (s : ℕ) (others : Mux → Mux) (sent : Bool) (op flags : ℤ) (body : List ℕ) (m : Mux)
    → KeepsFree s others
    → Free s m
    → Sent s (start others sent op flags body m)
unfolding start alloc_seq
start-Sent s others sent op flags body m keeps h =
    start_alloc-Sent s sent op flags body (alloc_seq others m)
      (alloc_loop-Free s others 256 m.next_seq m keeps h)
