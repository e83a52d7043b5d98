-- ===== src/Wire/Reader.antt =====
-- `_read_loop` and `_read_exact` of python/vedadb/wire/vbp/multiplexer.py: the thread that reads
-- frames from a socket with a timeout.
pub mod Frames
pub mod Timeouts
mod Examples
use vedadb_driver.Base.{
  ℕ, zero, suc, ◌+◌, ◌-◌, List, [], ◌∷◌, ◌++◌, Option, none, some, leb, ltb, ◌==◌, if◌then◌else◌,
  Bool, length, take, drop, Result, ok, err, ◌≡◌, ap,
}
use vedadb_driver.Wire.Stream.{is_empty}
use vedadb_driver.Wire.Frame.{
  Frame, FrameError, magic_len, len_len, hdr_len, opflags_len, byte_at, check_header,
}

-- What the socket hands over: bytes, or nothing within the timeout. The end of the list is the end
-- of the connection.
pub data Arrival : Type 0 where
  bytes : List ℕ → Arrival
  idle : Arrival

abbrev pub Socket : Type 0
Socket = List Arrival

-- The outcome of a read: the bytes, the end of the connection, or a timeout.
pub data Read : Type 0 where
  got : List ℕ → Read
  eof timed_out : Read

-- `recv(n)` on the bytes that are there, and the rest of the loop by what it returned.
recv_step : ℕ → List ℕ → Socket → List ℕ × Socket
recv_step n c s = if leb (length c) n then (c, s) else (take n c, bytes (drop n c) ∷ s)

-- The loop of `_read_exact`. A timeout leaves the loop, and `acc` with the bytes that have been
-- read is lost.
sock_loop : ℕ → ℕ → List ℕ → Socket → Read × Socket
unfolding recv_step is_empty
sock_loop fuel zero acc s = (got acc, s)
sock_loop zero (suc r) acc s = (eof, s)
sock_loop (suc fuel) (suc r) acc [] = (eof, [])
sock_loop (suc fuel) (suc r) acc (idle ∷ s) = (timed_out, s)
sock_loop (suc fuel) (suc r) acc (bytes c ∷ s) =
    let (chunk, s') = recv_step (suc r) c s in
    let more = sock_loop fuel (suc r - length chunk) (acc ++ chunk) s' in
    if is_empty chunk then (eof, s') else more

unfoldable pub sock_read : ℕ → Socket → Read × Socket
unfolding sock_loop
sock_read n s = sock_loop n n [] s

-- One round of the loop: a frame to dispatch, `continue` after a timeout, or `break`.
pub data Round : Type 0 where
  dispatch : Frame → Round
  continue break : Round

round_body : ℕ → List ℕ → Read × Socket → Round × Socket
unfolding byte_at
round_body seq opflags (got body, s) = (
  dispatch (record { seq = seq; op = byte_at opflags 0; flags = byte_at opflags 1; body = body }),
  s,
)
round_body seq opflags (eof, s) = (break, s)
round_body seq opflags (timed_out, s) = (continue, s)

round_opflags : ℕ → ℕ → Read × Socket → Round × Socket
unfolding round_body sock_read
round_opflags seq payload_len (got opflags, s) = round_body seq opflags (
    if ltb 0 (payload_len - opflags_len)
    then sock_read (payload_len - opflags_len) s
    else (got [], s))
round_opflags seq payload_len (eof, s) = (break, s)
round_opflags seq payload_len (timed_out, s) = (continue, s)

-- The header's tests: each failure leaves the loop.
round_payload : List ℕ → Result FrameError ℕ → Socket → Round × Socket
unfolding round_opflags sock_read
round_payload hdr (err e) s = (break, s)
round_payload hdr (ok payload_len) s =
    round_opflags (byte_at hdr (magic_len + len_len)) payload_len (sock_read opflags_len s)

round_header : Read × Socket → Round × Socket
unfolding round_payload check_header
round_header (got hdr, s) = round_payload hdr (check_header hdr) s
round_header (eof, s) = (break, s)
round_header (timed_out, s) = (continue, s)

unfoldable pub round : Socket → Round × Socket
unfolding round_header sock_read
round s = round_header (sock_read hdr_len s)

-- What a round adds in front of the frames of the later rounds.
abbrev pub after : Round → List Frame → List Frame
after (dispatch f) rest = f ∷ rest
after continue rest = rest
after break rest = []

-- The frames that the loop dispatches in `fuel` rounds, until it breaks.
unfoldable pub read_loop : ℕ → Socket → List Frame
read_loop zero s = []
read_loop (suc fuel) s = let (r, s') = round s in let rest = read_loop fuel s' in after r rest

pub read_loop-round :
    (k : ℕ) (s : Socket) {s' : Socket} {r : Round}
    → round s ≡ (r, s')
    → read_loop (suc k) s ≡ after r (read_loop k s')
unfolding read_loop
read_loop-round k s e = ap (λ p. after p.0 (read_loop k p.1)) e
