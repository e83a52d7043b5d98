-- ===== src/Wire/Reader/Timeouts.antt =====
-- The reader thread of python/vedadb/wire/vbp/multiplexer.py on a connection that idles within a
-- frame.
use vedadb_driver.Base.{
  ℕ, zero, leb, false, suc, ◌+◌, ◌≤◌, ◌≡◌, ◌≢◌, refl, ap, ◌∙◌, List, [], ◌∷◌, ◌++◌, length, arith,
}
use vedadb_driver.Base.Bytes.{le_bytes, le_value-le_bytes}
use vedadb_driver.Wire.Frame.{Frame, magic, payload_len_of}
use vedadb_driver.Wire.Frame.Decode.{IsFrame}
use vedadb_driver.Wire.Reader.{
  bytes, idle, Socket, round, read_loop, continue, break, sock_read, got, round_header,
  read_loop-round,
}

-- The header of a frame, and what follows it.
abbrev pub header_of : Frame → List ℕ
header_of f = magic ++ (le_bytes 4 (2 + length f.body) ++ (f.seq ∷ []))

abbrev pub payload_of : Frame → List ℕ
payload_of f = f.op ∷ f.flags ∷ f.body

idle_after_header :
    (f : Frame) (s : Socket) → IsFrame f → round (bytes (header_of f) ∷ idle ∷ s) ≡ (continue, s)
unfolding round le_bytes payload_len_of
idle_after_header f s h =
    ground (arith, le_value-le_bytes 4 (2 + length f.body) (omega (arith, h.fits)))

sock_read_header :
    (b c1 c2 c3 c4 c5 c6 c7 : ℕ) (c : List ℕ) (s : Socket)
    → (s' : Socket) × (sock_read 8 (bytes (b ∷ c1 ∷ c2 ∷ c3 ∷ c4 ∷ c5 ∷ c6 ∷ c7 ∷ c) ∷ s)
        ≡ (got (b ∷ c1 ∷ c2 ∷ c3 ∷ c4 ∷ c5 ∷ c6 ∷ c7 ∷ []), s'))
unfolding sock_read
sock_read_header b c1 c2 c3 c4 c5 c6 c7 [] s = (s, refl)
sock_read_header b c1 c2 c3 c4 c5 c6 c7 (x ∷ c) s = (bytes (x ∷ c) ∷ s, rw (long (length c)))
  where
    long : (n : ℕ) → leb (suc (suc (suc (suc (suc (suc (suc (suc (suc n))))))))) 8 ≡ false
    long n = ground arith

bad_magic_breaks :
    (b : ℕ) (hdr : List ℕ) (s : Socket) → b ≢ 0x56 → round_header (got (b ∷ hdr), s) ≡ (break, s)
unfolding round_header
bad_magic_breaks b hdr s h = ground arith

bad_header :
    (b : ℕ) (c : List ℕ) (s : Socket)
    → b ≢ 0x56
    → 7 ≤ length c
    → (s' : Socket) × (round (bytes (b ∷ c) ∷ s) ≡ (break, s'))
unfolding round
bad_header b (c1 ∷ c2 ∷ c3 ∷ c4 ∷ c5 ∷ c6 ∷ c7 ∷ c) s h l =
    let (s', e) = sock_read_header b c1 c2 c3 c4 c5 c6 c7 c s in
    (s', ap round_header e ∙ bad_magic_breaks b (c1 ∷ c2 ∷ c3 ∷ c4 ∷ c5 ∷ c6 ∷ c7 ∷ []) s' h)
bad_header b _ s h l = absurd (omega arith)

-- Where the connection idles for longer than the socket's timeout between the header of a frame and
-- its payload, the reader thread forgets the header and takes the payload for a header: unless the
-- opcode happens to be the letter V it leaves the loop, and neither this frame nor any later one is
-- dispatched. (The payload arrives at once and has eight bytes or more.)
idle_loses_frames :
    (rounds : ℕ) (f : Frame) (s : Socket)
    → IsFrame f
    → f.op ≢ 0x56
    → 6 ≤ length f.body
    → read_loop rounds (bytes (header_of f) ∷ idle ∷ bytes (payload_of f) ∷ s) ≡ []
unfolding read_loop
idle_loses_frames zero f s h ne l = refl
idle_loses_frames (suc zero) f s h ne l =
    read_loop-round 0 _ (idle_after_header f (bytes (payload_of f) ∷ s) h)
idle_loses_frames (suc (suc k)) f s h ne l =
    let (s', e) = bad_header f.op (f.flags ∷ f.body) s ne (omega arith) in
    read_loop-round (suc k) _ (idle_after_header f (bytes (payload_of f) ∷ s) h)
    ∙ read_loop-round k _ e
