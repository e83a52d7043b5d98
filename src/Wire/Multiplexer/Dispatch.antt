-- ===== src/Wire/Multiplexer/Dispatch.antt =====
-- `_dispatch_frame` of python/vedadb/wire/vbp/multiplexer.py: replies are told apart by their
-- sequence number and kept in order.
use vedadb_driver.Base.{
  ℕ, ◌≡◌, refl, Bool, true, false, ◌||◌, Option, none, some, List, [], ◌∷◌, ◌++◌, append-nil,
  append_assoc, arith, ◌==◌, inl, inr, Bool-cases, if◌then◌else◌,
}
use vedadb_driver.Base.Dict.{get, get-put, nat_eq}
use vedadb_driver.Wire.Opcodes.{op_error}
use vedadb_driver.Wire.Frame.{Frame}
use vedadb_driver.Wire.Multiplexer.{Mux, is_terminal, dispatch_frame, dispatch_all}

-- The frames of one request.
abbrev pub for_seq : ℕ → List Frame → List Frame
for_seq s [] = []
for_seq s (f ∷ fs) = if f.seq == s then f ∷ for_seq s fs else for_seq s fs

-- Some frame ends a response.
abbrev pub ended : List Frame → Bool
ended [] = false
ended (f ∷ fs) = is_terminal f.op || ended fs

-- The last ERROR frame, `last` if there is none.
abbrev pub last_error : Option Frame → List Frame → Option Frame
last_error last [] = last
last_error last (f ∷ fs) = last_error (if f.op == op_error then some f else last) fs

-- What the multiplexer holds of a request that waits for its response.
pub record Waits (m : Mux) (s : ℕ) (frames : List Frame) (done : Bool) (error : Option Frame)
    : Type 0 where
  pub no_stream : get s m.streams ≡ none
  pub bucket : get s m.inflight ≡ some frames
  pub event : get s m.events ≡ some done
  pub recorded : get s m.errors ≡ some error

or-false : (b : Bool) → (b || false) ≡ b
or-false true = refl
or-false false = refl

or_assoc : (a b c : Bool) → ((a || b) || c) ≡ (a || (b || c))
or_assoc true b c = refl
or_assoc false b c = refl

error_terminal : (op : ℕ) → (op == op_error) ≡ true → is_terminal op ≡ true
unfolding is_terminal
error_terminal op h = ground arith

module _ (f : Frame) (m : Mux) (s : ℕ) {b : List Frame} {done : Bool} {error : Option Frame} where
  dispatch_frame-Waits_ne :
      Waits m s b done error → (f.seq == s) ≡ false → Waits (dispatch_frame f m) s b done error
  unfolding dispatch_frame
  dispatch_frame-Waits_ne w ne = grind (arith, get-put)

  dispatch_frame-Waits_self :
      Waits m s b done error
      → (f.seq == s) ≡ true
      → Waits
          (dispatch_frame f m)
          s
          (b ++ f ∷ [])
          (done || is_terminal f.op)
          (if f.op == op_error then some f else error)
  unfolding dispatch_frame
  dispatch_frame-Waits_self w e = grind (arith, get-put, error_terminal)

-- Whatever frames arrive for whichever requests, the multiplexer keeps for a waiting request
-- exactly its own frames in the order of arrival, has set its event if one of them ends a response,
-- and remembers the last of them that is an ERROR.
pub dispatch_all-Waits :
    (fs : List Frame) (m : Mux) (s : ℕ) {b : List Frame} {done : Bool} {error : Option Frame}
    → Waits m s b done error
    → let own = for_seq s fs in
      Waits (dispatch_all fs m) s (b ++ own) (done || ended own) (last_error error own)
unfolding dispatch_all
dispatch_all-Waits [] m s {b} {done} w = rw (append-nil, or-false done) w
dispatch_all-Waits (f ∷ fs) m s {b} {done} {error} w = elim (Bool-cases (f.seq == s)) [
  | inl e ↦
      rw
        (
          e,
          ← append_assoc b (f ∷ []) (for_seq s fs),
          ← or_assoc done (is_terminal f.op) (ended (for_seq s fs)),
        )
        (dispatch_all-Waits fs (dispatch_frame f m) s (dispatch_frame-Waits_self f m s w e))
  | inr ne ↦
      rw ne (dispatch_all-Waits fs (dispatch_frame f m) s (dispatch_frame-Waits_ne f m s w ne))
]
