-- ===== src/Wire/Multiplexer/Alloc.antt =====
-- `_alloc_seq` of python/vedadb/wire/vbp/multiplexer.py.
use vedadb_driver.Base.{
  ℕ, zero, suc, ◌+◌, ◌-◌, ◌%◌, ◌<◌, ◌≡◌, ◌≢◌, ◌⊎◌, refl, ap, ◌∙◌, true, false, inl, inr, Option,
  none, some, arith, ◌==◌, Result, ok, err,
}
use vedadb_driver.Base.Dict.{get, nat_eq}
use vedadb_driver.Wire.Multiplexer.{Mux, MuxError, protocol_error, is_some, alloc_loop, alloc_seq}

-- The allocator hands out `seq`: no request is in flight under it, and all else stays as it was.
pub record Allocates (m : Mux) (r : Result MuxError ℕ × Mux) (seq : ℕ) : Type 0 where
  pub result : r ≡ (ok seq, record m { next_seq = (seq + 1) % 256 })
  pub is_byte : seq < 256
  pub is_free : get seq m.inflight ≡ none

Option-cases {ℓ} : {A : Type ℓ} (o : Option A) → (o ≡ none) ⊎ (is_some o ≡ true)
Option-cases none = inl refl
Option-cases (some a) = inr refl

-- The scan is not back at its start.
not_back :
    (start i next : ℕ)
    → start < 256
    → next ≡ (start + i) % 256
    → i + 1 < 256
    → ((next + 1) % 256 == start) ≡ false
not_back start i next hs hn hi = ground arith

alloc_loop-Allocates :
    (others : Mux → Mux) (k start i d : ℕ) (m : Mux)
    → start < 256
    → m.next_seq ≡ (start + i) % 256
    → i + d < 256
    → d < k
    → get ((start + i + d) % 256) m.inflight ≡ none
    → (seq : ℕ) × Allocates m (alloc_loop others k start m) seq
unfolding alloc_loop
alloc_loop-Allocates others zero start i d m hs hn hi hd free = absurd (omega arith)
alloc_loop-Allocates others (suc k) start i zero m hs hn hi hd free =
    let e : get m.next_seq m.inflight ≡ none =
      ap (λ j. get j m.inflight) (omega (arith, hn)) ∙ free in
    (m.next_seq, record { result = rw e; is_byte = omega (arith, hn); is_free = e })
alloc_loop-Allocates others (suc k) start i (suc d) m hs hn hi hd free =
    elim (Option-cases (get m.next_seq m.inflight)) [
      | inl e ↦ (m.next_seq, record { result = rw e; is_byte = omega (arith, hn); is_free = e })
      | inr e ↦
          let m' : Mux = record m { next_seq = (m.next_seq + 1) % 256 } in
          let (seq, a) =
            alloc_loop-Allocates others k start (suc i) d m' hs (omega (arith, hn)) (omega arith)
              (omega arith) (ap (λ j. get j m.inflight) (omega arith) ∙ free) in
          (
            seq,
            record {
              result = rw (e, not_back start i m.next_seq hs hn (omega arith)) a.result;
              is_byte = a.is_byte;
              is_free = a.is_free;
            },
          )
    ]

-- As long as some sequence number is free, `_alloc_seq` returns a free one, and changes nothing but
-- the place where its next scan starts.
pub alloc_seq-Allocates :
    (others : Mux → Mux) (m : Mux) (s : ℕ)
    → m.next_seq < 256
    → s < 256
    → get s m.inflight ≡ none
    → (seq : ℕ) × Allocates m (alloc_seq others m) seq
unfolding alloc_seq
alloc_seq-Allocates others m s hn hs free =
    alloc_loop-Allocates others 256 m.next_seq 0 ((s + 256 - m.next_seq) % 256) m hn (omega arith)
      (omega arith) (omega arith) (ap (λ j. get j m.inflight) (omega arith) ∙ free)

alloc_loop_full :
    (others : Mux → Mux) (k start i : ℕ) (m : Mux)
    → start < 256
    → m.next_seq ≡ (start + i) % 256
    → i + k ≡ 256
    → ((s : ℕ) → s < 256 → get s m.inflight ≢ none)
    → (alloc_loop others k start m).0 ≡ err protocol_error
unfolding alloc_loop
alloc_loop_full others zero start i m hs hn hi taken = refl
alloc_loop_full others (suc zero) start i m hs hn hi taken =
    elim (Option-cases (get m.next_seq m.inflight)) [
      | inl e ↦ absurd (taken m.next_seq (omega (arith, hn)) e)
      | inr e ↦ rw e
    ]
alloc_loop_full others (suc (suc k)) start i m hs hn hi taken =
    elim (Option-cases (get m.next_seq m.inflight)) [
      | inl e ↦ absurd (taken m.next_seq (omega (arith, hn)) e)
      | inr e ↦
          rw (e, not_back start i m.next_seq hs hn (omega arith))
            (alloc_loop_full others (suc k) start (suc i)
              (record m { next_seq = (m.next_seq + 1) % 256 }) hs (omega (arith, hn)) (omega arith)
              taken)
    ]

-- With all 256 numbers in flight `_alloc_seq` raises, whatever the other threads do while it has
-- released the lock: a number that they free in that moment is not looked at again.
alloc_seq_full :
    (others : Mux → Mux) (m : Mux)
    → m.next_seq < 256
    → ((s : ℕ) → s < 256 → get s m.inflight ≢ none)
    → (alloc_seq others m).0 ≡ err protocol_error
unfolding alloc_seq
alloc_seq_full others m hn taken =
    alloc_loop_full others 256 m.next_seq 0 m hn (omega arith) (omega arith) taken
