-- ===== src/Wire/Multiplexer/Many.antt =====
-- `call_many` of python/vedadb/wire/vbp/multiplexer.py: several requests at once.
use vedadb_driver.Base.{
  ℕ, ◌≡◌, ◌⊎◌, refl, ◌∙◌, Bool, true, false, Bool-cases, inl, inr, none, some, List, [], ◌∷◌, arith,
  if◌then◌else◌, Result, ok, err, ◌==◌,
}
use vedadb_driver.Base.Int.{ℤ, pos}
use vedadb_driver.Base.Sets.{has}
use vedadb_driver.Base.Dict.{get, nat_eq}
use vedadb_driver.Wire.Frame.{Frame}
use vedadb_driver.Wire.Multiplexer.{
  Mux, MuxError, key_error, timed_out, start, outcome, or_empty, unregister,
}
use vedadb_driver.Wire.Multiplexer.Free.{Free, KeepsFree, Sent, get-unregister, start-Sent}

-- A request: its opcode and body, and whether the socket takes it.
abbrev pub Request : Type 0
Request = Bool × ℤ × List ℕ

unfoldable pub send_with_alloc : (Mux → Mux) → Request → Mux → Result MuxError ℕ × Mux
unfolding start
send_with_alloc others (sent, op, body) m = start others sent op (pos 0) body m

-- The loop of `_send_with_alloc`: the numbers that were given out, and how the loop ended.
unfoldable pub send_many :
    (Mux → Mux) → List Request → Mux → List ℕ × Result MuxError (Unit {0}) × Mux
unfolding send_with_alloc
send_many others [] m = ([], ok tt, m)
send_many others (item ∷ items) m =
    let (r, m') = send_with_alloc others item m in
    let (seqs, q, m'') = send_many others items m' in
    elim r [ err e ↦ ([], err e, m') | ok seq ↦ (seq ∷ seqs, q, m'') ]

-- The waits, at the end of which each event is set or not.
unfoldable pub await : List ℕ → Mux → Result MuxError (Unit {0})
unfolding get
await [] m = ok tt
await (s ∷ seqs) m =
    let rest = await seqs m in
    elim (get s m.events) [
      | none ↦ err key_error
      | some done ↦ if done then rest else err timed_out
    ]

abbrev with_frames :
    List Frame → Result MuxError (List (List Frame)) → Result MuxError (List (List Frame))
with_frames frames (ok out) = ok (frames ∷ out)
with_frames frames (err e) = err e

unfoldable pub gather : List ℕ → Mux → Result MuxError (List (List Frame)) × Mux
unfolding outcome unregister get
gather [] m = (ok [], m)
gather (s ∷ seqs) m =
    let (out, m') = gather seqs (unregister s m) in
    elim (outcome (get s m.errors) (or_empty (get s m.inflight))) [
      | err e ↦ (err e, unregister s m)
      | ok frames ↦ (with_frames frames out, m')
    ]

-- The `finally` block.
unfoldable pub release : List ℕ → Mux → Mux
unfolding unregister
release [] m = m
release (s ∷ seqs) m = release seqs (unregister s m)

gathered : List ℕ → Mux → Result MuxError (Unit {0}) → Result MuxError (List (List Frame)) × Mux
unfolding gather
gathered seqs m (err e) = (err e, m)
gathered seqs m (ok _) = gather seqs m

-- The `try` block after the requests were sent.
many_sent :
    (Mux → Mux)
    → List ℕ × Result MuxError (Unit {0}) × Mux
    → Result MuxError (List (List Frame)) × Mux
unfolding gathered await
many_sent env (seqs, err e, m) = (err e, m)
many_sent env (seqs, ok _, m) = gathered seqs (env m) (await seqs (env m))

-- `env` is what the other threads do until the waits are over.
unfoldable pub call_many :
    (Mux → Mux) → (Mux → Mux) → List Request → Mux → Result MuxError (List (List Frame)) × Mux
unfolding send_many many_sent release
call_many others env items m =
    let sent = send_many others items m in
    let (out, m') = many_sent env sent in (out, release sent.0 m')

release_free :
    (s : ℕ) (seqs : List ℕ) (m : Mux)
    → get s m.inflight ≡ none
    → get s (release seqs m).inflight ≡ none
unfolding release
release_free s [] m h = h
release_free s (t ∷ seqs) m h =
    release_free s seqs (unregister t m) (ground (arith, get-unregister t s m, h))

has-cons :
    (s t : ℕ) (ts : List ℕ) → has s (t ∷ ts) ≡ false → ((t == s) ≡ false) × (has s ts ≡ false)
unfolding has
has-cons s t ts h = (ground (arith, h), ground (arith, h))

send_with_alloc-Sent :
    (s : ℕ) (others : Mux → Mux) (item : Request) (m : Mux)
    → KeepsFree s others
    → Free s m
    → Sent s (send_with_alloc others item m)
unfolding send_with_alloc
send_with_alloc-Sent s others (sent, op, body) m keeps h =
    start-Sent s others sent op (pos 0) body m keeps h

send_many-Free :
    (s : ℕ) (others : Mux → Mux) (items : List Request) (m : Mux)
    → KeepsFree s others
    → Free s m
    → has s (send_many others items m).0 ≡ false
    → Free s (send_many others items m).2
unfolding send_many
send_many-Free s others [] m keeps h n = h
send_many-Free s others (item ∷ items) m keeps h n =
    cases (λ m' h'. send_many-Free s others items m' keeps h') (send_with_alloc others item m)
      (send_with_alloc-Sent s others item m keeps h) n
  where
    after : Result MuxError ℕ × Mux → List ℕ × Result MuxError (Unit {0}) × Mux
    after (r, m') =
        let (seqs, q, m'') = send_many others items m' in
        elim r [ err e ↦ ([], err e, m') | ok seq ↦ (seq ∷ seqs, q, m'') ]

    cases :
        ((m' : Mux)
          → Free s m'
          → has s (send_many others items m').0 ≡ false
          → Free s (send_many others items m').2)
        → (r : Result MuxError ℕ × Mux) → Sent s r
        → has s (after r).0 ≡ false
        → Free s (after r).2
    cases rec (err e, m') k n = k
    cases rec (ok seq, m') k n =
        let p : ((seq == s) ≡ false) × (has s (send_many others items m').0 ≡ false) =
          has-cons s seq (send_many others items m').0 n in
        rec m' (k p.0) p.1

gather-Free : (s : ℕ) (seqs : List ℕ) (m : Mux) → Free s m → Free s (gather seqs m).1
unfolding gather outcome
gather-Free s [] m h = h
gather-Free s (t ∷ seqs) m h =
    let gone : Free s (unregister t m) = ground (arith, get-unregister t s m, h) in
    cases gone (gather-Free s seqs (unregister t m) gone)
      (outcome (get t m.errors) (or_empty (get t m.inflight)))
  where
    after : Result MuxError (List Frame) → Result MuxError (List (List Frame)) × Mux
    after r =
        let (out, m') = gather seqs (unregister t m) in
        elim r [ err e ↦ (err e, unregister t m) | ok frames ↦ (with_frames frames out, m') ]

    cases :
        Free s (unregister t m)
        → Free s (gather seqs (unregister t m)).1
        → (r : Result MuxError (List Frame)) → Free s (after r).1
    cases gone rec (err e) = gone
    cases gone rec (ok frames) = rec

many_sent-Free :
    (s : ℕ) (env : Mux → Mux) (r : List ℕ × Result MuxError (Unit {0}) × Mux)
    → KeepsFree s env
    → Free s r.2
    → Free s (many_sent env r).1
unfolding many_sent
many_sent-Free s env (seqs, err e, m) keeps h = h
many_sent-Free s env (seqs, ok _, m) keeps h = cases (await seqs (env m))
  where
    cases : (r : Result MuxError (Unit {0})) → Free s (gathered seqs (env m) r).1
    cases (err e) = keeps m h
    cases (ok _) = gather-Free s seqs (env m) (keeps m h)

release-has : (s : ℕ) (seqs : List ℕ) (m : Mux) → has s seqs ≡ true → Free s (release seqs m)
unfolding release has
release-has s [] m h = cc
release-has s (t ∷ seqs) m h = elim (Bool-cases (t == s)) [
  | inl p ↦ release_free s seqs (unregister t m) (get-unregister t s m ∙ rw p refl)
  | inr p ↦ release-has s seqs (unregister t m) (ground (arith, h, p))
]

-- However `call_many` ends, with replies, with an ERROR frame, a timeout or a request that could not
-- be sent, these sequence numbers are free after it: each that it gave out to a request, and each that
-- was free before the call, also the one of the request that could not be sent, if the other threads
-- put no request in flight under it.
pub call_many_released :
    (others env : Mux → Mux) (items : List Request) (m : Mux) (s : ℕ)
    → (has s (send_many others items m).0 ≡ true)
      ⊎ (KeepsFree s others × KeepsFree s env × Free s m)
    → Free s (call_many others env items m).1
unfolding call_many
call_many_released others env items m s (inl p) =
    let sent = send_many others items m in release-has s sent.0 (many_sent env sent).1 p
call_many_released others env items m s (inr (ko, ke, h)) =
    let sent = send_many others items m in
    elim (Bool-cases (has s sent.0)) [
      | inl p ↦ release-has s sent.0 (many_sent env sent).1 p
      | inr p ↦
          release_free s sent.0 (many_sent env sent).1
            (many_sent-Free s env sent ke (send_many-Free s others items m ko h p))
    ]
