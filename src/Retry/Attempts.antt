-- ===== src/Retry/Attempts.antt =====
-- How often and how long python/vedadb/retry.py tries.
use vedadb_driver.Base.{
  ℕ, zero, suc, ◌+◌, ◌-◌, ◌*◌, ◌^◌, ◌≤◌, ◌<◌, ◌≡◌, refl, ◌∙◌, true, List, [], ◌∷◌, Option, none,
  some, leb, if◌then◌else◌, arith, All, length, inl, inr, ◌⊎◌, leb→le, Bool-cases,
}
use Prim.Native.Nat.{min}
use vedadb_driver.Retry.{
  Outcome, returned, raised, Answer, value, non_retryable, wrapped, max_retries_exceeded,
  RetryPolicy, compute_delay, attempts, execute, retried,
}

module _ {A X : Type 0} (p : RetryPolicy X) (fn : ℕ → Outcome A X) where
  -- The attempt raises an exception that is retried.
  abbrev pub Fails : ℕ → Type 0
  Fails i = (x : X) × (fn i ≡ raised x) × (p.retryable x ≡ true)

  -- The retries before attempt `k`, from attempt `i` on: each with its delay.
  abbrev pub retries_from : ℕ → ℕ → List (ℕ × ℕ)
  retries_from i zero = []
  retries_from i (suc n) = (i, compute_delay p i) ∷ retries_from (suc i) n

  -- How an attempt that is not retried ends the execution.
  abbrev pub final : Outcome A X → Answer A X
  final (returned a) = value a
  final (raised x) =
      if p.retryable x
      then max_retries_exceeded (suc p.max_retries) (some x)
      else if p.is_non_retryable x
      then non_retryable x
      else wrapped x

  -- Not retried: a result, an exception of another kind, or the last attempt allowed.
  abbrev pub Settles : ℕ → Type 0
  Settles k = (x : X) → fn k ≡ raised x → p.retryable x ≡ true → p.max_retries ≤ k

  settled :
      (left k : ℕ) (last : Option X) (o : Outcome A X)
      → fn k ≡ o
      → Settles k
      → attempts p fn (suc left) k last ≡ record { answer = final o; calls = suc k; retries = [] }
  unfolding attempts
  settled left k last (returned a) e h = rw (e, attempts) refl
  settled left k last (raised x) e h = elim (Bool-cases (p.retryable x)) [
    | inl r ↦ let enough = h x e r in ground (arith, e, r, enough)
    | inr r ↦ ground (arith, e, r)
  ]

  retry_step :
      (left i : ℕ) (last : Option X) (x : X)
      → fn i ≡ raised x
      → p.retryable x ≡ true
      → i < p.max_retries
      → attempts p fn (suc left) i last
        ≡ retried (i, compute_delay p i) (attempts p fn left (suc i) (some x))
  unfolding attempts
  retry_step left i last x e r few = ground (arith, e, r, few)

  attempts-retries :
      (n left i k : ℕ) (last : Option X)
      → n + i ≡ k
      → left + i ≡ suc p.max_retries
      → k ≤ p.max_retries
      → ((j : ℕ) → i ≤ j → j < k → Fails j)
      → Settles k
      → attempts p fn left i last
        ≡ record { answer = final (fn k); calls = suc k; retries = retries_from i n }
  attempts-retries n zero i k last e l few fails h = absurd (omega arith)
  attempts-retries zero (suc left) i k last e l few fails h =
      let same : i ≡ k = omega (arith, e) in rw same (settled left k last (fn k) refl h)
  attempts-retries (suc n) (suc left) i k last e l few fails h =
      let (x, ex, r) = fails i (omega arith) (omega arith) in
      retry_step left i last x ex r (omega arith)
      ∙ rw
          (attempts-retries n left (suc i) k (some x) (omega arith) (omega arith) few
            (λ j lo hi. fails j (omega arith) hi) h)
          refl

  -- If the attempts before attempt `k` all raise retryable exceptions, and attempt `k` returns,
  -- raises one that is not retryable or is the last one allowed, then `fn` is called k + 1 times, the
  -- answer is what attempt `k` makes of it, and there were `k` pauses with the delays of the attempts
  -- before it.
  pub execute-retries :
      (k : ℕ)
      → k ≤ p.max_retries
      → ((j : ℕ) → j < k → Fails j)
      → Settles k
      → execute p fn ≡ record { answer = final (fn k); calls = suc k; retries = retries_from 0 k }
  unfolding execute
  execute-retries k few fails h =
      attempts-retries k (suc p.max_retries) 0 k none (omega arith) (omega arith) few
        (λ j _ hi. fails j hi) h

  compute_delay-le :
      (i : ℕ)
      → ((d : ℕ) → p.uniform i d ≤ d)
      → (compute_delay p i ≤ p.max_delay) × (compute_delay p i ≤ p.base_delay * 2 ^ i)
  unfolding compute_delay
  compute_delay-le i u = ground (arith, u (min (p.base_delay * 2 ^ i) p.max_delay))

  -- A retry with a delay within both bounds.
  abbrev pub IsBounded : ℕ × ℕ → Type 0
  IsBounded (i, delay) =
      (i < p.max_retries) × (delay ≤ p.max_delay) × (delay ≤ p.base_delay * 2 ^ i)

  retried_or_settled :
      (i : ℕ) (o : Outcome A X)
      → fn i ≡ o
      → ((x : X) × (fn i ≡ raised x) × (p.retryable x ≡ true) × (i < p.max_retries)) ⊎ Settles i
  retried_or_settled i (returned a) e = inr (λ x e' r. cc)
  retried_or_settled i (raised x) e = elim (Bool-cases (p.retryable x)) [
    | inl r ↦ elim (Bool-cases (leb p.max_retries i)) [
      | inl l ↦ inr (λ x e' r. leb→le p.max_retries i l)
      | inr l ↦ inl (x, e, r, ground (arith, l))
    ]
    | inr r ↦ inr (λ x' e' r'. absurd (ground (arith, e, e', r, r')))
  ]

  attempts-IsBounded :
      (left i : ℕ) (last : Option X)
      → ((j d : ℕ) → p.uniform j d ≤ d)
      → All IsBounded (attempts p fn left i last).retries
        × (length (attempts p fn left i last).retries ≤ p.max_retries - i)
        × ((attempts p fn left i last).calls ≤ left + i)
  unfolding attempts
  attempts-IsBounded zero i last u = (tt, omega arith, omega arith)
  attempts-IsBounded (suc left) i last u = elim (retried_or_settled i (fn i) refl) [
    | inl (x, e, r, few) ↦
        let (all, n, c) = attempts-IsBounded left (suc i) (some x) u in
        let (m, b) = compute_delay-le i (u i) in
        rw (retry_step left i last x e r few)
          (((few, m, b), all), omega (arith, n, few), omega (arith, c))
    | inr h ↦ rw (settled left i last (fn i) refl h) (tt, omega arith, omega arith)
  ]

  -- Where random.uniform(0, d) is at most d: whatever `fn` does, there are at most `max_retries`
  -- retries and one call more than that, and each delay is at most `max_delay` and at most
  -- base_delay * 2^attempt.
  execute-IsBounded :
      ((j d : ℕ) → p.uniform j d ≤ d)
      → All IsBounded (execute p fn).retries
        × (length (execute p fn).retries ≤ p.max_retries)
        × ((execute p fn).calls ≤ suc p.max_retries)
  unfolding execute
  execute-IsBounded u =
      let (all, few, calls) = attempts-IsBounded (suc p.max_retries) 0 none u in
      (all, omega (arith, few), omega (arith, calls))
