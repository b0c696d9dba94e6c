-- ===== src/Rpc/Receipt.antt =====
-- boa/rpc.py: the wait for a receipt ends, with the first receipt or by its deadline.
use titanoboa.Prelude.{
  ℕ, zero, suc, ◌+◌, ◌*◌, ◌≤◌, ◌<◌, ◌≡◌, refl, inl, inr, false, Option, none, some, arith, ltb,
  nat_beq, Bool-cases, Option-cases, nat_beq→eq, nat_eq, string_eq, bytes_eq, pair_eq, ltb→lt,
}
use titanoboa.Prelude.Result.{Result, ok, err}
use titanoboa.Rpc.{RpcFailure, timed_out, wait_from, wait_for_tx_receipt}
use mathlib.Core.Path.{subst}

module _ {R : Type 0} (receipt_at : ℕ → Option R) where
  one_more :
      (poll i : ℕ)
      → receipt_at poll ≡ none
      → (suc poll ≤ i → receipt_at i ≡ none)
      → poll ≤ i
      → receipt_at i ≡ none
  one_more poll i first rest l = elim (Bool-cases (nat_beq poll i)) [
    | inl same ↦ subst (λ j. receipt_at j ≡ none) (nat_beq→eq poll i same) first
    | inr other ↦ rest (ground arith)
  ]

module _ (E : Type 0) {R : Type 0} (receipt_at : ℕ → Option R) (duration : ℕ → ℕ)
    (start timeout poll_latency : ℕ) where
  -- the time at which a poll is made, or would be
  abbrev pub time_of : ℕ → ℕ
  time_of zero = start
  time_of (suc poll) = time_of poll + duration poll + poll_latency

  -- the answer of a wait that began at a poll, after the last poll that it made: the first receipt,
  -- or none, where the next poll would be the first beyond the deadline
  abbrev pub Judged : Result (RpcFailure E) R → ℕ → Type 0
  Judged (ok receipt) poll =
      (last : ℕ) × (poll ≤ last)
      × (time_of last ≤ start + timeout)
      × (receipt_at last ≡ some receipt)
      × ((i : ℕ) → poll ≤ i → i < last → receipt_at i ≡ none)
  Judged (err x) poll =
      (x ≡ timed_out)
      × ((last : ℕ) × (poll ≤ last)
          × (time_of last ≤ start + timeout)
          × (start + timeout < time_of (suc last))
          × ((i : ℕ) → poll ≤ i → i ≤ last → receipt_at i ≡ none))

  Judged-suc :
      (r : Result (RpcFailure E) R) (poll : ℕ)
      → receipt_at poll ≡ none
      → Judged r (suc poll)
      → Judged r poll
  Judged-suc (ok receipt) poll first (last, l, due, hit, before) =
      (last, omega arith, due, hit, λ i a b. one_more receipt_at poll i first (λ c. before i c b) a)
  Judged-suc (err x) poll first (e, (last, l, due, late, before)) = (
    e,
    (last, omega arith, due, late, λ i a b. one_more receipt_at poll i first (λ c. before i c b) a),
  )

  -- A wait with this fuel, from a poll on, ends with a judged answer.
  Ends : ℕ → ℕ → ℕ → Type 0
  Ends fuel poll now =
      (r : Result (RpcFailure E) R) × (wait_from {E = E} receipt_at duration start timeout
          poll_latency fuel poll now
        ≡ some r)
      × Judged r poll

  poll-Ends :
      (fuel poll now : ℕ)
      → now ≡ time_of poll
      → now ≤ start + timeout
      → (receipt_at poll ≡ none
          → ltb (start + timeout) (now + duration poll + poll_latency) ≡ false
          → Ends fuel (suc poll) (now + duration poll + poll_latency))
      → Ends (suc fuel) poll now
  unfolding wait_from Ends
  poll-Ends fuel poll now at due later = elim (Option-cases (receipt_at poll)) [
    | inr (receipt, hit) ↦ (
      ok receipt,
      rw (hit, wait_from),
      (poll, omega arith, omega (arith, at), hit, λ i a b. absurd (omega arith)),
    )
    | inl miss ↦ elim (Bool-cases (ltb (start + timeout) (now + duration poll + poll_latency))) [
      | inl late ↦ (
        err timed_out,
        rw (miss, wait_from, late),
        (
          refl,
          (
            poll,
            omega arith,
            omega (arith, at),
            (let l : start + timeout < now + duration poll + poll_latency = ltb→lt _ _ late in
                omega (arith, at)),
            λ i a b. one_more receipt_at poll i miss (λ c. absurd (omega arith)) a,
          ),
        ),
      )
      | inr early ↦
          let (r, e, j) = later miss early in
          (r, rw (miss, wait_from, early) e, Judged-suc r poll miss j)
    ]
  ]

  wait_from-Ends :
      (fuel poll now : ℕ)
      → now ≡ time_of poll
      → now ≤ start + timeout
      → start + timeout < now + fuel * poll_latency
      → Ends (suc fuel) poll now
  wait_from-Ends zero poll now at due h =
      poll-Ends zero poll now at due (λ miss early. absurd (ground arith))
  wait_from-Ends (suc fuel) poll now at due h = poll-Ends (suc fuel) poll now at due (λ miss early.
      wait_from-Ends fuel (suc poll) (now + duration poll + poll_latency) (omega (arith, at))
        (ground arith) (omega arith))

  -- With a latency, one poll more than the latencies that the timeout holds are enough for the wait
  -- to end, however long the answers take: it gives the first receipt that a poll gets, each poll made
  -- by the deadline, or it times out after polls that got none, at the first time at which the next
  -- poll would be made beyond the deadline.
  pub wait_for_tx_receipt-Judged :
      (fuel : ℕ)
      → timeout < fuel * poll_latency
      → (r : Result (RpcFailure E) R) × (wait_for_tx_receipt {E = E} receipt_at duration start
            timeout poll_latency
            (suc fuel)
          ≡ some r)
        × Judged r 0
  unfolding wait_for_tx_receipt Ends
  wait_for_tx_receipt-Judged fuel h = wait_from-Ends fuel 0 start refl (omega arith) (omega arith)
