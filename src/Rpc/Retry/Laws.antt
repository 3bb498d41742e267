-- ===== src/Rpc/Retry/Laws.antt =====
-- What a call with a timeout promises (system/include/CRPC.hpp, CallObject).
use celte_system.Prelude.{
  ℕ, zero, suc, ◌+◌, ◌*◌, ◌≤◌, ◌<◌, ◌≡◌, refl, Bool, false, Option, leb, ◌⊎◌, inl, inr, arith, ap,
  sym, subst, ◌∙◌, ℕ_discrete, Bool-cases, Option-cases, lt→ltb,
}
use celte_system.Rpc.Retry.{
  Future, Failure, Attempt, answered, failed, value, gave_up, Run, attempt, read_response,
  call_impl, call,
}

-- The time that the sending of an attempt takes.
abbrev pub sending_time {ℓ} : {A : Type ℓ} → Future A → ℕ
sending_time (Future.exception sending) = sending
sending_time (Future.ready_after sending t json) = sending
sending_time (Future.never sending) = sending

-- What the sendings of `k` attempts take, from the n-th one on.
abbrev pub sending_times {ℓ} : {A : Type ℓ} → (ℕ → Future A) → (n k : ℕ) → ℕ
sending_times futures n zero = 0
sending_times futures n (suc k) = sending_time (futures n) + sending_times futures (suc n) k

module _ {ℓ κ} {A : Type ℓ} {R : Type κ} (is_null : A → Bool) (deserialize : A → Option R) where
  -- The attempt at index `i` fails.
  abbrev Fails : ℕ → (ℕ → Future A) → ℕ → Type κ
  Fails timeout futures i =
      (e : Failure) × (t : ℕ) × (attempt is_null deserialize timeout (futures i) ≡ failed e t)

  -- An attempt with a timeout ends, and within it.
  abbrev pub Ends : ℕ → Attempt R → Type κ
  Ends timeout a =
      ((r : R) × (t : ℕ) × (a ≡ answered r t) × (t ≤ timeout))
      ⊎ ((e : Failure) × (t : ℕ) × (a ≡ failed e t) × (t ≤ timeout))

  read_response-Ends :
      (timeout t : ℕ) (json : A)
      → t ≤ timeout
      → Ends timeout (read_response is_null deserialize t json)
  unfolding read_response
  read_response-Ends timeout t json le = elim (Bool-cases (is_null json)) [
    | inl n ↦ inr (Failure.remote_error, t, rw (n, read_response), le)
    | inr n ↦ elim (Option-cases (deserialize json)) [
      | inl e ↦ inr (Failure.bad_response, t, rw (n, e, read_response), le)
      | inr (r, e) ↦ inl (r, t, rw (n, e, read_response), le)
    ]
  ]

  attempt-Ends :
      (timeout : ℕ) (f : Future A)
      → 0 < timeout
      → Ends (sending_time f + timeout) (attempt is_null deserialize timeout f)
  unfolding attempt read_response
  attempt-Ends timeout (Future.exception sending) pos =
      inr (Failure.not_sent, sending, refl, omega arith)
  attempt-Ends timeout (Future.ready_after sending t json) pos =
      rw (lt→ltb 0 timeout pos) (elim (Bool-cases (leb t timeout)) [
        | inl le ↦ rw le (read_response-Ends (sending + timeout) (sending + t) json (ground arith))
        | inr late ↦ rw late (inr (Failure.timed_out, sending + timeout, refl, omega arith))
      ])
  attempt-Ends timeout (Future.never sending) pos =
      inr (Failure.timed_out, sending + timeout, ground arith, omega arith)

  -- How the rounds from attempt `n` to attempt `last` end: with the value of the first attempt that
  -- is answered, or, where all of them fail, with the failure of the last.
  pub data Outcome (timeout n last : ℕ) (futures : ℕ → Future A) (run : Run R) : Type κ where
    answers :
        (i : ℕ) (r : R) (t : ℕ)
        → n ≤ i
        → i ≤ last
        → ((k : ℕ) → n ≤ k → k < i → Fails timeout futures k)
        → attempt is_null deserialize timeout (futures i) ≡ answered r t
        → run.result ≡ value r
        → run.attempts ≡ suc i
        → Outcome timeout n last futures run
    fails :
        (e : Failure) (t : ℕ)
        → ((k : ℕ) → n ≤ k → k ≤ last → Fails timeout futures k)
        → attempt is_null deserialize timeout (futures last) ≡ failed e t
        → run.result ≡ gave_up e
        → run.attempts ≡ suc last
        → Outcome timeout n last futures run

  Fails-at :
      (timeout : ℕ) (futures : ℕ → Future A) (n k : ℕ)
      → n ≡ k
      → Fails timeout futures n
      → Fails timeout futures k
  Fails-at timeout futures n k = subst (Fails timeout futures)

  -- One failed attempt before the others.
  Outcome-before :
      (timeout n last : ℕ) (futures : ℕ → Future A) (run : Run R)
      → Fails timeout futures n
      → Outcome timeout (suc n) last futures run
      → Outcome timeout n last futures run
  Outcome-before timeout n last futures run now (answers i r t le hi before e res count) =
      answers i r t (omega arith) hi
        (λ k lo up. elim (ℕ_discrete n k) [
          | yes p ↦ Fails-at timeout futures n k p now
          | no p ↦ before k (omega arith) up
        ])
        e res count
  Outcome-before timeout n last futures run now (fails f t before e res count) =
      fails f t
        (λ k lo up. elim (ℕ_discrete n k) [
          | yes p ↦ Fails-at timeout futures n k p now
          | no p ↦ before k (omega arith) up
        ])
        e res count

  call_impl-Outcome :
      (retry timeout : ℕ) (futures : ℕ → Future A) (n spent last : ℕ)
      → 0 < timeout
      → last ≡ n + retry
      → Outcome timeout n last futures (call_impl is_null deserialize retry timeout futures n spent)
        × ((call_impl is_null deserialize retry timeout futures n spent).elapsed
            ≤ spent + sending_times futures n (suc retry) + suc retry * timeout)
  unfolding call_impl
  call_impl-Outcome zero timeout futures n spent last pos same =
      let here : n ≡ last = omega arith in
      elim (attempt-Ends timeout (futures n) pos) [
        | inl (r, t, e, le) ↦
            rw (e, call_impl)
              (
                answers n r t (omega arith) (omega arith) (λ k lo up. absurd (omega arith)) e refl
                    refl,
                omega arith,
              )
        | inr (f, t, e, le) ↦
            rw (e, call_impl)
              (
                fails f t (λ k lo up. Fails-at timeout futures n k (omega arith) (f, t, e))
                    (ap (λ i. attempt is_null deserialize timeout (futures i)) (sym here) ∙ e) refl
                    (omega arith),
                omega arith,
              )
      ]
  call_impl-Outcome (suc retry) timeout futures n spent last pos same =
      elim (attempt-Ends timeout (futures n) pos) [
        | inl (r, t, e, le) ↦
            rw (e, call_impl)
              (
                answers n r t (omega arith) (omega arith) (λ k lo up. absurd (omega arith)) e refl
                    refl,
                omega arith,
              )
        | inr (f, t, e, le) ↦
            let (out, time) =
              call_impl-Outcome retry timeout futures (suc n) (spent + t) last pos (omega arith) in
            rw (e, call_impl)
              (
                Outcome-before timeout n last futures
                    (call_impl is_null deserialize retry timeout futures (suc n) (spent + t))
                    (f, t, e) out,
                omega arith,
              )
      ]

  -- Where each sending ends, a call to one peer with a timeout comes back, within the time of the
  -- sendings of `retry + 1` attempts and `retry + 1` timeouts. It returns the value of the first
  -- attempt that is answered, and sends nothing after it; the fail callback runs once, with the last
  -- failure, exactly where all `retry + 1` attempts fail.
  pub call-Outcome :
      (timeout retry : ℕ) (futures : ℕ → Future A)
      → 0 < timeout
      → Outcome timeout 0 retry futures (call is_null deserialize false timeout retry futures)
        × ((call is_null deserialize false timeout retry futures).elapsed
            ≤ sending_times futures 0 (suc retry) + suc retry * timeout)
  unfolding call
  call-Outcome timeout retry futures pos =
      let (out, time) = call_impl-Outcome retry timeout futures 0 0 retry pos (omega arith) in
      (out, omega arith)
