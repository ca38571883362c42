-- ===== src/Resilience/Retry/Laws.antt =====
-- What a run of `RetryLoop` can do.
use datasluice.Base.{
  ap, sym, ◌∙◌, ◌∷◌, All-append, length-append, refl, ◌++◌, [], ◌⊎◌, All, length, is_le_zero, sub_ℕ,
  inl, inr, Bool-cases, ℕ, zero, suc, ◌+◌, ◌≤◌, ◌<◌, ◌≡◌, ◌≢◌, Bool, true, false, not, none, some,
  List, arith,
}
use mathlib.Core.List.{append_assoc}
use mathlib.Core.Path.{subst}
use datasluice.Base.Exec.{Result, ok, raise, then_do}
use datasluice.Errors.{Exception, no_outcome, retry_exhausted}
use datasluice.Safety.{allows_retry}
use datasluice.Resilience.Decision.{RetryDecision, for_response-retry, for_response-raise}
use datasluice.Resilience.Retry.{
  RuntimeResponse, Sent, responded, failed, crashed, RetryLoop, Run, Settled, terminal, retry_in,
  pause, decide_attempt, continue, act_on, settle_sent, attempt_once, attempts, run,
}

abbrev pub declines : Result Exception RetryDecision → Bool
declines (ok d) = not d.retry
declines (raise x) = false

module _ {W : Type 0} (clock : W → ℕ × W) (send : W → Sent × W) (sleep : ℕ → W → W)
    (l : RetryLoop) where
  abbrev IsForeign : Exception → Type 0
  IsForeign x = (x ≢ retry_exhausted) × (x ≢ no_outcome)

  -- What one pass leaves, by its verdict.
  abbrev OnSettled : ℕ → Sent → Run W → Result Exception Settled → Run W → Type 0
  OnSettled n o s (ok (terminal response)) s' =
      (o ≡ responded response)
      × (s'.world ≡ s.world)
      × (s'.sends ≡ s.sends)
      × (s'.sleeps ≡ s.sleeps)
      × (declines (decide_attempt l n (some response)) ≡ true)
  OnSettled n o s (ok (retry_in d)) s' =
      (s'.sends ≡ s.sends)
      × (s'.sleeps ≡ s.sleeps)
      × (d ≤ l.budget.total)
      × (n < l.max_attempts)
      × (allows_retry l.idempotency ≡ true)
  OnSettled n o s (raise x) s' = (s'.sends ≡ s.sends) × (s'.sleeps ≡ s.sleeps) × IsForeign x

  settle-responded :
      (n : ℕ) (r : RuntimeResponse) (dec : Result Exception RetryDecision) (s : Run W)
      → decide_attempt l n (some r) ≡ dec
      → OnSettled n
          (responded r)
          s
          (act_on clock send sleep l n (some r) none dec s).0
          (act_on clock send sleep l n (some r) none dec s).1
  unfolding act_on
  settle-responded n r (raise x) s h = ground (
    arith,
    for_response-raise n l.max_attempts (some r.status_code) r.retry_after l.idempotency l.budget x,
  )
  settle-responded n r (ok d) s h = ground (
    arith,
    for_response-retry n l.max_attempts (some r.status_code) r.retry_after l.idempotency l.budget d,
  )

  settle-failed :
      (n f : ℕ) (dec : Result Exception RetryDecision) (s : Run W)
      → decide_attempt l n none ≡ dec
      → OnSettled n
          (failed f)
          s
          (act_on clock send sleep l n none (some f) dec s).0
          (act_on clock send sleep l n none (some f) dec s).1
  unfolding act_on
  settle-failed n f (raise x) s h =
      ground (arith, for_response-raise n l.max_attempts none none l.idempotency l.budget x)
  settle-failed n f (ok d) s h =
      ground (arith, for_response-retry n l.max_attempts none none l.idempotency l.budget d)

  settle_sent-OnSettled :
      (n : ℕ) (o : Sent) (s : Run W)
      → OnSettled n o s
          (settle_sent clock send sleep l n o s).0
          (settle_sent clock send sleep l n o s).1
  unfolding settle_sent
  settle_sent-OnSettled n (responded r) s = settle-responded n r _ s refl
  settle_sent-OnSettled n (failed f) s = settle-failed n f _ s refl
  settle_sent-OnSettled n (crashed x) s = ground arith

  -- The response is what the last call of `send` gave, and nothing was done since that call.
  pub record AnsweredBy (response : RuntimeResponse) (s' : Run W) : Type 0 where
    pub before : W
    pub answer : (send before).0 ≡ responded response
    pub last : s'.world ≡ (send before).1

  -- The same for a whole pass, which also counts one send.
  abbrev OnAttempt : ℕ → Run W → Result Exception Settled → Run W → Type 0
  OnAttempt n s (ok (terminal response)) s' =
      AnsweredBy response s'
      × (s'.sends ≡ s.sends + 1)
      × (s'.sleeps ≡ s.sleeps)
      × (declines (decide_attempt l n (some response)) ≡ true)
  OnAttempt n s (ok (retry_in d)) s' =
      (s'.sends ≡ s.sends + 1)
      × (s'.sleeps ≡ s.sleeps)
      × (d ≤ l.budget.total)
      × (n < l.max_attempts)
      × (allows_retry l.idempotency ≡ true)
  OnAttempt n s (raise x) s' =
      (s'.sends ≤ s.sends + 1) × (s.sends ≤ s'.sends) × (s'.sleeps ≡ s.sleeps) × IsForeign x

  lift_attempt :
      (n : ℕ) (w : W) (s t : Run W) (res : Result Exception Settled) (s' : Run W)
      → t.world ≡ (send w).1
      → t.sends ≡ s.sends + 1
      → t.sleeps ≡ s.sleeps
      → OnSettled n (send w).0 t res s'
      → OnAttempt n s res s'
  lift_attempt n w s t (ok (terminal response)) s' v h k (o, e, m, p, d) =
      (record { before = w; answer = o; last = e ∙ v }, m ∙ h, p ∙ k, d)
  lift_attempt n w s t (ok (retry_in d)) s' v h k o = ground arith
  lift_attempt n w s t (raise x) s' v h k o = ground arith

  paused : ℕ → Run W → Run W
  paused d s = record { world = sleep d s.world; sends = s.sends; sleeps = d ∷ s.sleeps }

  sent_state : Run W → Run W
  sent_state s = record {
    world = (send (clock s.world).1).1;
    sends = s.sends + 1;
    sleeps = s.sleeps;
  }

  attempt_once-OnAttempt :
      (n : ℕ) (s : Run W)
      → OnAttempt n s
          (attempt_once clock send sleep l n s).0
          (attempt_once clock send sleep l n s).1
  unfolding attempt_once sent_state
  attempt_once-OnAttempt n s =
      elim (Bool-cases
        (is_le_zero (sub_ℕ (l.deadline.budget.total + l.deadline.started_at) (clock s.world).0))) [
          | inl late ↦ rw late (ground arith)
          | inr early ↦ rw early (
              lift_attempt n (clock s.world).1 s (sent_state s) _ _ refl refl refl
                (settle_sent-OnSettled n (send (clock s.world).1).0 (sent_state s)))
        ]

  abbrev Final : Type 0
  Final = Result Exception RuntimeResponse

  -- What the passes from number `n` on leave, with `k` of them at most.
  abbrev OnRun : ℕ → ℕ → Run W → Final → Run W → Type 0
  OnRun n k s (ok r) s' =
      (m : ℕ) × (n ≤ m)
      × (m < n + k)
      × (s'.sends + n ≡ s.sends + m + 1)
      × AnsweredBy r s'
      × (declines (decide_attempt l m (some r)) ≡ true)
  OnRun n k s (raise x) s' = (s'.sends ≤ s.sends + k) × (0 < k → IsForeign x)

  -- The new sleeps, last first: each within the budget, and none without leave to retry.
  pub record Slept (s s' : Run W) (ds : List ℕ) : Type 0 where
    pub grown : s'.sleeps ≡ ds ++ s.sleeps
    pub bounded : All (λ d. d ≤ l.budget.total) ds
    pub allowed : (ds ≡ []) ⊎ (allows_retry l.idempotency ≡ true)
    pub counted : length ds + s.sends ≤ s'.sends

  later_pass :
      (n k : ℕ) (s t : Run W) (res : Final) (s' : Run W)
      → t.sends ≡ s.sends + 1
      → 0 < k
      → OnRun (n + 1) k t res s'
      → OnRun n (suc k) s res s'
  later_pass n k s t (ok r) s' e h (m, lo, hi, count, by, end) =
      (m, omega arith, omega arith, omega arith, by, end)
  later_pass n k s t (raise x) s' e h o = (omega arith, λ _. o.1 h)

  Slept-more :
      (s s1 s' : Run W) (d : ℕ)
      → s1.sends ≡ s.sends + 1
      → s1.sleeps ≡ s.sleeps
      → d ≤ l.budget.total
      → allows_retry l.idempotency ≡ true
      → ((ds : List ℕ) × Slept (paused d s1) s' ds)
      → (ds : List ℕ) × Slept s s' ds
  unfolding paused
  Slept-more s s1 s' d e f fits may (ds, h) = (
    ds ++ d ∷ [],
    record {
      grown = h.grown ∙ ap (λ z. ds ++ d ∷ z) f ∙ sym (append_assoc ds (d ∷ []) s.sleeps);
      bounded = All-append _ ds (d ∷ []) h.bounded (fits, tt);
      allowed = inr may;
      counted = omega (arith, h.counted, length-append ds (d ∷ []));
    },
  )

  abbrev RunsTo : ℕ → ℕ → Run W → Final × Run W → Type 0
  RunsTo n k s out = OnRun n k s out.0 out.1 × ((ds : List ℕ) × Slept s out.1 ds)

  pass-RunsTo :
      (n k : ℕ) (s s1 : Run W) (settled : Result Exception Settled)
      → n + k ≡ l.max_attempts
      → OnAttempt n s settled s1
      → ((t : Run W) → RunsTo (n + 1) k t (attempts clock send sleep l k (n + 1) t))
      → RunsTo n (suc k) s (
          then_do settled (λ v. continue clock send sleep l v (attempts clock send sleep l k) n) s1)
  unfolding pause paused
  pass-RunsTo n k s s1 (ok (terminal r)) e o rest = (
    (n, omega arith, omega arith, omega (arith, o.1), o.0, o.3),
    ([], record { grown = o.2; bounded = tt; allowed = inl refl; counted = omega (arith, o.1) }),
  )
  pass-RunsTo n k s s1 (ok (retry_in d)) e (sent, same, fits, more, may) rest =
      let (out, naps) = rest (paused d s1) in
      (
        later_pass n k s (paused d s1) _ _ sent (omega arith) out,
        Slept-more s s1 _ d sent same fits may naps,
      )
  pass-RunsTo n k s s1 (raise x) e o rest = (
    (omega arith, λ _. o.3),
    ([], record { grown = o.2; bounded = tt; allowed = inl refl; counted = omega arith }),
  )

  attempts-RunsTo :
      (k n : ℕ) (s : Run W)
      → n + k ≡ l.max_attempts + 1
      → RunsTo n k s (attempts clock send sleep l k n s)
  unfolding attempts
  attempts-RunsTo zero n s e = (
    (omega arith, λ h. absurd (omega arith)),
    ([], record { grown = refl; bounded = tt; allowed = inl refl; counted = omega arith }),
  )
  attempts-RunsTo (suc k) n s e =
      pass-RunsTo n k s _ _ (omega arith) (attempt_once-OnAttempt n s)
        (λ t. attempts-RunsTo k (n + 1) t (omega arith))

  run-RunsTo : (s : Run W) → RunsTo 1 l.max_attempts s (run clock send sleep l s)
  unfolding run
  run-RunsTo s = attempts-RunsTo l.max_attempts 1 s (omega arith)

  sends_of :
      (k : ℕ) (s : Run W) (res : Final) (s' : Run W) → OnRun 1 k s res s' → s'.sends ≤ s.sends + k
  sends_of k s (ok r) s' (m, lo, hi, count, by, end) = omega arith
  sends_of k s (raise x) s' o = o.0

  -- A run sends at most `max_attempts` times; its new sleeps are no more than its sends, each lies
  -- within the total budget, and there are none unless the policy allows a retry.
  pub run-bounds :
      (s : Run W)
      → ((run clock send sleep l s).1.sends ≤ s.sends + l.max_attempts)
        × ((ds : List ℕ) × Slept s (run clock send sleep l s).1 ds)
  run-bounds s =
      let (o, naps) = run-RunsTo s in
      (sends_of l.max_attempts s (run clock send sleep l s).0 (run clock send sleep l s).1 o, naps)

  ok_injective : (q r : RuntimeResponse) (f : Final) → f ≡ ok q → f ≡ ok r → q ≡ r
  ok_injective q r f d e = cc

  response_of :
      (k : ℕ) (s : Run W) (res : Final) (s' : Run W) (r : RuntimeResponse)
      → OnRun 1 k s res s'
      → res ≡ ok r
      → (m : ℕ) × (1 ≤ m)
        × (m ≤ k)
        × (s'.sends ≡ s.sends + m)
        × AnsweredBy r s'
        × (declines (decide_attempt l m (some r)) ≡ true)
  response_of k s (ok q) s' r (m, lo, hi, count, by, end) e = (
    m,
    lo,
    omega arith,
    omega arith,
    subst (λ z. AnsweredBy z s') (ok_injective q r (ok q) refl e) by,
    cc,
  )
  response_of k s (raise x) s' r o e = cc

  -- A returned response is that of the last call of `send`, behind which the run did nothing more;
  -- this was send number `m` of the run, `m` is at most `max_attempts`, and the retry decision for
  -- attempt `m` with this response was not to retry.
  pub run-response :
      (s : Run W) (r : RuntimeResponse)
      → (run clock send sleep l s).0 ≡ ok r
      → (m : ℕ) × (1 ≤ m)
        × (m ≤ l.max_attempts)
        × ((run clock send sleep l s).1.sends ≡ s.sends + m)
        × AnsweredBy r (run clock send sleep l s).1
        × (declines (decide_attempt l m (some r)) ≡ true)
  run-response s r = response_of l.max_attempts s _ _ r (run-RunsTo s).0

  never_exhausts :
      (k : ℕ) (s : Run W) (res : Final) (s' : Run W)
      → OnRun 1 k s res s'
      → 0 < k
      → (res ≢ raise retry_exhausted) × (res ≢ raise no_outcome)
  never_exhausts k s (ok r) s' o h = (λ e. cc, λ e. cc)
  never_exhausts k s (raise x) s' o h = let (a, b) = o.1 h in (λ e. a (cc), λ e. b (cc))

  -- With at least one attempt, a run ends neither by the `RuntimeError` after the loop nor by the
  -- `TransportError` for an attempt with no outcome: both lines are unreachable.
  pub run-never-exhausts :
      (s : Run W)
      → 0 < l.max_attempts
      → ((run clock send sleep l s).0 ≢ raise retry_exhausted)
        × ((run clock send sleep l s).0 ≢ raise no_outcome)
  run-never-exhausts s = never_exhausts l.max_attempts s _ _ (run-RunsTo s).0

  single_pass :
      (k n : ℕ) (s s1 : Run W) (settled : Result Exception Settled)
      → OnAttempt n s settled s1
      → allows_retry l.idempotency ≡ false
      → ((then_do settled
            (λ v. continue clock send sleep l v (attempts clock send sleep l k) n)
            s1).1.sends
          ≤ s.sends + 1)
        × ((then_do settled
              (λ v. continue clock send sleep l v (attempts clock send sleep l k) n)
              s1).1.sleeps
            ≡ s.sleeps)
  single_pass k n s s1 (ok (terminal r)) o h = (omega (arith, o.1), o.2)
  single_pass k n s s1 (ok (retry_in d)) o h = cc
  single_pass k n s s1 (raise x) o h = (omega arith, o.2)

  single_run :
      (k n : ℕ) (s : Run W)
      → allows_retry l.idempotency ≡ false
      → ((attempts clock send sleep l k n s).1.sends ≤ s.sends + 1)
        × ((attempts clock send sleep l k n s).1.sleeps ≡ s.sleeps)
  unfolding attempts
  single_run zero n s h = (omega arith, refl)
  single_run (suc k) n s h = single_pass k n s _ _ (attempt_once-OnAttempt n s) h

  -- Where the idempotency policy does not allow a retry, a run sends at most once and never sleeps.
  pub run-no-retry :
      (s : Run W)
      → allows_retry l.idempotency ≡ false
      → ((run clock send sleep l s).1.sends ≤ s.sends + 1)
        × ((run clock send sleep l s).1.sleeps ≡ s.sleeps)
  unfolding run
  run-no-retry s = single_run l.max_attempts 1 s
