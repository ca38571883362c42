-- ===== src/Mutation/Laws.antt =====
-- When a mutation is dispatched, how often, and what its receipts say.
use datasluice.Base.{
  ◌+◌, ◌∙◌, ◌≤◌, ◌<◌, ◌≡◌, refl, Bool, true, false, Option, none, some, arith, ◌⊎◌, inl, inr,
  Bool-cases, ltb, String, if◌then◌else◌,
}
use datasluice.Base.Exec.{Exec, Result, ok, raise, then_do}
use datasluice.Errors.{Exception, rejected_request}
use datasluice.Json.{Members, put_member, bool}
use datasluice.Safety.{
  IdempotencyPolicy, MutationPolicy, is_confirmed, allows_retry, mutation_allows,
}
use datasluice.Catalog.{
  CatalogId, OperationId, Outcome, succeeded, skipped, failed, MutationReceipt,
}
use datasluice.Resilience.Budget.{DeadlineMonitor, make_monitor, assert_dispatchable}
use datasluice.Resilience.Retry.{RuntimeResponse, RetryLoop, make_loop, Run, run, tick}
use datasluice.Resilience.Retry.Laws.{run-bounds, run-response, run-no-retry}
use datasluice.Mutation.{
  MutationDispatchRequest, Enforcer, Setup, is_permitted, has_instruction, dispatch_request,
  is_ok_status, make_receipt, dispatch_mutation, conclude, dispatch_and_record, execute_permitted,
  execute, checked_response, keep_receipt, receipt_with,
}

module _ {W : Type 0} (u : Setup W) where
  -- How many sends a dispatch makes, by its result.
  record Sends (p : IdempotencyPolicy) (t : Run W) (res : Result Exception RuntimeResponse)
      (t' : Run W) : Type 0 where
    bounded : t'.sends ≤ t.sends + u.max_attempts
    once : allows_retry p ≡ false → t'.sends ≤ t.sends + 1
    some_sent : (r : RuntimeResponse) → res ≡ ok r → t.sends + 1 ≤ t'.sends

  abbrev loop_of : IdempotencyPolicy → DeadlineMonitor → RetryLoop
  loop_of p d = record {
    budget = u.budget;
    idempotency = p;
    deadline = d;
    max_attempts = u.max_attempts;
  }

  run-Sends :
      (q : MutationDispatchRequest) (p : IdempotencyPolicy) (d : DeadlineMonitor) (t : Run W)
      → Sends p t
          (run u.clock (u.send q) u.sleep (loop_of p d) t).0
          (run u.clock (u.send q) u.sleep (loop_of p d) t).1
  run-Sends q p d t = record {
    bounded = (run-bounds u.clock (u.send q) u.sleep (loop_of p d) t).0;
    once = λ h. (run-no-retry u.clock (u.send q) u.sleep (loop_of p d) t h).0;
    some_sent = λ r e.
        let (m, lo, hi, count, _, _) =
          run-response u.clock (u.send q) u.sleep (loop_of p d) t r e in
        omega arith;
  }

  checked-Sends :
      (p : IdempotencyPolicy) (t t' : Run W) (res : Result Exception RuntimeResponse)
      → Sends p t res t'
      → Sends p t (then_do res (checked_response u) t').0 (then_do res (checked_response u) t').1
  checked-Sends p t t' (ok r) s = elim (Bool-cases (is_ok_status r.status_code)) [
    | inl good ↦
        rw good
          (record { bounded = s.bounded; once = s.once; some_sent = λ q e. s.some_sent r refl })
    | inr bad ↦ rw bad (record { bounded = s.bounded; once = s.once; some_sent = λ q e. cc })
  ]
  checked-Sends p t t' (raise x) s = record {
    bounded = s.bounded;
    once = s.once;
    some_sent = λ q e. cc;
  }

  dispatch_mutation-Sends :
      (q : MutationDispatchRequest) (p : IdempotencyPolicy) (d : DeadlineMonitor) (t : Run W)
      → Sends p t (dispatch_mutation u q p d t).0 (dispatch_mutation u q p d t).1
  unfolding dispatch_mutation make_loop
  dispatch_mutation-Sends q p d t = elim (Bool-cases (ltb u.max_attempts 1)) [
    | inl none_left ↦
        rw none_left
          (record { bounded = omega arith; once = λ h. omega arith; some_sent = λ r e. cc })
    | inr enough ↦ rw enough (checked-Sends p t _ _ (run-Sends q p d t))
  ]

  -- What is left in the enforcer, by the result of the call.
  abbrev pub Records :
      MutationPolicy → Enforcer W → Result Exception MutationReceipt → Enforcer W → Type 0
  Records p s (ok r) s' =
      (s'.last_receipt ≡ some r)
      × ((r.outcome ≡ skipped)
            × (p.dry_run.requested ≡ true)
            × (s'.dispatches.sends ≡ s.dispatches.sends)
          ⊎ (r.outcome ≡ succeeded)
            × (p.dry_run.requested ≡ false)
            × (s.dispatches.sends < s'.dispatches.sends))
  Records p s (raise x) s' =
      (s'.last_receipt ≡ s.last_receipt)
      ⊎ ((r : MutationReceipt) × (s'.last_receipt ≡ some r) × (r.outcome ≡ failed))

  pub record Executed (p : MutationPolicy) (s : Enforcer W) (res : Result Exception MutationReceipt)
      (s' : Enforcer W) : Type 0 where
    pub bounded : s'.dispatches.sends ≤ s.dispatches.sends + u.max_attempts
    pub once : allows_retry p.idempotency ≡ false → s'.dispatches.sends ≤ s.dispatches.sends + 1
    pub dry : p.dry_run.requested ≡ true → s'.dispatches.sends ≡ s.dispatches.sends
    pub recorded : Records p s res s'

  -- A receipt was kept, or nothing was.
  abbrev Kept : Outcome → Enforcer W → Result Exception MutationReceipt → Enforcer W → Type 0
  Kept out s (ok r) s' =
      (s'.dispatches ≡ s.dispatches) × (s'.last_receipt ≡ some r) × (r.outcome ≡ out)
  Kept out s (raise x) s' =
      (s'.dispatches ≡ s.dispatches) × (s'.last_receipt ≡ s.last_receipt) × Unit {0}

  build-Kept :
      (o : OperationId) (c : CatalogId) (p : MutationPolicy) (out : Outcome)
      (m : Result Exception Members) (s : Enforcer W)
      → Kept out s
          (keep_receipt u (receipt_with u o c p out m) s).0
          (keep_receipt u (receipt_with u o c p out m) s).1
  build-Kept o c p out (ok m) s = (refl, refl, refl)
  build-Kept o c p out (raise x) s = (refl, refl, tt)

  make_receipt-Kept :
      (o : OperationId) (c : CatalogId) (p : MutationPolicy) (out : Outcome) (m : Members)
      (s : Enforcer W)
      → Kept out s (make_receipt u o c p out m s).0 (make_receipt u o c p out m s).1
  unfolding make_receipt
  make_receipt-Kept o c p out m s = build-Kept o c p out (u.freeze (u.redact m)) s

  skip-Executed :
      (p : MutationPolicy) (s : Enforcer W) (res : Result Exception MutationReceipt)
      (s' : Enforcer W)
      → p.dry_run.requested ≡ true
      → Kept skipped s res s'
      → Executed p s res s'
  skip-Executed p s (ok r) s' d (a, b, c) = record {
    bounded = rw a (omega arith);
    once = λ h. rw a (omega arith);
    dry = λ h. rw a;
    recorded = (b, inl (c, d, rw a));
  }
  skip-Executed p s (raise x) s' d (a, b, _) = record {
    bounded = rw a (omega arith);
    once = λ h. rw a (omega arith);
    dry = λ h. rw a;
    recorded = inl b;
  }

  -- The receipt after a dispatch that succeeded, and after one that failed.
  success-Executed :
      (p : MutationPolicy) (s : Enforcer W) (t' : Run W) (response : RuntimeResponse)
      (res : Result Exception MutationReceipt) (s' : Enforcer W)
      → p.dry_run.requested ≡ false
      → Sends p.idempotency s.dispatches (ok response) t'
      → Kept succeeded (record s { dispatches = t' }) res s'
      → Executed p s res s'
  success-Executed p s t' response (ok r) s' d n (a, b, c) = record {
    bounded = rw a n.bounded;
    once = λ h. rw a (n.once h);
    dry = λ h. cc;
    recorded = (b, inr (c, d, rw a (omega (arith, n.some_sent response refl))));
  }
  success-Executed p s t' response (raise x) s' d n (a, b, _) = record {
    bounded = rw a n.bounded;
    once = λ h. rw a (n.once h);
    dry = λ h. cc;
    recorded = inl b;
  }

  failure-Executed :
      (p : MutationPolicy) (s : Enforcer W) (t' : Run W) (x : Exception)
      (built : Result Exception MutationReceipt) (s' : Enforcer W)
      → p.dry_run.requested ≡ false
      → Sends p.idempotency s.dispatches (raise x) t'
      → Kept failed (record s { dispatches = t' }) built s'
      → Executed p s (raise x) s'
  failure-Executed p s t' x (ok r) s' d n (a, b, c) = record {
    bounded = rw a n.bounded;
    once = λ h. rw a (n.once h);
    dry = λ h. cc;
    recorded = inr (r, b, c);
  }
  failure-Executed p s t' x (raise y) s' d n (a, b, _) = record {
    bounded = rw a n.bounded;
    once = λ h. rw a (n.once h);
    dry = λ h. cc;
    recorded = inl b;
  }

  conclude-Executed :
      (o : OperationId) (c : CatalogId) (p : MutationPolicy) (m : Members) (s : Enforcer W)
      (t' : Run W) (res : Result Exception RuntimeResponse)
      → p.dry_run.requested ≡ false
      → Sends p.idempotency s.dispatches res t'
      → Executed p s
          (conclude u o c p m res (record s { dispatches = t' })).0
          (conclude u o c p m res (record s { dispatches = t' })).1
  unfolding conclude
  conclude-Executed o c p m s t' (ok response) d n =
      success-Executed p s t' response _ _ d n
        (make_receipt-Kept o c p succeeded m (record s { dispatches = t' }))
  conclude-Executed o c p m s t' (raise x) d n =
      failure-Executed p s t' x _ _ d n
        (make_receipt-Kept o c p failed m (record s { dispatches = t' }))

  -- Steps before the dispatch that send nothing.
  before :
      (p : MutationPolicy) (s s1 : Enforcer W) (res : Result Exception MutationReceipt)
      (s' : Enforcer W)
      → s1.dispatches.sends ≡ s.dispatches.sends
      → s1.last_receipt ≡ s.last_receipt
      → Executed p s1 res s'
      → Executed p s res s'
  before p s s1 (ok r) s' e f x = record {
    bounded = omega (arith, e, x.bounded);
    once = λ h. omega (arith, e, x.once h);
    dry = λ h. x.dry h ∙ e;
    recorded = rw e at x.recorded;
  }
  before p s s1 (raise y) s' e f x = record {
    bounded = omega (arith, e, x.bounded);
    once = λ h. omega (arith, e, x.once h);
    dry = λ h. x.dry h ∙ e;
    recorded = rw f at x.recorded;
  }

  abbrev Action : Type 0
  Action = Exec (Enforcer W) Exception MutationReceipt

  if_Executed :
      (p : MutationPolicy) (s : Enforcer W) (b : Bool) (yes_branch no_branch : Action)
      → (b ≡ true → Executed p s (yes_branch s).0 (yes_branch s).1)
      → (b ≡ false → Executed p s (no_branch s).0 (no_branch s).1)
      → Executed p s
          ((if b then yes_branch else no_branch) s).0
          ((if b then yes_branch else no_branch) s).1
  if_Executed p s true y n h k = h refl
  if_Executed p s false y n h k = k refl

  nothing_sent :
      (p : MutationPolicy) (s s1 : Enforcer W) (x : Exception)
      → s1.dispatches.sends ≡ s.dispatches.sends
      → s1.last_receipt ≡ s.last_receipt
      → Executed p s (raise x) s1
  nothing_sent p s s1 x e f = record {
    bounded = omega arith;
    once = λ h. omega arith;
    dry = λ h. e;
    recorded = inl f;
  }

  -- The dispatch behind a deadline that was checked, or not passed.
  named-Executed :
      (o : OperationId) (c : CatalogId) (p : MutationPolicy) (m : Members) (s s1 : Enforcer W)
      (checked : Result Exception DeadlineMonitor)
      → p.dry_run.requested ≡ false
      → s1.dispatches.sends ≡ s.dispatches.sends
      → s1.last_receipt ≡ s.last_receipt
      → Executed p s
          (then_do checked (dispatch_and_record u o c p m) s1).0
          (then_do checked (dispatch_and_record u o c p m) s1).1
  unfolding dispatch_and_record
  named-Executed o c p m s s1 (ok d) dry e f = before p s s1 _ _ e f (
      conclude-Executed o c p m s1 _ _ dry
        (dispatch_mutation-Sends (dispatch_request o c p) p.idempotency d s1.dispatches))
  named-Executed o c p m s s1 (raise x) dry e f = nothing_sent p s s1 x e f

  assert-sends :
      (d : DeadlineMonitor) (a b : Option String) (t : Run W)
      → (assert_dispatchable (tick u.clock) d a b t).1.sends ≡ t.sends
  unfolding assert_dispatchable
  assert-sends d a b t = ground arith

  execute_permitted-Executed :
      (o : OperationId) (c : CatalogId) (p : MutationPolicy) (m : Members) (s : Enforcer W)
      → Executed p s (execute_permitted u o c p m s).0 (execute_permitted u o c p m s).1
  unfolding execute_permitted make_monitor
  execute_permitted-Executed o c p m s =
      if_Executed p s p.dry_run.requested _ _
        (λ d.
          skip-Executed p s _ _ d
            (make_receipt-Kept o c p skipped (put_member "dry_run" (bool true) m) s))
        (λ d.
          let monitor : DeadlineMonitor = record {
            budget = u.budget;
            started_at = (tick u.clock s.dispatches).0;
            operation = none;
            platform = none;
          } in
          let t : Run W = (tick u.clock s.dispatches).1 in
          let checked =
            assert_dispatchable (tick u.clock) monitor (some (u.show o)) (some o.platform) t in
          named-Executed o c p m s (record s { dispatches = checked.1 }) checked.0 d
            (assert-sends monitor (some (u.show o)) (some o.platform) t) refl)

  -- Every execution under a policy.
  pub execute-Executed :
      (o : OperationId) (c : CatalogId) (p : MutationPolicy) (m : Members) (s : Enforcer W)
      → Executed p s (execute u o c (some p) m s).0 (execute u o c (some p) m s).1
  unfolding execute
  execute-Executed o c p m s =
      if_Executed p s (is_permitted p) _ _ (λ h. execute_permitted-Executed o c p m s)
        (λ h. nothing_sent p s s rejected_request refl refl)

  -- An execution under a policy sends at most `max_attempts` times, and at most once where the
  -- policy does not allow a retry; on a dry run it sends nothing. A returned receipt is the last
  -- one kept; it says `skipped` for a dry run and `succeeded` only after a send. After an
  -- exception the last receipt is the one before, or says `failed`.
  pub execute-Records :
      (o : OperationId) (c : CatalogId) (p : MutationPolicy) (m : Members) (s : Enforcer W)
      → let out = execute u o c (some p) m s in
        (out.1.dispatches.sends
          ≤ s.dispatches.sends + (if allows_retry p.idempotency then u.max_attempts else 1))
        × ((p.dry_run.requested ≡ false) ⊎ (out.1.dispatches.sends ≡ s.dispatches.sends))
        × Records p s out.0 out.1
  execute-Records o c p m s =
      let e = execute-Executed o c p m s in
      (
        elim (Bool-cases (allows_retry p.idempotency)) [
          | inl may ↦ rw may e.bounded
          | inr once ↦ rw once (e.once once)
        ],
        elim (Bool-cases p.dry_run.requested) [ inl dry ↦ inr (e.dry dry) | inr live ↦ inl live ],
        e.recorded,
      )

  permitted_parts :
      (p : MutationPolicy)
      → is_permitted p ≡ true
      → ((p.destructive ≡ false) ⊎ (is_confirmed p.confirmation ≡ true))
        × (has_instruction p.concurrency ≡ true)
  unfolding is_permitted mutation_allows
  permitted_parts p h = ground arith

  -- Nothing is sent unless there is a policy that confirms a destructive mutation, names a
  -- version token or an explicit overwrite, and asks for no dry run; else the state is as before
  -- or only the receipt of a dry run is new.
  pub sent-Confirmed :
      (o : OperationId) (c : CatalogId) (given : Option MutationPolicy) (m : Members)
      (s : Enforcer W)
      → s.dispatches.sends < (execute u o c given m s).1.dispatches.sends
      → (p : MutationPolicy) × (given ≡ some p)
        × ((p.destructive ≡ false) ⊎ (is_confirmed p.confirmation ≡ true))
        × (has_instruction p.concurrency ≡ true)
        × (p.dry_run.requested ≡ false)
  unfolding execute
  sent-Confirmed o c none m s h = absurd (omega arith)
  sent-Confirmed o c (some p) m s h = elim (Bool-cases (is_permitted p)) [
    | inl good ↦
        let (a, b) = permitted_parts p good in
        let x = execute-Executed o c p m s in
        (
          p,
          refl,
          a,
          b,
          elim (Bool-cases p.dry_run.requested) [
            | inl dry ↦ absurd (omega (arith, x.dry dry))
            | inr live ↦ live
          ],
        )
    | inr bad ↦ absurd (omega (arith, (rw bad at h)))
  ]
