-- ===== src/Bulk/Executor/Ends.antt =====
-- How full the workers are, and how a run ends.
use datasluice.Base.{
  ℕ, zero, suc, ◌+◌, ◌≤◌, ◌<◌, ◌≡◌, ap, ◌∙◌, refl, true, false, Option, none, some, List, [], ◌∷◌,
  ◌++◌, equatable_nat, ◌&&◌, length, arith, Bool-cases, inl, inr, ◌⊎◌, length-append, sym,
}
use mathlib.Core.List.{append_assoc, append-nil, reverse, reverse-cons}
use datasluice.Safety.{is_some}
use datasluice.Bulk.{BulkPlan}
use datasluice.Bulk.Progress.{Executor, Stream, TaskResult, is_empty}
use datasluice.Bulk.Executor.{
  submit, next_dispatchable, dispatch_available, pop_in_flight, record_sync_result, yield_ordered,
  settle_done, await_done, run_rounds,
}
use datasluice.Bulk.Executor.Counts.{length-pop}
use datasluice.Bulk.Executor.Frames.{
  next_dispatchable-Next, record-Completed, Next, in_flight-yield, pending-yield,
}
use datasluice.Bulk.Executor.Conserve.{AreInFlight, WaitsFor}
use datasluice.Bulk.Executor.Causes.{SavingFailed, rounds-IsCaused}

abbrev pub load : {W : Type 0} → Stream W → ℕ
load s = length s.progress.pending + length s.in_flight

module _ {W : Type 0} (x : Executor W) (plan : BulkPlan) where
  -- The items that a dispatch took, from the front of the pending ones, each one to a worker.
  pub record Taken (s s' : Stream W) : Type 0 where
    pub items : List ℕ
    pub from_pending : s.progress.pending ≡ items ++ s'.progress.pending
    pub to_workers : s'.in_flight ≡ s.in_flight ++ items
    pub launched : s'.dispatched ≡ reverse items ++ s.dispatched

  -- The state behind a dispatch: no more futures than allowed, the same items to settle, and either
  -- no room or nothing more to dispatch.
  pub record Dispatched (s s' : Stream W) : Type 0 where
    pub bounded : length s.in_flight ≤ x.parallelism → length s'.in_flight ≤ x.parallelism
    pub same_load : load s' ≡ load s
    pub taken : Taken s s'
    pub full :
        (s'.progress.pending ≡ [])
        ⊎ (x.parallelism ≤ length s'.in_flight)
        ⊎ (is_some s'.progress.stop_reason ≡ true)

  empty_of_length : (l : List ℕ) → length l ≤ 0 → l ≡ []
  empty_of_length [] h = refl
  empty_of_length (i ∷ l) h = absurd (omega arith)

  untouched :
      (s s' : Stream W)
      → s'.progress.pending ≡ s.progress.pending
      → s'.in_flight ≡ s.in_flight
      → s'.dispatched ≡ s.dispatched
      → Taken s s'
  untouched s s' p f d = record {
    items = [];
    from_pending = sym p;
    to_workers = f ∙ sym (append-nil s.in_flight);
    launched = d;
  }

  submitted :
      (j : ℕ) (s s' t : Stream W)
      → s.progress.pending ≡ j ∷ s'.progress.pending
      → s'.in_flight ≡ s.in_flight
      → s'.dispatched ≡ s.dispatched
      → Taken (submit x plan j s') t
      → Taken s t
  submitted j s s' t p f d k = record {
    items = j ∷ k.items;
    from_pending = p ∙ ap (λ l. j ∷ l) k.from_pending;
    to_workers =
        k.to_workers ∙ append_assoc s'.in_flight (j ∷ []) k.items ∙ ap (λ l. l ++ j ∷ k.items) f;
    launched =
        k.launched
        ∙ sym (append_assoc (reverse k.items) (j ∷ []) s'.dispatched)
        ∙ ap (λ l. (reverse k.items ++ j ∷ []) ++ l) d
        ∙ ap (λ l. l ++ s.dispatched) (sym (reverse-cons j k.items));
  }

  -- The dispatch with enough fuel.
  pub dispatch-Dispatched :
      (fuel : ℕ) (s : Stream W)
      → length s.progress.pending ≤ fuel
      → Dispatched s (dispatch_available x plan fuel s)
  unfolding dispatch_available
  dispatch-Dispatched zero s h = record {
    bounded = λ b. b;
    same_load = refl;
    taken = untouched s s refl refl refl;
    full = inl (empty_of_length s.progress.pending h);
  }
  dispatch-Dispatched (suc fuel) s h =
      go (next_dispatchable x plan s).0 (next_dispatchable x plan s).1
        (next_dispatchable-Next x plan s) (λ u. dispatch-Dispatched fuel u)
    where
      go :
          (o : Option ℕ) (s' : Stream W)
          → Next x plan s o s'
          → ((u : Stream W)
              → length u.progress.pending ≤ fuel
              → Dispatched u (dispatch_available x plan fuel u))
          → Dispatched s
              (elim o [ none ↦ s' | some j ↦ dispatch_available x plan fuel (submit x plan j s') ])
      go none s' (w, reason) rec = record {
        bounded = λ b. rw w.in_flight b;
        same_load = rw (w.pending, w.in_flight) refl;
        taken = untouched s s' w.pending w.in_flight w.dispatched;
        full = rw (w.pending, w.in_flight) reason;
      }
      go (some j) s' n rec =
          let a : length s.progress.pending ≡ suc (length s'.progress.pending) = ap length n.0 in
          let b : length (s'.in_flight ++ j ∷ []) ≡ length s.in_flight + 1 =
            length-append s'.in_flight (j ∷ []) ∙ ap (λ (l : List ℕ). length l + 1) n.3 in
          let d = rec (submit x plan j s') (omega arith) in
          record {
            bounded = λ _. d.bounded (omega (arith, n.1, b));
            same_load = omega (arith, d.same_load, a, b);
            taken =
                submitted j s s' (dispatch_available x plan fuel (submit x plan j s')) n.0 n.3 n.4
                  d.taken;
            full = d.full;
          }

  -- `_dispatch_available` fills the workers: from no more futures than `parallelism`, there are
  -- no more behind it, the items that it takes from the front of the pending ones are those that go
  -- to the workers, in that order and each once, and items are left pending only if the workers are
  -- full or the run has to stop.
  pub dispatch_fills :
      (s : Stream W)
      → length s.in_flight ≤ x.parallelism
      → let s' = dispatch_available x plan (length s.progress.pending) s in
        (length s'.in_flight ≤ x.parallelism)
        × Taken s s'
        × ((s'.progress.pending ≡ [])
            ⊎ (x.parallelism ≤ length s'.in_flight)
            ⊎ (is_some s'.progress.stop_reason ≡ true))
  dispatch_fills s room =
      let d = dispatch-Dispatched (length s.progress.pending) s (omega arith) in
      (d.bounded room, d.taken, d.full)

  settled_state : ℕ → TaskResult → Stream W → Stream W
  settled_state j r s =
      let s' =
        record_sync_result x plan j r
          (record s { in_flight = pop_in_flight x plan j s.in_flight }) in
      yield_ordered x plan (length s'.progress.completed) s'

  settled_state-fields :
      (j : ℕ) (r : TaskResult) (s : Stream W)
      → ((settled_state j r s).in_flight ≡ pop_in_flight x plan j s.in_flight)
        × ((settled_state j r s).progress.pending ≡ s.progress.pending)
  unfolding settled_state
  settled_state-fields j r s =
      let s1 : Stream W = record s { in_flight = pop_in_flight x plan j s.in_flight } in
      let s' = record_sync_result x plan j r s1 in
      let w = record-Completed x plan j r s1 in
      (
        in_flight-yield x plan (length s'.progress.completed) s' ∙ w.in_flight,
        pending-yield x plan (length s'.progress.completed) s' ∙ w.pending,
      )

  settle-load :
      (done : List (ℕ × TaskResult)) (s : Stream W)
      → AreInFlight x plan done s.in_flight
      → is_some (settle_done x plan done s).failure ≡ false
      → load (settle_done x plan done s) + length done ≡ load s
  unfolding settle_done settled_state
  settle-load [] s v h = omega arith
  settle-load ((j, r) ∷ done) s (c, v) h =
      let (a, b) = settled_state-fields j r s in
      let u =
        record_sync_result x plan j r
          (record s { in_flight = pop_in_flight x plan j s.in_flight }) in
      elim (Bool-cases (is_some u.failure)) [
        | inl broken ↦ cc
        | inr fine ↦
            let same : settle_done x plan ((j, r) ∷ done) s
                ≡ settle_done x plan done (settled_state j r s) =
              rw (fine, settle_done) refl in
            omega (
              arith,
              ap load same,
              settle-load done (settled_state j r s) (rw a v)
                  (ap (λ (q : Stream W). is_some q.failure) (sym same) ∙ h),
              ap length a,
              ap length b,
              length-pop x plan j s.in_flight c,
            )
      ]

  length-pos : (l : List (ℕ × TaskResult)) → is_empty l ≡ false → 1 ≤ length l
  length-pos [] h = cc
  length-pos (e ∷ l) h = omega arith

  -- Nothing is in flight, and what is still pending is so because the run was stopped.
  abbrev pub Ended : Stream W → Type 0
  Ended s =
      (s.in_flight ≡ []) × ((s.progress.pending ≡ []) ⊎ (is_some s.progress.stop_reason ≡ true))

  nil_of_empty : (l : List ℕ) → is_empty l ≡ true → l ≡ []
  nil_of_empty [] h = refl
  nil_of_empty (i ∷ l) h = cc

  idle_end :
      (s s' : Stream W)
      → 1 ≤ x.parallelism
      → Dispatched s s'
      → is_empty s'.in_flight ≡ true
      → Ended s'
  idle_end s s' one d idle =
      let e = nil_of_empty s'.in_flight idle in
      (
        e,
        elim d.full [
          | inl done ↦ inl done
          | inr (inl full) ↦ absurd (omega (arith, ap length e))
          | inr (inr stop) ↦ inr stop
        ],
      )

  pub rounds-quiet :
      1 ≤ x.parallelism
      → WaitsFor x plan
      → (fuel : ℕ) (s : Stream W) → load s < fuel
      → is_some (run_rounds x plan fuel s).failure ≡ false
      → Ended (run_rounds x plan fuel s)
  unfolding run_rounds
  rounds-quiet one ws zero s m = absurd (omega arith)
  rounds-quiet one ws (suc fuel) s m =
      elim (Bool-cases (is_empty s.progress.pending && is_empty s.in_flight)) [
        | inl over ↦ rw over (λ h. (
          nil_of_empty s.in_flight (ground arith),
          inl (nil_of_empty s.progress.pending (ground arith)),
        ))
        | inr more ↦
            let s' = dispatch_available x plan (length s.progress.pending) s in
            let d = dispatch-Dispatched (length s.progress.pending) s (omega arith) in
            rw more (elim (Bool-cases (is_empty s'.in_flight)) [
              | inl idle ↦ rw idle (λ h. idle_end s s' one d idle)
              | inr busy ↦
                  let (v, some_done) = ws.waits s'.in_flight s'.world busy in
                  let done = (x.wait s'.in_flight s'.world).0 in
                  let s'' : Stream W = record s' { world = (x.wait s'.in_flight s'.world).1 } in
                  rw busy (elim (Bool-cases (is_some (await_done x plan s').failure)) [
                    | inl broken ↦ rw broken (λ h. cc)
                    | inr fine ↦ rw fine (
                        rounds-quiet one ws fuel (await_done x plan s') (
                          omega (
                            arith,
                            settle-load done s'' v fine,
                            d.same_load,
                            length-pos done some_done,
                          )))
                  ])
            ])
      ]

  -- With a positive bound on the workers, `WaitsFor` and no exception before, the loop ends within
  -- as many rounds as there are items to settle, and one more: with the exception of a checkpoint
  -- that could not be saved, or with nothing in flight and no item pending unless the run was
  -- stopped.
  pub rounds-Ended :
      1 ≤ x.parallelism
      → WaitsFor x plan
      → (fuel : ℕ) (s : Stream W) → load s < fuel
      → is_some s.failure ≡ false
      → SavingFailed x plan (run_rounds x plan fuel s) ⊎ Ended (run_rounds x plan fuel s)
  rounds-Ended one ws fuel s m h = elim (rounds-IsCaused x plan fuel s h) [
    | inr broken ↦ inl broken
    | inl fine ↦ inr (rounds-quiet one ws fuel s m fine)
  ]
