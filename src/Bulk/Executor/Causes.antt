-- ===== src/Bulk/Executor/Causes.antt =====
-- Why a run of `stream` ends with an exception: the loop raises only where it saves a checkpoint.
use datasluice.Base.{
  arith, ℕ, zero, suc, ◌≡◌, ap, ◌∙◌, refl, true, false, Bool, not, Option, none, some, List, [],
  ◌∷◌, equatable_nat, ◌&&◌, length, Bool-cases, Option-cases, inl, inr, ◌⊎◌,
}
use datasluice.Base.Dict
use datasluice.Base.Exec.{Result}
use datasluice.Errors.{Exception}
use datasluice.Safety.{is_some}
use datasluice.Bulk.{BulkPlan, BulkCheckpoint}
use datasluice.Bulk.Progress.{Executor, Stream, TaskResult, is_empty, is_cancelled}
use datasluice.Bulk.Executor.{
  result_of, submit, next_dispatchable, dispatch_available, pop_in_flight, record_completed,
  record_sync_result, yield_one, yield_ordered, settle_done, await_done, run_rounds, persist, save,
  sunk, build_checkpoint, mark_persisted, refresh_stop_state, finish_progress, unsaved,
  completed_with, pop_pending,
}

module _ {W : Type 0} (x : Executor W) (plan : BulkPlan) where
  abbrev error_of : Option (Result Exception BulkCheckpoint) → W → Option Exception
  error_of none w = none
  error_of (some built) w = (sunk x plan built w).0

  -- The run ended with the exception of an attempt to save the items that were completed: that of
  -- the checkpoint's constructor, or that of the sink.
  pub record SavingFailed (s : Stream W) : Type 0 where
    pub raises : is_some s.failure ≡ true
    pub cancelling : Bool
    pub before : W
    pub same : s.failure ≡ error_of (build_checkpoint x plan s.progress.completed cancelling) before

  abbrev pub IsCaused : Stream W → Type 0
  IsCaused s = (is_some s.failure ≡ false) ⊎ SavingFailed s

  save-IsCaused :
      (o : Option (Result Exception BulkCheckpoint)) (b : Bool) (s : Stream W)
      → build_checkpoint x plan s.progress.completed b ≡ o
      → is_some s.failure ≡ false
      → IsCaused (save x plan o s)
  save-IsCaused none b s e h = inl h
  save-IsCaused (some c) b s e h = elim (Bool-cases (is_some (sunk x plan c s.world).0)) [
    | inl broken ↦
        inr (record { raises = broken; cancelling = b; before = s.world; same = rw e refl })
    | inr fine ↦ inl fine
  ]

  persist-IsCaused :
      (b : Bool) (s : Stream W) → is_some s.failure ≡ false → IsCaused (persist x plan b s)
  unfolding persist
  persist-IsCaused b s h = save-IsCaused _ b s refl h

  mark-IsCaused : (s : Stream W) → IsCaused s → IsCaused (mark_persisted x plan s)
  mark-IsCaused s (inl fine) = rw fine (inl fine)
  mark-IsCaused s (inr broken) = rw broken.raises (inr broken)

  refresh-failure : (b : Bool) (s : Stream W) → (refresh_stop_state x plan b s).failure ≡ s.failure
  unfolding refresh_stop_state
  refresh-failure b s = elim (Bool-cases (is_some s.progress.stop_reason)) [
    | inl e ↦ rw e refl
    | inr e ↦ rw e refl
  ]

  record-IsCaused :
      (i : ℕ) (r : TaskResult) (s : Stream W)
      → is_some s.failure ≡ false
      → IsCaused (record_sync_result x plan i r s)
  unfolding record_sync_result record_completed
  record-IsCaused i r s h =
      let a = record_completed x plan i (result_of x plan i r) s in
      let e =
        refresh-failure (not (is_empty s.progress.pending))
          (completed_with x plan i (result_of x plan i r) s) in
      mark-IsCaused (persist x plan (is_cancelled a.progress.stop_reason) a)
        (persist-IsCaused (is_cancelled a.progress.stop_reason) a (ap is_some e ∙ h))

  pub yield-failure : (fuel : ℕ) (s : Stream W) → (yield_ordered x plan fuel s).failure ≡ s.failure
  unfolding yield_ordered
  yield-failure zero s = refl
  yield-failure (suc fuel) s =
      elim (Option-cases (Dict.get s.progress.completed s.progress.next_emit)) [
        | inl e ↦ rw (e, yield_ordered) refl
        | inr (r, e) ↦ rw (e, yield_ordered) (yield-failure fuel (yield_one x plan r s))
      ]

  settle-IsCaused :
      (done : List (ℕ × TaskResult)) (s : Stream W)
      → is_some s.failure ≡ false
      → IsCaused (settle_done x plan done s)
  unfolding settle_done
  settle-IsCaused [] s h = inl h
  settle-IsCaused ((i, r) ∷ done) s h =
      let s1 : Stream W = record s { in_flight = pop_in_flight x plan i s.in_flight } in
      let s' = record_sync_result x plan i r s1 in
      elim (Bool-cases (is_some s'.failure)) [
        | inl broken ↦ rw (broken, settle_done) (record-IsCaused i r s1 h)
        | inr fine ↦
            rw (fine, settle_done)
              (settle-IsCaused done (yield_ordered x plan (length s'.progress.completed) s')
                (ap is_some (yield-failure (length s'.progress.completed) s') ∙ fine))
      ]

  pop-failure :
      (pending : List ℕ) (s : Stream W) → (pop_pending x plan pending s).1.failure ≡ s.failure
  pop-failure [] s = refl
  pop-failure (i ∷ rest) s = refl

  next-failure : (s : Stream W) → (next_dispatchable x plan s).1.failure ≡ s.failure
  unfolding next_dispatchable
  next-failure s = ground (arith, pop-failure s.progress.pending)

  dispatch-failure :
      (fuel : ℕ) (s : Stream W) → (dispatch_available x plan fuel s).failure ≡ s.failure
  unfolding dispatch_available
  dispatch-failure zero s = refl
  dispatch-failure (suc fuel) s =
      go (next_dispatchable x plan s).0 (next_dispatchable x plan s).1 (next-failure s)
        (λ u. dispatch-failure fuel u)
    where
      go :
          (o : Option ℕ) (s' : Stream W)
          → s'.failure ≡ s.failure
          → ((u : Stream W) → (dispatch_available x plan fuel u).failure ≡ u.failure)
          → (elim o as (λ _. Stream W) [
            | none ↦ s'
            | some j ↦ dispatch_available x plan fuel (submit x plan j s')
          ]).failure
            ≡ s.failure
      go none s' e rec = e
      go (some j) s' e rec = rec (submit x plan j s') ∙ e

  pub rounds-IsCaused :
      (fuel : ℕ) (s : Stream W) → is_some s.failure ≡ false → IsCaused (run_rounds x plan fuel s)
  unfolding run_rounds
  rounds-IsCaused zero s h = inl h
  rounds-IsCaused (suc fuel) s h =
      elim (Bool-cases (is_empty s.progress.pending && is_empty s.in_flight)) [
        | inl over ↦ rw over (inl h)
        | inr more ↦
            let s' = dispatch_available x plan (length s.progress.pending) s in
            let h' = ap is_some (dispatch-failure (length s.progress.pending) s) ∙ h in
            rw more (elim (Bool-cases (is_empty s'.in_flight)) [
              | inl idle ↦ rw idle (inl h')
              | inr busy ↦
                  let t : IsCaused (await_done x plan s') =
                    settle-IsCaused (x.wait s'.in_flight s'.world).0
                      (record s' { world = (x.wait s'.in_flight s'.world).1 }) h' in
                  rw busy (elim (Bool-cases (is_some (await_done x plan s').failure)) [
                    | inl broken ↦ rw broken t
                    | inr fine ↦ rw fine (rounds-IsCaused fuel (await_done x plan s') fine)
                  ])
            ])
      ]

  pub finish-IsCaused :
      (s : Stream W) → is_some s.failure ≡ false → IsCaused (finish_progress x plan s)
  unfolding finish_progress
  finish-IsCaused s h =
      let s' = refresh_stop_state x plan false s in
      let h' = ap is_some (refresh-failure false s) ∙ h in
      elim (Bool-cases (unsaved x plan s'.progress)) [
        | inl t ↦ rw t (persist-IsCaused (is_cancelled s'.progress.stop_reason) s' h')
        | inr f ↦ rw f (inl h')
      ]
