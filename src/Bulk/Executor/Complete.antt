-- ===== src/Bulk/Executor/Complete.antt =====
-- What a run of `stream` that is not stopped has yielded.
use datasluice.Base.{
  ℕ, zero, suc, ◌+◌, ◌≤◌, ◌<◌, ◌≡◌, ap, sym, ◌∙◌, refl, Bool, true, false, map, equatable_nat,
  length, arith, Bool-cases, inl, inr, ◌⊎◌, if◌then◌else◌, ltb, Option-cases,
}
use mathlib.Core.Path.{subst}
use datasluice.Base.Dict
use datasluice.Base.Exec.{ok}
use datasluice.Safety.{is_some}
use datasluice.Bulk.{BulkPlan, BulkItemReceipt, validate_plan}
use datasluice.Bulk.Progress.{Executor, Stream, range_from, is_cancelled}
use datasluice.Bulk.Executor.{
  stream, yield_one, yield_ordered, finish_progress, refresh_stop_state, unsaved, persist,
  build_checkpoint,
}
use datasluice.Bulk.Executor.Counts.{count, has, le-length_of_all}
use datasluice.Bulk.Executor.Frames.{finish-SameWork}
use datasluice.Bulk.Executor.Causes.{SavingFailed}
use datasluice.Bulk.Executor.Conserve.{WaitsFor}
use datasluice.Bulk.Executor.Order.{IsOrdered, yield-IsOrdered}
use datasluice.Bulk.Executor.Runs.{
  Resumes, looped, last, last-Tracks, last-IsOrdered, looped-Ended, in_loop, in_last, at_end,
  run-Finish, failed_of, looped-IsCaused, last-SavingFailed, stream-validated,
}

module _ {W : Type 0} (x : Executor W) (plan : BulkPlan) where
  refresh-stopped :
      (b : Bool) (s : Stream W)
      → is_some s.progress.stop_reason ≡ true
      → refresh_stop_state x plan b s ≡ s
  unfolding refresh_stop_state
  refresh-stopped b s h = ground arith

  persist-stop :
      (b : Bool) (s : Stream W) → (persist x plan b s).progress.stop_reason ≡ s.progress.stop_reason
  unfolding persist
  persist-stop b s = elim (Option-cases (build_checkpoint x plan s.progress.completed b)) [
    | inl e ↦ rw e refl
    | inr (c, e) ↦ rw e refl
  ]

  -- A run that was stopped stays so.
  finish-stopped :
      (s : Stream W)
      → is_some s.progress.stop_reason ≡ true
      → is_some (finish_progress x plan s).progress.stop_reason ≡ true
  unfolding finish_progress
  finish-stopped s h =
      let s' = refresh_stop_state x plan false s in
      let e : s' ≡ s = refresh-stopped false s h in
      let stopped = ap (λ (u : Stream W). is_some u.progress.stop_reason) e ∙ h in
      elim (Bool-cases (unsaved x plan s'.progress)) [
        | inl t ↦
            rw t (ap is_some (persist-stop (is_cancelled s'.progress.stop_reason) s') ∙ stopped)
        | inr f ↦ rw f stopped
      ]

  yield-stop :
      (fuel : ℕ) (s : Stream W)
      → (yield_ordered x plan fuel s).progress.stop_reason ≡ s.progress.stop_reason
  unfolding yield_ordered
  yield-stop zero s = refl
  yield-stop (suc fuel) s =
      elim (Option-cases (Dict.get s.progress.completed s.progress.next_emit)) [
        | inl e ↦ rw (e, yield_ordered) refl
        | inr (r, e) ↦ rw (e, yield_ordered) (yield-stop fuel (yield_one x plan r s))
      ]

  yield-completed :
      (fuel : ℕ) (s : Stream W)
      → (yield_ordered x plan fuel s).progress.completed ≡ s.progress.completed
  unfolding yield_ordered
  yield-completed zero s = refl
  yield-completed (suc fuel) s =
      elim (Option-cases (Dict.get s.progress.completed s.progress.next_emit)) [
        | inl e ↦ rw (e, yield_ordered) refl
        | inr (r, e) ↦ rw (e, yield_ordered) (yield-completed fuel (yield_one x plan r s))
      ]

  -- The emission goes on to the first gap, or as far as it was let.
  yield-to_gap :
      (fuel : ℕ) (s : Stream W)
      → (is_some (Dict.get s.progress.completed (yield_ordered x plan fuel s).progress.next_emit)
          ≡ false)
        ⊎ (s.progress.next_emit + fuel ≤ (yield_ordered x plan fuel s).progress.next_emit)
  unfolding yield_ordered
  yield-to_gap zero s = inr (omega arith)
  yield-to_gap (suc fuel) s =
      elim (Option-cases (Dict.get s.progress.completed s.progress.next_emit)) [
        | inl e ↦ rw (e, yield_ordered) (inl (ap is_some e))
        | inr (r, e) ↦
            rw (e, yield_ordered)
              (elim (yield-to_gap fuel (yield_one x plan r s)) [
                | inl gap ↦ inl gap
                | inr far ↦ inr (omega arith)
              ])
      ]

  emit_all :
      (n next : ℕ) (d : Dict.Dict ℕ BulkItemReceipt)
      → ((i : ℕ) → has i d ≡ (if ltb i n then 1 else 0))
      → ((k : ℕ) → k < next → is_some (Dict.get d k) ≡ true)
      → (is_some (Dict.get d next) ≡ false) ⊎ ((low : ℕ) × (low + length d ≤ next))
      → next ≡ n
  emit_all n next d all emitted stopped =
      let upper : next ≤ n = elim (Bool-cases (ltb n next)) [
        | inl over ↦ ground (arith, all n, emitted n (ground arith))
        | inr fine ↦ ground arith
      ] in
      let lower : n ≤ next = elim stopped [
        | inl gap ↦ ground (arith, all next)
        | inr (low, far) ↦ omega (arith, le-length_of_all n d (λ i lt. ground (arith, all i)))
      ] in
      omega (arith, upper, lower)

  reached :
      (fuel : ℕ) (s : Stream W)
      → (is_some (Dict.get s.progress.completed (yield_ordered x plan fuel s).progress.next_emit)
          ≡ false)
        ⊎ ((low : ℕ) × (low + fuel ≤ (yield_ordered x plan fuel s).progress.next_emit))
  reached fuel s = elim (yield-to_gap fuel s) [
    | inl gap ↦ inl gap
    | inr far ↦ inr (s.progress.next_emit, far)
  ]

  yield-all :
      (n : ℕ) (s : Stream W)
      → IsOrdered s
      → ((i : ℕ) → has i s.progress.completed ≡ (if ltb i n then 1 else 0))
      → map (λ r. r.index) (yield_ordered x plan (length s.progress.completed) s).yielded
        ≡ range_from 0 n
  yield-all n s h all =
      let k = length s.progress.completed in
      let o = yield-IsOrdered x plan k s h in
      let d = yield-completed k s in
      o.indices
      ∙ ap (range_from 0) (
          emit_all n _ s.progress.completed all
            (λ i lt.
              ap (λ (c : Dict.Dict ℕ BulkItemReceipt). is_some (Dict.get c i)) (sym d)
              ∙ o.emitted i lt)
            (reached k s))

  complete_end :
      (w : W)
      → WaitsFor x plan
      → Resumes x plan
      → 1 ≤ x.parallelism
      → is_some (looped x plan w).failure ≡ false
      → let t = yield_ordered x plan (length (last x plan w).progress.completed) (last x plan w) in
        (is_some t.progress.stop_reason ≡ true)
        ⊎ (map (λ r. r.index) t.yielded ≡ range_from 0 (length plan.items))
  unfolding last
  complete_end w ws v one quiet =
      let s = last x plan w in
      let same = finish-SameWork x plan (looped x plan w) in
      let ended = looped-Ended x plan one ws w quiet in
      elim ended.1 [
        | inr stop ↦ inl (
            ap is_some (yield-stop (length s.progress.completed) s)
            ∙ finish-stopped (looped x plan w) stop)
        | inl idle ↦ inr (
            yield-all (length plan.items) s (last-IsOrdered x plan v w) (λ i. omega (
              arith,
              (last-Tracks x plan ws v i w).accounted,
              ap (count i) (same.pending ∙ idle),
              ap (count i) (same.in_flight ∙ ended.0),
            )))
      ]

  -- With a positive bound on the workers, `WaitsFor`, `Resumes` and a plan that is not refused, a
  -- run ends with the exception of a checkpoint that could not be saved, or it is stopped by its
  -- budget or a cancellation, or it yields the receipts of all the items of the plan, in their
  -- order.
  pub stream_complete :
      (w : W)
      → WaitsFor x plan
      → Resumes x plan
      → validate_plan x.same_plan plan x.checkpoint ≡ ok tt
      → 1 ≤ x.parallelism
      → SavingFailed x plan (stream x plan w)
        ⊎ (is_some (stream x plan w).progress.stop_reason ≡ true)
        ⊎ (map (λ r. r.index) (stream x plan w).yielded ≡ range_from 0 (length plan.items))
  stream_complete w ws v valid one =
      rw (stream-validated x plan w valid) (elim (run-Finish x plan w) [
        | in_loop e h ↦ inl (
            subst (SavingFailed x plan) (sym e)
              (failed_of x plan (looped x plan w) (looped-IsCaused x plan w) h))
        | in_last e g h ↦ inl (subst (SavingFailed x plan) (sym e) (last-SavingFailed x plan w g h))
        | at_end e g h ↦ inr (
            subst
              (λ (t : Stream W).
                (is_some t.progress.stop_reason ≡ true)
                ⊎ (map (λ r. r.index) t.yielded ≡ range_from 0 (length plan.items)))
              (sym e) (complete_end w ws v one g))
      ])
