-- ===== src/Bulk/Executor/Frames.antt =====
-- Which variables of the run each method leaves alone.
use datasluice.Base.{
  ℕ, zero, suc, ◌≤◌, ◌<◌, ◌≡◌, refl, Bool, true, false, not, Option, none, some, List, [], ◌∷◌, ◌∙◌,
  Option-cases, equatable_nat, ◌||◌, length, arith, leb, Bool-cases, inl, inr, ◌⊎◌,
}
use datasluice.Base.Dict
use datasluice.Base.Exec.{Result}
use datasluice.Errors.{Exception}
use datasluice.Safety.{is_some}
use datasluice.Bulk.{BulkPlan, BulkCheckpoint}
use datasluice.Bulk.Progress.{Executor, Stream, TaskResult, is_cancelled, is_empty}
use datasluice.Bulk.Executor.{
  result_of, set_stop, probe_stop_state, refresh_stop_state, next_dispatchable, persist, save,
  record_completed, record_sync_result, finish_progress, yield_one, yield_ordered, pop_pending,
  completed_with, unsaved, mark_persisted,
}

-- The items stand as before; stops, checkpoints and the world may differ.
pub record SameWork {W : Type 0} (s s' : Stream W) : Type 0 where
  pub completed : s'.progress.completed ≡ s.progress.completed
  pub pending : s'.progress.pending ≡ s.progress.pending
  pub in_flight : s'.in_flight ≡ s.in_flight
  pub dispatched : s'.dispatched ≡ s.dispatched
  pub yielded : s'.yielded ≡ s.yielded
  pub next_emit : s'.progress.next_emit ≡ s.progress.next_emit

module _ {W : Type 0} (x : Executor W) (plan : BulkPlan) where
  pub refresh-SameWork : (b : Bool) (s : Stream W) → SameWork s (refresh_stop_state x plan b s)
  unfolding refresh_stop_state
  refresh-SameWork b s = ground arith

  pub SameWork-refl : (s : Stream W) → SameWork s s
  SameWork-refl s = record {
    completed = refl;
    pending = refl;
    in_flight = refl;
    dispatched = refl;
    yielded = refl;
    next_emit = refl;
  }

  save-SameWork :
      (o : Option (Result Exception BulkCheckpoint)) (s : Stream W) → SameWork s (save x plan o s)
  save-SameWork none s = SameWork-refl s
  save-SameWork (some b) s = record {
    completed = refl;
    pending = refl;
    in_flight = refl;
    dispatched = refl;
    yielded = refl;
    next_emit = refl;
  }

  pub persist-SameWork : (b : Bool) (s : Stream W) → SameWork s (persist x plan b s)
  unfolding persist
  persist-SameWork b s = save-SameWork _ s

  pub finish-SameWork : (s : Stream W) → SameWork s (finish_progress x plan s)
  unfolding finish_progress
  finish-SameWork s =
      let a = refresh-SameWork false s in
      let s' = refresh_stop_state x plan false s in
      elim (Bool-cases (unsaved x plan s'.progress)) [
        | inl t ↦
            rw t
              (let b = persist-SameWork (is_cancelled s'.progress.stop_reason) s' in ground arith)
        | inr f ↦ rw f a
      ]

  -- What `_next_dispatchable` returns: an index taken off the pending ones while there is room,
  -- or a reason to stop.
  abbrev pub Next : Stream W → Option ℕ → Stream W → Type 0
  Next s none s' =
      SameWork s s'
      × ((s.progress.pending ≡ [])
          ⊎ (x.parallelism ≤ length s.in_flight)
          ⊎ (is_some s'.progress.stop_reason ≡ true))
  Next s (some i) s' =
      (s.progress.pending ≡ i ∷ s'.progress.pending)
      × (length s.in_flight < x.parallelism)
      × (s'.progress.completed ≡ s.progress.completed)
      × (s'.in_flight ≡ s.in_flight)
      × (s'.dispatched ≡ s.dispatched)
      × (s'.yielded ≡ s.yielded)
      × (s'.progress.next_emit ≡ s.progress.next_emit)

  pop-Next :
      (pending : List ℕ) (s t : Stream W)
      → s.progress.pending ≡ pending
      → is_empty pending ≡ false
      → length s.in_flight < x.parallelism
      → SameWork s t
      → Next s (pop_pending x plan pending t).0 (pop_pending x plan pending t).1
  pop-Next [] s t e h room w = cc
  pop-Next (i ∷ rest) s t e h room w =
      (e, room, w.completed, w.in_flight, w.dispatched, w.yielded, w.next_emit)

  why_not :
      (s : Stream W)
      → (is_empty s.progress.pending
          || leb x.parallelism (length s.in_flight)
          || is_some s.progress.stop_reason)
        ≡ true
      → (s.progress.pending ≡ [])
        ⊎ (x.parallelism ≤ length s.in_flight)
        ⊎ (is_some s.progress.stop_reason ≡ true)
  why_not s h = ground arith

  why :
      (s : Stream W)
      → (is_empty s.progress.pending
          || leb x.parallelism (length s.in_flight)
          || is_some s.progress.stop_reason)
        ≡ false
      → (is_empty s.progress.pending ≡ false) × (length s.in_flight < x.parallelism)
  why s h = ground arith

  probed : Stream W → Stream W
  probed s = set_stop x plan (probe_stop_state x plan true s.world) s

  probed-SameWork : (s : Stream W) → SameWork s (probed s)
  unfolding probed
  probed-SameWork s = record {
    completed = refl;
    pending = refl;
    in_flight = refl;
    dispatched = refl;
    yielded = refl;
    next_emit = refl;
  }

  pub next_dispatchable-Next :
      (s : Stream W) → Next s (next_dispatchable x plan s).0 (next_dispatchable x plan s).1
  unfolding next_dispatchable probed
  next_dispatchable-Next s =
      elim (Bool-cases (
        is_empty s.progress.pending
        || leb x.parallelism (length s.in_flight)
        || is_some s.progress.stop_reason)) [
          | inl halt ↦ rw halt (SameWork-refl s, why_not s halt)
          | inr go ↦ rw go (elim (Bool-cases (is_some (probe_stop_state x plan true s.world).0.0)) [
            | inl stop ↦ rw stop (probed-SameWork s, inr (inr stop))
            | inr on ↦ rw on (
                pop-Next s.progress.pending s (probed s) refl (why s go).0 (why s go).1
                  (probed-SameWork s))
          ])
        ]

  mark-SameWork : (s t : Stream W) → SameWork s t → SameWork s (mark_persisted x plan t)
  mark-SameWork s t w = elim (Bool-cases (is_some t.failure)) [
    | inl broken ↦ rw broken w
    | inr fine ↦ rw fine (record {
      completed = w.completed;
      pending = w.pending;
      in_flight = w.in_flight;
      dispatched = w.dispatched;
      yielded = w.yielded;
      next_emit = w.next_emit;
    })
  ]

  -- A recorded result completes its index.
  pub record-Completed :
      (i : ℕ) (r : TaskResult) (s : Stream W)
      → SameWork
          (record s {
            progress = record s.progress {
              completed =
                  Dict.put s.progress.completed i
                    (record { index = i; receipt = (result_of x plan i r).receipt });
            };
          })
          (record_sync_result x plan i r s)
  unfolding record_sync_result record_completed
  record-Completed i r s =
      let a = record_completed x plan i (result_of x plan i r) s in
      let p0 = persist-SameWork (is_cancelled a.progress.stop_reason) a in
      let p = mark-SameWork a (persist x plan (is_cancelled a.progress.stop_reason) a) p0 in
      let q =
        refresh-SameWork (not (is_empty s.progress.pending))
          (completed_with x plan i (result_of x plan i r) s) in
      record {
        completed = p.completed ∙ q.completed;
        pending = p.pending ∙ q.pending;
        in_flight = p.in_flight ∙ q.in_flight;
        dispatched = p.dispatched ∙ q.dispatched;
        yielded = p.yielded ∙ q.yielded;
        next_emit = p.next_emit ∙ q.next_emit;
      }

  pub in_flight-yield :
      (fuel : ℕ) (s : Stream W) → (yield_ordered x plan fuel s).in_flight ≡ s.in_flight
  unfolding yield_ordered
  in_flight-yield zero s = refl
  in_flight-yield (suc fuel) s =
      elim (Option-cases (Dict.get s.progress.completed s.progress.next_emit)) [
        | inl e ↦ rw (e, yield_ordered) refl
        | inr (r, e) ↦ rw (e, yield_ordered) (in_flight-yield fuel (yield_one x plan r s))
      ]

  pub pending-yield :
      (fuel : ℕ) (s : Stream W)
      → (yield_ordered x plan fuel s).progress.pending ≡ s.progress.pending
  unfolding yield_ordered
  pending-yield zero s = refl
  pending-yield (suc fuel) s =
      elim (Option-cases (Dict.get s.progress.completed s.progress.next_emit)) [
        | inl e ↦ rw (e, yield_ordered) refl
        | inr (r, e) ↦ rw (e, yield_ordered) (pending-yield fuel (yield_one x plan r s))
      ]
