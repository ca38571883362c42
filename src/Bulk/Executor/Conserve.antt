-- ===== src/Bulk/Executor/Conserve.antt =====
-- The invariant of a run: every index is pending, in flight or completed, once.
use datasluice.Base.{
  ℕ, zero, suc, ◌+◌, ◌≤◌, ◌≡◌, ap, ◌∙◌, true, false, Option, none, some, List, [], ◌∷◌,
  equatable_nat, ◌&&◌, Option-cases, length, contains, arith, Bool-cases, inl, inr,
}
use datasluice.Base.Dict
use datasluice.Base.Dict.{get-put}
use datasluice.Safety.{is_some}
use datasluice.Bulk.{BulkPlan, BulkItemReceipt}
use datasluice.Bulk.Progress.{Executor, Stream, TaskResult, is_empty}
use datasluice.Bulk.Executor.{
  result_of, submit, next_dispatchable, dispatch_available, pop_in_flight, record_sync_result,
  yield_one, yield_ordered, settle_done, await_done, run_rounds,
}
use datasluice.Bulk.Executor.Counts.{
  count, has, count-append, count-of_contains, count-pop, has-put,
}
use datasluice.Bulk.Executor.Frames.{
  SameWork, next_dispatchable-Next, record-Completed, Next, in_flight-yield,
}

-- What `wait` is relied on for: it returns futures that are in flight, each once, and at least one.
abbrev pub AreInFlight :
    {W : Type 0} → Executor W → BulkPlan → List (ℕ × TaskResult) → List ℕ → Type 0
AreInFlight x plan [] fs = Unit
AreInFlight x plan ((i, r) ∷ done) fs =
    (contains fs i ≡ true) × AreInFlight x plan done (pop_in_flight x plan i fs)

pub record WaitsFor {W : Type 0} (x : Executor W) (plan : BulkPlan) : Type 0 where
  pub waits :
      (fs : List ℕ) (w : W)
      → is_empty fs ≡ false
      → AreInFlight x plan (x.wait fs w).0 fs × (is_empty (x.wait fs w).0 ≡ false)

module _ {W : Type 0} (x : Executor W) (plan : BulkPlan) (i t p : ℕ) (le : t ≤ 1) where
  -- `t` is 1 for an index of the plan, `p` is 1 if it was pending at the start.
  pub record Tracks (s : Stream W) : Type 0 where
    pub accounted :
        count i s.progress.pending + count i s.in_flight + has i s.progress.completed ≡ t
    pub launched : count i s.dispatched + count i s.progress.pending ≡ p

  pub SameWork-Tracks : (s s' : Stream W) → SameWork s s' → Tracks s → Tracks s'
  SameWork-Tracks s s' w h = record {
    accounted = rw (w.pending, w.in_flight, w.completed) h.accounted;
    launched = rw (w.dispatched, w.pending) h.launched;
  }

  submit-Tracks :
      (j : ℕ) (s s' : Stream W)
      → s.progress.pending ≡ j ∷ s'.progress.pending
      → s'.progress.completed ≡ s.progress.completed
      → s'.in_flight ≡ s.in_flight
      → s'.dispatched ≡ s.dispatched
      → Tracks s
      → Tracks (submit x plan j s')
  submit-Tracks j s s' a b c d h = record {
    accounted = ground (
      arith,
      ap (count i) a,
      ap (has i) b,
      ap (count i) c,
      h.accounted,
      count-append i s'.in_flight (j ∷ []),
    );
    launched = ground (arith, ap (count i) a, ap (count i) d, h.launched);
  }

  dispatch-Tracks : (fuel : ℕ) (s : Stream W) → Tracks s → Tracks (dispatch_available x plan fuel s)
  unfolding dispatch_available
  dispatch-Tracks zero s h = h
  dispatch-Tracks (suc fuel) s h =
      go (next_dispatchable x plan s).0 (next_dispatchable x plan s).1
        (next_dispatchable-Next x plan s) (λ u. dispatch-Tracks fuel u)
    where
      go :
          (o : Option ℕ) (s' : Stream W)
          → Next x plan s o s'
          → ((u : Stream W) → Tracks u → Tracks (dispatch_available x plan fuel u))
          → Tracks
              (elim o [ none ↦ s' | some j ↦ dispatch_available x plan fuel (submit x plan j s') ])
      go none s' n rec = SameWork-Tracks s s' n.0 h
      go (some j) s' n rec = rec (submit x plan j s') (submit-Tracks j s s' n.0 n.2 n.3 n.4 h)

  -- The future of `j` is taken off and its result recorded.
  settled : ℕ → TaskResult → Stream W → Stream W
  settled j r s =
      record_sync_result x plan j r (record s { in_flight = pop_in_flight x plan j s.in_flight })

  settled-Tracks :
      (j : ℕ) (r : TaskResult) (s : Stream W)
      → contains s.in_flight j ≡ true
      → Tracks s
      → Tracks (settled j r s)
  unfolding settled
  settled-Tracks j r s c h =
      let w =
        record-Completed x plan j r (record s { in_flight = pop_in_flight x plan j s.in_flight }) in
      let receipt : BulkItemReceipt = record {
        index = j;
        receipt = (result_of x plan j r).receipt;
      } in
      record {
        accounted =
            rw (w.pending, w.in_flight, w.completed)
              (ground (
                arith,
                h.accounted,
                le,
                count-pop x plan i j s.in_flight,
                count-of_contains j s.in_flight,
                has-put i j receipt s.progress.completed,
              ));
        launched = rw (w.pending, w.dispatched) h.launched;
      }

  pub yield-Tracks : (fuel : ℕ) (s : Stream W) → Tracks s → Tracks (yield_ordered x plan fuel s)
  unfolding yield_ordered
  yield-Tracks zero s h = h
  yield-Tracks (suc fuel) s h =
      elim (Option-cases (Dict.get s.progress.completed s.progress.next_emit)) [
        | inl e ↦ rw (e, yield_ordered) h
        | inr (r, e) ↦
            rw (e, yield_ordered)
              (yield-Tracks fuel (yield_one x plan r s)
                (record { accounted = h.accounted; launched = h.launched }))
      ]

  yielded_after : Stream W → Stream W
  yielded_after s = yield_ordered x plan (length s.progress.completed) s

  in_flight-settled :
      (j : ℕ) (r : TaskResult) (s : Stream W)
      → (yielded_after (settled j r s)).in_flight ≡ pop_in_flight x plan j s.in_flight
  unfolding yielded_after settled
  in_flight-settled j r s =
      in_flight-yield x plan _ (settled j r s)
      ∙ (record-Completed x plan j r
          (record s { in_flight = pop_in_flight x plan j s.in_flight })).in_flight

  settle-Tracks :
      (done : List (ℕ × TaskResult)) (s : Stream W)
      → AreInFlight x plan done s.in_flight
      → Tracks s
      → Tracks (settle_done x plan done s)
  unfolding settle_done settled yielded_after
  settle-Tracks [] s v h = h
  settle-Tracks ((j, r) ∷ done) s (c, v) h =
      let t = settled-Tracks j r s c h in
      elim (Bool-cases (is_some (settled j r s).failure)) [
        | inl broken ↦ rw (broken, settle_done) t
        | inr fine ↦
            rw (fine, settle_done)
              (settle-Tracks done (yielded_after (settled j r s)) (rw (in_flight-settled j r s) v)
                (yield-Tracks (length (settled j r s).progress.completed) (settled j r s) t))
      ]

  pub rounds-Tracks :
      WaitsFor x plan → (fuel : ℕ) (s : Stream W) → Tracks s → Tracks (run_rounds x plan fuel s)
  unfolding run_rounds
  rounds-Tracks ws zero s h = h
  rounds-Tracks ws (suc fuel) s h =
      elim (Bool-cases (is_empty s.progress.pending && is_empty s.in_flight)) [
        | inl over ↦ rw over h
        | inr more ↦
            let s' = dispatch_available x plan (length s.progress.pending) s in
            let h' = dispatch-Tracks (length s.progress.pending) s h in
            rw more (elim (Bool-cases (is_empty s'.in_flight)) [
              | inl idle ↦ rw idle h'
              | inr busy ↦
                  let t : Tracks (await_done x plan s') =
                    settle-Tracks (x.wait s'.in_flight s'.world).0
                      (record s' { world = (x.wait s'.in_flight s'.world).1 })
                      (ws.waits s'.in_flight s'.world busy).0
                      (record { accounted = h'.accounted; launched = h'.launched }) in
                  rw busy (elim (Bool-cases (is_some (await_done x plan s').failure)) [
                    | inl broken ↦ rw broken t
                    | inr fine ↦ rw fine (rounds-Tracks ws fuel (await_done x plan s') t)
                  ])
            ])
      ]
