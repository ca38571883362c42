-- ===== src/Bulk/Executor/Runs.antt =====
-- Whole runs of `stream`.
use datasluice.Base.{
  ℕ, zero, suc, ◌+◌, ◌≤◌, ◌<◌, ◌≡◌, ap, ◌∙◌, refl, Option, none, some, List, [], ◌∷◌, map,
  equatable_nat, length, arith, inl, inr, ◌⊎◌, sym, true, false, Bool-cases, if◌then◌else◌, ltb,
}
use datasluice.Base.Dict
use datasluice.Base.Dict.{get-put}
use mathlib.Core.Path.{subst}
use datasluice.Base.Exec.{Result, ok, raise}
use datasluice.Errors.{Exception}
use datasluice.Safety.{is_some}
use datasluice.Bulk.{
  BulkPlan, BulkItemReceipt, BulkCheckpoint, make_checkpoint, increasing_below, validate_plan,
}
use datasluice.Bulk.Progress.{Executor, Stream, by_index, range_from, not_completed}
use datasluice.Bulk.Executor.{
  checkpointed, start, stream, yield_ordered, run_rounds, finish_progress, conclude, run_validated,
  refused,
}
use datasluice.Bulk.Executor.Counts.{count, has, count-range, count-not_completed}
use datasluice.Bulk.Executor.Frames.{finish-SameWork, in_flight-yield, pending-yield}
use datasluice.Bulk.Executor.Conserve.{
  WaitsFor, Tracks, SameWork-Tracks, yield-Tracks, rounds-Tracks,
}
use datasluice.Bulk.Executor.Order.{
  IsKeyed, IsOrdered, put-IsKeyed, SameWork-IsOrdered, yield-IsOrdered, rounds-IsOrdered,
}
use datasluice.Bulk.Executor.Ends.{load, Ended, rounds-quiet}
use datasluice.Bulk.Executor.Causes.{
  SavingFailed, IsCaused, rounds-IsCaused, finish-IsCaused, yield-failure,
}

by_index-IsKeyed :
    (rs : List BulkItemReceipt) (d : Dict.Dict ℕ BulkItemReceipt)
    → IsKeyed d
    → IsKeyed (by_index rs d)
unfolding by_index
by_index-IsKeyed [] d h = h
by_index-IsKeyed (r ∷ rs) d h = by_index-IsKeyed rs (Dict.put d r.index r) (put-IsKeyed d r h)

by_index-below :
    (n : ℕ) (rs : List BulkItemReceipt) (low : ℕ) (d : Dict.Dict ℕ BulkItemReceipt) (i : ℕ)
    → increasing_below n low (map (λ r. r.index) rs) ≡ true
    → is_some (Dict.get (by_index rs d) i) ≡ true
    → (is_some (Dict.get d i) ≡ true) ⊎ (i < n)
unfolding by_index increasing_below
by_index-below n [] low d i v h = inl h
by_index-below n (r ∷ rs) low d i v h =
    ground
      (arith, by_index-below n rs (suc r.index) (Dict.put d r.index r) i, get-put d r.index i r)

checkpoint_valid :
    (c : BulkCheckpoint)
    → make_checkpoint c ≡ ok c
    → increasing_below (length c.plan.items) 0 (map (λ r. r.index) c.item_receipts) ≡ true
unfolding make_checkpoint
checkpoint_valid c h = ground arith

module _ {W : Type 0} (x : Executor W) (plan : BulkPlan) where
  -- A checkpoint that is resumed from was built by its constructor, for this plan.
  pub record Resumes : Type 0 where
    pub valid :
        (c : BulkCheckpoint) → x.checkpoint ≡ some c → (c.plan ≡ plan) × (make_checkpoint c ≡ ok c)

  checkpointed-facts :
      (o : Option BulkCheckpoint)
      → ((c : BulkCheckpoint) → o ≡ some c → (c.plan ≡ plan) × (make_checkpoint c ≡ ok c))
      → IsKeyed (checkpointed x plan o)
        × ((i : ℕ) → is_some (Dict.get (checkpointed x plan o) i) ≡ true → i < length plan.items)
  unfolding Dict.get
  checkpointed-facts none v = (λ k r e. cc, λ i e. cc)
  checkpointed-facts (some c) v =
      let (same, built) = v c refl in
      (
        by_index-IsKeyed c.item_receipts [] (λ k r e. cc),
        λ i e. ground (
          arith,
          by_index-below (length plan.items) c.item_receipts 0 [] i,
          checkpoint_valid c built,
          same,
        ),
      )

  abbrev done_before : Dict.Dict ℕ BulkItemReceipt
  done_before = checkpointed x plan x.checkpoint

  -- 1 for an index of the plan.
  abbrev pub planned : ℕ → ℕ
  planned i = if ltb i (length plan.items) then 1 else 0

  -- 1 for an index of the plan that the checkpoint does not hold.
  abbrev pub open_item : ℕ → ℕ
  open_item i = if is_some (Dict.get done_before i) then 0 else planned i

  pub planned-le : (i : ℕ) → planned i ≤ 1
  planned-le i = ground arith

  start-Tracks :
      Resumes
      → (i : ℕ) (w : W) → Tracks x plan i (planned i) (open_item i) (planned-le i) (start x plan w)
  unfolding start
  start-Tracks v i w =
      let items = range_from 0 (length plan.items) in
      let (_, below) = checkpointed-facts x.checkpoint v.valid in
      record {
        accounted = ground (
          arith,
          count-not_completed i done_before items,
          count-range i 0 (length plan.items),
          below i,
        );
        launched =
            ground
              (arith, count-not_completed i done_before items, count-range i 0 (length plan.items));
      }

  start-IsOrdered : Resumes → (w : W) → IsOrdered (start x plan w)
  unfolding start
  start-IsOrdered v w = record {
    indices = refl;
    keyed = (checkpointed-facts x.checkpoint v.valid).0;
    emitted = λ k lt. absurd (omega arith);
  }

  length-not_completed :
      (d : Dict.Dict ℕ BulkItemReceipt) (low n : ℕ)
      → length (not_completed d (range_from low n)) ≤ n
  unfolding not_completed range_from
  length-not_completed d low zero = omega arith
  length-not_completed d low (suc n) = ground (arith, length-not_completed d (suc low) n)

  start-load : (w : W) → load (start x plan w) ≤ length plan.items
  unfolding start
  start-load w = omega (arith, length-not_completed done_before 0 (length plan.items))

  -- The states of `stream`: behind the first receipts, behind the loop, and at the end.
  unfoldable pub first : W → Stream W
  first w = let s = start x plan w in yield_ordered x plan (length s.progress.completed) s

  unfoldable pub looped : W → Stream W
  looped w = run_rounds x plan (suc (length plan.items)) (first w)

  unfoldable pub last : W → Stream W
  last w = finish_progress x plan (looped w)

  first-load : (w : W) → load (first w) ≤ length plan.items
  unfolding first
  first-load w =
      let s = start x plan w in
      let k = length s.progress.completed in
      omega (
        arith,
        start-load w,
        ap length (in_flight-yield x plan k s),
        ap length (pending-yield x plan k s),
      )

  pub looped-Ended :
      1 ≤ x.parallelism
      → WaitsFor x plan
      → (w : W) → is_some (looped w).failure ≡ false
      → Ended x plan (looped w)
  unfolding looped
  looped-Ended one ws w =
      rounds-quiet x plan one ws (suc (length plan.items)) (first w) (omega (arith, first-load w))

  looped-Tracks :
      WaitsFor x plan
      → Resumes
      → (i : ℕ) (w : W) → Tracks x plan i (planned i) (open_item i) (planned-le i) (looped w)
  unfolding looped first
  looped-Tracks ws v i w =
      let s = start x plan w in
      rounds-Tracks x plan i (planned i) (open_item i) (planned-le i) ws (suc (length plan.items))
        (first w)
        (yield-Tracks x plan i (planned i) (open_item i) (planned-le i)
          (length s.progress.completed) s (start-Tracks v i w))

  pub last-Tracks :
      WaitsFor x plan
      → Resumes
      → (i : ℕ) (w : W) → Tracks x plan i (planned i) (open_item i) (planned-le i) (last w)
  unfolding last
  last-Tracks ws v i w =
      SameWork-Tracks x plan i (planned i) (open_item i) (planned-le i) (looped w) (last w)
        (finish-SameWork x plan (looped w)) (looped-Tracks ws v i w)

  looped-IsOrdered : Resumes → (w : W) → IsOrdered (looped w)
  unfolding looped first
  looped-IsOrdered v w =
      let s = start x plan w in
      rounds-IsOrdered x plan (suc (length plan.items)) (first w)
        (yield-IsOrdered x plan (length s.progress.completed) s (start-IsOrdered v w))

  pub last-IsOrdered : Resumes → (w : W) → IsOrdered (last w)
  unfolding last
  last-IsOrdered v w =
      SameWork-IsOrdered x plan (looped w) (last w) (finish-SameWork x plan (looped w))
        (looped-IsOrdered v w)

  -- Where a run ends: behind a loop that failed, behind the last save if that failed, or behind
  -- the last receipts.
  pub data Finish (w : W) : Type 0 where
    in_loop : (run_validated x plan w ≡ looped w) → is_some (looped w).failure ≡ true → Finish w
    in_last :
        (run_validated x plan w ≡ last w)
        → is_some (looped w).failure ≡ false
        → is_some (last w).failure ≡ true
        → Finish w
    at_end :
        (run_validated x plan w
          ≡ yield_ordered x plan (length (last w).progress.completed) (last w))
        → is_some (looped w).failure ≡ false
        → is_some (last w).failure ≡ false
        → Finish w

  pub run-Finish : (w : W) → Finish w
  unfolding run_validated conclude last looped first
  run-Finish w = elim (Bool-cases (is_some (looped w).failure)) [
    | inl broken ↦ in_loop (rw (broken, conclude) refl) broken
    | inr fine ↦ elim (Bool-cases (is_some (last w).failure)) [
      | inl late ↦ in_last (rw (fine, conclude, late) refl) fine late
      | inr quiet ↦ at_end (rw (fine, conclude, quiet) refl) fine quiet
    ]
  ]

  pub looped-IsCaused : (w : W) → IsCaused x plan (looped w)
  unfolding looped first start
  looped-IsCaused w =
      let s = start x plan w in
      rounds-IsCaused x plan (suc (length plan.items)) (first w)
        (ap is_some (yield-failure x plan (length s.progress.completed) s))

  pub failed_of :
      (s : Stream W) → IsCaused x plan s → is_some s.failure ≡ true → SavingFailed x plan s
  failed_of s (inl fine) h = cc
  failed_of s (inr broken) h = broken

  pub last-SavingFailed :
      (w : W)
      → is_some (looped w).failure ≡ false
      → is_some (last w).failure ≡ true
      → SavingFailed x plan (last w)
  unfolding last
  last-SavingFailed w fine late = failed_of (last w) (finish-IsCaused x plan (looped w) fine) late

  run-Tracks :
      WaitsFor x plan
      → Resumes
      → (i : ℕ) (w : W)
      → Tracks x plan i (planned i) (open_item i) (planned-le i) (run_validated x plan w)
  run-Tracks ws v i w =
      let T : Stream W → Type 0 = Tracks x plan i (planned i) (open_item i) (planned-le i) in
      elim (run-Finish w) [
        | in_loop e h ↦ subst T (sym e) (looped-Tracks ws v i w)
        | in_last e g h ↦ subst T (sym e) (last-Tracks ws v i w)
        | at_end e g h ↦ subst T (sym e) (
            yield-Tracks x plan i (planned i) (open_item i) (planned-le i)
              (length (last w).progress.completed) (last w) (last-Tracks ws v i w))
      ]

  run-in_flight :
      1 ≤ x.parallelism
      → WaitsFor x plan
      → (w : W)
      → SavingFailed x plan (run_validated x plan w) ⊎ ((run_validated x plan w).in_flight ≡ [])
  unfolding last
  run-in_flight one ws w =
      let P : Stream W → Type 0 = λ s. SavingFailed x plan s ⊎ (s.in_flight ≡ []) in
      elim (run-Finish w) [
        | in_loop e h ↦ subst P (sym e) (inl (failed_of (looped w) (looped-IsCaused w) h))
        | in_last e g h ↦ subst P (sym e) (inl (last-SavingFailed w g h))
        | at_end e g h ↦ subst P (sym e) (
            inr (
              in_flight-yield x plan (length (last w).progress.completed) (last w)
              ∙ (finish-SameWork x plan (looped w)).in_flight
              ∙ (looped-Ended one ws w g).0))
      ]

  pub stream-validated :
      (w : W)
      → validate_plan x.same_plan plan x.checkpoint ≡ ok tt
      → stream x plan w ≡ run_validated x plan w
  unfolding stream
  stream-validated w e = rw (e, stream) refl

  -- With at least one worker, `WaitsFor`, `Resumes` and a plan that is not refused: an item is
  -- dispatched at most once in a run, and never if the checkpoint holds its receipt or the plan
  -- has no such item; in the end every item of the plan is pending, in flight or completed, exactly
  -- one of them; and nothing is in flight unless the run ended with the exception of a checkpoint
  -- that could not be saved.
  pub stream-once :
      (i : ℕ) (w : W)
      → WaitsFor x plan
      → Resumes
      → validate_plan x.same_plan plan x.checkpoint ≡ ok tt
      → 1 ≤ x.parallelism
      → (count i (stream x plan w).dispatched ≤ open_item i)
        × (count i (stream x plan w).progress.pending
              + count i (stream x plan w).in_flight
              + has i (stream x plan w).progress.completed
            ≡ planned i)
        × (SavingFailed x plan (stream x plan w) ⊎ ((stream x plan w).in_flight ≡ []))
  stream-once i w ws v valid one =
      let t = run-Tracks ws v i w in
      rw (stream-validated w valid) (omega (arith, t.launched), t.accounted, run-in_flight one ws w)

  run-IsOrdered : Resumes → (w : W) → IsOrdered (run_validated x plan w)
  run-IsOrdered v w = elim (run-Finish w) [
    | in_loop e h ↦ subst IsOrdered (sym e) (looped-IsOrdered v w)
    | in_last e g h ↦ subst IsOrdered (sym e) (last-IsOrdered v w)
    | at_end e g h ↦
        subst IsOrdered (sym e) (
          yield-IsOrdered x plan (length (last w).progress.completed) (last w) (last-IsOrdered v w))
  ]

  -- With `Resumes`: whatever happens, the receipts are yielded in the order of the plan, from its
  -- first item on.
  pub stream-ordered :
      (w : W)
      → Resumes
      → map (λ r. r.index) (stream x plan w).yielded
        ≡ range_from 0 (stream x plan w).progress.next_emit
  unfolding stream range_from
  stream-ordered w v = go (validate_plan x.same_plan plan x.checkpoint)
    where
      go :
          (r : Result Exception (Unit {0}))
          → map
              (λ q. q.index)
              (elim r as (λ _. Stream W) [
                | raise e ↦ refused x plan e w
                | ok _ ↦ run_validated x plan w
              ]).yielded
            ≡ range_from 0
                (elim r as (λ _. Stream W) [
                  | raise e ↦ refused x plan e w
                  | ok _ ↦ run_validated x plan w
                ]).progress.next_emit
      go (raise e) = refl
      go (ok _) = (run-IsOrdered v w).indices
