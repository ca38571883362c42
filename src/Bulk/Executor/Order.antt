-- ===== src/Bulk/Executor/Order.antt =====
-- Receipts are yielded by index, from 0 on, with no gap and no repetition.
use datasluice.Base.{
  ℕ, zero, suc, ◌+◌, ◌<◌, ◌≡◌, ap, ◌∙◌, refl, true, Option, none, some, List, [], ◌∷◌, ◌++◌, map,
  equatable_nat, ◌==◌, ◌&&◌, Option-cases, length, arith, Bool-cases, inl, inr,
}
use mathlib.Core.List.{map-append}
use datasluice.Base.Dict
use datasluice.Base.Dict.{get-put}
use datasluice.Safety.{is_some}
use datasluice.Bulk.{BulkPlan, BulkItemReceipt}
use datasluice.Bulk.Progress.{Executor, Stream, TaskResult, is_empty, range_from}
use datasluice.Bulk.Executor.{
  result_of, submit, next_dispatchable, dispatch_available, pop_in_flight, record_sync_result,
  yield_one, yield_ordered, settle_done, await_done, run_rounds,
}
use datasluice.Bulk.Executor.Frames.{SameWork, next_dispatchable-Next, record-Completed, Next}

abbrev pub IsKeyed : Dict.Dict ℕ BulkItemReceipt → Type 0
IsKeyed d = (k : ℕ) (r : BulkItemReceipt) → Dict.get d k ≡ some r → r.index ≡ k

pub record IsOrdered {W : Type 0} (s : Stream W) : Type 0 where
  pub indices : map (λ r. r.index) s.yielded ≡ range_from 0 s.progress.next_emit
  pub keyed : IsKeyed s.progress.completed
  pub emitted :
      (k : ℕ) → k < s.progress.next_emit → is_some (Dict.get s.progress.completed k) ≡ true

pub put-IsKeyed :
    (d : Dict.Dict ℕ BulkItemReceipt) (r : BulkItemReceipt)
    → IsKeyed d
    → IsKeyed (Dict.put d r.index r)
put-IsKeyed d r h k q e = ground (arith, get-put d r.index k r, h k q)

put-is_some :
    (d : Dict.Dict ℕ BulkItemReceipt) (j k : ℕ) (r : BulkItemReceipt)
    → is_some (Dict.get d k) ≡ true
    → is_some (Dict.get (Dict.put d j r) k) ≡ true
put-is_some d j k r h = ground (arith, get-put d j k r)

emitted-suc :
    (d : Dict.Dict ℕ BulkItemReceipt) (n k : ℕ)
    → ((i : ℕ) → i < n → is_some (Dict.get d i) ≡ true)
    → (r : BulkItemReceipt) → Dict.get d n ≡ some r
    → k < suc n
    → is_some (Dict.get d k) ≡ true
emitted-suc d n k h r e lt = elim (Bool-cases (k == n)) [
  | inl same ↦ let q : k ≡ n = ground arith in rw (q, e) refl
  | inr other ↦ h k (ground arith)
]

range-snoc : (low n : ℕ) → range_from low n ++ (low + n) ∷ [] ≡ range_from low (suc n)
unfolding range_from
range-snoc low zero = ap (λ m. m ∷ []) (omega arith)
range-snoc low (suc n) =
    let e : low + suc n ≡ suc low + n = omega arith in
    rw e (ap (λ l. low ∷ l) (range-snoc (suc low) n))

module _ {W : Type 0} (x : Executor W) (plan : BulkPlan) where
  pub SameWork-IsOrdered : (s s' : Stream W) → SameWork s s' → IsOrdered s → IsOrdered s'
  SameWork-IsOrdered s s' w h = record {
    indices = rw (w.yielded, w.next_emit) h.indices;
    keyed = rw w.completed h.keyed;
    emitted = rw (w.completed, w.next_emit) h.emitted;
  }

  pub dispatch-IsOrdered :
      (fuel : ℕ) (s : Stream W) → IsOrdered s → IsOrdered (dispatch_available x plan fuel s)
  unfolding dispatch_available
  dispatch-IsOrdered zero s h = h
  dispatch-IsOrdered (suc fuel) s h =
      go (next_dispatchable x plan s).0 (next_dispatchable x plan s).1
        (next_dispatchable-Next x plan s) (λ u. dispatch-IsOrdered fuel u)
    where
      go :
          (o : Option ℕ) (s' : Stream W)
          → Next x plan s o s'
          → ((u : Stream W) → IsOrdered u → IsOrdered (dispatch_available x plan fuel u))
          → IsOrdered
              (elim o [ none ↦ s' | some j ↦ dispatch_available x plan fuel (submit x plan j s') ])
      go none s' n rec = SameWork-IsOrdered s s' n.0 h
      go (some j) s' n rec = rec (submit x plan j s') (record {
        indices = rw (n.5, n.6) h.indices;
        keyed = rw n.2 h.keyed;
        emitted = rw (n.2, n.6) h.emitted;
      })

  pub yield-IsOrdered :
      (fuel : ℕ) (s : Stream W) → IsOrdered s → IsOrdered (yield_ordered x plan fuel s)
  unfolding yield_ordered
  yield-IsOrdered zero s h = h
  yield-IsOrdered (suc fuel) s h =
      elim (Option-cases (Dict.get s.progress.completed s.progress.next_emit)) [
        | inl e ↦ rw (e, yield_ordered) h
        | inr (r, e) ↦
            rw (e, yield_ordered)
              (yield-IsOrdered fuel (yield_one x plan r s) (record {
                indices =
                    map-append (λ (q : BulkItemReceipt). q.index) s.yielded (r ∷ [])
                    ∙ ap (λ l. l ++ r.index ∷ []) h.indices
                    ∙ ap (λ m. range_from 0 s.progress.next_emit ++ m ∷ [])
                        (h.keyed _ r e ∙ omega arith)
                    ∙ range-snoc 0 s.progress.next_emit;
                keyed = h.keyed;
                emitted = λ k lt.
                    emitted-suc s.progress.completed s.progress.next_emit k h.emitted r e lt;
              }))
      ]

  pub settle-IsOrdered :
      (done : List (ℕ × TaskResult)) (s : Stream W)
      → IsOrdered s
      → IsOrdered (settle_done x plan done s)
  unfolding settle_done
  settle-IsOrdered [] s h = h
  settle-IsOrdered ((j, r) ∷ done) s h =
      let s1 : Stream W = record s { in_flight = pop_in_flight x plan j s.in_flight } in
      let s' = record_sync_result x plan j r s1 in
      let w = record-Completed x plan j r s1 in
      let o : IsOrdered s' = record {
        indices = rw (w.yielded, w.next_emit) h.indices;
        keyed = rw w.completed (
            put-IsKeyed s.progress.completed
              (record { index = j; receipt = (result_of x plan j r).receipt }) h.keyed);
        emitted =
            rw (w.completed, w.next_emit)
              (λ k lt.
                put-is_some s.progress.completed j k
                  (record { index = j; receipt = (result_of x plan j r).receipt })
                  (h.emitted k lt));
      } in
      elim (Bool-cases (is_some s'.failure)) [
        | inl broken ↦ rw (broken, settle_done) o
        | inr fine ↦
            rw (fine, settle_done)
              (settle-IsOrdered done (yield_ordered x plan (length s'.progress.completed) s')
                (yield-IsOrdered (length s'.progress.completed) s' o))
      ]

  pub rounds-IsOrdered :
      (fuel : ℕ) (s : Stream W) → IsOrdered s → IsOrdered (run_rounds x plan fuel s)
  unfolding run_rounds
  rounds-IsOrdered zero s h = h
  rounds-IsOrdered (suc fuel) s h =
      elim (Bool-cases (is_empty s.progress.pending && is_empty s.in_flight)) [
        | inl over ↦ rw over h
        | inr more ↦
            let s' = dispatch_available x plan (length s.progress.pending) s in
            let h' = dispatch-IsOrdered (length s.progress.pending) s h in
            rw more (elim (Bool-cases (is_empty s'.in_flight)) [
              | inl idle ↦ rw idle h'
              | inr busy ↦
                  let o : IsOrdered (await_done x plan s') =
                    settle-IsOrdered (x.wait s'.in_flight s'.world).0
                      (record s' { world = (x.wait s'.in_flight s'.world).1 })
                      (record { indices = h'.indices; keyed = h'.keyed; emitted = h'.emitted }) in
                  rw busy (elim (Bool-cases (is_some (await_done x plan s').failure)) [
                    | inl broken ↦ rw broken o
                    | inr fine ↦ rw fine (rounds-IsOrdered fuel (await_done x plan s') o)
                  ])
            ])
      ]
