-- ===== src/Capability/Bounds.antt =====
-- The capability cache never holds more entries than its bound.
use datasluice.Base.{
  ℕ, suc, ◌≤◌, List, [], ◌∷◌, ◌==◌, ◌≡◌, ◌<◌, refl, inl, inr, arith, Bool-cases, leb, length,
}
use datasluice.Base.Dict.{put, remove}
use datasluice.Catalog.{OperationId, equatable_operation}
use datasluice.Capability.Profiles.{EffectiveProfile}
use datasluice.Capability.Evidence.{Urls, CacheConfig}
use datasluice.Capability.Entries.{
  CacheKey, equatable_cache_key, CacheEntry, Entries, store_entry, make_room, retained,
  drop_operation, max_cache_entries, without_first,
}
use datasluice.Capability.Flights.{new_world}
use datasluice.Capability.Threads.{Action, run}
use datasluice.Capability.Consistency.Runs.{new_world-IsConsistent}
use datasluice.Capability.Provenance.{Sources, new_world-Sound}
use datasluice.Capability.Provenance.Runs.{run-Sound}

length-remove : (d : Entries) (k : CacheKey) → length (remove d k) ≤ length d
unfolding remove
length-remove [] k = omega arith
length-remove ((j, e) ∷ d) k = elim (Bool-cases (j == k)) [
  | inl same ↦ rw same (omega (arith, length-remove d k))
  | inr other ↦ rw other (omega (arith, length-remove d k))
]

length-put : (d : Entries) (k : CacheKey) (e : CacheEntry) → length (put d k e) ≤ suc (length d)
unfolding put
length-put [] k e = omega arith
length-put ((j, f) ∷ d) k e = elim (Bool-cases (j == k)) [
  | inl same ↦ rw same (omega arith)
  | inr other ↦ rw other (omega (arith, length-put d k e))
]

length-drop : (i : OperationId) (d : Entries) → length (drop_operation i d) ≤ length d
unfolding drop_operation
length-drop i [] = omega arith
length-drop i ((k, e) ∷ d) = elim (Bool-cases (k.operation == i)) [
  | inl same ↦ rw same (omega (arith, length-drop i d))
  | inr other ↦ rw other (omega (arith, length-drop i d))
]

length-retained : (ttl now : ℕ) (d : Entries) → length (retained ttl now d) ≤ length d
unfolding retained
length-retained ttl now [] = omega arith
length-retained ttl now ((k, e) ∷ d) = ground (arith, length-retained ttl now d)

length-without_first : (d : Entries) → 0 < length d → suc (length (without_first d)) ≡ length d
length-without_first [] h = absurd (omega arith)
length-without_first (x ∷ d) h = refl

has_room :
    (ttl now : ℕ) (d : Entries)
    → length d ≤ max_cache_entries
    → length (make_room ttl now d) < max_cache_entries
unfolding make_room
has_room ttl now d h = elim (Bool-cases (leb max_cache_entries (length d))) [
  | inr free ↦ rw free (ground arith)
  | inl full ↦ rw full (
      let kept : Entries = retained ttl now d in
      let fits = length-retained ttl now d in
      elim (Bool-cases (leb max_cache_entries (length kept))) [
        | inr pruned ↦ rw pruned (ground arith)
        | inl still ↦ rw still (
            let some_kept : 0 < length kept = ground arith in
            omega (arith, length-without_first kept some_kept))
      ])
]

store-bounded :
    (ttl : ℕ) (d : Entries) (k : CacheKey) (p : EffectiveProfile) (now : ℕ)
    → length d ≤ max_cache_entries
    → length (store_entry ttl d k p now) ≤ max_cache_entries
unfolding store_entry
store-bounded ttl d k p now h =
    let room = has_room ttl now (remove d k) (omega (arith, length-remove d k)) in
    omega (
      arith,
      length-put (make_room ttl now (remove d k)) k (record { profile = p; timestamp = now }),
    )

-- In every world that a new cache reaches, whatever the calls do, it holds at most 1024 entries.
pub entries_bounded :
    (web : Urls) (c : CacheConfig) (actions : List Action)
    → length (run web c actions new_world).entries ≤ max_cache_entries
entries_bounded web c actions =
    let Good : CacheKey → EffectiveProfile → Type 0 = λ k p. Unit in
    let P : Entries → Type 0 = λ d. length d ≤ max_cache_entries in
    let l : Sources web c Good P = record {
      empty = omega arith;
      found = λ d k e h q. tt;
      removed = λ d k h. omega (arith, length-remove d k);
      dropped = λ d i h. omega (arith, length-drop i d);
      stored = λ d k p now h g. store-bounded c.ttl_seconds d k p now h;
      baseline = λ k. tt;
      answered = λ k a p e. tt;
      recorded = λ i scope state p e. tt;
      evident = λ e scope p q. tt;
    } in
    (run-Sound web c Good P l actions new_world new_world-IsConsistent
      (new_world-Sound web c Good P l)).entries
