-- ===== src/Capability/Flights.antt =====
-- src/datasluice/runtime/capability.py: calls of `resolve` in several threads, and the flights that
-- they share. What a call does under the lock, or with nothing shared, is one action; a flight is
-- named by the call that made it. Asynchronous flights are left out.
use datasluice.Base.{
  ℕ, Bool, true, false, Option, none, some, [], ◌∷◌, ◌==◌, if◌then◌else◌, equatable_string,
  equatable_nat,
}
use datasluice.Base.Dict.{Dict, get, put, remove}
use datasluice.Base.Exec.{Result, ok, raise}
use datasluice.Errors.{
  Exception, no_profile, cancelled_error, catalog, unavailable, unavailable_state,
}
use datasluice.Catalog.{OperationId, equatable_operation}
use datasluice.Capability.Profiles.{EffectiveProfile}
use datasluice.Capability.Entries.{
  CacheKey, equatable_cache_key, Entries, store_entry, drop_operation,
}

pub record SyncFlight : Type 0 where
  pub event : Bool
  pub profile : Option EffectiveProfile
  pub error : Option Exception
  pub cancelled : Bool

abbrev pub new_flight : SyncFlight
new_flight = record { event = false; profile = none; error = none; cancelled = false }

-- Where a call of `resolve` stands; a leader is `probing` until its runner answers, then waits for
-- the lock.
pub data Phase : Type 0 where
  idle : Phase
  missed : CacheKey → Phase
  probing : CacheKey → Phase
  completing : CacheKey → EffectiveProfile → (completed_at : ℕ) → Phase
  failing : CacheKey → Exception → Phase
  waiting : CacheKey → (flight : ℕ) → Phase
  finished : CacheKey → Result Exception EffectiveProfile → Phase

abbrev pub Flights : Type 0
Flights = Dict CacheKey ℕ

pub record World : Type 0 where
  pub entries : Entries
  pub flights : Flights
  pub cells : ℕ → SyncFlight
  pub calls : ℕ → Phase

abbrev pub update {ℓ} : {A : Type ℓ} → (ℕ → A) → ℕ → A → ℕ → A
update f i a j = if i == j then a else f j

abbrev pub new_world : World
new_world = record { entries = []; flights = []; cells = λ t. new_flight; calls = λ t. idle }

-- `_invalidation_error`, and the failure of a cancelled leader.
abbrev pub unavailable_probe : Exception
unavailable_probe = catalog unavailable (some unavailable_state) none none

-- `_follower_failure`
unfoldable pub follower_failure : Exception → Exception
follower_failure cancelled_error = unavailable_probe
follower_failure x = x

-- `_sync_flight`: the flight, and whether the call leads it.
abbrev pub join_flight : CacheKey → ℕ → World → Option ℕ → (ℕ × Bool) × World
join_flight k t w (some flight) = ((flight, false), w)
join_flight k t w none =
    ((t, true), record w { flights = put w.flights k t; cells = update w.cells t new_flight })

unfoldable pub sync_flight : CacheKey → ℕ → World → (ℕ × Bool) × World
sync_flight k t w = join_flight k t w (get w.flights k)

abbrev pub profile_or_error :
    Option Exception → Option EffectiveProfile → Result Exception EffectiveProfile
profile_or_error (some x) profile = raise x
profile_or_error none none = raise no_profile
profile_or_error none (some p) = ok p

-- `_wait_sync_flight`, once the event is set.
unfoldable pub wait_sync_flight : SyncFlight → Result Exception EffectiveProfile
wait_sync_flight flight = profile_or_error flight.error flight.profile

-- `_discard_sync_flight`
abbrev pub owned_by : Option ℕ → ℕ → Bool
owned_by none t = false
owned_by (some f) t = f == t

unfoldable pub discard_sync_flight : CacheKey → ℕ → Flights → Flights
discard_sync_flight k t flights = if owned_by (get flights k) t then remove flights k else flights

-- `_fail_sync_leader`
unfoldable pub fail_sync_leader : CacheKey → ℕ → Exception → World → World
unfolding follower_failure discard_sync_flight
fail_sync_leader k t x w = record w {
  flights = discard_sync_flight k t w.flights;
  cells = update w.cells t (record (w.cells t) { error = some (follower_failure x); event = true });
}

abbrev pub error_or_invalidation : Option Exception → Exception
error_or_invalidation none = unavailable_probe
error_or_invalidation (some x) = x

-- `_complete_sync_leader`
unfoldable pub complete_sync_leader :
    ℕ → CacheKey → ℕ → EffectiveProfile → ℕ → World → Result Exception (Unit {0}) × World
unfolding discard_sync_flight store_entry
complete_sync_leader ttl k t effective completed_at w =
    if (w.cells t).cancelled
    then (
      raise (error_or_invalidation (w.cells t).error),
      record w {
        flights = discard_sync_flight k t w.flights;
        cells = update w.cells t (record (w.cells t) {
          error = some (error_or_invalidation (w.cells t).error);
          event = true;
        });
      },
    )
    else (
      ok tt,
      record w {
        entries = store_entry ttl w.entries k effective completed_at;
        flights = discard_sync_flight k t w.flights;
        cells = update w.cells t (record (w.cells t) { profile = some effective; event = true });
      },
    )

-- The flights of the keys that match are cancelled, each with its error and its event.
abbrev pub cancel : SyncFlight → SyncFlight
cancel flight = record flight { cancelled = true; error = some unavailable_probe; event = true }

unfoldable pub cancel_flights : (CacheKey → Bool) → Flights → (ℕ → SyncFlight) → ℕ → SyncFlight
cancel_flights matches [] cells = cells
cancel_flights matches ((k, f) ∷ flights) cells =
    cancel_flights matches flights (if matches k then update cells f (cancel (cells f)) else cells)

-- `_invalidate_all`, `_invalidate_operation` and `invalidate`.
unfoldable pub invalidate_all : World → World
unfolding cancel_flights
invalidate_all w = record w {
  entries = [];
  flights = [];
  cells = cancel_flights (λ k. true) w.flights w.cells;
}

unfoldable pub invalidate_operation : OperationId → World → World
unfolding cancel_flights drop_operation
invalidate_operation i w = record w {
  entries = drop_operation i w.entries;
  flights = drop_operation i w.flights;
  cells = cancel_flights (λ k. k.operation == i) w.flights w.cells;
}

abbrev pub invalidate : Option OperationId → World → World
invalidate none w = invalidate_all w
invalidate (some i) w = invalidate_operation i w
