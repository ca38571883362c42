-- ===== src/Capability/Consistency.antt =====
-- The flights of the capability cache: an unfinished flight is listed under the key of its leader,
-- and a waiting call has a leader or an event that is set.
pub mod Moves
pub mod Cancels
pub mod Runs
use datasluice.Base.{
  ℕ, Bool, true, false, ◌&&◌, ◌||◌, Option, none, some, List, [], ◌∷◌, ◌==◌, if◌then◌else◌,
  equatable_nat, nat_beq_iff, ◌≡◌, refl, sym, ap, ◌∙◌, ◌⊎◌, inl, inr, arith, Bool-cases,
  Option-cases, All,
}
use datasluice.Base.Dict.{get, put, remove, get-put, get-remove}
use datasluice.Base.AllDict.{All-map, All-get, All-put, All-remove}
use datasluice.Base.Exec.{ok, raise}
use datasluice.Safety.{is_some}
use datasluice.Capability.Entries.{CacheKey, equatable_cache_key, cache_key_beq_iff}
use datasluice.Capability.Flights.{
  SyncFlight, new_flight, Phase, idle, missed, probing, completing, failing, waiting, finished,
  Flights, update, owned_by, discard_sync_flight,
}

-- The key of the flight that a call leads, and of the flight that it led or leads.
abbrev pub lead_key : Phase → Option CacheKey
lead_key (probing k) = some k
lead_key (completing k p at) = some k
lead_key (failing k x) = some k
lead_key _ = none

abbrev pub flight_key : Phase → Option CacheKey
flight_key (finished k r) = some k
flight_key phase = lead_key phase

abbrev pub is_settled : SyncFlight → Bool
is_settled flight = is_some flight.error || is_some flight.profile

abbrev pub IsCancelled : SyncFlight → Type 0
IsCancelled flight =
    (flight.cancelled ≡ true) × (flight.event ≡ true) × (is_some flight.error ≡ true)

module _ (cells : ℕ → SyncFlight) (calls : ℕ → Phase) where
  abbrev pub Listed : CacheKey × ℕ → Type 0
  Listed (k, f) = (lead_key (calls f) ≡ some k) × (cells f ≡ new_flight)

  abbrev pub Followed : CacheKey → ℕ → Type 0
  Followed k f =
      (flight_key (calls f) ≡ some k) × (((cells f).event ≡ true) ⊎ (lead_key (calls f) ≡ some k))

  pub record Consistent (flights : Flights) : Type 0 where
    pub listed : All Listed flights
    pub held :
        (t : ℕ) (k : CacheKey)
        → lead_key (calls t) ≡ some k
        → IsCancelled (cells t) ⊎ (get flights k ≡ some t)
    pub waits : (t f : ℕ) (k : CacheKey) → calls t ≡ waiting k f → Followed k f
    pub settled : (t : ℕ) → (cells t).event ≡ true → is_settled (cells t) ≡ true

module _ {A : Type 0} (f : ℕ → A) (t : ℕ) (a : A) (u : ℕ) where
  pub update_same : (t == u) ≡ true → update f t a u ≡ a
  update_same e = rw e refl

  pub update_other : (t == u) ≡ false → update f t a u ≡ f u
  update_other e = rw e refl

-- What an update at one call makes of a function of the phases.
kept :
    {B : Type 0} (g : Phase → B) (calls : ℕ → Phase) (t : ℕ) (phase : Phase) (u : ℕ)
    → g phase ≡ g (calls t)
    → g (update calls t phase u) ≡ g (calls u)
kept g calls t phase u e = elim (Bool-cases (t == u)) [
  | inl same ↦ rw same (e ∙ ap (λ n. g (calls n)) ((nat_beq_iff t u).0 same))
  | inr other ↦ rw other refl
]

pub key_kept :
    (calls : ℕ → Phase) (t : ℕ) (phase : Phase) (u : ℕ) (k : CacheKey)
    → (flight_key (calls t) ≡ none) ⊎ (flight_key phase ≡ flight_key (calls t))
    → flight_key (calls u) ≡ some k
    → flight_key (update calls t phase u) ≡ some k
key_kept calls t phase u k (inr e) q = kept flight_key calls t phase u e ∙ q
key_kept calls t phase u k (inl e) q = elim (Bool-cases (t == u)) [
  | inl same ↦ let z = ap (λ n. flight_key (calls n)) ((nat_beq_iff t u).0 same) in absurd (cc)
  | inr other ↦ rw other q
]

module _ (cells : ℕ → SyncFlight) (calls : ℕ → Phase) where
  place-Followed :
      (t : ℕ) (phase : Phase) (k : CacheKey) (f : ℕ)
      → lead_key phase ≡ lead_key (calls t)
      → (flight_key (calls t) ≡ none) ⊎ (flight_key phase ≡ flight_key (calls t))
      → Followed cells calls k f
      → Followed cells (update calls t phase) k f
  place-Followed t phase k f lead had (key, inl set) = (key_kept calls t phase f k had key, inl set)
  place-Followed t phase k f lead had (key, inr leads) =
      (key_kept calls t phase f k had key, inr (kept lead_key calls t phase f lead ∙ leads))

  -- A call moves on, and leads what it led.
  pub place-Consistent :
      (flights : Flights) (t : ℕ) (phase : Phase)
      → Consistent cells calls flights
      → lead_key phase ≡ lead_key (calls t)
      → (flight_key (calls t) ≡ none) ⊎ (flight_key phase ≡ flight_key (calls t))
      → ((k : CacheKey) (f : ℕ) → phase ≡ waiting k f → Followed cells calls k f)
      → Consistent cells (update calls t phase) flights
  place-Consistent flights t phase v lead had follows = record {
    listed =
        All-map (Listed cells calls) (Listed cells (update calls t phase))
          (λ x h. (kept lead_key calls t phase x.1 lead ∙ h.0, h.1)) flights v.listed;
    held = λ u k q. v.held u k (sym (kept lead_key calls t phase u lead) ∙ q);
    waits = λ u f k q. place-Followed t phase k f lead had (elim (Bool-cases (t == u)) [
      | inl same ↦ follows k f (sym (update_same calls t phase u same) ∙ q)
      | inr other ↦ v.waits u f k (sym (update_other calls t phase u other) ∙ q)
    ]);
    settled = v.settled;
  }
