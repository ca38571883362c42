-- ===== src/Resilience/Breaker.antt =====
-- `CircuitKey`, `CircuitState` and `BreakerRegistry`. Where a method reads the clock, the readings
-- are its last arguments; a reading that a branch does not take is not used there.
pub mod Phases
pub mod Laws
use datasluice.Base.{
  ℕ, ◌+◌, String, Bool, true, false, not, ◌&&◌, ◌||◌, Option, none, some, List, [], leb, ltb,
  Equatable, ◌==◌, equatable_nat, equatable_string, ◌≡◌, ◌↔◌, arith, eq_iff, if◌then◌else◌,
}
use datasluice.Base.Dict
use datasluice.Base.Dict.{Dict}
use datasluice.Base.Exec.{Result, ok, raise}
use datasluice.Errors.{Exception, value_error}
use datasluice.Safety.{is_some}
use datasluice.Resilience.Decision.{valid_status}

pub record CircuitKey : Type 0 where
  pub origin : String
  pub credential_scope : String

abbrev pub key_beq : CircuitKey → CircuitKey → Bool
key_beq a b = a.origin == b.origin && a.credential_scope == b.credential_scope

pub key_beq_iff : (a b : CircuitKey) → (key_beq a b ≡ true) ↔ (a ≡ b)
key_beq_iff a b =
    ground (arith, eq_iff a.origin b.origin, eq_iff a.credential_scope b.credential_scope)

instance abbrev pub equatable_key : Equatable CircuitKey
equatable_key = record { equals = key_beq; equals_iff = key_beq_iff }

-- The parts of `urlsplit` that the constructor reads.
pub record SplitUrl : Type 0 where
  pub scheme : String
  pub netloc : String
  pub username : Option String
  pub password : Option String

abbrev is_text : Option String → Bool
is_text none = false
is_text (some s) = not (s == "")

-- `urlsplit` and `urlunsplit` are the standard library's.
unfoldable pub make_key :
    (String → SplitUrl) → (String → String → String) → String → String → Result Exception CircuitKey
make_key urlsplit urlunsplit origin credential_scope =
    let parsed = urlsplit origin in
    if not (parsed.scheme == "http" || parsed.scheme == "https")
      || parsed.netloc == ""
      || is_text parsed.username
      || is_text parsed.password
    then raise value_error
    else if credential_scope == ""
    then raise value_error
    else ok (record {
      origin = urlunsplit parsed.scheme parsed.netloc;
      credential_scope = credential_scope;
    })

pub record CircuitState : Type 0 where
  pub failure_count : ℕ
  pub failure_threshold : ℕ
  pub cooldown : ℕ
  pub is_open : Bool

unfoldable pub make_circuit : CircuitState → Result Exception CircuitState
make_circuit c = if ltb c.failure_threshold 1 || c.cooldown == 0 then raise value_error else ok c

unfoldable pub is_available : CircuitState → Bool
is_available c = not c.is_open

unfoldable pub record_failure : CircuitState → CircuitState
record_failure c =
    let failures = c.failure_count + 1 in
    record {
      failure_count = failures;
      failure_threshold = c.failure_threshold;
      cooldown = c.cooldown;
      is_open = leb c.failure_threshold failures;
    }

unfoldable pub reset_state : CircuitState → CircuitState
reset_state c = record {
  failure_count = 0;
  failure_threshold = c.failure_threshold;
  cooldown = c.cooldown;
  is_open = false;
}

pub record BreakerRegistry : Type 0 where
  pub initial_state : CircuitState
  pub states : Dict CircuitKey CircuitState
  pub opened_at : Dict CircuitKey ℕ
  pub trial_in_flight : List CircuitKey

abbrev pub new_registry : (failure_threshold cooldown : ℕ) → BreakerRegistry
new_registry failure_threshold cooldown = record {
  initial_state = record {
    failure_count = 0;
    failure_threshold = failure_threshold;
    cooldown = cooldown;
    is_open = false;
  };
  states = [];
  opened_at = [];
  trial_in_flight = [];
}

unfoldable pub make_registry : (failure_threshold cooldown : ℕ) → Result Exception BreakerRegistry
make_registry failure_threshold cooldown =
    if ltb failure_threshold 1 || cooldown == 0
    then raise value_error
    else ok (new_registry failure_threshold cooldown)

abbrev pub or_default {ℓ} : {A : Type ℓ} → Option A → A → A
or_default none d = d
or_default (some a) d = a

abbrev pub state_at : BreakerRegistry → CircuitKey → CircuitState
state_at r key = or_default (Dict.get r.states key) r.initial_state

-- `_state_for`: `setdefault` also stores the initial state under a new key.
unfoldable pub state_for : BreakerRegistry → CircuitKey → CircuitState × BreakerRegistry
state_for r key =
    if is_some (Dict.get r.states key)
    then (state_at r key, r)
    else (r.initial_state, record r { states = Dict.put r.states key r.initial_state })

unfoldable pub admit : BreakerRegistry → CircuitKey → (now later : ℕ) → Bool × BreakerRegistry
unfolding state_for
admit r key now later =
    let (state, r') = state_for r key in
    if not state.is_open
    then (true, r')
    else if ltb later (or_default (Dict.get r'.opened_at key) now + state.cooldown)
        || Dict.mem r'.trial_in_flight key
    then (false, r')
    else (true, record r' { trial_in_flight = Dict.add r'.trial_in_flight key })

unfoldable pub record_success : BreakerRegistry → CircuitKey → BreakerRegistry
unfolding state_for reset_state
record_success r key =
    let (state, r') = state_for r key in
    record r' {
      states = Dict.put r'.states key (reset_state state);
      opened_at = Dict.remove r'.opened_at key;
      trial_in_flight = Dict.discard r'.trial_in_flight key;
    }

unfoldable pub record_transport_failure : BreakerRegistry → CircuitKey → (now : ℕ) → BreakerRegistry
unfolding state_for record_failure
record_transport_failure r key now =
    let (old, r') = state_for r key in
    let state = record_failure old in
    record r' {
      states = Dict.put r'.states key state;
      trial_in_flight = Dict.discard r'.trial_in_flight key;
      opened_at = if state.is_open then Dict.put r'.opened_at key now else r'.opened_at;
    }

unfoldable pub release_trial : BreakerRegistry → CircuitKey → BreakerRegistry
unfolding state_for
release_trial r key =
    let (state, r') = state_for r key in
    record r' { trial_in_flight = Dict.discard r'.trial_in_flight key }

unfoldable pub record_response :
    BreakerRegistry → CircuitKey → (status_code now : ℕ) → Result Exception BreakerRegistry
unfolding valid_status record_transport_failure record_success release_trial
record_response r key status_code now =
    if not (valid_status status_code)
    then raise value_error
    else if leb 500 status_code
    then ok (record_transport_failure r key now)
    else if leb 200 status_code && ltb status_code 400
    then ok (record_success r key)
    else ok (release_trial r key)

unfoldable pub inspect : BreakerRegistry → CircuitKey → CircuitState × BreakerRegistry
unfolding state_for
inspect r key = state_for r key

unfoldable pub reset : BreakerRegistry → CircuitKey → BreakerRegistry
unfolding record_success
reset r key = record_success r key
