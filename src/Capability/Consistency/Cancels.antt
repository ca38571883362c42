-- ===== src/Capability/Consistency/Cancels.antt =====
-- Invalidation of flights keeps them consistent, and reaches every flight of its keys.
use datasluice.Base.{
  ℕ, Bool, true, false, ◌&&◌, ◌||◌, some, List, [], ◌∷◌, ◌==◌, if◌then◌else◌, equatable_nat,
  nat_beq_iff, ◌≡◌, refl, sym, ap, ◌∙◌, ◌⊎◌, inl, inr, arith, Bool-cases, All,
}
use datasluice.Base.Dict.{get}
use datasluice.Catalog.{OperationId, equatable_operation}
use datasluice.Capability.Entries.{CacheKey, equatable_cache_key, cache_key_beq_iff, drop_operation}
use datasluice.Capability.Flights.{SyncFlight, Phase, Flights, update, cancel, cancel_flights}
use datasluice.Capability.Consistency.{lead_key, is_settled, IsCancelled, Listed, Consistent}

-- Whether a flight is listed under a key that matches.
marked : (CacheKey → Bool) → Flights → ℕ → Bool
marked matches [] t = false
marked matches ((k, f) ∷ flights) t = (matches k && f == t) || marked matches flights t

cancelled-at :
    (matches : CacheKey → Bool) (flights : Flights) (cells : ℕ → SyncFlight) (t : ℕ)
    → cancel_flights matches flights cells t
      ≡ (if marked matches flights t then cancel (cells t) else cells t)
unfolding cancel_flights marked
cancelled-at matches [] cells t = refl
cancelled-at matches ((k, f) ∷ flights) cells t = ground (
  arith,
  cancelled-at matches flights (if matches k then update cells f (cancel (cells f)) else cells) t,
)

pub profile_kept :
    (matches : CacheKey → Bool) (flights : Flights) (cells : ℕ → SyncFlight) (t : ℕ)
    → (cancel_flights matches flights cells t).profile ≡ (cells t).profile
profile_kept matches flights cells t = elim (Bool-cases (marked matches flights t)) [
  | inl hit ↦ rw (cancelled-at matches flights cells t, hit) refl
  | inr free ↦ rw (cancelled-at matches flights cells t, free) refl
]

get-marked :
    (matches : CacheKey → Bool) (flights : Flights) (k : CacheKey) (t : ℕ)
    → get flights k ≡ some t
    → matches k ≡ true
    → marked matches flights t ≡ true
unfolding get marked
get-marked matches [] k t there m = cc
get-marked matches ((j, f) ∷ flights) k t there m = elim (Bool-cases (j == k)) [
  | inl same ↦
      let e : j ≡ k = (cache_key_beq_iff j k).0 same in
      let m' : matches j ≡ true = ap matches e ∙ m in
      let z : f ≡ t = ground arith in ground (arith, nat_beq_iff f t)
  | inr other ↦ let rest = get-marked matches flights k t (ground arith) m in ground arith
]

pub All-drop :
    {V : Type 0} (P Q : CacheKey × V → Type 0) (i : OperationId) (d : List (CacheKey × V))
    → ((k : CacheKey) (f : V) → (k.operation == i) ≡ false → P (k, f) → Q (k, f))
    → All P d
    → All Q (drop_operation i d)
unfolding drop_operation
All-drop P Q i [] f h = tt
All-drop P Q i ((k, t) ∷ d) f h = elim (Bool-cases (k.operation == i)) [
  | inl same ↦ rw same (All-drop P Q i d f h.1)
  | inr other ↦ rw other (f k t other h.0, All-drop P Q i d f h.1)
]

get-drop :
    (i : OperationId) (d : Flights) (k : CacheKey)
    → (k.operation == i) ≡ false
    → get (drop_operation i d) k ≡ get d k
unfolding drop_operation get
get-drop i [] k other = refl
get-drop i ((j, t) ∷ d) k other = elim (Bool-cases (j == k)) [
  | inl same ↦
      let e : (j.operation == i) ≡ false =
        ap (λ (z : CacheKey). z.operation == i) ((cache_key_beq_iff j k).0 same) ∙ other in
      rw (e, same) refl
  | inr differ ↦ elim (Bool-cases (j.operation == i)) [
    | inl dropped ↦ rw (dropped, differ) (get-drop i d k other)
    | inr stays ↦ rw (stays, differ) (get-drop i d k other)
  ]
]

module _ (cells : ℕ → SyncFlight) (calls : ℕ → Phase) (matches : CacheKey → Bool) where
  marked-leads :
      (flights : Flights) (t : ℕ)
      → All (Listed cells calls) flights
      → marked matches flights t ≡ true
      → (k : CacheKey) × (lead_key (calls t) ≡ some k) × (matches k ≡ true)
  unfolding marked
  marked-leads [] t h e = cc
  marked-leads ((k, f) ∷ flights) t h e = elim (Bool-cases (matches k && f == t)) [
    | inl here ↦ (
      k,
      ap (λ n. lead_key (calls n)) (sym ((nat_beq_iff f t).0 (ground arith))) ∙ h.0.0,
      ground arith,
    )
    | inr other ↦ marked-leads flights t h.1 (rw other at e)
  ]

  module _ (flights : Flights) (v : Consistent cells calls flights) where
    unmarked :
        (t : ℕ) (k : CacheKey)
        → matches k ≡ false
        → Listed cells calls (k, t)
        → Listed (cancel_flights matches flights cells) calls (k, t)
    unmarked t k apart h = elim (Bool-cases (marked matches flights t)) [
      | inr free ↦ (h.0, cancelled-at matches flights cells t ∙ rw free h.1)
      | inl hit ↦
          let (j, leads, m) = marked-leads flights t v.listed hit in
          let same : k ≡ j = cc (sym h.0 ∙ leads) in absurd (cc (sym apart ∙ ap matches same ∙ m))
    ]

    pub cancel_flights-IsCancelled :
        (k : CacheKey) (t : ℕ)
        → get flights k ≡ some t
        → matches k ≡ true
        → IsCancelled (cancel_flights matches flights cells t)
    cancel_flights-IsCancelled k t there m =
        rw (cancelled-at matches flights cells t, get-marked matches flights k t there m)
          (refl, refl, refl)

    pub IsCancelled-cancel_flights :
        (t : ℕ) → IsCancelled (cells t) → IsCancelled (cancel_flights matches flights cells t)
    IsCancelled-cancel_flights t gone = elim (Bool-cases (marked matches flights t)) [
      | inl hit ↦ rw (cancelled-at matches flights cells t, hit) (refl, refl, refl)
      | inr free ↦ rw (cancelled-at matches flights cells t, free) gone
    ]

    still_set :
        (t : ℕ) → (cells t).event ≡ true → (cancel_flights matches flights cells t).event ≡ true
    still_set t set = elim (Bool-cases (marked matches flights t)) [
      | inl hit ↦ rw (cancelled-at matches flights cells t, hit) refl
      | inr free ↦ rw (cancelled-at matches flights cells t, free) set
    ]

    still_settled :
        (t : ℕ)
        → (cancel_flights matches flights cells t).event ≡ true
        → is_settled (cancel_flights matches flights cells t) ≡ true
    still_settled t set = elim (Bool-cases (marked matches flights t)) [
      | inl hit ↦ rw (cancelled-at matches flights cells t, hit) refl
      | inr free ↦
          let e = cancelled-at matches flights cells t in
          rw (e, free) (v.settled t (rw (e, free) at set))
    ]

    cancel-Consistent :
        (rest : Flights)
        → All (Listed (cancel_flights matches flights cells) calls) rest
        → ((k : CacheKey) (t : ℕ)
            → get flights k ≡ some t
            → (matches k ≡ true) ⊎ (get rest k ≡ some t))
        → Consistent (cancel_flights matches flights cells) calls rest
    cancel-Consistent rest all covers = record {
      listed = all;
      held = λ t k q. elim (v.held t k q) [
        | inl gone ↦ inl (IsCancelled-cancel_flights t gone)
        | inr there ↦ elim (covers k t there) [
          | inl m ↦ inl (cancel_flights-IsCancelled k t there m)
          | inr stays ↦ inr stays
        ]
      ];
      waits = λ t f k q.
          let h = v.waits t f k q in
          (h.0, elim h.1 [ inl set ↦ inl (still_set f set) | inr leads ↦ inr leads ]);
      settled = still_settled;
    }

module _ (cells : ℕ → SyncFlight) (calls : ℕ → Phase) (flights : Flights) where
  pub all-Consistent :
      Consistent cells calls flights
      → Consistent (cancel_flights (λ k. true) flights cells) calls []
  all-Consistent v = cancel-Consistent cells calls (λ k. true) flights v [] tt (λ k t q. inl refl)

  pub operation-Consistent :
      (i : OperationId)
      → Consistent cells calls flights
      → Consistent
          (cancel_flights (λ k. k.operation == i) flights cells)
          calls
          (drop_operation i flights)
  operation-Consistent i v =
      let matches : CacheKey → Bool = λ k. k.operation == i in
      cancel-Consistent cells calls matches flights v (drop_operation i flights)
        (All-drop (Listed cells calls) (Listed (cancel_flights matches flights cells) calls) i
          flights (λ k t other h. unmarked cells calls matches flights v t k other h) v.listed)
        (λ k t there. elim (Bool-cases (k.operation == i)) [
          | inl same ↦ inl same
          | inr other ↦ inr (get-drop i flights k other ∙ there)
        ])
