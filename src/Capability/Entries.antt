-- ===== src/Capability/Entries.antt =====
-- src/datasluice/runtime/capability.py: the entries of the cache, each under a time stamp.
use datasluice.Base.{
  ℕ, ◌+◌, ◌*◌, String, Bool, true, ◌&&◌, Option, none, some, List, [], ◌∷◌, ◌==◌, if◌then◌else◌,
  equatable_string, Equatable, leb, length, ◌≡◌, ◌↔◌, arith, eq_iff,
}
use datasluice.Base.Dict.{Dict, get, put, remove}
use datasluice.Catalog.{OperationId, equatable_operation, operation_beq_iff}
use datasluice.Capability.Profiles.{EffectiveProfile}
use datasluice.Capability.Evidence.{CacheConfig}

pub record CacheKey : Type 0 where
  pub namespace : String
  pub origin : String
  pub credential_scope : String
  pub operation : OperationId

abbrev pub cache_key_beq : CacheKey → CacheKey → Bool
cache_key_beq a b =
    a.namespace == b.namespace
    && (a.origin == b.origin
        && (a.credential_scope == b.credential_scope && a.operation == b.operation))

pub cache_key_beq_iff : (a b : CacheKey) → (cache_key_beq a b ≡ true) ↔ (a ≡ b)
cache_key_beq_iff a b = ground (
  arith,
  eq_iff a.namespace b.namespace,
  eq_iff a.origin b.origin,
  eq_iff a.credential_scope b.credential_scope,
  operation_beq_iff a.operation b.operation,
)

instance abbrev pub equatable_cache_key : Equatable CacheKey
equatable_cache_key = record { equals = cache_key_beq; equals_iff = cache_key_beq_iff }

pub record CacheEntry : Type 0 where
  pub profile : EffectiveProfile
  pub timestamp : ℕ

abbrev pub Entries : Type 0
Entries = Dict CacheKey CacheEntry

abbrev pub max_cache_entries : ℕ
max_cache_entries = 1024

-- `self._deployment_origin or ""`
abbrev pub origin_or_empty : Option String → String
origin_or_empty none = ""
origin_or_empty (some origin) = origin

-- `_cache_key`
unfoldable pub cache_key : CacheConfig → OperationId → String → CacheKey
cache_key c i scope = record {
  namespace = c.namespace;
  origin = origin_or_empty c.deployment_origin;
  credential_scope = scope;
  operation = i;
}

-- `timestamp - entry.timestamp <= 2 * ttl`, of numbers that may be negative.
unfoldable pub retained : ℕ → ℕ → Entries → Entries
retained ttl timestamp [] = []
retained ttl timestamp ((k, entry) ∷ d) =
    let rest = retained ttl timestamp d in
    if leb timestamp (entry.timestamp + 2 * ttl) then (k, entry) ∷ rest else rest

abbrev pub without_first : Entries → Entries
without_first [] = []
without_first (x ∷ d) = d

-- `_store_entry`
unfoldable pub make_room : ℕ → ℕ → Entries → Entries
unfolding retained
make_room ttl timestamp d =
    if leb max_cache_entries (length d)
    then (if leb max_cache_entries (length (retained ttl timestamp d))
        then without_first (retained ttl timestamp d)
        else retained ttl timestamp d)
    else d

unfoldable pub store_entry : ℕ → Entries → CacheKey → EffectiveProfile → ℕ → Entries
unfolding make_room
store_entry ttl d k profile timestamp =
    put (make_room ttl timestamp (remove d k)) k
      (record { profile = profile; timestamp = timestamp })

abbrev pub fresh_of : ℕ → Entries → CacheKey → ℕ → Option CacheEntry → Option CacheEntry × Entries
fresh_of ttl d k now none = (none, d)
fresh_of ttl d k now (some entry) =
    if leb (entry.timestamp + ttl) now then (none, remove d k) else (some entry, d)

-- `_fresh_entry`: an expired entry is dropped.
unfoldable pub fresh_entry : ℕ → Entries → CacheKey → ℕ → Option CacheEntry × Entries
fresh_entry ttl d k now = fresh_of ttl d k now (get d k)

-- `_invalidate_operation`, on the entries.
unfoldable pub drop_operation {ℓ} :
    {V : Type ℓ} → OperationId → List (CacheKey × V) → List (CacheKey × V)
drop_operation i [] = []
drop_operation i ((k, v) ∷ d) =
    let rest = drop_operation i d in if k.operation == i then rest else (k, v) ∷ rest
