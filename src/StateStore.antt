-- ===== src/StateStore.antt =====
-- src/datasluice/sync/state_store.py: `FileStateStore`, and `SyncState` of domain/sync_state.py.
-- One writer at a time holds the lock of a key, so a `conditional_put` is one step here. `B` is
-- the type of a file's bytes.
pub mod Laws
pub mod Tests
use datasluice.Base.{
  ℕ, ℤ, pos, negsuc, String, Bool, true, false, not, ◌&&◌, ◌||◌, Option, none, some, List, [], ◌∷◌,
  ◌==◌, equatable_string, equatable_nat, leb, if◌then◌else◌, contains,
}
use datasluice.Base.Dict.{Dict}
use datasluice.Base.Exec.{Result, ok, raise, Exec, and_then}
use datasluice.Json.{Json, null, bool, int, float, text, array, object, Members, end, member}
use datasluice.Receipts.{lookup, has_key, has_keys, all_in, is_text}

pub data StateError : Type 0 where
  state_store_error : StateError
  conflict : StateError

-- What reading a file gives; `unreadable` is any exception but `FileNotFoundError`.
pub data Raw (B : Type 0) : Type 0 where
  there : B → Raw B
  missing : Raw B
  unreadable : Raw B

-- What the store calls: the filesystem, `json`, hashes, and the tests of texts and artifacts.
pub record StateHost (W B : Type 0) : Type 0 where
  pub cat_file : String → W → Raw B
  pub pipe_file : String → B → W → Bool × W
  pub mv : String → String → W → Bool × W
  pub safe_remove : String → W → W
  pub rm : String → W → Raw B × W
  pub tmp_path : B → W → String × W
  pub state_path : String → String
  pub sha256 : B → String
  pub no_bytes : B
  pub dumps : Json → B
  pub loads : B → Option Json
  pub is_completed_watermark : String → Bool
  pub is_timestamp : String → Bool
  pub is_sha256 : String → Bool
  pub is_artifact : Json → Bool

pub record SyncState : Type 0 where
  pub cursor : Dict String String
  pub partitions : Members
  pub last_synced_at : Option String
  pub extra : Members

abbrev pub watermark_schema : String
watermark_schema = "datasluice_completed_watermark_v1"

abbrev pub is_end : Members → Bool
is_end end = true
is_end (member k v m) = false

abbrev members_of : Json → Members
members_of (object m) = m
members_of _ = end

abbrev is_object : Json → Bool
is_object (object m) = true
is_object _ = false

abbrev is_natural : Json → Bool
is_natural (int (pos n)) = true
is_natural _ = false

-- `value == n` for a number that Python compares with the int, by the text of the equal float.
abbrev pub equals_int : ℕ → String → Json → Bool
equals_int n as_float (int (pos m)) = m == n
equals_int n as_float (bool true) = n == 1
equals_int n as_float (float s) = s == as_float
equals_int n as_float _ = false

-- `_encode_state`, its keys in the order of `sort_keys`.
abbrev pub encode_cursor : Dict String String → Members
encode_cursor [] = end
encode_cursor ((k, watermark) ∷ cursor) =
    member "schema" (text watermark_schema) (member "watermark" (text watermark) end)

abbrev pub optional : Option String → Json
optional none = null
optional (some s) = text s

abbrev pub encode_state : SyncState → Json
encode_state s = object (
    member "cursor" (object (encode_cursor s.cursor)) (
      member "extra" (object s.extra) (
        member "last_synced_at" (optional s.last_synced_at)
          (member "partitions" (object end) end))))

abbrev pub envelope : SyncState → Json
envelope s = object (member "schema_version" (int (pos 1)) (member "state" (encode_state s) end))

-- `_decode_completed_cursor`
unfoldable pub decode_cursor : String → Json → Result StateError (Dict String String)
decode_cursor key (object m) =
    if is_end m
    then ok []
    else if has_keys ("schema" ∷ "watermark" ∷ []) m && is_text watermark_schema (lookup "schema" m)
    then elim (lookup "watermark" m) [
      | text watermark ↦ ok ((key, watermark) ∷ [])
      | _ ↦ raise state_store_error
    ]
    else raise state_store_error
decode_cursor key _ = raise state_store_error

-- `s.get(field, {})`, and `_mapping_field`.
abbrev pub get_or_empty : String → Members → Json
get_or_empty field m = if has_key m field then lookup field m else object end

abbrev pub mapping_field : String → Members → Result StateError Members
mapping_field field m = elim (get_or_empty field m) [
  | object v ↦ ok v
  | _ ↦ raise state_store_error
]

-- `last_synced_at`, which the validation refuses unless it is a text or absent.
abbrev pub timestamp_field : Json → Result StateError (Option String)
timestamp_field null = ok none
timestamp_field (text s) = ok (some s)
timestamp_field _ = raise state_store_error

module _ {W B : Type 0} (h : StateHost W B) where
  abbrev pub valid_cursor : String → Dict String String → Bool
  valid_cursor key [] = true
  valid_cursor key ((k, watermark) ∷ []) = k == key && h.is_completed_watermark watermark
  valid_cursor key (a ∷ b ∷ cursor) = false

  abbrev pub valid_timestamp : Option String → Bool
  valid_timestamp none = true
  valid_timestamp (some s) = h.is_timestamp s

  abbrev is_digest : Json → Bool
  is_digest (text s) = h.is_sha256 s
  is_digest _ = false

  abbrev is_source_version : Json → Bool
  is_source_version null = true
  is_source_version v = is_digest v

  -- `_validate_checkpoint_v3`
  unfoldable pub valid_checkpoint : Members → Bool
  valid_checkpoint c =
      let position = lookup "position" c in
      has_keys
        ("version" ∷ "status" ∷ "next_batch_index" ∷ "position" ∷ "source_version"
          ∷ "destination_identity" ∷ [])
        c
      && is_object position
      && has_keys ("kind" ∷ "row_group_index" ∷ []) (members_of position)
      && is_natural (lookup "next_batch_index" c)
      && is_natural (lookup "row_group_index" (members_of position))
      && is_text "parquet_row_group" (lookup "kind" (members_of position))
      && is_text "in_progress" (lookup "status" c)
      && is_source_version (lookup "source_version" c)
      && is_digest (lookup "destination_identity" c)

  -- `_validate_extra`
  unfoldable pub valid_extra : Members → Bool
  unfolding valid_checkpoint
  valid_extra extra =
      if is_end extra
      then true
      else if has_key extra "datasluice_completed_artifact"
          && all_in ("datasluice_completed_artifact" ∷ "datasluice_source_version" ∷ []) extra
      then h.is_artifact (lookup "datasluice_completed_artifact" extra)
        && is_source_version (lookup "datasluice_source_version" extra)
      else has_keys ("datasluice_checkpoint" ∷ []) extra
        && is_object (lookup "datasluice_checkpoint" extra)
        && equals_int 3 "3.0" (lookup "version" (members_of (lookup "datasluice_checkpoint" extra)))
        && valid_checkpoint (members_of (lookup "datasluice_checkpoint" extra))

  -- `_validate_state_for_write`
  unfoldable pub valid_state : String → SyncState → Bool
  unfolding valid_extra
  valid_state key s =
      valid_cursor key s.cursor
      && is_end s.partitions
      && valid_timestamp s.last_synced_at
      && valid_extra s.extra

  abbrev validated : String → SyncState → Result StateError SyncState
  validated key s = if valid_state key s then ok s else raise state_store_error

  abbrev decode_fields : String → Members → Result StateError SyncState
  decode_fields key m = and_then (decode_cursor key (get_or_empty "cursor" m)) (λ cursor.
      and_then (mapping_field "partitions" m) (λ partitions.
        and_then (timestamp_field (lookup "last_synced_at" m)) (λ last_synced_at.
          and_then (mapping_field "extra" m) (λ extra. validated key (record {
            cursor = cursor;
            partitions = partitions;
            last_synced_at = last_synced_at;
            extra = extra;
          })))))

  abbrev decode_json : String → Option Json → Result StateError SyncState
  decode_json key (some (object m)) =
      if equals_int 1 "1.0" (lookup "schema_version" m)
        && is_object (lookup "state" m)
        && has_keys ("schema_version" ∷ "state" ∷ []) m
      then decode_fields key (members_of (lookup "state" m))
      else raise state_store_error
  decode_json key _ = raise state_store_error

  -- `_decode_envelope`
  unfoldable pub decode_envelope : String → B → Result StateError SyncState
  unfolding decode_cursor valid_state
  decode_envelope key raw = decode_json key (h.loads raw)

  abbrev read_of : Raw B → Result StateError (Option B)
  read_of (there b) = ok (some b)
  read_of missing = ok none
  read_of unreadable = raise state_store_error

  unfoldable pub read_raw : String → W → Result StateError (Option B)
  read_raw key w = read_of (h.cat_file (h.state_path key) w)

  abbrev decoded : String → Option B → Result StateError (Option SyncState × Option B)
  decoded key none = ok (none, none)
  decoded key (some raw) = and_then (decode_envelope key raw) (λ s. ok (some s, some raw))

  -- `get` gives the first of the two.
  unfoldable pub get_with_version : String → W → Result StateError (Option SyncState × Option B)
  unfolding decode_envelope read_raw
  get_with_version key w = and_then (read_raw key w) (decoded key)

  -- `_publish`
  unfoldable pub publish : String → B → Exec W StateError B
  publish key payload w =
      let (tmp, w1) = h.tmp_path payload w in
      let (piped, w2) = h.pipe_file tmp payload w1 in
      if not piped
      then (raise state_store_error, h.safe_remove tmp w2)
      else let (moved, w3) = h.mv tmp (h.state_path key) w2 in
        if moved then (ok payload, w3) else (raise state_store_error, h.safe_remove tmp w3)

  -- `put` with no expected version.
  unfoldable pub put : String → SyncState → Exec W StateError B
  unfolding publish valid_state
  put key s w =
      if valid_state key s
      then publish key (h.dumps (envelope s)) w
      else (raise state_store_error, w)

  abbrev pub bytes_of : Option B → B
  bytes_of none = h.no_bytes
  bytes_of (some b) = b

  abbrev swap : String → B → Option B → Result StateError (Option B) → Exec W StateError B
  swap key payload expected (raise e) w = (raise e, w)
  swap key payload expected (ok actual) w =
      if h.sha256 (bytes_of actual) == h.sha256 (bytes_of expected)
      then publish key payload w
      else (raise conflict, w)

  unfoldable pub conditional_put : String → SyncState → (expected : Option B) → Exec W StateError B
  unfolding publish valid_state read_raw
  conditional_put key s expected w =
      if valid_state key s
      then swap key (h.dumps (envelope s)) expected (read_raw key w) w
      else (raise state_store_error, w)

  abbrev removed : Raw B × W → Result StateError (Unit {0}) × W
  removed (unreadable, w) = (raise state_store_error, w)
  removed (_, w) = (ok tt, w)

  -- A file that is missing is tolerated.
  unfoldable pub delete : String → Exec W StateError (Unit {0})
  delete key w = removed (h.rm (h.state_path key) w)
