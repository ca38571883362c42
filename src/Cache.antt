-- ===== src/Cache.antt =====
-- src/datasluice/io/content_cache.py: the content cache. Its SQLite table is a dictionary of
-- rows, its directory belongs to a filesystem, and times are whole milliseconds. A content file
-- is named by its base name; `B` is the type of the payloads. A transaction that does not begin
-- or commit leaves the table as it was.
pub mod Files
pub mod Laws
pub mod Hits
pub mod Entries
pub mod Tests
use datasluice.Base.{
  ℕ, ◌+◌, ◌-◌, String, Bool, true, false, not, ◌&&◌, ◌||◌, Option, none, some, List, [], ◌∷◌, ltb,
  length, contains, ◌==◌, equatable_string, equatable_nat, if◌then◌else◌, ◌≡◌, ◌≢◌,
}
use datasluice.Base.Dict
use datasluice.Base.Dict.{Dict}
use datasluice.Base.Exec.{Exec, Result, ok, raise, throw, pure}

-- What reading a file gives.
pub data Content (B : Type 0) : Type 0 where
  found : B → Content B
  -- `FileNotFoundError`
  absent : Content B
  -- any other exception
  unreadable : Content B

pub data CacheError : Type 0 where
  -- `DownloadError`
  download_error : CacheError
  -- what the filesystem or SQLite raised
  backend_error : CacheError

-- What the cache calls: the filesystem, SQLite, the clock, and the hashes. A call that raises says
-- `false`, and `ls` says `none`.
pub record Host (W B : Type 0) : Type 0 where
  pub now : W → ℕ × W
  pub cat_file : String → W → Content B
  pub pipe_file : String → B → W → Bool × W
  pub mv : String → String → W → Bool × W
  -- `exists` and `rm`, as `safe_remove` and `delete` call them
  pub rm : String → W → Bool × W
  pub ls : W → Option (List String)
  -- whether a transaction goes through
  pub transaction : W → Bool × W
  pub sha256 : String → String
  pub payload_sha256 : B → String
  -- the name of a temporary file, from the hash of the key
  pub tmp_path : String → W → String × W
  -- whether a name is 64 lower-case hexadecimal digits
  pub is_digest : String → Bool
  -- `len`
  pub size : B → ℕ
  pub ttl : ℕ

pub data Status : Type 0 where
  writing ready : Status

abbrev pub is_writing : Status → Bool
is_writing writing = true
is_writing ready = false

pub record Row : Type 0 where
  pub url : String
  pub etag : Option String
  pub last_modified : Option String
  pub fetched_at : ℕ
  pub content_length : ℕ
  pub status : Status
  pub content_sha : Option String

pub record ContentCache (W : Type 0) : Type 0 where
  pub rows : Dict String Row
  pub last_sweep : ℕ
  pub orphan_candidates : List String
  pub world : W

-- `STALE_WRITING_THRESHOLD_SECONDS` and `SWEEP_INTERVAL_SECONDS`, in milliseconds.
abbrev pub stale_writing_threshold : ℕ
stale_writing_threshold = 300000

abbrev pub sweep_interval : ℕ
sweep_interval = 60000

abbrev pub content_name : Option String → String → String
content_name (some d) sha = d
content_name none sha = sha

abbrev pub expired : (ttl t1 t2 : ℕ) → Row → Bool
expired ttl t1 t2 r = elim r.status [
  | writing ↦ ltb (r.fetched_at + stale_writing_threshold) t1
  | ready ↦ ltb (r.fetched_at + ttl) t2
]

-- The rows that stay behind the sweep's `DELETE`.
unfoldable pub unexpired : (ttl t1 t2 : ℕ) → Dict String Row → Dict String Row
unexpired ttl t1 t2 [] = []
unexpired ttl t1 t2 ((k, r) ∷ rows) =
    let rest = unexpired ttl t1 t2 rows in if expired ttl t1 t2 r then rest else (k, r) ∷ rest

-- `known`: the content names that the rows refer to.
unfoldable pub known : Dict String Row → List String
known [] = []
known ((k, r) ∷ rows) = content_name r.content_sha k ∷ known rows

-- `SELECT 1 FROM cache WHERE content_sha=?`
unfoldable pub refers : Dict String Row → String → Bool
refers [] name = false
refers ((k, r) ∷ rows) name = elim r.content_sha [
  | none ↦ refers rows name
  | some d ↦ if d == name then true else refers rows name
]

module _ {W B : Type 0} (h : Host W B) where
  unfoldable pub candidates : List String → List String → List String
  candidates [] names = []
  candidates (base ∷ entries) names =
      let rest = candidates entries names in
      if h.is_digest base && not (contains names base) then base ∷ rest else rest

  -- `candidates & self._orphan_candidates`
  unfoldable pub both : List String → List String → List String
  both [] ys = []
  both (x ∷ xs) ys = let rest = both xs ys in if contains ys x then x ∷ rest else rest

  -- `safe_remove` of each.
  unfoldable pub remove_all : List String → W → W
  remove_all [] w = w
  remove_all (name ∷ names) w = remove_all names (h.rm name w).1

  abbrev sweep_rows : List String → (t1 t2 : ℕ) → ContentCache W → ContentCache W
  sweep_rows entries t1 t2 c =
      let rows = unexpired h.ttl t1 t2 c.rows in
      let found_now = candidates entries (known rows) in
      record {
        rows = rows;
        last_sweep = c.last_sweep;
        orphan_candidates = found_now;
        world = remove_all (both found_now c.orphan_candidates) c.world;
      }

  -- The body of the sweep's `try`: where a call raises, the rest is left out.
  unfoldable pub sweep_listed : Option (List String) → ContentCache W → ContentCache W
  unfolding candidates both remove_all
  sweep_listed none c = c
  sweep_listed (some entries) c =
      let (t1, w1) = h.now c.world in
      let (t2, w2) = h.now w1 in
      let (through, w3) = h.transaction w2 in
      let c' : ContentCache W = record c { world = w3 } in
      if through then sweep_rows entries t1 t2 c' else c'

  -- `_maybe_sweep`
  unfoldable pub maybe_sweep : ContentCache W → ContentCache W
  unfolding sweep_listed
  maybe_sweep c =
      let (t, w) = h.now c.world in
      if ltb (t - c.last_sweep) sweep_interval
      then record c { world = w }
      else sweep_listed (h.ls w) (record c { last_sweep = t; world = w })

  abbrev pub cached : Content B → Exec (ContentCache W) CacheError (Option B)
  cached (found payload) = pure (some payload)
  cached absent = pure none
  cached unreadable = throw backend_error

  -- `get` behind its `SELECT`.
  unfoldable pub get_row : String → Option Row → Exec (ContentCache W) CacheError (Option B)
  get_row sha none c = (ok none, c)
  get_row sha (some row) c =
      if is_writing row.status
      then (ok none, c)
      else let (t, w) = h.now c.world in
        let c' : ContentCache W = record c { world = w } in
        if ltb (row.fetched_at + h.ttl) t
        then (ok none, c')
        else cached (h.cat_file (content_name row.content_sha sha) w) c'

  unfoldable pub get : String → Exec (ContentCache W) CacheError (Option B)
  unfolding maybe_sweep get_row
  get key c = let c' = maybe_sweep c in get_row (h.sha256 key) (Dict.get c'.rows (h.sha256 key)) c'

  -- `get_metadata`: the row itself stands for the dictionary of its fields.
  unfoldable pub metadata_row : Option Row → ContentCache W → Option Row × ContentCache W
  metadata_row none c = (none, c)
  metadata_row (some row) c =
      if is_writing row.status
      then (none, c)
      else let (t, w) = h.now c.world in
        let c' : ContentCache W = record c { world = w } in
        if ltb (row.fetched_at + h.ttl) t then (none, c') else (some row, c')

  unfoldable pub get_metadata : String → ContentCache W → Option Row × ContentCache W
  unfolding metadata_row
  get_metadata key c = metadata_row (Dict.get c.rows (h.sha256 key)) c

  -- The content file of `payload` is written under a temporary name and moved; on a failure the
  -- temporary file is removed.
  unfoldable pub publish : String → B → W → Bool × W
  publish sha payload w =
      let (tmp, w1) = h.tmp_path sha w in
      let (piped, w2) = h.pipe_file tmp payload w1 in
      if not piped
      then (false, (h.rm tmp w2).1)
      else let (moved, w3) = h.mv tmp (h.payload_sha256 payload) w2 in
        if moved then (true, w3) else (false, (h.rm tmp w3).1)

  abbrev pub new_row : String → B → Option String → Option String → ℕ → Row
  new_row key payload etag last_modified fetched_at = record {
    url = key;
    etag = etag;
    last_modified = last_modified;
    fetched_at = fetched_at;
    content_length = h.size payload;
    status = ready;
    content_sha = some (h.payload_sha256 payload);
  }

  -- `INSERT OR REPLACE` in its transaction.
  unfoldable pub commit_row : String → Row → Exec (ContentCache W) CacheError (Unit {0})
  commit_row sha row c =
      let (through, w) = h.transaction c.world in
      if through
      then (ok tt, record c { rows = Dict.put c.rows sha row; world = w })
      else (raise download_error, record c { world = w })

  -- `_put_internal`, which is `put` with no metadata and `put_with_metadata`.
  unfoldable pub put_internal :
      String
      → B
      → (etag last_modified : Option String) → Exec (ContentCache W) CacheError (Unit {0})
  unfolding publish commit_row maybe_sweep
  put_internal key payload etag last_modified c =
      let (t, w) = h.now c.world in
      let (published, w') = publish (h.sha256 key) payload w in
      let c' : ContentCache W = record c { world = w' } in
      if not published
      then (raise download_error, c')
      else let (res, c'') =
          commit_row (h.sha256 key) (new_row key payload etag last_modified t) c' in
        elim res [ ok u ↦ (ok u, maybe_sweep c'') | raise e ↦ (raise e, c'') ]

  abbrev pub row_content : Option Row → String → String
  row_content none sha = sha
  row_content (some row) sha = content_name row.content_sha sha

  unfoldable pub delete : String → Exec (ContentCache W) CacheError (Unit {0})
  unfolding refers
  delete key c =
      let sha = h.sha256 key in
      let (through, w) = h.transaction c.world in
      if not through
      then (raise backend_error, record c { world = w })
      else let name = row_content (Dict.get c.rows sha) sha in
        let rows = Dict.remove c.rows sha in
        let c' : ContentCache W = record c { rows = rows; world = w } in
        if refers rows name
        then (ok tt, c')
        else let (removed, w') = h.rm name w in
          if removed
          then (ok tt, record c' { world = w' })
          else (raise backend_error, record c' { world = w' })
