-- ===== src/Cache/Entries.antt =====
-- Entries that one key's calls leave to another key.
use datasluice.Base.{
  ℕ, ◌+◌, ◌≤◌, ◌≡◌, ◌≢◌, sym, ap, refl, ◌∙◌, String, Option, none, some, List, [], ◌∷◌, ltb,
  equatable_string, equatable_nat, arith, eq_iff, Bool-cases, inl, inr, All,
}
use datasluice.Base.Dict
use datasluice.Base.Dict.{Dict, get-put, get-remove}
use datasluice.Base.Exec.{Result, ok, raise}
use datasluice.Cache.{
  Host, Row, Content, found, absent, unreadable, content_name, refers, ContentCache, CacheError,
  maybe_sweep, cached, get_row, get, get_metadata, publish, new_row, commit_row, put_internal,
  row_content, delete, metadata_row, is_writing,
}
use datasluice.Cache.Files.{HostLaws}
use datasluice.Cache.Laws.{
  CacheCall, get_call, metadata_call, delete_call, put_call, perform, perform_all, publish-kept,
  publish-done, true-false,
}
use datasluice.Cache.Hits.{IsTimely, Stored, moved, maybe_sweep-Stored, get-Stored, refers-get}

module _ {W B : Type 0} (h : Host W B) (v : HostLaws h) (key : String) (p : B) where
  read_clock-Stored :
      (c : ContentCache W)
      → Stored h key p c
      → Stored h key p (record c { world = (h.now c.world).1 })
  read_clock-Stored c s =
      moved h key p c (record c { world = (h.now c.world).1 }) s refl
        (λ e. v.now-files c.world (h.payload_sha256 p) ∙ e)

  cached-Stored :
      (q : Content B) (c : ContentCache W) → Stored h key p c → Stored h key p (cached h q c).1
  cached-Stored (found b) c s = s
  cached-Stored absent c s = s
  cached-Stored unreadable c s = s

  get_row-Stored :
      (sha : String) (o : Option Row) (c : ContentCache W)
      → Stored h key p c
      → Stored h key p (get_row h sha o c).1
  unfolding get_row
  get_row-Stored sha none c s = s
  get_row-Stored sha (some row) c s =
      let s' = read_clock-Stored c s in
      let c' : ContentCache W = record c { world = (h.now c.world).1 } in
      elim (Bool-cases (is_writing row.status)) [
        | inl held ↦ rw held s
        | inr there ↦ rw there (elim (Bool-cases (ltb (row.fetched_at + h.ttl) (h.now c.world).0)) [
          | inl old ↦ rw old s'
          | inr fresh ↦
              rw fresh
                (cached-Stored (h.cat_file (content_name row.content_sha sha) c'.world) c' s')
        ])
      ]

  metadata-Stored :
      (o : Option Row) (c : ContentCache W)
      → Stored h key p c
      → Stored h key p (metadata_row h o c).1
  unfolding metadata_row
  metadata-Stored none c s = s
  metadata-Stored (some row) c s =
      let s' = read_clock-Stored c s in
      elim (Bool-cases (is_writing row.status)) [
        | inl held ↦ rw held s
        | inr there ↦ rw there (elim (Bool-cases (ltb (row.fetched_at + h.ttl) (h.now c.world).0)) [
          | inl old ↦ rw old s'
          | inr fresh ↦ rw fresh s'
        ])
      ]

  commit-Stored :
      (sha : String) (row : Row) (c : ContentCache W)
      → sha ≢ h.sha256 key
      → Stored h key p c
      → Stored h key p (commit_row h sha row c).1
  unfolding commit_row
  commit-Stored sha row c apart s =
      let w = (h.transaction c.world).1 in
      let file' = v.transaction-files c.world (h.payload_sha256 p) ∙ s.file in
      elim (Bool-cases (h.transaction c.world).0) [
        | inr fails ↦ rw fails (moved h key p c (record c { world = w }) s refl (λ _. file'))
        | inl through ↦ rw through (record {
          row = s.row;
          lookup = ground (
            arith,
            get-put c.rows sha (h.sha256 key) row,
            s.lookup,
            eq_iff sha (h.sha256 key),
            apart,
          );
          published = s.published;
          content = s.content;
          file = file';
          fresh = s.fresh;
        })
      ]

  after_commit :
      (r : Result CacheError (Unit {0})) (c : ContentCache W)
      → Stored h key p c
      → Stored h key p
          (elim r as (λ _. Result CacheError (Unit {0}) × ContentCache W) [
            | ok u ↦ (ok u, maybe_sweep h c)
            | raise e ↦ (raise e, c)
          ]).1
  after_commit (ok u) c s = maybe_sweep-Stored h v key p c s
  after_commit (raise e) c s = s

  published-Stored :
      (sha : String) (b : B) (c : ContentCache W)
      → Stored h key p c
      → Stored h key p (record c { world = (publish h sha b (h.now c.world).1).1 })
  published-Stored sha b c s =
      moved h key p c (record c { world = (publish h sha b (h.now c.world).1).1 }) s refl
        (λ e.
          publish-kept h v sha b p (h.now c.world).1 (v.now-files c.world (h.payload_sha256 p) ∙ e))

  put-Stored :
      (k : String) (b : B) (etag last_modified : Option String) (c : ContentCache W)
      → h.sha256 k ≢ h.sha256 key
      → Stored h key p c
      → Stored h key p (put_internal h k b etag last_modified c).1
  unfolding put_internal
  put-Stored k b etag last_modified c apart s =
      let sha = h.sha256 k in
      let (t, w) = h.now c.world in
      let c' : ContentCache W = record c { world = (publish h sha b w).1 } in
      let s' = published-Stored sha b c s in
      elim (Bool-cases (publish h sha b w).0) [
        | inr fails ↦ rw fails s'
        | inl done ↦
            let r = commit_row h sha (new_row h k b etag last_modified t) c' in
            rw done (
              after_commit r.0 r.1
                (commit-Stored sha (new_row h k b etag last_modified t) c' apart s'))
      ]

  delete-Stored :
      (k : String) (c : ContentCache W)
      → h.sha256 k ≢ h.sha256 key
      → Stored h key p c
      → Stored h key p (delete h k c).1
  unfolding delete
  delete-Stored k c apart s =
      let sha = h.sha256 k in
      let d = h.payload_sha256 p in
      let w = (h.transaction c.world).1 in
      let name = row_content h (Dict.get c.rows sha) sha in
      let rows = Dict.remove c.rows sha in
      let file' = v.transaction-files c.world d ∙ s.file in
      let there : Dict.get rows (h.sha256 key) ≡ some s.row =
        ground (
          arith,
          get-remove c.rows sha (h.sha256 key),
          s.lookup,
          eq_iff sha (h.sha256 key),
          apart,
        ) in
      let kept : (w' : W)
          → h.cat_file d w' ≡ found p
          → Stored h key p (record c { rows = rows; world = w' }) =
        λ w' e. record {
          row = s.row;
          lookup = there;
          published = s.published;
          content = s.content;
          file = e;
          fresh = s.fresh;
        } in
      elim (Bool-cases (h.transaction c.world).0) [
        | inr fails ↦ rw fails (moved h key p c (record c { world = w }) s refl (λ _. file'))
        | inl through ↦ rw through (elim (Bool-cases (refers rows name)) [
          | inl referenced ↦ rw referenced (kept w file')
          | inr free ↦
              let used = refers-get rows (h.sha256 key) d s.row there s.content in
              let e =
                v.rm-files name d w (λ q. true-false (sym used ∙ ap (refers rows) q ∙ free))
                ∙ file' in
              rw free (elim (Bool-cases (h.rm name w).0) [
                | inl done ↦ rw done (kept (h.rm name w).1 e)
                | inr fails ↦ rw fails (kept (h.rm name w).1 e)
              ])
        ])
      ]

  perform-Stored :
      (k : String) (call : CacheCall B) (c : ContentCache W)
      → h.sha256 k ≢ h.sha256 key
      → Stored h key p c
      → Stored h key p (perform h k call c)
  unfolding perform get get_metadata
  perform-Stored k get_call c apart s =
      get_row-Stored (h.sha256 k) _ (maybe_sweep h c) (maybe_sweep-Stored h v key p c s)
  perform-Stored k metadata_call c apart s = metadata-Stored (Dict.get c.rows (h.sha256 k)) c s
  perform-Stored k delete_call c apart s = delete-Stored k c apart s
  perform-Stored k (put_call b etag last_modified) c apart s =
      put-Stored k b etag last_modified c apart s

  calls-Stored :
      (calls : List (String × CacheCall B)) (c : ContentCache W)
      → All (λ e. h.sha256 e.0 ≢ h.sha256 key) calls
      → Stored h key p c
      → Stored h key p (perform_all h calls c)
  unfolding perform_all
  calls-Stored [] c apart s = s
  calls-Stored ((k, call) ∷ calls) c (a, apart) s =
      calls-Stored calls (perform h k call c) apart (perform-Stored k call c a s)

  stores :
      (t : ℕ) (etag last_modified : Option String) (c : ContentCache W)
      → ((w : W) → (h.now w).0 ≤ t + h.ttl)
      → h.cat_file (h.payload_sha256 p) c.world ≡ found p
      → (commit_row h (h.sha256 key) (new_row h key p etag last_modified t) c).0 ≡ ok tt
      → Stored h key p (commit_row h (h.sha256 key) (new_row h key p etag last_modified t) c).1
  unfolding commit_row
  stores t etag last_modified c young e = elim (Bool-cases (h.transaction c.world).0) [
    | inr fails ↦ rw fails (λ q. cc)
    | inl through ↦ rw through (λ q. record {
      row = new_row h key p etag last_modified t;
      lookup = ground (
        arith,
        get-put c.rows (h.sha256 key) (h.sha256 key) (new_row h key p etag last_modified t),
        eq_iff (h.sha256 key) (h.sha256 key),
      );
      published = refl;
      content = refl;
      file = v.transaction-files c.world (h.payload_sha256 p) ∙ e;
      fresh = young;
    })
  ]

  after_ok :
      (r : Result CacheError (Unit {0})) (c : ContentCache W)
      → (r ≡ ok tt → Stored h key p c)
      → (elim r as (λ _. Result CacheError (Unit {0}) × ContentCache W) [
        | ok u ↦ (ok u, maybe_sweep h c)
        | raise e ↦ (raise e, c)
      ]).0
        ≡ ok tt
      → Stored h key p
          (elim r as (λ _. Result CacheError (Unit {0}) × ContentCache W) [
            | ok u ↦ (ok u, maybe_sweep h c)
            | raise e ↦ (raise e, c)
          ]).1
  after_ok (ok u) c k e = maybe_sweep-Stored h v key p c (k e)
  after_ok (raise x) c k e = cc

  put-stores :
      (etag last_modified : Option String) (c : ContentCache W)
      → IsTimely h
      → (put_internal h key p etag last_modified c).0 ≡ ok tt
      → Stored h key p (put_internal h key p etag last_modified c).1
  unfolding put_internal
  put-stores etag last_modified c timely =
      let sha = h.sha256 key in
      let (t, w) = h.now c.world in
      let c' : ContentCache W = record c { world = (publish h sha p w).1 } in
      elim (Bool-cases (publish h sha p w).0) [
        | inr fails ↦ rw fails (λ q. cc)
        | inl done ↦
            let r = commit_row h sha (new_row h key p etag last_modified t) c' in
            rw done (
              after_ok r.0 r.1
                (stores t etag last_modified c' (timely c.world) (publish-done h v sha p w done)))
      ]

-- With `HostLaws`: a payload that was put is what `get` gives, whatever calls are made for other
-- keys in between, with the sweeps, the shared payloads and the failures that they bring: as long
-- as no reading of the clock is later than another by more than an entry lives.
pub get-put_internal :
    {W B : Type 0} (h : Host W B) (key : String) (p : B) (etag last_modified : Option String)
    (calls : List (String × CacheCall B)) (c : ContentCache W)
    → HostLaws h
    → IsTimely h
    → All (λ e. h.sha256 e.0 ≢ h.sha256 key) calls
    → (put_internal h key p etag last_modified c).0 ≡ ok tt
    → (get h key (perform_all h calls (put_internal h key p etag last_modified c).1)).0
      ≡ ok (some p)
get-put_internal h key p etag last_modified calls c v timely apart done =
    get-Stored h v key p (perform_all h calls (put_internal h key p etag last_modified c).1) (
      calls-Stored h v key p calls (put_internal h key p etag last_modified c).1 apart
        (put-stores h v key p etag last_modified c timely done))
