-- ===== src/Cache/Laws.antt =====
-- What a cache keeps true of its rows and its content files.
use datasluice.Base.{
  ◌+◌, ◌-◌, ◌≡◌, ◌≢◌, sym, ap, refl, ◌∙◌, String, true, false, Option, none, some, List, [], ◌∷◌,
  ltb, ◌==◌, equatable_string, equatable_nat, arith, eq_iff, Bool-cases, inl, inr, All,
}
use datasluice.Base.Dict
use datasluice.Base.Dict.{Dict, get-put, get-remove}
use datasluice.Base.Exec.{Result, ok, raise}
use datasluice.Cache.{
  Host, Row, Content, found, absent, unreadable, content_name, unexpired, known, refers,
  ContentCache, CacheError, sweep_listed, maybe_sweep, cached, get_row, get, get_metadata, publish,
  new_row, commit_row, put_internal, row_content, delete, sweep_interval, metadata_row, is_writing,
}
use datasluice.Cache.Files.{
  HostLaws, IsHeld, IsHeld-keep, IsHeld-put, IsHeld-remove, IsHeld-unexpired, refers-known,
  remove_all-files, both-known,
}

pub true-false : true ≢ false
true-false e = cc

-- The operations of the cache, for one key each.
pub data CacheCall (B : Type 0) : Type 0 where
  get_call metadata_call delete_call : CacheCall B
  put_call : B → (etag last_modified : Option String) → CacheCall B

module _ {W B : Type 0} (h : Host W B) where
  unfoldable pub perform : String → CacheCall B → ContentCache W → ContentCache W
  perform key get_call c = (get h key c).1
  perform key metadata_call c = (get_metadata h key c).1
  perform key delete_call c = (delete h key c).1
  perform key (put_call b etag last_modified) c = (put_internal h key b etag last_modified c).1

  unfoldable pub perform_all : List (String × CacheCall B) → ContentCache W → ContentCache W
  unfolding perform
  perform_all [] c = c
  perform_all ((key, call) ∷ calls) c = perform_all calls (perform key call c)

  -- Every row names the digest of its content, and the content file is there, with the bytes that
  -- the digest and the length are of.
  abbrev pub IsBacked : ContentCache W → Type 0
  IsBacked c = All (IsHeld h c.world) c.rows

  module _ (v : HostLaws h) where
    pub publish-kept :
        (sha : String) (p b : B) (w : W)
        → h.cat_file (h.payload_sha256 b) w ≡ found b
        → h.cat_file (h.payload_sha256 b) (publish h sha p w).1 ≡ found b
    unfolding publish
    publish-kept sha p b w e =
        let tmp = (h.tmp_path sha w).0 in
        let w1 = (h.tmp_path sha w).1 in
        let w2 = (h.pipe_file tmp p w1).1 in
        let w3 = (h.mv tmp (h.payload_sha256 p) w2).1 in
        let apart = v.tmp-name sha w b in
        let e2 = v.pipe-other tmp _ p w1 apart ∙ v.tmp-files sha _ w ∙ e in
        elim (Bool-cases (h.pipe_file tmp p w1).0) [
          | inr fails ↦ rw fails (v.rm-files tmp _ w2 apart ∙ e2)
          | inl piped ↦ rw piped (elim (Bool-cases (h.mv tmp (h.payload_sha256 p) w2).0) [
            | inr fails ↦
                rw fails (v.rm-files tmp _ w3 apart ∙ v.mv-failed tmp _ _ w2 fails apart ∙ e2)
            | inl moved ↦ rw moved (elim (Bool-cases (h.payload_sha256 b == h.payload_sha256 p)) [
              | inl same ↦
                  let q : h.payload_sha256 b ≡ h.payload_sha256 p =
                    ground (arith, eq_iff (h.payload_sha256 b) (h.payload_sha256 p)) in
                  ap (λ n. h.cat_file n w3) q
                  ∙ v.mv-done tmp _ w2 moved
                  ∙ v.pipe-same tmp p w1 piped
                  ∙ ap found (sym (v.no_collision b p q))
              | inr other ↦
                  v.mv-other tmp _ _ w2 apart
                    (λ q. ground (arith, eq_iff (h.payload_sha256 b) (h.payload_sha256 p)))
                  ∙ e2
            ])
          ])
        ]

    pub publish-done :
        (sha : String) (p : B) (w : W)
        → (publish h sha p w).0 ≡ true
        → h.cat_file (h.payload_sha256 p) (publish h sha p w).1 ≡ found p
    unfolding publish
    publish-done sha p w =
        let tmp = (h.tmp_path sha w).0 in
        let w1 = (h.tmp_path sha w).1 in
        let w2 = (h.pipe_file tmp p w1).1 in
        elim (Bool-cases (h.pipe_file tmp p w1).0) [
          | inr fails ↦ rw fails (λ e. cc)
          | inl piped ↦ rw piped (elim (Bool-cases (h.mv tmp (h.payload_sha256 p) w2).0) [
            | inr fails ↦ rw fails (λ e. cc)
            | inl moved ↦ rw moved (λ e. v.mv-done tmp _ w2 moved ∙ v.pipe-same tmp p w1 piped)
          ])
        ]

    sweep_listed-IsBacked :
        (o : Option (List String)) (c : ContentCache W) → IsBacked c → IsBacked (sweep_listed h o c)
    unfolding sweep_listed
    sweep_listed-IsBacked none c b = b
    sweep_listed-IsBacked (some entries) c b =
        let (t1, w1) = h.now c.world in
        let (t2, w2) = h.now w1 in
        let w3 = (h.transaction w2).1 in
        let kept : (n : String) → h.cat_file n w3 ≡ h.cat_file n c.world =
          λ n. v.transaction-files w2 n ∙ v.now-files w1 n ∙ v.now-files c.world n in
        let b3 = IsHeld-keep h c.rows c.world w3 (λ d p _ e _. kept d ∙ e) b in
        elim (Bool-cases (h.transaction w2).0) [
          | inr fails ↦ rw fails b3
          | inl through ↦
              let rows = unexpired h.ttl t1 t2 c.rows in
              rw through (
                IsHeld-keep h rows w3 _
                  (λ d p r e _.
                    remove_all-files h v _ d w3 (
                      both-known h entries (known rows) c.orphan_candidates d
                        (refers-known h rows d r))
                    ∙ e)
                  (IsHeld-unexpired h h.ttl t1 t2 c.rows w3 b3))
        ]

    pub maybe_sweep-IsBacked : (c : ContentCache W) → IsBacked c → IsBacked (maybe_sweep h c)
    unfolding maybe_sweep
    maybe_sweep-IsBacked c b =
        let w = (h.now c.world).1 in
        let b' = IsHeld-keep h c.rows c.world w (λ d p _ e _. v.now-files c.world d ∙ e) b in
        elim (Bool-cases (ltb ((h.now c.world).0 - c.last_sweep) sweep_interval)) [
          | inl recent ↦ rw recent b'
          | inr due ↦ rw due (
              sweep_listed-IsBacked (h.ls w)
                (record c { last_sweep = (h.now c.world).0; world = w }) b')
        ]

    cached-same : (q : Content B) (c : ContentCache W) → (cached h q c).1 ≡ c
    cached-same (found b) c = refl
    cached-same absent c = refl
    cached-same unreadable c = refl

    get_row-IsBacked :
        (sha : String) (o : Option Row) (c : ContentCache W)
        → IsBacked c
        → IsBacked (get_row h sha o c).1
    unfolding get_row
    get_row-IsBacked sha none c b = b
    get_row-IsBacked sha (some row) c b =
        let w = (h.now c.world).1 in
        let b' : All (IsHeld h w) c.rows =
          IsHeld-keep h c.rows c.world w (λ d p _ e _. v.now-files c.world d ∙ e) b in
        elim (Bool-cases (is_writing row.status)) [
          | inl held ↦ rw held b
          | inr there ↦
              rw there (elim (Bool-cases (ltb (row.fetched_at + h.ttl) (h.now c.world).0)) [
                | inl old ↦ rw old b'
                | inr fresh ↦
                    rw
                      (
                        fresh,
                        cached-same (h.cat_file (content_name row.content_sha sha) w)
                            (record c { world = w }),
                      )
                      b'
              ])
        ]

    metadata-IsBacked :
        (o : Option Row) (c : ContentCache W) → IsBacked c → IsBacked (metadata_row h o c).1
    unfolding metadata_row
    metadata-IsBacked none c b = b
    metadata-IsBacked (some row) c b =
        let w = (h.now c.world).1 in
        let b' : All (IsHeld h w) c.rows =
          IsHeld-keep h c.rows c.world w (λ d p _ e _. v.now-files c.world d ∙ e) b in
        elim (Bool-cases (is_writing row.status)) [
          | inl held ↦ rw held b
          | inr there ↦
              rw there (elim (Bool-cases (ltb (row.fetched_at + h.ttl) (h.now c.world).0)) [
                | inl old ↦ rw old b'
                | inr fresh ↦ rw fresh b'
              ])
        ]

    commit-IsBacked :
        (sha : String) (row : Row) (c : ContentCache W)
        → IsHeld h c.world (sha, row)
        → IsBacked c
        → IsBacked (commit_row h sha row c).1
    unfolding commit_row
    commit-IsBacked sha row c r b =
        let w = (h.transaction c.world).1 in
        let b' = IsHeld-put h c.rows c.world sha row r b in
        elim (Bool-cases (h.transaction c.world).0) [
          | inl through ↦ rw through (
              IsHeld-keep h (Dict.put c.rows sha row) c.world w
                (λ d p _ e _. v.transaction-files c.world d ∙ e) b')
          | inr fails ↦
              rw fails
                (IsHeld-keep h c.rows c.world w (λ d p _ e _. v.transaction-files c.world d ∙ e) b)
        ]

    after_commit :
        (r : Result CacheError (Unit {0})) (c : ContentCache W)
        → IsBacked c
        → IsBacked
            (elim r as (λ _. Result CacheError (Unit {0}) × ContentCache W) [
              | ok u ↦ (ok u, maybe_sweep h c)
              | raise e ↦ (raise e, c)
            ]).1
    after_commit (ok u) c b = maybe_sweep-IsBacked c b
    after_commit (raise e) c b = b

    put-IsBacked :
        (key : String) (p : B) (etag last_modified : Option String) (c : ContentCache W)
        → IsBacked c
        → IsBacked (put_internal h key p etag last_modified c).1
    unfolding put_internal
    put-IsBacked key p etag last_modified c b =
        let sha = h.sha256 key in
        let (t, w) = h.now c.world in
        let w' = (publish h sha p w).1 in
        let c' : ContentCache W = record c { world = w' } in
        let b1 = IsHeld-keep h c.rows c.world w (λ d q _ e _. v.now-files c.world d ∙ e) b in
        let b2 =
          IsHeld-keep h c.rows w w'
            (λ d q _ e s.
              ap (λ n. h.cat_file n w') (sym s)
              ∙ publish-kept sha p q w (ap (λ n. h.cat_file n w) s ∙ e))
            b1 in
        elim (Bool-cases (publish h sha p w).0) [
          | inr fails ↦ rw fails b2
          | inl done ↦
              let r = commit_row h sha (new_row h key p etag last_modified t) c' in
              rw done (
                after_commit r.0 r.1 (
                  commit-IsBacked sha (new_row h key p etag last_modified t) c'
                    (p, publish-done sha p w done, refl, refl) b2))
        ]

    delete-IsBacked : (key : String) (c : ContentCache W) → IsBacked c → IsBacked (delete h key c).1
    unfolding delete
    delete-IsBacked key c b =
        let sha = h.sha256 key in
        let w = (h.transaction c.world).1 in
        let name = row_content h (Dict.get c.rows sha) sha in
        let rows = Dict.remove c.rows sha in
        let b1 =
          IsHeld-keep h c.rows c.world w (λ d q _ e _. v.transaction-files c.world d ∙ e) b in
        let b2 = IsHeld-remove h c.rows w sha b1 in
        elim (Bool-cases (h.transaction c.world).0) [
          | inr fails ↦ rw fails b1
          | inl through ↦ rw through (elim (Bool-cases (refers rows name)) [
            | inl referenced ↦ rw referenced b2
            | inr free ↦
                let b3 =
                  IsHeld-keep h rows w (h.rm name w).1
                    (λ d q r e _.
                      v.rm-files name d w (λ s. true-false (sym r ∙ ap (refers rows) s ∙ free)) ∙ e)
                    b2 in
                rw free (elim (Bool-cases (h.rm name w).0) [
                  | inl done ↦ rw done b3
                  | inr fails ↦ rw fails b3
                ])
          ])
        ]

    perform-IsBacked :
        (key : String) (call : CacheCall B) (c : ContentCache W)
        → IsBacked c
        → IsBacked (perform key call c)
    unfolding perform get get_metadata
    perform-IsBacked key get_call c b =
        get_row-IsBacked (h.sha256 key) _ (maybe_sweep h c) (maybe_sweep-IsBacked c b)
    perform-IsBacked key metadata_call c b = metadata-IsBacked (Dict.get c.rows (h.sha256 key)) c b
    perform-IsBacked key delete_call c b = delete-IsBacked key c b
    perform-IsBacked key (put_call p etag last_modified) c b =
        put-IsBacked key p etag last_modified c b

  -- With `HostLaws`: whatever is done to a cache each of whose rows names the digest of its content
  -- and has the content file, and whatever of it fails, each of its rows does so: neither a sweep
  -- nor a deletion takes a file that a row names.
  pub calls-IsBacked :
      (calls : List (String × CacheCall B)) (c : ContentCache W)
      → HostLaws h
      → IsBacked c
      → IsBacked (perform_all calls c)
  unfolding perform_all
  calls-IsBacked [] c v b = b
  calls-IsBacked ((key, call) ∷ calls) c v b =
      calls-IsBacked calls (perform key call c) v (perform-IsBacked v key call c b)
