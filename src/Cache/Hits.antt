-- ===== src/Cache/Hits.antt =====
-- Entries that are hits.
use datasluice.Base.{
  ℕ, ◌+◌, ◌-◌, ◌≤◌, ◌≡◌, ap, refl, ◌∙◌, String, Bool, true, false, Option, none, some, List, [],
  ◌∷◌, ltb, ◌==◌, equatable_string, equatable_nat, arith, if◌then◌else◌, eq_iff, Bool-cases, inl,
  inr,
}
use datasluice.Base.Dict
use datasluice.Base.Dict.{Dict, get-put, get-remove}
use datasluice.Base.Exec.{ok}
use datasluice.Cache.{
  Host, Row, found, unexpired, known, refers, Status, ready, writing, ContentCache, sweep_listed,
  maybe_sweep, get_row, get, sweep_interval, expired, is_writing,
}
use datasluice.Cache.Files.{HostLaws, refers-known, remove_all-files, both-known}

unexpired-get :
    (ttl t1 t2 : ℕ) (rows : Dict String Row) (k : String) (r : Row)
    → Dict.get rows k ≡ some r
    → expired ttl t1 t2 r ≡ false
    → Dict.get (unexpired ttl t1 t2 rows) k ≡ some r
unfolding Dict.get unexpired
unexpired-get ttl t1 t2 [] k r e f = cc
unexpired-get ttl t1 t2 ((j, q) ∷ rows) k r e f = elim (Bool-cases (j == k)) [
  | inl same ↦ let s : q ≡ r = ground arith in rw (ap (expired ttl t1 t2) s ∙ f, same) (ap some s)
  | inr other ↦ elim (Bool-cases (expired ttl t1 t2 q)) [
    | inl gone ↦ rw gone (unexpired-get ttl t1 t2 rows k r (ground arith) f)
    | inr stays ↦ rw (stays, other) (unexpired-get ttl t1 t2 rows k r (ground arith) f)
  ]
]

pub refers-get :
    (rows : Dict String Row) (k d : String) (r : Row)
    → Dict.get rows k ≡ some r
    → r.content_sha ≡ some d
    → refers rows d ≡ true
unfolding Dict.get refers
refers-get [] k d r e s = cc
refers-get ((j, q) ∷ rows) k d r e s = elim (Bool-cases (j == k)) [
  | inl same ↦
      let t : q ≡ r = ground arith in
      rw (ap (λ (x : Row). x.content_sha) t ∙ s) (ground (arith, eq_iff d d))
  | inr other ↦ go q.content_sha (refers-get rows k d r (ground arith) s)
]
  where
    go :
        (o : Option String)
        → refers rows d ≡ true
        → elim o [ none ↦ refers rows d | some c ↦ if c == d then true else refers rows d ] ≡ true
    go none e = e
    go (some c) e = ground arith

not_expired :
    (ttl t1 t2 at : ℕ) (s : Status)
    → is_writing s ≡ false
    → t2 ≤ at + ttl
    → elim s as (λ _. Bool) [ writing ↦ ltb (at + 300000) t1 | ready ↦ ltb (at + ttl) t2 ] ≡ false
not_expired ttl t1 t2 at writing e l = cc
not_expired ttl t1 t2 at ready e l = ground arith

module _ {W B : Type 0} (h : Host W B) where
  -- No two readings of the clock are further apart than an entry lives.
  abbrev pub IsTimely : Type 0
  IsTimely = (w w' : W) → (h.now w').0 ≤ (h.now w).0 + h.ttl

  -- The cache has the payload under the key, and its entry does not expire.
  pub record Stored (key : String) (p : B) (c : ContentCache W) : Type 0 where
    pub row : Row
    pub lookup : Dict.get c.rows (h.sha256 key) ≡ some row
    pub published : is_writing row.status ≡ false
    pub content : row.content_sha ≡ some (h.payload_sha256 p)
    pub file : h.cat_file (h.payload_sha256 p) c.world ≡ found p
    pub fresh : (w : W) → (h.now w).0 ≤ row.fetched_at + h.ttl

  pub moved :
      (key : String) (p : B) (c c' : ContentCache W)
      → Stored key p c
      → c'.rows ≡ c.rows
      → (h.cat_file (h.payload_sha256 p) c.world ≡ found p
          → h.cat_file (h.payload_sha256 p) c'.world ≡ found p)
      → Stored key p c'
  moved key p c c' s e k = record {
    row = s.row;
    lookup = ap (λ (d : Dict String Row). Dict.get d (h.sha256 key)) e ∙ s.lookup;
    published = s.published;
    content = s.content;
    file = k s.file;
    fresh = s.fresh;
  }

  module _ (v : HostLaws h) (key : String) (p : B) where
    sweep_listed-Stored :
        (o : Option (List String)) (c : ContentCache W)
        → Stored key p c
        → Stored key p (sweep_listed h o c)
    unfolding sweep_listed
    sweep_listed-Stored none c s = s
    sweep_listed-Stored (some entries) c s =
        let (t1, w1) = h.now c.world in
        let (t2, w2) = h.now w1 in
        let w3 = (h.transaction w2).1 in
        let d = h.payload_sha256 p in
        let file3 = v.transaction-files w2 d ∙ v.now-files w1 d ∙ v.now-files c.world d ∙ s.file in
        elim (Bool-cases (h.transaction w2).0) [
          | inr fails ↦ rw fails (moved key p c (record c { world = w3 }) s refl (λ _. file3))
          | inl through ↦
              let rows = unexpired h.ttl t1 t2 c.rows in
              let lives =
                not_expired h.ttl t1 t2 s.row.fetched_at s.row.status s.published (s.fresh w1) in
              let there = unexpired-get h.ttl t1 t2 c.rows (h.sha256 key) s.row s.lookup lives in
              rw through (record {
                row = s.row;
                lookup = there;
                published = s.published;
                content = s.content;
                file =
                    remove_all-files h v _ d w3 (
                      both-known h entries (known rows) c.orphan_candidates d (
                        refers-known h rows d
                          (refers-get rows (h.sha256 key) d s.row there s.content)))
                    ∙ file3;
                fresh = s.fresh;
              })
        ]

    pub maybe_sweep-Stored : (c : ContentCache W) → Stored key p c → Stored key p (maybe_sweep h c)
    unfolding maybe_sweep
    maybe_sweep-Stored c s =
        let (t, w) = h.now c.world in
        let file' = v.now-files c.world (h.payload_sha256 p) ∙ s.file in
        elim (Bool-cases (ltb (t - c.last_sweep) sweep_interval)) [
          | inl recent ↦ rw recent (moved key p c (record c { world = w }) s refl (λ _. file'))
          | inr due ↦
              let c' : ContentCache W = record c { last_sweep = t; world = w } in
              rw due (sweep_listed-Stored (h.ls w) c' (moved key p c c' s refl (λ _. file')))
        ]

    -- An entry that is stored is a hit.
    pub get-Stored : (c : ContentCache W) → Stored key p c → (get h key c).0 ≡ ok (some p)
    unfolding get get_row
    get-Stored c s =
        let c' = maybe_sweep h c in
        let s' = maybe_sweep-Stored c s in
        let w = (h.now c'.world).1 in
        let young : ltb (s'.row.fetched_at + h.ttl) (h.now c'.world).0 ≡ false =
          ground (arith, s'.fresh c'.world) in
        let file' = v.now-files c'.world (h.payload_sha256 p) ∙ s'.file in
        rw (s'.lookup, s'.published, young, s'.content, file') refl
