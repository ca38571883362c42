-- ===== src/Cache/Files.antt =====
-- What the cache relies on in its filesystem, and the rows whose content it keeps.
use datasluice.Base.{
  ℕ, ◌≡◌, ◌≢◌, refl, ◌∙◌, String, true, false, ◌||◌, Option, none, some, List, [], ◌∷◌, contains,
  ◌==◌, equatable_string, equatable_nat, arith, if◌then◌else◌, eq_iff, Bool-cases, inl, inr, All,
}
use datasluice.Base.Dict
use datasluice.Base.Dict.{Dict}
use datasluice.Cache.{
  Host, Row, found, content_name, unexpired, known, refers, candidates, both, remove_all, expired,
}

module _ {W B : Type 0} (h : Host W B) where
  -- The documented behaviour of the filesystem, and of a hash with no collisions: a call changes
  -- the content of the names it is given and of no other, and a name of a temporary file is no
  -- digest.
  pub record HostLaws : Type 0 where
    pub now-files : (w : W) (n : String) → h.cat_file n (h.now w).1 ≡ h.cat_file n w
    pub transaction-files : (w : W) (n : String) → h.cat_file n (h.transaction w).1 ≡ h.cat_file n w
    pub tmp-files : (sha n : String) (w : W) → h.cat_file n (h.tmp_path sha w).1 ≡ h.cat_file n w
    pub rm-files : (m n : String) (w : W) → n ≢ m → h.cat_file n (h.rm m w).1 ≡ h.cat_file n w
    pub pipe-other :
        (m n : String) (b : B) (w : W) → n ≢ m → h.cat_file n (h.pipe_file m b w).1 ≡ h.cat_file n w
    pub pipe-same :
        (m : String) (b : B) (w : W)
        → (h.pipe_file m b w).0 ≡ true
        → h.cat_file m (h.pipe_file m b w).1 ≡ found b
    pub mv-other :
        (src dst n : String) (w : W)
        → n ≢ src
        → n ≢ dst
        → h.cat_file n (h.mv src dst w).1 ≡ h.cat_file n w
    pub mv-done :
        (src dst : String) (w : W)
        → (h.mv src dst w).0 ≡ true
        → h.cat_file dst (h.mv src dst w).1 ≡ h.cat_file src w
    pub mv-failed :
        (src dst n : String) (w : W)
        → (h.mv src dst w).0 ≡ false
        → n ≢ src
        → h.cat_file n (h.mv src dst w).1 ≡ h.cat_file n w
    pub tmp-name : (sha : String) (w : W) (b : B) → h.payload_sha256 b ≢ (h.tmp_path sha w).0
    pub no_collision : (b b' : B) → h.payload_sha256 b ≡ h.payload_sha256 b' → b ≡ b'

  -- The row names the digest of its content, and the content file holds the bytes that the row was
  -- written with.
  abbrev pub Holds : W → Option String → ℕ → Type 0
  Holds w none size = true ≡ false
  Holds w (some d) size =
      (b : B) × (h.cat_file d w ≡ found b) × (h.payload_sha256 b ≡ d) × (size ≡ h.size b)

  abbrev pub IsHeld : W → String × Row → Type 0
  IsHeld w e = Holds w e.1.content_sha e.1.content_length

  Holds-keep :
      (w w' : W) (o : Option String) (size : ℕ)
      → ((d : String) (b : B)
          → o ≡ some d
          → h.cat_file d w ≡ found b
          → h.payload_sha256 b ≡ d
          → h.cat_file d w' ≡ found b)
      → Holds w o size
      → Holds w' o size
  Holds-keep w w' none size k v = v
  Holds-keep w w' (some d) size k (b, e, p, s) = (b, k d b refl e p, p, s)

  -- Rows stay held while the content that they refer to stays.
  pub IsHeld-keep :
      (rows : Dict String Row) (w w' : W)
      → ((d : String) (b : B)
          → refers rows d ≡ true
          → h.cat_file d w ≡ found b
          → h.payload_sha256 b ≡ d
          → h.cat_file d w' ≡ found b)
      → All (IsHeld w) rows
      → All (IsHeld w') rows
  unfolding refers
  IsHeld-keep [] w w' k v = tt
  IsHeld-keep ((j, r) ∷ rows) w w' k (v, vs) = (
    Holds-keep w w' r.content_sha r.content_length (λ d b e. k d b (ground (arith, e, eq_iff d d)))
        v,
    IsHeld-keep rows w w' (λ d b e. k d b (more d e r.content_sha)) vs,
  )
    where
      more :
          (d : String)
          → refers rows d ≡ true
          → (o : Option String)
          → elim o [ none ↦ refers rows d | some c ↦ if c == d then true else refers rows d ] ≡ true
      more d e none = e
      more d e (some c) = ground arith

  pub IsHeld-put :
      (rows : Dict String Row) (w : W) (k : String) (r : Row)
      → IsHeld w (k, r)
      → All (IsHeld w) rows
      → All (IsHeld w) (Dict.put rows k r)
  unfolding Dict.put
  IsHeld-put [] w k r v vs = (v, tt)
  IsHeld-put ((j, q) ∷ rows) w k r v (u, us) = elim (Bool-cases (j == k)) [
    | inl same ↦ rw same (v, us)
    | inr other ↦ rw other (u, IsHeld-put rows w k r v us)
  ]

  pub IsHeld-remove :
      (rows : Dict String Row) (w : W) (k : String)
      → All (IsHeld w) rows
      → All (IsHeld w) (Dict.remove rows k)
  unfolding Dict.remove
  IsHeld-remove [] w k vs = tt
  IsHeld-remove ((j, q) ∷ rows) w k (u, us) = elim (Bool-cases (j == k)) [
    | inl same ↦ rw same (IsHeld-remove rows w k us)
    | inr other ↦ rw other (u, IsHeld-remove rows w k us)
  ]

  pub IsHeld-unexpired :
      (ttl t1 t2 : ℕ) (rows : Dict String Row) (w : W)
      → All (IsHeld w) rows
      → All (IsHeld w) (unexpired ttl t1 t2 rows)
  unfolding unexpired
  IsHeld-unexpired ttl t1 t2 [] w vs = tt
  IsHeld-unexpired ttl t1 t2 ((j, r) ∷ rows) w (u, us) = elim (Bool-cases (expired ttl t1 t2 r)) [
    | inl gone ↦ rw gone (IsHeld-unexpired ttl t1 t2 rows w us)
    | inr stays ↦ rw stays (u, IsHeld-unexpired ttl t1 t2 rows w us)
  ]

  pub refers-known :
      (rows : Dict String Row) (d : String) → refers rows d ≡ true → contains (known rows) d ≡ true
  unfolding refers known
  refers-known [] d e = cc
  refers-known ((j, r) ∷ rows) d e = go r.content_sha (λ f. refers-known rows d f) e
    where
      go :
          (o : Option String)
          → (refers rows d ≡ true → contains (known rows) d ≡ true)
          → elim o [ none ↦ refers rows d | some c ↦ if c == d then true else refers rows d ] ≡ true
          → ((content_name o j == d) || contains (known rows) d) ≡ true
      go none rec e = ground (arith, rec e)
      go (some c) rec e = ground (arith, rec)

  -- The sweep removes no content that a row refers to.
  pub remove_all-files :
      HostLaws
      → (names : List String) (n : String) (w : W) → contains names n ≡ false
      → h.cat_file n (remove_all h names w) ≡ h.cat_file n w
  unfolding remove_all
  remove_all-files v [] n w e = refl
  remove_all-files v (m ∷ names) n w e =
      remove_all-files v names n (h.rm m w).1 (ground arith)
      ∙ v.rm-files m n w (λ q. ground (arith, eq_iff m n))

  pub both-known :
      (entries names ys : List String) (n : String)
      → contains names n ≡ true
      → contains (both h (candidates h entries names) ys) n ≡ false
  unfolding both candidates
  both-known [] names ys n e = refl
  both-known (x ∷ entries) names ys n e =
      ground (arith, both-known entries names ys n e, eq_iff x n)
