-- ===== src/StateStore/Laws.antt =====
-- What the state store relies on in its filesystem, and what its writes leave in a file.
use datasluice.Base.{
  String, true, false, Option, none, some, ◌≡◌, ◌≢◌, refl, ap, ◌∙◌, ◌==◌, equatable_string, eq_iff,
  arith, Bool-cases, inl, inr, [], ◌∷◌,
}
use datasluice.Base.Dict.{Dict}
use datasluice.Base.Exec.{Result, ok, raise}
use datasluice.Json.{object, Members, end, member}
use datasluice.StateStore.{
  StateError, conflict, there, StateHost, SyncState, envelope, encode_cursor, optional,
  decode_cursor, timestamp_field, decode_envelope, valid_cursor, valid_state, is_end, read_raw,
  publish, put, swap, conditional_put, bytes_of, get_with_version,
}

module _ {W B : Type 0} (h : StateHost W B) where
  -- The documented behaviour of the filesystem: a call changes no other file than those that it is
  -- given, a move that fails leaves its destination, and no temporary name is that of a state file.
  pub record StateLaws : Type 0 where
    pub tmp-files : (b : B) (w : W) (n : String) → h.cat_file n (h.tmp_path b w).1 ≡ h.cat_file n w
    pub tmp-name : (b : B) (w : W) (key : String) → h.state_path key ≢ (h.tmp_path b w).0
    pub pipe-other :
        (m n : String) (b : B) (w : W) → n ≢ m → h.cat_file n (h.pipe_file m b w).1 ≡ h.cat_file n w
    pub pipe-same :
        (m : String) (b : B) (w : W)
        → (h.pipe_file m b w).0 ≡ true
        → h.cat_file m (h.pipe_file m b w).1 ≡ there b
    pub mv-done :
        (src dst : String) (w : W)
        → (h.mv src dst w).0 ≡ true
        → h.cat_file dst (h.mv src dst w).1 ≡ h.cat_file src w
    pub mv-failed :
        (src dst n : String) (w : W)
        → (h.mv src dst w).0 ≡ false
        → n ≢ src
        → h.cat_file n (h.mv src dst w).1 ≡ h.cat_file n w
    pub remove-other :
        (m n : String) (w : W) → n ≢ m → h.cat_file n (h.safe_remove m w) ≡ h.cat_file n w

  -- The file of the key holds what was written, or what it held before.
  abbrev pub Writes : String → B → W → Result StateError B × W → Type 0
  Writes key payload w (ok b, w') =
      (b ≡ payload) × (h.cat_file (h.state_path key) w' ≡ there payload)
  Writes key payload w (raise e, w') =
      h.cat_file (h.state_path key) w' ≡ h.cat_file (h.state_path key) w

  publish-Writes :
      (v : StateLaws) (key : String) (payload : B) (w : W)
      → Writes key payload w (publish h key payload w)
  unfolding publish
  publish-Writes v key payload w =
      let tmp = (h.tmp_path payload w).0 in
      let w1 = (h.tmp_path payload w).1 in
      let w2 = (h.pipe_file tmp payload w1).1 in
      let w3 = (h.mv tmp (h.state_path key) w2).1 in
      let apart = v.tmp-name payload w key in
      let e2 =
        v.pipe-other tmp (h.state_path key) payload w1 apart
        ∙ v.tmp-files payload w (h.state_path key) in
      elim (Bool-cases (h.pipe_file tmp payload w1).0) [
        | inr fails ↦ rw fails (v.remove-other tmp _ w2 apart ∙ e2)
        | inl piped ↦ rw piped (elim (Bool-cases (h.mv tmp (h.state_path key) w2).0) [
          | inr fails ↦
              rw fails (v.remove-other tmp _ w3 apart ∙ v.mv-failed tmp _ _ w2 fails apart ∙ e2)
          | inl moved ↦ rw moved (refl, v.mv-done tmp _ w2 moved ∙ v.pipe-same tmp payload w1 piped)
        ])
      ]

  -- As `Writes`, and a write was made only over the version that was expected.
  abbrev pub Swaps : String → B → Option B → W → Result StateError B × W → Type 0
  Swaps key payload expected w (ok b, w') =
      (b ≡ payload)
      × (h.cat_file (h.state_path key) w' ≡ there payload)
      × (actual : Option B) × (read_raw h key w ≡ ok actual)
      × (h.sha256 (bytes_of h actual) ≡ h.sha256 (bytes_of h expected))
  Swaps key payload expected w (raise e, w') =
      h.cat_file (h.state_path key) w' ≡ h.cat_file (h.state_path key) w

  with_prior :
      (key : String) (payload : B) (expected actual : Option B) (w : W)
      (out : Result StateError B × W)
      → read_raw h key w ≡ ok actual
      → h.sha256 (bytes_of h actual) ≡ h.sha256 (bytes_of h expected)
      → Writes key payload w out
      → Swaps key payload expected w out
  with_prior key payload expected actual w (ok b, w') r q (a, c) = (a, c, actual, r, q)
  with_prior key payload expected actual w (raise e, w') r q c = c

  swap-Swaps :
      (v : StateLaws) (key : String) (payload : B) (expected : Option B)
      (r : Result StateError (Option B)) (w : W)
      → read_raw h key w ≡ r
      → Swaps key payload expected w (swap h key payload expected r w)
  swap-Swaps v key payload expected (raise e) w r = refl
  swap-Swaps v key payload expected (ok actual) w r =
      elim (Bool-cases (h.sha256 (bytes_of h actual) == h.sha256 (bytes_of h expected))) [
        | inl same ↦ rw same (
            with_prior key payload expected actual w (publish h key payload w) r
              ((eq_iff (h.sha256 (bytes_of h actual)) (h.sha256 (bytes_of h expected))).0 same)
              (publish-Writes v key payload w))
        | inr other ↦ rw other refl
      ]

  -- With `StateLaws`: `conditional_put` writes the envelope of the state, and only over a version
  -- with the digest of the expected one; where it raises, the file of the key holds what it held.
  pub conditional_put-Swaps :
      (key : String) (s : SyncState) (expected : Option B) (w : W)
      → StateLaws
      → Swaps key (h.dumps (envelope s)) expected w (conditional_put h key s expected w)
  unfolding conditional_put
  conditional_put-Swaps key s expected w v = elim (Bool-cases (valid_state h key s)) [
    | inl good ↦
        rw good (swap-Swaps v key (h.dumps (envelope s)) expected (read_raw h key w) w refl)
    | inr bad ↦ rw bad refl
  ]

  won :
      (key : String) (payload : B) (expected : Option B) (w : W) (out : Result StateError B × W)
      (b : B)
      → Swaps key payload expected w out
      → out.0 ≡ ok b
      → h.cat_file (h.state_path key) out.1 ≡ there payload
  won key payload expected w (ok c, w') b s e = s.1
  won key payload expected w (raise x, w') b s e = cc

  conflicts :
      (key : String) (s : SyncState) (expected : Option B) (w : W) (c : B)
      → valid_state h key s ≡ true
      → h.cat_file (h.state_path key) w ≡ there c
      → (h.sha256 c == h.sha256 (bytes_of h expected)) ≡ false
      → (conditional_put h key s expected w).0 ≡ raise conflict
  unfolding conditional_put read_raw
  conflicts key s expected w c good e differ = rw (good, e, differ) refl

  -- With `StateLaws`: of two writers that expect the same version, the second, whose state is
  -- valid, gets a conflict once the first has written bytes with another digest than that
  -- version's.
  pub single_winner :
      (key : String) (s s' : SyncState) (expected : Option B) (w : W) (b : B)
      → StateLaws
      → valid_state h key s' ≡ true
      → h.sha256 (h.dumps (envelope s)) ≢ h.sha256 (bytes_of h expected)
      → (conditional_put h key s expected w).0 ≡ ok b
      → (conditional_put h key s' expected (conditional_put h key s expected w).1).0
        ≡ raise conflict
  single_winner key s s' expected w b v good apart done =
      let w' = (conditional_put h key s expected w).1 in
      let e =
        won key (h.dumps (envelope s)) expected w (conditional_put h key s expected w) b
          (conditional_put-Swaps key s expected w v) done in
      let p = h.sha256 (h.dumps (envelope s)) in
      let q = h.sha256 (bytes_of h expected) in
      let differ : (p == q) ≡ false = ground (arith, eq_iff p q, apart) in
      conflicts key s' expected w' (h.dumps (envelope s)) good e differ

  end_of : (m : Members) → is_end m ≡ true → end ≡ m
  end_of end e = refl
  end_of (member k v m) e = cc

  read_cursor :
      (key : String) (c : Dict String String)
      → valid_cursor h key c ≡ true
      → decode_cursor key (object (encode_cursor c)) ≡ ok c
  unfolding decode_cursor
  read_cursor key [] e = refl
  read_cursor key ((k, watermark) ∷ []) e =
      let q : key ≡ k = ground (arith, eq_iff k key) in ap (λ j. ok ((j, watermark) ∷ [])) q
  read_cursor key (a ∷ b ∷ c) e = cc

  read_timestamp : (o : Option String) → timestamp_field (optional o) ≡ ok o
  read_timestamp none = refl
  read_timestamp (some s) = refl

  valid_parts :
      (key : String) (s : SyncState)
      → valid_state h key s ≡ true
      → (valid_cursor h key s.cursor ≡ true) × (is_end s.partitions ≡ true)
  unfolding valid_state
  valid_parts key s e = (ground arith, ground arith)

  read_envelope :
      (key : String) (s : SyncState)
      → valid_state h key s ≡ true
      → h.loads (h.dumps (envelope s)) ≡ some (envelope s)
      → decode_envelope h key (h.dumps (envelope s)) ≡ ok s
  unfolding decode_envelope
  read_envelope key s good l =
      let (c, p) = valid_parts key s good in
      let bare : SyncState = record s { partitions = end } in
      let same : bare ≡ s = ap (λ m. record s { partitions = m }) (end_of s.partitions p) in
      let fine : valid_state h key bare ≡ true = ap (valid_state h key) same ∙ good in
      rw (l, read_cursor key s.cursor c, read_timestamp s.last_synced_at, fine) (ap ok same)

  written :
      (key : String) (s : SyncState) (w : W) (out : Result StateError B × W) (b : B)
      → Writes key (h.dumps (envelope s)) w out
      → out.0 ≡ ok b
      → h.cat_file (h.state_path key) out.1 ≡ there (h.dumps (envelope s))
  written key s w (ok c, w') b s' e = s'.1
  written key s w (raise x, w') b s' e = cc

  put-valid :
      (key : String) (s : SyncState) (w : W) (b : B)
      → StateLaws
      → (put h key s w).0 ≡ ok b
      → (valid_state h key s ≡ true)
        × (h.cat_file (h.state_path key) (put h key s w).1 ≡ there (h.dumps (envelope s)))
  unfolding put
  put-valid key s w b v = elim (Bool-cases (valid_state h key s)) [
    | inl good ↦ rw good (λ e. (
      refl,
      written key s w (publish h key (h.dumps (envelope s)) w) b
          (publish-Writes v key (h.dumps (envelope s)) w) e,
    ))
    | inr bad ↦ rw bad (λ e. cc)
  ]

  -- With `StateLaws`: a state that was put is read back as it was, with the bytes that are its
  -- version, if `json` reads back the envelope that it wrote.
  pub get_with_version-put :
      (key : String) (s : SyncState) (w : W) (b : B)
      → StateLaws
      → h.loads (h.dumps (envelope s)) ≡ some (envelope s)
      → (put h key s w).0 ≡ ok b
      → get_with_version h key (put h key s w).1 ≡ ok (some s, some (h.dumps (envelope s)))
  unfolding get_with_version read_raw
  get_with_version-put key s w b v l done =
      let (good, file) = put-valid key s w b v done in rw (file, read_envelope key s good l) refl
