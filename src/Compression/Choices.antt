-- ===== src/Compression/Choices.antt =====
-- What `apply_compression` hands on: the source from its first byte, or the largest file of an archive.
use datasluice.Base.{
  ℕ, suc, ◌+◌, ◌≤◌, String, Bool, true, false, Option, none, some, List, [], ◌∷◌, ◌≡◌, ◌⊎◌, inl,
  inr, refl, sym, ap, ◌∙◌, arith, ltb, length, if◌then◌else◌, Bool-cases, All,
}
use datasluice.Base.Exec.{Result, ok, raise}
use datasluice.Errors.{Exception}
use datasluice.Compression.Peekable.{Bytes, take, Source, PeekableReader, make_reader, peek, read}
use datasluice.Compression.Bounded.{ReadError, max_decompressed_bytes}
use datasluice.Compression.Slices.{take_short}
use datasluice.Compression.Lookahead.{SourceLaws}
use datasluice.Compression.Calls.{Call, ServesAll, outputs, serves_from, read-takes, peek-keeps}
use datasluice.Compression.Select.{
  Format, gzip, bzip2, zstd, zip, no_compression, ZipMember, Decompressors, extracted, plain,
  largest, files_of, peek_size, detect_format, max_zip_body_bytes, opened, within_limit, extract,
  extract_listed, extract_body, zip_largest_member, wrap_zstd, wrap, wrap_peeked, apply_compression,
  hint_of, source,
}

module _ {A : Type 0} (b : Bool) (x y : A) where
  if_true : b ≡ true → (if b then x else y) ≡ x
  if_true e = rw e refl

  if_false : b ≡ false → (if b then x else y) ≡ y
  if_false e = rw e refl

-- The formats of which a source may be handed on as it is.
abbrev pub Undecoded : Format → Type 0
Undecoded f = (f ≡ no_compression) ⊎ (f ≡ zstd)

-- `m` is one of the members.
abbrev pub Among : ZipMember → List ZipMember → Type 0
Among m [] = ⊥
Among m (x ∷ xs) = (x ≡ m) ⊎ Among m xs

Among-eq : (m : ZipMember) (xs ys : List ZipMember) → xs ≡ ys → Among m xs → Among m ys
Among-eq m xs ys e h = rw (sym e) h

abbrev larger_of : ZipMember → ZipMember → ZipMember
larger_of best m = if ltb best.file_size m.file_size then m else best

one_of : (best m : ZipMember) → (larger_of best m ≡ m) ⊎ (larger_of best m ≡ best)
one_of best m = elim (Bool-cases (ltb best.file_size m.file_size)) [
  | inl larger ↦ inl (if_true _ m best larger)
  | inr not_larger ↦ inr (if_false _ m best not_larger)
]

no_smaller :
    (best m : ZipMember)
    → (best.file_size ≤ (larger_of best m).file_size) × (m.file_size ≤ (larger_of best m).file_size)
no_smaller best m = elim (Bool-cases (ltb best.file_size m.file_size)) [
  | inl larger ↦
      let z = ap (λ x. x.file_size) (if_true _ m best larger) in (ground arith, ground arith)
  | inr not_larger ↦
      let z = ap (λ x. x.file_size) (if_false _ m best not_larger) in (ground arith, ground arith)
]

largest-Among : (best : ZipMember) (ms : List ZipMember) → Among (largest best ms) (best ∷ ms)
unfolding largest
largest-Among best [] = inl refl
largest-Among best (m ∷ ms) = elim (largest-Among (larger_of best m) ms) [
  | inr later ↦ inr (inr later)
  | inl it ↦ elim (one_of best m) [
    | inl second ↦ inr (inl (sym second ∙ it))
    | inr first ↦ inl (sym first ∙ it)
  ]
]

largest_best :
    (best : ZipMember) (ms : List ZipMember)
    → (best.file_size ≤ (largest best ms).file_size)
      × All (λ m. m.file_size ≤ (largest best ms).file_size) ms
unfolding largest
largest_best best [] = (omega arith, tt)
largest_best best (m ∷ ms) =
    let h = largest_best (larger_of best m) ms in
    let n = no_smaller best m in (omega arith, (omega arith, h.1))

-- A file of the list is a member, and no directory.
file_kept :
    (x : ZipMember) (ms : List ZipMember) → x.is_dir ≡ false → files_of (x ∷ ms) ≡ x ∷ files_of ms
file_kept x ms e = if_false x.is_dir (files_of ms) (x ∷ files_of ms) e

directory_left :
    (x : ZipMember) (ms : List ZipMember) → x.is_dir ≡ true → files_of (x ∷ ms) ≡ files_of ms
directory_left x ms e = if_true x.is_dir (files_of ms) (x ∷ files_of ms) e

files_of-Among :
    (m : ZipMember) (ms : List ZipMember) → Among m (files_of ms) → Among m ms × (m.is_dir ≡ false)
files_of-Among m [] h = absurd h
files_of-Among m (x ∷ ms) h = elim (Bool-cases x.is_dir) [
  | inl directory ↦
      let r = files_of-Among m ms (Among-eq m _ _ (directory_left x ms directory) h) in
      (inr r.0, r.1)
  | inr file ↦ elim (Among-eq m _ _ (file_kept x ms file) h) [
    | inl it ↦ (inl it, ap (λ z. z.is_dir) (sym it) ∙ file)
    | inr later ↦ let r = files_of-Among m ms later in (inr r.0, r.1)
  ]
]

module _ {S D : Type 0} (io : Source S) (dec : Decompressors S D) where
  -- The file that is extracted from a body: none of the archive's files is larger.
  unfoldable pub Chosen : Bytes → Bytes → Type 0
  Chosen body bytes =
      (length body ≤ max_zip_body_bytes)
      × (members : List ZipMember) × (m : ZipMember) × (dec.infolist body ≡ some members)
      × Among m members
      × (m.is_dir ≡ false)
      × All (λ z. z.file_size ≤ m.file_size) (files_of members)
      × (m.file_size ≤ max_decompressed_bytes)
      × (dec.read_member body m (max_decompressed_bytes + 1) ≡ some bytes)
      × (length bytes ≤ max_decompressed_bytes)

  read_within :
      (o : Option Bytes) (bytes : Bytes)
      → within_limit io dec o ≡ ok (extracted bytes)
      → (o ≡ some bytes) × (length bytes ≤ max_decompressed_bytes)
  read_within none bytes e = cc
  read_within (some b) bytes e = elim (Bool-cases (ltb max_decompressed_bytes (length b))) [
    | inl over ↦ cc (rw over at e)
    | inr within ↦ let q : b ≡ bytes = cc (rw within at e) in (ap some q, rw (sym q) (ground arith))
  ]

  extract-Chosen :
      (body : Bytes) (members ms : List ZipMember) (bytes : Bytes)
      → length body ≤ max_zip_body_bytes
      → dec.infolist body ≡ some members
      → files_of members ≡ ms
      → extract io dec body ms ≡ ok (extracted bytes)
      → Chosen body bytes
  unfolding Chosen
  extract-Chosen body members [] bytes fits listed files e = cc
  extract-Chosen body members (x ∷ ms) bytes fits listed files e =
      let m = largest x ms in
      elim (Bool-cases (ltb max_decompressed_bytes m.file_size)) [
        | inl over ↦ cc (rw over at e)
        | inr within ↦
            let r =
              read_within (dec.read_member body m (max_decompressed_bytes + 1)) bytes
                (rw within at e) in
            let among = files_of-Among m members (rw files (largest-Among x ms)) in
            (
              fits,
              members,
              m,
              listed,
              among.0,
              among.1,
              rw files (largest_best x ms),
              ground arith,
              r.0,
              r.1,
            )
      ]

  listed-Chosen :
      (body : Bytes) (o : Option (List ZipMember)) (bytes : Bytes)
      → length body ≤ max_zip_body_bytes
      → dec.infolist body ≡ o
      → extract_listed io dec body o ≡ ok (extracted bytes)
      → Chosen body bytes
  listed-Chosen body none bytes fits listed e = cc
  listed-Chosen body (some members) bytes fits listed e =
      extract-Chosen body members (files_of members) bytes fits listed refl e

  body-Chosen :
      (cap : ℕ) (whole bytes : Bytes)
      → cap ≡ max_zip_body_bytes
      → extract_body io dec (ok (take (suc cap) whole)) ≡ ok (extracted bytes)
      → Chosen whole bytes
  body-Chosen cap whole bytes c e =
      let body = take (suc cap) whole in
      elim (Bool-cases (ltb max_zip_body_bytes (length body))) [
        | inl over ↦ cc (sym (if_true _ _ _ over) ∙ e)
        | inr within ↦
            let fits : length body ≤ max_zip_body_bytes = ground arith in
            let all : body ≡ whole = take_short cap whole (rw (sym c) at fits) in
            rw (sym all) (
              listed-Chosen body (dec.infolist body) bytes fits refl
                (sym (if_false _ _ _ within) ∙ e))
      ]

  -- Over a source that behaves as documented, what is extracted from an archive is a file of it than
  -- which no other file is larger, read from the whole body; body and file are within their limits.
  pub zip_largest_member-Chosen :
      (content : S → Bytes) (s : S) (bytes : Bytes)
      → SourceLaws io content
      → zip_largest_member io dec (make_reader io s) ≡ ok (extracted bytes)
      → Chosen (content s) bytes
  unfolding zip_largest_member make_reader
  zip_largest_member-Chosen content s bytes l e =
      let n = max_zip_body_bytes + 1 in
      let z = read-takes io content l n (make_reader io s) refl in
      body-Chosen max_zip_body_bytes (content s) bytes refl (sym (ap (extract_body io dec) z) ∙ e)

  opened_never : (o : Option D) (r : PeekableReader S) → opened io dec o ≡ ok (plain r) → ⊥
  opened_never none r e = cc
  opened_never (some d) r e = cc

  -- An archive never comes back as it was.
  choose_never :
      {A : Type 0} (b : Bool) (x : ReadError Exception) (a : Result (ReadError Exception) A) (c : A)
      → ((a ≡ ok c) → ⊥)
      → (if b then raise x else a) ≡ ok c
      → ⊥
  choose_never true x a c never e = cc
  choose_never false x a c never e = never e

  limit_never : (o : Option Bytes) (r : PeekableReader S) → within_limit io dec o ≡ ok (plain r) → ⊥
  limit_never none r e = cc
  limit_never (some b) r e =
      choose_never (ltb max_decompressed_bytes (length b)) _ (ok (extracted b)) (plain r) (λ q. cc)
        e

  extract_never :
      (body : Bytes) (ms : List ZipMember) (r : PeekableReader S)
      → extract io dec body ms ≡ ok (plain r)
      → ⊥
  extract_never body [] r e = cc
  extract_never body (m ∷ ms) r e =
      choose_never (ltb max_decompressed_bytes (largest m ms).file_size) _ _ (plain r)
        (limit_never (dec.read_member body (largest m ms) (max_decompressed_bytes + 1)) r) e

  listed_never :
      (body : Bytes) (o : Option (List ZipMember)) (r : PeekableReader S)
      → extract_listed io dec body o ≡ ok (plain r)
      → ⊥
  listed_never body none r e = cc
  listed_never body (some members) r e = extract_never body (files_of members) r e

  body_never :
      (x : Result Exception Bytes) (r : PeekableReader S) → extract_body io dec x ≡ ok (plain r) → ⊥
  body_never (raise x) r e = cc
  body_never (ok body) r e =
      choose_never (ltb max_zip_body_bytes (length body)) _ _ (plain r)
        (listed_never body (dec.infolist body) r) e

  same_plain : (r r' : PeekableReader S) → wrap io dec no_compression r ≡ ok (plain r') → r ≡ r'
  same_plain r r' e = cc e

  zstd_plain :
      (o : Option (PeekableReader S → Option D)) (r r' : PeekableReader S)
      → wrap_zstd io dec o r ≡ ok (plain r')
      → r ≡ r'
  zstd_plain none r r' e = same_plain r r' e
  zstd_plain (some open_reader) r r' e = absurd (opened_never (open_reader r) r' e)

  wrap_plain :
      (f : Format) (r r' : PeekableReader S)
      → wrap io dec f r ≡ ok (plain r')
      → (r ≡ r') × Undecoded f
  unfolding zip_largest_member
  wrap_plain gzip r r' e = absurd (opened_never (dec.open_gzip r) r' e)
  wrap_plain bzip2 r r' e = absurd (opened_never (dec.open_bzip2 r) r' e)
  wrap_plain zstd r r' e = (zstd_plain dec.open_zstd r r' e, inr refl)
  wrap_plain zip r r' e = absurd (body_never (read io (max_zip_body_bytes + 1) r).0 r' e)
  wrap_plain no_compression r r' e = (same_plain r r' e, inl refl)

  peeked_plain :
      (hint : Option String) (magic : Bytes) (p : Result Exception Bytes × PeekableReader S)
      (r : PeekableReader S)
      → p.0 ≡ ok magic
      → wrap_peeked io dec hint p ≡ ok (plain r)
      → (p.1 ≡ r) × Undecoded (detect_format magic (hint_of dec.lower dec.strip hint))
  peeked_plain hint magic (raise x, r') r given e = cc
  peeked_plain hint magic (ok m, r') r given e =
      let same : m ≡ magic = cc given in
      wrap_plain (detect_format magic (hint_of dec.lower dec.strip hint)) r' r (
        ap (λ m. wrap io dec (detect_format m (hint_of dec.lower dec.strip hint)) r') (sym same)
        ∙ e)

  -- Over a source that behaves as documented: where apply_compression hands the source on as it is,
  -- the first six bytes and the hint, in lower case and stripped, name no compression, or zstd, and
  -- every sequence of calls on what it hands on is served from the first byte of the source.
  pub apply_compression-ServesAll :
      (content : S → Bytes) (s : S) (hint : Option String) (r : PeekableReader S)
      (calls : List Call)
      → SourceLaws io content
      → apply_compression io dec (source s) hint ≡ ok (plain r)
      → Undecoded (detect_format (take peek_size (content s)) (hint_of dec.lower dec.strip hint))
        × ServesAll calls false (content s) (outputs io calls r)
  unfolding apply_compression make_reader
  apply_compression-ServesAll content s hint r calls l e =
      let (magic, still_open, whole) = peek-keeps io content l peek_size (make_reader io s) refl in
      let (same, undecoded) =
        peeked_plain hint (take peek_size (content s)) (peek io peek_size (make_reader io s)) r
          magic e in
      (
        undecoded,
        rw (sym same) (
            rw whole at
              (serves_from io content l calls (peek io peek_size (make_reader io s)).1 still_open)),
      )
