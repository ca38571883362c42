-- ===== src/Compression/Select.antt =====
-- src/datasluice/data/compression.py: `_detect_format`, `container_format`, `_zip_largest_member` and
-- `apply_compression`. The decompressors and `zipfile` are parameters.
use datasluice.Base.{
  ℕ, ◌+◌, String, Bool, true, false, ◌&&◌, ◌||◌, Option, none, some, List, [], ◌∷◌, ◌==◌,
  equatable_nat, equatable_string, ltb, length, if◌then◌else◌, contains,
}
use datasluice.Base.Exec.{Result, ok, raise}
use datasluice.Errors.{Exception}
use datasluice.Compression.Peekable.{Bytes, Source, PeekableReader, make_reader, peek, read}
use datasluice.Compression.Bounded.{
  ReadError, decompression_error, untranslated, max_decompressed_bytes,
}

pub data Format : Type 0 where
  gzip bzip2 zstd zip no_compression : Format

pub data Container : Type 0 where
  zip_container parquet_container : Container

abbrev pub gzip_magic : Bytes
gzip_magic = 0x1f ∷ 0x8b ∷ []

abbrev pub bzip2_magic : Bytes
bzip2_magic = 0x42 ∷ 0x5a ∷ 0x68 ∷ []

abbrev pub zstd_magic : Bytes
zstd_magic = 0x28 ∷ 0xb5 ∷ 0x2f ∷ 0xfd ∷ []

abbrev pub zip_magic : Bytes
zip_magic = 0x50 ∷ 0x4b ∷ 0x03 ∷ 0x04 ∷ []

abbrev pub parquet_magic : Bytes
parquet_magic = 0x50 ∷ 0x41 ∷ 0x52 ∷ 0x31 ∷ []

abbrev pub peek_size : ℕ
peek_size = 6

abbrev pub max_zip_body_bytes : ℕ
max_zip_body_bytes = 536870912

-- `magic.startswith(prefix)`
unfoldable pub starts_with : Bytes → Bytes → Bool
starts_with magic [] = true
starts_with [] (b ∷ prefix) = false
starts_with (a ∷ magic) (b ∷ prefix) = a == b && starts_with magic prefix

-- `ce`: the content encoding in lower case and stripped, or an empty text.
abbrev pub hint_of : (lower strip : String → String) → Option String → String
hint_of lower strip none = strip (lower "")
hint_of lower strip (some encoding) = strip (lower encoding)

unfoldable pub detect_format : Bytes → String → Format
unfolding starts_with
detect_format magic hint =
    if starts_with magic gzip_magic || contains ("gzip" ∷ "x-gzip" ∷ []) hint
    then gzip
    else if starts_with magic bzip2_magic || contains ("bzip2" ∷ "bz2" ∷ "x-bzip2" ∷ []) hint
    then bzip2
    else if starts_with magic zstd_magic || hint == "zstd"
    then zstd
    else if starts_with magic zip_magic || contains ("zip" ∷ "x-zip" ∷ []) hint
    then zip
    else no_compression

unfoldable pub container_format : Bytes → Option Container
unfolding starts_with
container_format magic =
    if starts_with magic zip_magic
    then some zip_container
    else if starts_with magic parquet_magic
    then some parquet_container
    else none

pub record ZipMember : Type 0 where
  pub filename : String
  pub is_dir : Bool
  pub file_size : ℕ

-- `GzipFile`, `BZ2File` and, if it is installed, `zstandard` around a reader; `ZipFile(…).infolist()`
-- of a body, and the first bytes of a member. `none` is an exception that is translated.
pub record Decompressors (S D : Type 0) : Type 0 where
  pub open_gzip : PeekableReader S → Option D
  pub open_bzip2 : PeekableReader S → Option D
  pub open_zstd : Option (PeekableReader S → Option D)
  pub infolist : Bytes → Option (List ZipMember)
  pub read_member : Bytes → ZipMember → ℕ → Option Bytes
  -- of Python's `str`
  pub lower : String → String
  pub strip : String → String

abbrev pub files_of : List ZipMember → List ZipMember
files_of [] = []
files_of (m ∷ ms) = let rest = files_of ms in if m.is_dir then rest else m ∷ rest

-- `max(members, key=file_size)`: the first of the largest.
unfoldable pub largest : ZipMember → List ZipMember → ZipMember
largest best [] = best
largest best (m ∷ ms) = largest (if ltb best.file_size m.file_size then m else best) ms

-- What is given to `apply_compression`.
pub data Given (S : Type 0) : Type 0 where
  source : S → Given S
  reader : PeekableReader S → Given S

pub data Opened (S D : Type 0) : Type 0 where
  decompressing : D → Opened S D
  extracted : Bytes → Opened S D
  plain : PeekableReader S → Opened S D

module _ {S D : Type 0} (io : Source S) (dec : Decompressors S D) where
  abbrev pub opened : Option D → Result (ReadError Exception) (Opened S D)
  opened none = raise decompression_error
  opened (some d) = ok (decompressing d)

  abbrev pub within_limit : Option Bytes → Result (ReadError Exception) (Opened S D)
  within_limit none = raise decompression_error
  within_limit (some bytes) =
      if ltb max_decompressed_bytes (length bytes)
      then raise decompression_error
      else ok (extracted bytes)

  abbrev pub extract : Bytes → List ZipMember → Result (ReadError Exception) (Opened S D)
  extract body [] = raise decompression_error
  extract body (m ∷ ms) =
      if ltb max_decompressed_bytes (largest m ms).file_size
      then raise decompression_error
      else within_limit (dec.read_member body (largest m ms) (max_decompressed_bytes + 1))

  abbrev pub extract_listed :
      Bytes → Option (List ZipMember) → Result (ReadError Exception) (Opened S D)
  extract_listed body none = raise decompression_error
  extract_listed body (some members) = extract body (files_of members)

  abbrev pub extract_body : Result Exception Bytes → Result (ReadError Exception) (Opened S D)
  extract_body (raise x) = raise (untranslated x)
  extract_body (ok body) =
      if ltb max_zip_body_bytes (length body)
      then raise decompression_error
      else extract_listed body (dec.infolist body)

  -- `_zip_largest_member`, less the `close` of the source that nothing reads any more.
  unfoldable pub zip_largest_member : PeekableReader S → Result (ReadError Exception) (Opened S D)
  unfolding read largest
  zip_largest_member r = extract_body (read io (max_zip_body_bytes + 1) r).0

  abbrev pub wrap_zstd :
      Option (PeekableReader S → Option D)
      → PeekableReader S
      → Result (ReadError Exception) (Opened S D)
  wrap_zstd none r = ok (plain r)
  wrap_zstd (some open_reader) r = opened (open_reader r)

  abbrev pub wrap : Format → PeekableReader S → Result (ReadError Exception) (Opened S D)
  wrap gzip r = opened (dec.open_gzip r)
  wrap bzip2 r = opened (dec.open_bzip2 r)
  wrap zstd r = wrap_zstd dec.open_zstd r
  wrap zip r = zip_largest_member r
  wrap no_compression r = ok (plain r)

  abbrev pub wrap_peeked :
      Option String
      → Result Exception Bytes × PeekableReader S
      → Result (ReadError Exception) (Opened S D)
  wrap_peeked hint (raise x, r) = raise (untranslated x)
  wrap_peeked hint (ok magic, r) = wrap (detect_format magic (hint_of dec.lower dec.strip hint)) r

  -- The `PeekableReader` that is used: the one that is given, or a new one around the source.
  abbrev pub peekable : Given S → PeekableReader S
  peekable (source s) = make_reader io s
  peekable (reader r) = r

  unfoldable pub apply_compression :
      Given S → Option String → Result (ReadError Exception) (Opened S D)
  unfolding make_reader peek detect_format zip_largest_member
  apply_compression given hint = wrap_peeked hint (peek io peek_size (peekable given))
