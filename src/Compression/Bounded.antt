-- ===== src/Compression/Bounded.antt =====
-- src/datasluice/data/compression.py: `_ErrorTranslatingReader`, around a decompressor.
use datasluice.Base.{
  ℕ, zero, suc, ◌+◌, ℤ, pos, negsuc, sub_ℕ, Bool, Option, none, some, ltb, length, if◌then◌else◌,
}
use datasluice.Base.Exec.{Result, ok, raise}
use datasluice.Compression.Peekable.{Bytes, take}

pub data ReadError (E : Type 0) : Type 0 where
  decompression_error : ReadError E
  untranslated : E → ReadError E

-- `inner.read(n)`, where a negative `n` asks for everything, and whether an exception is one of
-- `exc_types`.
pub record Inner (S E : Type 0) : Type 0 where
  pub read_inner : ℤ → S → Result E Bytes × S
  pub is_translated : E → Bool

pub record BoundedReader (S : Type 0) : Type 0 where
  pub inner : S
  pub bytes_read : ℕ

abbrev pub max_decompressed_bytes : ℕ
max_decompressed_bytes = 536870912

-- `remaining + 1`, and `min` of it and a size.
abbrev pub successor : ℤ → ℤ
successor (pos n) = pos (n + 1)
successor (negsuc zero) = pos 0
successor (negsuc (suc n)) = negsuc n

abbrev pub min_size : ℕ → ℤ → ℤ
min_size n (pos m) = if ltb n m then pos n else pos m
min_size n (negsuc m) = negsuc m

-- What is asked of the inner reader; no size stands for a negative one.
unfoldable pub requested : ℕ → Option ℕ → ℕ → ℤ
requested limit none bytes_read = successor (sub_ℕ limit bytes_read)
requested limit (some n) bytes_read = min_size n (successor (sub_ℕ limit bytes_read))

-- The limit is `_MAX_DECOMPRESSED_BYTES`.
module _ {S E : Type 0} (io : Inner S E) (limit : ℕ) where
  abbrev pub received :
      BoundedReader S → Result E Bytes × S → Result (ReadError E) Bytes × BoundedReader S
  received r (raise x, s) = (
    raise (if io.is_translated x then decompression_error else untranslated x),
    record r { inner = s },
  )
  received r (ok chunk, s) = (
    (if ltb limit (r.bytes_read + length chunk) then raise decompression_error else ok chunk),
    record { inner = s; bytes_read = r.bytes_read + length chunk },
  )

  -- `read`, with the limit on all that is read.
  unfoldable pub bounded_read :
      Option ℕ → BoundedReader S → Result (ReadError E) Bytes × BoundedReader S
  unfolding requested
  bounded_read size r = received r (io.read_inner (requested limit size r.bytes_read) r.inner)

  abbrev pub copied : ℕ → Result (ReadError E) Bytes → Result (ReadError E) Bytes
  copied size (ok chunk) = ok (take size chunk)
  copied size (raise x) = raise x

  -- `readinto` a buffer of `size` bytes; what it writes there.
  unfoldable pub bounded_readinto :
      ℕ → BoundedReader S → Result (ReadError E) Bytes × BoundedReader S
  unfolding bounded_read
  bounded_readinto size r =
      (copied size (bounded_read (some size) r).0, (bounded_read (some size) r).1)
