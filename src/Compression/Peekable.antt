-- ===== src/Compression/Peekable.antt =====
-- src/datasluice/data/compression.py: `PeekableReader`. The source is any binary file object.
use datasluice.Base.{
  ℕ, zero, suc, ◌-◌, Bool, true, false, List, [], ◌∷◌, ◌++◌, ◌==◌, equatable_nat, leb, length,
  if◌then◌else◌,
}
use datasluice.Base.Exec.{Result, ok, raise}
use datasluice.Errors.{Exception, value_error}

abbrev pub Bytes : Type 0
Bytes = List ℕ

module _ {A : Type 0} where
  -- `xs[:n]` and `xs[n:]`
  unfoldable pub take : ℕ → List A → List A
  take zero xs = []
  take (suc n) [] = []
  take (suc n) (x ∷ xs) = x ∷ take n xs

  unfoldable pub drop : ℕ → List A → List A
  drop zero xs = xs
  drop (suc n) [] = []
  drop (suc n) (x ∷ xs) = drop n xs

  abbrev pub is_empty : List A → Bool
  is_empty [] = true
  is_empty (x ∷ xs) = false

-- `read(n)`, `read()` and `close()` of a source.
pub record Source (S : Type 0) : Type 0 where
  pub read_some : ℕ → S → Bytes × S
  pub read_rest : S → Bytes × S
  pub close_source : S → S

pub record PeekableReader (S : Type 0) : Type 0 where
  pub source : S
  pub buffer : Bytes
  pub closed : Bool

module _ {S : Type 0} (io : Source S) where
  -- `PeekableReader(source)`
  unfoldable pub make_reader : S → PeekableReader S
  make_reader s = record { source = s; buffer = []; closed = false }

  -- The loop of `peek`; a round that goes on has read a byte at least.
  unfoldable pub fill : ℕ → ℕ → PeekableReader S → PeekableReader S
  fill zero n r = r
  fill (suc fuel) n r =
      let (chunk, s) = io.read_some (n - length r.buffer) r.source in
      let rest = fill fuel n (record r { source = s; buffer = r.buffer ++ chunk }) in
      if leb n (length r.buffer)
      then r
      else if is_empty chunk
      then record r { source = s }
      else rest

  unfoldable pub peek : ℕ → PeekableReader S → Result Exception Bytes × PeekableReader S
  unfolding fill
  peek n r =
      let r' = fill (n - length r.buffer) n r in
      if r.closed then (raise value_error, r) else (ok (take n r'.buffer), r')

  -- `readinto` a buffer of `size` bytes; what it writes there.
  abbrev pub read_into_empty :
      ℕ → PeekableReader S → Bytes × S → Result Exception Bytes × PeekableReader S
  read_into_empty size r (chunk, s) =
      if is_empty chunk
      then (ok [], record r { source = s })
      else (ok (take size chunk), record r { source = s; buffer = r.buffer ++ drop size chunk })

  unfoldable pub readinto : ℕ → PeekableReader S → Result Exception Bytes × PeekableReader S
  readinto size r =
      if r.closed
      then (raise value_error, r)
      else if is_empty r.buffer
      then read_into_empty size r (io.read_some size r.source)
      else (ok (take size r.buffer), record r { buffer = drop size r.buffer })

  -- The loop of `read`.
  unfoldable pub drain : ℕ → ℕ → S → Bytes × S
  drain zero n s = ([], s)
  drain (suc fuel) n s =
      let (chunk, s') = io.read_some n s in
      let (rest, s'') = drain fuel (n - length chunk) s' in
      if n == 0 then ([], s) else if is_empty chunk then ([], s') else (chunk ++ rest, s'')

  -- `read(n)` with `n >= 0`, and `read()`.
  unfoldable pub read : ℕ → PeekableReader S → Result Exception Bytes × PeekableReader S
  unfolding drain
  read n r =
      let taken = take n r.buffer in
      let left = n - length taken in
      let (out, s) = drain left left r.source in
      if r.closed
      then (raise value_error, r)
      else (ok (taken ++ out), record r { source = s; buffer = drop (length taken) r.buffer })

  unfoldable pub read_all : PeekableReader S → Result Exception Bytes × PeekableReader S
  read_all r =
      let (rest, s) = io.read_rest r.source in
      if r.closed
      then (raise value_error, r)
      else (ok (r.buffer ++ rest), record r { source = s; buffer = [] })

  unfoldable pub close : PeekableReader S → PeekableReader S
  close r = if r.closed then r else record r { source = io.close_source r.source; closed = true }
