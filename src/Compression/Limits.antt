-- ===== src/Compression/Limits.antt =====
-- What a decompressor's reader hands out stays within its limit.
use datasluice.Base.{
  ℕ, suc, ◌+◌, ◌-◌, ◌≤◌, pos, sub_ℕ, Option, none, some, List, [], ◌∷◌, ◌≡◌, inl, inr, refl, ap,
  arith, ltb, leb, length, Bool-cases,
}
use datasluice.Base.Exec.{Result, ok, raise}
use datasluice.Compression.Peekable.{Bytes}
use datasluice.Compression.Bounded.{
  ReadError, Inner, BoundedReader, requested, received, copied, bounded_read, bounded_readinto,
  successor,
}
use datasluice.Compression.Slices.{length-take_within}

pub data BoundedCall : Type 0 where
  read_call : Option ℕ → BoundedCall
  readinto_call : ℕ → BoundedCall

module _ {S E : Type 0} (io : Inner S E) (limit : ℕ) where
  -- The documented behaviour of a decompressor: a read of a given size gives no more than that.
  pub record InnerLaws : Type 0 where
    pub inner-bounded :
        (n : ℕ) (s : S) (chunk : Bytes) → (io.read_inner (pos n) s).0 ≡ ok chunk → length chunk ≤ n

  abbrev pub handed : Result (ReadError E) Bytes → ℕ
  handed (ok chunk) = length chunk
  handed (raise x) = 0

  unfoldable pub perform :
      BoundedCall → BoundedReader S → Result (ReadError E) Bytes × BoundedReader S
  unfolding bounded_read bounded_readinto
  perform (read_call size) r = bounded_read io limit size r
  perform (readinto_call size) r = bounded_readinto io limit size r

  -- The bytes that a sequence of calls hands out, and the reader behind it.
  unfoldable pub perform_all : List BoundedCall → BoundedReader S → ℕ × BoundedReader S
  unfolding perform
  perform_all [] r = (0, r)
  perform_all (call ∷ calls) r =
      let (out, r') = perform call r in
      let (rest, r'') = perform_all calls r' in (handed out + rest, r'')

  left_over :
      (b : ℕ) → b ≤ suc limit → (q : ℕ) × (successor (sub_ℕ limit b) ≡ pos q) × (q + b ≤ suc limit)
  left_over b h = elim (Bool-cases (leb b limit)) [
    | inl within ↦ (suc (limit - b), rw within (ap pos (omega arith)), ground arith)
    | inr over ↦ let z : b - limit - 1 ≡ 0 = ground arith in (0, rw (over, z) refl, omega arith)
  ]

  -- The inner reader is never asked for everything, or for more than one byte over the limit.
  requested_within :
      (size : Option ℕ) (b : ℕ)
      → b ≤ suc limit
      → (q : ℕ) × (requested limit size b ≡ pos q) × (q + b ≤ suc limit)
  unfolding requested
  requested_within none b h = left_over b h
  requested_within (some n) b h =
      let (q, e, fits) = left_over b h in
      elim (Bool-cases (ltb n q)) [
        | inl small ↦ (n, rw (e, small) refl, ground arith)
        | inr large ↦ (q, rw (e, large) refl, fits)
      ]

  -- What a call hands out is taken from what is left of the limit.
  Charged : BoundedReader S → Result (ReadError E) Bytes × BoundedReader S → Type 0
  Charged r (out, r') =
      (handed out + (limit - r'.bytes_read) ≤ limit - r.bytes_read) × (r'.bytes_read ≤ suc limit)

  received-Charged :
      (r : BoundedReader S) (q : ℕ) (given : Result E Bytes × S)
      → q + r.bytes_read ≤ suc limit
      → ((chunk : Bytes) → given.0 ≡ ok chunk → length chunk ≤ q)
      → Charged r (received io limit r given)
  unfolding Charged
  received-Charged r q (raise x, s) fits small = (omega arith, omega arith)
  received-Charged r q (ok chunk, s) fits small =
      let n = small chunk refl in
      elim (Bool-cases (ltb limit (r.bytes_read + length chunk))) [
        | inl over ↦ rw over (omega arith, omega arith)
        | inr within ↦ rw within (ground arith, omega arith)
      ]

  module _ (l : InnerLaws) where
    read-Charged :
        (size : Option ℕ) (r : BoundedReader S)
        → r.bytes_read ≤ suc limit
        → Charged r (bounded_read io limit size r)
    unfolding bounded_read
    read-Charged size r h =
        let (q, e, fits) = requested_within size r.bytes_read h in
        received-Charged r q (io.read_inner (requested limit size r.bytes_read) r.inner) fits
          (λ chunk given. l.inner-bounded q r.inner chunk (rw e at given))

    copied_le :
        (size : ℕ) (out : Result (ReadError E) Bytes)
        → handed (copied io limit size out) ≤ handed out
    copied_le size (ok chunk) = length-take_within size chunk
    copied_le size (raise x) = omega arith

    call-Charged :
        (call : BoundedCall) (r : BoundedReader S)
        → r.bytes_read ≤ suc limit
        → Charged r (perform call r)
    unfolding Charged perform bounded_readinto
    call-Charged (read_call size) r h = read-Charged size r h
    call-Charged (readinto_call size) r h =
        let c = read-Charged (some size) r h in
        let fewer = copied_le size (bounded_read io limit (some size) r).0 in (omega arith, c.1)

    charged_all :
        (calls : List BoundedCall) (r : BoundedReader S)
        → r.bytes_read ≤ suc limit
        → ((perform_all calls r).0 + (limit - (perform_all calls r).1.bytes_read)
            ≤ limit - r.bytes_read)
          × ((perform_all calls r).1.bytes_read ≤ suc limit)
    unfolding perform_all Charged
    charged_all [] r h = (omega arith, h)
    charged_all (call ∷ calls) r h =
        let c = call-Charged call r h in
        let rest = charged_all calls (perform call r).1 c.1 in (omega arith, rest.1)

  -- Around a decompressor that gives no more than it is asked for, whatever reads are made on a new
  -- reader, all of them together hand out no more bytes than the limit, and no more than one byte
  -- over the limit is ever taken from the decompressor.
  pub reads-bounded :
      (calls : List BoundedCall) (s : S)
      → InnerLaws
      → ((perform_all calls (record { inner = s; bytes_read = 0 })).0 ≤ limit)
        × ((perform_all calls (record { inner = s; bytes_read = 0 })).1.bytes_read ≤ suc limit)
  reads-bounded calls s l =
      let c = charged_all l calls (record { inner = s; bytes_read = 0 }) (omega arith) in
      (omega arith, c.1)
