-- ===== src/Compression/Calls.antt =====
-- Any sequence of calls on a `PeekableReader` gives what a reader of the whole byte string gives.
use datasluice.Base.{
  ℕ, ◌-◌, ◌≤◌, Bool, true, false, List, [], ◌∷◌, ◌++◌, ◌≡◌, ◌⊎◌, inl, inr, refl, sym, ap, ◌∙◌,
  arith, equatable_nat, length, if◌then◌else◌, Bool-cases,
}
use datasluice.Base.Exec.{Result, ok, raise}
use datasluice.Errors.{Exception, value_error}
use datasluice.Compression.Peekable.{
  Bytes, take, drop, is_empty, Source, PeekableReader, make_reader, fill, peek, readinto,
  read_into_empty, drain, read, read_all, close,
}
use datasluice.Compression.Slices.{
  append-nil, take-append, drop-append, take_all, drop_all, length-take_le, take-take, drop-take,
  take_within, drop_within, minus-take, length-take_within, takes_some,
}
use datasluice.Compression.Lookahead.{
  SourceLaws, view, ended, nothing, something, Filled, fill-Filled, drain-takes,
}

-- The operations of a reader.
pub data Call : Type 0 where
  peek_call readinto_call read_call : ℕ → Call
  read_all_call close_call : Call

abbrev pub Output : Type 0
Output = Result Exception Bytes

-- What the reader of a byte string gives, and what is left of the string then. `readinto` may give
-- fewer bytes than there is room for, and gives none only at the end or if there is no room.
abbrev pub Serves : Call → Bool → Bytes → Output → Bytes → Type 0
Serves close_call closed before out after = out ≡ ok []
Serves call true before out after = out ≡ raise value_error
Serves (peek_call n) false before out after = (out ≡ ok (take n before)) × (after ≡ before)
Serves (read_call n) false before out after = (out ≡ ok (take n before)) × (after ≡ drop n before)
Serves read_all_call false before out after = (out ≡ ok before) × (after ≡ [])
Serves (readinto_call size) false before out after =
    (n : ℕ) × (n ≤ size)
    × ((1 ≤ n) ⊎ (size ≡ 0) ⊎ (before ≡ []))
    × (out ≡ ok (take n before))
    × (after ≡ drop n before)

abbrev pub closes : Call → Bool → Bool
closes close_call closed = true
closes call closed = closed

-- The outputs of a sequence of calls on the reader of a byte string.
abbrev pub ServesAll : List Call → Bool → Bytes → List Output → Type 0
ServesAll [] closed before [] = Unit
ServesAll [] closed before (out ∷ outs) = ⊥
ServesAll (call ∷ calls) closed before [] = ⊥
ServesAll (call ∷ calls) closed before (out ∷ outs) =
    (after : Bytes) × Serves call closed before out after
    × ServesAll calls (closes call closed) after outs

module _ {S : Type 0} (io : Source S) where
  unfoldable pub perform : Call → PeekableReader S → Output × PeekableReader S
  unfolding peek readinto read read_all close
  perform (peek_call n) r = peek io n r
  perform (readinto_call size) r = readinto io size r
  perform (read_call n) r = read io n r
  perform read_all_call r = read_all io r
  perform close_call r = (ok [], close io r)

  unfoldable pub outputs : List Call → PeekableReader S → List Output
  unfolding perform
  outputs [] r = []
  outputs (call ∷ calls) r = (perform call r).0 ∷ outputs calls (perform call r).1

  -- A closed reader serves nothing, whatever is left in it.
  closed-Serves :
      (call : Call) (r : PeekableReader S) (before : Bytes)
      → r.closed ≡ true
      → Serves call true before (perform call r).0 before × ((perform call r).1.closed ≡ true)
  unfolding perform peek readinto read read_all close
  closed-Serves (peek_call n) r before e = rw e (refl, refl)
  closed-Serves (readinto_call size) r before e = rw e (refl, refl)
  closed-Serves (read_call n) r before e = rw e (refl, refl)
  closed-Serves read_all_call r before e = rw e (refl, refl)
  closed-Serves close_call r before e = rw e (refl, refl)

  closes-true : (call : Call) → closes call true ≡ true
  closes-true (peek_call n) = refl
  closes-true (readinto_call n) = refl
  closes-true (read_call n) = refl
  closes-true read_all_call = refl
  closes-true close_call = refl

  closed_outputs :
      (calls : List Call) (r : PeekableReader S) (before : Bytes)
      → r.closed ≡ true
      → ServesAll calls true before (outputs calls r)
  unfolding outputs
  closed_outputs [] r before e = tt
  closed_outputs (call ∷ calls) r before e =
      let (served, still) = closed-Serves call r before e in
      (before, served, rw (closes-true call) (closed_outputs calls (perform call r).1 before still))

module _ {S : Type 0} (io : Source S) (n : ℕ) (r : PeekableReader S) (e : r.closed ≡ false) where
  pub open_peek :
      peek io n r
      ≡ (ok (take n (fill io (n - length r.buffer) n r).buffer), fill io (n - length r.buffer) n r)
  unfolding peek
  open_peek = rw e refl

  open_read : read io n r ≡ (
    ok (
        take n r.buffer
        ++ (drain io (n - length (take n r.buffer)) (n - length (take n r.buffer)) r.source).0),
    record r {
      source = (drain io (n - length (take n r.buffer)) (n - length (take n r.buffer)) r.source).1;
      buffer = drop (length (take n r.buffer)) r.buffer;
    },
  )
  unfolding read
  open_read = rw e refl

  open_read_all : read_all io r ≡ (
    ok (r.buffer ++ (io.read_rest r.source).0),
    record r { source = (io.read_rest r.source).1; buffer = [] },
  )
  unfolding read_all
  open_read_all = rw e refl

  open_readinto : readinto io n r ≡ (
      if is_empty r.buffer
      then read_into_empty io n r (io.read_some n r.source)
      else (ok (take n r.buffer), record r { buffer = drop n r.buffer }))
  unfolding readinto
  open_readinto = rw e refl

module _ {S : Type 0} (io : Source S) (content : S → Bytes) where
  -- Where an open reader stands behind a call.
  Next : Call → PeekableReader S → Bytes → Type 0
  Next call r after =
      ((closes call false ≡ true) × (r.closed ≡ true))
      ⊎ ((closes call false ≡ false) × (r.closed ≡ false) × (view io content r ≡ after))

  module _ (l : SourceLaws io content) where
    Served : Call → PeekableReader S → Type 0
    Served call r =
        (after : Bytes) × Serves call false (view io content r) (perform io call r).0 after
        × Next call (perform io call r).1 after

    peek-Served : (n : ℕ) (r : PeekableReader S) → r.closed ≡ false → Served (peek_call n) r
    unfolding Served Next perform Filled
    peek-Served n r e =
        let r' = fill io (n - length r.buffer) n r in
        let f = fill-Filled io content l (n - length r.buffer) n r (omega arith) in
        let seen : take n r'.buffer ≡ take n (view io content r) = elim f.2 [
          | inl enough ↦ sym (take_within n r'.buffer (content r'.source) enough) ∙ ap (take n) f.0
          | inr at_end ↦
              ap (take n) (sym (append-nil r'.buffer) ∙ ap (λ c. r'.buffer ++ c) (sym at_end))
              ∙ ap (take n) f.0
        ] in
        rw (open_peek io n r e) (view io content r, (ap ok seen, refl), inr (refl, f.1 ∙ e, f.0))

    read-Served : (n : ℕ) (r : PeekableReader S) → r.closed ≡ false → Served (read_call n) r
    unfolding Served Next perform
    read-Served n r e =
        let taken = take n r.buffer in
        let left = n - length taken in
        let d = drain-takes io content l left left r.source (omega arith) in
        let count : left ≡ n - length r.buffer = minus-take n r.buffer in
        let out : taken ++ (drain io left left r.source).0 ≡ take n (view io content r) =
          ap (λ c. taken ++ c) (d.0 ∙ ap (λ m. take m (content r.source)) count)
          ∙ sym (take-append n r.buffer (content r.source)) in
        let rest : drop (length taken) r.buffer ++ content (drain io left left r.source).1
            ≡ drop n (view io content r) =
          ap (λ c. drop (length taken) r.buffer ++ c)
            (d.1 ∙ ap (λ m. drop m (content r.source)) count)
          ∙ ap (λ b. b ++ drop (n - length r.buffer) (content r.source)) (drop-take n r.buffer)
          ∙ sym (drop-append n r.buffer (content r.source)) in
        rw (open_read io n r e) (drop n (view io content r), (ap ok out, refl), inr (refl, e, rest))

    pub read-takes :
        (n : ℕ) (r : PeekableReader S)
        → r.closed ≡ false
        → (read io n r).0 ≡ ok (take n (view io content r))
    unfolding Served perform
    read-takes n r e = (read-Served n r e).1.0

    pub peek-keeps :
        (n : ℕ) (r : PeekableReader S)
        → r.closed ≡ false
        → ((peek io n r).0 ≡ ok (take n (view io content r)))
          × ((peek io n r).1.closed ≡ false)
          × (view io content (peek io n r).1 ≡ view io content r)
    unfolding Served Next perform
    peek-keeps n r e =
        let p = peek-Served n r e in
        elim p.2 [ inl closed ↦ cc closed.0 | inr going ↦ (p.1.0, going.1, going.2 ∙ p.1.1) ]

    -- `readinto` from the buffer, and from the source.
    buffered-Served :
        (n : ℕ) (r : PeekableReader S)
        → r.closed ≡ false
        → is_empty r.buffer ≡ false
        → Served (readinto_call n) r
    unfolding Served Next perform
    buffered-Served n r e some_left =
        let k = length (take n r.buffer) in
        let within = length-take_within n r.buffer in
        rw (open_readinto io n r e, some_left)
          (
            drop k (view io content r),
            (
              k,
              length-take_le n r.buffer,
              (elim (takes_some n r.buffer some_left) [
                | inl some_taken ↦ inl some_taken
                | inr no_room ↦ inr (inl no_room)
              ]),
              ap ok (sym (take_within k r.buffer (content r.source) within ∙ take-take n r.buffer)),
              refl,
            ),
            inr (
              refl,
              e,
              ap (λ b. b ++ content r.source) (sym (drop-take n r.buffer))
                  ∙ sym (drop_within k r.buffer (content r.source) within),
            ),
          )

    sourced-Served :
        (n : ℕ) (r : PeekableReader S)
        → r.closed ≡ false
        → is_empty r.buffer ≡ true
        → Served (readinto_call n) r
    unfolding Served Next perform take drop
    sourced-Served n r e none_left =
        let chunk = (io.read_some n r.source).0 in
        let s = (io.read_some n r.source).1 in
        let bare : r.buffer ≡ [] = nothing r.buffer none_left in
        elim (Bool-cases (is_empty chunk)) [
          | inl at_end ↦
              let z = ended io content l n r.source at_end in
              rw (open_readinto io n r e, none_left, at_end)
                (
                  view io content r,
                  (
                    0,
                    omega arith,
                    (elim z.1 [
                      | inl no_room ↦ inr (inl no_room)
                      | inr empty ↦ inr (inr (ap (λ b. b ++ content r.source) bare ∙ empty))
                    ]),
                    refl,
                    refl,
                  ),
                  inr (refl, e, ap (λ c. r.buffer ++ c) z.0),
                )
          | inr more ↦
              let k = length chunk in
              let fits = l.some-bounded n r.source in
              let whole : view io content r ≡ chunk ++ content s =
                ap (λ b. b ++ content r.source) bare ∙ l.some-content n r.source in
              rw (open_readinto io n r e, none_left, more)
                (
                  drop k (view io content r),
                  (
                    k,
                    fits,
                    inl (something chunk more),
                    ap ok (
                        take_all n chunk fits
                        ∙ sym (
                            ap (take k) whole
                            ∙ take_within k chunk (content s) (omega arith)
                            ∙ take_all k chunk (omega arith))),
                    refl,
                  ),
                  inr (
                    refl,
                    e,
                    ap (λ b. (b ++ drop n chunk) ++ content s) bare
                        ∙ ap (λ c. c ++ content s) (drop_all n chunk fits)
                        ∙ sym (
                            ap (drop k) whole
                            ∙ drop_within k chunk (content s) (omega arith)
                            ∙ ap (λ c. c ++ content s) (drop_all k chunk (omega arith))),
                  ),
                )
        ]

    readinto-Served : (n : ℕ) (r : PeekableReader S) → r.closed ≡ false → Served (readinto_call n) r
    readinto-Served n r e = elim (Bool-cases (is_empty r.buffer)) [
      | inl none_left ↦ sourced-Served n r e none_left
      | inr some_left ↦ buffered-Served n r e some_left
    ]

    read_all-Served : (r : PeekableReader S) → r.closed ≡ false → Served read_all_call r
    unfolding Served Next perform
    read_all-Served r e = rw (open_read_all io 0 r e) (
      [],
      (ap (λ c. ok (r.buffer ++ c)) (l.rest-content r.source), refl),
      inr (refl, e, l.rest-end r.source),
    )

    close-Served : (r : PeekableReader S) → r.closed ≡ false → Served close_call r
    unfolding Served Next perform close
    close-Served r e = (view io content r, refl, inl (refl, rw e refl))

    serves_open : (call : Call) (r : PeekableReader S) → r.closed ≡ false → Served call r
    serves_open (peek_call n) r e = peek-Served n r e
    serves_open (readinto_call n) r e = readinto-Served n r e
    serves_open (read_call n) r e = read-Served n r e
    serves_open read_all_call r e = read_all-Served r e
    serves_open close_call r e = close-Served r e

    pub serves_from :
        (calls : List Call) (r : PeekableReader S)
        → r.closed ≡ false
        → ServesAll calls false (view io content r) (outputs io calls r)
    unfolding outputs Served Next
    serves_from [] r e = tt
    serves_from (call ∷ calls) r e =
        let (after, served, next) = serves_open call r e in
        (
          after,
          served,
          elim next [
            | inl closed ↦
                rw closed.0 (closed_outputs io calls (perform io call r).1 after closed.1)
            | inr going ↦
                rw going.0 (rw going.2 at (serves_from calls (perform io call r).1 going.1))
          ],
        )

  -- Over a source that behaves as documented, whatever calls are made on a new PeekableReader, each
  -- gives what a reader of the whole content of the source gives: the next bytes in order, a peek
  -- without consuming them, readinto some of them, and a ValueError once it was closed.
  pub outputs-ServesAll :
      (calls : List Call) (s : S)
      → SourceLaws io content
      → ServesAll calls false (content s) (outputs io calls (make_reader io s))
  unfolding make_reader
  outputs-ServesAll calls s l = serves_from l calls (make_reader io s) refl
