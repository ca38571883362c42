-- ===== src/Compression/Lookahead.antt =====
-- What a `PeekableReader` gives is what its source has to give, in order and without loss.
use datasluice.Base.{
  ℕ, zero, suc, ◌-◌, ◌≤◌, true, false, [], ◌∷◌, ◌++◌, ◌==◌, ◌≡◌, ◌⊎◌, inl, inr, refl, sym, ap, ◌∙◌,
  arith, equatable_nat, leb, length, Bool-cases, length-append,
}
use datasluice.Compression.Peekable.{
  Bytes, take, drop, is_empty, Source, PeekableReader, fill, drain,
}
use datasluice.Compression.Slices.{
  append_assoc, take-nil, drop-nil, take-append, drop-append, take_all, drop_all,
}

pub nothing : (chunk : Bytes) → is_empty chunk ≡ true → chunk ≡ []
nothing [] e = refl
nothing (b ∷ chunk) e = cc

pub something : (chunk : Bytes) → is_empty chunk ≡ false → 1 ≤ length chunk
something [] e = cc
something (b ∷ chunk) e = omega arith

module _ {S : Type 0} (io : Source S) (content : S → Bytes) where
  -- The documented behaviour of a binary file object whose unread bytes are its content: a read
  -- gives at most as many of the next bytes as were asked for, and none only at the end.
  pub record SourceLaws : Type 0 where
    pub some-content :
        (n : ℕ) (s : S) → content s ≡ (io.read_some n s).0 ++ content (io.read_some n s).1
    pub some-bounded : (n : ℕ) (s : S) → length (io.read_some n s).0 ≤ n
    pub some-end : (n : ℕ) (s : S) → (io.read_some (suc n) s).0 ≡ [] → content s ≡ []
    pub rest-content : (s : S) → (io.read_rest s).0 ≡ content s
    pub rest-end : (s : S) → content (io.read_rest s).1 ≡ []

  -- What is still to be read.
  abbrev pub view : PeekableReader S → Bytes
  view r = r.buffer ++ content r.source

  module _ (l : SourceLaws) where
    -- A read that gives nothing leaves the content, and there is none unless none was asked for.
    pub ended :
        (n : ℕ) (s : S)
        → is_empty (io.read_some n s).0 ≡ true
        → (content (io.read_some n s).1 ≡ content s) × ((n ≡ 0) ⊎ (content s ≡ []))
    ended zero s e = (
      sym (l.some-content 0 s ∙ ap (λ c. c ++ content (io.read_some 0 s).1) (nothing _ e)),
      inl refl,
    )
    ended (suc n) s e = (
      sym (
          l.some-content (suc n) s
          ∙ ap (λ c. c ++ content (io.read_some (suc n) s).1) (nothing _ e)),
      inr (l.some-end n s (nothing _ e)),
    )

    unfoldable pub Filled : ℕ → PeekableReader S → PeekableReader S → Type 0
    Filled n r r' =
        (view r' ≡ view r)
        × (r'.closed ≡ r.closed)
        × ((n ≤ length r'.buffer) ⊎ (content r'.source ≡ []))

    pub fill-Filled :
        (fuel n : ℕ) (r : PeekableReader S)
        → n - length r.buffer ≤ fuel
        → Filled n r (fill io fuel n r)
    unfolding fill Filled
    fill-Filled zero n r h = (refl, refl, inl (omega arith))
    fill-Filled (suc fuel) n r h = elim (Bool-cases (leb n (length r.buffer))) [
      | inl enough ↦ rw enough (refl, refl, inl (ground arith))
      | inr short ↦
          let chunk = (io.read_some (n - length r.buffer) r.source).0 in
          let s = (io.read_some (n - length r.buffer) r.source).1 in
          let r' : PeekableReader S = record r { source = s; buffer = r.buffer ++ chunk } in
          elim (Bool-cases (is_empty chunk)) [
            | inl none_left ↦
                let z = ended (n - length r.buffer) r.source none_left in
                let at_end : content r.source ≡ [] = elim z.1 [
                  | inl asked ↦ absurd (ground arith)
                  | inr empty ↦ empty
                ] in
                rw (short, none_left) (ap (λ c. r.buffer ++ c) z.0, refl, inr (z.0 ∙ at_end))
            | inr more ↦
                let grows = something chunk more in
                let rest = fill-Filled fuel n r' (omega (arith, length-append r.buffer chunk)) in
                rw (short, more)
                  (
                    rest.0
                        ∙ append_assoc r.buffer chunk (content s)
                        ∙ ap (λ c. r.buffer ++ c)
                            (sym (l.some-content (n - length r.buffer) r.source)),
                    rest.1,
                    rest.2,
                  )
          ]
    ]

    -- The loop of `read` gives the next bytes.
    pub drain-takes :
        (fuel n : ℕ) (s : S)
        → n ≤ fuel
        → ((drain io fuel n s).0 ≡ take n (content s))
          × (content (drain io fuel n s).1 ≡ drop n (content s))
    unfolding drain take drop
    drain-takes zero zero s h = (refl, refl)
    drain-takes zero (suc n) s h = absurd (omega arith)
    drain-takes (suc fuel) zero s h = (refl, refl)
    drain-takes (suc fuel) (suc n) s h =
        let counted : (suc n == 0) ≡ false = ground arith in
        let chunk = (io.read_some (suc n) s).0 in
        let s' = (io.read_some (suc n) s).1 in
        elim (Bool-cases (is_empty chunk)) [
          | inl none_left ↦
              let z = ended (suc n) s none_left in
              let at_end : content s ≡ [] = l.some-end n s (nothing chunk none_left) in
              rw (counted, none_left)
                (
                  sym (ap (take (suc n)) at_end ∙ take-nil (suc n)),
                  z.0 ∙ at_end ∙ sym (ap (drop (suc n)) at_end ∙ drop-nil (suc n)),
                )
          | inr more ↦
              let grows = something chunk more in
              let fits = l.some-bounded (suc n) s in
              let whole = l.some-content (suc n) s in
              let rest = drain-takes fuel (suc n - length chunk) s' (omega arith) in
              rw (counted, more)
                (
                  ap (λ c. chunk ++ c) rest.0
                      ∙ ap (λ c. c ++ take (suc n - length chunk) (content s'))
                          (sym (take_all (suc n) chunk fits))
                      ∙ sym (ap (take (suc n)) whole ∙ take-append (suc n) chunk (content s')),
                  rest.1
                      ∙ ap (λ c. c ++ drop (suc n - length chunk) (content s'))
                          (sym (drop_all (suc n) chunk fits))
                      ∙ sym (ap (drop (suc n)) whole ∙ drop-append (suc n) chunk (content s')),
                )
        ]
