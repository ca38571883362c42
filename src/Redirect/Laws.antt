-- ===== src/Redirect/Laws.antt =====
-- What `follow_redirects` sends, and how it ends.
use datasluice.Base.{
  ℕ, zero, suc, ◌+◌, ◌≤◌, String, ◌≡◌, ◌≢◌, refl, ap, sym, ◌∙◌, Bool, true, false, Option, none,
  some, List, [], ◌∷◌, ◌++◌, length, arith, ◌==◌, equatable_nat, Bool-cases, inl, inr, ◌⊎◌,
  Option-cases, length-append,
}
use mathlib.Core.Bool.{false≢true}
use mathlib.Core.List.{append_assoc}
use datasluice.Base.Exec.{Result, ok, raise, then_do}
use datasluice.Redirect.{
  HttpResponse, RedirectError, unreachable, Web, Trip, max_hops, is_success, discarded_by, next_url,
  follow, follow_redirects, location, foreign, answers, passed_on, on_response, discard_result,
  discard_response,
}

abbrev times {ℓ} : {A : Type ℓ} → Option A → ℕ → ℕ
times none n = 0
times (some f) n = n

module _ {W : Type 0} (web : Web W) where
  abbrev Final : Type 0
  Final = Result RedirectError HttpResponse

  -- A trip that raises after `n` requests and `m` responses: all of these were discarded, and each
  -- request had its response, but for the last if `send` raised.
  pub record Refused (n m : ℕ) (x : RedirectError) (t t' : Trip W) : Type 0 where
    pub answered : t'.answered ≡ t.answered + m
    pub discarded : t'.discarded ≡ t.discarded + times web.discard m
    pub missing : (n ≡ m) ⊎ ((n ≡ suc m) × ((tag : ℕ) × (x ≡ foreign tag)))

  -- How a trip with `n` requests ends.
  abbrev Ends : ℕ → Trip W → Final → Trip W → Type 0
  Ends n t (ok response) t' =
      (is_success response.status_code ≡ true)
      × (1 ≤ n)
      × (t'.answered ≡ t.answered + n)
      × (t'.discarded + times web.discard 1 ≡ t.discarded + times web.discard n)
  Ends n t (raise x) t' = (x ≢ unreachable) × ((m : ℕ) × Refused n m x t t')

  -- The URLs that the trip requested, last first.
  pub record Visits (rounds : ℕ) (t : Trip W) (res : Final) (t' : Trip W) (urls : List String)
      : Type 0 where
    pub requested : t'.requested ≡ urls ++ t.requested
    pub validated : t'.validated ≡ urls ++ t.validated
    pub bounded : length urls ≤ rounds
    pub ended : Ends (length urls) t res t'

  abbrev Trips : ℕ → Trip W → Final × Trip W → Type 0
  Trips rounds t out = (urls : List String) × Visits rounds t out.0 out.1 urls

  -- `next_url` changes nothing, never reaches the end of the loop, and has no URL after the last
  -- hop.
  next_url-lem :
      (is_last : Bool) (url : String) (r : HttpResponse) (target : Option String) (t : Trip W)
      → ((next_url web is_last url r target t).1 ≡ t)
        × ((next_url web is_last url r target t).0 ≢ raise unreachable)
        × (is_last ≡ true → (u : String) → (next_url web is_last url r target t).0 ≢ ok u)
  unfolding next_url
  next_url-lem is_last url r target t = (ground arith, ground arith, λ e u. ground arith)

  added :
      {A : Type 0} (o : Option A) (m a b d : ℕ)
      → a ≡ b + times o m
      → b ≡ d + times o 1
      → a ≡ d + times o (suc m)
  added none m a b d p q = omega (arith, p, q)
  added (some f) m a b d p q = omega (arith, p, q)

  -- The trip after one request that was no success.
  more :
      (rounds : ℕ) (url : String) (t t2 : Trip W) (out : Final × Trip W)
      → t2.requested ≡ url ∷ t.requested
      → t2.validated ≡ url ∷ t.validated
      → t2.answered ≡ t.answered + 1
      → t2.discarded ≡ t.discarded + times web.discard 1
      → Trips rounds t2 out
      → Trips (suc rounds) t out
  more rounds url t t2 out a b n c (urls, v) = (
    urls ++ url ∷ [],
    record {
      requested =
          v.requested ∙ ap (λ z. urls ++ z) a ∙ sym (append_assoc urls (url ∷ []) t.requested);
      validated =
          v.validated ∙ ap (λ z. urls ++ z) b ∙ sym (append_assoc urls (url ∷ []) t.validated);
      bounded = omega (arith, v.bounded, length-append urls (url ∷ []));
      ended = shift out.0 v.ended;
    },
  )
    where
      shift :
          (res : Final)
          → Ends (length urls) t2 res out.1
          → Ends (length (urls ++ url ∷ [])) t res out.1
      shift (ok r) e = ground (arith, length-append urls (url ∷ []), e.0, e.1, e.2, e.3)
      shift (raise x) (e, (m, f)) = (
        e,
        (
          suc m,
          record {
            answered = omega (arith, f.answered, n);
            discarded = added web.discard m out.1.discarded t2.discarded t.discarded f.discarded c;
            missing = elim f.missing [
              | inl all ↦ inl (omega (arith, length-append urls (url ∷ []), all))
              | inr (lost, tag) ↦ inr (omega (arith, length-append urls (url ∷ []), lost), tag)
            ];
          },
        ),
      )

  -- A trip that raises behind one response, which was discarded.
  raises :
      (rounds : ℕ) (url : String) (t t2 : Trip W) (x : RedirectError)
      → t2.requested ≡ url ∷ t.requested
      → t2.validated ≡ url ∷ t.validated
      → t2.answered ≡ t.answered + 1
      → t2.discarded ≡ t.discarded + times web.discard 1
      → x ≢ unreachable
      → Trips (suc rounds) t (raise x, t2)
  raises rounds url t t2 x a b n c safe = (
    url ∷ [],
    record {
      requested = a;
      validated = b;
      bounded = omega arith;
      ended = (safe, (1, record { answered = n; discarded = c; missing = inl refl }));
    },
  )

  -- The part of a round behind `next_url`.
  go_on :
      (rounds : ℕ) (url : String) (t t2 : Trip W) (next : Result RedirectError String)
      → t2.requested ≡ url ∷ t.requested
      → t2.validated ≡ url ∷ t.validated
      → t2.answered ≡ t.answered + 1
      → t2.discarded ≡ t.discarded + times web.discard 1
      → next ≢ raise unreachable
      → ((u : String) → next ≡ ok u → Trips rounds t2 (follow web rounds u t2))
      → Trips (suc rounds) t (then_do next (follow web rounds) t2)
  go_on rounds url t t2 (ok u) a b n c safe rest = more rounds url t t2 _ a b n c (rest u refl)
  go_on rounds url t t2 (raise x) a b n c safe rest =
      raises rounds url t t2 x a b n c (λ e. safe (ap raise e))

  Follows : ℕ → Type 0
  Follows rounds =
      (u : String) (t2 : Trip W) → (rounds == 0) ≡ false → Trips rounds t2 (follow web rounds u t2)

  -- The part of a round behind `on_discard`.
  behind_discard :
      (rounds : ℕ) (url : String) (r : HttpResponse) (t t2 : Trip W)
      (d : Result RedirectError (Unit {0}))
      → t2.requested ≡ url ∷ t.requested
      → t2.validated ≡ url ∷ t.validated
      → t2.answered ≡ t.answered + 1
      → t2.discarded ≡ t.discarded + times web.discard 1
      → d ≢ raise unreachable
      → Follows rounds
      → Trips (suc rounds) t (
          then_do d
            (λ _ s.
              then_do
                (next_url web (rounds == 0) url r (location web.lower r.headers) s).0
                (follow web rounds)
                (next_url web (rounds == 0) url r (location web.lower r.headers) s).1)
            t2)
  unfolding Follows
  behind_discard rounds url r t t2 (raise x) a b n c safe rest =
      raises rounds url t t2 x a b n c (λ e. safe (ap raise e))
  behind_discard rounds url r t t2 (ok u) a b n c safe rest =
      let target = location web.lower r.headers in
      let (same, ends, last) = next_url-lem (rounds == 0) url r target t2 in
      rw same (
        go_on rounds url t t2 _ a b n c ends (λ u e. elim (Bool-cases (rounds == 0)) [
          | inl l ↦ absurd (last l u e)
          | inr more ↦ rest u t2 more
        ]))

  dropped :
      (r : HttpResponse) (t : Trip W)
      → ((discarded_by web web.discard r t).requested ≡ t.requested)
        × ((discarded_by web web.discard r t).validated ≡ t.validated)
        × ((discarded_by web web.discard r t).answered ≡ t.answered)
        × ((discarded_by web web.discard r t).discarded ≡ t.discarded + times web.discard 1)
  dropped r t = (ground arith, ground arith, ground arith, ground arith)

  discard_safe :
      (o : Option (HttpResponse → W → Option ℕ × W)) (r : HttpResponse) (w : W)
      → discard_result web o r w ≢ raise unreachable
  discard_safe none r w e = cc
  discard_safe (some f) r w e = elim (Option-cases (f r w).0) [
    | inl none_raised ↦ cc (rw none_raised at e)
    | inr (x, one) ↦ cc (rw one at e)
  ]

  none_lost :
      (t t' : Trip W)
      → t'.discarded ≡ t.discarded
      → t'.discarded ≡ t.discarded + times web.discard 0
  none_lost t t' e = ground arith

  -- The part of a round behind `send`.
  behind_send :
      (rounds : ℕ) (url : String) (t t1 : Trip W) (a : Result ℕ HttpResponse)
      → t1.requested ≡ url ∷ t.requested
      → t1.validated ≡ url ∷ t.validated
      → t1.answered ≡ t.answered + answers a
      → t1.discarded ≡ t.discarded
      → Follows rounds
      → Trips
          (suc rounds)
          t
          (then_do (passed_on a) (on_response web (rounds == 0) (follow web rounds) url) t1)
  unfolding discard_response
  behind_send rounds url t t1 (raise x) p q n c rest = (
    url ∷ [],
    record {
      requested = p;
      validated = q;
      bounded = omega arith;
      ended = (
        λ e. cc,
        (0, record { answered = n; discarded = none_lost t t1 c; missing = inr (refl, (x, refl)) }),
      );
    },
  )
  behind_send rounds url t t1 (ok r) p q n c rest = elim (Bool-cases (is_success r.status_code)) [
    | inl good ↦ rw good (
      url ∷ [],
      record {
        requested = p;
        validated = q;
        bounded = omega arith;
        ended = (good, omega arith, n, ap (λ k. k + times web.discard 1) c);
      },
    )
    | inr other ↦
        let (d, e, f, g) = dropped r t1 in
        rw other (
          behind_discard rounds url r t (discarded_by web web.discard r t1)
            (discard_result web web.discard r t1.world) (d ∙ p) (e ∙ q) (f ∙ n)
            (g ∙ ap (λ k. k + times web.discard 1) c) (discard_safe web.discard r t1.world) rest)
  ]

  round :
      (rounds : ℕ) (url : String) (t : Trip W)
      → Follows rounds
      → Trips (suc rounds) t (follow web (suc rounds) url t)
  unfolding follow
  round rounds url t rest = elim (Bool-cases (web.validate url t.world).0) [
    | inl valid ↦ rw valid (
        behind_send rounds url t _ (web.send url (web.validate url t.world).1).0 refl refl refl refl
          rest)
    | inr bad ↦ rw bad (
      [],
      record {
        requested = refl;
        validated = refl;
        bounded = omega arith;
        ended = (
          λ e. cc,
          (
            0,
            record {
              answered = omega arith;
              discarded = none_lost t (record t { world = (web.validate url t.world).1 }) refl;
              missing = inl refl;
            },
          ),
        );
      },
    )
  ]

  follow-Trips :
      (rounds : ℕ) (url : String) (t : Trip W)
      → Trips (suc rounds) t (follow web (suc rounds) url t)
  unfolding Follows
  follow-Trips zero url t = round zero url t (λ u t2 e. absurd (false≢true (sym e)))
  follow-Trips (suc rounds) url t = round (suc rounds) url t (λ u t2 e. follow-Trips rounds u t2)

  -- `follow_redirects` requests at most eleven URLs, and exactly those that passed the check just
  -- before. If it returns, the response is a success, every request had a response, and all before
  -- the last were discarded; if it raises, it does so within the loop, every response was
  -- discarded, and every request had one, but for the last if `send` raised.
  pub follow_redirects-Visits :
      (url : String) (t : Trip W)
      → (urls : List String) × Visits
          (suc max_hops)
          t
          (follow_redirects web url t).0
          (follow_redirects web url t).1
          urls
  unfolding follow_redirects
  follow_redirects-Visits url t = follow-Trips max_hops url t
