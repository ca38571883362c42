-- ===== src/Transport/Hops.antt =====
-- What a redirect hop may carry, and that every hop of `send` keeps to it.
use datasluice.Base.{
  ℕ, zero, suc, ◌+◌, ◌≤◌, String, Bool, true, false, not, ◌&&◌, Option, none, some, List, [], ◌∷◌,
  ◌≡◌, ◌⊎◌, inl, inr, refl, sym, ap, ◌∙◌, arith, equatable_nat, equatable_string, if◌then◌else◌,
  contains, length, Bool-cases,
}
use datasluice.Base.Dict.{Dict}
use datasluice.Base.Exec.{Result, ok, raise, and_then}
use datasluice.Compression.Peekable.{is_empty}
use datasluice.Transport.{
  Web, SplitUrl, CredentialScope, RuntimeRequest, SendError, transport_error, same_origin, origin,
  safe_redirect_headers, hop_bodyless_headers, kept_where, make_request, strip_sensitive,
  drop_body_transfer, retains_credentials, carries_body, hop_headers, hop_to, hop_from,
  next_redirect_request, redirect_method_and_body, follows,
}
use datasluice.Transport.Urllib.{
  Answer, Trip, UrllibTransport, allowed_redirect_schemes, redirect_codes, location, hop, hop_split,
  located, redirect_request, exchange, rounds, send,
}

abbrev pub all_names : (String → Bool) → Dict String String → Bool
all_names test [] = true
all_names test ((name, value) ∷ headers) = test name && all_names test headers

kept_where-all :
    (test : String → Bool) (headers : Dict String String)
    → all_names test (kept_where test headers) ≡ true
unfolding kept_where
kept_where-all test [] = refl
kept_where-all test ((name, value) ∷ headers) = elim (Bool-cases (test name)) [
  | inl kept ↦ rw (kept, kept) (kept_where-all test headers)
  | inr dropped ↦ rw dropped (kept_where-all test headers)
]

kept_where-keeps :
    (test keeps : String → Bool) (headers : Dict String String)
    → all_names test headers ≡ true
    → all_names test (kept_where keeps headers) ≡ true
unfolding kept_where
kept_where-keeps test keeps [] h = refl
kept_where-keeps test keeps ((name, value) ∷ headers) h =
    ground (arith, kept_where-keeps test keeps headers)

if_ok :
    {E A : Type 0} (b : Bool) (x : E) (a : Result E A) (c : A)
    → (if b then raise x else a) ≡ ok c
    → (b ≡ false) × (a ≡ ok c)
if_ok true x a c e = cc
if_ok false x a c e = (refl, e)

if_not_ok :
    {E A : Type 0} (b : Bool) (x : E) (a : Result E A) (c : A)
    → (if b then a else raise x) ≡ ok c
    → (b ≡ true) × (a ≡ ok c)
if_not_ok true x a c e = (refl, e)
if_not_ok false x a c e = cc

either : (a b : Bool) → (a && not b) ≡ false → (b ≡ true) ⊎ (a ≡ false)
either true true e = inl refl
either true false e = cc
either false b e = inr refl

module _ (web : Web) where
  abbrev pub is_safe_name : String → Bool
  is_safe_name name = contains safe_redirect_headers (web.lower name)

  abbrev pub is_no_body_name : String → Bool
  is_no_body_name name = not (contains hop_bodyless_headers (web.lower name))

  -- What lets the credentials of a request go on to the next URL.
  abbrev pub Retained : Option CredentialScope → String → String → Type 0
  Retained none current next = same_origin web current next ≡ true
  Retained (some scope) current next =
      (scope.send_on_redirect ≡ true)
      × (contains scope.allowed_schemes (origin web next).scheme ≡ true)
      × (contains scope.allowed_hosts (origin web next).host ≡ true)

  -- The target is an HTTP URL with no embedded credentials.
  abbrev pub Target : String → Type 0
  Target url =
      (u : SplitUrl) × (web.urlsplit url ≡ some u)
      × (web.has_at u.netloc ≡ false)
      × (contains allowed_redirect_schemes (web.lower u.scheme) ≡ true)

  module _ {D : Type 0} (scope : Option CredentialScope) where
    -- A body stays at its origin; other headers than the standard ones go on only where the
    -- credentials may; without a body no header speaks of one.
    abbrev pub SafeHop : RuntimeRequest D → RuntimeRequest D → Type 0
    SafeHop current next =
        ((same_origin web current.url next.url ≡ true) ⊎ (carries_body web next ≡ false))
        × (Retained scope current.url next.url ⊎ (all_names is_safe_name next.headers ≡ true))
        × ((carries_body web next ≡ true) ⊎ (all_names is_no_body_name next.headers ≡ true))
        × Target next.url

    -- Requests, last first, each of which is a safe hop from the one before.
    abbrev pub Chain : List (RuntimeRequest D) → Type 0
    Chain [] = Unit
    Chain (r ∷ []) = Unit
    Chain (next ∷ current ∷ rs) = SafeHop current next × Chain (current ∷ rs)

  retains_credentials-Retained :
      (scope : Option CredentialScope) (current next : String)
      → retains_credentials web scope current next ≡ true
      → Retained scope current next
  unfolding retains_credentials
  retains_credentials-Retained none current next e = e
  retains_credentials-Retained (some scope) current next e =
      (ground arith, ground arith, ground arith)

  safe_headers :
      (retained carries : Bool) (headers : Dict String String)
      → ((retained ≡ true)
          ⊎ (all_names is_safe_name (hop_headers web retained carries headers) ≡ true))
        × ((carries ≡ true)
            ⊎ (all_names is_no_body_name (hop_headers web retained carries headers) ≡ true))
  unfolding strip_sensitive drop_body_transfer
  safe_headers true true headers = (inl refl, inl refl)
  safe_headers true false headers = (inl refl, inr (kept_where-all is_no_body_name headers))
  safe_headers false true headers = (inr (kept_where-all is_safe_name headers), inl refl)
  safe_headers false false headers = (
    inr (
        kept_where-keeps is_safe_name is_no_body_name (kept_where is_safe_name headers)
          (kept_where-all is_safe_name headers)),
    inr (kept_where-all is_no_body_name (kept_where is_safe_name headers)),
  )

  module _ {D : Type 0} (scope : Option CredentialScope) where
    made : (r next : RuntimeRequest D) → make_request r ≡ ok next → r ≡ next
    unfolding make_request
    made r next e = cc ((if_ok _ _ (ok r) next e).1)

    hop_to-SafeHop :
        (current rewritten next : RuntimeRequest D) (url : String)
        → Target url
        → hop_to web scope current url rewritten ≡ ok next
        → SafeHop scope current next
    hop_to-SafeHop current rewritten next url target e =
        let retained = retains_credentials web scope current.url url in
        let carries = carries_body web rewritten in
        let built : RuntimeRequest D = record rewritten {
          url = url;
          headers = hop_headers web retained carries current.headers;
        } in
        let (guarded, rest) =
          if_ok (carries && not (same_origin web current.url url)) transport_error
            (make_request built) next e in
        let names = safe_headers retained carries current.headers in
        rw (sym (made built next rest)) (
          either carries (same_origin web current.url url) guarded,
          (elim names.0 [
            | inl kept ↦ inl (retains_credentials-Retained scope current.url url kept)
            | inr safe ↦ inr safe
          ]),
          names.1,
          target,
        )

    next-SafeHop :
        (current next : RuntimeRequest D) (status : ℕ) (url : String) (u : SplitUrl)
        → web.urlsplit url ≡ some u
        → contains allowed_redirect_schemes (web.lower u.scheme) ≡ true
        → next_redirect_request web scope current status url ≡ ok next
        → SafeHop scope current next
    unfolding next_redirect_request
    next-SafeHop current next status url u split scheme e =
        let (bare, rest) =
          if_ok (web.has_at u.netloc) transport_error
            (hop_to web scope current url (redirect_method_and_body web current status)) next
            (sym (ap (hop_from web scope current status url) split) ∙ e) in
        hop_to-SafeHop current (redirect_method_and_body web current status) next url
          (u, split, bare, scheme) rest

  module _ {W D : Type 0} (t : UrllibTransport W D) where
    then_some :
        (a : Result SendError (RuntimeRequest D)) (next : RuntimeRequest D)
        → and_then a (λ request. ok (some request)) ≡ ok (some next)
        → a ≡ ok next
    then_some (ok r) next e = let z : r ≡ next = cc e in ap ok z
    then_some (raise x) next e = cc

    split-SafeHop :
        (r next : RuntimeRequest D) (status : ℕ) (url : String) (o : Option SplitUrl)
        → web.urlsplit url ≡ o
        → hop_split web t r status url o ≡ ok (some next)
        → SafeHop t.credential_scope r next
    split-SafeHop r next status url none split e = cc
    split-SafeHop r next status url (some u) split e =
        let (scheme, rest) =
          if_not_ok (contains allowed_redirect_schemes (web.lower u.scheme)) transport_error
            (and_then (next_redirect_request web t.credential_scope r status url)
              (λ request. ok (some request)))
            (some next) e in
        next-SafeHop t.credential_scope r next status url u split scheme
          (then_some (next_redirect_request web t.credential_scope r status url) next rest)

    hop-SafeHop :
        (r next : RuntimeRequest D) (status : ℕ) (where_to : Option String)
        → hop web t r status where_to ≡ ok (some next)
        → SafeHop t.credential_scope r next
    hop-SafeHop r next status none e = cc
    hop-SafeHop r next status (some url) e =
        split-SafeHop r next status url (web.urlsplit url) refl e

    located-SafeHop :
        (r next : RuntimeRequest D) (status : ℕ) (o : Option String)
        → located web t r status o ≡ ok (some next)
        → SafeHop t.credential_scope r next
    located-SafeHop r next status none e = cc
    located-SafeHop r next status (some where_to) e =
        hop-SafeHop r next status (web.urljoin r.url where_to) e

    redirect_request-SafeHop :
        (r next : RuntimeRequest D) (status : ℕ) (headers : Dict String String)
        → redirect_request web t r status headers ≡ ok (some next)
        → SafeHop t.credential_scope r next
    unfolding redirect_request
    redirect_request-SafeHop r next status headers e =
        elim (Bool-cases (contains redirect_codes status)) [
          | inl redirect ↦ located-SafeHop r next status (location web t headers) (rw redirect at e)
          | inr other ↦ cc (rw other at e)
        ]

    -- What a run of the loop leaves of the requests.
    abbrev Kept : ℕ → RuntimeRequest D → Trip W D → Result SendError Answer × Trip W D → Type 0
    Kept n r s (out, s') =
        Chain t.credential_scope s'.requests × (length s'.requests ≤ n + length s.requests)

    after_answer-Kept :
        (n : ℕ) (r : RuntimeRequest D) (s s' : Trip W D) (a : Answer)
        (o : Result SendError (Option (RuntimeRequest D)))
        → s'.requests ≡ r ∷ s.requests
        → Chain t.credential_scope (r ∷ s.requests)
        → ((next : RuntimeRequest D) → o ≡ ok (some next) → Kept n next s' (rounds web t n next s'))
        → Kept (suc n) r s (elim o [
          | raise x ↦ (raise x, s')
          | ok none ↦ (ok a, s')
          | ok (some next) ↦ rounds web t n next s'
        ])
    after_answer-Kept n r s s' a (raise x) e chain more = (rw e chain, rw e (omega arith))
    after_answer-Kept n r s s' a (ok none) e chain more = (rw e chain, rw e (omega arith))
    after_answer-Kept n r s s' a (ok (some next)) e chain more =
        let k = more next refl in
        let grown : length s'.requests ≡ suc (length s.requests) = ap length e in (k.0, omega arith)

    answered-Kept :
        (n : ℕ) (r : RuntimeRequest D) (s s' : Trip W D) (answer : Result SendError Answer)
        → s'.requests ≡ r ∷ s.requests
        → Chain t.credential_scope (r ∷ s.requests)
        → ((next : RuntimeRequest D)
            → SafeHop t.credential_scope r next
            → Kept n next s' (rounds web t n next s'))
        → Kept (suc n) r s (elim answer [
          | raise x ↦ (raise x, s')
          | ok a ↦
              if not (follows r.redirect_policy)
              then (ok a, s')
              else elim (redirect_request web t r a.status a.headers) [
                | raise x ↦ (raise x, s')
                | ok none ↦ (ok a, s')
                | ok (some next) ↦ rounds web t n next s'
              ]
        ])
    answered-Kept n r s s' (raise x) e chain more = (rw e chain, rw e (omega arith))
    answered-Kept n r s s' (ok a) e chain more = elim (Bool-cases (follows r.redirect_policy)) [
      | inr stays ↦ rw stays (rw e chain, rw e (omega arith))
      | inl follows_on ↦ rw follows_on (
          after_answer-Kept n r s s' a (redirect_request web t r a.status a.headers) e chain
            (λ next q. more next (redirect_request-SafeHop r next a.status a.headers q)))
    ]

    tail-Chain :
        (r : RuntimeRequest D) (rs : List (RuntimeRequest D))
        → Chain t.credential_scope (r ∷ rs)
        → Chain t.credential_scope rs
    tail-Chain r [] c = tt
    tail-Chain r (x ∷ rs) c = c.1

    rounds-Kept :
        (n : ℕ) (r : RuntimeRequest D) (s : Trip W D)
        → Chain t.credential_scope (r ∷ s.requests)
        → Kept n r s (rounds web t n r s)
    unfolding rounds
    rounds-Kept zero r s chain = (tail-Chain r s.requests chain, omega arith)
    rounds-Kept (suc n) r s chain =
        let (answer, s') = exchange web t r s in
        answered-Kept n r s s' answer refl chain (λ next hop. rounds-Kept n next s' (hop, chain))

  -- Whatever the servers answer, send makes at most max_redirects requests and one more, and each is
  -- a safe hop from the one before: a body stays at its origin, headers that are not known to be
  -- harmless go on only where the credential scope lets them, or with no scope to the same origin,
  -- without a body no header speaks of one, and the target is an HTTP URL with no credentials.
  pub send-Chain :
      {W D : Type 0} (t : UrllibTransport W D) (r : RuntimeRequest D) (w : W)
      → Chain t.credential_scope (send web t r (record { world = w; requests = [] })).1.requests
        × (length (send web t r (record { world = w; requests = [] })).1.requests
            ≤ suc t.max_redirects)
  unfolding send
  send-Chain t r w = elim (Bool-cases t.closed) [
    | inl closed ↦ rw closed (tt, omega arith)
    | inr usable ↦ elim (Bool-cases (is_empty r.files)) [
      | inr multipart ↦ rw (usable, multipart) (tt, omega arith)
      | inl plain ↦
          let k = rounds-Kept t (suc t.max_redirects) r (record { world = w; requests = [] }) tt in
          rw (usable, plain) (k.0, omega arith)
    ]
  ]
