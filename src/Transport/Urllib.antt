-- ===== src/Transport/Urllib.antt =====
-- src/datasluice/runtime/transport/urllib_transport.py: `UrllibCatalogTransport.send`. One exchange
-- with a server, `_read_current`, acts on a world and is a parameter.
use datasluice.Base.{
  ℕ, zero, suc, String, Bool, not, Option, none, some, List, [], ◌∷◌, ◌==◌, equatable_nat,
  equatable_string, if◌then◌else◌, contains,
}
use datasluice.Base.Dict.{Dict}
use datasluice.Base.Exec.{Result, ok, raise, and_then, Exec}
use datasluice.Compression.Peekable.{Bytes, is_empty}
use datasluice.Transport.{
  Web, SplitUrl, CredentialScope, RuntimeRequest, SendError, transport_error, invalid_value,
  follows, next_redirect_request,
}

pub record Answer : Type 0 where
  pub status : ℕ
  pub headers : Dict String String
  pub body : Bytes

-- The world, with the requests that were sent, last first.
pub record Trip (W D : Type 0) : Type 0 where
  pub world : W
  pub requests : List (RuntimeRequest D)

pub record UrllibTransport (W D : Type 0) : Type 0 where
  pub read_current : RuntimeRequest D → W → Result SendError Answer × W
  pub max_redirects : ℕ
  pub credential_scope : Option CredentialScope
  pub closed : Bool

abbrev pub redirect_codes : List ℕ
redirect_codes = 301 ∷ 302 ∷ 303 ∷ 307 ∷ 308 ∷ []

abbrev pub allowed_redirect_schemes : List String
allowed_redirect_schemes = "http" ∷ "https" ∷ []

module _ {W D : Type 0} (web : Web) (t : UrllibTransport W D) where
  -- The first header of that name.
  unfoldable pub location : Dict String String → Option String
  location [] = none
  location ((name, value) ∷ headers) =
      let rest = location headers in if web.lower name == "location" then some value else rest

  abbrev pub hop_split :
      RuntimeRequest D → ℕ → String → Option SplitUrl → Result SendError (Option (RuntimeRequest D))
  hop_split r status next none = raise invalid_value
  hop_split r status next (some u) =
      if contains allowed_redirect_schemes (web.lower u.scheme)
      then and_then (next_redirect_request web t.credential_scope r status next)
          (λ request. ok (some request))
      else raise transport_error

  abbrev pub hop :
      RuntimeRequest D → ℕ → Option String → Result SendError (Option (RuntimeRequest D))
  hop r status none = raise transport_error
  hop r status (some next) = hop_split r status next (web.urlsplit next)

  -- `_redirect_request`
  abbrev pub located :
      RuntimeRequest D → ℕ → Option String → Result SendError (Option (RuntimeRequest D))
  located r status none = ok none
  located r status (some where_to) = hop r status (web.urljoin r.url where_to)

  unfoldable pub redirect_request :
      RuntimeRequest D → ℕ → Dict String String → Result SendError (Option (RuntimeRequest D))
  unfolding location next_redirect_request
  redirect_request r status headers =
      if contains redirect_codes status then located r status (location headers) else ok none

  abbrev pub exchange : RuntimeRequest D → Exec (Trip W D) SendError Answer
  exchange r s = (
    (t.read_current r s.world).0,
    record { world = (t.read_current r s.world).1; requests = r ∷ s.requests },
  )

  -- The loop of `send`, by the rounds of its `range`.
  unfoldable pub rounds : ℕ → RuntimeRequest D → Exec (Trip W D) SendError Answer
  unfolding redirect_request
  rounds zero r s = (raise transport_error, s)
  rounds (suc n) r s =
      let (answer, s') = exchange r s in
      elim answer [
        | raise x ↦ (raise x, s')
        | ok a ↦
            if not (follows r.redirect_policy)
            then (ok a, s')
            else elim (redirect_request r a.status a.headers) [
              | raise x ↦ (raise x, s')
              | ok none ↦ (ok a, s')
              | ok (some next) ↦ rounds n next s'
            ]
      ]

  unfoldable pub send : RuntimeRequest D → Exec (Trip W D) SendError Answer
  unfolding rounds
  send r s =
      if t.closed
      then (raise transport_error, s)
      else if not (is_empty r.files)
      then (raise transport_error, s)
      else rounds (suc t.max_redirects) r s
