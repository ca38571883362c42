-- ===== src/Transport.antt =====
-- src/datasluice/runtime/transport: requests, and the hop from one to the next at a redirect
-- (base.py, _shared.py). The parsing of URLs and the case of texts are Python's; `D` is the type of a
-- deadline.
pub mod Urllib
pub mod Hops
pub mod Tests
use datasluice.Base.{
  ℕ, zero, suc, String, Bool, true, false, not, ◌&&◌, ◌||◌, Option, none, some, List, [], ◌∷◌, ◌==◌,
  leb, equatable_nat, equatable_string, if◌then◌else◌, contains,
}
use datasluice.Base.Dict.{Dict}
use datasluice.Base.Exec.{Result, ok, raise, and_then}
use datasluice.Safety.{is_some}
use datasluice.Compression.Peekable.{Bytes, is_empty}

pub data RedirectPolicy : Type 0 where
  follow no_follow : RedirectPolicy

pub data PartData : Type 0 where
  buffered : Bytes → PartData
  stream : PartData

pub record UploadPart : Type 0 where
  pub field_name : String
  pub part_data : PartData
  pub file_name : Option String
  pub content_type : Option String

pub record RuntimeRequest (D : Type 0) : Type 0 where
  pub method : String
  pub url : String
  pub headers : Dict String String
  pub body : Option Bytes
  pub files : List UploadPart
  pub redirect_policy : RedirectPolicy
  pub max_response_bytes : Option ℕ
  pub deadline : Option D

pub record CredentialScope : Type 0 where
  pub allowed_hosts : List String
  pub allowed_schemes : List String
  pub send_on_redirect : Bool

-- A `TransportError`, a `ValueError`, and any other exception by a tag.
pub data SendError : Type 0 where
  transport_error invalid_value : SendError
  other_error : ℕ → SendError

-- What `urlsplit` gives; `port` is `none` where reading it raises a `ValueError`.
pub record SplitUrl : Type 0 where
  pub scheme : String
  pub netloc : String
  pub hostname : Option String
  pub port : Option (Option ℕ)

-- `urlsplit` and `urljoin`, `none` where they raise a `ValueError`, and `"@" in netloc`.
pub record Web : Type 0 where
  pub urlsplit : String → Option SplitUrl
  pub urljoin : String → String → Option String
  pub has_at : String → Bool
  pub lower : String → String
  pub upper : String → String

pub record Origin : Type 0 where
  pub scheme : String
  pub host : String
  pub port : Option ℕ

abbrev pub port_beq : Option ℕ → Option ℕ → Bool
port_beq none none = true
port_beq (some a) (some b) = a == b
port_beq _ _ = false

abbrev pub origin_beq : Origin → Origin → Bool
origin_beq a b = a.scheme == b.scheme && a.host == b.host && port_beq a.port b.port

abbrev pub no_origin : Origin
no_origin = record { scheme = ""; host = ""; port = none }

-- `port or (443 if scheme == "https" else 80)`
abbrev pub effective_port : String → Option ℕ → ℕ
effective_port scheme (some (suc n)) = suc n
effective_port scheme _ = if scheme == "https" then 443 else 80

abbrev pub or_empty : Option String → String
or_empty none = ""
or_empty (some s) = s

abbrev pub safe_redirect_headers : List String
safe_redirect_headers =
    "accept" ∷ "content-type" ∷ "user-agent" ∷ "range" ∷ "if-none-match" ∷ "if-modified-since" ∷ []

abbrev pub hop_bodyless_headers : List String
hop_bodyless_headers = "content-length" ∷ "content-type" ∷ "transfer-encoding" ∷ []

unfoldable pub kept_where : (String → Bool) → Dict String String → Dict String String
kept_where keeps [] = []
kept_where keeps ((name, value) ∷ headers) =
    let rest = kept_where keeps headers in if keeps name then (name, value) ∷ rest else rest

-- `_validate_request_payload`, `_validate_response_limit`, the names of headers, and the other
-- checks of `RuntimeRequest.__post_init__` that do not hold by typing.
abbrev pub has_stream : List UploadPart → Bool
has_stream [] = false
has_stream (part ∷ files) = elim part.part_data [ stream ↦ true | _ ↦ has_stream files ]

abbrev pub follows : RedirectPolicy → Bool
follows follow = true
follows no_follow = false

abbrev pub valid_limit : Option ℕ → Bool
valid_limit none = true
valid_limit (some n) = leb 1 n

abbrev pub names_given : Dict String String → Bool
names_given [] = true
names_given ((name, value) ∷ headers) = not (name == "") && names_given headers

unfoldable pub make_request : {D : Type 0} → RuntimeRequest D → Result SendError (RuntimeRequest D)
make_request r =
    if r.method == ""
      || r.url == ""
      || (is_some r.body && not (is_empty r.files))
      || (follows r.redirect_policy && has_stream r.files)
      || not (valid_limit r.max_response_bytes)
      || not (names_given r.headers)
    then raise invalid_value
    else ok r

module _ (web : Web) where
  abbrev pub origin_of : Option SplitUrl → Origin
  origin_of none = no_origin
  origin_of (some u) = elim u.port [
    | none ↦ no_origin
    | some p ↦ record {
      scheme = web.lower u.scheme;
      host = or_empty u.hostname;
      port = some (effective_port u.scheme p);
    }
  ]

  -- `_origin`
  unfoldable pub origin : String → Origin
  origin url = origin_of (web.urlsplit url)

  abbrev pub same_origin : String → String → Bool
  same_origin a b = origin_beq (origin a) (origin b)

  -- `strip_sensitive_redirect_headers` and `drop_body_transfer_headers`
  unfoldable pub strip_sensitive : Dict String String → Dict String String
  unfolding kept_where
  strip_sensitive headers =
      kept_where (λ name. contains safe_redirect_headers (web.lower name)) headers

  unfoldable pub drop_body_transfer : Dict String String → Dict String String
  unfolding kept_where
  drop_body_transfer headers =
      kept_where (λ name. not (contains hop_bodyless_headers (web.lower name))) headers

  -- `_retains_credentials`
  unfoldable pub retains_credentials : Option CredentialScope → String → String → Bool
  unfolding origin
  retains_credentials none current next = same_origin current next
  retains_credentials (some scope) current next =
      scope.send_on_redirect
      && contains scope.allowed_schemes (origin next).scheme
      && contains scope.allowed_hosts (origin next).host

  -- `redirect_method_and_body`: whether the hop turns into a `GET` without a body.
  unfoldable pub becomes_get : String → ℕ → Bool
  becomes_get method status =
      status == 303 || ((status == 301 || status == 302) && web.upper method == "POST")

  abbrev pub hop_headers : Bool → Bool → Dict String String → Dict String String
  hop_headers retained carries headers =
      let kept = if retained then headers else strip_sensitive headers in
      if carries then kept else drop_body_transfer kept

  module _ {D : Type 0} where
    unfoldable pub redirect_method_and_body : RuntimeRequest D → ℕ → RuntimeRequest D
    unfolding becomes_get
    redirect_method_and_body r status =
        if becomes_get r.method status
        then record r { method = "GET"; body = none; files = [] }
        else r

    abbrev pub carries_body : RuntimeRequest D → Bool
    carries_body r = is_some r.body || not (is_empty r.files)

    abbrev pub hop_to :
        Option CredentialScope
        → RuntimeRequest D
        → String
        → RuntimeRequest D
        → Result SendError (RuntimeRequest D)
    hop_to scope current next rewritten =
        if carries_body rewritten && not (same_origin current.url next)
        then raise transport_error
        else make_request (record rewritten {
          url = next;
          headers =
              hop_headers (retains_credentials scope current.url next) (carries_body rewritten)
                current.headers;
        })

    abbrev pub hop_from :
        Option CredentialScope
        → RuntimeRequest D
        → ℕ
        → String
        → Option SplitUrl
        → Result SendError (RuntimeRequest D)
    hop_from scope current status next none = raise invalid_value
    hop_from scope current status next (some u) =
        if web.has_at u.netloc
        then raise transport_error
        else hop_to scope current next (redirect_method_and_body current status)

    -- `_next_redirect_request`
    unfoldable pub next_redirect_request :
        Option CredentialScope → RuntimeRequest D → ℕ → String → Result SendError (RuntimeRequest D)
    unfolding retains_credentials strip_sensitive drop_body_transfer redirect_method_and_body
        make_request
    next_redirect_request scope current status next =
        hop_from scope current status next (web.urlsplit next)
