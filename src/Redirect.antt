-- ===== src/Redirect.antt =====
-- src/datasluice/io/_redirects.py: `follow_redirects`. The URL check, the request and the world
-- they act on are the caller's; `urljoin` and `str.lower` are Python's.
pub mod Laws
pub mod Tests
use datasluice.Base.{
  ℕ, zero, suc, String, Bool, true, false, not, ◌&&◌, ◌||◌, Option, none, some, List, [], ◌∷◌,
  contains, leb, ltb, ◌+◌, equatable_nat, equatable_string, ◌==◌, if◌then◌else◌,
}
use datasluice.Base.Exec.{Exec, Result, ok, raise, pure, throw, ◌>>=◌, ◌>>◌}

pub record HttpResponse : Type 0 where
  pub status_code : ℕ
  pub headers : List (String × String)

-- The exceptions of the caller's class `error`, the `AssertionError` behind the loop, and those that
-- pass through.
pub data RedirectError : Type 0 where
  invalid_target unusable_location redirect_limit : RedirectError
  http_status : ℕ → RedirectError
  unreachable : RedirectError
  -- what `send` or `on_discard` raised, by a tag
  foreign : ℕ → RedirectError

-- What the loop gets from its caller and from Python. A `send` may raise, and so may a `discard`,
-- which then gives `some` exception.
pub record Web (W : Type 0) : Type 0 where
  pub validate : String → W → Bool × W
  pub send : String → W → Result ℕ HttpResponse × W
  pub discard : Option (HttpResponse → W → Option ℕ × W)
  pub urljoin : String → String → Option String
  pub lower : String → String

-- The world, with the URLs that were found valid and those that were requested, last first, and the
-- counts of the responses that came and of those that were discarded.
pub record Trip (W : Type 0) : Type 0 where
  pub world : W
  pub validated : List String
  pub requested : List String
  pub answered : ℕ
  pub discarded : ℕ

abbrev pub max_hops : ℕ
max_hops = 10

abbrev redirect_statuses : List ℕ
redirect_statuses = 301 ∷ 302 ∷ 303 ∷ 307 ∷ 308 ∷ []

abbrev pub is_redirect : ℕ → Bool
is_redirect status = contains redirect_statuses status

abbrev pub is_success : ℕ → Bool
is_success status = leb 200 status && ltb status 300

-- `{key.lower(): value …}["location"]`: of equal names the last one counts.
unfoldable pub location : (String → String) → List (String × String) → Option String
location lower [] = none
location lower ((name, value) ∷ headers) =
    let rest = location lower headers in
    elim rest [
      | some later ↦ some later
      | none ↦ if lower name == "location" then some value else none
    ]

-- What came of `send`, and how many responses.
abbrev pub passed_on : Result ℕ HttpResponse → Result RedirectError HttpResponse
passed_on (ok response) = ok response
passed_on (raise x) = raise (foreign x)

abbrev pub answers : Result ℕ HttpResponse → ℕ
answers (ok response) = 1
answers (raise x) = 0

module _ {W : Type 0} (web : Web W) where
  unfoldable pub validate_target : String → Exec (Trip W) RedirectError (Unit {0})
  validate_target url t =
      if (web.validate url t.world).0
      then (ok tt, record t { world = (web.validate url t.world).1; validated = url ∷ t.validated })
      else (raise invalid_target, record t { world = (web.validate url t.world).1 })

  unfoldable pub request : String → Exec (Trip W) RedirectError HttpResponse
  request url t = (
    passed_on (web.send url t.world).0,
    record t {
      world = (web.send url t.world).1;
      requested = url ∷ t.requested;
      answered = t.answered + answers (web.send url t.world).0;
    },
  )

  abbrev pub discarded_by :
      Option (HttpResponse → W → Option ℕ × W) → HttpResponse → Trip W → Trip W
  discarded_by none response t = t
  discarded_by (some on_discard) response t = record t {
    world = (on_discard response t.world).1;
    discarded = suc t.discarded;
  }

  abbrev raised_by : Option ℕ → Result RedirectError (Unit {0})
  raised_by none = ok tt
  raised_by (some x) = raise (foreign x)

  abbrev pub discard_result :
      Option (HttpResponse → W → Option ℕ × W) → HttpResponse → W → Result RedirectError (Unit {0})
  discard_result none response w = ok tt
  discard_result (some on_discard) response w = raised_by (on_discard response w).0

  unfoldable pub discard_response : HttpResponse → Exec (Trip W) RedirectError (Unit {0})
  discard_response response t =
      (discard_result web.discard response t.world, discarded_by web.discard response t)

  abbrev joined : Option String → Exec (Trip W) RedirectError String
  joined none = throw unusable_location
  joined (some url) = pure url

  -- What follows a response that is not a success: the next URL, or an error.
  unfoldable pub next_url :
      (is_last : Bool) → String → HttpResponse → Option String → Exec (Trip W) RedirectError String
  next_url is_last url response none = throw (http_status response.status_code)
  next_url is_last url response (some target) =
      if not (is_redirect response.status_code)
      then throw (http_status response.status_code)
      else if is_last
      then throw redirect_limit
      else joined (web.urljoin url target)

  -- What a round does with its response; `next` is the next round.
  abbrev pub on_response :
      (is_last : Bool)
      → (next : String → Exec (Trip W) RedirectError HttpResponse) → String
      → HttpResponse
      → Exec (Trip W) RedirectError HttpResponse
  on_response is_last next url response =
      if is_success response.status_code then pure response else do
        discard_response response
        url' ← next_url is_last url response (location web.lower response.headers)
        next url'

  -- `for hop in range(hop, max_hops + 1)`, by the rounds that are left.
  unfoldable pub follow : ℕ → String → Exec (Trip W) RedirectError HttpResponse
  unfolding validate_target request discard_response next_url
  follow zero url = throw unreachable
  follow (suc rounds) url = do
    validate_target url
    response ← request url
    on_response (rounds == 0) (follow rounds) url response

  unfoldable pub follow_redirects : String → Exec (Trip W) RedirectError HttpResponse
  unfolding follow
  follow_redirects url = follow (suc max_hops) url
