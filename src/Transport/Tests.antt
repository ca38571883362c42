-- ===== src/Transport/Tests.antt =====
-- A portal that redirects a download to another host.
use datasluice.Base.{
  ℕ, suc, ◌≤◌, ◌≡◌, refl, false, none, some, [], ◌∷◌, ◌==◌, length, map, equatable_string,
  equatable_nat, if◌then◌else◌,
}
use datasluice.Base.Exec.{ok}
use datasluice.Transport.{
  Web, RuntimeRequest, follow, origin, retains_credentials, strip_sensitive, kept_where,
  drop_body_transfer, make_request, next_redirect_request, redirect_method_and_body, becomes_get,
}
use datasluice.Transport.Urllib.{Answer, UrllibTransport, send, rounds, redirect_request, location}
use datasluice.Transport.Hops.{Chain, send-Chain}

abbrev web : Web
web = record {
  urlsplit = λ url.
      some (record { scheme = "https"; netloc = url; hostname = some url; port = some none });
  urljoin = λ base target. some target;
  has_at = λ netloc. false;
  lower = λ text. text;
  upper = λ text. text;
}

abbrev answer : ℕ → Answer
answer n =
    if n == 0
    then record { status = 302; headers = ("location", "files.example") ∷ []; body = [] }
    else record { status = 200; headers = []; body = 1 ∷ [] }

abbrev transport : UrllibTransport ℕ (Unit {0})
transport = record {
  read_current = λ r n. (ok (answer n), suc n);
  max_redirects = 10;
  credential_scope = none;
  closed = false;
}

abbrev download : RuntimeRequest (Unit {0})
download = record {
  method = "GET";
  url = "portal.example";
  headers = ("accept", "text/csv") ∷ ("authorization", "secret") ∷ [];
  body = none;
  files = [];
  redirect_policy = follow;
  max_response_bytes = none;
  deadline = none;
}

send-Chain_example :
    Chain web none (send web transport download (record { world = 0; requests = [] })).1.requests
    × (length (send web transport download (record { world = 0; requests = [] })).1.requests
        ≤ suc 10)
send-Chain_example = send-Chain web transport download 0

-- The key stays with the portal.
sent_headers :
    map
      (λ r. r.headers)
      (send web transport download (record { world = 0; requests = [] })).1.requests
    ≡ (("accept", "text/csv") ∷ [])
      ∷ (("accept", "text/csv") ∷ ("authorization", "secret") ∷ [])
      ∷ []
unfolding send rounds redirect_request location next_redirect_request retains_credentials origin
    strip_sensitive kept_where drop_body_transfer make_request redirect_method_and_body becomes_get
sent_headers = refl
