-- ===== src/Redirect/Tests.antt =====
-- A download that is redirected once.
use datasluice.Base.{
  ℕ, suc, String, true, none, some, List, [], ◌∷◌, ◌==◌, equatable_string, if◌then◌else◌,
}
use datasluice.Base.Exec.{ok}
use datasluice.Redirect.{Web, Trip, max_hops, follow_redirects}
use datasluice.Redirect.Laws.{Visits, follow_redirects-Visits}

-- The world counts the connections that were given back.
abbrev moved_web : Web ℕ
moved_web = record {
  validate = λ url n. (true, n);
  send = λ url n. (
    if url == "https://a"
        then ok (record { status_code = 302; headers = ("location", "https://b") ∷ [] })
        else ok (record { status_code = 200; headers = [] }),
    n,
  );
  discard = some (λ response n. (none, suc n));
  urljoin = λ base target. some target;
  lower = λ name. name;
}

abbrev start : Trip ℕ
start = record { world = 0; validated = []; requested = []; answered = 0; discarded = 0 }

follow_redirects-Visits_example :
    (urls : List String) × Visits moved_web
      (suc max_hops)
      start
      (follow_redirects moved_web "https://a" start).0
      (follow_redirects moved_web "https://a" start).1
      urls
follow_redirects-Visits_example = follow_redirects-Visits moved_web "https://a" start
