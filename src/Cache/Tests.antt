-- ===== src/Cache/Tests.antt =====
-- A cache over a directory that is a dictionary: the world is that directory.
use datasluice.Base.{
  ◌≡◌, ◌≢◌, refl, sym, ap, ◌∙◌, arith, String, Bool, true, false, Option, none, some, List, [], ◌∷◌,
  ◌==◌, equatable_string, eq_iff,
}
use datasluice.Base.Dict
use datasluice.Base.Dict.{Dict, get-put, get-remove}
use datasluice.Base.Exec.{ok}
use datasluice.Cache.{Host, Content, found, absent, ContentCache, get, put_internal}
use datasluice.Cache.Files.{HostLaws}
use datasluice.Cache.Laws.{
  CacheCall, put_call, get_call, delete_call, perform_all, IsBacked, calls-IsBacked,
}
use datasluice.Cache.Hits.{IsTimely}
use datasluice.Cache.Entries.{get-put_internal}

-- Two payloads, which are booleans here.
abbrev content : Option Bool → Content Bool
content none = absent
content (some b) = found b

abbrev digest : Bool → String
digest true = "aa"
digest false = "bb"

abbrev move : Option Bool → String → String → Dict String Bool → Bool × Dict String Bool
move none src dst files = (false, files)
move (some b) src dst files = (true, Dict.put (Dict.remove files src) dst b)

abbrev disk : Host (Dict String Bool) Bool
disk = record {
  now = λ files. (100000, files);
  cat_file = λ name files. content (Dict.get files name);
  pipe_file = λ name b files. (true, Dict.put files name b);
  mv = λ src dst files. move (Dict.get files src) src dst files;
  rm = λ name files. (true, Dict.remove files name);
  ls = λ files. some ("aa" ∷ "bb" ∷ []);
  transaction = λ files. (true, files);
  sha256 = λ key. key;
  payload_sha256 = digest;
  tmp_path = λ sha files. (".tmp", files);
  is_digest = λ name. true;
  size = λ b. 1;
  ttl = 5000;
}

true-false : true ≢ false
true-false e = cc

differ : (a b : String) → (a == b) ≡ false → a ≢ b
differ a b e q = true-false (sym ((eq_iff a b).1 q) ∙ e)

unequal : (a b : String) → a ≢ b → (b == a) ≡ false
unequal a b n = ground (arith, eq_iff b a, n)

equal : (a : String) → (a == a) ≡ true
equal a = (eq_iff a a).1 refl

removed :
    (d : Dict String Bool) (m n : String) → n ≢ m → Dict.get (Dict.remove d m) n ≡ Dict.get d n
removed d m n a = rw (get-remove d m n, unequal n m a) refl

written :
    (d : Dict String Bool) (m n : String) (b : Bool)
    → n ≢ m
    → Dict.get (Dict.put d m b) n ≡ Dict.get d n
written d m n b a = rw (get-put d m n b, unequal n m a) refl

written_same : (d : Dict String Bool) (m : String) (b : Bool) → Dict.get (Dict.put d m b) m ≡ some b
written_same d m b = rw (get-put d m m b, equal m) refl

move-other :
    (o : Option Bool) (src dst n : String) (files : Dict String Bool)
    → n ≢ src
    → n ≢ dst
    → Dict.get (move o src dst files).1 n ≡ Dict.get files n
move-other none src dst n files a b = refl
move-other (some c) src dst n files a b =
    written (Dict.remove files src) dst n c b ∙ removed files src n a

move-done :
    (o : Option Bool) (src dst : String) (files : Dict String Bool)
    → (move o src dst files).0 ≡ true
    → Dict.get (move o src dst files).1 dst ≡ o
move-done none src dst files e = cc
move-done (some c) src dst files e = written_same (Dict.remove files src) dst c

move-failed :
    (o : Option Bool) (src dst n : String) (files : Dict String Bool)
    → (move o src dst files).0 ≡ false
    → Dict.get (move o src dst files).1 n ≡ Dict.get files n
move-failed none src dst n files e = refl
move-failed (some c) src dst n files e = cc

digest-tmp : (b : Bool) → digest b ≢ ".tmp"
digest-tmp true = differ "aa" ".tmp" refl
digest-tmp false = differ "bb" ".tmp" refl

digest-injective : (b c : Bool) → digest b ≡ digest c → b ≡ c
digest-injective true true e = refl
digest-injective true false e = absurd (differ "aa" "bb" refl e)
digest-injective false true e = absurd (differ "bb" "aa" refl e)
digest-injective false false e = refl

disk-HostLaws : HostLaws disk
disk-HostLaws = record {
  now-files = λ w n. refl;
  transaction-files = λ w n. refl;
  tmp-files = λ sha n w. refl;
  rm-files = λ m n w a. ap content (removed w m n a);
  pipe-other = λ m n b w a. ap content (written w m n b a);
  pipe-same = λ m b w e. ap content (written_same w m b);
  mv-other = λ src dst n w a b. ap content (move-other (Dict.get w src) src dst n w a b);
  mv-done = λ src dst w e. ap content (move-done (Dict.get w src) src dst w e);
  mv-failed = λ src dst n w e a. ap content (move-failed (Dict.get w src) src dst n w e);
  tmp-name = λ sha w b. digest-tmp b;
  no_collision = digest-injective;
}

disk-IsTimely : IsTimely disk
disk-IsTimely w w' = omega arith

abbrev empty : ContentCache (Dict String Bool)
empty = record { rows = []; last_sweep = 0; orphan_candidates = []; world = [] }

abbrev put_one : ContentCache (Dict String Bool)
put_one = (put_internal disk "one" true none none empty).1

-- Another key with the same payload is put and deleted.
abbrev others : List (String × CacheCall Bool)
others = ("two", put_call true none none) ∷ ("two", delete_call) ∷ ("three", get_call) ∷ []

put_is_ok : (put_internal disk "one" true none none empty).0 ≡ ok tt
unfolding put_internal Dict.get Dict.put
put_is_ok = refl

get-put_internal_example : (get disk "one" (perform_all disk others put_one)).0 ≡ ok (some true)
get-put_internal_example =
    get-put_internal disk "one" true none none others empty disk-HostLaws disk-IsTimely
      (differ "two" "one" refl, (differ "two" "one" refl, (differ "three" "one" refl, tt)))
      put_is_ok

calls-IsBacked_example :
    IsBacked disk (perform_all disk (("one", put_call false none none) ∷ others) empty)
calls-IsBacked_example =
    calls-IsBacked disk (("one", put_call false none none) ∷ others) empty disk-HostLaws tt
