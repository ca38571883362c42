-- ===== src/StateStore/Tests.antt =====
-- A store over a directory that is a dictionary, whose bytes are JSON values.
use datasluice.Base.{
  String, Bool, true, false, Option, none, some, [], ◌∷◌, ◌≡◌, ◌≢◌, refl, sym, ap, ◌∙◌, ◌==◌,
  equatable_string, eq_iff, arith,
}
use datasluice.Base.Dict
use datasluice.Base.Dict.{Dict, get-put, get-remove}
use datasluice.Base.Exec.{ok, raise}
use datasluice.Json.{Json, null, end}
use datasluice.StateStore.{
  Raw, there, missing, StateHost, SyncState, envelope, valid_state, put, conditional_put, conflict,
  get_with_version,
}
use datasluice.StateStore.Laws.{
  StateLaws, Swaps, conditional_put-Swaps, single_winner, get_with_version-put,
}

abbrev raw : Option Json → Raw Json
raw none = missing
raw (some b) = there b

abbrev digest : Json → String
digest null = "empty"
digest _ = "full"

abbrev move : Option Json → String → String → Dict String Json → Bool × Dict String Json
move none src dst files = (false, files)
move (some b) src dst files = (true, Dict.put (Dict.remove files src) dst b)

abbrev disk : StateHost (Dict String Json) Json
disk = record {
  cat_file = λ name files. raw (Dict.get files name);
  pipe_file = λ name b files. (true, Dict.put files name b);
  mv = λ src dst files. move (Dict.get files src) src dst files;
  safe_remove = λ name files. Dict.remove files name;
  rm = λ name files. (raw (Dict.get files name), Dict.remove files name);
  tmp_path = λ b files. (".tmp", files);
  state_path = λ key. "state.json";
  sha256 = digest;
  no_bytes = null;
  dumps = λ j. j;
  loads = λ j. some j;
  is_completed_watermark = λ s. true;
  is_timestamp = λ s. true;
  is_sha256 = λ s. true;
  is_artifact = λ j. true;
}

true-false : true ≢ false
true-false e = cc

differ : (a b : String) → (a == b) ≡ false → a ≢ b
differ a b e q = true-false (sym ((eq_iff a b).1 q) ∙ e)

unequal : (a b : String) → a ≢ b → (b == a) ≡ false
unequal a b n = ground (arith, eq_iff b a, n)

equal : (a : String) → (a == a) ≡ true
equal a = (eq_iff a a).1 refl

removed :
    (d : Dict String Json) (m n : String) → n ≢ m → Dict.get (Dict.remove d m) n ≡ Dict.get d n
removed d m n a = rw (get-remove d m n, unequal n m a) refl

written :
    (d : Dict String Json) (m n : String) (b : Json)
    → n ≢ m
    → Dict.get (Dict.put d m b) n ≡ Dict.get d n
written d m n b a = rw (get-put d m n b, unequal n m a) refl

written_same : (d : Dict String Json) (m : String) (b : Json) → Dict.get (Dict.put d m b) m ≡ some b
written_same d m b = rw (get-put d m m b, equal m) refl

move-done :
    (o : Option Json) (src dst : String) (files : Dict String Json)
    → (move o src dst files).0 ≡ true
    → Dict.get (move o src dst files).1 dst ≡ o
move-done none src dst files e = cc
move-done (some c) src dst files e = written_same (Dict.remove files src) dst c

move-failed :
    (o : Option Json) (src dst n : String) (files : Dict String Json)
    → (move o src dst files).0 ≡ false
    → Dict.get (move o src dst files).1 n ≡ Dict.get files n
move-failed none src dst n files e = refl
move-failed (some c) src dst n files e = cc

disk-StateLaws : StateLaws disk
disk-StateLaws = record {
  tmp-files = λ b w n. refl;
  tmp-name = λ b w key. differ "state.json" ".tmp" refl;
  pipe-other = λ m n b w a. ap raw (written w m n b a);
  pipe-same = λ m b w e. ap raw (written_same w m b);
  mv-done = λ src dst w e. ap raw (move-done (Dict.get w src) src dst w e);
  mv-failed = λ src dst n w e a. ap raw (move-failed (Dict.get w src) src dst n w e);
  remove-other = λ m n w a. ap raw (removed w m n a);
}

abbrev state : SyncState
state = record {
  cursor = ("r1", "\"etag\"") ∷ [];
  partitions = end;
  last_synced_at = some "2026-01-01T00:00:00+00:00";
  extra = end;
}

state_valid : valid_state disk "r1" state ≡ true
unfolding valid_state
state_valid = refl

conditional_put-Swaps_example :
    Swaps disk "r1" (envelope state) none [] (conditional_put disk "r1" state none [])
conditional_put-Swaps_example = conditional_put-Swaps disk "r1" state none [] disk-StateLaws

first_wins : (conditional_put disk "r1" state none []).0 ≡ ok (envelope state)
unfolding conditional_put Dict.get Dict.put Dict.remove
first_wins = refl

single_winner_example :
    (conditional_put disk "r1" state none (conditional_put disk "r1" state none []).1).0
    ≡ raise conflict
single_winner_example =
    single_winner disk "r1" state state none [] (envelope state) disk-StateLaws state_valid
      (differ "full" "empty" refl) first_wins

put_done : (put disk "r1" state []).0 ≡ ok (envelope state)
unfolding put Dict.get Dict.put Dict.remove
put_done = refl

get_with_version-put_example :
    get_with_version disk "r1" (put disk "r1" state []).1 ≡ ok (some state, some (envelope state))
get_with_version-put_example =
    get_with_version-put disk "r1" state [] (envelope state) disk-StateLaws refl put_done
