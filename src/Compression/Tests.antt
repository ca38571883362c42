-- ===== src/Compression/Tests.antt =====
-- A source that gives two bytes at a time, and an archive of two files.
use datasluice.Base.{
  ℕ, zero, suc, ◌≤◌, ◌≡◌, refl, sym, ap, arith, true, false, none, some, List, [], ◌∷◌, ◌++◌,
  String, ltb, length, if◌then◌else◌, pos, negsuc,
}
use datasluice.Base.Exec.{ok}
use datasluice.Compression.Peekable.{
  Bytes, take, drop, Source, make_reader, peek, fill, read, drain,
}
use datasluice.Compression.Bounded.{Inner}
use datasluice.Compression.Slices.{take-drop, length-take_le}
use datasluice.Compression.Lookahead.{SourceLaws}
use datasluice.Compression.Calls.{
  Call, peek_call, readinto_call, read_call, read_all_call, close_call, ServesAll, outputs,
  outputs-ServesAll,
}
use datasluice.Compression.Limits
use datasluice.Compression.Limits.{InnerLaws, perform_all, reads-bounded}
use datasluice.Compression.Select.{
  ZipMember, Decompressors, detect_format, starts_with, zip_magic, peek_size, largest,
  apply_compression, zip_largest_member,
}
use datasluice.Compression.Choices.{
  Chosen, Undecoded, zip_largest_member-Chosen, apply_compression-ServesAll,
}

abbrev step : ℕ → ℕ
step n = if ltb n 2 then n else 2

abbrev two_bytes : Source Bytes
two_bytes = record {
  read_some = λ n s. (take (step n) s, drop (step n) s);
  read_rest = λ s. (s, []);
  close_source = λ s. [];
}

take_none : (k : ℕ) (s : Bytes) → 1 ≤ k → take k s ≡ [] → s ≡ []
unfolding take
take_none zero s h e = absurd (omega arith)
take_none (suc k) [] h e = refl
take_none (suc k) (b ∷ s) h e = cc

step_within : (n : ℕ) → step n ≤ n
step_within n = ground arith

step_some : (n : ℕ) → 1 ≤ step (suc n)
step_some n = ground arith

two_bytes-SourceLaws : SourceLaws two_bytes (λ s. s)
two_bytes-SourceLaws = record {
  some-content = λ n s. sym (take-drop (step n) s);
  some-bounded = λ n s. omega (arith, length-take_le (step n) s, step_within n);
  some-end = λ n s e. take_none (step (suc n)) s (step_some n) e;
  rest-content = λ s. refl;
  rest-end = λ s. refl;
}

abbrev rows : Bytes
rows = 105 ∷ 100 ∷ 10 ∷ 49 ∷ 10 ∷ 50 ∷ 10 ∷ []

abbrev calls : List Call
calls = peek_call 3 ∷ readinto_call 2 ∷ read_call 3 ∷ read_all_call ∷ close_call ∷ read_call 1 ∷ []

outputs-ServesAll_example :
    ServesAll calls false rows (outputs two_bytes calls (make_reader two_bytes rows))
outputs-ServesAll_example = outputs-ServesAll two_bytes (λ s. s) calls rows two_bytes-SourceLaws

abbrev zeros : Inner Bytes (Unit {0})
zeros = record {
  read_inner = λ n s. elim n [ pos m ↦ (ok (take m s), drop m s) | negsuc m ↦ (ok s, []) ];
  is_translated = λ x. true;
}

zeros-InnerLaws : InnerLaws zeros 3
zeros-InnerLaws = record {
  inner-bounded = λ n s chunk e.
      let same : take n s ≡ chunk = cc e in omega (arith, length-take_le n s, ap length same);
}

abbrev reads : List Limits.BoundedCall
reads = Limits.readinto_call 2 ∷ Limits.read_call none ∷ Limits.read_call (some 1) ∷ []

reads-bounded_example :
    ((perform_all zeros 3 reads (record { inner = rows; bytes_read = 0 })).0 ≤ 3)
    × ((perform_all zeros 3 reads (record { inner = rows; bytes_read = 0 })).1.bytes_read ≤ 4)
reads-bounded_example = reads-bounded zeros 3 reads rows zeros-InnerLaws

abbrev member : String → ℕ → ZipMember
member name size = record { filename = name; is_dir = false; file_size = size }

abbrev archive : Decompressors Bytes (Unit {0})
archive = record {
  open_gzip = λ r. none;
  open_bzip2 = λ r. none;
  open_zstd = none;
  infolist = λ body. some (member "README" 3 ∷ member "data.csv" 7 ∷ []);
  read_member = λ body m n. some rows;
  lower = λ text. text;
  strip = λ text. text;
}

abbrev body : Bytes
body = zip_magic ++ (0 ∷ 0 ∷ [])

apply_compression-ServesAll_example :
    Undecoded (detect_format (take peek_size rows) "")
    × ServesAll calls false rows
        (outputs two_bytes calls (peek two_bytes peek_size (make_reader two_bytes rows)).1)
unfolding apply_compression detect_format starts_with peek fill make_reader take drop
apply_compression-ServesAll_example =
    apply_compression-ServesAll two_bytes archive (λ s. s) rows none
      (peek two_bytes peek_size (make_reader two_bytes rows)).1 calls two_bytes-SourceLaws refl

zip_largest_member-Chosen_example : Chosen two_bytes archive body rows
unfolding zip_largest_member read drain make_reader take drop largest
zip_largest_member-Chosen_example =
    zip_largest_member-Chosen two_bytes archive (λ s. s) body rows two_bytes-SourceLaws refl
