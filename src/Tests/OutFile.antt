-- ===== src/Tests/OutFile.antt =====
-- Tests of `_OutputFile` of bkvt/emitter.py.
use beyond_kvtransfer.Base.{
  ℕ, ◌+◌, ◌≡◌, refl, true, false, not, any_by, some, [], ◌∷◌, ◌++◌, if◌then◌else◌, pos, leb_ℤ,
  length, ◌==◌,
}
use beyond_kvtransfer.Base.Dict.{get, set, setdefault}
use beyond_kvtransfer.Text.{text_beq, codes, text_eq, splitext, last_component, decimal4}
use beyond_kvtransfer.Emitter.OutFile.{
  OutputFile, Files, path_at, current_path, write_batch, rotate, write, join_lines, open_append,
}
use beyond_kvtransfer.Emitter.OutFile.Paths.{path_at-injective, path_at_extension, is_dot, is_slash}
use beyond_kvtransfer.Emitter.OutFile.Batches.{
  lines_bytes, write_batch_content, write_batch_rotates,
}

plain_name : path_at (codes "t/node0") 12 ≡ codes "t/node0.0012.jsonl"
unfolding path_at splitext decimal4
plain_name = refl

-- A worker named after a host with a dotted name writes to a file that does not end in `.jsonl`.
dotted_name : path_at (codes "t/gpu1.lab") 1 ≡ codes "t/gpu1.0001.lab"
unfolding path_at splitext decimal4
dotted_name = refl

abbrev out : OutputFile
out = record { path = codes "t/w"; rotate_bytes = pos 4; written = 0; seq = 1; gzip_started = [] }

abbrev files : Files
files = (codes "t/w.0001.jsonl", []) ∷ []

rotated : write_batch (codes "ab" ∷ codes "c" ∷ []) out files ≡ (
  record out { written = 0; seq = 2; gzip_started = codes "t/w.0001.jsonl" ∷ [] },
  (codes "t/w.0001.jsonl", 97 ∷ 98 ∷ 10 ∷ 99 ∷ 10 ∷ []) ∷ (codes "t/w.0002.jsonl", []) ∷ [],
)
unfolding write_batch rotate write join_lines current_path open_append path_at splitext decimal4 get
    set setdefault text_beq
rotated = refl

path_at-injective_example : ◌≡◌ {A = ℕ} 12 12
path_at-injective_example = path_at-injective (codes "t/w") 12 12 refl

dot_free : (any_by is_dot (codes "lab") ≡ false) × (any_by is_slash (codes "lab") ≡ false)
unfolding any_by
dot_free = (refl, refl)

named : any_by (λ c. not (is_dot c)) (last_component (codes "t/gpu1")) ≡ true
unfolding any_by last_component
named = refl

path_at_extension_example :
    path_at (codes "t/gpu1" ++ 46 ∷ codes "lab") 1
    ≡ codes "t/gpu1" ++ (46 ∷ decimal4 1 ++ 46 ∷ codes "lab")
path_at_extension_example =
    path_at_extension (codes "t/gpu1") (codes "lab") 1 dot_free.0 dot_free.1 named

first_there : get (codes "t/w.0001.jsonl") files ≡ some []
unfolding get text_beq
first_there = refl

write_batch_content_example :
    get (codes "t/w.0001.jsonl") (write_batch (codes "ab" ∷ []) out files).1
    ≡ some (
        if current_path out == codes "t/w.0001.jsonl"
        then [] ++ lines_bytes (codes "ab" ∷ [])
        else [])
write_batch_content_example =
    write_batch_content (codes "ab" ∷ []) out files (codes "t/w.0001.jsonl") [] first_there

write_batch_rotates_example : (write_batch (codes "ab" ∷ []) out files).0 ≡ (
    if leb_ℤ (pos 4) (pos (0 + length (lines_bytes (codes "ab" ∷ []))))
    then record out { written = 0; seq = 2; gzip_started = current_path out ∷ [] }
    else record out { written = 0 + length (lines_bytes (codes "ab" ∷ [])) })
write_batch_rotates_example = write_batch_rotates (codes "ab") [] out files
