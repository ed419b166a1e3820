-- ===== src/Emitter/OutFile.antt =====
-- `_OutputFile` and `_gzip_file` of bkvt/emitter.py, over the contents of the files.
pub mod Paths
pub mod Batches
use beyond_kvtransfer.Base.{
  ℕ, ◌+◌, Bool, true, false, Option, none, some, List, [], ◌∷◌, ◌++◌, length, if◌then◌else◌,
  is_empty, ℤ, pos, leb_ℤ,
}
use beyond_kvtransfer.Base.Dict.{Dict, get, set, setdefault, remove, or_else}
use beyond_kvtransfer.Text.{Text, codes, splitext, decimal4, text_eq}

-- the files of the disk, with their bytes
abbrev pub Files : Type 0
Files = Dict Text Text

pub record OutputFile : Type 0 where
  pub path : Text
  pub rotate_bytes : ℤ
  pub written : ℕ
  pub seq : ℕ
  -- the paths handed to a gzip thread, oldest first
  pub gzip_started : List Text

-- `f"{base}.{seq:04d}{ext}"`
unfoldable pub numbered : Text → ℕ → Text → Text
numbered base seq ext = base ++ (codes "." ++ (decimal4 seq ++ ext))

-- `_current_path` at a sequence number
unfoldable pub path_at : Text → ℕ → Text
unfolding numbered
path_at path seq =
    let (base, ext) = splitext path in
    if is_empty ext then numbered path seq (codes ".jsonl") else numbered base seq ext

unfoldable pub current_path : OutputFile → Text
current_path f = path_at f.path f.seq

-- `open(path, "ab")`: what is there stays
unfoldable pub open_append : Text → Files → Files
open_append path files = setdefault path [] files

unfoldable pub new : Text → ℤ → Files → OutputFile × Files
unfolding current_path open_append
new path rotate_bytes files =
    let f : OutputFile = record {
      path = path;
      rotate_bytes = rotate_bytes;
      written = 0;
      seq = 1;
      gzip_started = [];
    } in
    (f, open_append (current_path f) files)

-- `b"\n".join(lines)`
unfoldable pub join_lines : List Text → Text
join_lines [] = []
join_lines (line ∷ []) = line
join_lines (line ∷ next ∷ lines) = line ++ 10 ∷ join_lines (next ∷ lines)

-- `self._fh.write(data)`: the handle appends to the current path
unfoldable pub write : Text → Text → Files → Files
write path bytes files = set path (or_else (get path files) [] ++ bytes) files

unfoldable pub rotate : OutputFile → Files → OutputFile × Files
rotate f files =
    let old_path = current_path f in
    let f' : OutputFile = record f { seq = f.seq + 1; written = 0 } in
    (
      record f' { gzip_started = f.gzip_started ++ old_path ∷ [] },
      open_append (current_path f') files,
    )

unfoldable pub write_batch : List Text → OutputFile → Files → OutputFile × Files
write_batch lines f files =
    if is_empty lines
    then (f, files)
    else let bytes = join_lines lines ++ 10 ∷ [] in
      let files' = write (current_path f) bytes files in
      let f' : OutputFile = record f { written = f.written + length bytes } in
      if leb_ℤ f'.rotate_bytes (pos f'.written) then rotate f' files' else (f', files')

-- `_gzip_file`, for a compressor that gives none where it raises
unfoldable pub gzip_file : (Text → Option Text) → Text → Files → Files
gzip_file compress path files = elim (get path files) [
  | none ↦ files
  | some bytes ↦ elim (compress bytes) [
    | none ↦ set (path ++ codes ".gz") [] files
    | some packed ↦ remove path (set (path ++ codes ".gz") packed files)
  ]
]
