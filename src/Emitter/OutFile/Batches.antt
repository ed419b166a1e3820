-- ===== src/Emitter/OutFile/Batches.antt =====
-- What `write_batch` does to the files.
use mathlib.Core.List.{append_assoc, append-nil}
use beyond_kvtransfer.Base.{
  ◌+◌, ◌≡◌, refl, some, List, [], ◌∷◌, ◌++◌, length, if◌then◌else◌, pos, leb_ℤ, ◌==◌, ==_iff, arith,
  Bool-cases, inl, inr, ap,
}
use beyond_kvtransfer.Base.Dict.{get, or_else, get-set, get-setdefault}
use beyond_kvtransfer.Text.{Text, text_eq}
use beyond_kvtransfer.Emitter.OutFile.{
  OutputFile, Files, current_path, join_lines, write, write_batch, rotate, open_append,
}

-- every line with its newline
unfoldable pub lines_bytes : List Text → Text
lines_bytes [] = []
lines_bytes (line ∷ lines) = line ++ 10 ∷ lines_bytes lines

pub join_lines-lines_bytes :
    (line : Text) (lines : List Text)
    → join_lines (line ∷ lines) ++ 10 ∷ [] ≡ lines_bytes (line ∷ lines)
unfolding join_lines lines_bytes
join_lines-lines_bytes line [] = refl
join_lines-lines_bytes line (next ∷ lines) =
    rw (append_assoc line (10 ∷ join_lines (next ∷ lines)) (10 ∷ []))
      (ap (λ (t : Text). line ++ 10 ∷ t) (join_lines-lines_bytes next lines))

open_append_keeps :
    (p q : Text) (files : Files) (bytes : Text)
    → get p files ≡ some bytes
    → get p (open_append q files) ≡ some bytes
unfolding open_append
open_append_keeps p q files bytes h = ground (arith, get-setdefault p q [] files, ==_iff q p)

write_content :
    (p q new : Text) (files : Files) (old : Text)
    → get p files ≡ some old
    → get p (write q new files) ≡ some (if q == p then old ++ new else old)
unfolding write
write_content p q new files old h =
    ground (arith, get-set p q (or_else (get q files) [] ++ new) files, ==_iff q p)

rotate_keeps :
    (p : Text) (f : OutputFile) (files : Files) (bytes : Text)
    → get p files ≡ some bytes
    → get p (rotate f files).1 ≡ some bytes
unfolding rotate
rotate_keeps p f files bytes h = open_append_keeps p _ files bytes h

-- A batch is appended whole, each line with a newline, to the file that is current before the
-- call, and the text of every other file that is there stays, also when the call rotates.
pub write_batch_content :
    (lines : List Text) (f : OutputFile) (files : Files) (p : Text) (old : Text)
    → get p files ≡ some old
    → get p (write_batch lines f files).1
      ≡ some (if current_path f == p then old ++ lines_bytes lines else old)
unfolding write_batch lines_bytes
write_batch_content [] f files p old h = elim (Bool-cases (current_path f == p)) [
  | inl e ↦ rw (e, append-nil) h
  | inr e ↦ rw e h
]
write_batch_content (line ∷ lines) f files p old h = rw join_lines-lines_bytes (
    let bytes = lines_bytes (line ∷ lines) in
    let files' = write (current_path f) bytes files in
    let f' : OutputFile = record f { written = f.written + length bytes } in
    let written = write_content p (current_path f) bytes files old h in
    elim (Bool-cases (leb_ℤ f'.rotate_bytes (pos f'.written))) [
      | inl full ↦ rw full (rotate_keeps p f' files' _ written)
      | inr room ↦ rw room written
    ])

-- A batch that is not empty adds its bytes, newlines included, to the count; and exactly when the
-- count reaches the threshold, the file is numbered one higher, the count is back at 0 and the old
-- file is handed to gzip. Nothing else of the state changes.
pub write_batch_rotates :
    (line : Text) (lines : List Text) (f : OutputFile) (files : Files)
    → let f' = (write_batch (line ∷ lines) f files).0 in
      let total = f.written + length (lines_bytes (line ∷ lines)) in
      f' ≡ (
        if leb_ℤ f.rotate_bytes (pos total)
        then record f {
          written = 0;
          seq = f.seq + 1;
          gzip_started = f.gzip_started ++ current_path f ∷ [];
        }
        else record f { written = total })
unfolding write_batch rotate current_path
write_batch_rotates line lines f files =
    let total = f.written + length (lines_bytes (line ∷ lines)) in
    rw join_lines-lines_bytes
      (elim (Bool-cases (leb_ℤ f.rotate_bytes (pos total))) [ inl e ↦ rw e | inr e ↦ rw e ])
