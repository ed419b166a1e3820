-- ===== src/Emitter/Run/Written.antt =====
-- What a run of the emitter leaves on the disk.
use mathlib.Core.List.{append_assoc, append-nil}
use beyond_kvtransfer.Base.{
  ℕ, zero, suc, ◌+◌, ◌<◌, ◌≡◌, ◌≢◌, refl, true, false, List, [], ◌∷◌, ◌++◌, if◌then◌else◌,
  string_eq, sym, ◌∙◌, arith, Bool-cases, inl, inr, ◌==◌, ==_iff, length, pos, leb_ℤ,
}
use beyond_kvtransfer.Base.Dict.{get, or_else, get-set, get-setdefault}
use beyond_kvtransfer.Text.{Text, text_eq}
use beyond_kvtransfer.Emitter.OutFile.{
  OutputFile, Files, path_at, current_path, write, write_batch, rotate, open_append,
}
use beyond_kvtransfer.Emitter.OutFile.Paths.{path_at-injective}
use beyond_kvtransfer.Emitter.OutFile.Batches.{lines_bytes, join_lines-lines_bytes}

-- the bytes of a file, none where it is missing
unfoldable pub bytes_at : Text → Files → Text
bytes_at p files = or_else (get p files) []

-- the bytes of the files numbered from 1 to n, in their order
unfoldable pub written_up_to : Text → ℕ → Files → Text
written_up_to path zero files = []
written_up_to path (suc n) files =
    written_up_to path n files ++ bytes_at (path_at path (suc n)) files

bytes-open_append :
    (p q : Text) (files : Files) → bytes_at p (open_append q files) ≡ bytes_at p files
unfolding bytes_at open_append
bytes-open_append p q files = ground (arith, get-setdefault p q [] files, ==_iff q p)

bytes-write :
    (p q new : Text) (files : Files)
    → bytes_at p (write q new files)
      ≡ (if q == p then bytes_at p files ++ new else bytes_at p files)
unfolding bytes_at write
bytes-write p q new files =
    ground (arith, get-set p q (or_else (get q files) [] ++ new) files, ==_iff q p)

-- another number is another file
other_number : (path : Text) (j k : ℕ) → j ≢ k → (path_at path k == path_at path j) ≡ false
other_number path j k h = elim (Bool-cases (path_at path k == path_at path j)) [
  | inl same ↦
      let equal = path_at-injective path k j ((==_iff (path_at path k) (path_at path j)).0 same) in
      absurd (h (sym equal))
  | inr other ↦ other
]

lt_other : (j k : ℕ) → j < k → j ≢ k
lt_other j k h e = omega arith

gt_other : (j k : ℕ) → k < j → j ≢ k
gt_other j k h e = omega arith

written-open_append :
    (path q : Text) (n : ℕ) (files : Files)
    → written_up_to path n (open_append q files) ≡ written_up_to path n files
unfolding written_up_to
written-open_append path q zero files = refl
written-open_append path q (suc n) files =
    rw (written-open_append path q n files, bytes-open_append) refl

written-write :
    (path new : Text) (n k : ℕ) (files : Files)
    → n < k
    → written_up_to path n (write (path_at path k) new files) ≡ written_up_to path n files
unfolding written_up_to
written-write path new zero k files h = refl
written-write path new (suc n) k files h =
    rw
      (
        written-write path new n k files (omega arith),
        bytes-write,
        other_number path (suc n) k (lt_other (suc n) k h),
      )
      refl

-- The files up to the current one hold these lines, and the later ones nothing.
pub record IsWritten (f : OutputFile) (files : Files) (lines : List Text) : Type 0 where
  pub content : written_up_to f.path f.seq files ≡ lines_bytes lines
  pub later : (k : ℕ) → f.seq < k → bytes_at (path_at f.path k) files ≡ []
  pub positive : 0 < f.seq

lines_bytes-append : (xs ys : List Text) → lines_bytes (xs ++ ys) ≡ lines_bytes xs ++ lines_bytes ys
unfolding lines_bytes
lines_bytes-append [] ys = refl
lines_bytes-append (x ∷ xs) ys =
    rw (append_assoc x (10 ∷ lines_bytes xs) (lines_bytes ys), lines_bytes-append xs ys) refl

-- the bytes written to the current file come last
written-current :
    (path new : Text) (seq : ℕ) (files : Files)
    → 0 < seq
    → written_up_to path seq (write (path_at path seq) new files)
      ≡ written_up_to path seq files ++ new
unfolding written_up_to
written-current path new zero files h = ground arith
written-current path new (suc n) files h =
    let self : (path_at path (suc n) == path_at path (suc n)) ≡ true =
      (==_iff (path_at path (suc n)) (path_at path (suc n))).1 refl in
    rw (written-write path new n (suc n) files (omega arith), bytes-write, self)
      (sym (append_assoc (written_up_to path n files) (bytes_at (path_at path (suc n)) files) new))

IsWritten-write :
    (f : OutputFile) (files : Files) (lines new : List Text) (n : ℕ)
    → IsWritten f files lines
    → IsWritten
        (record f { written = n })
        (write (current_path f) (lines_bytes new) files)
        (lines ++ new)
unfolding current_path
IsWritten-write f files lines new n w = record {
  content =
      written-current f.path (lines_bytes new) f.seq files w.positive
      ∙ rw (w.content, lines_bytes-append) refl;
  later = λ k h. rw (bytes-write, other_number f.path k f.seq (gt_other k f.seq h)) (w.later k h);
  positive = w.positive;
}

IsWritten-rotate :
    (f : OutputFile) (files : Files) (lines : List Text)
    → IsWritten f files lines
    → IsWritten (rotate f files).0 (rotate f files).1 lines
unfolding rotate current_path written_up_to
IsWritten-rotate f files lines w =
    let next : f.seq + 1 ≡ suc f.seq = omega arith in
    record {
      content = rw next (
          written-open_append f.path (path_at f.path (suc f.seq)) (suc f.seq) files
          ∙ rw (w.later (suc f.seq) (omega arith), append-nil) w.content);
      later = λ k h. rw bytes-open_append (w.later k (omega arith));
      positive = omega arith;
    }

pub write_batch-IsWritten :
    (new : List Text) (f : OutputFile) (files : Files) (lines : List Text)
    → IsWritten f files lines
    → IsWritten (write_batch new f files).0 (write_batch new f files).1 (lines ++ new)
unfolding write_batch
write_batch-IsWritten [] f files lines w = rw append-nil w
write_batch-IsWritten (line ∷ rest) f files lines w = rw join_lines-lines_bytes (
    let bytes = lines_bytes (line ∷ rest) in
    let total = f.written + length bytes in
    let f' : OutputFile = record f { written = total } in
    let w' = IsWritten-write f files lines (line ∷ rest) total w in
    elim (Bool-cases (leb_ℤ f.rotate_bytes (pos total))) [
      | inl full ↦
          rw full
            (IsWritten-rotate f' (write (current_path f) bytes files) (lines ++ line ∷ rest) w')
      | inr room ↦ rw room w'
    ])
