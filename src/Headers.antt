-- ===== src/Headers.antt =====
-- The helpers at the end of internal/mail/pipeline.go: header fields of a raw message.
use xlistman.Prelude.{
  ℕ, ◌+◌, Bool, true, false, ◌&&◌, ◌||◌, Option, none, some, List, [], ◌∷◌, ◌++◌, ◌==◌, leb,
  if◌then◌else◌,
}
use xlistman.Strings.{Text, codes, is_empty}

-- ca += 32
unfoldable pub fold_byte : ℕ → ℕ
fold_byte c = if leb b'A' c && leb c b'Z' then c + 32 else c

-- equalFold
unfoldable pub equal_fold : Text → Text → Bool
equal_fold [] [] = true
equal_fold [] (b ∷ t) = false
equal_fold (a ∷ s) [] = false
equal_fold (a ∷ s) (b ∷ t) = fold_byte a == fold_byte b && equal_fold s t

-- A line, without the "\r" before its "\n".
unfoldable pub drop_cr : Text → Text
drop_cr [] = []
drop_cr (c ∷ []) = if c == 13 then [] else c ∷ []
drop_cr (c ∷ d ∷ s) = c ∷ drop_cr (d ∷ s)

-- splitLines; `line` is what was read of the current line
unfoldable pub split_lines_from : Text → Text → List Text
split_lines_from line [] = if is_empty line then [] else drop_cr line ∷ []
split_lines_from line (c ∷ raw) =
    if c == 10
    then drop_cr line ∷ split_lines_from [] raw
    else split_lines_from (line ++ c ∷ []) raw

unfoldable pub split_lines : Text → List Text
split_lines raw = split_lines_from [] raw

unfoldable pub is_blank : ℕ → Bool
is_blank c = c == b' ' || c == 9

unfoldable pub trim_start : (ℕ → Bool) → Text → Text
trim_start p [] = []
trim_start p (c ∷ s) = if p c then trim_start p s else c ∷ s

unfoldable pub trim_end : (ℕ → Bool) → Text → Text
trim_end p [] = []
trim_end p (c ∷ s) = let rest = trim_end p s in if p c && is_empty rest then [] else c ∷ rest

-- trimSpace
unfoldable pub trim_blanks : Text → Text
trim_blanks s = trim_end is_blank (trim_start is_blank s)

-- The slice behind the prefix, if the line starts with it in any case.
unfoldable pub strip_fold : Text → Text → Option Text
strip_fold [] s = some s
strip_fold (p ∷ ps) [] = none
strip_fold (p ∷ ps) (c ∷ s) = if fold_byte c == fold_byte p then strip_fold ps s else none

-- The continuation lines of a header field, appended as they are.
unfoldable pub continuation : List Text → Text
continuation [] = []
continuation ([] ∷ lines) = []
continuation ((c ∷ line) ∷ lines) =
    if is_blank c then trim_blanks (c ∷ line) ++ continuation lines else []

unfoldable pub header_in : Text → List Text → Text
header_in prefix [] = []
header_in prefix (line ∷ lines) = elim (strip_fold prefix line) [
  | some value ↦ trim_blanks value ++ continuation lines
  | none ↦ if is_empty line then [] else header_in prefix lines
]

unfoldable pub extract_header : Text → Text → Text
extract_header raw header = header_in (header ++ codes ":") (split_lines raw)

unfoldable pub extract_subject : Text → Text
extract_subject raw = extract_header raw (codes "Subject")

unfoldable pub extract_thread_id : Text → Text
extract_thread_id raw =
    let in_reply_to = extract_header raw (codes "In-Reply-To") in
    if is_empty in_reply_to then extract_header raw (codes "Message-ID") else in_reply_to
