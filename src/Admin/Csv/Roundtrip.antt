-- ===== src/Admin/Csv/Roundtrip.antt =====
-- An exported file imports again.
use xlistman.Prelude.{
  ◌≡◌, refl, ap, Bool, true, false, none, some, List, [], ◌∷◌, length, map, All, ltb, arith,
  if◌then◌else◌,
}
use xlistman.Strings.{Text, codes, is_empty, strip_prefix}
use xlistman.Env.{Env}
use xlistman.Admin.Csv.{
  Csv, MemberRow, Parsed, ImportError, header_row, record_of, byte_order_mark, normalized,
  read_records, data_rows, export_csv, parse_import,
}

-- The address stands in the row as the store has it: trimmed, lowered, and one that the mail parser
-- takes for itself.
pub record IsNormal (env : Env) (r : MemberRow) : Type 0 where
  pub filled : is_empty r.email ≡ false
  pub trimmed : env.trim_space r.email ≡ r.email
  pub parsed : env.parse_mail_address r.email ≡ some r.email
  pub lowered : env.to_lower r.email ≡ r.email

-- The reader of encoding/csv gives back the records from which the writer made a file, and the file does not start with a byte order mark.
pub record ReadsBack (csv : Csv) (records : List (List Text)) : Type 0 where
  pub read_back : csv.read_all (csv.write_all records) ≡ some records
  pub no_mark : strip_prefix byte_order_mark (csv.write_all records) ≡ none

abbrev pub email_of : MemberRow → Text
email_of r = r.email

length-map : {A B : Type 0} (f : A → B) (xs : List A) → length (map f xs) ≡ length xs
length-map f [] = refl
length-map f (x ∷ xs) = omega (arith, length-map f xs)

module _ (env : Env) where
  read_records-normal :
      (rows : List MemberRow)
      → All (IsNormal env) rows
      → read_records env (map record_of rows) ≡ record { emails = map email_of rows; invalid = 0 }
  unfolding read_records normalized
  read_records-normal [] h = refl
  read_records-normal (r ∷ rows) (n, h) =
      rw (n.trimmed, n.filled, n.parsed, n.lowered, n.filled, read_records-normal rows h) refl

module _ (env : Env) where
  limit_kept :
      (rows : List MemberRow) (b : Bool)
      → All (IsNormal env) rows
      → (if b
          then Parsed.refused (ImportError.too_many (length rows))
          else Parsed.source (read_records env (map record_of rows)))
        ≡ (if b
            then Parsed.refused (ImportError.too_many (length rows))
            else Parsed.source (record { emails = map email_of rows; invalid = 0 }))
  limit_kept rows true normal = refl
  limit_kept rows false normal = ap Parsed.source (read_records-normal env rows normal)

-- An export whose addresses are all normal imports again, if it has at most 10000 rows: the source then
-- has every address, in the order of the rows, and counts none as invalid. A longer export is refused
-- whole. The reader of encoding/csv gives back the records that were written, and the header's name
-- is one that the comparison without regard to case accepts.
pub parse_import-export_csv :
    (env : Env) (csv : Csv) (rows : List MemberRow)
    → ReadsBack csv (header_row ∷ map record_of rows)
    → env.equal_fold (env.trim_space (codes "email")) (codes "email") ≡ true
    → All (IsNormal env) rows
    → parse_import env csv (export_csv csv rows) ≡ (
        if ltb 10000 (length rows)
        then Parsed.refused (ImportError.too_many (length rows))
        else Parsed.source (record { emails = map email_of rows; invalid = 0 }))
unfolding parse_import export_csv data_rows
parse_import-export_csv env csv rows back header normal =
    rw (back.no_mark, back.read_back, header, length-map record_of rows)
      (limit_kept env rows (ltb 10000 (length rows)) normal)
