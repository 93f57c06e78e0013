-- ===== src/Admin/Csv.antt =====
-- internal/members/members.go: the files of members, written and read.
pub mod Roundtrip
use xlistman.Prelude.{
  ℕ, suc, ◌+◌, Bool, true, false, not, Option, none, some, List, [], ◌∷◌, length, ltb, map,
  if◌then◌else◌,
}
use xlistman.Strings.{Text, codes, is_empty, strip_prefix}
use xlistman.Env.{Env, join}
use xlistman.Admin.Import.{ImportSource}

abbrev pub import_max_rows : ℕ
import_max_rows = 10000

pub record MemberRow : Type 0 where
  pub email : Text
  pub status : Text
  pub delivery_mode : Text
  pub roles : List Text

-- encoding/csv: what the writer makes of records, and what the reader, for which a record may have
-- any number of fields, makes of a file.
pub record Csv : Type 0 where
  pub write_all : List (List Text) → Text
  pub read_all : Text → Option (List (List Text))

pub data ImportError : Type 0 where
  -- the reader's error; more rows than are allowed
  parse_csv : ImportError
  too_many : ℕ → ImportError

pub data Parsed : Type 0 where
  source : ImportSource → Parsed
  refused : ImportError → Parsed

abbrev pub header_row : List Text
header_row = codes "email" ∷ codes "status" ∷ codes "delivery_mode" ∷ codes "roles" ∷ []

abbrev pub record_of : MemberRow → List Text
record_of r = r.email ∷ r.status ∷ r.delivery_mode ∷ join (codes ";") r.roles ∷ []

-- ExportCSV
unfoldable pub export_csv : Csv → List MemberRow → Text
export_csv csv rows = csv.write_all (header_row ∷ map record_of rows)

abbrev pub byte_order_mark : Text
byte_order_mark = 239 ∷ 187 ∷ 191 ∷ []

abbrev pub without_mark : Option Text → Text → Text
without_mark (some rest) data' = rest
without_mark none data' = data'

-- firstField
abbrev pub first_field : List Text → Text
first_field [] = []
first_field (field ∷ rest) = field

module _ (env : Env) where
  abbrev pub nonempty : Text → Option Text
  nonempty email = if is_empty email then none else some email

  abbrev pub address_of : Option Text → Option Text
  address_of none = none
  address_of (some address) = nonempty (env.to_lower address)

  -- normalizeEmail
  unfoldable pub normalized : Text → Option Text
  normalized raw = address_of (env.parse_mail_address raw)

  abbrev pub with_email : Option Text → ImportSource → ImportSource
  with_email none s = record s { invalid = suc s.invalid }
  with_email (some email) s = record s { emails = email ∷ s.emails }

  unfoldable pub read_records : List (List Text) → ImportSource
  read_records [] = record { emails = []; invalid = 0 }
  read_records (r ∷ records) =
      let rest = read_records records in
      let raw = env.trim_space (first_field r) in
      if is_empty raw then rest else with_email (normalized raw) rest

  -- records[start:]
  unfoldable pub data_rows : List (List Text) → List (List Text)
  data_rows [] = []
  data_rows (r ∷ records) =
      if env.equal_fold (env.trim_space (first_field r)) (codes "email")
      then records
      else r ∷ records

  abbrev pub records_read : Option (List (List Text)) → Parsed
  records_read none = Parsed.refused ImportError.parse_csv
  records_read (some records) =
      let rows = data_rows records in
      if ltb import_max_rows (length rows)
      then Parsed.refused (ImportError.too_many (length rows))
      else Parsed.source (read_records rows)

  -- ParseImport of a file that was read
  unfoldable pub parse_import : Csv → Text → Parsed
  parse_import csv file =
      records_read (csv.read_all (without_mark (strip_prefix byte_order_mark file) file))
