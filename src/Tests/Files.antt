-- ===== src/Tests/Files.antt =====
-- Pages of the member directory and files of members.
use xlistman.Prelude.{
  ℕ, ◌+◌, ◌≡◌, refl, true, false, ◌&&◌, some, List, [], ◌∷◌, ◌++◌, map, leb, if◌then◌else◌,
}
use xlistman.Strings.{Text, codes, is_empty, strip_prefix, text_eq}
use xlistman.Env.{Env, join}
use xlistman.Admin.Csv.{Csv, MemberRow, Parsed, header_row, record_of, export_csv, parse_import}
use xlistman.Admin.Csv.Roundtrip.{ReadsBack, parse_import-export_csv}
use xlistman.Store.Directory.{MemberView}
use xlistman.Server.Http.{ℤ, Request, Web, split_at_from}
use xlistman.Server.Console.Directory.{page_limit, member_page}
use xlistman.Tests.Samples.{sample_env, subscription_of_alice, subscription_of_bob}
use xlistman.Tests.Web.{sample_web, request}

abbrev numbers : List ℕ
numbers = 1 ∷ 2 ∷ 3 ∷ 4 ∷ 5 ∷ []

second_page : member_page (page_limit (ℤ.pos 2)) 2 numbers ≡ (2, 3 ∷ 4 ∷ [])
unfolding member_page page_limit
second_page = refl

page_past_end : member_page (page_limit (ℤ.negsuc 0)) 9 numbers ≡ (5, [])
unfolding member_page page_limit
page_past_end = refl

abbrev view_of_alice : MemberView
view_of_alice = record {
  subscriber_id = 1;
  email = codes "a@x.y";
  subscription = some subscription_of_alice;
  roles = [];
}

abbrev view_of_bob : MemberView
view_of_bob = record {
  subscriber_id = 2;
  email = codes "b@x.y";
  subscription = some subscription_of_bob;
  roles = codes "owner" ∷ [];
}

-- The second page, at one member for each page.
abbrev next_page : Request
next_page = record (request (codes "GET") []) {
  query = λ name. if is_empty name then [] else codes "1";
}

abbrev searching : Web
searching = record sample_web { env = record sample_env { to_lower = λ t. [] } }

-- Bytes in lower case, and the comparison of strings without regard to the case of ASCII letters.
abbrev lower_byte : ℕ → ℕ
lower_byte c = if leb b'A' c && leb c b'Z' then c + 32 else c

abbrev file_env : Env
file_env = record sample_env {
  to_lower = map lower_byte;
  equal_fold = λ s t. text_eq (map lower_byte s) (map lower_byte t);
}

-- Files whose fields need no quotes: a comma between fields, and a line feed behind each record.
unfoldable write_records : List (List Text) → Text
write_records [] = []
write_records (r ∷ records) = join (codes ",") r ++ 10 ∷ write_records records

unfoldable read_lines : List Text → List (List Text)
read_lines [] = []
read_lines (line ∷ []) = []
read_lines (line ∷ next ∷ lines) = split_at_from b',' [] line ∷ read_lines (next ∷ lines)

abbrev plain_csv : Csv
plain_csv = record {
  write_all = write_records;
  read_all = λ file. some (read_lines (split_at_from 10 [] file));
}

abbrev exported_rows : List MemberRow
exported_rows =
    record {
      email = codes "a@x.y";
      status = codes "active";
      delivery_mode = codes "digest";
      roles = [];
    }
    ∷ record { email = codes "b@x.y"; status = []; delivery_mode = []; roles = codes "owner" ∷ [] }
    ∷ []

file_read : ReadsBack plain_csv (header_row ∷ map record_of exported_rows)
unfolding strip_prefix write_records read_lines split_at_from join
file_read = record { read_back = refl; no_mark = refl }

header_known : file_env.equal_fold (file_env.trim_space (codes "email")) (codes "email") ≡ true
unfolding text_eq
header_known = refl

other_header : file_env.equal_fold (codes "mail") (codes "email") ≡ false
unfolding text_eq
other_header = refl

parse_import-export_csv_example :
    parse_import file_env plain_csv (export_csv plain_csv exported_rows)
    ≡ Parsed.source (record { emails = codes "a@x.y" ∷ codes "b@x.y" ∷ []; invalid = 0 })
unfolding is_empty
parse_import-export_csv_example =
    parse_import-export_csv file_env plain_csv exported_rows file_read header_known (
      record { filled = refl; trimmed = refl; parsed = refl; lowered = refl },
      (record { filled = refl; trimmed = refl; parsed = refl; lowered = refl }, tt),
    )
