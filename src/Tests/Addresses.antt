-- ===== src/Tests/Addresses.antt =====
-- Addresses at work.
use xlistman.Prelude.{◌≡◌, refl, false, none, [], ◌++◌, arith}
use xlistman.Strings.{Text, codes, is_empty, cut_last, cut, strip_prefix}
use xlistman.Result.{ok}
use xlistman.Address.{owner, moderate, parse_address}
use xlistman.Address.Routes.{role_address, parse_address-role_address}
use xlistman.Verp.{marker, equals, encode_verp, decode_verp}
use xlistman.Verp.Roundtrip.{IsAddress, address, decode_verp-encode_verp}
use xlistman.Verp.Misattribution.{decode_verp-misattributed}
use xlistman.Pipeline.Notices.{notice_reply_to}
use xlistman.Pipeline.Notices.ReplyTo.{notice_reply_to-misrouted}
use xlistman.Tests.Samples.{dev}

pub dev-IsAddress : IsAddress (codes "dev") (codes "x.y")
unfolding is_empty
dev-IsAddress = record {
  local_there = refl;
  domain_there = refl;
  local_plain = omega arith;
  domain_plain = omega arith;
}

ann-IsAddress : IsAddress (codes "ann=bob") (codes "q.z")
unfolding is_empty
ann-IsAddress = record {
  local_there = refl;
  domain_there = refl;
  local_plain = omega arith;
  domain_plain = omega arith;
}

ann_no_marker : cut_last marker (codes "ann=bob" ++ (equals ++ codes "q.z")) ≡ none
unfolding cut_last cut strip_prefix
ann_no_marker = refl

decode_verp-encode_verp_example :
    (sender : Text) × (encode_verp
        (address (codes "dev") (codes "x.y"))
        (address (codes "ann=bob") (codes "q.z"))
      ≡ ok sender)
    × (decode_verp sender
        ≡ ok (address (codes "dev") (codes "x.y"), address (codes "ann=bob") (codes "q.z")))
decode_verp-encode_verp_example =
    decode_verp-encode_verp (codes "dev") (codes "x.y") (codes "ann=bob") (codes "q.z")
      dev-IsAddress ann-IsAddress (omega arith) ann_no_marker

front_marker-IsAddress : IsAddress (codes "a-bounces+b") (codes "q.z")
unfolding is_empty
front_marker-IsAddress = record {
  local_there = refl;
  domain_there = refl;
  local_plain = omega arith;
  domain_plain = omega arith;
}

back-IsAddress : IsAddress (codes "b") (codes "q.z")
unfolding is_empty
back-IsAddress = record {
  local_there = refl;
  domain_there = refl;
  local_plain = omega arith;
  domain_plain = omega arith;
}

back_no_marker : cut_last marker (codes "b" ++ (equals ++ codes "q.z")) ≡ none
unfolding cut_last cut strip_prefix
back_no_marker = refl

decode_verp-misattributed_example :
    (sender : Text) × (encode_verp
        (address (codes "dev") (codes "x.y"))
        (address (codes "a-bounces+b") (codes "q.z"))
      ≡ ok sender)
    × (decode_verp sender
        ≡ ok (address (codes "dev-bounces+a") (codes "x.y"), address (codes "b") (codes "q.z")))
decode_verp-misattributed_example =
    decode_verp-misattributed (codes "dev") (codes "x.y") (codes "a") (codes "b") (codes "q.z")
      dev-IsAddress front_marker-IsAddress back-IsAddress (omega arith) back_no_marker

dev_there : is_empty (codes "dev") ≡ false
unfolding is_empty
dev_there = refl

domain_there : is_empty (codes "x.y") ≡ false
unfolding is_empty
domain_there = refl

parse_address-role_address_example :
    parse_address (role_address moderate (codes "dev") (codes "h") (codes "x.y"))
    ≡ ok (record {
      type = moderate;
      list_name = codes "dev";
      domain = codes "x.y";
      list_addr = codes "dev@x.y";
      encoded_part = codes "h";
    })
parse_address-role_address_example =
    parse_address-role_address moderate (codes "dev") (codes "h") (codes "x.y")
      (λ e. ground (arith, e)) (λ e. absurd (ground (arith, e))) dev_there (omega arith)
      domain_there (omega arith)

notice_reply_to-misrouted_example :
    parse_address (notice_reply_to dev)
    ≡ ok (record {
      type = owner;
      list_name = codes "dev@x.y";
      domain = codes "x.y";
      list_addr = codes "dev@x.y@x.y";
      encoded_part = [];
    })
notice_reply_to-misrouted_example =
    notice_reply_to-misrouted dev dev_there (omega arith) domain_there (omega arith) (omega arith)
