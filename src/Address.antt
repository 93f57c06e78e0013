-- ===== src/Address.antt =====
-- internal/mail/address.go: which function of which list an address names.
pub mod Routes
use xlistman.Prelude.{
  Bool, true, false, ◌||◌, Option, none, some, List, [], ◌∷◌, ◌++◌, if◌then◌else◌,
}
use xlistman.Strings.{Text, codes, is_empty, strip_suffix, cut, cut_last}
use xlistman.Result.{Result, ok, err, missing_at, empty_part}

pub data AddressType : Type 0 where
  post request owner subscribe unsubscribe bounce confirm moderate unknown : AddressType

pub record ParsedAddress : Type 0 where
  pub type : AddressType
  pub list_name : Text
  pub domain : Text
  pub list_addr : Text
  pub encoded_part : Text

abbrev pub at_sign : Text
at_sign = codes "@"

abbrev pub plus : Text
plus = codes "+"

abbrev parsed : AddressType → Text → Text → Text → ParsedAddress
parsed type list_name domain encoded = record {
  type = type;
  list_name = list_name;
  domain = domain;
  list_addr = list_name ++ (at_sign ++ domain);
  encoded_part = encoded;
}

-- The branches under `strings.Index(local, "+")`; `none` falls through.
unfoldable pub plus_route : Text → Text → Text → Option ParsedAddress
plus_route domain prefix encoded = elim (strip_suffix (codes "-bounces") prefix) [
  | some list_name ↦ some (parsed bounce list_name domain encoded)
  | none ↦ elim (strip_suffix (codes "-confirm") prefix) [
    | some list_name ↦ some (parsed confirm list_name domain encoded)
    | none ↦ elim (strip_suffix (codes "-moderate") prefix) [
      | some list_name ↦ some (parsed moderate list_name domain encoded)
      | none ↦ none
    ]
  ]
]

abbrev pub suffixes : List (Text × AddressType)
suffixes =
    (codes "-request", request)
    ∷ (codes "-owner", owner)
    ∷ (codes "-subscribe", subscribe)
    ∷ (codes "-unsubscribe", unsubscribe)
    ∷ []

-- The loop over `suffixes`; `none` falls through.
unfoldable pub dash_route : List (Text × AddressType) → Text → Text → Option ParsedAddress
dash_route [] domain local = none
dash_route ((suffix, type) ∷ rest) domain local =
    let next = dash_route rest domain local in
    elim (strip_suffix suffix local) [
      | some list_name ↦ if is_empty list_name then next else some (parsed type list_name domain [])
      | none ↦ next
    ]

abbrev post_route : Text → Text → Text → ParsedAddress
post_route addr domain local = record {
  type = post;
  list_name = local;
  domain = domain;
  list_addr = addr;
  encoded_part = [];
}

unfoldable pub route : Text → Text → Text → ParsedAddress
route addr domain local =
    let tagged : Option ParsedAddress = elim (cut plus local) [
      | some (prefix, encoded) ↦ plus_route domain prefix encoded
      | none ↦ none
    ] in
    elim tagged [
      | some p ↦ p
      | none ↦ elim (dash_route suffixes domain local) [
        | some p ↦ p
        | none ↦ post_route addr domain local
      ]
    ]

unfoldable pub parse_address : Text → Result ParsedAddress
parse_address addr = elim (cut_last at_sign addr) [
  | none ↦ err (missing_at addr)
  | some (local, domain) ↦
      if is_empty local || is_empty domain
      then err (empty_part addr)
      else ok (route addr domain local)
]
