-- ===== src/Verp.antt =====
-- internal/mail/verp.go: envelope senders that name the recipient, so that a bounce can be attributed.
pub mod Roundtrip
pub mod Misattribution
use xlistman.Prelude.{Bool, ◌||◌, Option, none, some, ◌++◌, if◌then◌else◌}
use xlistman.Strings.{Text, codes, is_empty, cut, cut_last}
use xlistman.Result.{Result, ok, err, missing_at, empty_part}
use xlistman.Result.{missing_marker, empty_list_name, missing_equals}
use xlistman.Address.{at_sign}

abbrev pub marker : Text
marker = codes "-bounces+"

abbrev pub equals : Text
equals = codes "="

unfoldable pub encode_verp : Text → Text → Result Text
encode_verp list_addr recipient_addr = elim (cut at_sign list_addr) [
  | none ↦ err (missing_at list_addr)
  | some (list_local, list_domain) ↦
      if is_empty list_local || is_empty list_domain
      then err (empty_part list_addr)
      else elim (cut at_sign recipient_addr) [
        | none ↦ err (missing_at recipient_addr)
        | some (recip_local, recip_domain) ↦
            if is_empty recip_local || is_empty recip_domain
            then err (empty_part recipient_addr)
            else ok (
                list_local
                ++ (marker
                    ++ (recip_local ++ (equals ++ (recip_domain ++ (at_sign ++ list_domain))))))
      ]
]

-- From the local part on.
unfoldable pub decode_local : Text → Text → Text → Result (Text × Text)
decode_local sender local_part list_domain = elim (cut_last marker local_part) [
  | none ↦ err (missing_marker sender)
  | some (list_local, encoded) ↦
      if is_empty list_local then err (empty_list_name sender) else elim (cut_last equals encoded) [
        | none ↦ err (missing_equals sender)
        | some (recip_local, recip_domain) ↦
            if is_empty recip_local || is_empty recip_domain
            then err (empty_part sender)
            else ok
                (list_local ++ (at_sign ++ list_domain), recip_local ++ (at_sign ++ recip_domain))
      ]
]

unfoldable pub decode_verp : Text → Result (Text × Text)
decode_verp sender = elim (cut_last at_sign sender) [
  | none ↦ err (missing_at sender)
  | some (local_part, list_domain) ↦
      if is_empty local_part || is_empty list_domain
      then err (empty_part sender)
      else decode_local sender local_part list_domain
]
