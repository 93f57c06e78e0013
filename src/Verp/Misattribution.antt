-- ===== src/Verp/Misattribution.antt =====
-- A recipient whose local part holds "-bounces+" is decoded as another one.
use xlistman.Prelude.{◌≡◌, none, ◌++◌, append_assoc}
use xlistman.Strings.{Text, is_empty-append, cut_last, Lacks}
use xlistman.Result.{ok}
use xlistman.Verp.{marker, equals, encode_verp, decode_verp}
use xlistman.Verp.Roundtrip.{IsAddress, address, verp, encode_verp-address, decode_verp-verp}

module _ (list_local list_domain front back recip_domain : Text) where
  abbrev recip_local : Text
  recip_local = front ++ (marker ++ back)

  verp-regroup :
      verp list_local list_domain recip_local recip_domain
      ≡ verp (list_local ++ (marker ++ front)) list_domain back recip_domain
  verp-regroup = simp append_assoc

  -- For a recipient `front-bounces+back`, what is decoded is the recipient `back` of the list
  -- `list-bounces+front`.
  pub decode_verp-misattributed :
      IsAddress list_local list_domain
      → IsAddress recip_local recip_domain
      → IsAddress back recip_domain
      → Lacks b'=' recip_domain
      → cut_last marker (back ++ (equals ++ recip_domain)) ≡ none
      → (sender : Text) × (encode_verp
            (address list_local list_domain)
            (address recip_local recip_domain)
          ≡ ok sender)
        × (decode_verp sender
            ≡ ok (address (list_local ++ (marker ++ front)) list_domain, address back recip_domain))
  decode_verp-misattributed l r b no_eq no_marker = (
    verp list_local list_domain recip_local recip_domain,
    encode_verp-address list_local list_domain recip_local recip_domain l r,
    rw verp-regroup (
        decode_verp-verp (list_local ++ (marker ++ front)) list_domain back recip_domain
          (is_empty-append list_local _ l.local_there) l.domain_there l.domain_plain b no_eq
          no_marker),
  )
