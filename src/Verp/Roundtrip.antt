-- ===== src/Verp/Roundtrip.antt =====
-- `decode_verp` undoes `encode_verp`.
use xlistman.Prelude.{◌≡◌, false, none, [], ◌∷◌, ◌++◌, append_assoc, arith}
use xlistman.Strings.{
  Text, codes, is_empty, is_empty-append, cut_last, cut_at, cut_last_at, cut_last-byte, Lacks,
}
use xlistman.Result.{ok}
use xlistman.Address.{at_sign}
use xlistman.Verp.{marker, equals, encode_verp, decode_local, decode_verp}

-- A local part and a domain, both there, joined by the only "@".
pub record IsAddress (local domain : Text) : Type 0 where
  pub local_there : is_empty local ≡ false
  pub domain_there : is_empty domain ≡ false
  pub local_plain : Lacks b'@' local
  pub domain_plain : Lacks b'@' domain

abbrev pub address : Text → Text → Text
address local domain = local ++ (at_sign ++ domain)

module _ (list_local list_domain recip_local recip_domain : Text) where
  abbrev pub verp : Text
  verp =
      list_local
      ++ (marker ++ (recip_local ++ (equals ++ (recip_domain ++ (at_sign ++ list_domain)))))

  pub encode_verp-address :
      IsAddress list_local list_domain
      → IsAddress recip_local recip_domain
      → encode_verp (address list_local list_domain) (address recip_local recip_domain) ≡ ok verp
  unfolding encode_verp
  encode_verp-address l r = ground (
    arith,
    cut_at b'@' list_local list_domain l.local_plain,
    cut_at b'@' recip_local recip_domain r.local_plain,
  )

  abbrev local_part : Text
  local_part = list_local ++ (marker ++ (recip_local ++ (equals ++ recip_domain)))

  verp-local_part : verp ≡ local_part ++ (b'@' ∷ list_domain)
  verp-local_part = simp append_assoc

  local_part_there : is_empty list_local ≡ false → is_empty local_part ≡ false
  local_part_there h = is_empty-append list_local _ h

  -- The list and the recipient that the local part names, where the marker does not come again.
  decode_local-local_part :
      (sender : Text)
      → is_empty list_local ≡ false
      → IsAddress recip_local recip_domain
      → Lacks b'=' recip_domain
      → cut_last marker (recip_local ++ (equals ++ recip_domain)) ≡ none
      → decode_local sender local_part list_domain
        ≡ ok (address list_local list_domain, address recip_local recip_domain)
  unfolding decode_local
  decode_local-local_part sender l r no_eq no_marker = ground (
    arith,
    cut_last_at b'-' (codes "bounces+") list_local (recip_local ++ (equals ++ recip_domain))
        (omega arith) no_marker,
    cut_last_at b'=' [] recip_local recip_domain tt (cut_last-byte b'=' recip_domain no_eq),
  )

  pub decode_verp-verp :
      is_empty list_local ≡ false
      → is_empty list_domain ≡ false
      → Lacks b'@' list_domain
      → IsAddress recip_local recip_domain
      → Lacks b'=' recip_domain
      → cut_last marker (recip_local ++ (equals ++ recip_domain)) ≡ none
      → decode_verp verp ≡ ok (address list_local list_domain, address recip_local recip_domain)
  unfolding decode_verp
  decode_verp-verp local_there domain_there plain r no_eq no_marker = rw verp-local_part (
      ground (
        arith,
        cut_last_at b'@' [] local_part list_domain tt (cut_last-byte b'@' list_domain plain),
        local_part_there local_there,
        decode_local-local_part (local_part ++ (b'@' ∷ list_domain)) local_there r no_eq no_marker,
      ))

  -- Decoding an encoded envelope sender gives back the list and the recipient. The recipient's
  -- domain holds no "=", and its address no "-bounces+".
  pub decode_verp-encode_verp :
      IsAddress list_local list_domain
      → IsAddress recip_local recip_domain
      → Lacks b'=' recip_domain
      → cut_last marker (recip_local ++ (equals ++ recip_domain)) ≡ none
      → (sender : Text) × (encode_verp
            (address list_local list_domain)
            (address recip_local recip_domain)
          ≡ ok sender)
        × (decode_verp sender
            ≡ ok (address list_local list_domain, address recip_local recip_domain))
  decode_verp-encode_verp l r no_eq no_marker = (
    verp,
    encode_verp-address l r,
    decode_verp-verp l.local_there l.domain_there l.domain_plain r no_eq no_marker,
  )
