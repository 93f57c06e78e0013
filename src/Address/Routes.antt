-- ===== src/Address/Routes.antt =====
-- Every address that the conventions of address.go describe is routed to its function and its list.
use mathlib.Core.List.{append_cancel_right}
use xlistman.Prelude.{
  All, append-nil, List, ◌≡◌, ◌≢◌, refl, sym, ap, ◌∙◌, false, Option, none, some, [], ◌∷◌, ◌++◌,
  append_assoc, ℕ, arith,
}
use xlistman.Strings.{
  Text, codes, is_empty, is_empty-append, strip_suffix, strip_suffix_at, strip_suffix_sound, cut,
  cut_at, cut-none, cut_last_at, cut_last-byte, Lacks, Lacks-append,
}
use xlistman.Result.{ok}
use xlistman.Address.{
  AddressType, post, request, owner, subscribe, unsubscribe, bounce, confirm, moderate, unknown,
  plus, plus_route, dash_route, suffixes, route, parse_address,
}

-- What stands between the list's name and the "@".
abbrev pub tag : AddressType → Text → Text
tag post part = []
tag request part = codes "-request"
tag owner part = codes "-owner"
tag subscribe part = codes "-subscribe"
tag unsubscribe part = codes "-unsubscribe"
tag bounce part = codes "-bounces+" ++ part
tag confirm part = codes "-confirm+" ++ part
tag moderate part = codes "-moderate+" ++ part
tag unknown part = []

-- The part that the parser returns.
abbrev pub part_of : AddressType → Text → Text
part_of bounce part = part
part_of confirm part = part
part_of moderate part = part
part_of _ part = []

abbrev pub role_address : AddressType → Text → Text → Text → Text
role_address type name part domain = (name ++ tag type part) ++ (b'@' ∷ domain)

-- The last byte of a text that is not empty.
last : Text → ℕ
last [] = 0
last (c ∷ []) = c
last (c ∷ d ∷ s) = last (d ∷ s)

last-append : (s : Text) (c : ℕ) (t : Text) → last (s ++ (c ∷ t)) ≡ last (c ∷ t)
unfolding last
last-append [] c t = refl
last-append (a ∷ []) c t = refl
last-append (a ∷ b ∷ s) c t = last-append (b ∷ s) c t

-- If nothing that the suffix could leave is possible, there is no suffix.
option_none : {A : Type 0} (o : Option A) → ((a : A) → o ≢ some a) → o ≡ none
option_none none k = refl
option_none (some a) k = absurd (k a refl)

-- No suffix of a text ends in another byte than the text.
strip_suffix-none :
    (c : ℕ) (p : Text) (s : Text) (d : ℕ) (t : Text)
    → last (c ∷ p) ≢ last (d ∷ t)
    → strip_suffix (c ∷ p) (s ++ (d ∷ t)) ≡ none
strip_suffix-none c p s d t h = option_none _ λ a e. h (
    sym (last-append a c p)
    ∙ (ap last (sym (strip_suffix_sound (c ∷ p) _ a e)) ∙ last-append s d t))

not-subscribe :
    (name : Text) → strip_suffix (codes "-subscribe") (name ++ codes "-unsubscribe") ≡ none
unfolding last
not-subscribe name = option_none _ λ a e.
    let whole : (name ++ codes "-un") ++ codes "subscribe" ≡ (a ++ codes "-") ++ codes "subscribe" =
      simp append_assoc (strip_suffix_sound (codes "-subscribe") _ a e) in
    let parts =
      append_cancel_right (name ++ codes "-un") (a ++ codes "-") (codes "subscribe") whole in
    omega (arith, ap last parts, last-append name b'-' (codes "un"), last-append a b'-' [])

-- No other name with one of the four suffixes behind it.
abbrev pub IsPlainName : Text → Type 0
IsPlainName name =
    All (λ (s : Text × AddressType). (a : Text) → is_empty a ≡ false → name ≢ a ++ s.0) suffixes

plain_step :
    (o : Option Text) (s : Text) (t : AddressType) (table : List (Text × AddressType))
    (domain name : Text)
    → strip_suffix s name ≡ o
    → ((a : Text) → is_empty a ≡ false → name ≢ a ++ s)
    → dash_route table domain name ≡ none
    → dash_route ((s, t) ∷ table) domain name ≡ none
unfolding dash_route is_empty
plain_step none s t table domain name e h ih = ground arith
plain_step (some []) s t table domain name e h ih = ground arith
plain_step (some (c ∷ a)) s t table domain name e h ih =
    absurd (h (c ∷ a) refl (strip_suffix_sound s name (c ∷ a) e))

plain_post :
    (domain : Text) (table : List (Text × AddressType)) (name : Text)
    → All (λ (s : Text × AddressType). (a : Text) → is_empty a ≡ false → name ≢ a ++ s.0) table
    → dash_route table domain name ≡ none
unfolding dash_route
plain_post domain [] name h = refl
plain_post domain ((s, t) ∷ table) name h =
    plain_step (strip_suffix s name) s t table domain name refl h.0
      (plain_post domain table name h.1)

module _ (name part domain : Text) (there : is_empty name ≡ false) (plain : Lacks b'+' name) where
  plus_at :
      (w : Text) → Lacks b'+' w → cut plus (name ++ (w ++ (b'+' ∷ part))) ≡ some (name ++ w, part)
  plus_at w h =
      rw (sym (append_assoc name w (b'+' ∷ part)))
        (cut_at b'+' (name ++ w) part (Lacks-append b'+' name w plain h))

  no_plus : (w : Text) → Lacks b'+' w → cut plus (name ++ w) ≡ none
  no_plus w h = cut-none b'+' (name ++ w) (Lacks-append b'+' name w plain h)

  abbrev Routed : AddressType → Type 0
  Routed type =
      (addr : Text)
      → addr ≡ role_address type name part domain
      → route addr domain (name ++ tag type part) ≡ record {
        type = type;
        list_name = name;
        domain = domain;
        list_addr = name ++ (b'@' ∷ domain);
        encoded_part = part_of type part;
      }

  route-bounce : Routed bounce
  unfolding route plus_route
  route-bounce addr e =
      ground
        (arith, plus_at (codes "-bounces") (omega arith), strip_suffix_at (codes "-bounces") name)

  route-confirm : Routed confirm
  unfolding route plus_route last
  route-confirm addr e = ground (
    arith,
    plus_at (codes "-confirm") (omega arith),
    strip_suffix-none b'-' (codes "bounces") name b'-' (codes "confirm") (omega arith),
    strip_suffix_at (codes "-confirm") name,
  )

  route-moderate : Routed moderate
  unfolding route plus_route last
  route-moderate addr e = ground (
    arith,
    plus_at (codes "-moderate") (omega arith),
    strip_suffix-none b'-' (codes "bounces") name b'-' (codes "moderate") (omega arith),
    strip_suffix-none b'-' (codes "confirm") name b'-' (codes "moderate") (omega arith),
    strip_suffix_at (codes "-moderate") name,
  )

  route-request : Routed request
  unfolding route dash_route
  route-request addr e =
      ground
        (arith, no_plus (codes "-request") (omega arith), strip_suffix_at (codes "-request") name)

  route-owner : Routed owner
  unfolding route dash_route last
  route-owner addr e = ground (
    arith,
    no_plus (codes "-owner") (omega arith),
    strip_suffix-none b'-' (codes "request") name b'-' (codes "owner") (omega arith),
    strip_suffix_at (codes "-owner") name,
  )

  route-subscribe : Routed subscribe
  unfolding route dash_route last
  route-subscribe addr e = ground (
    arith,
    no_plus (codes "-subscribe") (omega arith),
    strip_suffix-none b'-' (codes "request") name b'-' (codes "subscribe") (omega arith),
    strip_suffix-none b'-' (codes "owner") name b'-' (codes "subscribe") (omega arith),
    strip_suffix_at (codes "-subscribe") name,
  )

  route-unsubscribe : Routed unsubscribe
  unfolding route dash_route last
  route-unsubscribe addr e = ground (
    arith,
    no_plus (codes "-unsubscribe") (omega arith),
    strip_suffix-none b'-' (codes "request") name b'-' (codes "unsubscribe") (omega arith),
    strip_suffix-none b'-' (codes "owner") name b'-' (codes "unsubscribe") (omega arith),
    not-subscribe name,
    strip_suffix_at (codes "-unsubscribe") name,
  )

  route-post : IsPlainName name → Routed post
  unfolding route
  route-post ordinary addr e =
      ground (arith, no_plus [] tt, append-nil name, plain_post domain suffixes name ordinary)

  route-role :
      (type : AddressType) → type ≢ unknown → (type ≡ post → IsPlainName name) → Routed type
  route-role post u p = route-post (p refl)
  route-role request u p = route-request
  route-role owner u p = route-owner
  route-role subscribe u p = route-subscribe
  route-role unsubscribe u p = route-unsubscribe
  route-role bounce u p = route-bounce
  route-role confirm u p = route-confirm
  route-role moderate u p = route-moderate
  route-role unknown u p = absurd (u refl)

-- The address of a role of a list is parsed to that role, that list and that part, for every role
-- that the source documents. The list's name is there and has no "+", the domain is there and has no
-- "@"; for a post the list's name is not another name with a role's suffix.
pub parse_address-role_address :
    (type : AddressType) (name part domain : Text)
    → type ≢ unknown
    → (type ≡ post → IsPlainName name)
    → is_empty name ≡ false
    → Lacks b'+' name
    → is_empty domain ≡ false
    → Lacks b'@' domain
    → parse_address (role_address type name part domain)
      ≡ ok (record {
        type = type;
        list_name = name;
        domain = domain;
        list_addr = name ++ (b'@' ∷ domain);
        encoded_part = part_of type part;
      })
unfolding parse_address
parse_address-role_address type name part domain known ordinary there plain domain_there no_at =
    ground (
      arith,
      cut_last_at b'@' [] (name ++ tag type part) domain tt (cut_last-byte b'@' domain no_at),
      is_empty-append name (tag type part) there,
      route-role name part domain there plain type known ordinary
          (role_address type name part domain) refl,
    )
