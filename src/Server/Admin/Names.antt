-- ===== src/Server/Admin/Names.antt =====
-- validDomainName and validListName of internal/server/admin.go.
use xlistman.Prelude.{ℕ, Bool, true, false, not, ◌&&◌, ◌||◌, [], ◌∷◌, ◌==◌, leb, any}
use xlistman.Strings.{Text, is_empty}

-- [a-z0-9]
abbrev pub is_alphanumeric : ℕ → Bool
is_alphanumeric c = (leb b'a' c && leb c b'z') || (leb b'0' c && leb c b'9')

-- ([…]*[a-z0-9])?$, where the brackets have `inner` beside the letters and the digits
unfoldable pub matches_rest : (ℕ → Bool) → Text → Bool
matches_rest inner [] = true
matches_rest inner (c ∷ []) = is_alphanumeric c
matches_rest inner (c ∷ d ∷ s) = (is_alphanumeric c || inner c) && matches_rest inner (d ∷ s)

-- ^[a-z0-9] in front of it
unfoldable pub matches_name : (ℕ → Bool) → Text → Bool
matches_name inner [] = false
matches_name inner (c ∷ s) = is_alphanumeric c && matches_rest inner s

unfoldable pub valid_domain_name : Text → Bool
valid_domain_name name =
    not (is_empty name)
    && (any (λ c. c == b'.') name && matches_name (λ c. c == b'.' || c == b'-') name)

unfoldable pub valid_list_name : Text → Bool
valid_list_name name =
    not (is_empty name) && matches_name (λ c. c == b'.' || (c == b'_' || c == b'-')) name
