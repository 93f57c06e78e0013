-- ===== src/Server/Http.antt =====
-- Requests and responses, and the helpers at the end of internal/server/server.go.
use xlistman.Prelude.{
  ℕ, zero, suc, Bool, Option, none, some, List, [], ◌∷◌, ◌++◌, ◌==◌, if◌then◌else◌,
}
use xlistman.Strings.{Text, codes, text_eq, is_empty, strip_prefix}
use xlistman.Result.{Error}
use xlistman.Env.{Env, concat, crlf}
use xlistman.Effects.{M, ◌>>=◌, pure, now}
use xlistman.Model.{Time}

-- A number that a client may send.
pub data ℤ : Type 0 where
  pos negsuc : ℕ → ℤ

-- net/http.Request: the method, the path, the parameters of the query and the session cookie (empty
-- where there is none), the body, and the peer.
pub record Request : Type 0 where
  pub method : Text
  pub path : Text
  pub query : Text → Text
  pub cookie : Text
  pub body : Text
  pub remote_addr : Text

pub data Value : Type 0 where
  text : Text → Value
  number : ℕ → Value
  flag : Bool → Value
  texts : List Text → Value
  -- an error's message
  message : Error → Value

abbrev pub Row : Type 0
Row = List (Text × Value)

pub data Content : Type 0 where
  -- http.Error, http.NotFound: a fixed text
  plain : Text → Content
  -- http.Redirect
  location : Text → Content
  -- writeJSON of a map, of a slice, and of a map with slices
  object : Row → Content
  rows : List Row → Content
  object_with : Row → List (Text × List Row) → Content
  -- writeJSON of a map with a map in it, and a file: its type, its Content-Disposition, its bytes
  nested : Row → Text → Row → Content
  file : Text → Text → Text → Content

-- What a handler does to the session cookie.
pub data CookieChange : Type 0 where
  unchanged cleared : CookieChange
  -- its value, how long it is kept, and whether it is Secure
  set_to : Text → Time → Bool → CookieChange

pub record Response : Type 0 where
  pub status : ℕ
  pub content : Content
  pub cookie : CookieChange
  -- Retry-After, not yet rounded to seconds
  pub retry_after : Option Time

abbrev pub respond : ℕ → Content → Response
respond status content = record {
  status = status;
  content = content;
  cookie = CookieChange.unchanged;
  retry_after = none;
}

-- writeJSON(w, status, map[string]string{"error": …}), and with "status"
abbrev pub json_error : ℕ → Text → Response
json_error status t = respond status (Content.object ((codes "error", Value.text t) ∷ []))

abbrev pub json_status : ℕ → Text → Response
json_status status t = respond status (Content.object ((codes "status", Value.text t) ∷ []))

-- writeJSON(w, status, map[string]string{"error": err.Error()})
abbrev pub json_failure : ℕ → Error → Response
json_failure status e = respond status (Content.object ((codes "error", Value.message e) ∷ []))

abbrev pub not_found_page : Response
not_found_page = respond 404 (Content.plain (codes "404 page not found"))

abbrev pub method_not_allowed : Response
method_not_allowed = respond 405 (Content.plain (codes "method not allowed"))

-- http.Redirect with http.StatusFound
abbrev pub redirect : Text → Response
redirect url = respond 302 (Content.location url)

-- writeRateLimited
abbrev pub rate_limited : Time → Response
rate_limited delay = record (json_error 429 (codes "rate limit exceeded")) {
  retry_after = some delay;
}

-- What the handlers are given: the mail functions, config.Web.BaseURL, whether cookies are Secure, and
-- from Go's standard library: the string in one field of a JSON object, numbers in decimal, and the
-- host of an address.
pub record Web : Type 0 where
  pub env : Env
  pub base_url : Text
  pub cookie_secure : Bool
  -- json.NewDecoder(r.Body).Decode into a struct with this one string field
  pub decode_text : Text → Text → Option Text
  -- strconv.ParseInt, strconv.Atoi
  pub parse_int : Text → Option ℤ
  -- net.SplitHostPort
  pub host_of : Text → Option Text
  -- strings.Contains(err.Error(), …)
  pub error_contains : Error → Text → Bool

-- strings.Split
unfoldable pub split_at_from : ℕ → Text → Text → List Text
split_at_from separator part [] = part ∷ []
split_at_from separator part (c ∷ s) =
    if c == separator
    then part ∷ split_at_from separator [] s
    else split_at_from separator (part ++ c ∷ []) s

abbrev trimmed : Text → Option Text → Text
trimmed path (some rest) = rest
trimmed path none = path

-- strings.Split(strings.TrimPrefix(path, prefix), "/")
unfoldable pub path_parts : Text → Text → List Text
path_parts prefix path = split_at_from b'/' [] (trimmed path (strip_prefix prefix path))

abbrev pub is_method : Text → Request → Bool
is_method m r = text_eq r.method m

-- The key of a row: no row has the key 0, nor a negative one.
abbrev pub row_key : ℤ → ℕ
row_key (ℤ.pos n) = n
row_key (ℤ.negsuc n) = 0

abbrev pub or_default : ℤ → Option ℤ → ℤ
or_default default none = default
or_default default (some n) = n

-- defaultInt
unfoldable pub default_int : ℤ → ℕ → ℕ
default_int (ℤ.pos zero) default = default
default_int (ℤ.pos (suc n)) default = suc n
default_int (ℤ.negsuc n) default = default

-- buildTextEmail
unfoldable pub build_text_email : Env → Text → Text → Text → Text → M Text
build_text_email env from to subject body = do
  t ← now
  pure (
      concat (
        codes "From: "
        ∷ from
        ∷ crlf
        ∷ codes "To: "
        ∷ to
        ∷ crlf
        ∷ codes "Subject: "
        ∷ subject
        ∷ crlf
        ∷ codes "Date: "
        ∷ env.rfc1123z t
        ∷ crlf
        ∷ crlf
        ∷ body
        ∷ []))

module _ (web : Web) where
  abbrev host_or : Text → Option Text → Text
  host_or address none = address
  host_or address (some host) = host

  -- clientIP
  unfoldable pub client_ip : Request → Text
  client_ip r = host_or r.remote_addr (web.host_of r.remote_addr)

  abbrev lowered : Option Text → Option Text
  lowered none = none
  lowered (some address) = some (web.env.to_lower address)

  -- normalizeEmail
  unfoldable pub normalize_email : Text → Option Text
  normalize_email raw = lowered (web.env.parse_mail_address (web.env.trim_space raw))

  -- queryIntDefault
  unfoldable pub query_int_default : Request → Text → ℕ → ℤ
  query_int_default r name default =
      let raw = r.query name in
      if is_empty raw then ℤ.pos default else or_default (ℤ.pos default) (web.parse_int raw)
