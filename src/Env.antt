-- ===== src/Env.antt =====
-- What the handlers are given: the configuration, the functions of Go's standard library on mail
-- and text that are not modelled, and the part of the program that parses and rewrites MIME messages
-- (internal/mailparse and internal/mail/modify.go). The handlers use them through this interface.
use xlistman.Prelude.{ℕ, Bool, List, [], ◌∷◌, ◌++◌, Option}
use xlistman.Strings.{Text}
use xlistman.Model.{Time, MailingList}

-- net/mail.Message: `Header.Get`, and the body read to its end
pub record Message : Type 0 where
  pub header : Text → Text
  pub body : Text

pub record Env : Type 0 where
  -- Pipeline.WebBaseURL
  pub web_base_url : Text
  -- net/mail: ReadMessage, ParseAddress
  pub read_message : Text → Option Message
  pub parse_mail_address : Text → Option Text
  -- strings: EqualFold, ToLower, ToUpper, TrimSpace, Fields, NewReplacer
  pub equal_fold : Text → Text → Bool
  pub to_lower : Text → Text
  pub to_upper : Text → Text
  pub trim_space : Text → Text
  pub fields : Text → List Text
  pub replace_all : List (Text × Text) → Text → Text
  -- time.Format(time.RFC1123Z), %d, %3d, %q
  pub rfc1123z : Time → Text
  pub decimal : ℕ → Text
  pub decimal_wide : ℕ → Text
  pub quoted : Text → Text
  -- mime/multipart: the encoded parts, each with its header lines, and the boundary
  pub multipart : List (List (Text × Text) × Text) → Text × Text
  -- mailparse.ValidatePostPolicy, mailparse.ExtractText
  pub validate_post_policy : MailingList → Text → Text
  pub extract_text : Text → Text
  -- ModifyMessage, with the list and the unsubscribe URL of its options
  pub modify_message : MailingList → Text → Text → Option Text

unfoldable pub concat : List Text → Text
concat [] = []
concat (t ∷ ts) = t ++ concat ts

unfoldable pub join : Text → List Text → Text
join separator [] = []
join separator (t ∷ []) = t
join separator (t ∷ u ∷ ts) = t ++ (separator ++ join separator (u ∷ ts))

abbrev pub newline : Text
newline = 10 ∷ []

abbrev pub crlf : Text
crlf = 13 ∷ 10 ∷ []

abbrev pub quote : Text
quote = 34 ∷ []
