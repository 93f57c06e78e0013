-- ===== src/Lmtp/Connection.antt =====
-- lmtpConn of internal/mail/lmtp.go: a connection's commands, from the greeting to its end.
pub mod Data
pub mod Session
pub mod Keeping
pub mod Endings
use xlistman.Prelude.{
  ℕ, zero, suc, Bool, true, false, not, ◌||◌, Option, none, some, List, [], ◌∷◌, ◌++◌, ◌==◌,
  if◌then◌else◌,
}
use xlistman.Strings.{Text, codes, text_eq, strip_prefix, has_prefix, cut}
use xlistman.Result.{Result, ok, err, Error}
use xlistman.Headers.{trim_start, trim_end}
use xlistman.Env.{Env, crlf}
use xlistman.Effects.{M, ◌>>=◌, pure, attempt}
use xlistman.Lmtp.Handlers.{process_recipient}

pub data ReplyText : Type 0 where
  plain : Text → ReplyText
  -- fmt.Sprintf("Failed: %v", err)
  failed : Error → ReplyText

pub record Reply : Type 0 where
  pub code : ℕ
  pub text : ReplyText

-- `lines` is what the reader has still to give, as ReadString returns it; behind the last line it
-- returns an error. `replies` is what was written.
pub record LmtpConn : Type 0 where
  pub lines : List Text
  pub replies : List Reply
  pub mail_from : Text
  pub mail_set : Bool
  pub rcpt_tos : List Text

unfoldable pub send : ℕ → ReplyText → LmtpConn → LmtpConn
send code text c = record c { replies = c.replies ++ record { code = code; text = text } ∷ [] }

abbrev pub say : ℕ → Text → LmtpConn → LmtpConn
say code text = send code (plain text)

-- Forgets the sender and the recipients.
unfoldable pub reset : LmtpConn → LmtpConn
reset c = record c { mail_from = []; mail_set = false; rcpt_tos = [] }

-- strings.TrimRight(line, "\r\n")
unfoldable pub trim_line : Text → Text
trim_line = trim_end (λ c. c == 13 || c == 10)

-- s[n:]
unfoldable pub behind : ℕ → Text → Text
behind zero s = s
behind (suc n) [] = []
behind (suc n) (c ∷ s) = behind n s

-- strings.Trim(addr, "<>")
unfoldable pub trim_angles : Text → Text
trim_angles s = trim_end (λ c. c == b'<' || c == b'>') (trim_start (λ c. c == b'<' || c == b'>') s)

-- strings.SplitN(line, " ", 2): the command and its argument
unfoldable pub command_of : Text → Text × Text
command_of line = elim (cut (codes " ") line) [ some parts ↦ parts | none ↦ (line, []) ]

-- Unstuff leading dots.
unfoldable pub unstuffed : Text → Text
unstuffed line = if has_prefix (codes "..") line then behind 1 line else line

abbrev pub with_line : Text → Option (Text × List Text) → Option (Text × List Text)
with_line line none = none
with_line line (some (message, rest)) = some (line ++ (crlf ++ message), rest)

-- The message up to the lone dot, and the lines behind it; none where the reader fails before.
unfoldable pub read_message : List Text → Option (Text × List Text)
read_message [] = none
read_message (line ∷ lines) =
    let more = read_message lines in
    let stripped = trim_line line in
    if text_eq stripped (codes ".") then some ([], lines) else with_line (unstuffed stripped) more

-- The reply to what processRecipient returned.
abbrev pub status_reply : Result Unit → LmtpConn → LmtpConn
status_reply (ok _) = say 250 (codes "OK")
status_reply (err e) = send 550 (failed e)

module _ (env : Env) where
  unfoldable pub handle_mail : Text → LmtpConn → LmtpConn
  handle_mail arg c =
      if not (has_prefix (codes "FROM:") (env.to_upper arg))
      then say 501 (codes "Syntax error") c
      else say 250 (codes "OK") (record c {
        mail_from = trim_angles (env.trim_space (behind 5 arg));
        mail_set = true;
        rcpt_tos = [];
      })

  unfoldable pub handle_rcpt : Text → LmtpConn → LmtpConn
  handle_rcpt arg c =
      if not c.mail_set
      then say 503 (codes "MAIL first") c
      else if not (has_prefix (codes "TO:") (env.to_upper arg))
      then say 501 (codes "Syntax error") c
      else say 250 (codes "OK")
          (record c { rcpt_tos = c.rcpt_tos ++ trim_angles (env.trim_space (behind 3 arg)) ∷ [] })

  -- Process each recipient and return per-recipient status.
  unfoldable pub each_recipient : Text → List Text → LmtpConn → M LmtpConn
  each_recipient raw [] c = pure c
  each_recipient raw (rcpt ∷ rcpts) c = do
    r ← attempt (process_recipient env rcpt raw)
    each_recipient raw rcpts (status_reply r c)

  abbrev pub message_read : Option (Text × List Text) → LmtpConn → M LmtpConn
  message_read none c = pure (record c { lines = [] })
  message_read (some (raw, rest)) c = do
    c' ← each_recipient raw c.rcpt_tos (record c { lines = rest })
    pure (reset c')

  abbrev pub take_message : LmtpConn → M LmtpConn
  take_message c = message_read (read_message c.lines) c

  unfoldable pub handle_data : LmtpConn → M LmtpConn
  handle_data c = elim c.rcpt_tos [
    | [] ↦ pure (say 503 (codes "RCPT first") c)
    | _ ∷ _ ↦ take_message (say 354 (codes "Start mail input") c)
  ]

  abbrev pub go_on_with : LmtpConn → M (LmtpConn × Bool)
  go_on_with c = pure (c, true)

  -- The switch of `serve`; false is its `return`.
  unfoldable pub run_command : Text → Text → LmtpConn → M (LmtpConn × Bool)
  run_command cmd arg c =
      if text_eq cmd (codes "LHLO")
      then go_on_with (say 250 (codes "xMailman") c)
      else if text_eq cmd (codes "MAIL")
      then go_on_with (handle_mail arg c)
      else if text_eq cmd (codes "RCPT")
      then go_on_with (handle_rcpt arg c)
      else if text_eq cmd (codes "DATA")
      then handle_data c >>= go_on_with
      else if text_eq cmd (codes "RSET")
      then go_on_with (say 250 (codes "OK") (reset c))
      else if text_eq cmd (codes "NOOP")
      then go_on_with (say 250 (codes "OK") c)
      else if text_eq cmd (codes "QUIT")
      then pure (say 221 (codes "Bye") c, false)
      else go_on_with (say 500 (codes "Unknown command") c)

  unfoldable pub run_line : Text → LmtpConn → M (LmtpConn × Bool)
  run_line line c =
      let (cmd, arg) = command_of (trim_line line) in run_command (env.to_upper cmd) arg c

  abbrev pub while_open : (LmtpConn → M (Option LmtpConn)) → LmtpConn × Bool → M (Option LmtpConn)
  while_open loop (c, true) = loop c
  while_open loop (c, false) = pure (some c)

  -- One round of the loop of `serve`.
  abbrev pub next_line :
      (LmtpConn → M (Option LmtpConn)) → List Text → LmtpConn → M (Option LmtpConn)
  next_line loop [] c = pure (some c)
  next_line loop (line ∷ rest) c = run_line line (record c { lines = rest }) >>= while_open loop

  -- The loop, on fuel: none where the fuel is used up.
  unfoldable pub loop : ℕ → LmtpConn → M (Option LmtpConn)
  loop zero c = pure none
  loop (suc fuel) c = next_line (loop fuel) c.lines c

  unfoldable pub serve : ℕ → LmtpConn → M (Option LmtpConn)
  serve fuel c = loop fuel (say 220 (codes "xMailman LMTP ready") c)

-- handleConn: the connection as it is accepted
abbrev pub accepted : List Text → LmtpConn
accepted lines = record {
  lines = lines;
  replies = [];
  mail_from = [];
  mail_set = false;
  rcpt_tos = [];
}
