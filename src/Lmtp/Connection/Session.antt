-- ===== src/Lmtp/Connection/Session.antt =====
-- What a whole session keeps, and the order of its commands.
use xlistman.Prelude.{
  ℕ, suc, ◌≡◌, refl, sym, ◌∙◌, Bool, true, false, Option, none, some, List, [], ◌∷◌, if◌then◌else◌,
  arith, length, ◌≤◌,
}
use xlistman.Strings.{Text, codes}
use xlistman.Result.{ok}
use xlistman.Env.{Env}
use xlistman.Effects.{World, M, ◌>>=◌, pure}
use xlistman.Effects.Yields.{Yields, Yields-pure, Yields-if, Yields-bind, Yields-returned}
use xlistman.Lmtp.Connection.Data.{each_recipient-deliveries}
use xlistman.Lmtp.Connection.{
  ReplyText, LmtpConn, send, reset, read_message, handle_mail, handle_rcpt, each_recipient,
  message_read, with_line, handle_data, run_command, run_line, accepted,
}

-- A recipient is only there behind a sender.
abbrev pub Addressed : LmtpConn → Type 0
Addressed c = c.mail_set ≡ false → c.rcpt_tos ≡ []

-- The states a connection can be in, with the world as the session has left it.
pub data Reachable (env : Env) (lines : List Text) : LmtpConn → World → Type 0 where
  opened :
      {w : World}
      → Reachable env lines
          (send 220 (ReplyText.plain (codes "xMailman LMTP ready")) (accepted lines))
          w
  line_run :
      {line : Text} {rest : List Text} {before after : LmtpConn} {b : Bool} {earlier : World}
      → Reachable env lines before earlier
      → before.lines ≡ line ∷ rest
      → (run_line env line (record before { lines = rest }) earlier).0 ≡ ok (after, b)
      → Reachable env lines after (run_line env line (record before { lines = rest }) earlier).1

-- What a command leaves: a recipient only behind a sender, and no more lines than before.
abbrev pub Left : LmtpConn → LmtpConn → Type 0
Left c c' = Addressed c' × (length c'.lines ≤ length c.lines)

module _ (env : Env) where
  abbrev Runs : LmtpConn → M (LmtpConn × Bool) → Type 0
  Runs c m = Yields (λ (p : LmtpConn × Bool). Left c p.0) m

  handle_mail-Left : (arg : Text) (c : LmtpConn) → Addressed c → Left c (handle_mail env arg c)
  unfolding handle_mail send
  handle_mail-Left arg c h = (ground (arith, h), ground arith)

  handle_rcpt-Left : (arg : Text) (c : LmtpConn) → Addressed c → Left c (handle_rcpt env arg c)
  unfolding handle_rcpt send
  handle_rcpt-Left arg c h = (ground (arith, h), ground arith)

  each_recipient-Yields :
      (raw : Text) (rcpts : List Text) (c : LmtpConn)
      → Yields (λ c'. c'.lines ≡ c.lines) (each_recipient env raw rcpts c)
  each_recipient-Yields raw rcpts c = record {
    at = λ w. rw (each_recipient-deliveries env raw rcpts c w) (_, refl, refl);
  }

  with_line-shorter :
      (b : Bool) (line : Text) (more : Option (Text × List Text)) (lines : List Text) (raw : Text)
      (rest : List Text)
      → (if b then some ([], lines) else with_line line more) ≡ some (raw, rest)
      → ((raw' : Text) (rest' : List Text)
          → more ≡ some (raw', rest')
          → length rest' ≤ length lines)
      → length rest ≤ suc (length lines)
  with_line-shorter true line more lines raw rest e h = ground (arith, e)
  with_line-shorter false line none lines raw rest e h = ground (arith, e)
  with_line-shorter false line (some (raw', rest')) lines raw rest e h =
      ground (arith, e, h raw' rest' refl)

  read_message-shorter :
      (lines : List Text) (raw : Text) (rest : List Text)
      → read_message lines ≡ some (raw, rest)
      → length rest ≤ length lines
  unfolding read_message
  read_message-shorter [] raw rest h = ground (arith, h)
  read_message-shorter (line ∷ lines) raw rest h =
      with_line-shorter _ _ (read_message lines) lines raw rest h (read_message-shorter lines)

  message_read-Yields :
      (o : Option (Text × List Text)) (c : LmtpConn)
      → read_message c.lines ≡ o
      → Addressed c
      → Yields (Left c) (message_read env o c)
  unfolding reset
  message_read-Yields none c e h = Yields-pure _ _ (h, omega arith)
  message_read-Yields (some (raw, rest)) c e h =
      Yields-bind (λ (c' : LmtpConn). c'.lines ≡ rest) (Left c) _ _
        (each_recipient-Yields raw c.rcpt_tos (record c { lines = rest }))
        (λ c' same.
          Yields-pure _ _
            (λ _. refl, ground (arith, same, read_message-shorter c.lines raw rest e)))

  data_given-Yields :
      (rcpts : List Text) (c : LmtpConn)
      → c.rcpt_tos ≡ rcpts
      → Addressed c
      → Yields (Left c) (handle_data env c)
  unfolding handle_data send
  data_given-Yields [] c e h = rw e (Yields-pure _ _ (λ _. refl, omega arith))
  data_given-Yields (rcpt ∷ rcpts) c e h = rw e (message_read-Yields _ _ refl (λ f. sym e ∙ h f))

  replied-Yields :
      (code : ℕ) (text : ReplyText) (b : Bool) (c : LmtpConn)
      → Addressed c
      → Runs c (pure (send code text c, b))
  unfolding send
  replied-Yields code text b c h = Yields-pure _ _ (h, omega arith)

  mail_said-Yields :
      (arg : Text) (c : LmtpConn) → Addressed c → Runs c (pure (handle_mail env arg c, true))
  mail_said-Yields arg c h = Yields-pure _ _ (handle_mail-Left arg c h)

  rcpt_said-Yields :
      (arg : Text) (c : LmtpConn) → Addressed c → Runs c (pure (handle_rcpt env arg c, true))
  rcpt_said-Yields arg c h = Yields-pure _ _ (handle_rcpt-Left arg c h)

  data_said-Yields :
      (c : LmtpConn) → Addressed c → Runs c (handle_data env c >>= λ c'. pure (c', true))
  data_said-Yields c h =
      Yields-bind (Left c) _ (handle_data env c) (λ c'. pure (c', true))
        (data_given-Yields c.rcpt_tos c refl h) (λ c' k. Yields-pure _ _ k)

  reset_said-Yields :
      (code : ℕ) (text : ReplyText) (c : LmtpConn) → Runs c (pure (send code text (reset c), true))
  unfolding send reset
  reset_said-Yields code text c = Yields-pure _ _ (λ _. refl, omega arith)

  run_command-Yields :
      (cmd arg : Text) (c : LmtpConn) → Addressed c → Runs c (run_command env cmd arg c)
  unfolding run_command
  run_command-Yields cmd arg c h =
      search
        (
          Yields-if, mail_said-Yields, rcpt_said-Yields, data_said-Yields, reset_said-Yields,
          replied-Yields, h,
        )
        depth 12

  pub run_line-Yields : (line : Text) (c : LmtpConn) → Addressed c → Runs c (run_line env line c)
  unfolding run_line
  run_line-Yields line c h = run_command-Yields _ _ c h

  pub Reachable-Addressed :
      (lines : List Text) (c : LmtpConn) (w : World) → Reachable env lines c w → Addressed c
  unfolding send
  Reachable-Addressed lines c w opened = λ _. refl
  Reachable-Addressed lines c w (line_run {line} {rest} {before} {after} {b} {earlier} r e h) =
      (Yields-returned _ _ earlier (after, b)
        (run_line-Yields line (record before { lines = rest })
          (Reachable-Addressed lines before earlier r))
        h).0
