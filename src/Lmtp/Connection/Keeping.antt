-- ===== src/Lmtp/Connection/Keeping.antt =====
-- What a session of any length keeps, and what it does before a sender is named.
use xlistman.Prelude.{
  ℕ, zero, suc, ◌≡◌, ◌∙◌, refl, Bool, true, false, Option, none, some, List, [], ◌∷◌, if◌then◌else◌,
}
use xlistman.Strings.{Text}
use xlistman.Result.{Result, ok, err}
use xlistman.Env.{Env}
use xlistman.Effects.{World, M, continue, ◌>>=◌, pure}
use xlistman.Effects.Keeps.{
  Relation, IsPreorder, Keeps, Keeps-pure, Keeps-bind, Keeps-attempt, keeps_rules,
}
use xlistman.Handlers.Rules.{StoreKeeps}
use xlistman.Handlers.Inbound.{process_recipient-Keeps}
use xlistman.Handlers.AuditTrail.{LogsGrow, grows, logs_keep}
use xlistman.Handlers.Authority.{SameAuthority, same_authority, authority_keeps}
use xlistman.Lmtp.Connection.{
  LmtpConn, status_reply, each_recipient, message_read, handle_data, run_command, run_line,
  while_open, next_line, loop, serve, accepted,
}
use xlistman.Lmtp.Connection.Session.{Reachable, Reachable-Addressed}

module _ {R : Relation} ⦃o : IsPreorder R⦄ (k : StoreKeeps R) (env : Env) where
  each_recipient-Keeps :
      (raw : Text) (rcpts : List Text) (c : LmtpConn) → Keeps R (each_recipient env raw rcpts c)
  unfolding each_recipient
  each_recipient-Keeps raw [] c = Keeps-pure c
  each_recipient-Keeps raw (rcpt ∷ rcpts) c =
      Keeps-bind _ _ (Keeps-attempt _ (process_recipient-Keeps k env rcpt raw))
        (λ r. each_recipient-Keeps raw rcpts (status_reply r c))

  message_read-Keeps :
      (m : Option (Text × List Text)) (c : LmtpConn) → Keeps R (message_read env m c)
  message_read-Keeps none c = Keeps-pure _
  message_read-Keeps (some (raw, rest)) c =
      Keeps-bind _ _ (each_recipient-Keeps raw c.rcpt_tos _) (λ c'. Keeps-pure _)

  data_given-Keeps :
      (rcpts : List Text) (c : LmtpConn) → c.rcpt_tos ≡ rcpts → Keeps R (handle_data env c)
  unfolding handle_data
  data_given-Keeps [] c e = rw e (Keeps-pure _)
  data_given-Keeps (rcpt ∷ rcpts) c e = rw e (message_read-Keeps _ _)

  data-Keeps : (c : LmtpConn) → Keeps R (handle_data env c)
  data-Keeps c = data_given-Keeps c.rcpt_tos c refl

  run_line-Keeps : (line : Text) (c : LmtpConn) → Keeps R (run_line env line c)
  unfolding run_line run_command
  run_line-Keeps line c = search (keeps_rules, data-Keeps) depth 14

  open-Keeps :
      (next : LmtpConn → M (Option LmtpConn)) (p : LmtpConn × Bool)
      → ((c : LmtpConn) → Keeps R (next c))
      → Keeps R (while_open env next p)
  open-Keeps next (c, true) h = h c
  open-Keeps next (c, false) h = Keeps-pure _

  next_line-Keeps :
      (next : LmtpConn → M (Option LmtpConn)) (lines : List Text) (c : LmtpConn)
      → ((c : LmtpConn) → Keeps R (next c))
      → Keeps R (next_line env next lines c)
  next_line-Keeps next [] c h = Keeps-pure _
  next_line-Keeps next (line ∷ rest) c h =
      Keeps-bind _ _ (run_line-Keeps line _) (λ p. open-Keeps next p h)

  loop-Keeps : (fuel : ℕ) (c : LmtpConn) → Keeps R (loop env fuel c)
  unfolding loop
  loop-Keeps zero c = Keeps-pure _
  loop-Keeps (suc fuel) c = next_line-Keeps (loop env fuel) c.lines c (loop-Keeps fuel)

  pub serve-Keeps : (fuel : ℕ) (c : LmtpConn) → Keeps R (serve env fuel c)
  unfolding serve
  serve-Keeps fuel c = loop-Keeps fuel _

-- Whatever lines a client sends in a session, and whatever statements the database refuses: the
-- audit events, the archived and the queued messages from before are all there afterwards, unchanged
-- and in order, and the domains, lists, settings, roles, credentials and switches are as they were.
pub serve-LogsGrow-SameAuthority :
    (env : Env) (fuel : ℕ) (lines : List Text) (w : World)
    → LogsGrow w.db (serve env fuel (accepted lines) w).1.db
      × SameAuthority w.db (serve env fuel (accepted lines) w).1.db
serve-LogsGrow-SameAuthority env fuel lines w = (
  (serve-Keeps logs_keep env fuel (accepted lines)).at w,
  (serve-Keeps authority_keeps env fuel (accepted lines)).at w,
)

-- The action leaves the world alone, the statements to come included.
record Idle {A : Type 0} (m : M A) : Type 0 where
  at : (w : World) → (m w).1 ≡ w

module _ {A : Type 0} where
  Idle-pure : (a : A) → Idle (pure a)
  unfolding pure
  Idle-pure a = record { at = λ w. refl }

  Idle-if : (b : Bool) (m n : M A) → Idle m → Idle n → Idle (if b then m else n)
  Idle-if true m n h k = h
  Idle-if false m n h k = k

module _ {A B : Type 0} where
  continue-idle : (r : Result A) (f : A → B) (w : World) → (continue r (λ a. pure (f a)) w).1 ≡ w
  unfolding pure
  continue-idle (ok a) f w = refl
  continue-idle (err e) f w = refl

  Idle-map : (m : M A) (f : A → B) → Idle m → Idle (m >>= λ a. pure (f a))
  unfolding ◌>>=◌
  Idle-map m f h = record { at = λ w. continue-idle (m w).0 f (m w).1 ∙ h.at w }

module _ (env : Env) where
  data-Idle : (c : LmtpConn) → c.rcpt_tos ≡ [] → Idle (handle_data env c)
  unfolding handle_data
  data-Idle c e = rw e (Idle-pure _)

  run_line-Idle : (line : Text) (c : LmtpConn) → c.rcpt_tos ≡ [] → Idle (run_line env line c)
  unfolding run_line run_command
  run_line-Idle line c e = search (Idle-pure, Idle-if, Idle-map, data-Idle, e) depth 14

-- In a state that a session can reach and in which no sender is set (no MAIL was accepted yet, or a
-- finished DATA or an RSET has forgotten it), no line whatever has an effect: the world is left as
-- it was.
pub run_line-unaddressed :
    (env : Env) (lines : List Text) (c : LmtpConn) (w : World) (line : Text) (rest : List Text)
    → Reachable env lines c w
    → c.mail_set ≡ false
    → (run_line env line (record c { lines = rest }) w).1 ≡ w
run_line-unaddressed env lines c w line rest r e =
    (run_line-Idle env line (record c { lines = rest }) (Reachable-Addressed env lines c w r e)).at
      w
