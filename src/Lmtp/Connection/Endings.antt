-- ===== src/Lmtp/Connection/Endings.antt =====
-- A session comes to its end.
use xlistman.Prelude.{
  ℕ, zero, suc, ◌≡◌, ◌<◌, refl, Bool, true, false, Option, some, List, [], ◌∷◌, length, arith,
}
use xlistman.Strings.{Text, codes}
use xlistman.Result.{ok}
use xlistman.Env.{Env}
use xlistman.Effects.{World}
use xlistman.Effects.Yields.{Yields, Yields-pure, Yields-bind}
use xlistman.Lmtp.Connection.{
  LmtpConn, Reply, ReplyText, send, while_open, next_line, loop, serve, accepted,
}
use xlistman.Lmtp.Connection.Session.{Addressed, Left, run_line-Yields}

module _ (env : Env) where
  abbrev Ended : Option LmtpConn → Type 0
  Ended o = (c : LmtpConn) × (o ≡ some c)

  open-Ends :
      (fuel : ℕ) (p : LmtpConn × Bool)
      → Addressed p.0
      → length p.0.lines < fuel
      → ((c : LmtpConn) → Addressed c → length c.lines < fuel → Yields Ended (loop env fuel c))
      → Yields Ended (while_open env (loop env fuel) p)
  open-Ends fuel (c, true) a h again = again c a h
  open-Ends fuel (c, false) a h again = Yields-pure _ _ (c, refl)

  next_line-Ends :
      (fuel : ℕ) (lines : List Text) (c : LmtpConn)
      → Addressed c
      → length lines < suc fuel
      → ((c : LmtpConn) → Addressed c → length c.lines < fuel → Yields Ended (loop env fuel c))
      → Yields Ended (next_line env (loop env fuel) lines c)
  next_line-Ends fuel [] c a h again = Yields-pure _ _ (c, refl)
  next_line-Ends fuel (line ∷ rest) c a h again =
      Yields-bind (λ (p : LmtpConn × Bool). Left (record c { lines = rest }) p.0) Ended _ _
        (run_line-Yields env line (record c { lines = rest }) a)
        (λ p k. open-Ends fuel p k.0 (omega (arith, h, k.1)) again)

  loop-Ends :
      (fuel : ℕ) (c : LmtpConn)
      → Addressed c
      → length c.lines < fuel
      → Yields Ended (loop env fuel c)
  unfolding loop
  loop-Ends zero c a h = absurd (omega (arith, h))
  loop-Ends (suc fuel) c a h = next_line-Ends fuel c.lines c a h (loop-Ends fuel)

abbrev greeting : List Reply
greeting = record { code = 220; text = ReplyText.plain (codes "xMailman LMTP ready") } ∷ []

-- A session comes to its end, without an error, whatever its lines are, whatever the
-- handlers return and whatever statements the database refuses: one round of the loop more than there are
-- lines is enough.
pub serve-ends :
    (env : Env) (fuel : ℕ) (lines : List Text) (w : World)
    → length lines < fuel
    → (c : LmtpConn) × ((serve env fuel (accepted lines) w).0 ≡ ok (some c))
unfolding serve send
serve-ends env fuel lines w h =
    let (o, e, (c, f)) =
      (loop-Ends env fuel (record (accepted lines) { replies = greeting }) (λ _. refl) h).at w in
    (c, rw (e, f) refl)
