-- ===== src/Lmtp/Connection/Data.antt =====
-- handleData: what is read between DATA and the lone dot, and the replies behind it.
use xlistman.Prelude.{
  ℕ, ◌≡◌, refl, Bool, false, some, List, [], ◌∷◌, ◌++◌, ◌==◌, map, length, All, append_assoc,
  append-nil, if◌then◌else◌, arith,
}
use xlistman.Strings.{Text, codes, text_eq, is_empty, strip_prefix, has_prefix, text_eq_refl}
use xlistman.Result.{Result, ok, err}
use xlistman.Headers.{trim_end}
use xlistman.Env.{Env, concat, crlf}
use xlistman.Effects.{World, ◌>>=◌, pure, attempt}
use xlistman.Lmtp.Handlers.{process_recipient}
use xlistman.Lmtp.Connection.{
  Reply, ReplyText, LmtpConn, send, reset, trim_line, behind, unstuffed, read_message, status_reply,
  each_recipient, handle_data,
}

-- A line as RFC 5321 has a client send it: a dot before a dot that begins it.
abbrev pub stuffed : Text → Text
stuffed [] = []
stuffed (c ∷ s) = if c == b'.' then b'.' ∷ c ∷ s else c ∷ s

abbrev pub line_sent : Text → Text
line_sent line = stuffed line ++ crlf

abbrev pub lone_dot : Text
lone_dot = b'.' ∷ crlf

abbrev pub line_received : Text → Text
line_received line = line ++ crlf

-- The line has no line break at its end.
abbrev pub Bare : Text → Type 0
Bare line = trim_line line ≡ line

trim_end-append :
    (p : ℕ → Bool) (s t : Text) → trim_end p t ≡ [] → trim_end p (s ++ t) ≡ trim_end p s
unfolding trim_end
trim_end-append p [] t h = h
trim_end-append p (c ∷ s) t h = rw (trim_end-append p s t h) refl

trim_line-crlf : (s : Text) → trim_line (s ++ crlf) ≡ trim_line s
unfolding trim_line trim_end is_empty
trim_line-crlf s = trim_end-append _ s crlf refl

stuffed-Bare : (line : Text) → Bare line → Bare (stuffed line)
unfolding trim_line trim_end is_empty
stuffed-Bare [] h = h
stuffed-Bare (c ∷ s) h = ground (arith, h)

sent-Bare : (line : Text) → Bare line → trim_line (line_sent line) ≡ stuffed line
sent-Bare line h = rw (trim_line-crlf (stuffed line)) (stuffed-Bare line h)

stuffed_not_dot : (line : Text) → text_eq (stuffed line) (codes ".") ≡ false
unfolding text_eq
stuffed_not_dot [] = refl
stuffed_not_dot (c ∷ s) = ground arith

unstuffed-stuffed : (line : Text) → unstuffed (stuffed line) ≡ line
unfolding unstuffed has_prefix strip_prefix behind
unstuffed-stuffed [] = refl
unstuffed-stuffed (c ∷ s) = ground arith

trim-lone_dot : trim_line lone_dot ≡ codes "."
unfolding trim_line trim_end is_empty
trim-lone_dot = refl

-- The lines of a message, none with a line break at its end, sent the way RFC 5321 says and ended by
-- a lone dot, are read back as they were, each with its line break, and what comes behind the lone dot
-- is left to the next command: no line of the message, not one that is a lone dot itself, ends it.
pub read_message-stuffed :
    (message rest : List Text)
    → All Bare message
    → read_message (map line_sent message ++ lone_dot ∷ rest)
      ≡ some (concat (map line_received message), rest)
unfolding read_message concat
read_message-stuffed [] rest h = rw (trim-lone_dot, text_eq_refl (codes ".")) refl
read_message-stuffed (line ∷ message) rest h =
    rw
      (
        sent-Bare line h.0,
        stuffed_not_dot line,
        unstuffed-stuffed line,
        read_message-stuffed message rest h.1,
        append_assoc line crlf (concat (map line_received message)),
      )
      refl

-- processRecipient for each recipient in turn, with the reply to each.
abbrev pub reply_to : Result Unit → Reply
reply_to (ok _) = record { code = 250; text = ReplyText.plain (codes "OK") }
reply_to (err e) = record { code = 550; text = ReplyText.failed e }

abbrev pub deliveries : Env → Text → List Text → World → List Reply × World
deliveries env raw [] w = ([], w)
deliveries env raw (rcpt ∷ rcpts) w =
    let (r, w') = process_recipient env rcpt raw w in
    let (replies, w'') = deliveries env raw rcpts w' in (reply_to r ∷ replies, w'')

abbrev pub say_go_on : Reply
say_go_on = record { code = 354; text = ReplyText.plain (codes "Start mail input") }

pub length-deliveries :
    (env : Env) (raw : Text) (rcpts : List Text) (w : World)
    → length (deliveries env raw rcpts w).0 ≡ length rcpts
length-deliveries env raw [] w = refl
length-deliveries env raw (rcpt ∷ rcpts) w =
    omega (arith, length-deliveries env raw rcpts (process_recipient env rcpt raw w).1)

status_reply_lem :
    (r : Result Unit) (c : LmtpConn)
    → status_reply r c ≡ record c { replies = c.replies ++ reply_to r ∷ [] }
unfolding send
status_reply_lem (ok _) c = refl
status_reply_lem (err e) c = refl

pub each_recipient-deliveries :
    (env : Env) (raw : Text) (rcpts : List Text) (c : LmtpConn) (w : World)
    → each_recipient env raw rcpts c w ≡ (
      ok (record c { replies = c.replies ++ (deliveries env raw rcpts w).0 }),
      (deliveries env raw rcpts w).1,
    )
unfolding each_recipient pure ◌>>=◌ attempt
each_recipient-deliveries env raw [] c w = rw (append-nil c.replies) refl
each_recipient-deliveries env raw (rcpt ∷ rcpts) c w =
    rw
      (
        status_reply_lem (process_recipient env rcpt raw w).0 c,
        each_recipient-deliveries env raw rcpts
            (record c { replies = c.replies ++ reply_to (process_recipient env rcpt raw w).0 ∷ [] })
            (process_recipient env rcpt raw w).1,
        append_assoc c.replies (reply_to (process_recipient env rcpt raw w).0 ∷ [])
            (deliveries env raw rcpts (process_recipient env rcpt raw w).1).0,
      )
      refl

-- To a message for one recipient or more, if it is read to its lone dot, the server first answers 354
-- and then gives one reply for each recipient, in their order: 250 if processRecipient
-- took the message for this recipient and 550 with its error if not, each recipient processed
-- after the one before whatever became of that. The sender and the recipients are then forgotten.
pub handle_data-replies :
    (env : Env) (c : LmtpConn) (rcpt : Text) (rcpts : List Text) (raw : Text) (rest : List Text)
    (w : World)
    → c.rcpt_tos ≡ rcpt ∷ rcpts
    → read_message c.lines ≡ some (raw, rest)
    → (handle_data env c w ≡ (
      ok (record {
        lines = rest;
        replies = (c.replies ++ say_go_on ∷ []) ++ (deliveries env raw (rcpt ∷ rcpts) w).0;
        mail_from = [];
        mail_set = false;
        rcpt_tos = [];
      }),
      (deliveries env raw (rcpt ∷ rcpts) w).1,
    ))
      × (length (deliveries env raw (rcpt ∷ rcpts) w).0 ≡ length c.rcpt_tos)
unfolding handle_data send reset pure ◌>>=◌
handle_data-replies env c rcpt rcpts raw rest w e h = (
  rw
      (
        e,
        h,
        each_recipient-deliveries env raw (rcpt ∷ rcpts)
            (record c {
              lines = rest;
              replies = c.replies ++ say_go_on ∷ [];
              rcpt_tos = rcpt ∷ rcpts;
            })
            w,
      )
      refl,
  rw e (length-deliveries env raw (rcpt ∷ rcpts) w),
)
