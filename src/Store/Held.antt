-- ===== src/Store/Held.antt =====
-- Held messages.
use xlistman.Prelude.{
  ℕ, ◌+◌, Bool, ◌&&◌, ◌||◌, List, map, ◌==◌, ltb, leb, length, keep, if◌then◌else◌,
}
use xlistman.Strings.{Text, text_eq}
use xlistman.Result.{ok}
use xlistman.Model.{Time, HeldMessage}
use xlistman.Effects.Tables.{order_by, delete}
use xlistman.Effects.{M, ◌>>=◌, pure, now, generate_token, statement}
use xlistman.Store.Access.{Place, held_messages, create, find_first, find_all, delete_rows}

unfoldable pub create_held_message : ℕ → Text → Text → Text → Time → M HeldMessage
create_held_message list_id sender subject body expires_at = do
  token ← generate_token
  t ← now
  create held_messages (λ m. text_eq m.token token)
      (λ id. record {
        id = id;
        list_id = list_id;
        token = token;
        sender = sender;
        subject = subject;
        body = body;
        received_at = t;
        expires_at = expires_at;
      })

unfoldable pub list_held_messages : ℕ → M (List HeldMessage)
list_held_messages list_id = do
  found ← find_all held_messages (λ m. m.list_id == list_id)
  pure (order_by (λ (a b : HeldMessage). ltb a.received_at b.received_at) found)

-- LOWER of SQLite, which knows the ASCII letters
unfoldable pub lower_ascii : Text → Text
lower_ascii = map (λ c. if leb b'A' c && leb c b'Z' then c + 32 else c)

unfoldable pub list_held_messages_by_sender : Text → M (List HeldMessage)
list_held_messages_by_sender sender = do
  found ← find_all held_messages (λ m. text_eq (lower_ascii m.sender) (lower_ascii sender))
  pure (
      order_by
        (λ (a b : HeldMessage).
          ltb b.received_at a.received_at || (a.received_at == b.received_at && ltb b.id a.id))
        found)

unfoldable pub get_held_message_by_token : Text → M HeldMessage
get_held_message_by_token token = find_first held_messages (λ m. text_eq m.token token)

unfoldable pub get_held_message_by_id : ℕ → M HeldMessage
get_held_message_by_id id = find_first held_messages (λ m. m.id == id)

unfoldable pub delete_held_message : ℕ → M Unit
delete_held_message id = delete_rows held_messages (λ m. m.id == id)

-- The three sweepers return how many rows they removed.
unfoldable pub sweep : {A : Type 0} → Place A → (A → Bool) → M ℕ
sweep place expired =
    statement λ d.
      (ok (length (keep expired (place.get d).rows)), place.put (delete expired (place.get d)) d)

unfoldable pub delete_expired_held_messages : Time → M ℕ
delete_expired_held_messages t = sweep held_messages (λ m. ltb m.expires_at t)
