-- ===== src/Lmtp/Commands/Roster.antt =====
-- Who may see the roster.
use xlistman.Prelude.{ℕ, ◌≡◌, refl, Bool, false, ◌||◌, Option, none, some, any, first}
use xlistman.Strings.{Text, text_eq}
use xlistman.Result.{ok}
use xlistman.Model.{Time, MailingList, Subscriber}
use xlistman.Effects.Tables.{Db, select}
use xlistman.Effects.{healthy, statement, attempt, pure, ◌>>=◌}
use xlistman.Store.Access.{find_first}
use xlistman.Store.Members.{get_subscriber}
use xlistman.Store.Roles.{holds, has_role}
use xlistman.Pipeline.Posting.{flag}
use xlistman.Lmtp.Commands.{cmd_who, who_refused}

-- Whether the sender, as the tables have it, owns or moderates the list.
abbrev pub runs_list : Db → MailingList → Option Subscriber → Bool
runs_list d l none = false
runs_list d l (some s) =
    any (holds l.id s.id) d.owners.rows || any (holds l.id s.id) d.moderators.rows

who_at :
    (l : MailingList) (sender : Text) (d : Db) (t : Time) (token_of : ℕ → Text) (n : ℕ)
    (o : Option Subscriber)
    → first (λ s. text_eq s.email sender) d.subscribers.rows ≡ o
    → runs_list d l o ≡ false
    → cmd_who l sender (healthy d t token_of n) ≡ (ok who_refused, healthy d t token_of n)
unfolding cmd_who flag attempt ◌>>=◌ pure statement find_first select get_subscriber has_role first
who_at l sender d t token_of n none e h = rw e refl
who_at l sender d t token_of n (some s) e h = rw (e, h) refl

-- The command `who` of a sender that neither owns nor moderates the list, or that the store does
-- not know, is answered by the refusal, the same for every list and every roster, and changes
-- nothing. The database refuses nothing.
pub cmd_who-private :
    (l : MailingList) (sender : Text) (d : Db) (t : Time) (token_of : ℕ → Text) (n : ℕ)
    → runs_list d l (first (λ s. text_eq s.email sender) d.subscribers.rows) ≡ false
    → cmd_who l sender (healthy d t token_of n) ≡ (ok who_refused, healthy d t token_of n)
cmd_who-private l sender d t token_of n h = who_at l sender d t token_of n _ refl h
