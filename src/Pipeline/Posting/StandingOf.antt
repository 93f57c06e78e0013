-- ===== src/Pipeline/Posting/StandingOf.antt =====
-- What the lookups about a sender find out.
use xlistman.Prelude.{
  ℕ, ◌≡◌, refl, Bool, true, false, Option, none, some, List, [], ◌∷◌, any, first, arith,
}
use xlistman.Strings.{Text, text_eq}
use xlistman.Result.{ok}
use xlistman.Model.{Time, MailingList, Subscriber, Subscription}
use xlistman.Policy.{Standing}
use xlistman.Effects.Tables.{Db, select}
use xlistman.Effects.{healthy, statement, attempt, pure, ◌>>=◌}
use xlistman.Store.Access.{find_first}
use xlistman.Store.Members.{of_member, get_subscriber, get_subscription}
use xlistman.Store.Roles.{holds, has_role}
use xlistman.Pipeline.Posting.{flag, roles_of, no_standing, non_subscriber, sender_standing}

-- What the tables say of a sender: a subscriber has a row in the table of subscriptions, of
-- whatever status.
abbrev pub standing_in : Db → MailingList → Option Subscriber → Standing
standing_in d l none = no_standing
standing_in d l (some s) = record {
  is_subscriber = any (of_member l.id s.id) d.subscriptions.rows;
  is_owner = any (holds l.id s.id) d.owners.rows;
  is_designated_sender = any (holds l.id s.id) d.designated_senders.rows;
}

any-first :
    {A : Type 0} (p : A → Bool) (xs : List A) (o : Option A)
    → first p xs ≡ o
    → any p xs ≡ (elim o [ none ↦ false | some _ ↦ true ])
unfolding any first
any-first p [] o e = ground (arith, e)
any-first p (x ∷ xs) o e = ground (arith, e, any-first p xs o)

found_at :
    (d : Db) (l : MailingList) (sender : Text) (t : Time) (token_of : ℕ → Text) (n : ℕ)
    (s : Subscriber) (o : Option Subscription)
    → first (λ s. text_eq s.email sender) d.subscribers.rows ≡ some s
    → first (of_member l.id s.id) d.subscriptions.rows ≡ o
    → sender_standing l sender (healthy d t token_of n)
      ≡ (ok (standing_in d l (some s)), healthy d t token_of n)
unfolding sender_standing non_subscriber roles_of flag attempt ◌>>=◌ pure statement find_first
    select get_subscriber get_subscription has_role first
found_at d l sender t token_of n s none e f =
    rw (e, f, e, any-first (of_member l.id s.id) d.subscriptions.rows none f) refl
found_at d l sender t token_of n s (some sub) e f =
    rw (e, f, any-first (of_member l.id s.id) d.subscriptions.rows (some sub) f) refl

standing_at :
    (d : Db) (l : MailingList) (sender : Text) (t : Time) (token_of : ℕ → Text) (n : ℕ)
    (o : Option Subscriber)
    → first (λ s. text_eq s.email sender) d.subscribers.rows ≡ o
    → sender_standing l sender (healthy d t token_of n)
      ≡ (ok (standing_in d l o), healthy d t token_of n)
unfolding sender_standing non_subscriber attempt ◌>>=◌ pure statement find_first select
    get_subscriber first
standing_at d l sender t token_of n none e = rw (e, e) refl
standing_at d l sender t token_of n (some s) e = found_at d l sender t token_of n s _ e refl

-- In a database that refuses nothing, the lookups of ProcessPost, the second one for owners that
-- are not subscribed included, find what the tables say of the sender and change nothing. A
-- subscription counts for posting whatever its status is, a pending or a disabled one too.
pub sender_standing-standing_in :
    (d : Db) (l : MailingList) (sender : Text) (t : Time) (token_of : ℕ → Text) (n : ℕ)
    → sender_standing l sender (healthy d t token_of n) ≡ (
      ok (standing_in d l (first (λ s. text_eq s.email sender) d.subscribers.rows)),
      healthy d t token_of n,
    )
sender_standing-standing_in d l sender t token_of n = standing_at d l sender t token_of n _ refl
