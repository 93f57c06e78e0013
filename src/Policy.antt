-- ===== src/Policy.antt =====
-- internal/mail/policy.go: what happens to a post.
use xlistman.Prelude.{Bool, ◌||◌, if◌then◌else◌}
use xlistman.Model.{MailingList, ListType, discussion, newsletter}

pub data PostAction : Type 0 where
  accept hold reject : PostAction

-- The standing of a sender on a list.
pub record Standing : Type 0 where
  pub is_subscriber : Bool
  pub is_owner : Bool
  pub is_designated_sender : Bool

abbrev pub decide : ListType → Bool → Standing → PostAction
decide discussion moderation s =
    if moderation then hold else (if s.is_subscriber then accept else reject)
decide newsletter moderation s = if s.is_owner || s.is_designated_sender then accept else reject
decide (ListType.other _) moderation s = reject

unfoldable pub decide_post_action : MailingList → Standing → PostAction
decide_post_action l s = decide l.list_type l.settings.moderation_enabled s
