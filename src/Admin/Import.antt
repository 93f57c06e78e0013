-- ===== src/Admin/Import.antt =====
-- internal/mail/import.go, with the result type of internal/members.
pub mod Counts
use xlistman.Prelude.{ℕ, suc, ◌+◌, Bool, List, [], ◌∷◌, ◌++◌, if◌then◌else◌}
use xlistman.Strings.{Text, codes, is_empty}
use xlistman.Result.{Result, ok, err}
use xlistman.Model.{
  MailingList, Subscriber, Subscription, SubscriptionStatus, pending, active, held, disabled,
  AuditActor, member_import, list_address,
}
use xlistman.Env.{Env, concat}
use xlistman.Effects.{M, ◌>>=◌, ◌>>◌, pure, attempt}
use xlistman.Store.Lists.{get_list}
use xlistman.Store.Members.{
  get_or_create_subscriber, get_subscription, create_subscription, set_subscription_status,
}
use xlistman.Pipeline.Moderation.{record_audit}

pub record ImportSource : Type 0 where
  pub emails : List Text
  pub invalid : ℕ

pub record ImportResult : Type 0 where
  pub added : ℕ
  pub already : ℕ
  pub disabled_members : ℕ
  pub invalid : ℕ

-- Skipped
unfoldable pub skipped : ImportResult → ℕ
skipped r = r.already + r.disabled_members + r.invalid

pub data RowOutcome : Type 0 where
  row_added row_already row_disabled row_invalid : RowOutcome

unfoldable pub count_row : RowOutcome → ImportResult → ImportResult
count_row row_added r = record r { added = suc r.added }
count_row row_already r = record r { already = suc r.already }
count_row row_disabled r = record r { disabled_members = suc r.disabled_members }
count_row row_invalid r = record r { invalid = suc r.invalid }

abbrev pub outcome_of_status : SubscriptionStatus → RowOutcome
outcome_of_status disabled = row_disabled
outcome_of_status _ = row_already

abbrev pub outcome_of_update : Result Unit → RowOutcome
outcome_of_update (ok _) = row_added
outcome_of_update (err _) = row_invalid

abbrev pub activate_created : Result Subscription → M RowOutcome
activate_created (ok subscription) = do
  updated ← attempt (set_subscription_status subscription.id active)
  pure (outcome_of_update updated)
activate_created (err _) = pure row_invalid

abbrev pub add_unless_subscribed : ℕ → ℕ → Result Subscription → M RowOutcome
add_unless_subscribed list_id id (ok existing) = pure (outcome_of_status existing.status)
add_unless_subscribed list_id id (err _) = do
  created ← attempt (create_subscription list_id id)
  activate_created created

abbrev pub add_subscriber : ℕ → Result Subscriber → M RowOutcome
add_subscriber list_id (ok sub) = do
  existing ← attempt (get_subscription list_id sub.id)
  add_unless_subscribed list_id sub.id existing
add_subscriber list_id (err _) = pure row_invalid

module _ (env : Env) where
  -- One round of the loop.
  unfoldable pub import_row : ℕ → Text → M RowOutcome
  import_row list_id raw =
      let email = env.trim_space (env.to_lower raw) in
      if is_empty email
      then pure row_invalid
      else do sub ← attempt (get_or_create_subscriber email); add_subscriber list_id sub

  unfoldable pub import_rows : ℕ → List Text → ImportResult → M ImportResult
  import_rows list_id [] res = pure res
  import_rows list_id (email ∷ emails) res = do
    outcome ← import_row list_id email
    import_rows list_id emails (count_row outcome res)

  -- Detail
  unfoldable pub import_detail : ImportResult → Text
  import_detail r =
      concat
        (codes "added " ∷ env.decimal r.added ∷ codes ", skipped " ∷ env.decimal (skipped r) ∷ [])

  unfoldable pub import_members : Text → Text → ImportSource → AuditActor → M ImportResult
  import_members list_name domain src actor = do
    l ← get_list list_name domain
    res ←
        import_rows l.id src.emails
          (record { added = 0; already = 0; disabled_members = 0; invalid = src.invalid })
    record_audit l member_import actor (list_address l) (import_detail res)
    pure res
