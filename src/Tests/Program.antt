-- ===== src/Tests/Program.antt =====
-- The whole program at work: each line runs a handler and looks at what it left.
use xlistman.Address.{plus_route, dash_route, route, parse_address}
use xlistman.Admin.Import.{
  skipped, count_row, import_row, import_rows, import_detail, import_members,
}
use xlistman.Admin.Members.{
  subscription_context, add_member, remove_member, approve_subscription, reject_subscription,
}
use xlistman.Admin.Roles.{role_owner, grant_role, is_last_owner, revoke, revoke_role}
use xlistman.Effects.{
  M, healthy, ◌>>=◌, pure, raise, wrap, attempt, statement, now, generate_token, for_each,
}
use xlistman.Effects.Tables.{
  Db, insert, insert_or_ignore, select, select_all, update, delete, sorted_insert, order_by,
}
use xlistman.Env.{concat, join}
use xlistman.Headers.{
  fold_byte, equal_fold, drop_cr, split_lines_from, split_lines, is_blank, trim_start, trim_end,
  trim_blanks, strip_fold, continuation, header_in, extract_header, extract_subject,
  extract_thread_id,
}
use xlistman.Lmtp.Commands.{
  mode_of, not_subscribed, set_usage, delivery_set, set_mode, re_enabled, not_disabled,
  cmd_re_enable, unsubscribed, cmd_unsubscribe, which_lines, no_lists, cmd_which, roster,
  who_refused, cmd_who,
}
use xlistman.Lmtp.Handlers.{
  trim_marks, confirmed_status, handle_unsubscribe, handle_bounce, handle_confirm, moderation_word,
  moderation_action, moderate_by, handle_moderate, handle, process_recipient,
}
use xlistman.Lmtp.Request.{
  split_from, trim_cr, type_text, posting_rule, cmd_info, cmd_help, owner_addresses,
  forward_to_owners, cmd_contact, is_contact_command, unquoted_lines, commands_of, parse_commands,
  cmd_set, unknown_command, execute_command, enqueue_command_reply, run_commands, sender_of,
  handle_request, handle_owner_forward,
}
use xlistman.Model.{
  Subscription, SubscriptionStatus, QueuedMessage, active, disabled, pending, list_address,
  new_audit_event, actor_label, default_list_settings,
}
use xlistman.Pipeline.Bounces.{
  send_disabled_notice, notify_owners, notify_owners_auto_disabled, record_bounce,
}
use xlistman.Pipeline.Delivery.{unsubscribe_url, deliver_to, deliver_one, deliver_to_list}
use xlistman.Pipeline.Moderation.{
  record_audit, add_recipient, add_recipients, build_moderation_notice, moderation_intro,
  notify_moderator, notify_moderators, hold_message, held_context, approve_held, reject_held,
  discard_held,
}
use xlistman.Pipeline.Notices.{
  role_of_list, notice_reply_to, build_notice, send_notice, enqueue_confirmation,
  render_notice_template, send_template, notify_sender_held, enqueue_welcome, enqueue_goodbye,
  enqueue_subscription_rejected, notify_subscription_pending, reject_message,
}
use xlistman.Pipeline.Posting.{
  flag, roles_of, non_subscriber, sender_standing, perform, process_post,
}
use xlistman.Pipeline.Subscribing.{send_confirmation, subscribe}
use xlistman.Policy.{decide_post_action}
use xlistman.Prelude.{◌≡◌, refl, List, [], ◌∷◌, map, keep, first, update_where, any}
use xlistman.Queue.Digest.{
  digest_period, digest_due, since_watermark, build_digest, build_digest_message, digest_one,
  digest_list, digest_if_due, process_due,
}
use xlistman.Queue.Worker.{
  backoff_duration, max_retries, build_bounce_body, give_up, process_claimed, process_batch,
}
use xlistman.Store.Access.{create, create_or_ignore, find_first, find_all, update_rows, delete_rows}
use xlistman.Store.Archive.{
  index_entry, archive_message, list_archive, list_archive_since, get_archive_entry,
  advance_digest_watermark,
}
use xlistman.Store.Audit.{create_audit_event}
use xlistman.Store.Auth.{
  create_confirmation_token, get_confirmation_token, delete_confirmation_token, create_credential,
  delete_credential, get_magic_link, get_session, delete_expired_magic_links,
  delete_expired_sessions, delete_all_sessions, get_web_settings, set_web_login_enabled,
  set_web_management_enabled,
}
use xlistman.Store.Held.{
  create_held_message, list_held_messages, lower_ascii, list_held_messages_by_sender,
  get_held_message_by_token, get_held_message_by_id, delete_held_message, sweep,
  delete_expired_held_messages,
}
use xlistman.Store.Lists.{
  text_before, join_domain, joined, get_list, get_list_by_id, list_lists, delete_list_rows,
  delete_list,
}
use xlistman.Store.Members.{
  get_subscriber, get_subscriber_by_id, create_subscriber, get_or_create_subscriber,
  create_subscription, get_subscription, get_subscription_by_id, list_subscriptions,
  list_subscriptions_by_subscriber, update_subscription_delivery, set_subscription_status,
  reenable_subscription, reset_bounce_count, confirm_subscription, increment_bounce_count,
  delete_subscription,
}
use xlistman.Store.Queue.{
  enqueue, earliest, claim, claim_next_queued, mark_queued_sent, requeue_row, requeue_with_backoff,
  list_queued, discard_queued, queue_depth,
}
use xlistman.Store.Roles.{add_role, remove_role, list_role, lists_of_role, has_role}
use xlistman.Strings.{
  Text, codes, text_eq, is_empty, strip_prefix, has_prefix, strip_suffix, cut, cut_last,
}
use xlistman.Verp.{encode_verp, decode_local, decode_verp}
use xlistman.Tests.Samples.{sample_env, sample_mta, sample_db, token_at, operator}

-- Everything that a run computes through.
unfoldable program : Unit {0}
unfolding plus_route dash_route route parse_address skipped count_row import_row import_rows
    import_detail import_members subscription_context add_member remove_member approve_subscription
    reject_subscription grant_role is_last_owner revoke revoke_role ◌>>=◌ pure raise wrap attempt
    statement now generate_token for_each insert insert_or_ignore select select_all update delete
    sorted_insert order_by concat join fold_byte equal_fold drop_cr split_lines_from split_lines
    is_blank trim_start trim_end trim_blanks strip_fold continuation header_in extract_header
    extract_subject extract_thread_id mode_of not_subscribed set_usage delivery_set set_mode
    re_enabled not_disabled cmd_re_enable unsubscribed cmd_unsubscribe which_lines no_lists
    cmd_which roster who_refused cmd_who trim_marks confirmed_status handle_unsubscribe
    handle_bounce handle_confirm moderation_word moderation_action moderate_by handle_moderate
    handle process_recipient split_from trim_cr type_text posting_rule cmd_info cmd_help
    owner_addresses forward_to_owners cmd_contact is_contact_command unquoted_lines commands_of
    parse_commands cmd_set unknown_command execute_command enqueue_command_reply run_commands
    sender_of handle_request handle_owner_forward list_address new_audit_event actor_label
    default_list_settings send_disabled_notice notify_owners notify_owners_auto_disabled
    record_bounce unsubscribe_url deliver_to deliver_one deliver_to_list record_audit add_recipient
    add_recipients build_moderation_notice moderation_intro notify_moderator notify_moderators
    hold_message held_context approve_held reject_held discard_held role_of_list notice_reply_to
    build_notice send_notice enqueue_confirmation render_notice_template send_template
    notify_sender_held enqueue_welcome enqueue_goodbye enqueue_subscription_rejected
    notify_subscription_pending reject_message flag roles_of non_subscriber sender_standing perform
    process_post send_confirmation subscribe decide_post_action keep first update_where any
    digest_period digest_due since_watermark build_digest build_digest_message digest_one
    digest_list digest_if_due process_due backoff_duration max_retries build_bounce_body give_up
    process_claimed process_batch create create_or_ignore find_first find_all update_rows
    delete_rows index_entry archive_message list_archive list_archive_since get_archive_entry
    advance_digest_watermark create_audit_event create_confirmation_token get_confirmation_token
    delete_confirmation_token create_credential delete_credential get_magic_link get_session
    delete_expired_magic_links delete_expired_sessions delete_all_sessions get_web_settings
    set_web_login_enabled set_web_management_enabled create_held_message list_held_messages
    lower_ascii list_held_messages_by_sender get_held_message_by_token get_held_message_by_id
    delete_held_message sweep delete_expired_held_messages text_before join_domain joined get_list
    get_list_by_id list_lists delete_list_rows delete_list get_subscriber get_subscriber_by_id
    create_subscriber get_or_create_subscriber create_subscription get_subscription
    get_subscription_by_id list_subscriptions list_subscriptions_by_subscriber
    update_subscription_delivery set_subscription_status reenable_subscription reset_bounce_count
    confirm_subscription increment_bounce_count delete_subscription enqueue earliest claim
    claim_next_queued mark_queued_sent requeue_row requeue_with_backoff list_queued discard_queued
    queue_depth add_role remove_role list_role lists_of_role has_role text_eq is_empty strip_prefix
    has_prefix strip_suffix cut cut_last encode_verp decode_local decode_verp
program = tt

abbrev left : {A : Type 0} → M A → Db
left m = (m (healthy sample_db 100 token_at 0)).1.db

abbrev recipients : Db → List Text
recipients d = map (λ (q : QueuedMessage). q.to_addr) d.queue.rows

abbrev statuses : Db → List SubscriptionStatus
statuses d = map (λ (s : Subscription). s.status) d.subscriptions.rows

-- A post goes to the active subscriber, behind what was queued.
post_delivered :
    recipients (left (process_recipient sample_env (codes "dev@x.y") (codes "a@x.y")))
    ≡ codes "b@x.y" ∷ codes "b@x.y" ∷ codes "b@x.y" ∷ []
unfolding program
post_delivered = refl

-- A post of a stranger is rejected, with a notice.
post_rejected :
    recipients (left (process_recipient sample_env (codes "dev@x.y") (codes "c@x.y")))
    ≡ codes "b@x.y" ∷ codes "b@x.y" ∷ codes "c@x.y" ∷ []
unfolding program
post_rejected = refl

-- The fifth bounce disables.
fifth_bounce :
    statuses (left (process_recipient sample_env (codes "dev-bounces+a=x.y@x.y") []))
    ≡ disabled ∷ active ∷ []
unfolding program
fifth_bounce = refl

-- A stranger subscribes: a pending subscription and a message that asks for confirmation.
stranger_subscribes :
    statuses (left (process_recipient sample_env (codes "dev-subscribe@x.y") (codes "c@x.y")))
    ≡ pending ∷ active ∷ pending ∷ []
unfolding program
stranger_subscribes = refl

-- The last owner stays.
last_owner_stays : (left (revoke_role 1 2 role_owner operator)).owners ≡ sample_db.owners
unfolding program
last_owner_stays = refl

-- Mail to the owners goes to the owner.
owners_reached :
    recipients (left (process_recipient sample_env (codes "dev-owner@x.y") (codes "c@x.y")))
    ≡ codes "b@x.y" ∷ codes "b@x.y" ∷ codes "b@x.y" ∷ []
unfolding program
owners_reached = refl

-- A message that fails for the eighth time is given up, and its sender told.
given_up : recipients (left (process_batch sample_mta 5 8 60)) ≡ codes "a@x.y" ∷ []
unfolding program
given_up = refl
