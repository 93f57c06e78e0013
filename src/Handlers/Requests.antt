-- ===== src/Handlers/Requests.antt =====
-- What the -request commands and the mail to the owners keep.
use xlistman.Prelude.{ℕ, List, [], ◌∷◌, Option, none, some}
use xlistman.Strings.{Text}
use xlistman.Result.{Result, ok, err}
use xlistman.Model.{
  MailingList, Subscription, SubscriptionStatus, disabled, DeliveryMode, RoleHolder,
}
use xlistman.Address.{ParsedAddress}
use xlistman.Env.{Env}
use xlistman.Effects.{M}
use xlistman.Effects.Keeps.{
  Relation, IsPreorder, Keeps, Keeps-attempt, Keeps-bind, Keeps-pure, Keeps-if, keeps_rules,
}
use xlistman.Handlers.Rules.{StoreKeeps, reads, get_list_by_id-Keeps, get_subscriber_by_id-Keeps}
use xlistman.Handlers.Posts.{build_notice-Keeps, send_notice-Keeps, flag-Keeps}
use xlistman.Lmtp.Commands.{
  answer, set_mode, re_enable_status, cmd_re_enable, cmd_unsubscribe, which_lines, which_found,
  cmd_which, with_address, roster, cmd_who,
}
use xlistman.Lmtp.Request.{
  owner_addresses, forward_to_owners, cmd_contact, cmd_set, set_known, execute_fields,
  execute_command, enqueue_command_reply, run_commands, handle_request, handle_owner_forward,
}

module _ {R : Relation} ⦃o : IsPreorder R⦄ (k : StoreKeeps R) (env : Env) where
  answer-Keeps :
      {A : Type 0} (r : Result A) (failure : Text) (f : A → M Text)
      → ((a : A) → Keeps R (f a))
      → Keeps R (answer r failure f)
  answer-Keeps (ok a) failure f h = h a
  answer-Keeps (err _) failure f h = Keeps-pure failure

  set_mode-Keeps :
      (l : MailingList) (sender : Text) (mode : DeliveryMode) → Keeps R (set_mode l sender mode)
  unfolding set_mode
  set_mode-Keeps l sender mode = search (reads, answer-Keeps, k.update_delivery_keeps) depth 12

  re_enable_status-Keeps :
      (l : MailingList) (id : ℕ) (s : SubscriptionStatus) → Keeps R (re_enable_status l id s)
  re_enable_status-Keeps l id disabled = search (keeps_rules, k.reenable_keeps)
  re_enable_status-Keeps l id s = Keeps-pure _

  re_enable-Keeps : (l : MailingList) (sender : Text) → Keeps R (cmd_re_enable l sender)
  unfolding cmd_re_enable
  re_enable-Keeps l sender = search (reads, answer-Keeps, re_enable_status-Keeps) depth 12

  unsubscribe-Keeps : (l : MailingList) (sender : Text) → Keeps R (cmd_unsubscribe l sender)
  unfolding cmd_unsubscribe
  unsubscribe-Keeps l sender = search (reads, answer-Keeps, k.delete_subscription_keeps) depth 12

  which_lines-Keeps : (ss : List Subscription) → Keeps R (which_lines ss)
  unfolding which_lines
  which_lines-Keeps [] = Keeps-pure []
  which_lines-Keeps (s ∷ ss) =
      Keeps-bind _ _ (Keeps-attempt _ (get_list_by_id-Keeps s.list_id))
        (λ l. Keeps-bind _ _ (which_lines-Keeps ss) (λ rest. Keeps-pure _))

  which_found-Keeps : (ss : List Subscription) → Keeps R (which_found ss)
  which_found-Keeps [] = Keeps-pure _
  which_found-Keeps (s ∷ ss) = Keeps-bind _ _ (which_lines-Keeps (s ∷ ss)) (λ lines. Keeps-pure _)

  which-Keeps : (sender : Text) → Keeps R (cmd_which sender)
  unfolding cmd_which
  which-Keeps sender = search (reads, answer-Keeps, which_found-Keeps) depth 12

  roster-Keeps : (seen : List Text) (ss : List Subscription) → Keeps R (roster seen ss)
  unfolding roster
  roster-Keeps seen [] = Keeps-pure seen
  roster-Keeps seen (s ∷ ss) =
      Keeps-bind _ _ (Keeps-attempt _ (get_subscriber_by_id-Keeps s.subscriber_id))
        (λ found. roster-Keeps (with_address seen found) ss)

  who-Keeps : (l : MailingList) (sender : Text) → Keeps R (cmd_who l sender)
  unfolding cmd_who
  who-Keeps l sender = search (reads, answer-Keeps, flag-Keeps, roster-Keeps) depth 14

  owner_addresses-Keeps :
      (sender : Text) (seen : List ℕ) (os : List RoleHolder)
      → Keeps R (owner_addresses env sender seen os)
  unfolding owner_addresses
  owner_addresses-Keeps sender seen [] = Keeps-pure []
  owner_addresses-Keeps sender seen (o' ∷ os) =
      Keeps-if _ _ _ (owner_addresses-Keeps sender seen os) (
        Keeps-bind _ _ (Keeps-attempt _ (get_subscriber_by_id-Keeps o'.subscriber_id)) (λ found.
          Keeps-bind _ _ (owner_addresses-Keeps sender (o'.subscriber_id ∷ seen) os)
            (λ rest. Keeps-pure _)))

  pub forward-Keeps :
      (l : MailingList) (sender content : Text) → Keeps R (forward_to_owners env l sender content)
  unfolding forward_to_owners
  forward-Keeps l sender content = search (reads, owner_addresses-Keeps, send_notice-Keeps) depth 9

  contact-Keeps : (l : MailingList) (sender msg : Text) → Keeps R (cmd_contact env l sender msg)
  unfolding cmd_contact
  contact-Keeps l sender msg = search (keeps_rules, forward-Keeps) depth 9

  set_known-Keeps :
      (l : MailingList) (sender : Text) (m : Option DeliveryMode)
      → Keeps R (set_known env l sender m)
  set_known-Keeps l sender none = Keeps-pure _
  set_known-Keeps l sender (some mode) = set_mode-Keeps l sender mode

  set-Keeps :
      (l : MailingList) (sender : Text) (args : List Text) → Keeps R (cmd_set env l sender args)
  unfolding cmd_set
  set-Keeps l sender [] = Keeps-pure _
  set-Keeps l sender (arg ∷ []) = set_known-Keeps l sender _
  set-Keeps l sender (arg ∷ b ∷ args) = Keeps-pure _

  execute_fields-Keeps :
      (l : MailingList) (sender : Text) (fs : List Text) → Keeps R (execute_fields env l sender fs)
  execute_fields-Keeps l sender [] = Keeps-pure _
  execute_fields-Keeps l sender (name ∷ args) =
      search (keeps_rules, which-Keeps, set-Keeps, re_enable-Keeps, unsubscribe-Keeps, who-Keeps)
        depth 12

  execute_command-Keeps :
      (l : MailingList) (sender cmd : Text) → Keeps R (execute_command env l sender cmd)
  unfolding execute_command
  execute_command-Keeps l sender cmd = execute_fields-Keeps l sender _

  run_commands-Keeps :
      (l : MailingList) (sender msg : Text) (cmds : List Text)
      → Keeps R (run_commands env l sender msg cmds)
  unfolding run_commands
  run_commands-Keeps l sender msg [] = Keeps-pure []
  run_commands-Keeps l sender msg (cmd ∷ cmds) =
      Keeps-if _ _ _
        (Keeps-bind _ _ (contact-Keeps l sender msg)
          (λ res. Keeps-bind _ _ (run_commands-Keeps l sender msg cmds) (λ rest. Keeps-pure _)))
        (Keeps-bind _ _ (execute_command-Keeps l sender cmd)
          (λ res. Keeps-bind _ _ (run_commands-Keeps l sender msg cmds) (λ rest. Keeps-pure _)))

  reply-Keeps :
      (l : MailingList) (sender body : Text) → Keeps R (enqueue_command_reply env l sender body)
  unfolding enqueue_command_reply
  reply-Keeps l sender body =
      Keeps-bind _ _ (build_notice-Keeps k env _ _ _ _ _) (λ notice. k.enqueue_keeps _ _ _ _ _ _)

  pub request-Keeps : (p : ParsedAddress) (raw : Text) → Keeps R (handle_request env p raw)
  unfolding handle_request
  request-Keeps p raw = search (reads, run_commands-Keeps, reply-Keeps) depth 9

  pub owner_forward-Keeps :
      (p : ParsedAddress) (raw : Text) → Keeps R (handle_owner_forward env p raw)
  unfolding handle_owner_forward
  owner_forward-Keeps p raw = search (reads, forward-Keeps) depth 9
