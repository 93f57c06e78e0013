-- ===== src/Lmtp/Request.antt =====
-- handleRequest: the command lines of a message and the one reply to them; mail to the owners.
use xlistman.Prelude.{
  ℕ, Bool, false, ◌||◌, Option, none, some, List, [], ◌∷◌, ◌++◌, ◌==◌, any, if◌then◌else◌,
}
use xlistman.Strings.{Text, codes, text_eq, is_empty, has_prefix}
use xlistman.Result.{Result, ok, err}
use xlistman.Model.{
  MailingList, Subscriber, RoleHolder, SubscriptionPolicy, open_policy, moderated, closed, ListType,
  discussion, newsletter, DeliveryMode, list_address,
}
use xlistman.Verp.{encode_verp}
use xlistman.Address.{ParsedAddress}
use xlistman.Headers.{trim_end}
use xlistman.Env.{Env, concat, join, newline, quote}
use xlistman.Effects.{M, ◌>>=◌, pure, attempt, for_each}
use xlistman.Store.Lists.{get_list}
use xlistman.Store.Members.{get_subscriber_by_id}
use xlistman.Store.Roles.{list_owners}
use xlistman.Store.Queue.{enqueue}
use xlistman.Pipeline.Notices.{role_of_list, build_notice, send_notice}
use xlistman.Lmtp.Commands.{
  mode_of, set_mode, set_usage, cmd_re_enable, cmd_unsubscribe, cmd_which, cmd_who,
}

-- strings.Split(s, "\n")
unfoldable pub split_from : Text → Text → List Text
split_from line [] = line ∷ []
split_from line (c ∷ s) = if c == 10 then line ∷ split_from [] s else split_from (line ++ c ∷ []) s

-- strings.TrimRight(line, "\r")
unfoldable pub trim_cr : Text → Text
trim_cr = trim_end (λ c. c == 13)

abbrev pub enabled_text : Bool → Text
enabled_text b = if b then codes "enabled" else codes "disabled"

unfoldable pub type_text : ListType → Text
type_text discussion = codes "discussion"
type_text newsletter = codes "newsletter"
type_text (ListType.other t) = t

abbrev pub policy_text : SubscriptionPolicy → Text
policy_text open_policy = codes "open"
policy_text moderated = codes "moderated"
policy_text closed = codes "closed"

abbrev pub rule_of_type : ListType → Bool → Text
rule_of_type newsletter _ = codes "only designated senders and owners may post"
rule_of_type _ moderation =
    if moderation
    then codes "all posts are held for moderator approval"
    else codes "subscribers may post; non-subscribers are rejected"

unfoldable pub posting_rule : MailingList → Text
posting_rule l = rule_of_type l.list_type l.settings.moderation_enabled

unfoldable pub cmd_info : MailingList → Text
cmd_info l = concat (
    list_address l
    ∷ codes " ("
    ∷ type_text l.list_type
    ∷ codes " list)"
    ∷ newline
    ∷ l.description
    ∷ newline
    ∷ newline
    ∷ codes "Subscription policy: "
    ∷ policy_text l.settings.subscription_policy
    ∷ newline
    ∷ codes "Moderation: "
    ∷ enabled_text l.settings.moderation_enabled
    ∷ newline
    ∷ codes "Posts: "
    ∷ posting_rule l
    ∷ [])

unfoldable pub cmd_help : MailingList → Text
cmd_help l = concat (
    codes "Commands for "
    ∷ list_address l
    ∷ codes " (send one command per line):"
    ∷ newline
    ∷ codes "  help                         show this message"
    ∷ newline
    ∷ codes "  which                        list the lists you are subscribed to"
    ∷ newline
    ∷ codes "  info                         show information about "
    ∷ list_address l
    ∷ newline
    ∷ codes "  set regular|digest|nomail    change how you receive posts from "
    ∷ list_address l
    ∷ newline
    ∷ codes "  re-enable                    reactivate your subscription to "
    ∷ list_address l
    ∷ newline
    ∷ codes "  unsubscribe                  remove your subscription to "
    ∷ list_address l
    ∷ newline
    ∷ codes "  who                          list the subscribers of "
    ∷ list_address l
    ∷ codes " (owners only)"
    ∷ newline
    ∷ codes "  contact                      send a message to the owners of "
    ∷ list_address l
    ∷ [])

abbrev pub owner_to : (Text → Bool) → Result Subscriber → List Text → List Text
owner_to is_sender (ok owner) rest = if is_sender owner.email then rest else owner.email ∷ rest
owner_to is_sender (err _) rest = rest

module _ (env : Env) where
  -- The loop that collects the owners' addresses, each owner once and never the sender.
  unfoldable pub owner_addresses : Text → List ℕ → List RoleHolder → M (List Text)
  owner_addresses sender seen [] = pure []
  owner_addresses sender seen (o ∷ os) =
      let again = owner_addresses sender seen os in
      let first_time : M (List Text) = (do
        found ← attempt (get_subscriber_by_id o.subscriber_id)
        rest ← owner_addresses sender (o.subscriber_id ∷ seen) os
        pure (owner_to (λ email. env.equal_fold email sender) found rest)) in
      if any (λ s. s == o.subscriber_id) seen then again else first_time

  unfoldable pub forward_to_owners : MailingList → Text → Text → M Unit
  forward_to_owners l sender content = do
    owners ← list_owners l.id
    to ← owner_addresses sender [] owners
    for_each to λ addr. send_notice env l addr sender (codes "Contact to " ++ list_address l) (
        concat (
          codes "The following message was sent to the owners of "
          ∷ list_address l
          ∷ codes ":"
          ∷ newline
          ∷ newline
          ∷ content
          ∷ []))

  abbrev pub contact_done : MailingList → Result Unit → Text
  contact_done l (ok _) =
      concat
        (codes "Your message has been sent to the owners of " ∷ list_address l ∷ codes "." ∷ [])
  contact_done l (err _) = codes "Could not deliver your message to the owners."

  unfoldable pub cmd_contact : MailingList → Text → Text → M Text
  cmd_contact l sender message =
      if is_empty (env.trim_space message)
      then pure (codes "Put your message after the contact command.")
      else do done ← attempt (forward_to_owners l sender message); pure (contact_done l done)

  abbrev pub first_is_contact : List Text → Bool
  first_is_contact [] = false
  first_is_contact (f ∷ fs) = env.equal_fold f (codes "contact")

  unfoldable pub is_contact_command : Text → Bool
  is_contact_command line = first_is_contact (env.fields line)

  -- The lines that are neither blank nor quoted, trimmed.
  unfoldable pub unquoted_lines : List Text → List Text
  unquoted_lines [] = []
  unquoted_lines (raw ∷ lines) =
      let line = env.trim_space (trim_cr raw) in
      if is_empty line || has_prefix (codes ">") line
      then unquoted_lines lines
      else line ∷ unquoted_lines lines

  -- The commands up to the first contact command, and the lines behind it.
  unfoldable pub commands_of : List Text → List Text × List Text
  commands_of [] = ([], [])
  commands_of (line ∷ lines) =
      if is_contact_command line
      then (line ∷ [], lines)
      else (let (commands, rest) = commands_of lines in (line ∷ commands, rest))

  unfoldable pub parse_commands : Text → List Text × Text
  parse_commands raw = elim (env.read_message raw) [
    | none ↦ ([], [])
    | some msg ↦
        let (commands, rest) = commands_of (unquoted_lines (split_from [] msg.body)) in
        (commands, join newline rest)
  ]

  abbrev pub set_known : MailingList → Text → Option DeliveryMode → M Text
  set_known l sender none = pure set_usage
  set_known l sender (some mode) = set_mode l sender mode

  unfoldable pub cmd_set : MailingList → Text → List Text → M Text
  cmd_set l sender (arg ∷ []) = set_known l sender (mode_of (env.to_lower arg))
  cmd_set l sender _ = pure set_usage

  unfoldable pub unknown_command : Text → Text
  unknown_command name = concat (
      codes "Unknown command "
      ∷ env.quoted name
      ∷ codes ". Reply with "
      ∷ quote
      ∷ codes "help"
      ∷ quote
      ∷ codes " for a list of commands."
      ∷ [])

  abbrev pub execute_named : MailingList → Text → Text → List Text → M Text
  execute_named l sender name args =
      if text_eq name (codes "help")
      then pure (cmd_help l)
      else if text_eq name (codes "which")
      then cmd_which sender
      else if text_eq name (codes "info")
      then pure (cmd_info l)
      else if text_eq name (codes "set")
      then cmd_set l sender args
      else if text_eq name (codes "re-enable")
      then cmd_re_enable l sender
      else if text_eq name (codes "unsubscribe")
      then cmd_unsubscribe l sender
      else if text_eq name (codes "who")
      then cmd_who l sender
      else pure (unknown_command name)

  abbrev pub execute_fields : MailingList → Text → List Text → M Text
  execute_fields l sender [] = pure []
  execute_fields l sender (name ∷ args) = execute_named l sender (env.to_lower name) args

  unfoldable pub execute_command : MailingList → Text → Text → M Text
  execute_command l sender cmd = execute_fields l sender (env.fields cmd)

  unfoldable pub enqueue_command_reply : MailingList → Text → Text → M Unit
  enqueue_command_reply l sender body =
      let verp_addr : Text = elim (encode_verp (list_address l) sender) [
        | ok addr ↦ addr
        | err _ ↦ list_address l
      ] in
      do
        notice ←
            build_notice env (list_address l) sender (role_of_list l (codes "-request"))
              (codes "Your request to " ++ list_address l) body
        enqueue l.id (list_address l) sender notice verp_addr []

  -- The loop over the commands: the results in order, the empty ones left out.
  unfoldable pub run_commands : MailingList → Text → Text → List Text → M (List Text)
  run_commands l sender contact_msg [] = pure []
  run_commands l sender contact_msg (cmd ∷ cmds) =
      if is_contact_command cmd
      then (do
        res ← cmd_contact l sender contact_msg
        rest ← run_commands l sender contact_msg cmds
        pure (res ∷ rest))
      else (do
        res ← execute_command l sender cmd
        rest ← run_commands l sender contact_msg cmds
        pure (if is_empty res then rest else res ∷ rest))

  abbrev pub or_help : List Text → List Text
  or_help [] = codes "help" ∷ []
  or_help (c ∷ cs) = c ∷ cs

  -- ParseMessage: the sender, and "" where the message cannot be read
  unfoldable pub sender_of : Text → Text
  sender_of raw = elim (env.read_message raw) [
    | none ↦ []
    | some msg ↦ elim (env.parse_mail_address (msg.header (codes "From"))) [
      | some addr ↦ addr
      | none ↦ msg.header (codes "From")
    ]
  ]

  unfoldable pub handle_request : ParsedAddress → Text → M Unit
  handle_request p raw = do
    l ← get_list p.list_name p.domain
    let sender = sender_of raw
    let (commands, contact_msg) = parse_commands raw
    results ← run_commands l sender contact_msg (or_help commands)
    enqueue_command_reply l sender (join newline results)

  unfoldable pub handle_owner_forward : ParsedAddress → Text → M Unit
  handle_owner_forward p raw = do
    l ← get_list p.list_name p.domain
    forward_to_owners l (sender_of raw) raw
