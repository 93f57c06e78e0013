-- ===== src/Server/Admin/Domains.antt =====
-- handleAdminDomains of internal/server/admin.go.
use xlistman.Prelude.{not, Option, none, some, List, [], ◌∷◌, length, keep, map, if◌then◌else◌}
use xlistman.Strings.{Text, codes, text_eq}
use xlistman.Result.{Result, ok, err}
use xlistman.Effects.{M, ◌>>=◌, ◌>>◌, pure, attempt}
use xlistman.Model.{Subscriber, Domain, MailingList, domain_create}
use xlistman.Store.Lists.{create_domain, list_domains, list_lists}
use xlistman.Server.Http.{
  Request, Response, Content, Value, Row, Web, respond, json_error, json_status, method_not_allowed,
  is_method,
}
use xlistman.Server.Audit.{subscriber_actor, audit}
use xlistman.Server.Admin.Names.{valid_domain_name}

-- The body of the request: its name and its description.
pub record NewDomain : Type 0 where
  pub name : Text
  pub description : Text

abbrev pub domain_row : List MailingList → Domain → Row
domain_row lists d =
    (codes "id", Value.number d.id)
    ∷ (codes "name", Value.text d.name)
    ∷ (codes "description", Value.text d.description)
    ∷ (codes "list_count", Value.number (length (keep (λ l. text_eq l.domain d.name) lists)))
    ∷ []

abbrev pub counted_domains : List Domain → Result (List MailingList) → Response
counted_domains domains (err _) = json_error 500 (codes "failed to load lists")
counted_domains domains (ok lists) = respond 200 (Content.rows (map (domain_row lists) domains))

abbrev pub domains_listed : Result (List Domain) → M Response
domains_listed (err _) = pure (json_error 500 (codes "failed to load domains"))
domains_listed (ok domains) = do
  lists ← attempt (list_lists [])
  pure (counted_domains domains lists)

-- json.Decode of the body is a parameter.
module _ (web : Web) (decode : Text → Option NewDomain) where
  abbrev pub domain_created : Subscriber → Text → Text → Result Domain → M Response
  domain_created actor name description (err e) = pure (
      if web.error_contains e (codes "UNIQUE")
      then json_error 409 (codes "domain already exists")
      else json_error 500 (codes "failed to create domain"))
  domain_created actor name description (ok d) = do
    audit none domain_create (subscriber_actor actor) name description
    pure (json_status 201 (codes "domain created"))

  abbrev pub domain_given : Subscriber → Option NewDomain → M Response
  domain_given actor none = pure (json_error 400 (codes "invalid request body"))
  domain_given actor (some body) =
      let name = web.env.to_lower (web.env.trim_space body.name) in
      let description = web.env.trim_space body.description in
      if not (valid_domain_name name)
      then pure
          (json_error 400 (codes "invalid domain name (use a lowercase hostname like example.com)"))
      else do
        created ← attempt (create_domain name description)
        domain_created actor name description created

  unfoldable pub handle_admin_domains : Request → Subscriber → M Response
  handle_admin_domains r actor =
      if is_method (codes "POST") r
      then domain_given actor (decode r.body)
      else if not (is_method (codes "GET") r)
      then pure method_not_allowed
      else do domains ← attempt list_domains; domains_listed domains
