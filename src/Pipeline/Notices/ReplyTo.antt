-- ===== src/Pipeline/Notices/ReplyTo.antt =====
-- Where the answer to a notice goes.
use xlistman.Prelude.{◌≡◌, false, [], ◌∷◌, ◌++◌, append-nil, append_assoc, arith}
use xlistman.Strings.{is_empty, is_empty-append, Lacks, Lacks-append}
use xlistman.Result.{ok}
use xlistman.Model.{MailingList, list_address}
use xlistman.Address.{owner, parse_address}
use xlistman.Address.Routes.{role_address, parse_address-role_address}
use xlistman.Env.{concat}
use xlistman.Pipeline.Notices.{notice_reply_to}

reply_to-role_address :
    (l : MailingList) → notice_reply_to l ≡ role_address owner (list_address l) [] l.domain
unfolding notice_reply_to concat list_address
reply_to-role_address l = simp (append-nil, append_assoc)

-- The Reply-To of the notices is an address of the owners of a list that is named like the
-- whole address of the list, "@" included, and not of the list itself. The list's name is there and
-- has no "+", its domain is there and has no "@" and no "+".
pub notice_reply_to-misrouted :
    (l : MailingList)
    → is_empty l.list_name ≡ false
    → Lacks b'+' l.list_name
    → is_empty l.domain ≡ false
    → Lacks b'+' l.domain
    → Lacks b'@' l.domain
    → parse_address (notice_reply_to l)
      ≡ ok (record {
        type = owner;
        list_name = l.list_name ++ (b'@' ∷ l.domain);
        domain = l.domain;
        list_addr = (l.list_name ++ (b'@' ∷ l.domain)) ++ (b'@' ∷ l.domain);
        encoded_part = [];
      })
unfolding list_address
notice_reply_to-misrouted l there plain domain_there domain_plain no_at =
    rw (reply_to-role_address l) (
      parse_address-role_address owner (list_address l) [] l.domain (λ e. ground (arith, e))
        (λ e. absurd (ground (arith, e))) (is_empty-append l.list_name _ there)
        (Lacks-append b'+' l.list_name _ plain (omega arith, domain_plain)) domain_there no_at)
