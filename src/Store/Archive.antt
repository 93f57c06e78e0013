-- ===== src/Store/Archive.antt =====
-- The archive with its full-text index, and the digest watermark.
use xlistman.Prelude.{
  ℕ, zero, suc, Bool, true, false, ◌&&◌, Option, none, some, List, [], ◌∷◌, ◌++◌, ◌==◌, ltb, leb,
  any, keep,
}
use xlistman.Strings.{Text}
use xlistman.Result.{Result, ok, err, fault}
use xlistman.Model.{Time, MailingList, ArchiveEntry}
use xlistman.Effects.Tables.{Db, Indexed, update, order_by}
use xlistman.Effects.{M, ◌>>=◌, pure, now, statement}
use xlistman.Store.Access.{archive, create, find_first, find_all}

unfoldable pub index_entry : ℕ → Text → Text → M Unit
index_entry rowid subject body_text = statement λ d. (
  ok tt,
  record d {
    archive_fts =
        d.archive_fts ++ record { rowid = rowid; subject = subject; body_text = body_text } ∷ [];
  },
)

unfoldable pub archive_message : ℕ → Text → Text → Text → Text → Text → Text → M Unit
archive_message list_id message_id subject from_addr body thread_id body_text = do
  t ← now
  e ←
      create archive (λ _. false)
        (λ id. record {
          id = id;
          list_id = list_id;
          message_id = message_id;
          subject = subject;
          from_addr = from_addr;
          body = body;
          body_text = body_text;
          thread_id = thread_id;
          received_at = t;
        })
  index_entry e.id subject body_text

abbrev pub take {ℓ} : {A : Type ℓ} → ℕ → List A → List A
take zero xs = []
take (suc n) [] = []
take (suc n) (x ∷ xs) = x ∷ take n xs

abbrev pub drop {ℓ} : {A : Type ℓ} → ℕ → List A → List A
drop zero xs = xs
drop (suc n) [] = []
drop (suc n) (x ∷ xs) = drop n xs

-- A negative number is no limit: gorm's Limit and SQLite's LIMIT have it so.
abbrev pub limited {ℓ} : {A : Type ℓ} → Option ℕ → List A → List A
limited none xs = xs
limited (some n) xs = take n xs

abbrev pub latest_first : List ArchiveEntry → List ArchiveEntry
latest_first = order_by (λ (a b : ArchiveEntry). ltb b.received_at a.received_at)

unfoldable pub list_archive : ℕ → Option ℕ → ℕ → M (List ArchiveEntry)
list_archive list_id limit offset = do
  found ← find_all archive (λ e. e.list_id == list_id)
  pure (limited limit (drop offset (latest_first found)))

abbrev pub searched : Option (Indexed → Bool) → ℕ → Option ℕ → Db → Result (List ArchiveEntry)
searched none list_id limit d = err fault
searched (some matches) list_id limit d = ok (
    limited limit (
      latest_first (
        keep (λ e. e.list_id == list_id && any (λ f. f.rowid == e.id && matches f) d.archive_fts)
          d.archive.rows)))

-- What a query of the full-text index matches is an argument: none where the index refuses the query.
unfoldable pub search_archive :
    (Text → Option (Indexed → Bool)) → ℕ → Text → Option ℕ → M (List ArchiveEntry)
search_archive match_rows list_id query limit =
    statement λ d. (searched (match_rows query) list_id limit d, d)

unfoldable pub list_archive_since : ℕ → Time → M (List ArchiveEntry)
list_archive_since list_id since = do
  found ← find_all archive (λ e. e.list_id == list_id && ltb since e.received_at)
  pure (order_by (λ (a b : ArchiveEntry). ltb a.received_at b.received_at) found)

unfoldable pub get_archive_entry : ℕ → M ArchiveEntry
get_archive_entry id = find_first archive (λ e. e.id == id)

-- last_digest_sent_at IS NULL, or last_digest_sent_at <= from, which is false at NULL
abbrev pub watermark_stands : Option Time → Option Time → Bool
watermark_stands none none = true
watermark_stands none (some stored) = false
watermark_stands (some from) none = false
watermark_stands (some from) (some stored) = leb stored from

-- Whether a row was updated is what the caller learns.
unfoldable pub advance_digest_watermark : ℕ → Option Time → Time → M Bool
advance_digest_watermark list_id from to = statement λ d.
    let stands =
      λ (l : MailingList). l.id == list_id && watermark_stands from l.last_digest_sent_at in
    (
      ok (any stands d.lists.rows),
      record d { lists = update stands (λ l. record l { last_digest_sent_at = some to }) d.lists },
    )
