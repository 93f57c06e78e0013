-- ===== src/Result.antt =====
-- The errors that the program returns, as values, and results that carry one.
use xlistman.Strings.{Text}

-- The message that the source formats for an error is not modelled, except where it is fixed text.
pub data Error : Type 0 where
  -- address.go and verp.go: no "@"; an empty part; no "-bounces+"; no list name; no "="
  missing_at empty_part missing_marker empty_list_name missing_equals : Text → Error
  -- gorm.ErrRecordNotFound; a unique index; any other refusal of the database
  not_found duplicate fault : Error
  -- errors of the standard library's mail parser
  malformed : Error
  -- fmt.Errorf with fixed text
  said : Text → Error
  -- fmt.Errorf with fixed text and a name
  said_of : Text → Text → Error
  -- fmt.Errorf("...: %w", err)
  wrapped : Text → Error → Error

pub data Result (A : Type 0) : Type 0 where
  ok : A → Result A
  err : Error → Result A
