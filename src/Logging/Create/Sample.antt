-- ===== src/Logging/Create/Sample.antt =====
-- Concrete regular expressions and a concrete log message of PluralKit, for the tests.
use catalogger.Logging.Sample.{author, posted}
use catalogger.Logging.Create.{Patterns}
use catalogger.Discord.{PostedMessage, Embed}
use catalogger.Base.{is_empty, ℕ, not, none, List, [], ◌∷◌}

abbrev pub each : List ℕ → List (List ℕ)
each [] = []
each (n ∷ ns) = (n ∷ []) ∷ each ns

abbrev pub first_or_zero : List ℕ → ℕ
first_or_zero [] = 0
first_or_zero (n ∷ ns) = n

-- every group is one number of the footer
abbrev pub patterns : Patterns
patterns = record {
  is_link = λ t. not (is_empty t);
  footer_groups = each;
  parse_snowflake = first_or_zero;
}

abbrev pub log_embed : Embed
log_embed = record {
  title = [];
  description = [];
  color = 0;
  author = none;
  fields = [];
  footer = 0 ∷ 83 ∷ 77 ∷ 22 ∷ 5 ∷ 6 ∷ [];
  timestamp = 0;
}

-- says that message 5 of user 22 replaced message 6
abbrev pub pk_log : PostedMessage
pk_log = posted 9 (record author { id = 466378653216014359 }) (104 ∷ []) (log_embed ∷ [])
