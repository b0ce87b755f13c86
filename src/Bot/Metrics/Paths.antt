-- ===== src/Bot/Metrics/Paths.antt =====
-- bot/metrics/paths.go: the names under which requests are counted and logged. Of `regexp` the code
-- uses sequences of literals and of repeated classes, where no repetition is followed by something
-- that its class has: the longest repetition is then the only one, and no backtracking is needed.
pub mod Cardinality
pub mod Matching
pub mod Webhooks
use catalogger.Base.{
  nat_eq, leb, if◌then◌else◌, length, take, drop, ◌==◌, contains, bytes, ℕ, zero, suc, ◌+◌, ◌-◌,
  ◌/◌, String, Bool, true, false, ◌&&◌, Option, none, some, List, [], ◌∷◌, ◌++◌,
}
use catalogger.Db.Crypt.{Text}

-- a literal, n digits or more, and one byte or more that is not among these
pub data Atom : Type 0 where
  lit : String → Atom
  digits : ℕ → Atom
  except : Text → Atom

abbrev pub is_digit : ℕ → Bool
is_digit b = leb 48 b && leb b 57

-- how many of the first bytes are digits, and how many are not among these
abbrev pub leading_digits : Text → ℕ
leading_digits [] = 0
leading_digits (b ∷ bs) = let more = leading_digits bs in if is_digit b then more + 1 else 0

abbrev pub leading_others : Text → Text → ℕ
leading_others set [] = 0
leading_others set (b ∷ bs) =
    let more = leading_others set bs in if contains set b then 0 else more + 1

abbrev pub is_prefix : Text → Text → Bool
is_prefix [] t = true
is_prefix (a ∷ as') [] = false
is_prefix (a ∷ as') (b ∷ bs) = a == b && is_prefix as' bs

-- the length of what the atom matches at the front
abbrev pub match_atom : Atom → Text → Option ℕ
match_atom (lit s) t = if is_prefix (bytes s) t then some (length (bytes s)) else none
match_atom (digits n) t = if leb n (leading_digits t) then some (leading_digits t) else none
match_atom (except set) t =
    if leb 1 (leading_others set t) then some (leading_others set t) else none

abbrev pub plus : ℕ → Option ℕ → Option ℕ
plus n none = none
plus n (some k) = some (n + k)

unfoldable pub match_all : List Atom → Text → Option ℕ
match_all [] t = some 0
match_all (a ∷ as') t = elim (match_atom a t) [
  | none ↦ none
  | some n ↦ plus n (match_all as' (drop n t))
]

-- `Regexp.ReplaceAll`: the text from the next byte on that is not part of the last match
unfoldable pub replace_from : List Atom → (Text → Text) → ℕ → Text → Text
replace_from re by skip [] = []
replace_from re by (suc skip) (b ∷ bs) = replace_from re by skip bs
replace_from re by zero (b ∷ bs) = elim (match_all re (b ∷ bs)) [
  | none ↦ b ∷ replace_from re by zero bs
  | some n ↦ by (take n (b ∷ bs)) ++ replace_from re by (n - 1) bs
]

abbrev pub replace_all_literal : List Atom → String → Text → Text
replace_all_literal re by t = replace_from re (λ matched. bytes by) 0 t

abbrev pub channels_regexp : List Atom
channels_regexp = lit "/channels/" ∷ digits 1 ∷ []

abbrev pub messages_regexp : List Atom
messages_regexp = lit "/messages/" ∷ digits 1 ∷ []

abbrev pub members_regexp : List Atom
members_regexp = lit "/members/" ∷ digits 1 ∷ []

abbrev pub webhooks_exec_regexp : List Atom
webhooks_exec_regexp = lit "/webhooks/" ∷ digits 1 ∷ lit "/" ∷ except (47 ∷ []) ∷ []

abbrev pub webhooks_regexp : List Atom
webhooks_regexp = lit "/webhooks/" ∷ digits 1 ∷ []

abbrev pub users_regexp : List Atom
users_regexp = lit "/users/" ∷ digits 1 ∷ []

abbrev pub bans_regexp : List Atom
bans_regexp = lit "/bans/" ∷ digits 1 ∷ []

abbrev pub roles_regexp : List Atom
roles_regexp = lit "/roles/" ∷ digits 1 ∷ []

abbrev pub pins_regexp : List Atom
pins_regexp = lit "/pins/" ∷ digits 1 ∷ []

abbrev pub emojis_regexp : List Atom
emojis_regexp = lit "/emojis/" ∷ digits 1 ∷ []

abbrev pub guilds_regexp : List Atom
guilds_regexp = lit "/guilds/" ∷ digits 1 ∷ []

abbrev pub integrations_regexp : List Atom
integrations_regexp = lit "/integrations/" ∷ digits 1 ∷ []

abbrev pub permissions_regexp : List Atom
permissions_regexp = lit "/permissions/" ∷ digits 1 ∷ []

abbrev pub user_reactions_regexp : List Atom
user_reactions_regexp = lit "/reactions/" ∷ except (123 ∷ 47 ∷ []) ∷ lit "/" ∷ digits 1 ∷ []

abbrev pub reactions_regexp : List Atom
reactions_regexp = lit "/reactions/" ∷ except (123 ∷ 47 ∷ []) ∷ []

abbrev pub invites_regexp : List Atom
invites_regexp = lit "/invites/" ∷ except (123 ∷ 47 ∷ []) ∷ []

abbrev pub interactions_response_regexp : List Atom
interactions_response_regexp =
    lit "/interactions/" ∷ digits 1 ∷ lit "/" ∷ except (123 ∷ 47 ∷ []) ∷ []

abbrev pub interactions_regexp : List Atom
interactions_regexp = lit "/interactions/" ∷ digits 1 ∷ []

abbrev pub snowflake_regexp : List Atom
snowflake_regexp = digits 15 ∷ []

-- the replacements but for the last, in order
abbrev pub path_rules : List (List Atom × String)
path_rules =
    (channels_regexp, "/channels/{channel_id}")
    ∷ (messages_regexp, "/messages/{message_id}")
    ∷ (members_regexp, "/members/{user_id}")
    ∷ (webhooks_exec_regexp, "/webhooks/{webhook_id}/{webhook_token}")
    ∷ (webhooks_regexp, "/webhooks/{webhook_id}")
    ∷ (users_regexp, "/users/{user_id}")
    ∷ (bans_regexp, "/bans/{user_id}")
    ∷ (roles_regexp, "/roles/{role_id}")
    ∷ (pins_regexp, "/pins/{message_id}")
    ∷ (emojis_regexp, "/emojis/{emoji_id}")
    ∷ (guilds_regexp, "/guilds/{guild_id}")
    ∷ (integrations_regexp, "/integrations/{integration_id}")
    ∷ (permissions_regexp, "/permissions/{overwrite_id}")
    ∷ (user_reactions_regexp, "/reactions/{emoji}/{user_id}")
    ∷ (reactions_regexp, "/reactions/{emoji}")
    ∷ (invites_regexp, "/invites/{invite_code}")
    ∷ (interactions_response_regexp, "/interactions/{interaction_id}/{interaction_token}")
    ∷ (interactions_regexp, "/interactions/{interaction_id}")
    ∷ []

abbrev pub apply_rules : List (List Atom × String) → Text → Text
apply_rules [] path = path
apply_rules ((re, by) ∷ rules) path = apply_rules rules (replace_all_literal re by path)

unfoldable pub normalize_path : Text → Text
normalize_path path =
    replace_all_literal snowflake_regexp "{snowflake}" (apply_rules path_rules path)

-- `/api/v\d+`
abbrev pub version_regexp : List Atom
version_regexp = lit "/api/v" ∷ digits 1 ∷ []

unfoldable pub endpoint_metrics_name : Text → Text → Text
endpoint_metrics_name method path =
    method ++ bytes " " ++ normalize_path (replace_all_literal version_regexp "" path)

-- `$1`, the digits after a literal
abbrev pub group_after : String → Text → Text
group_after s matched =
    let rest = drop (length (bytes s)) matched in take (leading_digits rest) rest

unfoldable pub logging_name : Text → Text
logging_name path =
    let path' =
      replace_from webhooks_exec_regexp
        (λ m. bytes "/webhooks/" ++ group_after "/webhooks/" m ++ bytes "/:token") 0 path in
    replace_from interactions_response_regexp
      (λ m. bytes "/interactions/" ++ group_after "/interactions/" m ++ bytes "/:token") 0 path'
