-- ===== src/Bot/Metrics/Paths/Webhooks.antt =====
-- The names of webhooks' endpoints (bot/metrics/paths.go).
use catalogger.Base.{
  nat_eq, length, drop, length-append, ◌==◌, contains, bytes, ℕ, suc, ◌+◌, ◌-◌, String, ◌≡◌, refl,
  ap, ◌∙◌, true, false, some, List, [], ◌∷◌, ◌++◌, arith,
}
use catalogger.Db.Crypt.{Text}
use catalogger.Bot.Metrics.Paths.{
  plus, match_all, replace_all_literal, version_regexp, webhooks_exec_regexp, snowflake_regexp,
  path_rules, apply_rules, normalize_path, endpoint_metrics_name, digits, except, is_digit,
  replace_from, Atom, lit,
}
use catalogger.Bot.Metrics.Paths.Matching.{
  replace_from-some, all_digits, is_number, is_segment, replace_from-skip, IsKept, cons-IsKept,
  word-IsKept, tail-IsKept, other_byte, is_prefix-other, match_all-digits_slash, match_all-segment,
  replace_from-whole,
}

-- the path under which a webhook with a token is executed, and a path with the version of the API
abbrev pub webhook_path : Text → Text → Text
webhook_path id token = bytes "/webhooks/" ++ (id ++ 47 ∷ token)

abbrev pub api_path : Text → Text → Text
api_path version path = bytes "/api/v" ++ (version ++ path)

-- the paths of webhooks, where the literal goes on with another letter than theirs
module _ (s : String) (rest : List Atom) (by : Text → Text) (c : ℕ) (l : Text)
    (starts : bytes s ≡ 47 ∷ c ∷ l) (closed : contains (c ∷ l) 47 ≡ true)
    (other : (c == 119) ≡ false) (letter : is_digit c ≡ false) where
  webhook_path-IsKept :
      (id token : Text)
      → is_number id ≡ true
      → is_segment token ≡ true
      → replace_from (lit s ∷ rest) by 0 (webhook_path id token) ≡ webhook_path id token
  unfolding IsKept
  webhook_path-IsKept [] token h g = absurd (ground arith)
  webhook_path-IsKept (d ∷ ds) token h g =
      let step = cons-IsKept s rest by (c ∷ l) starts closed in
      let tail =
        tail-IsKept s rest by (c ∷ l) starts closed (d ∷ ds) token (number h) (segment g) in
      step 47 _ (is_prefix-other c 119 l (bytes "ebhooks" ++ 47 ∷ d ∷ (ds ++ 47 ∷ token)) other) (
        word-IsKept s rest by (c ∷ l) starts closed (bytes "webhooks") _ refl
          (step 47 _ (is_prefix-other c d l (ds ++ 47 ∷ token) (differ (number h))) tail))
    where
      number : is_number (d ∷ ds) ≡ true → all_digits (d ∷ ds) ≡ true
      number x = ground arith

      segment : is_segment token ≡ true → contains token 47 ≡ false
      segment x = ground arith

      differ : all_digits (d ∷ ds) ≡ true → (c == d) ≡ false
      differ x = other_byte c d letter (ground arith)

length-webhook_path :
    (id token : Text) → 10 + (length id + (1 + (length token + 0))) ≡ length (webhook_path id token)
length-webhook_path id token = counted (length id) (length token) _ (length-append id (47 ∷ token))
  where
    counted :
        (m n k : ℕ)
        → k ≡ m + suc n
        → 10 + (m + (1 + (n + 0))) ≡ suc (suc (suc (suc (suc (suc (suc (suc (suc (suc k)))))))))
    counted m n k e = omega arith

exec-webhook_path :
    (by : Text → Text) (id token : Text)
    → is_number id ≡ true
    → is_segment token ≡ true
    → replace_from webhooks_exec_regexp by 0 (webhook_path id token) ≡ by (webhook_path id token)
unfolding match_all
exec-webhook_path by id token h g =
    replace_from-whole webhooks_exec_regexp by 47 (bytes "webhooks/" ++ (id ++ 47 ∷ token)) (
      ap (plus 10) (
        match_all-digits_slash (lit "/" ∷ except (47 ∷ []) ∷ []) id token h
        ∙ ap (λ o. plus (length id) (plus 1 o)) (match_all-segment token g))
      ∙ ap some (length-webhook_path id token))

version-api_path :
    (version path : Text)
    → is_number version ≡ true
    → replace_all_literal version_regexp "" (api_path version (47 ∷ path))
      ≡ replace_all_literal version_regexp "" (47 ∷ path)
unfolding match_all
version-api_path version path h =
    replace_from-some version_regexp (λ m. bytes "") 47 (bytes "api/v" ++ (version ++ 47 ∷ path))
      (6 + (length version + 0)) (ap (plus 6) (match_all-digits_slash [] version path h))
    ∙ ap
        (λ n.
          replace_from version_regexp (λ m. bytes "") n (bytes "api/v" ++ (version ++ 47 ∷ path)))
        (one_less (length version))
    ∙ replace_from-skip version_regexp (λ m. bytes "") (bytes "api/v" ++ version) (47 ∷ path)
  where
    one_less : (n : ℕ) → 6 + (n + 0) - 1 ≡ suc (suc (suc (suc (suc n))))
    one_less n = omega arith

-- what is left is constant
abbrev named_webhook : Text
named_webhook = bytes "/webhooks/{webhook_id}/{webhook_token}"

normalize_path-webhook_path :
    (id token : Text)
    → is_number id ≡ true
    → is_segment token ≡ true
    → normalize_path (webhook_path id token) ≡ named_webhook
unfolding normalize_path replace_from match_all
normalize_path-webhook_path id token h g = ap (replace_all_literal snowflake_regexp "{snowflake}") (
    ap (apply_rules (drop 1 path_rules)) (
      webhook_path-IsKept "/channels/" (digits 1 ∷ []) (λ m. bytes "/channels/{channel_id}") 99
        (bytes "hannels/") refl refl refl refl id token h g)
    ∙ ap (apply_rules (drop 2 path_rules)) (
        webhook_path-IsKept "/messages/" (digits 1 ∷ []) (λ m. bytes "/messages/{message_id}") 109
          (bytes "essages/") refl refl refl refl id token h g)
    ∙ ap (apply_rules (drop 3 path_rules)) (
        webhook_path-IsKept "/members/" (digits 1 ∷ []) (λ m. bytes "/members/{user_id}") 109
          (bytes "embers/") refl refl refl refl id token h g)
    ∙ ap (apply_rules (drop 4 path_rules)) (exec-webhook_path (λ m. named_webhook) id token h g))

-- A request whose path is `/api/v`, digits, `/webhooks/`, digits, a slash and a token (one byte or more
-- without a slash) is counted under one name for each method, whatever the version of the API, the
-- identifier and the token: neither identifiers nor tokens of webhooks make counters of their own.
pub endpoint_metrics_name-webhook_path :
    (method version id token : Text)
    → is_number version ≡ true
    → is_number id ≡ true
    → is_segment token ≡ true
    → endpoint_metrics_name method (api_path version (webhook_path id token))
      ≡ method ++ bytes " " ++ bytes "/webhooks/{webhook_id}/{webhook_token}"
unfolding endpoint_metrics_name
endpoint_metrics_name-webhook_path method version id token v h g =
    ap (λ t. method ++ bytes " " ++ t)
      (ap normalize_path (
          version-api_path version _ v
          ∙ webhook_path-IsKept "/api/v" (digits 1 ∷ []) (λ m. bytes "") 97 (bytes "pi/v") refl refl
              refl refl id token h g)
        ∙ normalize_path-webhook_path id token h g)
