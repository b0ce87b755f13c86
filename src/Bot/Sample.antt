-- ===== src/Bot/Sample.antt =====
-- Concrete answers of Discord, for the tests of webhooks and of `Send`.
use catalogger.Base.{
  nat_eq, if◌then◌else◌, Bool-cases, length, contains, external, ok, err, bytes, ℕ, zero, suc, ◌≡◌,
  refl, ap, ◌∙◌, inl, inr, true, false, none, some, List, [], ◌∷◌,
}
use catalogger.Discord.{Embed}
use catalogger.Discord.Sample.{sample, valid, units}
use catalogger.Db.Sample.{empty_db}
use catalogger.Store.Sample.{Kept}
use catalogger.Store.Redis.{shown}
use catalogger.Bot.Webhooks.{Decimal, Rest}
use catalogger.Bot.Send.{Outgoing, SendData}

units-length : (i : ℕ) → length (bytes (units i)) ≡ i
units-length zero = refl
units-length (suc i) = ap suc (units-length i)

units-contains : (i : ℕ) → contains (bytes (units i)) 58 ≡ false
units-contains zero = refl
units-contains (suc i) = units-contains i

pub length-shown : (i : ℕ) → valid i ≡ true → length (shown sample i) ≡ i
length-shown i v = ap (λ b. length (bytes (if b then units i else ""))) v ∙ units-length i

pub contains-shown : (i : ℕ) → contains (shown sample i) 58 ≡ false
contains-shown i = elim (Bool-cases (valid i)) [
  | inl v ↦ ap (λ b. contains (bytes (if b then units i else "")) 58) v ∙ units-contains i
  | inr v ↦ ap (λ b. contains (bytes (if b then units i else "")) 58) v
]

-- the decimal form is read by its length
abbrev pub sample_decimal : Decimal sample
sample_decimal = record {
  parse_snowflake = λ t. ok (length t);
  parse-shown = λ i v. ap (λ k. ok k) (length-shown i v);
  no_colon = contains-shown;
}

-- a channel has a webhook of another user and one of the bot
abbrev pub sample_rest : Rest
sample_rest = record {
  channel_webhooks = λ ch. ok (
      record { id = 4; token = 1 ∷ []; channel_id = ch; user_id = some 8 }
      ∷ record { id = 5; token = 58 ∷ 2 ∷ []; channel_id = ch; user_id = some 9 }
      ∷ []);
  create_webhook = λ ch. err (external 403);
  me = 9;
}

abbrev pub no_answer : Rest
no_answer = record {
  channel_webhooks = λ ch. err (external 500);
  create_webhook = λ ch. err (external 500);
  me = 9;
}

abbrev pub empty_redis : Kept
empty_redis = record { strings = []; hashes = []; sets = [] }

abbrev pub idle : Outgoing Kept
idle = record {
  db = empty_db;
  redis = empty_redis;
  queues = [];
  webhook_clients = [];
  journal = [];
}

abbrev pub note : ℕ → Embed
note i = record {
  title = i ∷ [];
  description = [];
  color = 0;
  author = none;
  fields = [];
  footer = [];
  timestamp = 0;
}

abbrev pub to_channel : ℕ → List Embed → SendData
to_channel ch es = record { channel_id = ch; embeds = es; files = [] }
