-- ===== src/Db/Sample.antt =====
-- A concrete cipher and source of randomness, and concrete data for the tests of the database.
use catalogger.Discord.{Embed}
use catalogger.Base.{
  nat_eq, if◌then◌else◌, length, ◌==◌, ok-inj, Result, external, ok, err, ℕ, zero, suc, ◌+◌, ◌-◌,
  ◌≡◌, refl, sym, ap, Option, none, some, List, [], ◌∷◌, arith,
}
use catalogger.Db.Crypt.{Text, Gcm, Crypto}
use catalogger.Db.Tables.{Db}
use catalogger.Db.Rows.{Metadata, Message, Services}

-- a cipher that shifts each byte by the length of the nonce
abbrev pub shift_up : Text → Text → Text
shift_up nonce [] = []
shift_up nonce (b ∷ bs) = (b + length nonce) ∷ shift_up nonce bs

abbrev pub shift_down : Text → Text → Text
shift_down nonce [] = []
shift_down nonce (b ∷ bs) = (b - length nonce) ∷ shift_down nonce bs

pub shift_down-shift_up : (nonce text : Text) → shift_down nonce (shift_up nonce text) ≡ text
shift_down-shift_up nonce [] = refl
shift_down-shift_up nonce (b ∷ bs) = ground (arith, shift_down-shift_up nonce bs)

abbrev pub shift_gcm : Gcm
shift_gcm = record {
  nonce_size = 3;
  seal = shift_up;
  open_sealed = λ nonce text. ok (shift_down nonce text);
  open-seal = λ nonce text h. ap (λ t. ok t) (shift_down-shift_up nonce text);
}

abbrev pub repeated : ℕ → ℕ → Text
repeated x zero = []
repeated x (suc n) = x ∷ repeated x n

pub length-repeated : (x n : ℕ) → length (repeated x n) ≡ n
length-repeated x zero = refl
length-repeated x (suc n) = ap suc (length-repeated x n)

-- The tenth read of the source of randomness fails.
abbrev pub random_bytes : ℕ → ℕ → Result Text
random_bytes i n = if i == 9 then err (external 5) else ok (repeated i n)

pub length-random_bytes : (i n : ℕ) (r : Text) → random_bytes i n ≡ ok r → length r ≡ n
length-random_bytes i n r e = ground (arith, length-repeated i n)

abbrev pub shift_crypto : Crypto
shift_crypto = record {
  gcm = λ key. ok shift_gcm;
  random = random_bytes;
  length-random = length-random_bytes;
}

-- metadata that has a username, and with a user a picture of one byte
abbrev pub marshal_username : Option ℕ → Text → List Embed → Text → Result Text
marshal_username none [] [] name = ok (0 ∷ name)
marshal_username (some o) (x ∷ []) [] name = ok (1 ∷ o ∷ x ∷ name)
marshal_username _ _ _ _ = err (external 6)

abbrev pub unmarshal_username : Text → Result Metadata
unmarshal_username (zero ∷ b) =
    ok (record { user_id = none; username = b; avatar = []; embeds = [] })
unmarshal_username (suc n ∷ o ∷ x ∷ b) =
    ok (record { user_id = some o; username = b; avatar = x ∷ []; embeds = [] })
unmarshal_username _ = err (external 6)

pub unmarshal-marshal_username :
    (o : Option ℕ) (a : Text) (es : List Embed) (name b : Text)
    → marshal_username o a es name ≡ ok b
    → unmarshal_username b ≡ ok (record { user_id = o; username = name; avatar = a; embeds = es })
unmarshal-marshal_username none [] [] name b e = ap unmarshal_username (sym (ok-inj (0 ∷ name) b e))
unmarshal-marshal_username (some o) (x ∷ []) [] name b e =
    ap unmarshal_username (sym (ok-inj (1 ∷ o ∷ x ∷ name) b e))
unmarshal-marshal_username none [] (x ∷ xs) name b e = absurd (ground arith)
unmarshal-marshal_username none (x ∷ xs) es name b e = absurd (ground arith)
unmarshal-marshal_username (some o) [] es name b e = absurd (ground arith)
unmarshal-marshal_username (some o) (x ∷ []) (y ∷ ys) name b e = absurd (ground arith)
unmarshal-marshal_username (some o) (x ∷ y ∷ ys) es name b e = absurd (ground arith)

abbrev pub sample_services : Services
sample_services = record {
  crypto = shift_crypto;
  aes_key = 1 ∷ [];
  marshal = λ md. marshal_username md.user_id md.avatar md.embeds md.username;
  unmarshal = unmarshal_username;
  unmarshal-marshal =
      λ md b e. unmarshal-marshal_username md.user_id md.avatar md.embeds md.username b e;
}

abbrev pub sample_message : ℕ → Text → Message
sample_message id content = record {
  id = id;
  original_id = some 7;
  user_id = 21;
  channel_id = 31;
  guild_id = 41;
  content = content;
  username = 97 ∷ 98 ∷ [];
  member = none;
  system = none;
  metadata = some (record { user_id = none; username = 99 ∷ []; avatar = []; embeds = [] });
  attachment_size = 55;
}

abbrev pub empty_db : Db
empty_db = record { messages = []; ignored_messages = 13 ∷ []; guilds = []; faults = []; draws = 0 }
