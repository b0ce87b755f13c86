-- ===== src/Store/Server.antt =====
-- Redis, of which store/redis and bot/webhooks.go send commands over radix. A server is a parameter:
-- what it keeps, the commands that the code sends, each of which may fail, and what Redis documents
-- of them. A command that fails may have been executed or not, so nothing is said of it.
use catalogger.Base.{
  text_eq_instance, if◌then◌else◌, ◌==◌, Result, ok, ℕ, ◌≡◌, Bool, ◌&&◌, ◌||◌, Option, none, some,
  List, [], ◌∷◌,
}
use catalogger.Db.Crypt.{Text}
use catalogger.Base.GoMap

-- the field's value after the pairs were written in order
abbrev pub written : List (Text × Text) → Text → Option Text → Option Text
written [] f before = before
written ((g, v) ∷ fields) f before = written fields f (if g == f then some v else before)

pub record Redis : Type 1 where
  pub State : Type 0
  -- strings by key, fields of hashes by key and name, and members of sets
  pub string_at : State → Text → Option Text
  pub field_at : State → Text → Text → Option Text
  pub member_at : State → Text → Text → Bool
  pub get : State → Text → Result (Option Text)
  pub set : State → Text → Text → Result (Unit {0}) × State
  pub del : State → Text → Result (Unit {0}) × State
  pub hget : State → Text → Text → Result (Option Text)
  pub hset : State → Text → List (Text × Text) → Result (Unit {0}) × State
  pub hdel : State → Text → Text → Result (Unit {0}) × State
  pub hexists : State → Text → Text → Result ℕ
  pub hgetall : State → Text → Result (GoMap.GoMap Text Text)
  pub sadd : State → Text → Text → Result (Unit {0}) × State
  pub sismember : State → Text → Text → Result ℕ
  -- answers
  pub get_answer : (s : State) (k : Text) (o : Option Text) → get s k ≡ ok o → o ≡ string_at s k
  pub hget_answer :
      (s : State) (k f : Text) (o : Option Text) → hget s k f ≡ ok o → o ≡ field_at s k f
  pub hexists_answer :
      (s : State) (k f : Text) (n : ℕ)
      → hexists s k f ≡ ok n
      → n ≡ elim (field_at s k f) [ none ↦ 0 | some v ↦ 1 ]
  pub hgetall_answer :
      (s : State) (k : Text) (m : GoMap.GoMap Text Text)
      → hgetall s k ≡ ok m
      → (f : Text) → GoMap.get m f ≡ field_at s k f
  pub sismember_answer :
      (s : State) (k v : Text) (n : ℕ)
      → sismember s k v ≡ ok n
      → n ≡ (if member_at s k v then 1 else 0)
  -- effects on what the command is about
  pub string-set :
      (s : State) (k v j : Text)
      → (set s k v).0 ≡ ok tt
      → string_at (set s k v).1 j ≡ (if k == j then some v else string_at s j)
  pub string-del :
      (s : State) (k j : Text)
      → (del s k).0 ≡ ok tt
      → string_at (del s k).1 j ≡ (if k == j then none else string_at s j)
  pub field-hset :
      (s : State) (k : Text) (fields : List (Text × Text)) (j f : Text)
      → (hset s k fields).0 ≡ ok tt
      → field_at (hset s k fields).1 j f
        ≡ (if k == j then written fields f (field_at s j f) else field_at s j f)
  pub field-hdel :
      (s : State) (k g j f : Text)
      → (hdel s k g).0 ≡ ok tt
      → field_at (hdel s k g).1 j f ≡ (if k == j && g == f then none else field_at s j f)
  pub member-sadd :
      (s : State) (k v j u : Text)
      → (sadd s k v).0 ≡ ok tt
      → member_at (sadd s k v).1 j u ≡ (k == j && v == u || member_at s j u)

-- `json.Marshal` and `json.Unmarshal` at a type, with what is documented of them together
pub record Json (T : Type 0) : Type 0 where
  pub marshal : T → Result Text
  pub unmarshal : Text → Result T
  pub unmarshal-marshal : (t : T) (b : Text) → marshal t ≡ ok b → unmarshal b ≡ ok t

-- a server that executes every `GET` and `SET`
pub record IsUp (r : Redis) : Type 0 where
  pub gets : (s : r.State) (k : Text) → r.get s k ≡ ok (r.string_at s k)
  pub sets : (s : r.State) (k v : Text) → (r.set s k v).0 ≡ ok tt
