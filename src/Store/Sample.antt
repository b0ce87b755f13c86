-- ===== src/Store/Sample.antt =====
-- A concrete server that keeps maps and never fails, which has what is asked of Redis, for the tests;
-- and JSON for a list of numbers and for members, where text is any list of numbers.
use catalogger.Base.{
  text_eq_instance, if◌then◌else◌, Bool-cases, branch, ◌==◌, ok-inj, Result, external, ok, err,
  text_eq_iff, ℕ, ◌≡◌, refl, sym, ap, ◌∙◌, inl, inr, Bool, true, false, ◌&&◌, ◌||◌, Option, none,
  some, List, [], ◌∷◌, arith,
}
use catalogger.Base.GoMap
use catalogger.Base.GoMap.{get-put, get-del}
use catalogger.Discord.{Member}
use catalogger.Db.Crypt.{Text}
use catalogger.Store.Server.{Redis, Json, IsUp, written}

pub record Kept : Type 0 where
  pub strings : GoMap.GoMap Text Text
  pub hashes : GoMap.GoMap Text (GoMap.GoMap Text Text)
  pub sets : GoMap.GoMap Text (GoMap.GoMap Text Text)

-- a key that is not there has no fields
abbrev fields_of : Option (GoMap.GoMap Text Text) → GoMap.GoMap Text Text
fields_of none = []
fields_of (some m) = m

abbrev put_all : GoMap.GoMap Text Text → List (Text × Text) → GoMap.GoMap Text Text
put_all m [] = m
put_all m ((f, v) ∷ fields) = put_all (GoMap.put m f v) fields

abbrev hash_at : Kept → Text → GoMap.GoMap Text Text
hash_at s k = fields_of (GoMap.get s.hashes k)

abbrev is_there : Option Text → Bool
is_there none = false
is_there (some v) = true

abbrev set_has : Kept → Text → Text → Bool
set_has s k v = is_there (GoMap.get (fields_of (GoMap.get s.sets k)) v)

get-put_all :
    (m : GoMap.GoMap Text Text) (fields : List (Text × Text)) (f : Text)
    → GoMap.get (put_all m fields) f ≡ written fields f (GoMap.get m f)
get-put_all m [] f = refl
get-put_all m ((g, v) ∷ fields) f =
    get-put_all (GoMap.put m g v) fields f ∙ ap (written fields f) (get-put m g v f)

pub field-hset :
    (s : Kept) (k : Text) (fields : List (Text × Text)) (j f : Text)
    → GoMap.get (fields_of (GoMap.get (GoMap.put s.hashes k (put_all (hash_at s k) fields)) j)) f
      ≡ (if k == j then written fields f (GoMap.get (hash_at s j) f) else GoMap.get (hash_at s j) f)
field-hset s k fields j f = elim (Bool-cases (k == j)) [
  | inr h ↦ rw (get-put s.hashes k (put_all (hash_at s k) fields) j, h) refl
  | inl h ↦
      rw (get-put s.hashes k (put_all (hash_at s k) fields) j, h)
        (get-put_all (hash_at s k) fields f
          ∙ ap (λ i. written fields f (GoMap.get (hash_at s i) f)) ((text_eq_iff k j).0 h))
]

pub field-hdel :
    (s : Kept) (k g j f : Text)
    → GoMap.get (fields_of (GoMap.get (GoMap.put s.hashes k (GoMap.del (hash_at s k) g)) j)) f
      ≡ (if k == j && g == f then none else GoMap.get (hash_at s j) f)
field-hdel s k g j f = elim (Bool-cases (k == j)) [
  | inr h ↦ rw (get-put s.hashes k (GoMap.del (hash_at s k) g) j, h) refl
  | inl h ↦
      rw (get-put s.hashes k (GoMap.del (hash_at s k) g) j, h)
        (get-del (hash_at s k) g f
          ∙ ap (λ i. if g == f then none else GoMap.get (hash_at s i) f) ((text_eq_iff k j).0 h))
]

pub member-sadd :
    (s : Kept) (k v j u : Text)
    → is_there (
        GoMap.get
          (fields_of
            (GoMap.get (GoMap.put s.sets k (GoMap.put (fields_of (GoMap.get s.sets k)) v [])) j))
          u)
      ≡ (k == j && v == u || set_has s j u)
member-sadd s k v j u = elim (Bool-cases (k == j)) [
  | inr h ↦ rw (get-put s.sets k (GoMap.put (fields_of (GoMap.get s.sets k)) v []) j, h) refl
  | inl h ↦
      rw (get-put s.sets k (GoMap.put (fields_of (GoMap.get s.sets k)) v []) j, h)
        (ap is_there (get-put (fields_of (GoMap.get s.sets k)) v [] u)
          ∙ branch (λ o. is_there o ≡ (v == u || set_has s k u)) (v == u) _ _ (λ e. rw (e) refl)
              (λ e. rw (e) refl)
          ∙ ap (λ i. v == u || set_has s i u) ((text_eq_iff k j).0 h))
]

abbrev pub sample_redis : Redis
sample_redis = record {
  State = Kept;
  string_at = λ s k. GoMap.get s.strings k;
  field_at = λ s k f. GoMap.get (hash_at s k) f;
  member_at = set_has;
  get = λ s k. ok (GoMap.get s.strings k);
  set = λ s k v. (ok tt, record s { strings = GoMap.put s.strings k v });
  del = λ s k. (ok tt, record s { strings = GoMap.del s.strings k });
  hget = λ s k f. ok (GoMap.get (hash_at s k) f);
  hset = λ s k fields.
      (ok tt, record s { hashes = GoMap.put s.hashes k (put_all (hash_at s k) fields) });
  hdel = λ s k f. (ok tt, record s { hashes = GoMap.put s.hashes k (GoMap.del (hash_at s k) f) });
  hexists = λ s k f. ok (elim (GoMap.get (hash_at s k) f) [ none ↦ 0 | some v ↦ 1 ]);
  hgetall = λ s k. ok (hash_at s k);
  sadd = λ s k v. (
    ok tt,
    record s { sets = GoMap.put s.sets k (GoMap.put (fields_of (GoMap.get s.sets k)) v []) },
  );
  sismember = λ s k v. ok (if set_has s k v then 1 else 0);
  get_answer = λ s k o h. sym (ok-inj _ _ h);
  hget_answer = λ s k f o h. sym (ok-inj _ _ h);
  hexists_answer = λ s k f n h. sym (ok-inj _ _ h);
  hgetall_answer = λ s k m h f. ap (λ x. GoMap.get x f) (sym (ok-inj _ _ h));
  sismember_answer = λ s k v n h. sym (ok-inj _ _ h);
  string-set = λ s k v j h. get-put s.strings k v j;
  string-del = λ s k j h. get-del s.strings k j;
  field-hset = λ s k fields j f h. field-hset s k fields j f;
  field-hdel = λ s k g j f h. field-hdel s k g j f;
  member-sadd = λ s k v j u h. member-sadd s k v j u;
}

-- a list of numbers is its own text
abbrev pub sample_json : Json Text
sample_json = record {
  marshal = λ t. ok t;
  unmarshal = λ t. ok t;
  unmarshal-marshal = λ t b h. ap (λ x. ok x) (sym (ok-inj t b h));
}

-- a member whose user has a username only
abbrev pub member_text : ℕ → Text → Text → Text → Text → List ℕ → Result Text
member_text id name [] [] [] [] = ok (id ∷ name)
member_text id name _ _ _ _ = err (external 6)

abbrev pub read_member : Text → Result Member
read_member [] = err (external 6)
read_member (id ∷ name) = ok (record {
  user = record { id = id; username = name; tag = []; avatar = [] };
  nick = [];
  role_ids = [];
})

pub read_member-member_text :
    (id : ℕ) (name tag avatar nick : Text) (roles : List ℕ) (b : Text)
    → member_text id name tag avatar nick roles ≡ ok b
    → read_member b
      ≡ ok (record {
        user = record { id = id; username = name; tag = tag; avatar = avatar };
        nick = nick;
        role_ids = roles;
      })
read_member-member_text id name [] [] [] [] b h = ap read_member (sym (ok-inj (id ∷ name) b h))
read_member-member_text id name (x ∷ xs) avatar nick roles b h = absurd (ground arith)
read_member-member_text id name [] (x ∷ xs) nick roles b h = absurd (ground arith)
read_member-member_text id name [] [] (x ∷ xs) roles b h = absurd (ground arith)
read_member-member_text id name [] [] [] (x ∷ xs) b h = absurd (ground arith)

abbrev pub member_json : Json Member
member_json = record {
  marshal = λ m. member_text m.user.id m.user.username m.user.tag m.user.avatar m.nick m.role_ids;
  unmarshal = read_member;
  unmarshal-marshal = λ m b h.
      read_member-member_text m.user.id m.user.username m.user.tag m.user.avatar m.nick m.role_ids b
        h;
}

pub sample_IsUp : IsUp sample_redis
sample_IsUp = record { gets = λ s k. refl; sets = λ s k v. refl }
