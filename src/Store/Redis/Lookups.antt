-- ===== src/Store/Redis/Lookups.antt =====
-- The other lookups of store/redis: invites, the guilds that are cached, and whether a member is kept.
use catalogger.Base.{
  text_eq_instance, nat_eq, if◌then◌else◌, Bool-cases, ◌==◌, ==_refl, ◌>>=◌, is_ok, Result-cases,
  Result, ok, err, ℕ, ◌≡◌, refl, ap, ◌∙◌, inl, inr, Bool, true, false, ◌&&◌, ◌||◌, Option, none,
  some, List, arith,
}
use catalogger.Discord.{Discord, same_id}
use catalogger.Db.Crypt.{Text}
use catalogger.Store.Server.{Redis, Json}
use catalogger.Store.Redis.{
  shown, guild_member_key, invites_key, cached_guilds_key, decode, member_exists, invites,
  set_invites_text, set_invites, is_guild_cached, mark_guild_cached,
}
use catalogger.Store.Redis.Keys.{shown_test, invites_key_test}

-- Once the invites of a guild are stored without an error, a lookup that Redis answers returns them,
-- and for every other guild what was stored there before, or that nothing was. Two invalid identifiers, as
-- 0 and null, have the same text and count as one.
pub invites-set_invites :
    {I : Type 0} (d : Discord) (r : Redis) (json : Json (List I)) (s : r.State) (guild other : ℕ)
    (is : List I)
    → (set_invites d r json s guild is).0 ≡ ok tt
    → is_ok (r.get (set_invites d r json s guild is).1 (invites_key d other)) ≡ true
    → invites d r json (set_invites d r json s guild is).1 other
      ≡ (if same_id d guild other then ok is else decode json (r.string_at s (invites_key d other)))
unfolding invites set_invites
invites-set_invites d r json s guild other is done answered =
    by_text (json.marshal is) refl done answered
  where
    by_text :
        (b : Result Text)
        → json.marshal is ≡ b
        → (set_invites_text d r json s guild b).0 ≡ ok tt
        → is_ok (r.get (set_invites_text d r json s guild b).1 (invites_key d other)) ≡ true
        → (r.get (set_invites_text d r json s guild b).1 (invites_key d other) >>= decode json) ≡ (
            if same_id d guild other
            then ok is
            else decode json (r.string_at s (invites_key d other)))
    by_text (err e) k done' up = absurd (ground arith)
    by_text (ok b) k done' up =
        elim (Result-cases (r.get (r.set s (invites_key d guild) b).1 (invites_key d other))) [
          | inr (e, h) ↦ absurd (ground arith)
          | inl (o, h) ↦
              ap (λ a. a >>= decode json) h
              ∙ ap (decode json) (
                  r.get_answer _ _ o h
                  ∙ r.string-set s (invites_key d guild) b (invites_key d other) done'
                  ∙ ap (λ t. if t then some b else r.string_at s (invites_key d other))
                      (invites_key_test d guild other))
              ∙ elim (Bool-cases (same_id d guild other)) [
                | inl v ↦ rw (v) (json.unmarshal-marshal is b k)
                | inr v ↦ rw (v) refl
              ]
        ]

-- Once a guild is marked without an error, a lookup that Redis answers finds exactly this guild and
-- those that were marked before.
pub is_guild_cached-mark_guild_cached :
    (d : Discord) (r : Redis) (s : r.State) (guild other : ℕ)
    → (mark_guild_cached d r s guild).0 ≡ ok tt
    → is_ok (r.sismember (mark_guild_cached d r s guild).1 cached_guilds_key (shown d other)) ≡ true
    → is_guild_cached d r (mark_guild_cached d r s guild).1 other
      ≡ ok (same_id d guild other || r.member_at s cached_guilds_key (shown d other))
unfolding is_guild_cached mark_guild_cached
is_guild_cached-mark_guild_cached d r s guild other done answered =
    elim (Result-cases (r.sismember s' cached_guilds_key (shown d other))) [
      | inr (e, h) ↦ absurd (ground arith)
      | inl (n, h) ↦
          ap (λ a. a >>= (λ (i : ℕ). ok (i == 1))) h
          ∙ ap (λ b. ok b)
              (ap (λ (i : ℕ). i == 1) (r.sismember_answer s' cached_guilds_key (shown d other) n h)
                ∙ as_one (r.member_at s' cached_guilds_key (shown d other))
                ∙ r.member-sadd s cached_guilds_key (shown d guild) cached_guilds_key
                    (shown d other) done
                ∙ ap
                    (λ b.
                      b && shown d guild == shown d other
                      || r.member_at s cached_guilds_key (shown d other))
                    (==_refl cached_guilds_key)
                ∙ ap (λ b. b || r.member_at s cached_guilds_key (shown d other))
                    (shown_test d guild other))
    ]
  where
    s' : r.State
    s' = (mark_guild_cached d r s guild).1

    as_one : (b : Bool) → ◌==◌ {A = ℕ} (if b then 1 else 0) 1 ≡ b
    as_one true = refl
    as_one false = refl

-- When Redis answers, `MemberExists` is true exactly if the hash of the guild has the user.
pub member_exists-held :
    (d : Discord) (r : Redis) (s : r.State) (guild user : ℕ)
    → is_ok (r.hexists s (guild_member_key d guild) (shown d user)) ≡ true
    → member_exists d r s guild user
      ≡ ok (elim (r.field_at s (guild_member_key d guild) (shown d user)) [
        | none ↦ false
        | some v ↦ true
      ])
unfolding member_exists
member_exists-held d r s guild user answered =
    elim (Result-cases (r.hexists s key (shown d user))) [
      | inr (e, h) ↦ absurd (ground arith)
      | inl (n, h) ↦
          ap (λ a. a >>= (λ (i : ℕ). ok (i == 1))) h
          ∙ ap (λ (i : ℕ). ok (i == 1)) (r.hexists_answer s key (shown d user) n h)
          ∙ as_one (r.field_at s key (shown d user))
    ]
  where
    key : Text
    key = guild_member_key d guild

    as_one :
        (o : Option Text)
        → ok (◌==◌ {A = ℕ} (elim o [ none ↦ 0 | some v ↦ 1 ]) 1)
          ≡ ok (elim o [ none ↦ false | some v ↦ true ])
    as_one none = refl
    as_one (some v) = refl
