-- ===== src/Store/Redis/Members.antt =====
-- The members in Redis (store/redis/member.go) against a map from guilds and users to members.
use catalogger.Base.{
  text_eq_instance, nat_eq, if◌then◌else◌, branch, ◌==◌, ◌>>=◌, is_ok, Result-cases, bind-inv,
  ok-inj, Result, ok, err, ℕ, ◌≡◌, refl, sym, ap, ◌∙◌, inl, inr, Bool, true, ◌&&◌, Option, some,
  List, [], ◌∷◌, arith,
}
use catalogger.Store.Redis.{
  set_marshaled, set_args, member, shown, guild_member_key, decode, set_member, member_args,
  set_members, delete_member,
}
use catalogger.Discord.{Discord, Member, same_id}
use catalogger.Db.Crypt.{Text}
use catalogger.Store.Interface.{err_not_found}
use catalogger.Store.Server.{Redis, Json, written}
use catalogger.Store.Redis.Keys.{shown_test, guild_member_key_test}

-- the calls that change the members
pub data MemberCall : Type 0 where
  sets : ℕ → Member → MemberCall
  sets_all : ℕ → List Member → MemberCall
  deletes : ℕ → ℕ → MemberCall

-- an independent description: what the store answers of a user of a guild
abbrev pub Answers : Type 0
Answers = ℕ → ℕ → Result Member

-- Identifiers are told apart by their text.
module _ (d : Discord) where
  abbrev pub known : Member → ℕ → Result Member → Result Member
  known m id before = if same_id d m.user.id id then ok m else before

  abbrev pub last_known : List Member → ℕ → Result Member → Result Member
  last_known [] id before = before
  last_known (m ∷ ms) id before = last_known ms id (known m id before)

  abbrev pub spec_call : Answers → MemberCall → Answers
  spec_call a (sets g m) h id = if same_id d g h then known m id (a h id) else a h id
  spec_call a (sets_all g ms) h id = if same_id d g h then last_known ms id (a h id) else a h id
  spec_call a (deletes g user) h id =
      if same_id d g h && same_id d user id then err err_not_found else a h id

  abbrev pub spec_calls : Answers → List MemberCall → Answers
  spec_calls a [] = a
  spec_calls a (c ∷ cs) = spec_calls (spec_call a c) cs

is_ok-tt : (r : Result (Unit {0})) → is_ok r ≡ true → r ≡ ok tt
is_ok-tt (ok tt) h = refl
is_ok-tt (err e) h = absurd (ground arith)

module _ (d : Discord) (r : Redis) (json : Json Member) where
  abbrev pub member_call : r.State → MemberCall → Result (Unit {0}) × r.State
  member_call s (sets g m) = set_member d r json s g m
  member_call s (sets_all g ms) = set_members d r json s g ms
  member_call s (deletes g user) = delete_member d r json s g user

  abbrev pub member_calls : r.State → List MemberCall → r.State
  member_calls s [] = s
  member_calls s (c ∷ cs) = member_calls (member_call s c).1 cs

  -- every call returned without an error
  abbrev pub all_done : r.State → List MemberCall → Bool
  all_done s [] = true
  all_done s (c ∷ cs) = is_ok (member_call s c).0 && all_done (member_call s c).1 cs

  -- what stands in the hash of the guild
  abbrev pub held : r.State → Answers
  held s h id = decode json (r.field_at s (guild_member_key d h) (shown d id))

  decode-known :
      (m : Member) (b : Text) (id : ℕ) (before : Option Text)
      → json.marshal m ≡ ok b
      → decode json (if shown d m.user.id == shown d id then some b else before)
        ≡ known d m id (decode json before)
  decode-known m b id before h = rw (shown_test d m.user.id id) (
      branch (λ o. decode json o ≡ known d m id (decode json before)) (same_id d m.user.id id)
        (some b) before
        (λ v.
          json.unmarshal-marshal m b h ∙ ap (λ c. if c then ok m else decode json before) (sym v))
        (λ v. ap (λ c. if c then ok m else decode json before) (sym v)))

  decode-written :
      (ms : List Member) (args : List (Text × Text)) (id : ℕ) (before : Option Text)
      → member_args d r json ms ≡ ok args
      → decode json (written args (shown d id) before) ≡ last_known d ms id (decode json before)
  decode-written [] args id before h =
      ap (λ xs. decode json (written xs (shown d id) before)) (sym (ok-inj [] args h))
  decode-written (m ∷ ms) args id before h =
      let (b, hb, h') =
        bind-inv (json.marshal m)
          (λ b. member_args d r json ms >>= (λ rest. ok ((shown d m.user.id, b) ∷ rest))) args h in
      let (rest, hr, e) =
        bind-inv (member_args d r json ms) (λ rest. ok ((shown d m.user.id, b) ∷ rest)) args h' in
      ap (λ xs. decode json (written xs (shown d id) before))
        (sym (ok-inj ((shown d m.user.id, b) ∷ rest) args e))
      ∙ decode-written ms rest id _ hr
      ∙ ap (last_known d ms id) (decode-known m b id before hb)

  held-hset :
      (s : r.State) (g : ℕ) (args : List (Text × Text)) (h id : ℕ)
      → (r.hset s (guild_member_key d g) args).0 ≡ ok tt
      → held (r.hset s (guild_member_key d g) args).1 h id ≡ (
          if same_id d g h
          then decode json
              (written args (shown d id) (r.field_at s (guild_member_key d h) (shown d id)))
          else held s h id)
  held-hset s g args h id done =
      rw
        (
          r.field-hset s (guild_member_key d g) args (guild_member_key d h) (shown d id) done,
          guild_member_key_test d g h,
        )
        (branch
          (λ o. decode json o ≡ (
            if same_id d g h
            then decode json
                (written args (shown d id) (r.field_at s (guild_member_key d h) (shown d id)))
            else held s h id))
          (same_id d g h) _ _ (λ v. rw (v) refl) (λ v. rw (v) refl))

  held-set_members :
      (s : r.State) (g : ℕ) (ms : List Member) (h id : ℕ)
      → (set_members d r json s g ms).0 ≡ ok tt
      → held (set_members d r json s g ms).1 h id ≡ spec_call d (held s) (sets_all g ms) h id
  unfolding set_members
  held-set_members s g ms h id done = by_args (member_args d r json ms) refl done
    where
      by_args :
          (a : Result (List (Text × Text)))
          → member_args d r json ms ≡ a
          → (set_args d r json s g a).0 ≡ ok tt
          → held (set_args d r json s g a).1 h id ≡ spec_call d (held s) (sets_all g ms) h id
      by_args (err e) k done' = absurd (ground arith)
      by_args (ok args) k done' =
          held-hset s g args h id done'
          ∙ ap (λ x. if same_id d g h then x else held s h id) (decode-written ms args id _ k)

  held-set_member :
      (s : r.State) (g : ℕ) (m : Member) (h id : ℕ)
      → (set_member d r json s g m).0 ≡ ok tt
      → held (set_member d r json s g m).1 h id ≡ spec_call d (held s) (sets g m) h id
  unfolding set_member
  held-set_member s g m h id done = by_text (json.marshal m) refl done
    where
      by_text :
          (a : Result Text)
          → json.marshal m ≡ a
          → (set_marshaled d r json s g m.user.id a).0 ≡ ok tt
          → held (set_marshaled d r json s g m.user.id a).1 h id
            ≡ spec_call d (held s) (sets g m) h id
      by_text (err e) k done' = absurd (ground arith)
      by_text (ok b) k done' =
          held-hset s g ((shown d m.user.id, b) ∷ []) h id done'
          ∙ ap (λ x. if same_id d g h then x else held s h id) (decode-known m b id _ k)

  held-delete_member :
      (s : r.State) (g user h id : ℕ)
      → (delete_member d r json s g user).0 ≡ ok tt
      → held (delete_member d r json s g user).1 h id ≡ spec_call d (held s) (deletes g user) h id
  unfolding delete_member
  held-delete_member s g user h id done =
      rw
        (
          r.field-hdel s (guild_member_key d g) (shown d user) (guild_member_key d h) (shown d id)
              done,
          guild_member_key_test d g h,
          shown_test d user id,
        )
        (branch
          (λ o.
            decode json o
            ≡ (if same_id d g h && same_id d user id then err err_not_found else held s h id))
          (same_id d g h && same_id d user id) _ _ (λ v. rw (v) refl) (λ v. rw (v) refl))

  held-call :
      (s : r.State) (c : MemberCall) (h id : ℕ)
      → is_ok (member_call s c).0 ≡ true
      → held (member_call s c).1 h id ≡ spec_call d (held s) c h id
  held-call s (sets g m) h id done = held-set_member s g m h id (is_ok-tt _ done)
  held-call s (sets_all g ms) h id done = held-set_members s g ms h id (is_ok-tt _ done)
  held-call s (deletes g user) h id done = held-delete_member s g user h id (is_ok-tt _ done)

  held-calls :
      (s : r.State) (cs : List MemberCall) (a : Answers) (h id : ℕ)
      → all_done s cs ≡ true
      → ((g i : ℕ) → held s g i ≡ a g i)
      → held (member_calls s cs) h id ≡ spec_calls d a cs h id
  held-calls s [] a h id done same = same h id
  held-calls s (c ∷ cs) a h id done same =
      let (now, later) = both _ _ done in
      held-calls (member_call s c).1 cs (spec_call d a c) h id later
        (λ g i. held-call s c g i now ∙ spec_call-same c g i)
    where
      both : (x y : Bool) → (x && y) ≡ true → (x ≡ true) × (y ≡ true)
      both x y e = ground arith

      spec_call-same : (c : MemberCall) (g i : ℕ) → spec_call d (held s) c g i ≡ spec_call d a c g i
      spec_call-same (sets g' m) g i =
          ap (λ x. if same_id d g' g then known d m i x else x) (same g i)
      spec_call-same (sets_all g' ms) g i =
          ap (λ x. if same_id d g' g then last_known d ms i x else x) (same g i)
      spec_call-same (deletes g' user) g i =
          ap (λ x. if same_id d g' g && same_id d user i then err err_not_found else x) (same g i)

-- After any history of calls that set and delete members and return no error, a member that the server
-- is asked for, with a lookup that Redis answers, is the one set last and not deleted since, of its guild
-- only, and what was there before for one that was neither set nor deleted. Two invalid identifiers, as 0
-- and null, have the same text and count as one.
pub member-member_calls :
    (d : Discord) (r : Redis) (json : Json Member) (s : r.State) (cs : List MemberCall)
    (guild user : ℕ)
    → all_done d r json s cs ≡ true
    → is_ok (r.hget (member_calls d r json s cs) (guild_member_key d guild) (shown d user)) ≡ true
    → member d r json (member_calls d r json s cs) guild user
      ≡ spec_calls d (held d r json s) cs guild user
unfolding member
member-member_calls d r json s cs guild user done answered =
    elim (Result-cases (r.hget s' key (shown d user))) [
      | inr (e, h) ↦ absurd (ground arith)
      | inl (o, h) ↦
          ap (λ a. a >>= decode json) h
          ∙ ap (decode json) (r.hget_answer s' key (shown d user) o h)
          ∙ held-calls d r json s cs (held d r json s) guild user done (λ g i. refl)
    ]
  where
    s' : r.State
    s' = member_calls d r json s cs

    key : Text
    key = guild_member_key d guild
