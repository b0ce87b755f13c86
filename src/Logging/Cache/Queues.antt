-- ===== src/Logging/Cache/Queues.antt =====
-- Which guilds wait to be fetched (logging/cache).
use catalogger.Logging.Cache.{
  store_invites, request_members, fetch_invites, Fetches, fetch_one_guild, Answers, Shards, or_nil,
  waiting, add_to_fetch_queue, some_key, drop_key, take_key,
}
use catalogger.Base.GoMap
use catalogger.Base.{
  nat_eq, if◌then◌else◌, nat_beq_iff, Bool-cases, branch, ◌==◌, ==_refl, contains, Error, Result,
  ok, err, ℕ, ◌≡◌, refl, sym, ap, ◌∙◌, ◌⊎◌, inl, inr, Bool, true, false, not, ◌&&◌, ◌||◌, Option,
  none, some, arith,
}
use catalogger.Common.Set.{Entry, entry, found}
use catalogger.Discord.{Discord}

-- a guild waits in a shard's map
abbrev pub is_waiting : Shards → ℕ → ℕ → Bool
is_waiting s shard guild = found (GoMap.get (or_nil (GoMap.get s shard)) guild)

found-put :
    (m : GoMap.GoMap ℕ Entry) (k g : ℕ)
    → found (GoMap.get (GoMap.put m k entry) g) ≡ (k == g || found (GoMap.get m g))
found-put m k g = rw (GoMap.get-put m k entry g) (ground arith)

found-del :
    (m : GoMap.GoMap ℕ Entry) (k g : ℕ)
    → found (GoMap.get (GoMap.del m k) g) ≡ (not (k == g) && found (GoMap.get m g))
found-del m k g = rw (GoMap.get-del m k g) (ground arith)

is_waiting-add :
    (s : Shards) (shard guild sh g : ℕ)
    → is_waiting (add_to_fetch_queue s shard guild) sh g
      ≡ ((shard == sh && guild == g) || is_waiting s sh g)
unfolding add_to_fetch_queue
is_waiting-add s shard guild sh g = elim (Bool-cases (shard == sh)) [
  | inr e ↦
      rw (GoMap.get-put s shard (GoMap.put (or_nil (GoMap.get s shard)) guild entry) sh, e) refl
  | inl e ↦
      rw
        (
          GoMap.get-put s shard (GoMap.put (or_nil (GoMap.get s shard)) guild entry) sh,
          e,
          found-put (or_nil (GoMap.get s shard)) guild g,
          (nat_beq_iff shard sh).0 e,
        )
        refl
]

and_false : (b : Bool) → false ≡ (b && false)
and_false true = refl
and_false false = refl

is_waiting-drop_key :
    (s : Shards) (shard k sh g : ℕ) (o : Option (GoMap.GoMap ℕ Entry))
    → GoMap.get s shard ≡ o
    → is_waiting (drop_key s shard k o) sh g ≡ (not (shard == sh && k == g) && is_waiting s sh g)
unfolding GoMap.get
is_waiting-drop_key s shard k sh g none h = elim (Bool-cases (shard == sh)) [
  | inr e ↦ rw (e) refl
  | inl e ↦ rw (← (nat_beq_iff shard sh).0 e, h) (and_false (not (shard == shard && k == g)))
]
is_waiting-drop_key s shard k sh g (some m) h = elim (Bool-cases (shard == sh)) [
  | inr e ↦ rw (GoMap.get-put s shard (GoMap.del m k) sh, e) refl
  | inl e ↦
      rw
        (
          ← (nat_beq_iff shard sh).0 e,
          h,
          GoMap.get-put s shard (GoMap.del m k) shard,
          ==_refl shard,
          found-del m k g,
        )
        refl
]

is_waiting-take_key :
    (s : Shards) (shard choice sh g : ℕ)
    → is_waiting (take_key s shard choice).1 sh g
      ≡ (not (shard == sh && (take_key s shard choice).0 == g) && is_waiting s sh g)
unfolding take_key
is_waiting-take_key s shard choice sh g =
    is_waiting-drop_key s shard (some_key (waiting s shard) choice) sh g (GoMap.get s shard) refl

-- the guild taken from a shard's map
abbrev pub taken : Shards → ℕ → ℕ → ℕ
taken s shard choice = (take_key s shard choice).0

module _ (shard : ℕ) (a : Answers) where
  store_invites-rest :
      (guild : ℕ) (r : Result (Unit {0})) (t : Fetches)
      → ((store_invites guild r t).members ≡ t.members)
        × ((store_invites guild r t).requested ≡ t.requested)
  store_invites-rest guild (ok x) t = (refl, refl)
  store_invites-rest guild (err e) t = (refl, refl)

  fetch_invites-rest :
      (m i : ℕ) (r : Result (Unit {0})) (t : Fetches)
      → ((fetch_invites shard m i a r t).members ≡ t.members)
        × ((fetch_invites shard m i a r t).requested ≡ t.requested)
  fetch_invites-rest m i (ok x) t = store_invites-rest i a.set_invites t
  fetch_invites-rest m i (err e) t = elim (Bool-cases (a.forbidden e)) [
    | inl h ↦ rw (h) (refl, refl)
    | inr h ↦ rw (h) (refl, refl)
  ]

module _ (sh g : ℕ) where
  -- the guild waits, or its members were requested
  abbrev IsKept : Fetches → Type 0
  IsKept t = (is_waiting t.members sh g ≡ true) ⊎ (contains t.requested g ≡ true)

  or_not : (c w : Bool) → w ≡ true → (c || (not c && w)) ≡ true
  or_not true w h = refl
  or_not false w h = h

  and_not : (b c w : Bool) → c ≡ false → w ≡ true → (not (b && c) && w) ≡ true
  and_not true false w k h = h
  and_not false false w k h = h
  and_not b true w k h = absurd (ground (arith, k))

  module _ (shard choice : ℕ) (st t : Fetches)
      (same : t.members ≡ (take_key st.members shard choice).1)
      (waits : is_waiting st.members sh g ≡ true) where
    other_taken : (taken st.members shard choice == g) ≡ false → IsKept t
    other_taken h = inl (
        ap (λ m. is_waiting m sh g) same
        ∙ is_waiting-take_key st.members shard choice sh g
        ∙ and_not (shard == sh) (taken st.members shard choice == g) (is_waiting st.members sh g) h
            waits)

    request-IsKept :
        (r : Result (Unit {0})) → IsKept (request_members shard (taken st.members shard choice) r t)
    request-IsKept (ok done) = elim (Bool-cases (taken st.members shard choice == g)) [
      | inl e ↦ inr (ap (λ b. b || contains t.requested g) e)
      | inr e ↦ elim (other_taken e) [
        | inl w ↦ inl w
        | inr c ↦
            inr (ap (λ b. (taken st.members shard choice == g) || b) c ∙ ap (λ b. b || true) e)
      ]
    ]
    request-IsKept (err e) = inl (
        is_waiting-add t.members shard (taken st.members shard choice) sh g
        ∙ ap (λ m. (shard == sh && taken st.members shard choice == g) || is_waiting m sh g) same
        ∙ ap (λ w. (shard == sh && taken st.members shard choice == g) || w)
            (is_waiting-take_key st.members shard choice sh g)
        ∙ or_not (shard == sh && taken st.members shard choice == g) (is_waiting st.members sh g)
            waits)

-- what a round does after it took its guilds
module _ (d : Discord) (shard choice choice' : ℕ) (st : Fetches) where
  abbrev after_taking : Fetches
  after_taking = record st {
    members = (take_key st.members shard choice).1;
    invites = (take_key st.invites shard choice').1;
  }

  abbrev after_members : Answers → Fetches
  after_members a =
      if d.is_valid (taken st.members shard choice)
      then request_members shard (taken st.members shard choice) a.send after_taking
      else after_taking

  request_members-invites :
      (k : ℕ) (r : Result (Unit {0})) (t : Fetches)
      → (request_members shard k r t).invites ≡ t.invites
  request_members-invites k (ok x) t = refl
  request_members-invites k (err e) t = refl

  after_members-invites :
      (a : Answers) → (after_members a).invites ≡ (take_key st.invites shard choice').1
  after_members-invites a =
      branch (λ (t : Fetches). t.invites ≡ (take_key st.invites shard choice').1)
        (d.is_valid (taken st.members shard choice)) _ after_taking
        (λ v. request_members-invites (taken st.members shard choice) a.send after_taking)
        (λ v. refl)

valid_differs :
    (d : Discord) (k g : ℕ) → d.is_valid k ≡ false → d.is_valid g ≡ true → (k == g) ≡ false
valid_differs d k g hk hg = elim (Bool-cases (k == g)) [
  | inr e ↦ e
  | inl e ↦ absurd (ground (arith, sym (ap d.is_valid ((nat_beq_iff k g).0 e)) ∙ hk))
]

-- A guild with a valid identifier that waits for its members still waits after a round, in its shard,
-- or its members were requested, whichever guilds the round takes and whatever is answered.
pub fetch_one_guild-keeps :
    (d : Discord) (shard choice choice' : ℕ) (a : Answers) (st : Fetches) (sh g : ℕ)
    → d.is_valid g ≡ true
    → is_waiting st.members sh g ≡ true
    → (is_waiting (fetch_one_guild d shard choice choice' a st).members sh g ≡ true)
      ⊎ (contains (fetch_one_guild d shard choice choice' a st).requested g ≡ true)
unfolding fetch_one_guild
fetch_one_guild-keeps d shard choice choice' a st sh g valid waits =
    branch (IsKept sh g) (d.is_valid (taken st.invites shard choice')) _
      (after_members d shard choice choice' st a)
      (λ v.
        let (m, r) =
          fetch_invites-rest shard a (taken st.members shard choice)
            (taken st.invites shard choice') a.guild_invites
            (after_members d shard choice choice' st a) in
        elim kept [
          | inl w ↦ inl (ap (λ x. is_waiting x sh g) m ∙ w)
          | inr c ↦ inr (ap (λ x. contains x g) r ∙ c)
        ])
      (λ v. kept)
  where
    kept : IsKept sh g (after_members d shard choice choice' st a)
    kept =
        branch (IsKept sh g) (d.is_valid (taken st.members shard choice)) _
          (after_taking d shard choice choice' st)
          (λ v.
            request-IsKept sh g shard choice st (after_taking d shard choice choice' st) refl waits
              a.send)
          (λ v.
            other_taken sh g shard choice st (after_taking d shard choice choice' st) refl waits
              (valid_differs d (taken st.members shard choice) g v valid))

-- Where the invites of a guild cannot be fetched, and not for want of permission, the guilds that wait
-- for their invites are those of before without this one, and with the guild whose members the round
-- requested, be it valid or not.
pub fetch_one_guild-loses :
    (d : Discord) (shard choice choice' : ℕ) (a : Answers) (st : Fetches) (sh g : ℕ) (e : Error)
    → d.is_valid (taken st.invites shard choice') ≡ true
    → a.guild_invites ≡ err e
    → a.forbidden e ≡ false
    → is_waiting (fetch_one_guild d shard choice choice' a st).invites sh g ≡ (
        (shard == sh && taken st.members shard choice == g)
        || (not (shard == sh && taken st.invites shard choice' == g) && is_waiting st.invites sh g))
unfolding fetch_one_guild
fetch_one_guild-loses d shard choice choice' a st sh g e valid failed other =
    rw (valid, failed, other)
      (is_waiting-add (after_members d shard choice choice' st a).invites shard
          (taken st.members shard choice) sh g
        ∙ ap (λ m. (shard == sh && taken st.members shard choice == g) || is_waiting m sh g)
            (after_members-invites d shard choice choice' st a)
        ∙ ap (λ w. (shard == sh && taken st.members shard choice == g) || w)
            (is_waiting-take_key st.invites shard choice' sh g))
