-- ===== src/Logging/Meta/Settings.antt =====
-- The settings of guilds under the handler of logging/meta/guild_create.go.
use catalogger.Logging.Meta.{GuildCreate, MetaWorld, MetaLogs, existed, guild_create, guild_creates}
use catalogger.Base.{
  nat_eq, if◌then◌else◌, nat_beq_iff, Bool-cases, Option-cases, branch, ◌==◌, contains, ℕ, ◌≡◌,
  refl, sym, ap, ◌∙◌, inl, inr, Bool, true, false, ◌&&◌, ◌||◌, Option, none, some, List, [], ◌∷◌,
}
use catalogger.Base.GoMap
use catalogger.Base.GoMap.{get-put}
use catalogger.Db.Tables.{Db}
use catalogger.Db.Channels.{Channels, zero_channels}
use catalogger.Db.Guilds.{create_guild, insert_guild, new_guild}
use catalogger.Db.Messages.RoundTrip.{healthy}

-- the row of a guild
abbrev pub settings : Db → ℕ → Option Channels
settings db guild = GoMap.get db.guilds guild

-- an independent description: a guild that has no row gets the empty one
abbrev pub or_empty : Option Channels → Option Channels
or_empty none = some (record {
  channels = zero_channels;
  redirects = [];
  ignores = record { global_channels = []; global_users = []; per_channel = [] };
})
or_empty (some chs) = some chs

insert_guild-settings :
    (db : Db) (id guild : ℕ) (o : Option Channels)
    → settings db id ≡ o
    → settings (insert_guild o id db).1 guild
      ≡ (if id == guild then or_empty (settings db guild) else settings db guild)
unfolding insert_guild
insert_guild-settings db id guild none h = elim (Bool-cases (id == guild)) [
  | inr e ↦ rw (get-put db.guilds id new_guild guild, e) refl
  | inl e ↦
      rw (get-put db.guilds id new_guild guild, e)
        (ap or_empty (sym h ∙ ap (settings db) ((nat_beq_iff id guild).0 e)))
]
insert_guild-settings db id guild (some chs) h = elim (Bool-cases (id == guild)) [
  | inr e ↦ rw (e) refl
  | inl e ↦
      let there = ap (settings db) (sym ((nat_beq_iff id guild).0 e)) ∙ h in
      rw (e) (there ∙ ap or_empty (sym there))
]

settings-create_guild :
    (db : Db) (id guild : ℕ)
    → settings (create_guild id (healthy db)).1 guild
      ≡ (if id == guild then or_empty (settings db guild) else settings db guild)
unfolding create_guild
settings-create_guild db id guild =
    insert_guild-settings (healthy db) id guild (GoMap.get db.guilds id) refl

create_guild-healthy :
    (db : Db) (id : ℕ) → (create_guild id (healthy db)).1 ≡ healthy (create_guild id (healthy db)).1
unfolding create_guild insert_guild
create_guild-healthy db id = elim (Option-cases (GoMap.get db.guilds id)) [
  | inl h ↦ rw (h) refl
  | inr (chs, h) ↦ rw (h) refl
]

guild_create-db :
    (w : MetaWorld) (ev : GuildCreate) (st : MetaLogs)
    → (guild_create w ev st).db ≡ (create_guild ev.id st.db).1
unfolding guild_create
guild_create-db w ev st =
    let db' = (create_guild ev.id st.db).1 in
    branch (λ (x : MetaLogs). x.db ≡ db') (existed (create_guild ev.id st.db).0 && ev.joined_before)
      _ _ (λ v. refl)
      (λ v. branch (λ (x : MetaLogs). x.db ≡ db') w.should_log _ _ (λ v'. refl) (λ v'. refl))

abbrev pub guild_ids : List GuildCreate → List ℕ
guild_ids [] = []
guild_ids (ev ∷ evs) = ev.id ∷ guild_ids evs

twice :
    (a b : Bool) (o : Option Channels)
    → (if b then or_empty (if a then or_empty o else o) else (if a then or_empty o else o))
      ≡ (if a || b then or_empty o else o)
twice true true none = refl
twice true true (some chs) = refl
twice true false o = refl
twice false true o = refl
twice false false o = refl

-- On a database that meets no fault, a start of the bot or its joining of guilds never changes the
-- settings that a guild has: after any sequence of such events a guild has the settings that it had,
-- or, if it had none and is among the guilds of the events, the empty ones, in which nothing is
-- logged.
pub settings-guild_creates :
    (w : MetaWorld) (evs : List GuildCreate) (st : MetaLogs) (guild : ℕ)
    → st.db ≡ healthy st.db
    → settings (guild_creates w evs st).db guild ≡ (
        if contains (guild_ids evs) guild
        then or_empty (settings st.db guild)
        else settings st.db guild)
unfolding guild_creates
settings-guild_creates w [] st guild h = refl
settings-guild_creates w (ev ∷ evs) st guild h =
    settings-guild_creates w evs (guild_create w ev st) guild
      (after ∙ create_guild-healthy st.db ev.id ∙ ap healthy (sym after))
    ∙ ap (λ o. if contains (guild_ids evs) guild then or_empty o else o)
        (ap (λ d. settings d guild) after ∙ settings-create_guild st.db ev.id guild)
    ∙ twice (ev.id == guild) (contains (guild_ids evs) guild) (settings st.db guild)
  where
    after : (guild_create w ev st).db ≡ (create_guild ev.id (healthy st.db)).1
    after = guild_create-db w ev st ∙ ap (λ d. (create_guild ev.id d).1) h
