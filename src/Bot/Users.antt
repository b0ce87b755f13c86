-- ===== src/Bot/Users.antt =====
-- bot/users.go: the users that are no members of a guild, kept once they were requested. The member
-- cache and Discord's API are parameters: each answers with a user or an error.
use catalogger.Base.GoMap
use catalogger.Base.{
  nat_eq, ==_refl, Error, Result, ok, err, ℕ, ◌≡◌, refl, ap, Option, none, some, arith,
}
use catalogger.Discord.{User}

abbrev pub Users : Type 0
Users = GoMap.GoMap ℕ User

-- `Rest.User`, and the user put into the map
abbrev pub requested : ℕ → Users → Result User → Result User × Users
requested id users (err e) = (err e, users)
requested id users (ok u) = (ok u, GoMap.put users id u)

abbrev pub cached_or : ℕ → Users → Result User → Option User → Result User × Users
cached_or id users answer (some u) = (ok u, users)
cached_or id users answer none = requested id users answer

-- `rest` is the answer of the API to `Rest.User(userID)`
unfoldable pub user : Result User → ℕ → Users → Result User × Users
user rest id users = cached_or id users rest (GoMap.get users id)

abbrev pub member_or : ℕ → Users → Result User → Result User → Result User × Users
member_or id users rest (ok u) = (ok u, users)
member_or id users rest (err e) = cached_or id users rest (GoMap.get users id)

-- `member` is the answer of the member cache for the guild
unfoldable pub guild_user : Result User → Result User → ℕ → Users → Result User × Users
guild_user member rest id users = member_or id users rest member

get-cached_or :
    (id : ℕ) (users : Users) (rest : Result User) (o : Option User) (u : User)
    → GoMap.get users id ≡ o
    → (cached_or id users rest o).0 ≡ ok u
    → GoMap.get (cached_or id users rest o).1 id ≡ some u
get-cached_or id users rest (some v) u h e = ground arith
get-cached_or id users (err x) none u h e = absurd (ground arith)
get-cached_or id users (ok v) none u h e =
    rw (GoMap.get-put users id v id, ==_refl id) (ground arith)

-- A user that `User` returned is what it and, for one who is no member of the guild, `GuildUser` return
-- from then on, whatever the API answers later, and the map is not changed again.
pub guild_user-user :
    (rest rest' rest'' : Result User) (e : Error) (id : ℕ) (users : Users) (u : User)
    → (user rest id users).0 ≡ ok u
    → (guild_user (err e) rest' id (user rest id users).1 ≡ (ok u, (user rest id users).1))
      × (user rest'' id (user rest id users).1 ≡ (ok u, (user rest id users).1))
unfolding user guild_user
guild_user-user rest rest' rest'' e id users u h =
    let kept = get-cached_or id users rest (GoMap.get users id) u refl h in
    (
      ap (λ o. cached_or id (user rest id users).1 rest' o) kept,
      ap (λ o. cached_or id (user rest id users).1 rest'' o) kept,
    )
