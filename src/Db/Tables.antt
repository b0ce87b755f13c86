-- ===== src/Db/Tables.antt =====
-- The tables of the database (db/migrations/20221025_init.sql) and the statements on them. Any
-- statement can fail; `faults` says of the statements to come which ones do (none where it ends).
-- A statement that fails changes no table.
use catalogger.Base.GoMap.{GoMap}
use catalogger.Db.Channels.{Channels}
use catalogger.Db.Crypt.{Text}
use catalogger.Base.{
  wrap, Result, external, ok, err, ℕ, ◌+◌, String, Bool, true, false, Option, List, [], ◌∷◌,
}

-- A row of the table `messages`, without its key.
pub record Row : Type 0 where
  pub original_id : Option ℕ
  pub user_id : ℕ
  pub channel_id : ℕ
  pub guild_id : ℕ
  pub username : Text
  pub member : Option Text
  pub system : Option Text
  pub content : Text
  pub metadata : Option Text
  pub attachment_size : ℕ

pub record Db : Type 0 where
  pub messages : GoMap ℕ Row
  pub ignored_messages : List ℕ
  pub guilds : GoMap ℕ Channels
  pub faults : List Bool
  -- how often the source of randomness was read
  pub draws : ℕ

-- What a method of the database does: its result, and the database afterwards.
abbrev pub Action : Type 0 → Type 0
Action A = Db → Result A × Db

module _ {A B : Type 0} where
  abbrev pub and_then : Result A × Db → (A → Action B) → Result B × Db
  and_then (ok a, db) f = f a db
  and_then (err e, db) f = (err e, db)

  infixl 5 ◌>>=◌
  abbrev pub ◌>>=◌ : Action A → (A → Action B) → Action B
  ◌>>=◌ m f db = and_then (m db) f

module _ {A : Type 0} where
  abbrev pub pure : A → Action A
  pure a db = (ok a, db)

  -- a step that looks at no table
  abbrev pub lift : Result A → Action A
  lift r db = (r, db)

  -- `errors.Wrap` around a method's error
  abbrev pub wrapping : String → Action A → Action A
  wrapping msg m db = (wrap msg (m db).0, (m db).1)

  abbrev pub statement_or : List Bool → (Db → A × Db) → Db → Result A × Db
  statement_or [] run db =
      (ok (run (record db { faults = [] })).0, (run (record db { faults = [] })).1)
  statement_or (true ∷ fs) run db = (err (external 500), record db { faults = fs })
  statement_or (false ∷ fs) run db =
      (ok (run (record db { faults = fs })).0, (run (record db { faults = fs })).1)

  -- one statement sent to Postgres
  abbrev pub statement : (Db → A × Db) → Action A
  statement run db = statement_or db.faults run db

-- one read from the source of randomness
abbrev pub next_draw : Action ℕ
next_draw db = (ok db.draws, record db { draws = db.draws + 1 })
