-- ===== src/ImportDb/Command.antt =====
-- cmd/importdb/cmd.go: the command that empties the new database and copies the messages of the old
-- one. The connections and `encoding/base64` are parameters; the wait and the program's own log are
-- left out. The tables of invites and of the watchlist, which nothing else reads, are lists of rows.
pub mod Import
use catalogger.Base.{
  Result, wrapped, ok, err, ℕ, zero, suc, String, Option, none, some, List, [], ◌∷◌,
}
use catalogger.Db.Crypt.{Text}
use catalogger.Db.Tables.{statement, Db}
use catalogger.Db.Rows.{Services}
use catalogger.ImportDb.Old.{OldRow}
use catalogger.ImportDb.Messages.{Ending, do_migrate_messages}

pub record Target : Type 0 where
  pub db : Db
  pub invites : List Text
  pub watchlist : List Text

-- the flags of the command, and what the libraries make of them
pub record Flags : Type 0 where
  pub from_key : Text
  pub to_key : Text
  pub connect_old : Result (Unit {0})
  pub connect_new : Result (Unit {0})
  -- `base64.RawStdEncoding.DecodeString`
  pub base64 : Text → Result Text

-- `copy` of a text into an array of 32 zeros
abbrev pub padded : ℕ → Text → Text
padded zero t = []
padded (suc n) [] = 0 ∷ padded n []
padded (suc n) (b ∷ bs) = b ∷ padded n bs

unfoldable pub copy_key : Text → Text
copy_key t = padded 32 t

-- one statement that empties tables
abbrev pub deleted :
    (Target → Target) → String → Result (Unit {0}) × Db → Target → Result (Unit {0}) × Target
deleted change what (ok u, db') t = (ok u, change (record t { db = db' }))
deleted change what (err e, db') t = (err (wrapped what e), record t { db = db' })

abbrev pub delete_from : String → (Target → Target) → Target → Result (Unit {0}) × Target
delete_from what change t = deleted change what (statement (λ d. (tt, d)) t.db) t

-- `if err != nil { return err }`
abbrev pub and_also :
    Result (Unit {0}) × Target → (Target → Result (Unit {0}) × Target) → Result (Unit {0}) × Target
and_also (ok u, t) next = next t
and_also (err e, t) next = (err e, t)

unfoldable pub clean_new_database : Target → Result (Unit {0}) × Target
clean_new_database t =
    and_also
      (and_also
        (and_also
          (and_also
            (delete_from "deleting guilds" (λ t. record t { db = record t.db { guilds = [] } }) t)
            (delete_from "deleting messages"
              (λ t. record t { db = record t.db { messages = [] } })))
          (delete_from "deleting ignored_messages"
            (λ t. record t { db = record t.db { ignored_messages = [] } })))
        (delete_from "deleting invites" (λ t. record t { invites = [] })))
      (delete_from "deleting watchlist" (λ t. record t { watchlist = [] }))

-- The error of the migration is only logged. None is a migration that has not ended within its fuel.
abbrev pub migrated : Target → Ending → Option (Result (Unit {0}) × Target)
migrated t none = none
migrated t (some (r, db')) = some (ok tt, record t { db = db' })

module _ (s : Services) (hex : Text → Result Text) (read : ℕ → Result (List OldRow)) where
  -- from "START COPY" on; the error of the cleaning is only logged
  abbrev pub copy_messages : ℕ → Flags → Text → Target → Option (Result (Unit {0}) × Target)
  copy_messages fuel flags new_key t =
      let cleaned = (clean_new_database t).1 in
      migrated cleaned (
        do_migrate_messages (record s { aes_key = copy_key new_key }) hex (copy_key flags.from_key)
          read fuel 0 cleaned.db)

  abbrev pub with_key : ℕ → Flags → Result Text → Target → Option (Result (Unit {0}) × Target)
  with_key fuel flags (err e) t = some (err e, t)
  with_key fuel flags (ok new_key) t = copy_messages fuel flags new_key t

  abbrev pub with_new : ℕ → Flags → Result (Unit {0}) → Target → Option (Result (Unit {0}) × Target)
  with_new fuel flags (err e) t = some (err e, t)
  with_new fuel flags (ok u) t = with_key fuel flags (flags.base64 flags.to_key) t

  abbrev pub with_old : ℕ → Flags → Result (Unit {0}) → Target → Option (Result (Unit {0}) × Target)
  with_old fuel flags (err e) t = some (err e, t)
  with_old fuel flags (ok u) t = with_new fuel flags flags.connect_new t

  unfoldable pub run : ℕ → Flags → Target → Option (Result (Unit {0}) × Target)
  run fuel flags t = with_old fuel flags flags.connect_old t
