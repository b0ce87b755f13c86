-- ===== src/ImportDb/Command/Import.antt =====
-- What the command leaves in the new database (cmd/importdb/cmd.go).
use catalogger.Base.{length, Result, ok, ℕ, suc, ◌<◌, ◌≡◌, refl, ap, ◌∙◌, some, List, []}
use catalogger.Db.Crypt.{Text}
use catalogger.Db.Tables.{Db}
use catalogger.Db.Rows.{Services}
use catalogger.Db.Messages.RoundTrip.{healthy}
use catalogger.ImportDb.Old.{OldRow, OldMessage, above, page, old_messages}
use catalogger.ImportDb.Messages.{do_migrate_messages, copy_all}
use catalogger.ImportDb.Messages.Pages.{IsAscending}
use catalogger.ImportDb.Messages.Everything.{do_migrate_messages-copy_all}
use catalogger.ImportDb.Command.{
  copy_key, clean_new_database, migrated, with_key, with_new, with_old, run, Target, Flags,
}

-- a database whose tables are empty, and that meets no fault
abbrev pub emptied : Db → Db
emptied db = record db { messages = []; ignored_messages = []; guilds = []; faults = [] }

clean_new_database-emptied :
    (db : Db) (invites watchlist : List Text)
    → clean_new_database (record { db = healthy db; invites = invites; watchlist = watchlist })
      ≡ (ok tt, record { db = emptied db; invites = []; watchlist = [] })
unfolding clean_new_database
clean_new_database-emptied db invites watchlist = refl

-- With both connections, a key that can be decoded and databases that meet no fault, and an old table
-- whose identifiers ascend and whose rows can be decrypted and decoded, the command ends without an
-- error, and the new database has exactly what inserting those messages into empty tables leaves,
-- whatever it had before: no settings of guilds, no ignored messages, no invites, no watchlist.
pub run-copy_all :
    (s : Services) (hex : Text → Result Text) (rows : List OldRow) (size fuel : ℕ)
    (ms : List OldMessage) (flags : Flags) (key : Text) (t : Target)
    → flags.connect_old ≡ ok tt
    → flags.connect_new ≡ ok tt
    → flags.base64 flags.to_key ≡ ok key
    → t.db ≡ healthy t.db
    → IsAscending rows
    → length rows < fuel
    → old_messages
        (record s { aes_key = copy_key key })
        hex
        (copy_key flags.from_key)
        (above 0 rows)
      ≡ ok ms
    → run s hex (λ l. ok (page (suc size) rows l)) fuel flags t
      ≡ some (
        ok tt,
        record {
          db = (copy_all (record s { aes_key = copy_key key }) ms (emptied t.db)).1;
          invites = [];
          watchlist = [];
        },
      )
unfolding run
run-copy_all s hex rows size fuel ms flags key t old new decoded h asc enough read =
    let rd : ℕ → Result (List OldRow) = λ l. ok (page (suc size) rows l) in
    ap (λ a. with_old s hex rd fuel flags a t) old
    ∙ ap (λ a. with_new s hex rd fuel flags a t) new
    ∙ ap (λ a. with_key s hex rd fuel flags a t) decoded
    ∙ ap
        (λ (x : Target). migrated x (
          do_migrate_messages (record s { aes_key = copy_key key }) hex (copy_key flags.from_key) rd
            fuel 0 x.db))
        (ap (λ d. (clean_new_database (record t { db = d })).1) h
          ∙ ap (λ p. p.1) (clean_new_database-emptied t.db t.invites t.watchlist))
    ∙ ap (migrated (record { db = emptied t.db; invites = []; watchlist = [] })) (
        do_migrate_messages-copy_all (record s { aes_key = copy_key key }) hex
          (copy_key flags.from_key) rows size fuel 0 ms (emptied t.db) asc enough read)
