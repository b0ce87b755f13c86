-- ===== src/ImportDb/Messages/Termination.antt =====
-- The end of the loop of `doMigrateMessages` (cmd/importdb/message.go).
use catalogger.ImportDb.Messages.Decoded.{page_has_rows, shrinks, length-above, rest_of_page}
use catalogger.Base.{
  nat_eq, length, Error, Result, ok, err, ℕ, zero, suc, ◌<◌, ◌≡◌, refl, ◌⊎◌, inl, inr, none, some,
  List, [], ◌∷◌, arith,
}
use catalogger.ImportDb.Old.{above, old_messages, get_old_messages, page, OldRow, OldMessage}
use catalogger.ImportDb.Messages.{copy_all, last_id, Ending, onwards, one_page, do_migrate_messages}
use catalogger.ImportDb.Messages.Pages.{IsAscending}
use catalogger.Db.Rows.{Services}
use catalogger.Db.Crypt.{Text}
use catalogger.Db.Tables.{Db}

-- the statement on the old database: it fails, or it reads the page
abbrev pub IsReader : ℕ → List OldRow → (ℕ → Result (List OldRow)) → Type 0
IsReader size rows read =
    (last : ℕ) → (read last ≡ ok (page size rows last)) ⊎ ((e : Error) × (read last ≡ err e))

IsEnded : Ending → Type 0
IsEnded none = ⊥
IsEnded (some x) = Unit

onwards-IsEnded :
    (last : ℕ) (rest : ℕ → Db → Ending) (r : Result (Unit {0}) × Db)
    → ((db : Db) → IsEnded (rest last db))
    → IsEnded (onwards last rest r)
unfolding IsEnded
onwards-IsEnded last rest (err e, db) h = tt
onwards-IsEnded last rest (ok done, db) h = h db

one_page-IsEnded :
    (s : Services) (msgs : Result (List OldMessage)) (rest : ℕ → Db → Ending) (db : Db)
    → ((m : OldMessage) (ms : List OldMessage) (d : Db)
        → msgs ≡ ok (m ∷ ms)
        → IsEnded (rest (last_id m ms) d))
    → IsEnded (one_page s msgs rest db)
unfolding IsEnded
one_page-IsEnded s (err e) rest db h = tt
one_page-IsEnded s (ok []) rest db h = tt
one_page-IsEnded s (ok (m ∷ ms)) rest db h =
    onwards-IsEnded (last_id m ms) rest (copy_all s (m ∷ ms) db) (λ d. h m ms d refl)

ended-some : (x : Ending) → IsEnded x → (y : Result (Unit {0}) × Db) × (x ≡ some y)
unfolding IsEnded
ended-some (some y) h = (y, refl)
ended-some none h = absurd h

module _ (s : Services) (hex : Text → Result Text) (old_key : Text) (rows : List OldRow)
    (read : ℕ → Result (List OldRow)) (size : ℕ) (asc : IsAscending rows)
    (reads : IsReader (suc size) rows read) where
  -- messages read from the old database are those of the page
  read_page :
      (last : ℕ) (msgs : List OldMessage)
      → get_old_messages s hex old_key (read last) ≡ ok msgs
      → old_messages s hex old_key (page (suc size) rows last) ≡ ok msgs
  unfolding get_old_messages
  read_page last msgs e = elim (reads last) [
    | inl h ↦ ground arith
    | inr (x, h) ↦ absurd (ground arith)
  ]

  ends :
      (fuel last : ℕ) (db : Db)
      → length (above last rows) < fuel
      → IsEnded (do_migrate_messages s hex old_key read fuel last db)
  unfolding do_migrate_messages
  ends zero last db h = absurd (omega arith)
  ends (suc fuel) last db h =
      one_page-IsEnded s (get_old_messages s hex old_key (read last))
        (do_migrate_messages s hex old_key read fuel) db
        (λ m ms d e.
          let e' = read_page last (m ∷ ms) e in
          ends fuel (last_id m ms) d (
            rw (rest_of_page s hex old_key rows size asc last m ms e') (
              shrinks size fuel (above last rows) h
                (page_has_rows s hex old_key rows size last m ms e'))))

-- The migration of the messages ends, in an error or with all pages copied, whatever the two databases
-- do: each statement on the old one fails or reads the page behind an identifier, in pages of one row
-- or more of a table whose identifiers ascend. One round more than the table has rows is enough.
pub do_migrate_messages-ends :
    (s : Services) (hex : Text → Result Text) (old_key : Text) (rows : List OldRow)
    (read : ℕ → Result (List OldRow)) (size fuel last : ℕ) (db : Db)
    → IsAscending rows
    → IsReader (suc size) rows read
    → length rows < fuel
    → (ending : Result (Unit {0}) × Db) × (do_migrate_messages s hex old_key read fuel last db
        ≡ some ending)
do_migrate_messages-ends s hex old_key rows read size fuel last db asc reads enough =
    ended-some (do_migrate_messages s hex old_key read fuel last db) (
      ends s hex old_key rows read size asc reads fuel last db
        (omega (arith, length-above last rows)))
