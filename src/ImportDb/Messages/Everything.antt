-- ===== src/ImportDb/Messages/Everything.antt =====
-- The pages of `doMigrateMessages` (cmd/importdb/message.go) taken together.
use catalogger.Db.Tables.{pure, wrapping, Db, and_then}
use catalogger.ImportDb.Messages.Decoded.{
  page_has_rows, shrinks, length-above, old_messages-nonempty, rest_of_page,
}
use catalogger.ImportDb.Messages.{
  one_page, last_id, get_old_messages, do_migrate_messages, insert_new_message, copy_all, Ending,
  onwards,
}
use catalogger.Base.{
  length, take, drop, take-append-drop, ◌>>=◌, bind-inv, Result, ok, err, ℕ, zero, suc, ◌<◌, ◌≡◌,
  refl, sym, ap, ◌∙◌, subst, some, List, [], ◌∷◌, ◌++◌, arith, nat_eq,
}
use catalogger.ImportDb.Old.{
  get_old_messages, above, page, old_message, old_messages, OldRow, OldMessage,
}
use catalogger.ImportDb.Messages.Pages.{IsAscending}
use catalogger.Db.Rows.{Services}
use catalogger.Db.Crypt.{Text}

-- the copy of a page, and then of the rest
copy_page :
    (s : Services) (last : ℕ) (rest : ℕ → Db → Ending) (later : List OldMessage)
    (x : Result (Unit {0}) × Db)
    → ((db : Db) → rest last db ≡ some (copy_all s later db))
    → onwards last rest x ≡ some (and_then x (λ d. copy_all s later))
copy_page s last rest later (err e, db) h = refl
copy_page s last rest later (ok tt, db) h = h db

copy_then :
    (s : Services) (as' bs : List OldMessage) (x : Result (Unit {0}) × Db)
    → ((db : Db) → copy_all s (as' ++ bs) db ≡ and_then (copy_all s as' db) (λ d. copy_all s bs))
    → and_then x (λ d. copy_all s (as' ++ bs))
      ≡ and_then (and_then x (λ d. copy_all s as')) (λ d. copy_all s bs)
copy_then s as' bs (err e, db) h = refl
copy_then s as' bs (ok tt, db) h = h db

copy_all-append :
    (s : Services) (as' bs : List OldMessage) (db : Db)
    → copy_all s (as' ++ bs) db ≡ and_then (copy_all s as' db) (λ d. copy_all s bs)
copy_all-append s [] bs db = refl
copy_all-append s (a ∷ as') bs db =
    copy_then s as' bs (wrapping "getting message" (insert_new_message s a) db)
      (copy_all-append s as' bs)

module _ (s : Services) (hex : Text → Result Text) (old_key : Text) where
  -- the messages of two pieces of the table
  old_messages-split :
      (xs ys : List OldRow) (ms : List OldMessage)
      → old_messages s hex old_key (xs ++ ys) ≡ ok ms
      → (as' : List OldMessage) × (bs : List OldMessage) × (old_messages s hex old_key xs ≡ ok as')
        × (old_messages s hex old_key ys ≡ ok bs)
        × (ms ≡ as' ++ bs)
  old_messages-split [] ys ms e = ([], ms, refl, e, refl)
  old_messages-split (x ∷ xs) ys ms e =
      let (m, h, e1) =
        bind-inv (old_message s hex old_key x)
          (λ x'. do xs' ← old_messages s hex old_key (xs ++ ys); ok (x' ∷ xs')) ms e in
      let (ms', h', e2) =
        bind-inv (old_messages s hex old_key (xs ++ ys)) (λ xs'. ok (m ∷ xs')) ms e1 in
      let (as', bs, ha, hb, same) = old_messages-split xs ys ms' h' in
      (m ∷ as', bs, rw (h, ha) refl, hb, ground (arith, e2, same))

ok-inj : (as' bs : List OldMessage) → ok as' ≡ ok bs → as' ≡ bs
ok-inj as' bs e = ground arith

empty_page : {A : Type 0} (size : ℕ) (xs : List A) → take (suc size) xs ≡ [] → xs ≡ []
empty_page size [] h = refl
empty_page size (x ∷ xs) h = absurd (ground arith)

module _ (s : Services) (hex : Text → Result Text) (old_key : Text) (rows : List OldRow) (size : ℕ)
    (asc : IsAscending rows) where
  no_messages :
      (last : ℕ)
      → old_messages s hex old_key (page (suc size) rows last) ≡ ok []
      → above last rows ≡ []
  no_messages last e = empty_page size (above last rows) (go (page (suc size) rows last) e)
    where
      go : (p : List OldRow) → old_messages s hex old_key p ≡ ok [] → p ≡ []
      go [] h = refl
      go (r ∷ rs) h = absurd (old_messages-nonempty s hex old_key r rs h)

  -- what the rounds behind the first one do, in the two cases of the first page
  first_page :
      (rest : ℕ → Db → Ending) (fuel last : ℕ) (ms as' bs : List OldMessage) (db : Db)
      → length (above last rows) < suc fuel
      → ((last' : ℕ) (ns : List OldMessage) (d : Db)
          → length (above last' rows) < fuel
          → old_messages s hex old_key (above last' rows) ≡ ok ns
          → rest last' d ≡ some (copy_all s ns d))
      → old_messages s hex old_key (page (suc size) rows last) ≡ ok as'
      → old_messages s hex old_key (drop (suc size) (above last rows)) ≡ ok bs
      → ms ≡ as' ++ bs
      → one_page s (ok as') rest db ≡ some (copy_all s ms db)
  first_page rest fuel last ms [] bs db h next ha hb same =
      let nothing =
        ap (λ l. old_messages s hex old_key (drop (suc size) l)) (no_messages last ha) in
      subst (λ l. some (pure tt db) ≡ some (copy_all s l db))
        (ok-inj [] bs (sym nothing ∙ hb) ∙ sym same) refl
  first_page rest fuel last ms (m ∷ as') bs db h next ha hb same =
      let behind = rest_of_page s hex old_key rows size asc last m as' ha in
      rw (same, copy_all-append s (m ∷ as') bs db)
        (copy_page s (last_id m as') rest bs (copy_all s (m ∷ as') db) (λ d.
          next (last_id m as') bs d
            (rw (behind) (
              shrinks size fuel (above last rows) h
                (page_has_rows s hex old_key rows size last m as' ha)))
            (rw (behind) hb)))

  copies :
      (fuel last : ℕ) (ms : List OldMessage) (db : Db)
      → length (above last rows) < fuel
      → old_messages s hex old_key (above last rows) ≡ ok ms
      → do_migrate_messages s hex old_key (λ l. ok (page (suc size) rows l)) fuel last db
        ≡ some (copy_all s ms db)
  unfolding do_migrate_messages get_old_messages
  copies zero last ms db h e = absurd (omega arith)
  copies (suc fuel) last ms db h e =
      let (as', bs, ha, hb, same) =
        old_messages-split s hex old_key (page (suc size) rows last)
          (drop (suc size) (above last rows)) ms
          (subst (λ l. old_messages s hex old_key l ≡ ok ms)
            (sym (take-append-drop (suc size) (above last rows))) e) in
      ap
        (λ r.
          one_page s r (do_migrate_messages s hex old_key (λ l. ok (page (suc size) rows l)) fuel)
            db)
        ha
      ∙ first_page (do_migrate_messages s hex old_key (λ l. ok (page (suc size) rows l)) fuel) fuel
          last ms as' bs db h (copies fuel) ha hb same

-- Where the identifiers of the old table ascend, its statements do not fail and each row above the
-- first identifier can be decrypted and decoded, the migration with one round more than the table has
-- rows does what inserting all those messages one after the other does, in the order of their
-- identifiers: no message is passed over or copied twice at the border of two pages.
pub do_migrate_messages-copy_all :
    (s : Services) (hex : Text → Result Text) (old_key : Text) (rows : List OldRow)
    (size fuel last : ℕ) (ms : List OldMessage) (db : Db)
    → IsAscending rows
    → length rows < fuel
    → old_messages s hex old_key (above last rows) ≡ ok ms
    → do_migrate_messages s hex old_key (λ l. ok (page (suc size) rows l)) fuel last db
      ≡ some (copy_all s ms db)
do_migrate_messages-copy_all s hex old_key rows size fuel last ms db asc enough decoded =
    copies s hex old_key rows size asc fuel last ms db
      (omega (arith, length-above last rows, enough)) decoded
