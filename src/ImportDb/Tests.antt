-- ===== src/ImportDb/Tests.antt =====
-- The import's theorems on an old table of three rows, in pages of two.
use catalogger.ImportDb.Command.{Flags, Target, run, copy_key}
use catalogger.ImportDb.Command.Import.{emptied, run-copy_all}
use catalogger.ImportDb.Messages.Pages.{IsAscending}
use catalogger.Base.{
  nat_eq, if◌then◌else◌, Bool-cases, ◌==◌, Result, external, ok, err, ℕ, ◌≡◌, refl, inl, inr, none,
  some, List, [], ◌∷◌, arith,
}
use catalogger.Db.Crypt.{Text, opening, decrypt}
use catalogger.Db.Tables.{Db}
use catalogger.Db.Sample.{sample_services, empty_db}
use catalogger.ImportDb.Old.{old_metadata, old_parts, page, OldRow, OldMessage}
use catalogger.ImportDb.Messages.{copy_all, do_migrate_messages}
use catalogger.ImportDb.Messages.Termination.{IsReader, do_migrate_messages-ends}
use catalogger.ImportDb.Messages.Everything.{do_migrate_messages-copy_all}

abbrev plain_hex : Text → Result Text
plain_hex t = ok t

abbrev row : ℕ → OldRow
row id = record {
  msg_id = id;
  user_id = 1;
  channel_id = 2;
  server_id = 3;
  content = 0 ∷ 0 ∷ 0 ∷ 75 ∷ [];
  username = 0 ∷ 0 ∷ 0 ∷ 76 ∷ [];
  member = none;
  system = none;
  raw_metadata = none;
}

abbrev old_table : List OldRow
old_table = row 10 ∷ row 20 ∷ row 30 ∷ []

abbrev copied : ℕ → OldMessage
copied id = record {
  msg_id = id;
  user_id = 1;
  channel_id = 2;
  server_id = 3;
  content = 72 ∷ [];
  username = 73 ∷ [];
  member = none;
  system = none;
  metadata = none;
}

abbrev copied_table : List OldMessage
copied_table = copied 10 ∷ copied 20 ∷ copied 30 ∷ []

-- the second page cannot be read
abbrev faulty_read : ℕ → Result (List OldRow)
faulty_read last = if last == 20 then err (external 1) else ok (page 2 old_table last)

faulty_read-IsReader : IsReader 2 old_table faulty_read
faulty_read-IsReader last = elim (Bool-cases (last == 20)) [
  | inl e ↦ inr (external 1, rw (e) refl)
  | inr e ↦ inl (rw (e) refl)
]

three_rows : IsAscending old_table
three_rows = ((omega arith, (omega arith, tt)), ((omega arith, tt), (tt, tt)))

do_migrate_messages-ends_example :
    (ending : Result (Unit {0}) × Db) × (do_migrate_messages sample_services plain_hex
        (1 ∷ [])
        faulty_read
        4
        0
        empty_db
      ≡ some ending)
do_migrate_messages-ends_example =
    do_migrate_messages-ends sample_services plain_hex (1 ∷ []) old_table faulty_read 1 4 0 empty_db
      three_rows faulty_read-IsReader (omega arith)

do_migrate_messages-copy_all_example :
    do_migrate_messages sample_services plain_hex
      (1 ∷ [])
      (λ l. ok (page 2 old_table l))
      4
      0
      empty_db
    ≡ some (copy_all sample_services copied_table empty_db)
unfolding old_parts decrypt opening old_metadata
do_migrate_messages-copy_all_example =
    do_migrate_messages-copy_all sample_services plain_hex (1 ∷ []) old_table 1 4 0 copied_table
      empty_db three_rows (omega arith) refl

abbrev flags : Flags
flags = record {
  from_key = 1 ∷ [];
  to_key = 2 ∷ [];
  connect_old = ok tt;
  connect_new = ok tt;
  base64 = λ t. ok t;
}

-- a new database that is not empty
abbrev target : Target
target = record { db = empty_db; invites = (1 ∷ []) ∷ []; watchlist = [] }

run-copy_all_example :
    run sample_services plain_hex (λ l. ok (page 2 old_table l)) 4 flags target
    ≡ some (
      ok tt,
      record {
        db =
            (copy_all
              (record sample_services { aes_key = copy_key (2 ∷ []) })
              copied_table
              (emptied empty_db)).1;
        invites = [];
        watchlist = [];
      },
    )
unfolding old_parts decrypt opening old_metadata
run-copy_all_example =
    run-copy_all sample_services plain_hex old_table 1 4 copied_table flags (2 ∷ []) target refl
      refl refl refl three_rows (omega arith) refl
