-- ===== src/ImportDb/Messages.antt =====
-- cmd/importdb/message.go: the messages of the old database written to the new one, page by page.
pub mod Pages
mod Decoded
pub mod Termination
pub mod Everything
use catalogger.Base.GoMap
use catalogger.Base.{
  nat_eq, Result, wrapped, ok, err, ℕ, zero, suc, Option, none, some, List, [], ◌∷◌,
}
use catalogger.Db.Crypt.{Text}
use catalogger.Db.Tables.{◌>>=◌, Action, pure, wrapping, statement, Row, Db}
use catalogger.Db.Rows.{or_none, Message, Services}
use catalogger.Db.Messages.{seal, seal_metadata, upsert, put_row}
use catalogger.ImportDb.Old.{get_old_messages, OldRow, OldMessage}

-- the `NewMessage` of `InsertNewMessage`
abbrev pub new_message : OldMessage → Message
new_message o = record {
  id = o.msg_id;
  original_id = none;
  user_id = o.user_id;
  channel_id = o.channel_id;
  guild_id = o.server_id;
  content = or_none o.content;
  username = o.username;
  member = o.member;
  system = o.system;
  metadata = o.metadata;
  attachment_size = 0;
}

-- `on conflict (id) do update set content = $5, metadata = $9`
abbrev pub upsert_import : Option Row → Message → Text → Text → Option Text → Row
upsert_import none m content username metadata = upsert none m content username metadata
upsert_import (some row) m content username metadata = record row {
  content = content;
  metadata = metadata;
}

abbrev pub put_import : Message → Text → Text → Option Text → Db → (Unit {0}) × Db
put_import m content username metadata db =
    (tt, put_row db m.id (upsert_import (GoMap.get db.messages m.id) m content username metadata))

module _ (s : Services) where
  unfoldable pub insert_new_message : OldMessage → Action (Unit {0})
  insert_new_message o = do
    content ← seal s "encrypting content" (new_message o).content
    username ← seal s "encrypting username" o.username
    metadata ← seal_metadata s o.metadata
    statement (put_import (new_message o) content username metadata)

  -- `for _, msg := range msgs`
  abbrev pub copy_all : List OldMessage → Action (Unit {0})
  copy_all [] = pure tt
  copy_all (m ∷ ms) = wrapping "getting message" (insert_new_message m) >>= λ done. copy_all ms

-- `msgs[len(msgs)-1].MsgID`
abbrev pub last_id : OldMessage → List OldMessage → ℕ
last_id m [] = m.msg_id
last_id m (n ∷ ns) = last_id n ns

-- How the loop of `doMigrateMessages` ends, and the new database then; none is a loop that has not
-- ended within its fuel.
abbrev pub Ending : Type 0
Ending = Option (Result (Unit {0}) × Db)

abbrev pub onwards : ℕ → (ℕ → Db → Ending) → Result (Unit {0}) × Db → Ending
onwards last rest (err e, db) = some (err e, db)
onwards last rest (ok done, db) = rest last db

module _ (s : Services) where
  abbrev pub one_page : Result (List OldMessage) → (ℕ → Db → Ending) → Db → Ending
  one_page (err e) rest db = some (err (wrapped "getting 1000 messages after" e), db)
  one_page (ok []) rest db = some (ok tt, db)
  one_page (ok (m ∷ ms)) rest db = onwards (last_id m ms) rest (copy_all s (m ∷ ms) db)

-- `read last` is what the statement on the old database returns for the identifier.
module _ (s : Services) (hex : Text → Result Text) (old_key : Text)
    (read : ℕ → Result (List OldRow)) where
  unfoldable pub do_migrate_messages : ℕ → ℕ → Db → Ending
  do_migrate_messages zero last db = none
  do_migrate_messages (suc fuel) last db =
      one_page s (get_old_messages s hex old_key (read last)) (do_migrate_messages fuel) db
