-- ===== src/Logging/Events/Frame.antt =====
-- What the handlers of logging/messages change besides the two sets: the database, the user cache and
-- what was sent.
use catalogger.Logging.Create.{
  created_message, stores_messages, inserted, create_in_guild, message_create,
}
use catalogger.Db.Messages.{
  delete_message, update_pk_info, insert_message, get_message, has_pk_info, is_message_ignored,
}
use catalogger.Logging.Delete.{
  forget, has_pk, deliver, send_delete, checked_root, checked_message, log_message, with_channels,
  after_pk, save_proxied, pk_answered, pk_checked,
}
use catalogger.Logging.State.{PkMessage, Logs, World, Sent}
use catalogger.Discord.{File, Channel, PostedMessage, Embed}
use catalogger.Base.{
  nat_eq, branch, ◌==◌, contains, Result, ok, err, text_eq, is_empty, ℕ, Bool, true, false, not,
  ◌&&◌, ◌||◌, Option, none, some, List,
}
use catalogger.Logging.Update.{
  edit_in_root, edit_in_guild, edit_checked, compared, send_edit, log_edit, message_update,
}
use catalogger.Logging.Routing.{is_root_ignored, is_user_ignored}
use catalogger.Db.Tables.{Db}
use catalogger.Db.Rows.{Message}
use catalogger.Db.Guilds as Guilds
use catalogger.Db.Channels.{Channels}
use catalogger.Store.Memory.Channels.{root_channel}
use catalogger.Bot.Users.{Users}

-- A property that looks at none of the three.
pub record IsBlind (P : Logs → Type 0) : Type 0 where
  pub with_db : (st : Logs) (db : Db) → P st → P (record st { db = db })
  pub with_users : (st : Logs) (users : Users) → P st → P (record st { users = users })
  pub with_sent : (st : Logs) (sent : List Sent) → P st → P (record st { sent = sent })

module _ (w : World) (P : Logs → Type 0) (b : IsBlind P) where
  deliver-frame :
      (guild target : ℕ) (e : Embed) (files : List File) (st : Logs)
      → P st
      → P (deliver w guild target e files st)
  unfolding deliver
  deliver-frame guild target e files st h =
      branch P (w.discord.is_valid target) _ st (λ v. b.with_sent st _ h) (λ v. h)

  send_delete-frame :
      (m : Message) (lc : Channels) (root : Channel) (st : Logs)
      → P st
      → P (send_delete w m lc root st)
  unfolding send_delete
  send_delete-frame m lc root st h = deliver-frame _ _ _ _ _ (b.with_users st _ h)

  checked_message-frame :
      (lc : Channels) (r : Result Message) (st : Logs) → P st → P (checked_message w lc r st)
  checked_message-frame lc (err e) st h = h
  checked_message-frame lc (ok m) st h =
      branch P (contains lc.ignores.global_channels m.channel_id) st _ (λ v. h)
        (λ v. by_root (root_channel w.discord w.cabinet m.channel_id))
    where
      by_root : (r : Result Channel) → P (checked_root w m lc r st)
      by_root (err e) = h
      by_root (ok root) =
          branch P (is_root_ignored w.discord lc.ignores root) st _ (λ v. h)
            (λ v.
              branch P (contains lc.ignores.global_users m.user_id) st _ (λ v'. h)
                (λ v'.
                  branch P (is_user_ignored w.discord lc.ignores m.channel_id root m.user_id) st _
                    (λ u. h) (λ u. send_delete-frame m lc root st h)))

  forget-frame : (id : ℕ) (st : Logs) → P st → P (forget w id st)
  forget-frame id st h = b.with_db st (delete_message id st.db).1 h

  log_message-frame : (id : ℕ) (lc : Channels) (st : Logs) → P st → P (log_message w id lc st)
  unfolding log_message
  log_message-frame id lc st h =
      branch P w.should_log _ st
        (λ on.
          let (found, db') = get_message w.services id st.db in
          checked_message-frame lc found (record st { db = db' }) (b.with_db st db' h))
        (λ off. h)

  after_pk-frame : (guild id : ℕ) (st : Logs) → P st → P (after_pk w guild id st)
  unfolding after_pk
  after_pk-frame guild id st h = by_channels (Guilds.channels guild st.db).0 _ (b.with_db st _ h)
    where
      by_channels : (r : Result Channels) (s : Logs) → P s → P (with_channels w id r s)
      by_channels (err e) s k = k
      by_channels (ok lc) s k =
          branch P (w.discord.is_valid lc.channels.message_delete) _ s
            (λ v. forget-frame id (log_message w id lc s) (log_message-frame id lc s k)) (λ v. k)

  -- a deleted message that is no trigger
  pub pk_checked-frame : (guild id : ℕ) (st : Logs) → P st → P (pk_checked w guild id st)
  unfolding pk_checked
  pk_checked-frame guild id st h =
      branch P (not (has_pk_info id st.db).0 && w.before_soon id) _ _
        (λ v. by_answer (w.pk_message id)) (λ v. after_pk-frame guild id s k)
    where
      s : Logs
      s = record st { db = (has_pk_info id st.db).1 }

      k : P s
      k = b.with_db st _ h

      saved : (i : ℕ) (pkm : PkMessage) (x y : Option (List ℕ)) → P (save_proxied w i pkm x y s)
      saved i pkm (some x) (some y) =
          let db' = (update_pk_info pkm.id i pkm.sender x y s.db).1 in
          forget-frame i (record s { db = db' }) (b.with_db s db' k)
      saved i pkm none y = k
      saved i pkm (some x) none = k

      by_answer : (r : Result PkMessage) → P (pk_answered w guild id r s)
      by_answer (err e) = after_pk-frame guild id s k
      by_answer (ok pkm) =
          branch P (pkm.id == id) _ _ (λ v. after_pk-frame guild id s k)
            (λ v. saved id pkm pkm.system pkm.member)

  log_edit-frame :
      (ev : PostedMessage) (lc : Channels) (root : Channel) (st : Logs)
      → P st
      → P (log_edit w ev lc root st)
  unfolding log_edit send_edit
  log_edit-frame ev lc root st h =
      branch P w.should_log _ st
        (λ on. by_answer (get_message w.services ev.id st.db).0 _ (b.with_db st _ h)) (λ off. h)
    where
      by_answer : (r : Result Message) (s : Logs) → P s → P (compared w ev lc root r s)
      by_answer (err e) s k = k
      by_answer (ok old) s k =
          branch P (text_eq old.content ev.content) s _ (λ v. k)
            (λ v.
              branch P (has_pk w old.system old.member) _ _
                (λ v'. deliver-frame _ _ _ _ _ (b.with_users s _ k))
                (λ v'. deliver-frame _ _ _ _ _ k))

  edit_in_guild-frame :
      (ev : PostedMessage) (r : Result Channels) (st : Logs) → P st → P (edit_in_guild w ev r st)
  unfolding edit_in_guild
  edit_in_guild-frame ev (err e) st h = h
  edit_in_guild-frame ev (ok lc) st h =
      branch P (not (w.discord.is_valid lc.channels.message_update)) st _ (λ v. h)
        (λ v.
          branch P (contains lc.ignores.global_channels ev.channel_id) st _ (λ v'. h)
            (λ v'. by_root (root_channel w.discord w.cabinet ev.channel_id)))
    where
      by_root : (r : Result Channel) → P (edit_in_root w ev lc r st)
      by_root (err e) = h
      by_root (ok root) =
          branch P (is_root_ignored w.discord lc.ignores root) st _ (λ v. h)
            (λ v.
              branch P (contains lc.ignores.global_users ev.author.id) st _ (λ v'. h)
                (λ v'.
                  branch P (is_user_ignored w.discord lc.ignores ev.channel_id root ev.author.id) st
                    _ (λ u. h) (λ u. b.with_db _ _ (log_edit-frame ev lc root st h))))

  pub message_update-frame : (ev : PostedMessage) (st : Logs) → P st → P (message_update w ev st)
  unfolding message_update edit_checked
  message_update-frame ev st h =
      branch P (not (w.discord.is_valid ev.guild_id) || not (w.discord.is_valid ev.author.id)) st _
        (λ v. h)
        (λ v.
          branch P (is_empty ev.content) st _ (λ v'. h)
            (λ v'. by_ignored (is_message_ignored ev.id st.db).0 _ (b.with_db st _ h)))
    where
      by_ignored : (r : Result Bool) (s : Logs) → P s → P (edit_checked w ev r s)
      by_ignored (err e) s k = k
      by_ignored (ok true) s k = k
      by_ignored (ok false) s k = edit_in_guild-frame ev _ _ (b.with_db s _ k)

  pub message_create-frame : (m : PostedMessage) (st : Logs) → P st → P (message_create w m st).0
  unfolding message_create
  message_create-frame m st h =
      branch (λ (x : Logs × Bool). P x.0) (w.discord.is_valid m.guild_id) _ _
        (λ v. by_channels (Guilds.channels m.guild_id st.db).0 _ (b.with_db st _ h)) (λ v. h)
    where
      by_done : (r : Result (Unit {0})) (s : Logs) → P s → P (inserted w m r s).0
      by_done (err e) s k = k
      by_done (ok u) s k = k

      by_channels : (r : Result Channels) (s : Logs) → P s → P (create_in_guild w m r s).0
      by_channels (err e) s k = k
      by_channels (ok chs) s k =
          branch (λ (x : Logs × Bool). P x.0) (stores_messages w chs) _ _
            (λ v.
              let (done, db') = insert_message w.services (created_message w m) s.db in
              by_done done (record s { db = db' }) (b.with_db s db' k))
            (λ v. k)
