-- ===== src/Logging/Update/Sending.antt =====
-- When the handler of an edited message (logging/messages/message_update.go) sends a log message.
use catalogger.Base.{
  nat_eq, branch, length, contains, Result, ok, err, bytes, text_eq, text_eq_iff, is_empty, ℕ, ◌≤◌,
  ◌<◌, ◌≡◌, refl, sym, ap, subst, ◌≢◌, ◌⊎◌, inl, inr, Bool, true, false, not, ◌||◌, List, [], ◌∷◌,
  arith,
}
use catalogger.Logging.Update.{
  content_files, send_edit, compared, log_edit, store_edit, edit_in_root, edit_in_guild,
  edit_checked, message_update,
}
use catalogger.Logging.Delete.{deliver, has_pk}
use catalogger.Logging.Routing.{is_root_ignored, is_user_ignored}
use catalogger.Logging.State.{Logs, World, Sent}
use catalogger.Db.Messages.{get_message, is_message_ignored}
use catalogger.Db.Messages.RoundTrip.{healthy}
use catalogger.Db.Tables.{Db}
use catalogger.Db.Rows.{Message}
use catalogger.Db.Guilds as Guilds
use catalogger.Db.Channels.{Channels}
use catalogger.Db.Crypt.{Text}
use catalogger.Store.Memory.Channels.{root_channel}
use catalogger.Discord.{Channel, PostedMessage, Embed, File}

-- both contents, as files
abbrev both_contents : PostedMessage → Message → List File
both_contents ev old =
    record { name = bytes "before.txt"; contents = old.content }
    ∷ record { name = bytes "after.txt"; contents = ev.content }
    ∷ []

-- The log message for an edit: it goes to a valid channel, and the two contents stand beside it as files
-- exactly if one of them has 2000 bytes or more.
pub record IsEditLog (w : World) (ev : PostedMessage) (old : Message) (x : Sent) : Type 0 where
  pub guild_of : x.guild ≡ ev.guild_id
  pub channel_valid : w.discord.is_valid x.channel ≡ true
  pub changed : old.content ≢ ev.content
  pub logs_on : w.should_log ≡ true
  pub attached :
      (2000 ≤ length ev.content) ⊎ (2000 ≤ length old.content) → x.files ≡ both_contents ev old
  pub unattached : length ev.content < 2000 → length old.content < 2000 → x.files ≡ []

content_files-long :
    (w : World) (ev : PostedMessage) (old : Message)
    → (2000 ≤ length ev.content) ⊎ (2000 ≤ length old.content)
    → content_files w ev.content old.content ≡ both_contents ev old
content_files-long w ev old (inl h) = ground arith
content_files-long w ev old (inr h) = ground arith

content_files-short :
    (w : World) (ev : PostedMessage) (old : Message)
    → length ev.content < 2000
    → length old.content < 2000
    → content_files w ev.content old.content ≡ []
content_files-short w ev old a b = ground arith

module _ (w : World) (ev : PostedMessage) (before : List Sent) (answer : Result Message) where
  -- nothing more was sent, or one log message for an edit of the message that the database answered
  unfoldable pub SendsEdit : Logs → Type 0
  SendsEdit st =
      (st.sent ≡ before)
      ⊎ ((old : Message) × (x : Sent) × (answer ≡ ok old)
          × (st.sent ≡ x ∷ before)
          × IsEditLog w ev old x)

  silent : (st : Logs) → st.sent ≡ before → SendsEdit st
  unfolding SendsEdit
  silent st h = inl h

  deliver-SendsEdit :
      (target : ℕ) (e : Embed) (old : Message) (st : Logs)
      → answer ≡ ok old
      → old.content ≢ ev.content
      → w.should_log ≡ true
      → st.sent ≡ before
      → SendsEdit (deliver w ev.guild_id target e (content_files w ev.content old.content) st)
  unfolding deliver SendsEdit
  deliver-SendsEdit target e old st got new on h =
      let files = content_files w ev.content old.content in
      let x : Sent = record {
        guild = ev.guild_id;
        channel = target;
        embeds = e ∷ [];
        files = files;
      } in
      branch SendsEdit (w.discord.is_valid target) (record st { sent = x ∷ st.sent }) st
        (λ v. inr (
          old,
          x,
          got,
          ap (λ l. x ∷ l) h,
          record {
            guild_of = refl;
            channel_valid = v;
            changed = new;
            logs_on = on;
            attached = λ long. content_files-long w ev old long;
            unattached = λ a b. content_files-short w ev old a b;
          },
        ))
        (λ v. inl h)

  differs : (a b : Text) → text_eq a b ≡ false → a ≢ b
  differs a b h e = ground (arith, text_eq_iff a b)

  compared-SendsEdit :
      (lc : Channels) (root : Channel) (r : Result Message) (st : Logs)
      → answer ≡ r
      → w.should_log ≡ true
      → st.sent ≡ before
      → SendsEdit (compared w ev lc root r st)
  unfolding send_edit
  compared-SendsEdit lc root (err e) st got on h = silent st h
  compared-SendsEdit lc root (ok old) st got on h =
      branch SendsEdit (text_eq old.content ev.content) st _ (λ v. silent st h)
        (λ v.
          let new = differs old.content ev.content v in
          branch SendsEdit (has_pk w old.system old.member) _ _
            (λ v'. deliver-SendsEdit _ _ old _ got new on h)
            (λ v'. deliver-SendsEdit _ _ old _ got new on h))

  store_edit-SendsEdit : (st : Logs) → SendsEdit st → SendsEdit (store_edit w ev st)
  unfolding SendsEdit
  store_edit-SendsEdit st h = h

module _ (w : World) (ev : PostedMessage) where
  edit_in_guild-SendsEdit :
      (r : Result Channels) (st : Logs)
      → SendsEdit w ev st.sent (get_message w.services ev.id st.db).0 (edit_in_guild w ev r st)
  unfolding edit_in_guild log_edit
  edit_in_guild-SendsEdit (err e) st = silent w ev _ _ st refl
  edit_in_guild-SendsEdit (ok lc) st =
      branch Sends (not (w.discord.is_valid lc.channels.message_update)) st _ (λ v. quiet)
        (λ v.
          branch Sends (contains lc.ignores.global_channels ev.channel_id) st _ (λ v'. quiet)
            (λ v'. by_root (root_channel w.discord w.cabinet ev.channel_id)))
    where
      Sends : Logs → Type 0
      Sends = SendsEdit w ev st.sent (get_message w.services ev.id st.db).0

      quiet : Sends st
      quiet = silent w ev _ _ st refl

      by_root : (r : Result Channel) → Sends (edit_in_root w ev lc r st)
      by_root (err e) = quiet
      by_root (ok root) =
          branch Sends (is_root_ignored w.discord lc.ignores root) st _ (λ v. quiet)
            (λ v.
              branch Sends (contains lc.ignores.global_users ev.author.id) st _ (λ v'. quiet)
                (λ v'.
                  branch Sends
                    (is_user_ignored w.discord lc.ignores ev.channel_id root ev.author.id) st _
                    (λ u. quiet)
                    (λ u. store_edit-SendsEdit w ev _ _ _ (
                      branch Sends w.should_log _ st
                        (λ on. compared-SendsEdit w ev _ _ lc root _ _ refl on refl)
                        (λ off. quiet)))))

-- On a database that meets no fault, an edited message leads to at most one log message. One is sent
-- only while logging is on, to a valid channel, for a message that the database had and whose content
-- there was another one, with both contents attached as files if one of them has 2000 bytes or more, and no file else.
pub message_update-SendsEdit :
    (w : World) (ev : PostedMessage) (st : Logs)
    → st.db ≡ healthy st.db
    → SendsEdit w ev st.sent (get_message w.services ev.id st.db).0 (message_update w ev st)
unfolding message_update edit_checked is_message_ignored Guilds.channels
message_update-SendsEdit w ev st h =
    branch Sends (not (w.discord.is_valid ev.guild_id) || not (w.discord.is_valid ev.author.id)) st
      _ (λ v. quiet)
      (λ v.
        branch Sends (is_empty ev.content) st _ (λ v'. quiet)
          (λ v'.
            subst
              (λ (d : Db). Sends (
                edit_checked w ev (is_message_ignored ev.id d).0
                  (record st { db = (is_message_ignored ev.id d).1 })))
              (sym h) (by_ignored (contains st.db.ignored_messages ev.id))))
  where
    Sends : Logs → Type 0
    Sends = SendsEdit w ev st.sent (get_message w.services ev.id st.db).0

    quiet : Sends st
    quiet = silent w ev _ _ st refl

    s : Logs
    s = record st { db = healthy st.db }

    by_ignored : (b : Bool) → Sends (edit_checked w ev (ok b) s)
    by_ignored true = silent w ev _ _ s refl
    by_ignored false =
        subst
          (λ (d : Db).
            SendsEdit w ev st.sent (get_message w.services ev.id d).0
              (edit_checked w ev (ok false) s))
          (sym h) (edit_in_guild-SendsEdit w ev _ s)
