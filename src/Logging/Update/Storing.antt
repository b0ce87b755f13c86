-- ===== src/Logging/Update/Storing.antt =====
-- The database after the handler of an edited message (logging/messages/message_update.go).
use catalogger.Base.{
  nat_eq, if◌then◌else◌, branch, contains, wrap, Result, ok, err, text_eq, is_empty, ℕ, ◌≡◌, refl,
  sym, ap, ◌∙◌, Bool, true, false, not, ◌&&◌, ◌||◌, some, List, arith,
}
use catalogger.Logging.Update.{
  send_edit, compared, log_edit, edited_message, store_edit, edit_in_guild, edit_checked,
  message_update,
}
use catalogger.Logging.Delete.{has_pk}
use catalogger.Logging.Delete.Forgetting.{deliver-db, get_message-db}
use catalogger.Logging.Routing.{is_root_ignored, is_user_ignored}
use catalogger.Logging.Routing.Scopes.{any_ignored, any_user_ignored, scopes, ignored-scopes}
use catalogger.Logging.State.{Logs, World}
use catalogger.Db.Messages.{insert_message, get_message, is_message_ignored}
use catalogger.Db.Messages.RoundTrip.{healthy, get_message-insert_message_again}
use catalogger.Db.Rows.{Message, or_none}
use catalogger.Db.Guilds as Guilds
use catalogger.Db.Channels.{Channels}
use catalogger.Store.Memory.Channels.{root_channel}
use catalogger.Discord.{Channel, PostedMessage}
use catalogger.Base.GoMap

-- an independent description of the messages that the handler's checks of the ignores let through
abbrev pub is_watched : World → PostedMessage → Channels → Channel → Bool
is_watched w ev lc root =
    let places = scopes w.discord ev.channel_id root in
    not (
      any_ignored w.discord lc.ignores places
      || (any_user_ignored w.discord lc.ignores ev.author.id places
          || contains lc.ignores.global_users ev.author.id))

-- the four checks
pub record Passed (w : World) (ev : PostedMessage) (lc : Channels) (root : Channel) : Type 0 where
  pub channel_free : contains lc.ignores.global_channels ev.channel_id ≡ false
  pub root_free : is_root_ignored w.discord lc.ignores root ≡ false
  pub user_free : contains lc.ignores.global_users ev.author.id ≡ false
  pub place_free : is_user_ignored w.discord lc.ignores ev.channel_id root ev.author.id ≡ false

all_false :
    (a b c d e f : Bool)
    → (a || (b || c)) ≡ (d || e)
    → not (d || (e || f)) ≡ true
    → (a ≡ false) × (b ≡ false) × (f ≡ false) × (c ≡ false)
all_false a b c d e f x y = ground arith

pub is_watched-Passed :
    (w : World) (ev : PostedMessage) (lc : Channels) (root : Channel)
    → is_watched w ev lc root ≡ true
    → Passed w ev lc root
is_watched-Passed w ev lc root h =
    let (p, q, r, s) =
      all_false _ _ _ _ _ _ (ignored-scopes w.discord lc.ignores ev.channel_id root ev.author.id)
        h in
    record { channel_free = p; root_free = q; user_free = r; place_free = s }

module _ (w : World) (ev : PostedMessage) where
  log_edit-db :
      (lc : Channels) (root : Channel) (st : Logs)
      → st.db ≡ healthy st.db
      → (log_edit w ev lc root st).db ≡ healthy st.db
  unfolding log_edit send_edit
  log_edit-db lc root st h =
      branch (λ (x : Logs). x.db ≡ healthy st.db) w.should_log _ st
        (λ on.
          by_answer (get_message w.services ev.id st.db).0 s
          ∙ ap (λ d. (get_message w.services ev.id d).1) h
          ∙ get_message-db w ev.id st.db)
        (λ off. h)
    where
      s : Logs
      s = record st { db = (get_message w.services ev.id st.db).1 }

      by_answer : (r : Result Message) (x : Logs) → (compared w ev lc root r x).db ≡ x.db
      by_answer (err e) x = refl
      by_answer (ok old) x =
          branch (λ (y : Logs). y.db ≡ x.db) (text_eq old.content ev.content) x _ (λ v. refl)
            (λ v.
              branch (λ (y : Logs). y.db ≡ x.db) (has_pk w old.system old.member) _ _
                (λ v'. deliver-db _ _ _ _ _ _) (λ v'. deliver-db _ _ _ _ _ _))

  -- in a guild that logs edits, and with the checks passed, exactly the deferred statement is run
  edit_in_guild-runs :
      (lc : Channels) (root : Channel) (st : Logs)
      → w.discord.is_valid lc.channels.message_update ≡ true
      → root_channel w.discord w.cabinet ev.channel_id ≡ ok root
      → Passed w ev lc root
      → edit_in_guild w ev (ok lc) st ≡ store_edit w ev (log_edit w ev lc root st)
  unfolding edit_in_guild
  edit_in_guild-runs lc root st on up p =
      rw (on, p.channel_free, up, p.root_free, p.user_free, p.place_free) refl

  message_update-runs :
      (lc : Channels) (root : Channel) (st : Logs)
      → w.discord.is_valid ev.guild_id ≡ true
      → w.discord.is_valid ev.author.id ≡ true
      → is_empty ev.content ≡ false
      → contains st.db.ignored_messages ev.id ≡ false
      → GoMap.get st.db.guilds ev.guild_id ≡ some lc
      → w.discord.is_valid lc.channels.message_update ≡ true
      → root_channel w.discord w.cabinet ev.channel_id ≡ ok root
      → Passed w ev lc root
      → message_update w ev (record st { db = healthy st.db })
        ≡ store_edit w ev (log_edit w ev lc root (record st { db = healthy st.db }))
  unfolding message_update edit_checked is_message_ignored Guilds.channels
  message_update-runs lc root st guild author full free there on up p =
      let s : Logs = record st { db = healthy st.db } in
      rw (guild, author)
        (ap (λ b. if b then s else edit_checked w ev (ok (contains st.db.ignored_messages ev.id)) s)
            full
          ∙ ap (λ b. edit_checked w ev (ok b) s) free
          ∙ ap (λ o. edit_in_guild w ev (wrap "getting channels" (Guilds.scan o)) s) there
          ∙ edit_in_guild-runs lc root s on up p)

or_none_full : (t : List ℕ) → is_empty t ≡ false → or_none (or_none t) ≡ t
or_none_full t h = rw (h, h) refl

-- An edit by a valid author in a valid guild that logs edits, with content, of a message that the
-- database knows, that is not ignored, and whose channel's root channel is in the cache, is kept: once
-- the handler ran on a database that meets no fault, and encrypting succeeded, a lookup returns the old
-- message with the new content, whether or not the edit was logged, and with its PluralKit data as it was.
pub message_update-keeps :
    (w : World) (ev : PostedMessage) (lc : Channels) (root : Channel) (st : Logs) (old : Message)
    → (w.discord.is_valid ev.guild_id && w.discord.is_valid ev.author.id) ≡ true
    → is_empty ev.content ≡ false
    → st.db ≡ healthy st.db
    → contains st.db.ignored_messages ev.id ≡ false
    → GoMap.get st.db.guilds ev.guild_id ≡ some lc
    → w.discord.is_valid lc.channels.message_update ≡ true
    → root_channel w.discord w.cabinet ev.channel_id ≡ ok root
    → is_watched w ev lc root ≡ true
    → (get_message w.services ev.id st.db).0 ≡ ok old
    → (insert_message w.services (edited_message w ev) st.db).0 ≡ ok tt
    → (get_message w.services ev.id (healthy (message_update w ev st).db)).0
      ≡ ok (record old { content = ev.content })
message_update-keeps w ev lc root st old valid full h free there on up watched before done =
    ap
      (λ d.
        (get_message w.services ev.id (healthy (message_update w ev (record st { db = d })).db)).0)
      h
    ∙ ap (λ (x : Logs). (get_message w.services ev.id (healthy x.db)).0) runs
    ∙ ap
        (λ d.
          (get_message w.services ev.id
            (healthy (insert_message w.services (edited_message w ev) d).1)).0)
        (logged ∙ sym h)
    ∙ get_message-insert_message_again w.services (edited_message w ev) old st.db
        (ap (λ d. (get_message w.services ev.id d).0) (sym h) ∙ before) done
    ∙ ap (λ t. ok (record old { content = t })) (or_none_full ev.content full)
  where
    s : Logs
    s = record st { db = healthy st.db }

    logged : (log_edit w ev lc root s).db ≡ healthy st.db
    logged = log_edit-db w ev lc root s refl

    both : (a b : Bool) → (a && b) ≡ true → (a ≡ true) × (b ≡ true)
    both a b x = ground arith

    runs : message_update w ev s ≡ store_edit w ev (log_edit w ev lc root s)
    runs =
        let (g, a) = both _ _ valid in
        message_update-runs w ev lc root st g a full free there on up
          (is_watched-Passed w ev lc root watched)
