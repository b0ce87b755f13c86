-- ===== src/Logging/Delete/Forgetting.antt =====
-- The database after the handler of a deleted message (logging/messages/message_delete.go).
use catalogger.Logging.Delete.{
  pk_answered, with_channels, deliver, send_delete, checked_root, checked_message, log_message,
  forget, after_pk, pk_checked, message_delete,
}
use catalogger.Discord.{Embed, Channel, File}
use catalogger.Db.Messages.{has_pk_info, get_message, delete_message}
use catalogger.Base.GoMap
use catalogger.Base.{
  nat_eq, string_eq, if◌then◌else◌, Option-cases, branch, ◌==◌, ==_refl, contains, Result, ok, err,
  ℕ, ◌≡◌, refl, sym, ap, ◌∙◌, inl, inr, Bool, true, false, not, ◌&&◌, none, some, List,
}
use catalogger.Common.Set as Set
use catalogger.Db.Channels.{Channels}
use catalogger.Db.Guilds as Guilds
use catalogger.Db.Tables.{Db}
use catalogger.Db.Rows.{Message}
use catalogger.Db.Messages.RoundTrip.{healthy}
use catalogger.Store.Memory.Channels.{root_channel}
use catalogger.Logging.Routing.{is_root_ignored, is_user_ignored}
use catalogger.Logging.State.{Logs, World, PkMessage}

-- PluralKit does not answer, or answers with the message that was asked for
abbrev pub names_no_other : ℕ → Result PkMessage → Bool
names_no_other id (err e) = true
names_no_other id (ok pkm) = pkm.id == id

module _ (w : World) where
  pub deliver-db :
      (guild target : ℕ) (e : Embed) (files : List File) (st : Logs)
      → (deliver w guild target e files st).db ≡ st.db
  unfolding deliver
  deliver-db guild target e files st =
      branch (λ (s : Logs). s.db ≡ st.db) (w.discord.is_valid target) _ st (λ v. refl) (λ v. refl)

  send_delete-db :
      (m : Message) (lc : Channels) (root : Channel) (st : Logs)
      → (send_delete w m lc root st).db ≡ st.db
  unfolding send_delete
  send_delete-db m lc root st = deliver-db _ _ _ _ _

  checked_root-db :
      (m : Message) (lc : Channels) (r : Result Channel) (st : Logs)
      → (checked_root w m lc r st).db ≡ st.db
  checked_root-db m lc (err e) st = refl
  checked_root-db m lc (ok root) st =
      branch (λ (s : Logs). s.db ≡ st.db) (is_root_ignored w.discord lc.ignores root) st _
        (λ v. refl)
        (λ v.
          branch (λ (s : Logs). s.db ≡ st.db) (contains lc.ignores.global_users m.user_id) st _
            (λ v'. refl)
            (λ v'.
              branch (λ (s : Logs). s.db ≡ st.db)
                (is_user_ignored w.discord lc.ignores m.channel_id root m.user_id) st _
                (λ v''. refl) (λ v''. send_delete-db m lc root st)))

  checked_message-db :
      (lc : Channels) (r : Result Message) (st : Logs) → (checked_message w lc r st).db ≡ st.db
  checked_message-db lc (err e) st = refl
  checked_message-db lc (ok m) st =
      branch (λ (s : Logs). s.db ≡ st.db) (contains lc.ignores.global_channels m.channel_id) st _
        (λ v. refl) (λ v. checked_root-db m lc (root_channel w.discord w.cabinet m.channel_id) st)

  pub get_message-db : (id : ℕ) (db : Db) → (get_message w.services id (healthy db)).1 ≡ healthy db
  unfolding get_message
  get_message-db id db = elim (Option-cases (GoMap.get db.messages id)) [
    | inl h ↦ rw (h) refl
    | inr (row, h) ↦ rw (h) refl
  ]

  log_message-db :
      (id : ℕ) (lc : Channels) (st : Logs)
      → st.db ≡ healthy st.db
      → (log_message w id lc st).db ≡ healthy st.db
  unfolding log_message
  log_message-db id lc st h =
      branch (λ (s : Logs). s.db ≡ healthy st.db) w.should_log _ st
        (λ on.
          checked_message-db lc (get_message w.services id st.db).0
            (record st { db = (get_message w.services id st.db).1 })
          ∙ ap (λ d. (get_message w.services id d).1) h
          ∙ get_message-db id st.db)
        (λ off. h)

  pub forget-gone :
      (id : ℕ) (st : Logs)
      → st.db ≡ healthy st.db
      → GoMap.get (forget w id st).db.messages id ≡ none
  unfolding delete_message
  forget-gone id st h =
      ap (λ d. GoMap.get (delete_message id d).1.messages id) h
      ∙ GoMap.get-del st.db.messages id id
      ∙ ap (λ b. if b then none else GoMap.get st.db.messages id) (==_refl id)

  after_pk-gone :
      (guild id : ℕ) (st : Logs) (lc : Channels)
      → st.db ≡ healthy st.db
      → GoMap.get st.db.guilds guild ≡ some lc
      → w.discord.is_valid lc.channels.message_delete ≡ true
      → GoMap.get (after_pk w guild id st).db.messages id ≡ none
  unfolding after_pk Guilds.channels
  after_pk-gone guild id st lc h there on =
      ap
        (λ d.
          GoMap.get
            (with_channels w id (Guilds.channels guild d).0
              (record st { db = (Guilds.channels guild d).1 })).db.messages
            id)
        h
      ∙ rw (there, on) (forget-gone id (log_message w id lc s) (p ∙ ap healthy (sym p)))
    where
      s : Logs
      s = record st { db = healthy st.db }

      p : (log_message w id lc s).db ≡ healthy st.db
      p = log_message-db id lc s refl

  pk_answered-gone :
      (guild id : ℕ) (st : Logs) (lc : Channels) (answer : Result PkMessage)
      → names_no_other id answer ≡ true
      → st.db ≡ healthy st.db
      → GoMap.get st.db.guilds guild ≡ some lc
      → w.discord.is_valid lc.channels.message_delete ≡ true
      → GoMap.get (pk_answered w guild id answer st).db.messages id ≡ none
  pk_answered-gone guild id st lc (err e) alone h there on = after_pk-gone guild id st lc h there on
  pk_answered-gone guild id st lc (ok pkm) alone h there on =
      rw (alone) (after_pk-gone guild id st lc h there on)

  pk_checked-gone :
      (guild id : ℕ) (st : Logs) (lc : Channels)
      → names_no_other id (w.pk_message id) ≡ true
      → GoMap.get st.db.guilds guild ≡ some lc
      → w.discord.is_valid lc.channels.message_delete ≡ true
      → GoMap.get (pk_checked w guild id (record st { db = healthy st.db })).db.messages id ≡ none
  unfolding pk_checked has_pk_info
  pk_checked-gone guild id st lc pk there on =
      branch (λ (x : Logs). GoMap.get x.db.messages id ≡ none)
        (not (has_pk_info id (healthy st.db)).0 && w.before_soon id)
        (pk_answered w guild id (w.pk_message id) s) (after_pk w guild id s)
        (λ v. pk_answered-gone guild id s lc (w.pk_message id) pk refl there on)
        (λ v. after_pk-gone guild id s lc refl there on)
    where
      s : Logs
      s = record st { db = healthy st.db }

-- In a valid guild whose log of deleted messages is switched on, a deleted message that is no trigger
-- of a proxy, and for which PluralKit answers with an error or with this message itself, is gone from a
-- database that meets no fault once it was handled, even if it is ignored, unreadable or not logged.
pub message_delete-gone :
    (w : World) (guild id : ℕ) (st : Logs) (lc : Channels)
    → w.discord.is_valid guild ≡ true
    → Set.exists st.proxy_triggers id ≡ false
    → names_no_other id (w.pk_message id) ≡ true
    → st.db ≡ healthy st.db
    → GoMap.get st.db.guilds guild ≡ some lc
    → w.discord.is_valid lc.channels.message_delete ≡ true
    → GoMap.get (message_delete w guild id st).db.messages id ≡ none
unfolding message_delete
message_delete-gone w guild id st lc valid fresh pk h there on =
    ap (λ (d : Db). GoMap.get (message_delete w guild id (record st { db = d })).db.messages id) h
    ∙ rw (valid, fresh) (pk_checked-gone w guild id st lc pk there on)
