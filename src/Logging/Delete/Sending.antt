-- ===== src/Logging/Delete/Sending.antt =====
-- When the handler of a deleted message (logging/messages/message_delete.go) sends a log message.
use catalogger.Logging.Routing.Scopes.{any_ignored, any_user_ignored, scopes, ignored-scopes}
use catalogger.Db.Messages.{get_message, has_pk_info}
use catalogger.Discord.{Embed, Channel, File}
use catalogger.Logging.Delete.{
  deliver, send_delete, checked_root, checked_message, log_message, forget, with_channels, after_pk,
  save_proxied, pk_answered, pk_checked, message_delete,
}
use catalogger.Base.{
  nat_eq, string_eq, branch, length, ◌==◌, contains, Result, ok, err, ℕ, ◌≡◌, refl, ap, ◌∙◌, ◌⊎◌,
  inl, inr, Bool, true, false, not, ◌&&◌, ◌||◌, Option, none, some, List, [], ◌∷◌, arith,
}
use catalogger.Common.Set as Set
use catalogger.Db.Channels.{Channels}
use catalogger.Db.Guilds as Guilds
use catalogger.Db.Rows.{Message}
use catalogger.Store.Memory.Channels.{root_channel}
use catalogger.Logging.Routing.{is_root_ignored, is_user_ignored}
use catalogger.Logging.State.{Sent, Logs, PkMessage, World}

module _ (w : World) (before : List Sent) where
  -- nothing more was sent, or one message with one embed to a valid channel
  unfoldable pub SendsOnce : Logs → Type 0
  SendsOnce st =
      (st.sent ≡ before)
      ⊎ ((x : Sent) × (st.sent ≡ x ∷ before)
          × (w.discord.is_valid x.channel ≡ true)
          × (length x.embeds ≡ 1)
          × (w.should_log ≡ true))

  silent : (st : Logs) → st.sent ≡ before → SendsOnce st
  unfolding SendsOnce
  silent st h = inl h

  deliver-SendsOnce :
      (guild target : ℕ) (e : Embed) (files : List File) (st : Logs)
      → st.sent ≡ before
      → w.should_log ≡ true
      → SendsOnce (deliver w guild target e files st)
  unfolding deliver SendsOnce
  deliver-SendsOnce guild target e files st h on =
      let x : Sent = record { guild = guild; channel = target; embeds = e ∷ []; files = files } in
      branch SendsOnce (w.discord.is_valid target) (record st { sent = x ∷ st.sent }) st
        (λ v. inr (x, ap (λ l. x ∷ l) h, v, refl, on)) (λ v. inl h)

  send_delete-SendsOnce :
      (m : Message) (lc : Channels) (root : Channel) (st : Logs)
      → st.sent ≡ before
      → w.should_log ≡ true
      → SendsOnce (send_delete w m lc root st)
  unfolding send_delete
  send_delete-SendsOnce m lc root st h on = deliver-SendsOnce _ _ _ _ _ h on

  checked_message-SendsOnce :
      (lc : Channels) (r : Result Message) (st : Logs)
      → st.sent ≡ before
      → w.should_log ≡ true
      → SendsOnce (checked_message w lc r st)
  checked_message-SendsOnce lc (err e) st h on = silent st h
  checked_message-SendsOnce lc (ok m) st h on =
      branch SendsOnce (contains lc.ignores.global_channels m.channel_id) st _ (λ v. silent st h)
        (λ v. by_root (root_channel w.discord w.cabinet m.channel_id))
    where
      by_root : (r : Result Channel) → SendsOnce (checked_root w m lc r st)
      by_root (err e) = silent st h
      by_root (ok root) =
          branch SendsOnce (is_root_ignored w.discord lc.ignores root) st _ (λ v. silent st h)
            (λ v.
              branch SendsOnce (contains lc.ignores.global_users m.user_id) st _ (λ v'. silent st h)
                (λ v'.
                  branch SendsOnce
                    (is_user_ignored w.discord lc.ignores m.channel_id root m.user_id) st _
                    (λ v''. silent st h) (λ v''. send_delete-SendsOnce m lc root st h on)))

  log_message-SendsOnce :
      (id : ℕ) (lc : Channels) (st : Logs) → st.sent ≡ before → SendsOnce (log_message w id lc st)
  unfolding log_message
  log_message-SendsOnce id lc st h =
      branch SendsOnce w.should_log _ st
        (λ on.
          checked_message-SendsOnce lc (get_message w.services id st.db).0
            (record st { db = (get_message w.services id st.db).1 }) h on)
        (λ off. silent st h)

  forget-SendsOnce : (id : ℕ) (st : Logs) → SendsOnce st → SendsOnce (forget w id st)
  unfolding SendsOnce
  forget-SendsOnce id st h = h

  after_pk-SendsOnce :
      (guild id : ℕ) (st : Logs) → st.sent ≡ before → SendsOnce (after_pk w guild id st)
  unfolding after_pk
  after_pk-SendsOnce guild id st h =
      by_channels (Guilds.channels guild st.db).0
        (record st { db = (Guilds.channels guild st.db).1 }) h
    where
      by_channels :
          (r : Result Channels) (s : Logs) → s.sent ≡ before → SendsOnce (with_channels w id r s)
      by_channels (err e) s h' = silent s h'
      by_channels (ok lc) s h' =
          branch SendsOnce (w.discord.is_valid lc.channels.message_delete) _ s
            (λ v. forget-SendsOnce id (log_message w id lc s) (log_message-SendsOnce id lc s h'))
            (λ v. silent s h')

  pk_answered-SendsOnce :
      (guild id : ℕ) (r : Result PkMessage) (st : Logs)
      → st.sent ≡ before
      → SendsOnce (pk_answered w guild id r st)
  pk_answered-SendsOnce guild id (err e) st h = after_pk-SendsOnce guild id st h
  pk_answered-SendsOnce guild id (ok pkm) st h =
      branch SendsOnce (pkm.id == id) _ _ (λ v. after_pk-SendsOnce guild id st h)
        (λ v. by_data pkm.system pkm.member)
    where
      by_data : (a b : Option (List ℕ)) → SendsOnce (save_proxied w id pkm a b st)
      by_data (some a) (some b) = silent _ h
      by_data none b = silent st h
      by_data (some a) none = silent st h

-- A deleted message leads to at most one log message, of one embed and to a valid channel, and to none
-- while logging is switched off; what was sent before stays as it was. This holds whatever the
-- database, PluralKit and the caches answer.
pub message_delete-SendsOnce :
    (w : World) (guild id : ℕ) (st : Logs) → SendsOnce w st.sent (message_delete w guild id st)
unfolding message_delete pk_checked
message_delete-SendsOnce w guild id st =
    branch (SendsOnce w st.sent) (not (w.discord.is_valid guild)) st _
      (λ v. silent w st.sent st refl)
      (λ v.
        branch (SendsOnce w st.sent) (Set.exists st.proxy_triggers id) _ _
          (λ v'. silent w st.sent _ refl)
          (λ v'.
            branch (SendsOnce w st.sent) (not (has_pk_info id st.db).0 && w.before_soon id) _ _
              (λ x. pk_answered-SendsOnce w st.sent guild id (w.pk_message id) _ refl)
              (λ x. after_pk-SendsOnce w st.sent guild id _ refl)))

clash :
    (a b c e o : Bool)
    → a ≡ false
    → b ≡ false
    → c ≡ false
    → e ≡ false
    → (a || (b || e)) ≡ o
    → (o || c) ≡ true
    → ⊥
clash false false false false o ha hb hc he x y = ground arith
clash true b c e o ha hb hc he x y = ground arith
clash false true c e o ha hb hc he x y = ground arith
clash false false true e o ha hb hc he x y = ground arith
clash false false false true o ha hb hc he x y = ground arith

-- While the log of deleted messages is worked on, a message that can be read, and whose channel has a
-- root channel in the cache, is not logged if its channel, root channel or category is ignored, its
-- author is, or its author is ignored in one of these places.
pub log_message-ignored :
    (w : World) (id : ℕ) (lc : Channels) (st : Logs) (m : Message) (root : Channel)
    → (get_message w.services id st.db).0 ≡ ok m
    → root_channel w.discord w.cabinet m.channel_id ≡ ok root
    → ((any_ignored w.discord lc.ignores (scopes w.discord m.channel_id root)
          || any_user_ignored w.discord lc.ignores m.user_id (scopes w.discord m.channel_id root))
        || contains lc.ignores.global_users m.user_id)
      ≡ true
    → (log_message w id lc st).sent ≡ st.sent
unfolding log_message
log_message-ignored w id lc st m root got up ignored =
    branch (λ (s : Logs). s.sent ≡ st.sent) w.should_log _ st
      (λ on.
        ap (λ r. (checked_message w lc r s).sent) got
        ∙ branch (λ (x : Logs). x.sent ≡ st.sent) (contains lc.ignores.global_channels m.channel_id)
            s _ (λ v. refl)
            (λ v.
              ap (λ r. (checked_root w m lc r s).sent) up
              ∙ branch (λ (x : Logs). x.sent ≡ st.sent) (is_root_ignored w.discord lc.ignores root)
                  s _ (λ v'. refl)
                  (λ v'.
                    branch (λ (x : Logs). x.sent ≡ st.sent)
                      (contains lc.ignores.global_users m.user_id) s _ (λ u. refl)
                      (λ u.
                        branch (λ (x : Logs). x.sent ≡ st.sent)
                          (is_user_ignored w.discord lc.ignores m.channel_id root m.user_id) s _
                          (λ u'. refl) (λ u'. absurd (not_ignored v v' u u'))))))
      (λ off. refl)
  where
    s : Logs
    s = record st { db = (get_message w.services id st.db).1 }

    not_ignored :
        contains lc.ignores.global_channels m.channel_id ≡ false
        → is_root_ignored w.discord lc.ignores root ≡ false
        → contains lc.ignores.global_users m.user_id ≡ false
        → is_user_ignored w.discord lc.ignores m.channel_id root m.user_id ≡ false
        → ⊥
    not_ignored a b c e =
        let x = ignored-scopes w.discord lc.ignores m.channel_id root m.user_id in
        clash _ _ _ _ _ a b c e x ignored
