-- ===== src/Logging/Events/Triggers.antt =====
-- The messages that PluralKit replaced, which logging/messages/message_create.go notes and
-- message_delete.go looks up, over all orders of events.
use catalogger.Base.{
  nat_eq, branch, ◌==◌, ==_refl, contains, ℕ, ◌≡◌, refl, Bool, true, false, not, ◌&&◌, List, [],
  ◌∷◌, arith,
}
use catalogger.Logging.Events.{
  handle_message, handle_messages, MessageEvent, created, proxied, woken, updated, deleted,
}
use catalogger.Logging.Events.Frame.{
  pk_checked-frame, message_update-frame, message_create-frame, IsBlind,
}
use catalogger.Logging.State.{Logs, World}
use catalogger.Logging.Create.{
  pk_bots, message_create_woken, pk_groups, pk_embeds, pk_message_create, Patterns,
}
use catalogger.Logging.Delete.{message_delete}
use catalogger.Common.Set as Set
use catalogger.Common.Set.Refinement.{exists-add, exists-remove}
use catalogger.Db.Crypt.{Text}
use catalogger.Discord.{PostedMessage, Embed}

-- none of the events is the deletion of this message
abbrev pub spares : ℕ → MessageEvent → Bool
spares id (deleted guild other) = not (other == id)
spares id _ = true

abbrev pub spare : ℕ → List MessageEvent → Bool
spare id [] = true
spare id (e ∷ es) = spares id e && spare id es

-- the identifier is one of those of proxied messages
abbrev pub Noted : ℕ → Logs → Type 0
Noted id st = Set.exists st.proxy_triggers id ≡ true

blind : (id : ℕ) → IsBlind (Noted id)
blind id = record {
  with_db = λ st db h. h;
  with_users = λ st users h. h;
  with_sent = λ st sent h. h;
}

module _ (w : World) (p : Patterns) (id : ℕ) where
  add-Noted :
      (st : Logs) (other : ℕ)
      → Noted id st
      → Set.exists (Set.add st.proxy_triggers other).0 id ≡ true
  add-Noted st other h = ground (arith, exists-add st.proxy_triggers other id)

  pk_groups-Noted : (gs : List Text) (st : Logs) → Noted id st → Noted id (pk_groups w p gs st)
  pk_groups-Noted (a ∷ b ∷ c ∷ d ∷ e ∷ f ∷ gs) st h = add-Noted st (p.parse_snowflake f) h
  pk_groups-Noted [] st h = h
  pk_groups-Noted (a ∷ []) st h = h
  pk_groups-Noted (a ∷ b ∷ []) st h = h
  pk_groups-Noted (a ∷ b ∷ c ∷ []) st h = h
  pk_groups-Noted (a ∷ b ∷ c ∷ d ∷ []) st h = h
  pk_groups-Noted (a ∷ b ∷ c ∷ d ∷ e ∷ []) st h = h

  pk_message_create-Noted :
      (m : PostedMessage) (st : Logs) → Noted id st → Noted id (pk_message_create w p m st)
  unfolding pk_message_create
  pk_message_create-Noted m st h =
      branch (Noted id) (not (contains pk_bots m.author.id)) st _ (λ v. h)
        (λ v.
          branch (Noted id) (not (p.is_link m.content)) st _ (λ v'. h) (λ v'. by_embeds m.embeds))
    where
      by_embeds : (es : List Embed) → Noted id (pk_embeds w p es st)
      by_embeds [] = h
      by_embeds (e ∷ es) = pk_groups-Noted (p.footer_groups e.footer) st h

  message_delete-Noted :
      (guild other : ℕ) (st : Logs)
      → (other == id) ≡ false
      → Noted id st
      → Noted id (message_delete w guild other st)
  unfolding message_delete
  message_delete-Noted guild other st different h =
      branch (Noted id) (not (w.discord.is_valid guild)) st _ (λ v. h)
        (λ v.
          branch (Noted id) (Set.exists st.proxy_triggers other) _ _
            (λ v'. ground (arith, exists-remove st.proxy_triggers other id))
            (λ v'. pk_checked-frame w (Noted id) (blind id) guild other st h))

  handle_message-Noted :
      (e : MessageEvent) (st : Logs)
      → spares id e ≡ true
      → Noted id st
      → Noted id (handle_message w p e st)
  unfolding handle_message message_create_woken
  handle_message-Noted (created m) st free h = message_create-frame w (Noted id) (blind id) m st h
  handle_message-Noted (proxied m) st free h = pk_message_create-Noted m st h
  handle_message-Noted (woken i) st free h =
      branch (Noted id) (Set.exists st.handled_messages i) _ st (λ v. h) (λ v. h)
  handle_message-Noted (updated m) st free h = message_update-frame w (Noted id) (blind id) m st h
  handle_message-Noted (deleted guild i) st free h =
      message_delete-Noted guild i st (ground arith) h

  handle_messages-Noted :
      (es : List MessageEvent) (st : Logs)
      → spare id es ≡ true
      → Noted id st
      → Noted id (handle_messages w p es st)
  unfolding handle_messages
  handle_messages-Noted [] st free h = h
  handle_messages-Noted (e ∷ es) st free h =
      let (now, later) = both (spares id e) (spare id es) free in
      handle_messages-Noted es (handle_message w p e st) later (handle_message-Noted e st now h)
    where
      both : (a b : Bool) → (a && b) ≡ true → (a ≡ true) × (b ≡ true)
      both a b x = ground arith

-- PluralKit's own log message names a message that it replaced. When that message is deleted, whatever
-- else was handled in between except its deletion, nothing is sent, the database is not asked, and the
-- only change is that the identifier is forgotten.
pub message_delete-pk_message_create :
    (w : World) (p : Patterns) (m : PostedMessage) (embed : Embed) (embeds : List Embed)
    (whole system member user msg original : Text) (more : List Text) (es : List MessageEvent)
    (guild : ℕ) (st : Logs)
    → contains pk_bots m.author.id ≡ true
    → p.is_link m.content ≡ true
    → m.embeds ≡ embed ∷ embeds
    → p.footer_groups embed.footer ≡ whole ∷ system ∷ member ∷ user ∷ msg ∷ original ∷ more
    → spare (p.parse_snowflake original) es ≡ true
    → w.discord.is_valid guild ≡ true
    → message_delete w guild
        (p.parse_snowflake original)
        (handle_messages w p es (pk_message_create w p m st))
      ≡ record (handle_messages w p es (pk_message_create w p m st)) {
        proxy_triggers =
            (Set.remove
              (handle_messages w p es (pk_message_create w p m st)).proxy_triggers
              (p.parse_snowflake original)).0;
      }
unfolding message_delete pk_message_create
message_delete-pk_message_create w p m embed embeds whole system member user msg original more es
      guild st bot link first groups free valid =
    forgets (handle_messages w p es (pk_message_create w p m st))
      (handle_messages-Noted w p id es (pk_message_create w p m st) free noted)
  where
    id : ℕ
    id = p.parse_snowflake original

    added : Noted id (pk_groups w p (whole ∷ system ∷ member ∷ user ∷ msg ∷ original ∷ more) st)
    added = ground (arith, exists-add st.proxy_triggers id id, ==_refl id)

    noted : Noted id (pk_message_create w p m st)
    noted = rw (bot, link, first, groups) added

    forgets :
        (s : Logs)
        → Noted id s
        → message_delete w guild id s
          ≡ record s { proxy_triggers = (Set.remove s.proxy_triggers id).0 }
    forgets s h = rw (valid, h) refl
