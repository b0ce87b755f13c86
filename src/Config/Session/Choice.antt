-- ===== src/Config/Session/Choice.antt =====
-- A choice in the menu, from the button to the channel that an event is sent to.
use catalogger.Db.Channels.Laws.{read-write_ne, read-write_self, field_of_event-event_name}
use catalogger.Config.Menu.{menu_complete, button_of}
use catalogger.Config.Session.{on_page, menu_step, Session, Press, press, going}
use text.Mathlib.Text.{starts_with}
use catalogger.Base.{
  string_eq, if◌then◌else◌, Bool-cases, ◌==◌, ℕ, ◌≡◌, refl, ◌≢◌, inl, inr, true, false, ◌∷◌,
}
use catalogger.Discord.{Discord}
use catalogger.Db.Channels.{read, event_name, for, LogChannels, Field}
use catalogger.Config.{channel_page, PageEvent, selected, pressed}

-- A press of the button of a field, where every call goes well.
abbrev pub press_of : Field → PageEvent → Press
press_of f page = record {
  id = button_of f;
  context = true;
  page = page;
  cleared = true;
  saved = true;
  redrawn = true;
}

-- what the choice makes of the channel
abbrev pub choice : Discord → PageEvent → ℕ → ℕ
choice d (selected (v ∷ vs)) old = v
choice d (pressed id) old = if id == "channel:reset" then d.null_id else old
choice d _ old = old

starts_with-button_of :
    (f : Field)
    → (starts_with (button_of f) "channel:" ≡ true) × ((button_of f == "channel:close") ≡ false)
starts_with-button_of Field.guild_update = (refl, refl)
starts_with-button_of _ = (refl, refl)

for-event_name : (d : Discord) (lc : LogChannels) (f : Field) → for d lc (event_name f) ≡ read lc f
unfolding for
for-event_name d lc f = rw (field_of_event-event_name f)

read-channel_page :
    (d : Discord) (lc : LogChannels) (f : Field) (page : PageEvent)
    → (read (channel_page d lc f page) f ≡ choice d page (read lc f))
      × ((g : Field) → f ≢ g → read (channel_page d lc f page) g ≡ read lc g)
unfolding channel_page
read-channel_page d lc f (selected (v ∷ vs)) =
    (read-write_self lc f v, λ g h. read-write_ne lc f g v h)
read-channel_page d lc f (pressed id) = elim (Bool-cases (id == "channel:reset")) [
  | inl e ↦ rw e (read-write_self lc f d.null_id, λ g h. read-write_ne lc f g d.null_id h)
  | inr e ↦ rw e (refl, λ g h. refl)
]
read-channel_page d lc f _ = (refl, λ g h. refl)

-- What the choice leaves in the session.
abbrev after_choice : Discord → Session → Field → PageEvent → Session
after_choice d s f page =
    let channels = record s.local { channels = channel_page d s.local.channels f page } in
    record s { local = channels; stored = channels }

menu_step-press_of :
    (d : Discord) (s : Session) (f : Field) (page : PageEvent)
    → menu_step d s (press (press_of f page)) ≡ going (after_choice d s f page)
unfolding menu_step on_page
menu_step-press_of d s f page =
    let (prefix, open_) = starts_with-button_of f in rw (prefix, open_, (menu_complete f).1) refl

-- A choice on the page of an event's button, where the calls go well: from then on the database has the
-- event where the choice says, and every other event where the menu's own copy of the channels has it,
-- whatever the database had for it. The copy is the one that was read when the menu was opened, with the
-- choices made since.
pub menu_step-choice :
    (d : Discord) (s : Session) (f : Field) (page : PageEvent)
    → (t : Session) × (menu_step d s (press (press_of f page)) ≡ going t)
      × (for d t.stored.channels (event_name f)
          ≡ choice d page (for d s.local.channels (event_name f)))
      × ((g : Field)
          → f ≢ g
          → for d t.stored.channels (event_name g) ≡ for d s.local.channels (event_name g))
menu_step-choice d s f page =
    let (same, others) = read-channel_page d s.local.channels f page in
    (
      after_choice d s f page,
      menu_step-press_of d s f page,
      simp for-event_name same,
      λ g h. simp for-event_name (others g h),
    )
