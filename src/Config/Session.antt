-- ===== src/Config/Session.antt =====
-- commands/config/channels.go, `channelsEntry`: the loop of the menu. The local copy of the guild's
-- channels was read before; every press of a button writes the whole copy back.
pub mod Laws
pub mod Panics
pub mod Choice
use text.Mathlib.Text.{starts_with}
use catalogger.Base.{
  string_eq, if◌then◌else◌, ◌==◌, String, Bool, true, false, Option, none, some, List, [], ◌∷◌,
}
use catalogger.Discord.{Discord}
use catalogger.Db.Channels.{Channels, LogChannels, Field, write}
use catalogger.Config.{PageEvent, page_of_button, channel_page}

pub record Session : Type 0 where
  -- the local copy, and what the database holds
  pub local : Channels
  pub stored : Channels
  -- whether the buttons were taken off the message
  pub cleared : Bool

-- How the calls around a press turn out: the page, and whether the components are cleared, the
-- channels saved and the menu redrawn without an error.
pub record Press : Type 0 where
  pub id : String
  pub context : Bool
  pub page : PageEvent
  pub cleared : Bool
  pub saved : Bool
  pub redrawn : Bool

pub data MenuEvent : Type 0 where
  -- the ten minutes are over
  deadline : Bool → MenuEvent
  -- an interaction with the message that is a button
  press : Press → MenuEvent
  -- any other interaction: `WaitFor` gives nothing, and the loop goes on
  other : MenuEvent

-- How the command ends: well, or with an error that is reported.
pub data End : Type 0 where
  done reported : End

-- The loop goes on, the command returns, or it calls a method of a nil interface.
pub data Outcome : Type 0 where
  going : Session → Outcome
  returned : Session → End → Outcome
  panicked : Session → Outcome

-- `clearComponents`, and the return after it
clear : Session → Bool → Outcome
clear s true = returned (record s { cleared = true }) done
clear s false = returned s reported

save : Session → Bool → Session
save s true = record s { stored = s.local }
save s false = s

redraw : Session → Bool → Outcome
redraw s true = going s
redraw s false = returned s done

-- The page wrote to the local copy; it is saved, and the menu is drawn again.
after_page : Session → Press → Outcome
unfolding save redraw
after_page s p = if p.saved then redraw (save s true) p.redrawn else returned s reported

-- Without a case of the `switch` the page's context is nil, and the next use of it panics.
on_page : Discord → Session → Press → Option (String × Field) → Outcome
unfolding after_page channel_page
on_page d s p none = panicked (save s p.saved)
on_page d s p (some (subject, f)) =
    after_page
      (record s { local = record s.local { channels = channel_page d s.local.channels f p.page } })
      p

unfoldable pub menu_step : Discord → Session → MenuEvent → Outcome
unfolding clear on_page
menu_step d s (deadline in_time) = clear s in_time
menu_step d s other = going s
menu_step d s (press p) =
    if starts_with p.id "channel:"
    then (if p.id == "channel:close"
        then clear s p.cleared
        else if p.context
        then on_page d s p (page_of_button p.id)
        else going s)
    else going s

abbrev pub continue : (Session → Outcome) → Outcome → Outcome
continue rest (going t) = rest t
continue rest o = o

-- the loop
unfoldable pub menu_run : Discord → Session → List MenuEvent → Outcome
menu_run d s [] = going s
menu_run d s (e ∷ es) = continue (λ t. menu_run d t es) (menu_step d s e)
