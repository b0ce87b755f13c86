-- ===== src/Config/Tests.antt =====
-- Tests of the menu.
use catalogger.Base.{string_eq, ◌≡◌, refl, ◌≢◌, false, List, [], ◌∷◌}
use catalogger.Discord.Sample.{sample}
use catalogger.Db.Channels.{event_name, for, zero_channels, Field, Channels}
use catalogger.Config.{selected, pressed}
use catalogger.Config.Session.{menu_step, menu_run, Session, MenuEvent, press, other, going}
use catalogger.Config.Session.Laws.{IsKept, Open, menu_run-IsKept}
use catalogger.Config.Session.Choice.{press_of, choice, menu_step-choice}

abbrev fresh : Channels
fresh = record {
  channels = zero_channels;
  redirects = ("channel", 5) ∷ [];
  ignores = record { global_channels = []; global_users = 9 ∷ []; per_channel = [] };
}

abbrev opened : Session
opened = record { local = fresh; stored = fresh; cleared = false }

abbrev presses : List MenuEvent
presses =
    press (press_of Field.message_delete (selected (77 ∷ [])))
    ∷ other
    ∷ press (press_of Field.message_delete (pressed "channel:reset"))
    ∷ []

menu_run-IsKept_example :
    Open (IsKept fresh.redirects fresh.ignores) (menu_run sample opened presses)
menu_run-IsKept_example =
    menu_run-IsKept sample opened presses fresh.redirects fresh.ignores
      (record { in_sync = refl; redirects = refl; ignores = refl })

menu_step-choice_example :
    (t : Session) × (menu_step sample opened
        (press (press_of Field.message_delete (selected (77 ∷ []))))
      ≡ going t)
    × (for sample t.stored.channels (event_name Field.message_delete)
        ≡ choice sample
            (selected (77 ∷ []))
            (for sample zero_channels (event_name Field.message_delete)))
    × ((g : Field)
        → Field.message_delete ≢ g
        → for sample t.stored.channels (event_name g) ≡ for sample zero_channels (event_name g))
menu_step-choice_example = menu_step-choice sample opened Field.message_delete (selected (77 ∷ []))
