-- ===== src/Config/Session/Panics.antt =====
-- When the menu's loop panics, and what a press of a button of the menu does.
use catalogger.Config.Session.{
  on_page, clear, menu_step, continue, menu_run, Session, Press, MenuEvent, Outcome, deadline,
  press, other, going, returned, panicked,
}
use text.Mathlib.Text.{starts_with}
use catalogger.Base.{
  string_eq, All, ◌==◌, String, ◌≡◌, refl, ◌⊎◌, inl, inr, Bool, true, false, none, some, List, [],
  ◌∷◌, arith,
}
use catalogger.Discord.{Discord}
use catalogger.Db.Channels.{Field}
use catalogger.Config.{page_of_button}

-- A press that has a case in the loop: the button that closes, or one that opens a page.
abbrev pub IsKnown : MenuEvent → Type 0
IsKnown (press p) =
    ((p.id == "channel:close") ≡ true) ⊎ ((x : String × Field) × (page_of_button p.id ≡ some x))
IsKnown _ = Unit

abbrev pub panics : Outcome → Bool
panics (panicked s) = true
panics _ = false

on_page_known :
    (d : Discord) (s : Session) (p : Press) (x : String × Field)
    → panics (on_page d s p (some x)) ≡ false
unfolding on_page
on_page_known d s p (subject, f) = ground arith

panics-clear : (s : Session) (b : Bool) → panics (clear s b) ≡ false
unfolding clear
panics-clear s true = refl
panics-clear s false = refl

step_known :
    (d : Discord) (s : Session) (e : MenuEvent) → IsKnown e → panics (menu_step d s e) ≡ false
unfolding menu_step
step_known d s (deadline b) k = panics-clear s b
step_known d s other k = refl
step_known d s (press p) (inl close) = rw close (ground (arith, panics-clear s p.cleared))
step_known d s (press p) (inr (x, page)) =
    rw page (ground (arith, panics-clear s p.cleared, on_page_known d s p x))

-- With the buttons of the menu alone the loop does not panic.
pub menu_run_known :
    (d : Discord) (s : Session) (es : List MenuEvent)
    → All IsKnown es
    → panics (menu_run d s es) ≡ false
unfolding menu_run
menu_run_known d s [] k = refl
menu_run_known d s (e ∷ es) k =
    go (menu_step d s e) (step_known d s e k.0) (λ t. menu_run_known d t es k.1)
  where
    go :
        (o : Outcome)
        → panics o ≡ false
        → ((t : Session) → panics (menu_run d t es) ≡ false)
        → panics (continue (λ t. menu_run d t es) o) ≡ false
    go (going t) h k' = k' t
    go (returned t x) h k' = refl
    go (panicked t) h k' = h

-- Any other button whose identifier has the menu's prefix makes the loop panic, whether or not the
-- channels could be saved: the context of the page stays nil.
pub menu_step_unknown :
    (d : Discord) (s : Session) (p : Press)
    → starts_with p.id "channel:" ≡ true
    → (p.id == "channel:close") ≡ false
    → page_of_button p.id ≡ none
    → p.context ≡ true
    → panics (menu_step d s (press p)) ≡ true
unfolding menu_step on_page
menu_step_unknown d s p prefix open_ page context = rw (prefix, open_, context, page) refl
