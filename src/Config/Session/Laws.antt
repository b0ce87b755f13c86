-- ===== src/Config/Session/Laws.antt =====
-- What the menu's loop does to the channels of the guild.
use catalogger.Config.Session.{
  continue, panicked, returned, menu_run, on_page, clear, menu_step, Session, Press, MenuEvent,
  Outcome, deadline, press, other, going,
}
use catalogger.Config.{GoMap, page_of_button}
use catalogger.Base.{
  string_eq, ℕ, String, ◌≡◌, Bool, true, false, Option, none, some, List, [], ◌∷◌, arith,
}
use catalogger.Discord.{Discord}
use catalogger.Db.Channels.{Field, Ignores}

-- While the menu is open, the database holds the local copy; at no time do the redirects or the
-- ignores differ from what they were.
pub record IsKept (r : GoMap String ℕ) (i : Ignores) (s : Session) : Type 0 where
  pub in_sync : s.stored ≡ s.local
  pub redirects : s.local.redirects ≡ r
  pub ignores : s.local.ignores ≡ i

abbrev pub Open : (Session → Type 0) → Outcome → Type 0
Open P (going s) = P s
Open P _ = Unit

on_page-IsKept :
    (d : Discord) (s : Session) (p : Press) (o : Option (String × Field)) (r : GoMap String ℕ)
    (i : Ignores)
    → IsKept r i s
    → Open (IsKept r i) (on_page d s p o)
unfolding on_page
on_page-IsKept d s p none r i k = tt
on_page-IsKept d s p (some (subject, f)) r i k = ground arith

clear-IsKept :
    (s : Session) (b : Bool) (r : GoMap String ℕ) (i : Ignores) → Open (IsKept r i) (clear s b)
unfolding clear
clear-IsKept s true r i = tt
clear-IsKept s false r i = tt

menu_step-IsKept :
    (d : Discord) (s : Session) (e : MenuEvent) (r : GoMap String ℕ) (i : Ignores)
    → IsKept r i s
    → Open (IsKept r i) (menu_step d s e)
unfolding menu_step
menu_step-IsKept d s (deadline b) r i k = clear-IsKept s b r i
menu_step-IsKept d s other r i k = k
menu_step-IsKept d s (press p) r i k =
    ground (arith, clear-IsKept s p.cleared r i, on_page-IsKept d s p (page_of_button p.id) r i k)

Open-continue :
    (P : Session → Type 0) (rest : Session → Outcome) (o : Outcome)
    → Open P o
    → ((t : Session) → P t → Open P (rest t))
    → Open P (continue rest o)
Open-continue P rest (going t) h k = k t h
Open-continue P rest (returned t x) h k = tt
Open-continue P rest (panicked t) h k = tt

-- From a session whose local copy was just read, whatever is pressed: while the menu is open the
-- database holds the local copy, with the redirects and the ignores that it had at first.
pub menu_run-IsKept :
    (d : Discord) (s : Session) (es : List MenuEvent) (r : GoMap String ℕ) (i : Ignores)
    → IsKept r i s
    → Open (IsKept r i) (menu_run d s es)
unfolding menu_run
menu_run-IsKept d s [] r i k = k
menu_run-IsKept d s (e ∷ es) r i k =
    Open-continue (IsKept r i) (λ t. menu_run d t es) (menu_step d s e)
      (menu_step-IsKept d s e r i k) (λ t h. menu_run-IsKept d t es r i h)
