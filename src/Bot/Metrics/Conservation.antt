-- ===== src/Bot/Metrics/Conservation.antt =====
-- The account of the counts of events (bot/metrics/metrics.go).
use catalogger.Base.GoMap
use catalogger.Base.{
  nat_eq, string_eq, if◌then◌else◌, Bool-cases, ◌==◌, ℕ, suc, ◌+◌, ◌%◌, String, ◌≡◌, refl, ◌∙◌, inl,
  inr, some, List, [], ◌∷◌, arith,
}
use catalogger.Bot.Metrics.{
  Counters, increment, value, bump, reset, call, calls, Points, Client, Call,
}

-- what the submissions say of an event's name, together
abbrev pub submitted_of : String → List Points → ℕ
submitted_of name [] = 0
submitted_of name (p ∷ ps) = value p.event_counts name + submitted_of name ps

-- submitted, or still to be submitted
abbrev pub accounted : String → Client → ℕ
accounted name c = submitted_of name c.written + value c.m name

abbrev pub events_of : String → List Call → ℕ
events_of name [] = 0
events_of name (Call.register_event n ∷ vs) =
    if n == name then suc (events_of name vs) else events_of name vs
events_of name (_ ∷ vs) = events_of name vs

value-bump :
    (m : Counters) (n name : String)
    → value (bump m n) name ≡ (if n == name then increment (value m name) else value m name)
unfolding bump
value-bump m n name = elim (Bool-cases (n == name)) [
  | inl e ↦
      rw (GoMap.get-put m n (increment (value m n)) name, e, (string_eq.test_iff n name).0 e) refl
  | inr e ↦ rw (GoMap.get-put m n (increment (value m n)) name, e) refl
]

value-reset : (m : Counters) (name : String) → value (reset m) name ≡ 0
unfolding reset GoMap.get
value-reset [] name = refl
value-reset ((k, v) ∷ m) name = elim (Bool-cases (k == name)) [
  | inl e ↦ rw (e) refl
  | inr e ↦ rw (e) (value-reset m name)
]

-- one call moves the account by the events that it registers
call-accounted :
    (u : Call) (vs : List Call) (name : String) (c : Client)
    → (accounted name (call u c) + events_of name vs) % 4294967296
      ≡ (accounted name c + events_of name (u ∷ vs)) % 4294967296
unfolding call
call-accounted (Call.register_event n) vs name c = elim (Bool-cases (n == name)) [
  | inl e ↦ rw (value-bump c.m n name, e) (omega arith)
  | inr e ↦ rw (value-bump c.m n name, e) refl
]
call-accounted (Call.inc_requests p) vs name c = refl
call-accounted Call.inc_query vs name c = refl
call-accounted Call.inc_command vs name c = refl
call-accounted Call.submit_inner vs name c = rw (value-reset c.m name) (omega arith)

-- After any calls on a client, what was submitted of an event's name and what is still to be submitted
-- make the count of before and one for each event that was registered under the name, modulo 2 ^ 32.
pub calls-accounted :
    (vs : List Call) (name : String) (c : Client)
    → (d : Client) × (calls vs (some c) ≡ some d)
      × (accounted name d % 4294967296 ≡ (accounted name c + events_of name vs) % 4294967296)
unfolding calls
calls-accounted [] name c = (c, refl, omega arith)
calls-accounted (v ∷ vs) name c =
    let (d, e, same) = calls-accounted vs name (call v c) in
    (d, e, same ∙ call-accounted v vs name c)
