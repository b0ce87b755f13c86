-- ===== src/Db/Channels/Laws.antt =====
-- `For` and the fields of `LogChannels` (db/channels.go).
use catalogger.Base.{string_eq, ℕ, ◌≡◌, refl, ◌≢◌, some, arith}
use catalogger.Db.Channels.{read, write, event_name, field_of_event, LogChannels, Field}

pub Field-discrete : Discrete Field
Field-discrete = hlevel

pub field_of_event-event_name : (f : Field) → field_of_event (event_name f) ≡ some f
unfolding field_of_event
field_of_event-event_name Field.guild_update = refl
field_of_event-event_name _ = refl

pub read-write_self : (lc : LogChannels) (f : Field) (i : ℕ) → read (write lc f i) f ≡ i
read-write_self lc Field.guild_update i = refl
read-write_self lc _ i = refl

pub read-write_ne :
    (lc : LogChannels) (f g : Field) (i : ℕ) → f ≢ g → read (write lc f i) g ≡ read lc g
read-write_ne lc f g i h = ground arith
