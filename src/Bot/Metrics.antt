-- ===== src/Bot/Metrics.antt =====
-- bot/metrics/metrics.go: the counters, of 32 bits each, and their submission. Each counter has its own
-- mutex, so a submission takes them one after the other, each at once. The statistics of the machine
-- and `Counts` are left out; the name of an endpoint is an argument.
use catalogger.Base.GoMap
use catalogger.Base.{nat_eq, string_eq, ℕ, ◌+◌, ◌%◌, String, Option, none, some, List, [], ◌∷◌}
pub mod Conservation
pub mod Paths

abbrev pub Counters : Type 0
Counters = GoMap.GoMap String ℕ

-- `x++` on a uint32
abbrev pub increment : ℕ → ℕ
increment x = (x + 1) % 4294967296

-- What one submission writes to InfluxDB.
pub record Points : Type 0 where
  pub queries : ℕ
  pub commands : ℕ
  pub events : ℕ
  pub event_counts : Counters
  pub request_counts : Counters

pub record Client : Type 0 where
  pub queries : ℕ
  pub cmds : ℕ
  pub m : Counters
  pub reqs : Counters
  -- the last submission first
  pub written : List Points

abbrev pub new_client : Client
new_client = record { queries = 0; cmds = 0; m = []; reqs = []; written = [] }

-- a missing key reads as 0
abbrev pub or_zero : Option ℕ → ℕ
or_zero none = 0
or_zero (some n) = n

abbrev pub value : Counters → String → ℕ
value m k = or_zero (GoMap.get m k)

-- `c.m[name]++`
unfoldable pub bump : Counters → String → Counters
bump m name = GoMap.put m name (increment (value m name))

-- `c.m[k] = 0` for every key
unfoldable pub reset : Counters → Counters
reset [] = []
reset ((k, v) ∷ m) = (k, 0) ∷ reset m

-- `totalEvents += v`, for every key
abbrev pub total_events : Counters → ℕ
total_events [] = 0
total_events ((k, v) ∷ m) = (v + total_events m) % 4294967296

pub data Call : Type 0 where
  register_event inc_requests : String → Call
  inc_query inc_command submit_inner : Call

unfoldable pub call : Call → Client → Client
call (Call.register_event name) c = record c { m = bump c.m name }
call (Call.inc_requests endpoint) c = record c { reqs = bump c.reqs endpoint }
call Call.inc_query c = record c { queries = increment c.queries }
call Call.inc_command c = record c { cmds = increment c.cmds }
call Call.submit_inner c = record {
  queries = 0;
  cmds = 0;
  m = reset c.m;
  reqs = reset c.reqs;
  written =
      record {
        queries = c.queries;
        commands = c.cmds;
        events = total_events c.m;
        event_counts = c.m;
        request_counts = c.reqs;
      }
      ∷ c.written;
}

-- a method on a client that is nil does nothing
abbrev pub call_maybe : Call → Option Client → Option Client
call_maybe v none = none
call_maybe v (some c) = some (call v c)

unfoldable pub calls : List Call → Option Client → Option Client
calls [] c = c
calls (v ∷ vs) c = calls vs (call_maybe v c)
