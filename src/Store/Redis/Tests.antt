-- ===== src/Store/Redis/Tests.antt =====
-- Members and invites on a concrete server.
use catalogger.Store.Redis.{set_members, set_member, delete_member, member, invites, set_invites}
use catalogger.Base.{ok, err, ℕ, ◌≡◌, refl, List, [], ◌∷◌}
use catalogger.Discord.{Member}
use catalogger.Discord.Sample.{sample}
use catalogger.Store.Sample.{sample_redis, sample_json, member_json, Kept}
use catalogger.Store.Interface.{err_not_found}
use catalogger.Store.Redis.Members.{member_calls, member-member_calls, MemberCall}
use catalogger.Store.Redis.Lookups.{invites-set_invites}

abbrev named : ℕ → Member
named id = record {
  user = record { id = id; username = 97 ∷ []; tag = []; avatar = [] };
  nick = [];
  role_ids = [];
}

abbrev empty : Kept
empty = record { strings = []; hashes = []; sets = [] }

abbrev history : List MemberCall
history =
    MemberCall.sets_all 41 (named 1 ∷ named 2 ∷ [])
    ∷ MemberCall.sets 42 (named 3)
    ∷ MemberCall.deletes 41 1
    ∷ []

member-member_calls_example :
    member sample sample_redis member_json
      (member_calls sample sample_redis member_json empty history)
      41
      1
    ≡ err err_not_found
unfolding set_members set_member delete_member
member-member_calls_example =
    member-member_calls sample sample_redis member_json empty history 41 1 refl refl

invites-set_invites_example :
    invites sample sample_redis sample_json
      (set_invites sample sample_redis sample_json empty 41 (7 ∷ [])).1
      41
    ≡ ok (7 ∷ [])
unfolding set_invites
invites-set_invites_example =
    invites-set_invites sample sample_redis sample_json empty 41 41 (7 ∷ []) refl refl
