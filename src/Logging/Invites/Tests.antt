-- ===== src/Logging/Invites/Tests.antt =====
-- A concrete history of invites.
use catalogger.Base.{ok-inj, Result, external, ok, err, ℕ, ◌≡◌, sym, ap, true, List, [], ◌∷◌, arith}
use catalogger.Discord.{Invite}
use catalogger.Discord.Sample.{sample}
use catalogger.Store.Sample.{Kept}
use catalogger.Db.Crypt.{Text}
use catalogger.Logging.Invites.{InviteWorld, InviteLogs, InviteEvent}

-- a list of no invite, or of one whose texts are short, as numbers
abbrev one_text : Text → Text → Text → Text → List Invite → ℕ → ℕ → ℕ → ℕ → Result Text
one_text (n ∷ []) [] [] [] [] channel user uses max = ok (n ∷ channel ∷ user ∷ uses ∷ max ∷ [])
one_text _ _ _ _ _ channel user uses max = err (external 6)

abbrev marshal_one : List Invite → Result Text
marshal_one [] = ok []
marshal_one (i ∷ is) =
    one_text i.code i.inviter.username i.inviter.tag i.inviter.avatar is i.channel_id i.inviter.id
      i.uses i.max_uses

abbrev invite_of : ℕ → ℕ → ℕ → ℕ → ℕ → Invite
invite_of n channel user uses max = record {
  code = n ∷ [];
  channel_id = channel;
  inviter = record { id = user; username = []; tag = []; avatar = [] };
  uses = uses;
  max_uses = max;
}

abbrev unmarshal_one : Text → Result (List Invite)
unmarshal_one [] = ok []
unmarshal_one (n ∷ channel ∷ user ∷ uses ∷ max ∷ []) = ok (invite_of n channel user uses max ∷ [])
unmarshal_one _ = err (external 6)

one_text-reads :
    (code name tag avatar : Text) (is : List Invite) (channel user uses max : ℕ) (b : Text)
    → one_text code name tag avatar is channel user uses max ≡ ok b
    → unmarshal_one b
      ≡ ok (
          record {
            code = code;
            channel_id = channel;
            inviter = record { id = user; username = name; tag = tag; avatar = avatar };
            uses = uses;
            max_uses = max;
          }
          ∷ is)
one_text-reads (n ∷ []) [] [] [] [] channel user uses max b h =
    ap unmarshal_one (sym (ok-inj (n ∷ channel ∷ user ∷ uses ∷ max ∷ []) b h))
one_text-reads [] name tag avatar is channel user uses max b h = absurd (ground arith)
one_text-reads (n ∷ x ∷ xs) name tag avatar is channel user uses max b h = absurd (ground arith)
one_text-reads (n ∷ []) (x ∷ xs) tag avatar is channel user uses max b h = absurd (ground arith)
one_text-reads (n ∷ []) [] (x ∷ xs) avatar is channel user uses max b h = absurd (ground arith)
one_text-reads (n ∷ []) [] [] (x ∷ xs) is channel user uses max b h = absurd (ground arith)
one_text-reads (n ∷ []) [] [] [] (x ∷ xs) channel user uses max b h = absurd (ground arith)

marshal_one-reads : (is : List Invite) (b : Text) → marshal_one is ≡ ok b → unmarshal_one b ≡ ok is
marshal_one-reads [] b h = ap unmarshal_one (sym (ok-inj [] b h))
marshal_one-reads (i ∷ is) b h = one_text-reads _ _ _ _ is _ _ _ _ b h

abbrev world : InviteWorld
world = record {
  discord = sample;
  should_log = true;
  now = 9;
  show = λ i. i ∷ [];
  mention_user = λ u. u.id ∷ [];
  mention_channel_id = λ i. i ∷ [];
  unix_after = λ i. i;
  json = record {
    marshal = marshal_one;
    unmarshal = unmarshal_one;
    unmarshal-marshal = marshal_one-reads;
  };
}

abbrev quiet : InviteLogs Kept
quiet = record { store = record { strings = []; hashes = []; sets = [] }; sent = [] }

-- an invite is created and deleted, and then deleted again
abbrev history : List InviteEvent
history =
    InviteEvent.created 41 (invite_of 7 31 1 0 0) 0 (ok (invite_of 7 31 1 0 0 ∷ []))
    ∷ InviteEvent.deleted 41 31 (7 ∷ []) (ok [])
    ∷ InviteEvent.deleted 41 31 (7 ∷ []) (err (external 500))
    ∷ []
