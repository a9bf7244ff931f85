-- ===== src/Peer/Presence.antt =====
-- How `XmppPeer` reads a presence: the cast between the two enumerations, the online flag, and the
-- names of the states.
use cinder_xmpp.Prelude.{
  ◌≡◌, refl, Str, codes, str_eq, Bool, true, false, Option, none, some, arith, if◌then◌else◌, ap,
}
use mathlib.Core.Option.{some-injective}
use cinder_xmpp.Gloox.{PresenceType}
use cinder_xmpp.Peer.{
  Status, available, chat, away, dnd, xa, unavailable, invalid, status_int, XmppPeer, set_status,
  presence_to_status, status_string,
}

-- The state of the same name, where there is one; a probe, an error and an invalid stanza have none.
abbrev pub named_alike : PresenceType → Status
named_alike PresenceType.available = available
named_alike PresenceType.chat = chat
named_alike PresenceType.away = away
named_alike PresenceType.dnd = dnd
named_alike PresenceType.xa = xa
named_alike PresenceType.unavailable = unavailable
named_alike PresenceType.probe = invalid
named_alike PresenceType.error = invalid
named_alike PresenceType.invalid = invalid

-- The cast through `int` gives every presence the state of its own name, and `invalid` to a probe,
-- an error and an invalid stanza.
pub presence_to_status-named_alike : (p : PresenceType) → presence_to_status p ≡ named_alike p
unfolding presence_to_status
presence_to_status-named_alike PresenceType.available = refl
presence_to_status-named_alike PresenceType.chat = refl
presence_to_status-named_alike PresenceType.away = refl
presence_to_status-named_alike PresenceType.dnd = refl
presence_to_status-named_alike PresenceType.xa = refl
presence_to_status-named_alike PresenceType.unavailable = refl
presence_to_status-named_alike PresenceType.probe = refl
presence_to_status-named_alike PresenceType.error = refl
presence_to_status-named_alike PresenceType.invalid = refl

-- The presences that a reachable entity sends.
abbrev pub is_reachable : PresenceType → Bool
is_reachable PresenceType.available = true
is_reachable PresenceType.chat = true
is_reachable PresenceType.away = true
is_reachable PresenceType.dnd = true
is_reachable PresenceType.xa = true
is_reachable _ = false

-- A peer is flagged as connected by exactly the five presences of a reachable entity, whatever it
-- was before, and keeps its name.
pub set_status-presence :
    (p : PresenceType) (peer : XmppPeer)
    → let peer' = set_status (presence_to_status p) peer in
      (peer'.connected ≡ is_reachable p)
      × (peer'.status ≡ named_alike p)
      × (peer'.username ≡ peer.username)
unfolding set_status status_int
set_status-presence p peer = rw (presence_to_status-named_alike p) (ground arith)

-- The state that a name stands for.
status_named : Str → Option Status
status_named s =
    if str_eq s (codes "available")
    then some available
    else if str_eq s (codes "chat")
    then some chat
    else if str_eq s (codes "away")
    then some away
    else if str_eq s (codes "do not disturb")
    then some dnd
    else if str_eq s (codes "extended away")
    then some xa
    else if str_eq s (codes "unavailable")
    then some unavailable
    else if str_eq s (codes "invalid")
    then some invalid
    else none

status_named-status_string : (s : Status) → status_named (status_string s) ≡ some s
unfolding status_named status_string str_eq
status_named-status_string available = refl
status_named-status_string chat = refl
status_named-status_string away = refl
status_named-status_string dnd = refl
status_named-status_string xa = refl
status_named-status_string unavailable = refl
status_named-status_string invalid = refl

-- No two states have the same name.
pub status_string_injective : (s t : Status) → status_string s ≡ status_string t → s ≡ t
status_string_injective s t h =
    some-injective s t
      (cc (status_named-status_string s, status_named-status_string t, ap status_named h))
