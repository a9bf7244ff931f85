-- ===== src/Peer.antt =====
-- src/XmppClient.h, `class XmppPeer`, and the comparisons of src/XmppClient.cpp.
pub mod Presence
pub mod Equality
use native.Mathlib.Decide.{dec_le}
use mathlib.Core.Logic.{dite}
use cinder_xmpp.Prelude.{
  ℕ, zero, suc, ◌≤◌, Str, codes, Bool, true, false, not, arith, ltb, str_eq, if◌then◌else◌,
}
use cinder_xmpp.Gloox.{PresenceType, presence_int}

-- `status_t`, in the order that fixes the integers 0 to 6.
pub data Status : Type 0 where
  available : Status
  chat : Status
  away : Status
  dnd : Status
  xa : Status
  unavailable : Status
  invalid : Status

-- The integer of an enumerator, for `mStatus < 5`.
unfoldable pub status_int : Status → ℕ
status_int available = 0
status_int chat = 1
status_int away = 2
status_int dnd = 3
status_int xa = 4
status_int unavailable = 5
status_int invalid = 6

-- `status_t(n)`, of an integer that an enumerator has.
status_of_int : (n : ℕ) → n ≤ 6 → Status
status_of_int zero h = available
status_of_int (suc zero) h = chat
status_of_int (suc (suc zero)) h = away
status_of_int (suc (suc (suc zero))) h = dnd
status_of_int (suc (suc (suc (suc zero)))) h = xa
status_of_int (suc (suc (suc (suc (suc zero))))) h = unavailable
status_of_int (suc (suc (suc (suc (suc (suc zero)))))) h = invalid
status_of_int (suc (suc (suc (suc (suc (suc (suc n))))))) h = absurd (omega arith)

pub record XmppPeer : Type 0 where
  pub connected : Bool
  pub username : Str
  pub status : Status

-- The constructor, and what its default arguments make of fewer.
abbrev pub new_peer : Str → Bool → Status → XmppPeer
new_peer user conn status = record { connected = conn; username = user; status = status }

unfoldable pub peer_named : Str → XmppPeer
peer_named user = new_peer user false invalid

unfoldable pub default_peer : XmppPeer
unfolding peer_named
default_peer = peer_named (codes "unknown")

pub set_connected : Bool → XmppPeer → XmppPeer
set_connected value p = record p { connected = value }

pub set_username : Str → XmppPeer → XmppPeer
set_username value p = record p { username = value }

unfoldable pub set_status : Status → XmppPeer → XmppPeer
set_status value p = record p { status = value; connected = ltb (status_int value) 5 }

unfoldable pub presence_to_status : PresenceType → Status
unfolding status_of_int presence_int dec_le
presence_to_status value =
    dite (dec_le (presence_int value) 6) (λ h. status_of_int (presence_int value) h) (λ _. invalid)

unfoldable pub status_string : Status → Str
status_string available = codes "available"
status_string chat = codes "chat"
status_string away = codes "away"
status_string dnd = codes "do not disturb"
status_string xa = codes "extended away"
status_string unavailable = codes "unavailable"
status_string invalid = codes "invalid"

-- `operator==` and `operator!=`
pub peer_eq : XmppPeer → XmppPeer → Bool
peer_eq lhs rhs = str_eq lhs.username rhs.username

pub peer_ne : XmppPeer → XmppPeer → Bool
peer_ne lhs rhs = not (str_eq lhs.username rhs.username)
