-- ===== src/Tests/Parts.antt =====
-- The theorems about single functions, at the session of `Tests`.
use cinder_xmpp.Prelude.{◌↔◌, ◌≡◌, refl, arith, codes, none, [], Str, some, ◌∷◌, if◌then◌else◌}
use cinder_xmpp.UnorderedMap.{find}
use cinder_xmpp.Gloox.{PresenceType, conn_user_disconnected, null}
use cinder_xmpp.Peer
use cinder_xmpp.Peer.{
  peer_eq, peer_ne, XmppPeer, set_status, presence_to_status, status_string, status_int,
}
use cinder_xmpp.Peer.Presence.{set_status-presence, named_alike, is_reachable}
use cinder_xmpp.World.{World, undefined, terminated, done, Signal, signal}
use cinder_xmpp.Client.{handle_roster, handle_roster_presence}
use cinder_xmpp.Client.Rosters.{names, contains, IsRoster, handle_roster_lem}
use cinder_xmpp.Client.Presences.{handle_roster_presence_missing}
use cinder_xmpp.Listener
use cinder_xmpp.Listener.Destruction.{destroy_attached}
use cinder_xmpp.System.{start}
use cinder_xmpp.Tests.{contacts, dialled, bob, initial}

handle_roster_presence_missing_example :
    let (r, w', es) = handle_roster_presence bob [] PresenceType.dnd [] initial in
    ((find (codes "bob") initial.client.roster ≡ none) ↔ (r ≡ undefined))
    × (r ≡ undefined → (w' ≡ initial) × (es ≡ []))
handle_roster_presence_missing_example =
    handle_roster_presence_missing bob [] PresenceType.dnd [] initial

-- The world of a listener of its own, with a client.
abbrev alone : World
alone = record dialled {
  client = record dialled.client { listener = record dialled.client.listener { delegate = null } };
}

destroy_attached_example :
    (Listener.destroy (Listener.on_disconnect conn_user_disconnected) dialled).0 ≡ terminated
unfolding start Listener.new_listener
destroy_attached_example =
    destroy_attached conn_user_disconnected dialled (omega arith) refl (omega arith) (ground arith)

set_status-presence_example :
    let peer' =
      set_status (presence_to_status PresenceType.probe) (Peer.peer_named (codes "bob")) in
    (peer'.connected ≡ is_reachable PresenceType.probe)
    × (peer'.status ≡ named_alike PresenceType.probe)
    × (peer'.username ≡ (Peer.peer_named (codes "bob")).username)
set_status-presence_example = set_status-presence PresenceType.probe (Peer.peer_named (codes "bob"))

handle_roster_lem_example :
    let (r, w', es) = handle_roster contacts initial in
    (r ≡ done tt)
    × (es ≡ signal (Signal.roster (names contacts)) ∷ [])
    × ((k : Str)
        → find k w'.client.roster
          ≡ (if contains k (names contacts) then some (Peer.peer_named k) else none))
    × IsRoster w'.client.roster
handle_roster_lem_example = handle_roster_lem contacts initial
