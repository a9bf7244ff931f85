-- ===== src/Client.antt =====
-- src/XmppClient.cpp: the handlers that an `XmppListener` calls on its delegate, where the application
-- has connected no slot to the signals: that one was raised is then an effect and nothing else.
pub mod Delegate
pub mod Api
pub mod Frame
pub mod Rosters
pub mod Orders
pub mod Presences
pub mod Messages
pub mod Lifetime
unfoldable pub use Delegate.{exception_of, add_items}
use cinder_xmpp.Prelude.{Str, Option}
use cinder_xmpp.Gloox.{
  ConnectionError, CertInfo, Message, MessageSession, RosterItem, Roster, PresenceType,
}
use cinder_xmpp.World.{Action, no_slots}

abbrev pub on_connect : Action (Unit {0})
on_connect = Delegate.on_connect no_slots

abbrev pub on_disconnect : ConnectionError → Action (Unit {0})
on_disconnect = Delegate.on_disconnect no_slots

abbrev pub on_tls_connect : CertInfo → Action (Unit {0})
on_tls_connect = Delegate.on_tls_connect no_slots

abbrev pub handle_message : Message → Option MessageSession → Action (Unit {0})
handle_message = Delegate.handle_message no_slots

abbrev pub handle_roster : Roster → Action (Unit {0})
handle_roster = Delegate.handle_roster no_slots

abbrev pub handle_roster_presence : RosterItem → Str → PresenceType → Str → Action (Unit {0})
handle_roster_presence = Delegate.handle_roster_presence no_slots
