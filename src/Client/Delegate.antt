-- ===== src/Client/Delegate.antt =====
-- src/XmppClient.cpp: the handlers that an `XmppListener` calls on its delegate, with the slots of the
-- application: a signal runs its slots where it is raised, on the caller's thread.
use cinder_xmpp.Prelude.{Str, Option, none, some, List, [], ◌∷◌, ◌++◌, if◌then◌else◌, is_some}
use mathlib.Core.Option.{get_or}
use cinder_xmpp.UnorderedMap.{UnorderedMap, find, insert, modify}
use cinder_xmpp.Gloox.{
  ConnectionError, CertInfo, Jid, Message, MessageSession, RosterItem, Roster, PresenceType,
}
use cinder_xmpp.Gloox
use cinder_xmpp.Peer.{XmppPeer, peer_named, default_peer, set_status, presence_to_status}
use cinder_xmpp.World.{
  Action, ◌>>=◌, ◌>>◌, pure, throw, dereference, get_roster, put_roster, Slots, raise_signal,
  Exception, xmpp_exc, xmpp_auth_exc, xmpp_protocol_exc, xmpp_stream_exc, xmpp_connection_exc,
  Signal,
}

-- The `switch` of `onDisconnect`: `none` is `break`, else what is thrown. The last clause is
-- `default`, with the two labels above it.
unfoldable pub exception_of : ConnectionError → Option Exception
exception_of Gloox.conn_no_error = none
exception_of Gloox.conn_stream_error = some xmpp_stream_exc
exception_of Gloox.conn_stream_closed = some xmpp_stream_exc
exception_of Gloox.conn_io_error = some xmpp_stream_exc
exception_of Gloox.conn_proxy_auth_required = some xmpp_auth_exc
exception_of Gloox.conn_proxy_auth_failed = some xmpp_auth_exc
exception_of Gloox.conn_proxy_no_supported_auth = some xmpp_auth_exc
exception_of Gloox.conn_tls_failed = some xmpp_auth_exc
exception_of Gloox.conn_tls_not_available = some xmpp_auth_exc
exception_of Gloox.conn_no_supported_auth = some xmpp_auth_exc
exception_of Gloox.conn_authentication_failed = some xmpp_auth_exc
exception_of Gloox.conn_parse_error = some xmpp_protocol_exc
exception_of Gloox.conn_stream_version_error = some xmpp_protocol_exc
exception_of Gloox.conn_user_disconnected = some xmpp_connection_exc
exception_of Gloox.conn_not_connected = some xmpp_connection_exc
exception_of Gloox.conn_dns_error = some xmpp_connection_exc
exception_of Gloox.conn_connection_refused = some xmpp_connection_exc
exception_of _ = some xmpp_exc

-- The loop of `handleRoster`, on `mRoster` and `userlist`.
unfoldable pub add_items :
    Roster → UnorderedMap XmppPeer → List Str → UnorderedMap XmppPeer × List Str
add_items [] peers userlist = (peers, userlist)
add_items ((_, item) ∷ items) peers userlist =
    let name = item.jid_jid.username in
    add_items items (insert name (peer_named name) peers) (userlist ++ name ∷ [])

module _ (slots : Slots) where
  unfoldable pub on_connect : Action (Unit {0})
  on_connect = raise_signal slots Signal.connected

  -- The exception leaves before the signal.
  unfoldable pub on_disconnect : ConnectionError → Action (Unit {0})
  on_disconnect e = elim (exception_of e) [
    | none ↦ raise_signal slots Signal.disconnected
    | some x ↦ throw x
  ]

  unfoldable pub on_tls_connect : CertInfo → Action (Unit {0})
  on_tls_connect info = raise_signal slots Signal.tls_connected

  -- `sess` is `none` for a null pointer, through which `sess->target()` reads.
  unfoldable pub handle_message : Message → Option MessageSession → Action (Unit {0})
  handle_message msg sess = do
    s ← dereference sess
    peers ← get_roster
    raise_signal slots
        (Signal.message (get_or (find s.target.username peers) default_peer) msg.subject msg.body)

  unfoldable pub handle_roster : Roster → Action (Unit {0})
  unfolding add_items
  handle_roster items = do
    put_roster []
    peers ← get_roster
    let filled = add_items items peers []
    put_roster filled.0
    raise_signal slots (Signal.roster filled.1)

  -- Also where the name was not found, the last line reads through the iterator.
  unfoldable pub handle_roster_presence : RosterItem → Str → PresenceType → Str → Action (Unit {0})
  handle_roster_presence item resource presence msg = do
    let name = item.jid_jid.username
    let status = presence_to_status presence
    peers ← get_roster
    if is_some (find name peers)
        then put_roster (modify name (set_status status) peers)
        else pure tt
    peers' ← get_roster
    peer ← dereference (find name peers')
    raise_signal slots (Signal.roster_presence peer resource status msg)
