-- ===== src/Gloox/Calls.antt =====
-- The calls that XmppListener.cpp makes into gloox, one constructor for each, with the object that
-- it is made on and its arguments. `this` is the listener, which is the only handler there is.
use cinder_xmpp.Prelude.{ℕ, Str, Bool}
use cinder_xmpp.Gloox.Address.{Jid}
use cinder_xmpp.Gloox.Stanza.{Message, Ptr, LogLevel, LogArea}

pub data Call : Type 0 where
  -- `new Client( jid, password )`, at the address that it gets
  new_client : Ptr → Jid → Str → Call
  register_presence_handler : Ptr → Call
  register_connection_listener : Ptr → Call
  -- with the ORed types; 0 is every type
  register_message_session_handler : Ptr → ℕ → Call
  register_roster_listener : Ptr → Call
  -- `setVersion( name, GLOOX_VERSION, os )`
  set_version : Ptr → Str → Str → Call
  set_identity : Ptr → Str → Str → Call
  -- `addFeature( XMLNS_CHAT_STATES )`
  add_feature_chat_states : Ptr → Call
  register_log_handler : Ptr → LogLevel → LogArea → Call
  connect : Ptr → Bool → Call
  recv : Ptr → Call
  send : Ptr → Message → Call
  disconnect : Ptr → Call
  delete_client : Ptr → Call
  -- on the client, of the session
  dispose_message_session : Ptr → Ptr → Call
  -- on the session
  register_message_handler : Ptr → Call
  -- at the address that it gets, for the session
  new_message_event_filter : Ptr → Ptr → Call
  register_message_event_handler : Ptr → Call
  new_chat_state_filter : Ptr → Ptr → Call
  register_chat_state_handler : Ptr → Call
