-- ===== src/Handlers.antt =====
-- The interfaces of gloox that `XmppListener` implements (include/gloox, a header for each): a record
-- of operations for each class, with the bodies that the headers give to functions that are not pure.
use cinder_xmpp.Prelude.{Str, Bool, Option}
use cinder_xmpp.Gloox.{
  ConnectionError, CertInfo, Jid, Message, MessageSession, MessageEventType, ChatStateType, Ptr,
  LogLevel, LogArea, Roster, RosterItem, PresenceType, Presence, Iq, Error, StreamEvent,
}
use cinder_xmpp.World.{Action, pure}

pub record ConnectionListener : Type 0 where
  pub on_connect : Action (Unit {0})
  pub on_disconnect : ConnectionError → Action (Unit {0})
  pub on_resource_bind : Str → Action (Unit {0})
  pub on_resource_bind_error : Option Error → Action (Unit {0})
  pub on_session_create_error : Option Error → Action (Unit {0})
  pub on_tls_connect : CertInfo → Action Bool
  pub on_stream_event : StreamEvent → Action (Unit {0})

-- What a class that overrides only the pure functions makes of the others: nothing.
abbrev pub default_connection_listener :
    Action (Unit {0})
    → (ConnectionError → Action (Unit {0}))
    → (CertInfo → Action Bool)
    → ConnectionListener
default_connection_listener connected disconnected tls_connected = record {
  on_connect = connected;
  on_disconnect = disconnected;
  on_resource_bind = λ resource. pure tt;
  on_resource_bind_error = λ error. pure tt;
  on_session_create_error = λ error. pure tt;
  on_tls_connect = tls_connected;
  on_stream_event = λ event. pure tt;
}

pub record MessageHandler : Type 0 where
  pub handle_message : Message → Option MessageSession → Action (Unit {0})

pub record MessageSessionHandler : Type 0 where
  pub handle_message_session : Ptr → Action (Unit {0})

pub record LogHandler : Type 0 where
  pub handle_log : LogLevel → LogArea → Str → Action (Unit {0})

pub record MessageEventHandler : Type 0 where
  pub handle_message_event : Jid → MessageEventType → Action (Unit {0})

pub record ChatStateHandler : Type 0 where
  pub handle_chat_state : Jid → ChatStateType → Action (Unit {0})

pub record PresenceHandler : Type 0 where
  pub handle_presence : Presence → Action (Unit {0})

pub record RosterListener : Type 0 where
  pub handle_item_added : Jid → Action (Unit {0})
  pub handle_item_subscribed : Jid → Action (Unit {0})
  pub handle_item_removed : Jid → Action (Unit {0})
  pub handle_item_updated : Jid → Action (Unit {0})
  pub handle_item_unsubscribed : Jid → Action (Unit {0})
  pub handle_roster : Roster → Action (Unit {0})
  pub handle_roster_presence : RosterItem → Str → PresenceType → Str → Action (Unit {0})
  pub handle_self_presence : RosterItem → Str → PresenceType → Str → Action (Unit {0})
  pub handle_subscription_request : Jid → Str → Action Bool
  pub handle_unsubscription_request : Jid → Str → Action Bool
  pub handle_nonroster_presence : Presence → Action (Unit {0})
  pub handle_roster_error : Iq → Action (Unit {0})
