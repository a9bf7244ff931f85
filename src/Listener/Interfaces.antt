-- ===== src/Listener/Interfaces.antt =====
-- src/XmppListener.h: the listener as each of the handlers that it is registered as.
use cinder_xmpp.Prelude.{false}
use cinder_xmpp.World.{pure}
use cinder_xmpp.Handlers.{
  ConnectionListener, default_connection_listener, MessageHandler, MessageSessionHandler,
  LogHandler, MessageEventHandler, ChatStateHandler, PresenceHandler, RosterListener,
}
use cinder_xmpp.Listener

abbrev pub connection_listener : ConnectionListener
connection_listener =
    default_connection_listener Listener.on_connect Listener.on_disconnect Listener.on_tls_connect

abbrev pub message_handler : MessageHandler
message_handler = record { handle_message = Listener.handle_message }

abbrev pub message_session_handler : MessageSessionHandler
message_session_handler = record { handle_message_session = Listener.handle_message_session }

abbrev pub log_handler : LogHandler
log_handler = record { handle_log = Listener.handle_log }

abbrev pub message_event_handler : MessageEventHandler
message_event_handler = record { handle_message_event = Listener.handle_message_event }

abbrev pub chat_state_handler : ChatStateHandler
chat_state_handler = record { handle_chat_state = Listener.handle_chat_state }

abbrev pub presence_handler : PresenceHandler
presence_handler = record { handle_presence = λ presence. pure tt }

abbrev pub roster_listener : RosterListener
roster_listener = record {
  handle_item_added = λ jid. pure tt;
  handle_item_subscribed = λ jid. pure tt;
  handle_item_removed = λ jid. pure tt;
  handle_item_updated = λ jid. pure tt;
  handle_item_unsubscribed = λ jid. pure tt;
  handle_roster = Listener.handle_roster;
  handle_roster_presence = Listener.handle_roster_presence;
  handle_self_presence = λ item resource presence msg. pure tt;
  handle_subscription_request = λ jid msg. pure false;
  handle_unsubscription_request = λ jid msg. pure false;
  handle_nonroster_presence = λ presence. pure tt;
  handle_roster_error = λ iq. pure tt;
}
