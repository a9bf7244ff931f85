-- ===== src/Gloox/Stanza.antt =====
-- include/gloox/presence.h, message.h, messagesession.h, rosteritem.h, rosterlistener.h, gloox.h:
-- the stanzas, sessions and roster entries that reach the wrapper. An object is given by what the
-- accessors that the wrapper calls return.
use cinder_xmpp.Prelude.{Str, ℕ, Bool, List}
use cinder_xmpp.Gloox.Address.{Jid}

-- `Presence::PresenceType`, in the order that fixes the integers 0 to 8.
pub data PresenceType : Type 0 where
  available : PresenceType
  chat : PresenceType
  away : PresenceType
  dnd : PresenceType
  xa : PresenceType
  unavailable : PresenceType
  probe : PresenceType
  error : PresenceType
  invalid : PresenceType

-- `(int) value`
unfoldable pub presence_int : PresenceType → ℕ
presence_int available = 0
presence_int chat = 1
presence_int away = 2
presence_int dnd = 3
presence_int xa = 4
presence_int unavailable = 5
presence_int probe = 6
presence_int error = 7
presence_int invalid = 8

-- `Message::MessageType`
pub data MessageType : Type 0 where
  chat : MessageType
  error : MessageType
  groupchat : MessageType
  headline : MessageType
  normal : MessageType
  invalid : MessageType

-- A `Message`: its type, the receiver, and what `body()` and `subject()` return.
pub record Message : Type 0 where
  pub subtype : MessageType
  pub to : Jid
  pub body : Str
  pub subject : Str

-- The address of an object; 0 is the null pointer.
abbrev pub Ptr : Type 0
Ptr = ℕ

abbrev pub null : Ptr
null = 0

-- The `MessageSession` behind a pointer that is not null: where it lives, and what `target()` returns,
-- which is all that the wrapper reads.
pub record MessageSession : Type 0 where
  pub address : Ptr
  pub target : Jid

pub data SubscriptionType : Type 0 where
  s10n_none : SubscriptionType
  s10n_none_out : SubscriptionType
  s10n_none_in : SubscriptionType
  s10n_none_out_in : SubscriptionType
  s10n_to : SubscriptionType
  s10n_to_in : SubscriptionType
  s10n_from : SubscriptionType
  s10n_from_out : SubscriptionType
  s10n_both : SubscriptionType

-- A `Resource`: what `message()` and `presence()` return.
pub record Resource : Type 0 where
  pub message : Str
  pub presence : PresenceType

-- A `RosterItem`: what its accessors return, `jidJID()` and `jid()` first. `resources` has the entries
-- of the map in the order of iteration. The wrapper reads `jidJID()` alone.
pub record RosterItem : Type 0 where
  pub jid_jid : Jid
  pub jid : Str
  pub name : Str
  pub subscription : SubscriptionType
  pub groups : List Str
  pub changed : Bool
  pub online : Bool
  pub resources : List (Str × Resource)

-- `std::map<const std::string, RosterItem*>`, as its entries in the order of iteration. Any list of
-- entries is taken, also one that no map has, with a key twice or keys that do not ascend.
abbrev pub Roster : Type 0
Roster = List (Str × RosterItem)

pub data MessageEventType : Type 0 where
  message_event_offline : MessageEventType
  message_event_delivered : MessageEventType
  message_event_displayed : MessageEventType
  message_event_composing : MessageEventType
  message_event_invalid : MessageEventType
  message_event_cancel : MessageEventType

pub data ChatStateType : Type 0 where
  chat_state_active : ChatStateType
  chat_state_composing : ChatStateType
  chat_state_paused : ChatStateType
  chat_state_inactive : ChatStateType
  chat_state_gone : ChatStateType
  chat_state_invalid : ChatStateType

pub data LogLevel : Type 0 where
  log_level_debug : LogLevel
  log_level_warning : LogLevel
  log_level_error : LogLevel

-- `LogArea` is a set of flags, as its number.
abbrev pub LogArea : Type 0
LogArea = ℕ

abbrev pub log_area_all : LogArea
log_area_all = 0xFFFFFF
