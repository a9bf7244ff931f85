-- ===== src/Gloox/Contacts.antt =====
-- include/gloox/messagesession.h, rosteritem.h, resource.h: the classes of sessions and of contacts, each
-- as a record of its public functions, and the values that the callbacks take of them.
use cinder_xmpp.Prelude.{Str, ℤ, Bool, List}
use cinder_xmpp.Gloox.Address.{Jid}
use cinder_xmpp.Gloox.Stanza.{
  PresenceType, Message, MessageSession, Ptr, SubscriptionType, Resource, RosterItem,
}

-- A call that reaches the network is of the type `Act`. The last argument of `send_subject` is a list of
-- extensions.
pub record MessageSessionClass (S Act : Type 0) : Type 0 where
  pub create : Ptr → Jid → Bool → ℤ → Bool → S
  pub target : S → Jid
  pub thread_id : S → Str
  pub set_thread_id : Str → S → S
  pub honor_thread_id : S → Bool
  pub register_message_handler : Ptr → S → S
  pub remove_message_handler : S → S
  pub send : Str → S → Act
  pub send_subject : Str → Str → List Ptr → S → Act
  pub register_message_filter : Ptr → S → S
  pub remove_message_filter : Ptr → S → S
  pub dispose_message_filter : Ptr → S → Act
  pub types : S → ℤ
  pub reset_resource : S → S
  pub handle_message : Message → S → Act

-- The value of a session that lives at an address.
abbrev session_value : {S Act : Type 0} → MessageSessionClass S Act → Ptr → S → MessageSession
session_value c address s = record { address = address; target = c.target s }

pub record ResourceClass (R : Type 0) : Type 0 where
  pub create : ℤ → Str → PresenceType → R
  pub priority : R → ℤ
  pub message : R → Str
  pub presence : R → PresenceType
  pub extensions : R → List Ptr

abbrev resource_value : {R : Type 0} → ResourceClass R → R → Resource
resource_value c r = record { message = c.message r; presence = c.presence r }

-- `resource` and `highest_resource` answer with the address of a resource, or null. `set_subscription`
-- takes the text of the subscription, and whether a request is pending as a text too.
pub record RosterItemClass (I : Type 0) : Type 0 where
  pub from_name : Str → Str → I
  pub from_data : Ptr → I
  pub set_name : Str → I → I
  pub name : I → Str
  pub jid : I → Str
  pub jid_jid : I → Jid
  pub set_subscription : Str → Str → I → I
  pub subscription : I → SubscriptionType
  pub set_groups : List Str → I → I
  pub groups : I → List Str
  pub changed : I → Bool
  pub online : I → Bool
  pub resources : I → List (Str × Resource)
  pub resource : Str → I → Ptr
  pub highest_resource : I → Ptr

abbrev roster_item_value : {I : Type 0} → RosterItemClass I → I → RosterItem
roster_item_value c i = record {
  jid_jid = c.jid_jid i;
  jid = c.jid i;
  name = c.name i;
  subscription = c.subscription i;
  groups = c.groups i;
  changed = c.changed i;
  online = c.online i;
  resources = c.resources i;
}
