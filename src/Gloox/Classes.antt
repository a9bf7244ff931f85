-- ===== src/Gloox/Classes.antt =====
-- include/gloox/jid.h, stanza.h, message.h, presence.h, iq.h, error.h: the classes of gloox whose objects
-- reach the wrapper, each as a record of its public functions. Their implementation is not in the
-- repository, so an object is of any type; a function that changes its object returns the new one.
-- Of each class, the value that the callbacks take is what its accessors return.
use cinder_xmpp.Prelude.{Str, codes, ℤ, Bool, List, []}
use cinder_xmpp.Gloox.Address.{Jid}
use cinder_xmpp.Gloox.Stanza.{PresenceType, MessageType, Message, Ptr}
use cinder_xmpp.Gloox.Errors.{StanzaErrorType, StanzaError, Error, Stanza, IqType, Iq, Presence}

pub record JidClass (J : Type 0) : Type 0 where
  pub empty : J
  pub from_string : Str → J
  pub set_jid : Str → J → J × Bool
  pub full : J → Str
  pub bare : J → Str
  pub bare_jid : J → J
  pub set_username : Str → J → J × Bool
  pub set_server : Str → J → J × Bool
  pub set_resource : Str → J → J × Bool
  pub username : J → Str
  pub server : J → Str
  pub server_raw : J → Str
  pub resource : J → Str
  pub eq_string : J → Str → Bool
  pub ne_string : J → Str → Bool
  pub eq : J → J → Bool
  pub ne : J → J → Bool
  pub valid : J → Bool
  pub escape_node : Str → Str
  pub unescape_node : Str → Str

abbrev jid_value : {J : Type 0} → JidClass J → J → Jid
jid_value c j = record {
  resource = c.resource j;
  username = c.username j;
  server = c.server j;
  server_raw = c.server_raw j;
  bare = c.bare j;
  full = c.full j;
  valid = c.valid j;
}

-- The extensions of a stanza are found by their number; none is the null pointer. `tag` answers with
-- the address of a new tag.
pub record StanzaClass (S : Type 0) : Type 0 where
  pub set_from : Jid → S → S
  pub from : S → Jid
  pub to : S → Jid
  pub id : S → Str
  pub error : S → Ptr
  pub xml_lang : S → Str
  pub add_extension : Ptr → S → S
  pub find_extension : ℤ → S → Ptr
  pub extensions : S → List Ptr
  pub remove_extensions : S → S
  pub tag : S → Ptr

abbrev stanza_value : {S : Type 0} → StanzaClass S → S → Stanza
stanza_value c s = record { from = c.from s; to = c.to s; id = c.id s; xml_lang = c.xml_lang s }

-- The arguments of `body` and `subject` are languages.
pub record MessageClass (M : Type 0) : Type 0 where
  pub stanza : StanzaClass M
  pub message : MessageType → Jid → Str → Str → Str → Str → M
  pub subtype : M → MessageType
  pub body : Str → M → Str
  pub subject : Str → M → Str
  pub thread : M → Str
  pub set_thread : Str → M → M
  pub set_id : Str → M → M
  pub when : M → Ptr

abbrev message_value : {M : Type 0} → MessageClass M → M → Message
message_value c m = record {
  subtype = c.subtype m;
  to = c.stanza.to m;
  body = c.body (codes "default") m;
  subject = c.subject (codes "default") m;
}

-- A priority is an integer; the last argument of the constructor is a language.
pub record PresenceClass (P : Type 0) : Type 0 where
  pub stanza : StanzaClass P
  pub create : PresenceType → Jid → Str → ℤ → Str → P
  pub subtype : P → PresenceType
  pub capabilities : P → Ptr
  pub presence : P → PresenceType
  pub set_presence : PresenceType → P → P
  pub status : Str → P → Str
  pub add_status : Str → Str → P → P
  pub reset_status : P → P
  pub priority : P → ℤ
  pub set_priority : ℤ → P → P

abbrev presence_value : {P : Type 0} → PresenceClass P → P → Presence
presence_value c p = record {
  stanza = stanza_value c.stanza p;
  subtype = c.subtype p;
  status = c.status (codes "default") p;
}

pub record IqClass (I : Type 0) : Type 0 where
  pub stanza : StanzaClass I
  pub iq : IqType → Jid → Str → I
  pub subtype : I → IqType

abbrev iq_value : {I : Type 0} → IqClass I → I → Iq
iq_value c i = record { stanza = stanza_value c.stanza i; subtype = c.subtype i }

-- `text` and `set_text` take a language.
pub record ErrorClass (E : Type 0) : Type 0 where
  pub from_tag : Ptr → E
  pub create : StanzaErrorType → StanzaError → Ptr → E
  pub kind : E → StanzaErrorType
  pub error : E → StanzaError
  pub app_error : E → Ptr
  pub text : Str → E → Str
  pub set_text : Str → Str → E → E
  pub filter_string : E → Str
  pub new_instance : Ptr → E → Ptr
  pub tag : E → Ptr
  pub clone : E → Ptr

abbrev error_value : {E : Type 0} → ErrorClass E → E → Error
error_value c e = record {
  kind = c.kind e;
  error = c.error e;
  app_error = c.app_error e;
  text = c.text [] e;
}
