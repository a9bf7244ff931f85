-- ===== src/Gloox/Errors.antt =====
-- include/gloox/gloox.h, error.h, iq.h, presence.h: what reaches the callbacks that the wrapper answers
-- with nothing.
use cinder_xmpp.Prelude.{Str}
use cinder_xmpp.Gloox.Address.{Jid}
use cinder_xmpp.Gloox.Stanza.{PresenceType, Ptr}

pub data StreamEvent : Type 0 where
  stream_event_connecting : StreamEvent
  stream_event_encryption : StreamEvent
  stream_event_compression : StreamEvent
  stream_event_authentication : StreamEvent
  stream_event_session_init : StreamEvent
  stream_event_resource_binding : StreamEvent
  stream_event_session_creation : StreamEvent
  stream_event_roster : StreamEvent
  stream_event_finished : StreamEvent

pub data StanzaErrorType : Type 0 where
  stanza_error_type_auth : StanzaErrorType
  stanza_error_type_cancel : StanzaErrorType
  stanza_error_type_continue : StanzaErrorType
  stanza_error_type_modify : StanzaErrorType
  stanza_error_type_wait : StanzaErrorType
  stanza_error_type_undefined : StanzaErrorType

pub data StanzaError : Type 0 where
  stanza_error_bad_request : StanzaError
  stanza_error_conflict : StanzaError
  stanza_error_feature_not_implemented : StanzaError
  stanza_error_forbidden : StanzaError
  stanza_error_gone : StanzaError
  stanza_error_internal_server_error : StanzaError
  stanza_error_item_not_found : StanzaError
  stanza_error_jid_malformed : StanzaError
  stanza_error_not_acceptable : StanzaError
  stanza_error_not_allowed : StanzaError
  stanza_error_not_authorized : StanzaError
  stanza_error_not_modified : StanzaError
  stanza_error_payment_required : StanzaError
  stanza_error_recipient_unavailable : StanzaError
  stanza_error_redirect : StanzaError
  stanza_error_registration_required : StanzaError
  stanza_error_remote_server_not_found : StanzaError
  stanza_error_remote_server_timeout : StanzaError
  stanza_error_resource_constraint : StanzaError
  stanza_error_service_unavailable : StanzaError
  stanza_error_subscribtion_required : StanzaError
  stanza_error_undefined_condition : StanzaError
  stanza_error_unexpected_request : StanzaError
  stanza_error_unknown_sender : StanzaError
  stanza_error_undefined : StanzaError

-- An `Error`: what `type()`, `error()`, `appError()` and `text()` return.
pub record Error : Type 0 where
  pub kind : StanzaErrorType
  pub error : StanzaError
  pub app_error : Ptr
  pub text : Str

-- A `Stanza`, which an IQ and a presence are: what `from()`, `to()`, `id()` and `xmlLang()` return.
pub record Stanza : Type 0 where
  pub from : Jid
  pub to : Jid
  pub id : Str
  pub xml_lang : Str

-- `IQ::IqType`
pub data IqType : Type 0 where
  get : IqType
  set : IqType
  result : IqType
  error : IqType
  invalid : IqType

-- An `IQ`: the stanza that it is, with the id that `setID` sets, and what `subtype()` returns.
pub record Iq : Type 0 where
  pub stanza : Stanza
  pub subtype : IqType

-- A `Presence`: the stanza that it is, and what `subtype()` and `presence()`, and `status()` without a
-- language, return.
pub record Presence : Type 0 where
  pub stanza : Stanza
  pub subtype : PresenceType
  pub status : Str
