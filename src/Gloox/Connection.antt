-- ===== src/Gloox/Connection.antt =====
-- include/gloox/gloox.h: why a connection ended, and what a TLS peer presented.
use cinder_xmpp.Prelude.{Str, ℕ, ℤ, Bool}

pub data ConnectionError : Type 0 where
  conn_no_error : ConnectionError
  conn_stream_error : ConnectionError
  conn_stream_version_error : ConnectionError
  conn_stream_closed : ConnectionError
  conn_proxy_auth_required : ConnectionError
  conn_proxy_auth_failed : ConnectionError
  conn_proxy_no_supported_auth : ConnectionError
  conn_io_error : ConnectionError
  conn_parse_error : ConnectionError
  conn_connection_refused : ConnectionError
  conn_dns_error : ConnectionError
  conn_out_of_memory : ConnectionError
  conn_no_supported_auth : ConnectionError
  conn_tls_failed : ConnectionError
  conn_tls_not_available : ConnectionError
  conn_compression_failed : ConnectionError
  conn_authentication_failed : ConnectionError
  conn_user_disconnected : ConnectionError
  conn_not_connected : ConnectionError

-- What may be wrong with a certificate, and the flag of each.
pub data CertStatus : Type 0 where
  cert_ok : CertStatus
  cert_invalid : CertStatus
  cert_signer_unknown : CertStatus
  cert_revoked : CertStatus
  cert_expired : CertStatus
  cert_not_active : CertStatus
  cert_wrong_peer : CertStatus
  cert_signer_not_ca : CertStatus

abbrev pub cert_status_flag : CertStatus → ℕ
cert_status_flag cert_ok = 0
cert_status_flag cert_invalid = 1
cert_status_flag cert_signer_unknown = 2
cert_status_flag cert_revoked = 4
cert_status_flag cert_expired = 8
cert_status_flag cert_not_active = 16
cert_status_flag cert_wrong_peer = 32
cert_status_flag cert_signer_not_ca = 64

-- The two dates are UNIX timestamps, and `status` is an or of flags.
pub record CertInfo : Type 0 where
  pub status : ℤ
  pub chain : Bool
  pub issuer : Str
  pub server : Str
  pub date_from : ℤ
  pub date_to : ℤ
  pub protocol : Str
  pub cipher : Str
  pub mac : Str
  pub compression : Str
