-- ===== src/Gloox/Address.antt =====
-- include/gloox/jid.h: the value of a `JID` as its inline accessors show it.
use cinder_xmpp.Prelude.{Str, Bool}

pub record Jid : Type 0 where
  pub resource : Str
  pub username : Str
  pub server : Str
  pub server_raw : Str
  pub bare : Str
  pub full : Str
  pub valid : Bool
