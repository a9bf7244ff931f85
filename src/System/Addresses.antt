-- ===== src/System/Addresses.antt =====
-- Whom `sendMessage` writes to. No function ever sets `mServer`.
use cinder_xmpp.Prelude.{
  ◌≡◌, ◌≢◌, ◌<◌, Str, codes, is_empty, true, false, not, ◌&&◌, List, [], ◌∷◌, ◌++◌, arith, ◌==◌,
  if◌then◌else◌, append-nil, append-left_cancel,
}
use cinder_xmpp.Gloox.{Jid, Ptr, null, Call, MessageType, Message}
use cinder_xmpp.World.{World, done, call}
use cinder_xmpp.Client.Api
use cinder_xmpp.Listener
use cinder_xmpp.System.{Turn, perform_all, start}
use cinder_xmpp.System.Wiring.{IsWired, perform_all-IsWired, start-IsWired}

-- A chat message.
abbrev pub chat_message : Jid → Str → Str → Message
chat_message to body subject = record {
  subtype = MessageType.chat;
  to = to;
  body = body;
  subject = subject;
}

-- In a wired world the message goes to the address that ends at the at sign.
send_message_wired :
    (jid_of : Str → Jid) (recipient message subject : Str) (w : World)
    → IsWired w
    → Api.send_message jid_of recipient message subject w ≡ (
        if w.client.listener.is_connected
          && (not (is_empty message) && not (w.client.listener.client == null))
        then (
          done true,
          w,
          call (
                Call.send w.client.listener.client
                  (chat_message (jid_of (recipient ++ codes "@")) message subject))
              ∷ [],
        )
        else (done false, w, []))
unfolding Api.send_message Listener.send_message
send_message_wired jid_of recipient message subject w wired = ground (arith, append-nil (codes "@"))

module _ (jid_of : Str → Jid) (self fresh : Ptr) (ts : List Turn) (self_pos : 0 < self)
    (fresh_pos : 0 < fresh) where
  -- After any turns of a new client, `sendMessage` hands exactly one chat message to gloox and answers
  -- `true` if a connection is up, the text is not empty and a client was made; else it answers `false`
  -- and does nothing. Whatever server `connect` was given, the receiver is parsed from the name and an
  -- at sign alone.
  pub send_message_lem :
      (recipient message subject : Str)
      → let w = (perform_all jid_of ts (start self fresh)).1 in
        Api.send_message jid_of recipient message subject w ≡ (
          if w.client.listener.is_connected
            && (not (is_empty message) && not (w.client.listener.client == null))
          then (
            done true,
            w,
            call (
                  Call.send w.client.listener.client
                    (chat_message (jid_of (recipient ++ codes "@")) message subject))
                ∷ [],
          )
          else (done false, w, []))
  send_message_lem recipient message subject =
      send_message_wired jid_of recipient message subject
        (perform_all jid_of ts (start self fresh)).1
        (perform_all-IsWired jid_of ts (start self fresh)
          (start-IsWired self fresh self_pos fresh_pos))

  -- After any turns of a new client, the text of which `sendMessage` makes the receiver is not the
  -- recipient's address on any server that has a name.
  pub recipient_address_lacks_server :
      (recipient server : Str)
      → server ≢ []
      → Api.recipient_address recipient (perform_all jid_of ts (start self fresh)).1.client.listener
        ≢ recipient ++ (codes "@" ++ server)
  unfolding Api.recipient_address
  recipient_address_lacks_server recipient server h e =
      let w = (perform_all jid_of ts (start self fresh)).1 in
      let wired =
        perform_all-IsWired jid_of ts (start self fresh)
          (start-IsWired self fresh self_pos fresh_pos) in
      let tail : codes "@" ++ w.client.listener.server ≡ codes "@" ++ server =
        append-left_cancel recipient (codes "@" ++ w.client.listener.server) (codes "@" ++ server)
          e in
      h (cc (append-left_cancel (codes "@") w.client.listener.server server tail, wired.no_server))
