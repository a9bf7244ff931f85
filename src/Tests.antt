-- ===== src/Tests.antt =====
-- A session of two contacts, run through the program: what the application sees of it, and what goes
-- wrong in it.
mod Witnesses
mod Parts
mod Turns
mod Interleaved
mod Calling
mod Overriding
mod Concurrent
use cinder_xmpp.Client.Delegate
use cinder_xmpp.Prelude.{
  arith, ◌≡◌, ◌≢◌, refl, ℕ, pos, Str, codes, str_eq, Bool, true, false, none, some, List, [], ◌∷◌,
  ◌++◌, ◌==◌, if◌then◌else◌,
}
use cinder_xmpp.UnorderedMap.{insert, modify, find}
use cinder_xmpp.Gloox.{
  Jid, CertInfo, CertStatus, cert_status_flag, SubscriptionType, RosterItem, Roster, Message,
  MessageSession, MessageType, PresenceType, ConnectionError, conn_user_disconnected, Ptr,
}
use cinder_xmpp.Peer
use cinder_xmpp.Peer.{XmppPeer, status_int}
use cinder_xmpp.World.{
  World, Outcome, done, threw, undefined, terminated, Signal, xmpp_connection_exc,
}
use cinder_xmpp.World.Laws.{Run, signals}
use cinder_xmpp.Client
use cinder_xmpp.Client.Api
use cinder_xmpp.Client.Lifetime.{connected_world}
use cinder_xmpp.Listener
use cinder_xmpp.System.Wiring.{IsWired, start-IsWired}
use cinder_xmpp.System.{Callback, Request, Turn, start, perform, perform_all}

-- An address parser: the user name is what stands before the at sign.
abbrev pub before_at_sign : Str → Str
before_at_sign [] = []
before_at_sign (c ∷ s) = if c == b'@' then [] else c ∷ before_at_sign s

abbrev pub parse_jid : Str → Jid
parse_jid s = record {
  resource = [];
  username = before_at_sign s;
  server = [];
  server_raw = [];
  bare = s;
  full = s;
  valid = true;
}

-- An entry of the roster that nobody has seen yet.
abbrev pub contact : Str → RosterItem
contact address = record {
  jid_jid = parse_jid address;
  jid = address;
  name = [];
  subscription = SubscriptionType.s10n_both;
  groups = [];
  changed = false;
  online = false;
  resources = [];
}

abbrev pub bob : RosterItem
bob = contact (codes "bob@home")

abbrev pub carol : RosterItem
carol = contact (codes "carol@home")

abbrev pub contacts : Roster
contacts = (codes "bob@home", bob) ∷ (codes "carol@home", carol) ∷ []

-- A certificate that was revoked.
abbrev pub certificate : CertInfo
certificate = record {
  status = pos (cert_status_flag CertStatus.cert_revoked);
  chain = false;
  issuer = [];
  server = [];
  date_from = pos 0;
  date_to = pos 0;
  protocol = [];
  cipher = [];
  mac = [];
  compression = [];
}

abbrev pub greeting : Message
greeting = record {
  subtype = MessageType.chat;
  to = parse_jid (codes "alice@home");
  body = codes "hello";
  subject = [];
}

abbrev pub bob_session : MessageSession
bob_session = record { address = 7; target = parse_jid (codes "bob@home") }

abbrev pub initial : World
initial = start 1 2

abbrev pub login : List Turn
login =
    Turn.ask (Request.connect (codes "alice") (codes "home"))
    ∷ Turn.callback (Callback.on_tls_connect certificate)
    ∷ Turn.callback Callback.on_connect
    ∷ Turn.callback (Callback.handle_roster contacts)
    ∷ []

abbrev pub presence_of : RosterItem → PresenceType → Turn
presence_of item p = Turn.callback (Callback.handle_roster_presence item [] p [])

abbrev pub chat : List Turn
chat =
    Turn.callback (Callback.handle_roster contacts)
    ∷ presence_of bob PresenceType.away
    ∷ Turn.callback (Callback.handle_message greeting (some bob_session))
    ∷ []

abbrev away_bob : XmppPeer
away_bob = record { connected = true; username = codes "bob"; status = Peer.away }

-- The world right after `connect`, before the thread has run.
abbrev pub dialled : World
dialled = connected_world initial

pub initial-IsWired : IsWired initial
initial-IsWired = start-IsWired 1 2 (omega arith) (omega arith)

pub dialled-IsWired : IsWired dialled
unfolding start Listener.new_listener
dialled-IsWired = ground arith

-- A world whose roster holds the two contacts.
abbrev pub with_contacts : World
with_contacts = (perform_all parse_jid login initial).1

-- The program on these turns; a test that unfolds this sees all of it.
pub play : List Turn → World → Run (Unit {0})
unfolding start perform_all perform signals Api.connect Api.send_message Listener.setup
    Listener.send_message Delegate.handle_roster Delegate.handle_roster_presence
    Delegate.handle_message Delegate.on_connect Delegate.on_disconnect Delegate.on_tls_connect
    Client.exception_of Listener.on_connect Listener.on_disconnect Listener.on_tls_connect
    Listener.handle_roster Listener.handle_roster_presence Listener.handle_message
    Listener.new_listener find insert modify Peer.set_status Peer.presence_to_status Peer.peer_named
    Peer.default_peer Peer.status_int str_eq
play ts w = perform_all parse_jid ts w

-- The peer that a message is signalled with is the one that the presence changed.
chat-signals :
    signals (play chat initial).2
    ≡ Signal.roster (codes "bob" ∷ codes "carol" ∷ [])
      ∷ Signal.roster_presence away_bob [] Peer.away []
      ∷ Signal.message away_bob [] (codes "hello")
      ∷ []
unfolding play
chat-signals = refl

-- A sender whom no roster named is signalled as "unknown".
stranger :
    signals
      (play (Turn.callback (Callback.handle_message greeting (some bob_session)) ∷ []) initial).2
    ≡ Signal.message
        (record { connected = false; username = codes "unknown"; status = Peer.invalid })
        []
        (codes "hello")
      ∷ []
unfolding play
stranger = refl

-- The user asks for a disconnect: the exception leaves the handler.
user_disconnect :
    ((play (Turn.callback (Callback.on_disconnect conn_user_disconnected) ∷ []) initial).0
      ≡ threw xmpp_connection_exc)
    × (signals (play (Turn.callback (Callback.on_disconnect conn_user_disconnected) ∷ []) initial).2
        ≡ [])
unfolding play
user_disconnect = (refl, refl)

-- A presence that overtakes the roster.
early_presence : (play (presence_of bob PresenceType.chat ∷ []) initial).0 ≡ undefined
unfolding play
early_presence = refl

-- A second call of `connect`.
connect_twice :
    (play (login ++ Turn.ask (Request.connect (codes "alice") (codes "home")) ∷ []) initial).0
    ≡ terminated
unfolding play
connect_twice = refl
