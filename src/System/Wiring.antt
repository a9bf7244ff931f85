-- ===== src/System/Wiring.antt =====
-- What no turn changes or breaks: the listener keeps its delegate, never learns a server or a user
-- name, and has a client whenever a thread was started.
use cinder_xmpp.Client.Delegate
use cinder_xmpp.Prelude.{
  refl, fun_ext, ap, sym, ◌∙◌, ◌++◌, ◌≡◌, ◌<◌, ◌≤◌, ◌==◌, Str, Bool, true, false, Option, none,
  some, List, [], ◌∷◌, arith, is_some,
}
use cinder_xmpp.Gloox.{Jid, Ptr, null}
use cinder_xmpp.World.{World, Action, Thread}
use cinder_xmpp.Client.Api
use cinder_xmpp.Listener
use cinder_xmpp.Client.Frame.{
  on_disconnect-SameButRoster, handle_message-SameButRoster, handle_roster-SameButRoster,
  handle_roster_presence-SameButRoster,
}
use cinder_xmpp.World.{◌>>◌}
use cinder_xmpp.World.Laws.{>>=_assoc}
use cinder_xmpp.System.{Callback, deliver, Request, request, Turn, perform, perform_all, start}

-- The thread that is stored, if there is one, is joinable.
abbrev pub joins : Option Thread → Bool
joins none = true
joins (some t) = t.joinable

pub record IsWired (w : World) : Type 0 where
  pub self_pos : 0 < w.self
  pub fresh_pos : 0 < w.fresh
  pub attached : w.client.listener.delegate ≡ w.self
  pub no_server : w.client.listener.server ≡ []
  pub no_username : w.client.listener.username ≡ []
  pub client_lt : w.client.listener.client < w.fresh
  pub threads_join : joins w.client.thread ≡ true
  pub thread_client : is_some w.client.thread ≡ true → 0 < w.client.listener.client

module _ {w : World} (wired : IsWired w) where
  delegate_not_null : (w.client.listener.delegate == null) ≡ false
  delegate_not_null = ground (arith, wired.self_pos)

  delegate_is_self : (w.client.listener.delegate == w.self) ≡ true
  delegate_is_self = ground arith

  -- The pointer to the delegate is neither null nor dangling.
  pub to_delegate_wired : (handler : Action (Unit {0})) → Listener.to_delegate handler w ≡ handler w
  to_delegate_wired handler = rw (delegate_not_null, delegate_is_self)

-- What `IsWired` reads of the listener.
pub record SameWires (w w' : World) : Type 0 where
  pub self : w'.self ≡ w.self
  pub fresh : w.fresh ≤ w'.fresh
  pub delegate : w'.client.listener.delegate ≡ w.client.listener.delegate
  pub server : w'.client.listener.server ≡ w.client.listener.server
  pub username : w'.client.listener.username ≡ w.client.listener.username
  pub client : w'.client.listener.client ≡ w.client.listener.client
  pub thread : w'.client.thread ≡ w.client.thread

SameWires-IsWired : {w w' : World} → SameWires w w' → IsWired w → IsWired w'
SameWires-IsWired s h = ground arith

SameWires-refl : (w : World) → SameWires w w
SameWires-refl w = ground arith

-- A callback changes none of the wires.
pub deliver-SameWires : (c : Callback) (w : World) → SameWires w (deliver c w).1
unfolding deliver Listener.on_connect Listener.on_disconnect Listener.on_tls_connect
    Listener.handle_message Listener.handle_message_event Listener.handle_chat_state
    Listener.handle_message_session Listener.handle_roster Listener.handle_roster_presence
    Listener.handle_log Delegate.on_tls_connect
deliver-SameWires Callback.on_connect w = ground arith
deliver-SameWires (Callback.on_disconnect e) w =
    ground (arith, on_disconnect-SameButRoster e (Listener.with_connected false w))
deliver-SameWires (Callback.on_tls_connect info) w = ground arith
deliver-SameWires (Callback.handle_message msg sess) w =
    ground (arith, handle_message-SameButRoster msg sess w)
deliver-SameWires (Callback.handle_message_session session) w = ground arith
deliver-SameWires (Callback.handle_roster items) w =
    ground (arith, handle_roster-SameButRoster items w)
deliver-SameWires (Callback.handle_roster_presence item resource presence msg) w =
    ground (arith, handle_roster_presence-SameButRoster item resource presence msg w)
deliver-SameWires _ w = ground arith

-- So does a request, but for a client that it makes or a thread that it starts.
pub request-IsWired :
    (jid_of : Str → Jid) (r : Request) (w : World) → IsWired w → IsWired (request jid_of r w).1
unfolding request Api.connect Api.send_message Listener.setup Listener.send_message
request-IsWired jid_of (Request.connect user server) w h = ground arith
request-IsWired jid_of (Request.send_message recipient message subject) w h = ground arith

pub perform-IsWired :
    (jid_of : Str → Jid) (t : Turn) (w : World) → IsWired w → IsWired (perform jid_of t w).1
unfolding perform
perform-IsWired jid_of (Turn.callback c) w h =
    ground (arith, SameWires-IsWired (deliver-SameWires c w) h)
perform-IsWired jid_of (Turn.ask r) w h = ground (arith, request-IsWired jid_of r w h)

-- The listener stays wired to its client through any turns, whatever way they end.
pub perform_all-IsWired :
    (jid_of : Str → Jid) (ts : List Turn) (w : World)
    → IsWired w
    → IsWired (perform_all jid_of ts w).1
unfolding perform_all
perform_all-IsWired jid_of [] w h = h
perform_all-IsWired jid_of (t ∷ ts) w h =
    ground
      (arith, perform-IsWired jid_of t w h, perform_all-IsWired jid_of ts (perform jid_of t w).1)

pub start-IsWired : (self fresh : Ptr) → 0 < self → 0 < fresh → IsWired (start self fresh)
unfolding start Listener.new_listener
start-IsWired self fresh p q = ground arith

-- Two rounds of turns are one.
pub perform_all-append :
    (jid_of : Str → Jid) (ts us : List Turn)
    → ◌≡◌ {A = Action (Unit {0})}
        (perform_all jid_of (ts ++ us))
        (perform_all jid_of ts >> perform_all jid_of us)
unfolding perform_all
perform_all-append jid_of [] us = refl
perform_all-append jid_of (t ∷ ts) us =
    ap (λ k. perform jid_of t >> k) (perform_all-append jid_of ts us)
    ∙ fun_ext (λ w.
      sym
        (>>=_assoc (λ _. perform_all jid_of ts) (λ _. perform_all jid_of us) (perform jid_of t) w))

-- No single turn of a wired world takes a client away.
pub perform-client_pos :
    (jid_of : Str → Jid) (t : Turn) (w : World)
    → IsWired w
    → 0 < w.client.listener.client
    → 0 < (perform jid_of t w).1.client.listener.client
unfolding perform request Api.connect Api.send_message Listener.setup Listener.send_message
perform-client_pos jid_of (Turn.callback c) w h p = ground (arith, deliver-SameWires c w)
perform-client_pos jid_of (Turn.ask (Request.connect user server)) w h p = ground arith
perform-client_pos jid_of (Turn.ask (Request.send_message recipient message subject)) w h p =
    ground arith

-- Once a wired world has a client it has one after any turns: the pointer never becomes null again.
pub perform_all-client_pos :
    (jid_of : Str → Jid) (ts : List Turn) (w : World)
    → IsWired w
    → 0 < w.client.listener.client
    → 0 < (perform_all jid_of ts w).1.client.listener.client
unfolding perform_all
perform_all-client_pos jid_of [] w h p = p
perform_all-client_pos jid_of (t ∷ ts) w h p = ground (
  arith,
  perform-client_pos jid_of t w h p,
  perform-IsWired jid_of t w h,
  perform_all-client_pos jid_of ts (perform jid_of t w).1,
)
