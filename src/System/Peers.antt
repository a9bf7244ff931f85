-- ===== src/System/Peers.antt =====
-- What the roster says of a name: it stays well formed.
use cinder_xmpp.Client.Delegate
use cinder_xmpp.Prelude.{ap, ◌≡◌, refl, Bool, true, false, none, some, Str, List, ◌++◌, arith}
use cinder_xmpp.Gloox.{Jid}
use cinder_xmpp.World.{Action, Effect, World}
use cinder_xmpp.World.Relations.{Sequential, Holds}
use cinder_xmpp.System.Runs.{perform_all-Holds}
use cinder_xmpp.World.Laws.{Run}
use cinder_xmpp.Client
use cinder_xmpp.Client.Api
use cinder_xmpp.Client.Rosters.{IsRoster, handle_roster_lem}
use cinder_xmpp.Client.Presences.{handle_roster_presence-IsRoster}
use cinder_xmpp.Listener
use cinder_xmpp.System.{void, Callback, deliver, Request, request, Turn, perform, perform_all}
use cinder_xmpp.System.Wiring.{IsWired, perform-IsWired, to_delegate_wired}
use cinder_xmpp.System.Refinement.{perform-void}

-- The callbacks that write to the roster.
abbrev writes_roster : Callback → Bool
writes_roster (Callback.handle_roster items) = true
writes_roster (Callback.handle_roster_presence item resource presence msg) = true
writes_roster _ = false

deliver-same_roster :
    (c : Callback) (w : World)
    → IsWired w
    → writes_roster c ≡ false
    → (deliver c w).1.client.roster ≡ w.client.roster
unfolding deliver Listener.on_connect Listener.on_disconnect Listener.on_tls_connect
    Listener.handle_message Listener.handle_message_event Listener.handle_chat_state
    Listener.handle_message_session Listener.handle_log Delegate.on_tls_connect
    Delegate.on_disconnect Delegate.handle_message
deliver-same_roster (Callback.handle_message msg none) w wired h = ground arith
deliver-same_roster (Callback.handle_message msg (some s)) w wired h = ground arith
deliver-same_roster (Callback.handle_roster items) w wired h = cc
deliver-same_roster (Callback.handle_roster_presence item resource presence msg) w wired h = cc
deliver-same_roster _ w wired h = ground arith

perform-callback_world :
    (jid_of : Str → Jid) (c : Callback) (w : World)
    → (perform jid_of (Turn.callback c) w).1 ≡ (deliver c w).1
unfolding perform
perform-callback_world jid_of c w = ground arith

-- A callback that hands on to the client leaves the client's world.
delegated_world :
    (jid_of : Str → Jid) (c : Callback) (handler : Action (Unit {0})) (w : World)
    → IsWired w
    → deliver c ≡ void (Listener.to_delegate handler)
    → (perform jid_of (Turn.callback c) w).1 ≡ (handler w).1
unfolding perform
delegated_world jid_of c handler w wired e =
    rw (e, perform-void (Listener.to_delegate handler) w)
      (ap (λ (r : Run (Unit {0})). r.1) (to_delegate_wired wired handler))

request-same_roster :
    (jid_of : Str → Jid) (r : Request) (w : World)
    → (perform jid_of (Turn.ask r) w).1.client.roster ≡ w.client.roster
unfolding perform request Api.connect Api.send_message Listener.setup Listener.send_message
request-same_roster jid_of (Request.connect user server) w = ground arith
request-same_roster jid_of (Request.send_message recipient message subject) w = ground arith

perform-IsRoster :
    (jid_of : Str → Jid) (t : Turn) (w : World)
    → IsWired w
    → IsRoster w.client.roster
    → IsRoster (perform jid_of t w).1.client.roster
unfolding deliver Listener.handle_roster Listener.handle_roster_presence
perform-IsRoster jid_of (Turn.callback (Callback.handle_roster items)) w wired h =
    rw
      (delegated_world jid_of (Callback.handle_roster items) (Client.handle_roster items) w wired
        refl)
      (handle_roster_lem items w).3
perform-IsRoster jid_of (Turn.callback (Callback.handle_roster_presence item resource presence msg))
      w wired h =
    rw
      (delegated_world jid_of (Callback.handle_roster_presence item resource presence msg)
        (Client.handle_roster_presence item resource presence msg) w wired refl)
      (handle_roster_presence-IsRoster item resource presence msg w h)
perform-IsRoster jid_of (Turn.callback c) w wired h =
    rw (perform-callback_world jid_of c w, deliver-same_roster c w wired refl) h
perform-IsRoster jid_of (Turn.ask r) w wired h = rw (request-same_roster jid_of r w) h

-- What a run does to a wired client and its roster.
abbrev pub Rostering : World → World → List Effect → Type 0
Rostering w w' es = IsWired w → IsWired w' × (IsRoster w.client.roster → IsRoster w'.client.roster)

Rostering-both :
    (w v u : World) (es fs : List Effect)
    → Rostering w v es
    → Rostering v u fs
    → Rostering w u (es ++ fs)
Rostering-both w v u es fs p q h =
    let (wired, first) = p h in let (wired', second) = q wired in (wired', λ r. second (first r))

pub Rostering-Sequential : Sequential Rostering
Rostering-Sequential = record { nothing = λ w h. (h, λ r. r); both = Rostering-both }

pub perform-Rostering : (jid_of : Str → Jid) (t : Turn) → Holds Rostering (perform jid_of t)
perform-Rostering jid_of t w h = (perform-IsWired jid_of t w h, perform-IsRoster jid_of t w h)

-- The roster stays a map from names to peers of that name, each flagged as connected by its state,
-- through any turns, whatever way they end.
pub perform_all-IsRoster :
    (jid_of : Str → Jid) (ts : List Turn) (w : World)
    → IsWired w
    → IsRoster w.client.roster
    → IsRoster (perform_all jid_of ts w).1.client.roster
perform_all-IsRoster jid_of ts w wired =
    (perform_all-Holds Rostering Rostering-Sequential jid_of (perform-Rostering jid_of) ts w
      wired).1
