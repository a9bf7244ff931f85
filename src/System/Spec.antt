-- ===== src/System/Spec.antt =====
-- What the wrapper promises, without its objects: a view of four parts, and what each turn does to
-- it, raises and ends in.
use cinder_xmpp.Prelude.{
  Str, str_eq, is_empty, Bool, true, false, not, ◌||◌, ◌&&◌, Option, none, some, List, [], ◌∷◌,
  ◌++◌, ◌==◌, if◌then◌else◌, is_some,
}
use mathlib.Core.Option.{get_or}
use cinder_xmpp.UnorderedMap.{find}
use cinder_xmpp.Gloox.{null}
use cinder_xmpp.Peer.{XmppPeer, peer_named, default_peer, set_status, presence_to_status}
use cinder_xmpp.World.{World, Outcome, done, threw, undefined, terminated, Effect, Signal}
use cinder_xmpp.World.Laws.{signals}
use cinder_xmpp.Client.{exception_of}
use cinder_xmpp.Client.Rosters.{names, contains}
use cinder_xmpp.System.{Callback, Request, Turn}

-- Whether a connection is up, whether a client was made, whether a thread was started, and what is
-- known of each name.
pub record View : Type 0 where
  pub online : Bool
  pub ready : Bool
  pub started : Bool
  pub peers : Str → Option XmppPeer

abbrev pub Observed : Type 0
Observed = Outcome (Unit {0}) × View × List Signal

abbrev pub view : World → View
view w = record {
  online = w.client.listener.is_connected;
  ready = not (w.client.listener.client == null);
  started = is_some w.client.thread;
  peers = λ k. find k w.client.roster;
}

abbrev pub observe : Outcome (Unit {0}) × World × List Effect → Observed
observe (r, w, es) = (r, view w, signals es)

abbrev pub update : Str → XmppPeer → (Str → Option XmppPeer) → Str → Option XmppPeer
update name p peers k = if str_eq name k then some p else peers k

unfoldable pub spec_callback : Callback → View → Observed
spec_callback Callback.on_connect v = (done tt, record v { online = true }, Signal.connected ∷ [])
spec_callback (Callback.on_disconnect e) v =
    let v' : View = record v { online = false } in
    elim (exception_of e) [
      | none ↦ (done tt, v', Signal.disconnected ∷ [])
      | some x ↦ (threw x, v', [])
    ]
spec_callback (Callback.on_tls_connect info) v =
    (done tt, record v { online = true }, Signal.tls_connected ∷ [])
spec_callback (Callback.handle_message msg none) v = (undefined, v, [])
spec_callback (Callback.handle_message msg (some s)) v =
    let p = get_or (v.peers s.target.username) default_peer in
    (done tt, v, Signal.message p msg.subject msg.body ∷ [])
spec_callback (Callback.handle_message_session session) v =
    (if v.ready then (if session == null then undefined else done tt) else undefined, v, [])
spec_callback (Callback.handle_roster items) v = (
  done tt,
  record v { peers = λ k. if contains k (names items) then some (peer_named k) else none },
  Signal.roster (names items) ∷ [],
)
spec_callback (Callback.handle_roster_presence item resource presence msg) v =
    let name = item.jid_jid.username in
    let status = presence_to_status presence in
    elim (v.peers name) [
      | none ↦ (undefined, v, [])
      | some p ↦ (
        done tt,
        record v { peers = update name (set_status status p) v.peers },
        Signal.roster_presence (set_status status p) resource status msg ∷ [],
      )
    ]
spec_callback _ v = (done tt, v, [])

unfoldable pub spec_request : Request → View → Observed
spec_request (Request.connect user server) v =
    if is_empty user || is_empty server
    then (done tt, v, [])
    else (if v.started then terminated else done tt, record v { ready = true; started = true }, [])
spec_request (Request.send_message recipient message subject) v = (done tt, v, [])

unfoldable pub spec_turn : Turn → View → Observed
unfolding spec_callback spec_request
spec_turn (Turn.callback c) v = spec_callback c v
spec_turn (Turn.ask r) v = spec_request r v

-- One turn after the other, up to the first that does not end well.
abbrev pub and_then : Observed → (View → Observed) → Observed
and_then (done a, v, ss) f = let (r, v', ts) = f v in (r, v', ss ++ ts)
and_then (threw x, v, ss) f = (threw x, v, ss)
and_then (undefined, v, ss) f = (undefined, v, ss)
and_then (terminated, v, ss) f = (terminated, v, ss)

unfoldable pub spec_all : List Turn → View → Observed
spec_all [] v = (done tt, v, [])
spec_all (t ∷ ts) v = and_then (spec_turn t v) (spec_all ts)

-- What the application is answered by a turn: by `connect` unless it ends the process, by `sendMessage`
-- whether the message goes out.
unfoldable pub spec_answer : Turn → View → List (Request × Bool)
spec_answer (Turn.callback c) v = []
spec_answer (Turn.ask (Request.connect user server)) v =
    if is_empty user || is_empty server
    then (Request.connect user server, false) ∷ []
    else (if v.started then [] else (Request.connect user server, true) ∷ [])
spec_answer (Turn.ask (Request.send_message recipient message subject)) v =
    (
      Request.send_message recipient message subject,
      v.online && (not (is_empty message) && v.ready),
    )
    ∷ []

unfoldable pub spec_answers : List Turn → View → List (Request × Bool)
spec_answers [] v = []
spec_answers (t ∷ ts) v = spec_answer t v ++ spec_answers ts (spec_turn t v).1
