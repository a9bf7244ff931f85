-- ===== src/System/Refinement.antt =====
-- The wrapper does what `System.Spec` says: on every turn, and on every sequence of turns.
use cinder_xmpp.Client.Delegate
use cinder_xmpp.Prelude.{
  sym, not, ◌∙◌, append-nil, ◌≡◌, refl, Str, Option, none, some, List, [], ◌∷◌, arith, ◌==◌,
  is_some, Option-cases, inl, inr, ap,
}
use cinder_xmpp.UnorderedMap.{find}
use cinder_xmpp.Gloox.{
  ConnectionError, Jid, Message, MessageSession, RosterItem, Roster, PresenceType, null,
}
use cinder_xmpp.Peer.{set_status, presence_to_status, XmppPeer}
use cinder_xmpp.World.Laws.{signals, signals-append}
use cinder_xmpp.World.{pure, ◌>>◌, Action, World, Outcome, done, undefined, Effect, Signal}
use cinder_xmpp.Client
use cinder_xmpp.Client.Api
use cinder_xmpp.Client.Rosters.{handle_roster_lem}
use cinder_xmpp.Client.Presences.{handle_roster_presence_found, missing_undefined}
use cinder_xmpp.Client.Frame.{
  SameButRoster, handle_roster-SameButRoster, handle_roster_presence-SameButRoster,
}
use cinder_xmpp.Client.Messages.{handle_message_lem}
use cinder_xmpp.Listener
use cinder_xmpp.System.{void, Callback, deliver, Request, request, Turn, perform, perform_all}
use cinder_xmpp.System.Wiring.{IsWired, to_delegate_wired, perform-IsWired}
use cinder_xmpp.System.Spec.{
  update, View, Observed, view, observe, spec_callback, spec_request, spec_turn, and_then, spec_all,
}

settle-void :
    (r : Outcome (Unit {0})) (w' : World) (es : List Effect) (w : World)
    → ((void λ _. (r, w', es)) >> pure tt) w ≡ (r, w', es)
settle-void (done a) w' es w = simp append-nil
settle-void (Outcome.threw x) w' es w = refl
settle-void Outcome.undefined w' es w = refl
settle-void Outcome.terminated w' es w = refl

-- A turn that delivers a callback with no result is the listener's function.
pub perform-void : (m : Action (Unit {0})) (w : World) → (void m >> pure tt) w ≡ m w
perform-void m w = settle-void (m w).0 (m w).1 (m w).2 w

observed :
    {r r' : Outcome (Unit {0})} {v v' : View} {ss ss' : List Signal}
    → r ≡ r'
    → v ≡ v'
    → ss ≡ ss'
    → ◌≡◌ {A = Observed} (r, v, ss) (r', v', ss')
observed p q s i = (p i, q i, s i)

view_same :
    {w w' : World} {f : Str → Option XmppPeer}
    → SameButRoster w w'
    → ((k : Str) → find k w'.client.roster ≡ f k)
    → view w' ≡ record (view w) { peers = f }
view_same same h i = record {
  online = (same.listener i).is_connected;
  ready = not ((same.listener i).client == null);
  started = is_some (same.thread i);
  peers = λ k. h k i;
}

module _ (item : RosterItem) (resource : Str) (presence : PresenceType) (msg : Str) (v : View) where
  spec_missing :
      v.peers item.jid_jid.username ≡ none
      → spec_callback (Callback.handle_roster_presence item resource presence msg) v
        ≡ (undefined, v, [])
  unfolding spec_callback
  spec_missing e = rw (e, spec_callback)

  pub spec_found :
      {p : XmppPeer}
      → v.peers item.jid_jid.username ≡ some p
      → let p' = set_status (presence_to_status presence) p in
        spec_callback (Callback.handle_roster_presence item resource presence msg) v ≡ (
          done tt,
          record v { peers = update item.jid_jid.username p' v.peers },
          Signal.roster_presence p' resource (presence_to_status presence) msg ∷ [],
        )
  unfolding spec_callback
  spec_found e = rw (e, spec_callback)

-- The listener's functions, each against the specification of its callback.
module _ {w : World} (wired : IsWired w) where
  on_disconnect-spec :
      (e : ConnectionError)
      → observe (Listener.on_disconnect e w) ≡ spec_callback (Callback.on_disconnect e) (view w)
  unfolding Listener.on_disconnect spec_callback signals Delegate.on_disconnect
  on_disconnect-spec e = elim (Option-cases (Client.exception_of e)) [
    | inl p ↦ ground arith
    | inr (x, p) ↦ ground arith
  ]

  handle_message-spec :
      (msg : Message) (sess : Option MessageSession)
      → observe (Listener.handle_message msg sess w)
        ≡ spec_callback (Callback.handle_message msg sess) (view w)
  unfolding Listener.handle_message spec_callback signals
  handle_message-spec msg none =
      rw (to_delegate_wired wired (Client.handle_message msg none), handle_message_lem msg none w)
  handle_message-spec msg (some s) = rw (
    to_delegate_wired wired (Client.handle_message msg (some s)),
    handle_message_lem msg (some s) w,
  )

  handle_roster-spec :
      (items : Roster)
      → observe (Listener.handle_roster items w)
        ≡ spec_callback (Callback.handle_roster items) (view w)
  unfolding Listener.handle_roster spec_callback signals
  handle_roster-spec items =
      let (r, es, find_lem, _) = handle_roster_lem items w in
      rw (to_delegate_wired wired (Client.handle_roster items))
        (observed r (view_same (handle_roster-SameButRoster items w) find_lem) (ap signals es))

  handle_roster_presence-spec :
      (item : RosterItem) (resource : Str) (presence : PresenceType) (msg : Str)
      → observe (Listener.handle_roster_presence item resource presence msg w)
        ≡ spec_callback (Callback.handle_roster_presence item resource presence msg) (view w)
  unfolding Listener.handle_roster_presence signals
  handle_roster_presence-spec item resource presence msg =
      rw (to_delegate_wired wired (Client.handle_roster_presence item resource presence msg))
        (elim (Option-cases (find item.jid_jid.username w.client.roster)) [
          | inl missing ↦
              ap observe (missing_undefined item resource presence msg w missing)
              ∙ sym (spec_missing item resource presence msg (view w) missing)
          | inr (p, found) ↦
              let (r, es, find_lem) =
                handle_roster_presence_found item resource presence msg w found in
              observed r
                (view_same (handle_roster_presence-SameButRoster item resource presence msg w)
                  find_lem)
                (ap signals es)
              ∙ sym (spec_found item resource presence msg (view w) found)
        ])

module _ (jid_of : Str → Jid) {w : World} (wired : IsWired w) where
  perform-spec_callback :
      (c : Callback) → observe (perform jid_of (Turn.callback c) w) ≡ spec_callback c (view w)
  unfolding perform deliver signals spec_callback Listener.on_connect Listener.on_tls_connect
      Listener.handle_message_event Listener.handle_chat_state Listener.handle_message_session
      Listener.handle_log Delegate.on_tls_connect
  perform-spec_callback Callback.on_connect = ground arith
  perform-spec_callback (Callback.on_tls_connect info) = ground arith
  perform-spec_callback (Callback.handle_message msg sess) =
      rw perform-void (handle_message-spec wired msg sess)
  perform-spec_callback (Callback.handle_message_session s) = ground arith
  perform-spec_callback (Callback.handle_log l a m) = ground arith
  perform-spec_callback (Callback.handle_roster items) =
      ap observe (perform-void (Listener.handle_roster items) w) ∙ handle_roster-spec wired items
  perform-spec_callback (Callback.handle_roster_presence item resource presence msg) =
      ap observe (perform-void (Listener.handle_roster_presence item resource presence msg) w)
      ∙ handle_roster_presence-spec wired item resource presence msg
  perform-spec_callback (Callback.on_disconnect e) =
      ap observe (perform-void (Listener.on_disconnect e) w) ∙ on_disconnect-spec wired e
  perform-spec_callback _ = refl

  perform-spec_request :
      (r : Request) → observe (perform jid_of (Turn.ask r) w) ≡ spec_request r (view w)
  unfolding perform request signals spec_request Api.connect Api.send_message Listener.setup
      Listener.send_message
  perform-spec_request (Request.connect user server) = ground arith
  perform-spec_request (Request.send_message recipient message subject) = ground arith

  pub perform-spec_turn : (t : Turn) → observe (perform jid_of t w) ≡ spec_turn t (view w)
  unfolding spec_turn
  perform-spec_turn (Turn.callback c) = perform-spec_callback c
  perform-spec_turn (Turn.ask r) = perform-spec_request r

observe-settle :
    (k : Action (Unit {0})) (r : Outcome (Unit {0})) (w' : World) (es : List Effect) (w : World)
    → observe (((λ _. (r, w', es)) >> k) w)
      ≡ and_then (r, view w', signals es) (λ _. observe (k w'))
observe-settle k (done a) w' es w = observed refl refl (signals-append es (k w').2)
observe-settle k (Outcome.threw x) w' es w = refl
observe-settle k Outcome.undefined w' es w = refl
observe-settle k Outcome.terminated w' es w = refl

observe-bind :
    (m : Action (Unit {0})) (k : Action (Unit {0})) (w : World)
    → observe ((m >> k) w) ≡ and_then (observe (m w)) (λ _. observe (k (m w).1))
observe-bind m k w = observe-settle k (m w).0 (m w).1 (m w).2 w

and_then-view : (o : Observed) (f : View → Observed) → and_then o (λ _. f o.1) ≡ and_then o f
and_then-view (done a, v, ss) f = refl
and_then-view (Outcome.threw x, v, ss) f = refl
and_then-view (Outcome.undefined, v, ss) f = refl
and_then-view (Outcome.terminated, v, ss) f = refl

-- Whatever gloox calls back and whatever the application calls, in any order: the wrapper ends as
-- the specification says, with the same view and the same signals in the same order.
pub perform_all-spec_all :
    (jid_of : Str → Jid) (ts : List Turn) (w : World)
    → IsWired w
    → observe (perform_all jid_of ts w) ≡ spec_all ts (view w)
unfolding perform_all spec_all signals
perform_all-spec_all jid_of [] w wired = refl
perform_all-spec_all jid_of (t ∷ ts) w wired =
    observe-bind (perform jid_of t) (perform_all jid_of ts) w
    ∙ ap (λ o. and_then (observe (perform jid_of t w)) (λ _. o))
        (perform_all-spec_all jid_of ts (perform jid_of t w).1 (perform-IsWired jid_of t w wired))
    ∙ and_then-view (observe (perform jid_of t w)) (spec_all ts)
    ∙ ap (λ o. and_then o (spec_all ts)) (perform-spec_turn jid_of wired t)
