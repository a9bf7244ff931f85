-- ===== src/System/Overriding/Survival.antt =====
-- Subclasses that keep the process alive: what an overriding function has to avoid.
pub mod Turns
pub mod Threads
use cinder_xmpp.Prelude.{
  ◌≡◌, refl, ap, sym, ◌∙◌, ◌<◌, Str, Bool, true, false, Option, none, some, List, [], ◌∷◌, ◌++◌,
  map, arith, not, ◌||◌, ◌==◌, is_empty,
}
use mathlib.Core.Path.{subst}
use mathlib.Core.Option.{get_or}
use cinder_xmpp.UnorderedMap.{find}
use cinder_xmpp.Peer.{default_peer}
use cinder_xmpp.Gloox.{Jid, null}
use cinder_xmpp.World.{
  World, Effect, Signal, Exception, throw, Outcome, done, threw, undefined, terminated, Action,
  ◌>>=◌, ◌>>◌, pure, Slots, raise_signal,
}
use cinder_xmpp.World.Laws.{resume}
use cinder_xmpp.Client.Delegate
use cinder_xmpp.Client.Delegate.{exception_of, add_items}
use cinder_xmpp.Client.Api
use cinder_xmpp.Listener
use cinder_xmpp.System.{Request, request, Turn, perform, perform_all}
use cinder_xmpp.System.Slots.{replying}
use cinder_xmpp.System.Overriding.{Handling, Body, Overriding, handle, execute}

-- The functions of `XmppClient` that return: `onDisconnect` for no error, `handleMessage` with a session;
-- `handleRosterPresence` may read through the end of the roster.
abbrev pub IsSafe : Handling → Type 0
IsSafe (Handling.on_disconnect e) = exception_of e ≡ none
IsSafe (Handling.handle_message msg none) = ⊥
IsSafe (Handling.handle_roster_presence item resource presence msg) = ⊥
IsSafe _ = Unit

abbrev pub IsSending : Request → Type 0
IsSending (Request.connect user server) = ⊥
IsSending (Request.send_message recipient message subject) = Unit

abbrev pub AreSending : List Request → Type 0
AreSending [] = Unit
AreSending (r ∷ rs) = IsSending r × AreSending rs

-- A body that does not throw, does not connect, and inherits nothing but what returns.
abbrev pub IsCalm : Body → Type 0
IsCalm Body.finished = Unit
IsCalm (Body.throws x) = ⊥
IsCalm (Body.asks r k) = IsSending r × ((b : Bool) → IsCalm (k b))
IsCalm (Body.reads_connected k) = (b : Bool) → IsCalm (k b)
IsCalm (Body.raises s k) = IsCalm k
IsCalm (Body.inherits h k) = IsSafe h × IsCalm k

abbrev pub Returns : Action (Unit {0}) → Type 0
Returns m = (w : World) → (m w).0 ≡ done tt

pub resume-done :
    {A B : Type 0} (k : A → Action B) (r : Outcome A) (w : World) (es : List Effect) {a : A} {b : B}
    → r ≡ done a
    → (k a w).0 ≡ done b
    → (resume (r, w, es) k).0 ≡ done b
resume-done {A} {B} k r w es {b = b} e h =
    subst (λ (o : Outcome A). (resume (o, w, es) k).0 ≡ done b) (sym e) h

>>-Returns : (m k : Action (Unit {0})) → Returns m → Returns k → Returns (m >> k)
>>-Returns m k h f w = resume-done (λ _. k) (m w).0 (m w).1 (m w).2 (h w) (f (m w).1)

pub sends :
    (jid_of : Str → Jid) (r : Request) (w : World)
    → IsSending r
    → (b : Bool) × ((request jid_of r w).0 ≡ done b)
unfolding request Api.send_message Listener.send_message
sends jid_of (Request.connect user server) w h = elim h [ ]
sends jid_of (Request.send_message recipient message subject) w h = (
  not (
      (not w.client.listener.is_connected || is_empty message) || w.client.listener.client == null),
  ground arith,
)

module _ (jid_of : Str → Jid) where
  all_sends : (rs : List Request) → AreSending rs → Returns (perform_all jid_of (map Turn.ask rs))
  unfolding perform_all perform
  all_sends [] h w = refl
  all_sends (r ∷ rs) (h, hs) w =
      let (a, v, es) = perform jid_of (Turn.ask r) w in
      let (b, sent) = sends jid_of r w h in
      resume-done (λ _. perform_all jid_of (map Turn.ask rs)) a v es
        (resume-done (λ _. pure tt) (request jid_of r w).0 (request jid_of r w).1
          (request jid_of r w).2 sent refl)
        (all_sends rs hs v)

  module _ (replies : Signal → Bool → List Request)
      (quiet : (s : Signal) (b : Bool) → AreSending (replies s b)) where
    raise_signal-Returns : (s : Signal) → Returns (raise_signal (replying jid_of replies) s)
    raise_signal-Returns s w = let b = Api.is_connected w in all_sends (replies s b) (quiet s b) w

    thrown-Returns :
        (thrown : Option Exception)
        → thrown ≡ none
        → Returns (elim thrown [
          | none ↦ raise_signal (replying jid_of replies) Signal.disconnected
          | some x ↦ throw x
        ])
    thrown-Returns none fine = raise_signal-Returns Signal.disconnected
    thrown-Returns (some x) fine = cc

    handle-Returns : (h : Handling) → IsSafe h → Returns (handle (replying jid_of replies) h)
    unfolding handle Delegate.on_connect Delegate.on_disconnect Delegate.on_tls_connect
        Delegate.handle_message Delegate.handle_roster
    handle-Returns Handling.on_connect safe w = raise_signal-Returns Signal.connected w
    handle-Returns (Handling.on_disconnect e) safe w = thrown-Returns (exception_of e) safe w
    handle-Returns (Handling.on_tls_connect info) safe w =
        raise_signal-Returns Signal.tls_connected w
    handle-Returns (Handling.handle_message msg none) safe w = elim safe [ ]
    handle-Returns (Handling.handle_message msg (some s)) safe w =
        let peer = get_or (find s.target.username w.client.roster) default_peer in
        raise_signal-Returns (Signal.message peer msg.subject msg.body) w
    handle-Returns (Handling.handle_roster items) safe w =
        let (peers, userlist) = add_items items [] [] in
        raise_signal-Returns (Signal.roster userlist)
          (record w { client = record w.client { roster = peers } })
    handle-Returns (Handling.handle_roster_presence item resource presence msg) safe w =
        elim safe [ ]

    -- A calm body returns, whatever it finds.
    pub execute-Returns :
        (b : Body) → IsCalm b → Returns (execute jid_of (replying jid_of replies) b)
    unfolding execute
    execute-Returns Body.finished calm w = refl
    execute-Returns (Body.throws x) calm w = elim calm [ ]
    execute-Returns (Body.asks r k) (sending, calm) w =
        let (a, v, es) = request jid_of r w in
        let (b, sent) = sends jid_of r w sending in
        resume-done (λ b. execute jid_of (replying jid_of replies) (k b)) a v es sent
          (execute-Returns (k b) (calm b) v)
    execute-Returns (Body.reads_connected k) calm w =
        let b = Api.is_connected w in execute-Returns (k b) (calm b) w
    execute-Returns (Body.raises s k) calm w =
        >>-Returns (raise_signal (replying jid_of replies) s)
          (execute jid_of (replying jid_of replies) k) (raise_signal-Returns s)
          (execute-Returns k calm) w
    execute-Returns (Body.inherits h k) (safe, calm) w =
        >>-Returns (handle (replying jid_of replies) h) (execute jid_of (replying jid_of replies) k)
          (handle-Returns h safe) (execute-Returns k calm) w
