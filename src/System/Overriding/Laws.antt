-- ===== src/System/Overriding/Laws.antt =====
-- What every overriding function does to the client: any relation of runs that its parts have.
use cinder_xmpp.Prelude.{
  Str, Option, none, some, List, [], ◌∷◌, ◌==◌, Bool-cases, Option-cases, inl, inr, if◌then◌else◌,
  is_some,
}
use cinder_xmpp.UnorderedMap.{find, modify}
use cinder_xmpp.Gloox.{Jid, Roster, null}
use cinder_xmpp.Peer.{Status, default_peer, set_status, presence_to_status}
use cinder_xmpp.World.{
  World, Effect, Exception, Signal, Outcome, done, threw, undefined, terminated, Action, ◌>>=◌,
  ◌>>◌, pure, throw, gets, emit, dereference, put_roster, Slots, raise_signal,
}
use cinder_xmpp.World
use cinder_xmpp.World.Relations.{Sequential, Holds, >>=-Holds}
use mathlib.Core.Option.{get_or}
use cinder_xmpp.Client.Delegate
use cinder_xmpp.Client.Delegate.{exception_of, add_items}
use cinder_xmpp.Client.Api
use cinder_xmpp.Listener.{to_delegate}
use cinder_xmpp.System.{Request, request}
use cinder_xmpp.System.Overriding.{Handling, Body, handle, execute}

-- A relation that also has the writes that the handlers make to the roster, and a raised signal.
pub record Composes (R : World → World → List Effect → Type 0) : Type 0 where
  pub runs : Sequential R
  pub filled : (items : Roster) (w : World) → R w (put_roster (add_items items [] []).0 w).1 []
  pub changed :
      (name : Str) (status : Status) (w : World)
      → R w (put_roster (modify name (set_status status) w.client.roster) w).1 []
  pub raised : (s : Signal) (w : World) → R w w (World.signal s ∷ [])

module _ (R : World → World → List Effect → Type 0) (laws : Composes R) where
  pub to_delegate-Holds : (m : Action (Unit {0})) → Holds R m → Holds R (to_delegate m)
  to_delegate-Holds m h w = elim (Bool-cases (w.client.listener.delegate == null)) [
    | inl none_there ↦ rw none_there (laws.runs.nothing w)
    | inr some_there ↦ rw some_there (elim (Bool-cases (w.client.listener.delegate == w.self)) [
      | inl attached ↦ rw attached (h w)
      | inr dangling ↦ rw dangling (laws.runs.nothing w)
    ])
  ]

  module _ (slots : Slots) (slots_hold : (s : Signal) → Holds R (slots s)) where
    pub raise_signal-Holds : (s : Signal) → Holds R (raise_signal slots s)
    raise_signal-Holds s =
        >>=-Holds R laws.runs (emit (World.signal s)) (λ _. slots s) (laws.raised s)
          (λ _. slots_hold s)

    thrown-Holds :
        (thrown : Option Exception)
        → Holds R {A = Unit {0}}
            (elim thrown [ none ↦ raise_signal slots Signal.disconnected | some x ↦ throw x ])
    thrown-Holds none = raise_signal-Holds Signal.disconnected
    thrown-Holds (some x) = laws.runs.nothing

    -- The functions of `XmppClient` itself.
    pub handle-Holds : (h : Handling) → Holds R (handle slots h)
    unfolding handle Delegate.on_connect Delegate.on_disconnect Delegate.on_tls_connect
        Delegate.handle_message Delegate.handle_roster Delegate.handle_roster_presence add_items
    handle-Holds Handling.on_connect w = raise_signal-Holds Signal.connected w
    handle-Holds (Handling.on_disconnect e) w = thrown-Holds (exception_of e) w
    handle-Holds (Handling.on_tls_connect info) w = raise_signal-Holds Signal.tls_connected w
    handle-Holds (Handling.handle_message msg none) w = laws.runs.nothing w
    handle-Holds (Handling.handle_message msg (some s)) w =
        let peer = get_or (find s.target.username w.client.roster) default_peer in
        raise_signal-Holds (Signal.message peer msg.subject msg.body) w
    handle-Holds (Handling.handle_roster items) w =
        let (peers, userlist) = add_items items [] [] in
        let tell = raise_signal slots (Signal.roster userlist) in
        >>=-Holds R laws.runs (put_roster []) (λ _. put_roster peers >> tell) (laws.filled [])
          (λ _.
            >>=-Holds R laws.runs (put_roster peers) (λ _. tell) (laws.filled items)
              (λ _. raise_signal-Holds (Signal.roster userlist)))
          w
    handle-Holds (Handling.handle_roster_presence item resource presence msg) w =
        let name = item.jid_jid.username in
        let status = presence_to_status presence in
        let tell : Action (Unit {0}) = λ v.
          (dereference (find name v.client.roster) >>= λ p.
          raise_signal slots (Signal.roster_presence p resource status msg))
            v in
        let write : Action (Unit {0}) = λ v.
          (if is_some (find name v.client.roster)
              then put_roster (modify name (set_status status) v.client.roster)
              else pure tt)
            v in
        >>=-Holds R laws.runs write (λ _. tell)
          (λ v. elim (Bool-cases (is_some (find name v.client.roster))) [
            | inl there ↦ rw there (laws.changed name status v)
            | inr missing ↦ rw missing (laws.runs.nothing v)
          ])
          (λ _ v. elim (Option-cases (find name v.client.roster)) [
            | inl missing ↦ rw missing (laws.runs.nothing v)
            | inr (p, found) ↦
                rw found (raise_signal-Holds (Signal.roster_presence p resource status msg) v)
          ])
          w

    -- Whatever an overriding function does.
    pub execute-Holds :
        (jid_of : Str → Jid)
        → ((r : Request) → Holds R (request jid_of r))
        → (b : Body) → Holds R (execute jid_of slots b)
    unfolding execute
    execute-Holds jid_of requests Body.finished w = laws.runs.nothing w
    execute-Holds jid_of requests (Body.throws x) w = laws.runs.nothing w
    execute-Holds jid_of requests (Body.asks r k) w =
        >>=-Holds R laws.runs (request jid_of r) (λ b. execute jid_of slots (k b)) (requests r)
          (λ b. execute-Holds jid_of requests (k b)) w
    execute-Holds jid_of requests (Body.reads_connected k) w =
        execute-Holds jid_of requests (k (Api.is_connected w)) w
    execute-Holds jid_of requests (Body.raises s k) w =
        >>=-Holds R laws.runs (raise_signal slots s) (λ _. execute jid_of slots k)
          (raise_signal-Holds s) (λ _. execute-Holds jid_of requests k) w
    execute-Holds jid_of requests (Body.inherits h k) w =
        >>=-Holds R laws.runs (handle slots h) (λ _. execute jid_of slots k) (handle-Holds h)
          (λ _. execute-Holds jid_of requests k) w
