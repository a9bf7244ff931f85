-- ===== src/System/Interleaving/Quiet.antt =====
-- Runs of callbacks alone: what they leave as it is, and that they send nothing.
use cinder_xmpp.Prelude.{
  ◌≡◌, refl, ap, ◌∙◌, Str, Bool, Option, List, [], ◌∷◌, ◌++◌, map, arith, append-nil,
}
use mathlib.Core.Path.{subst}
use cinder_xmpp.Gloox.{Jid, Call}
use cinder_xmpp.World.{World, Effect, Action, call, done, threw, undefined, terminated, Outcome}
use cinder_xmpp.World.Laws.{Run, resume, >>=-done}
use cinder_xmpp.System.{Callback, deliver, Request, Turn, request, perform, perform_all}
use cinder_xmpp.System.Wiring.{perform_all-append, deliver-SameWires}
use cinder_xmpp.System.Interleaving.Sent.{sent, sent-append, deliver-sent}

-- The effects but for the messages that are handed to gloox: those of the listener's thread, as it
-- sends nothing.
unfoldable pub unsent : List Effect → List Effect
unsent [] = []
unsent (call (Call.send c msg) ∷ es) = unsent es
unsent (e ∷ es) = e ∷ unsent es

pub unsent-append : (es fs : List Effect) → unsent (es ++ fs) ≡ unsent es ++ unsent fs
unfolding unsent
unsent-append [] fs = refl
unsent-append (call (Call.send c msg) ∷ es) fs = unsent-append es fs
unsent-append (Effect.call c ∷ es) fs = ap (◌∷◌ (call c)) (unsent-append es fs)
unsent-append (e ∷ es) fs = ap (◌∷◌ e) (unsent-append es fs)

-- What callbacks leave alone.
pub record Kept (w w' : World) (es : List Effect) : Type 0 where
  pub client : w'.client.listener.client ≡ w.client.listener.client
  pub server : w'.client.listener.server ≡ w.client.listener.server
  pub thread : w'.client.thread ≡ w.client.thread
  pub silent : sent es ≡ []

Kept-append :
    {w v u : World} (es fs : List Effect) → Kept w v es → Kept v u fs → Kept w u (es ++ fs)
Kept-append es fs p q = ground (arith, sent-append es fs)

module _ (jid_of : Str → Jid) where
  -- Two rounds of turns that end well.
  pub perform_all-join :
      (ts us : List Turn) (w : World) {w' w'' : World} {es fs : List Effect}
      {r : Outcome (Unit {0})}
      → perform_all jid_of ts w ≡ (done tt, w', es)
      → perform_all jid_of us w' ≡ (r, w'', fs)
      → perform_all jid_of (ts ++ us) w ≡ (r, w'', es ++ fs)
  perform_all-join ts us w {es = es} h k =
      ap (λ m. m w) (perform_all-append jid_of ts us)
      ∙ >>=-done (perform_all jid_of ts) (λ _. perform_all jid_of us) w h
      ∙ ap {B = Run (Unit {0})} (λ (t : Run (Unit {0})). (t.0, t.1, es ++ t.2)) k

  pub perform_all-callback :
      (c : Callback) (w : World) {b : Option Bool}
      → (deliver c w).0 ≡ done b
      → perform_all jid_of (Turn.callback c ∷ []) w ≡ (done tt, (deliver c w).1, (deliver c w).2)
  unfolding perform_all perform
  perform_all-callback c w h =
      ground (arith, append-nil (deliver c w).2, append-nil ((deliver c w).2 ++ []))

  -- What callbacks leave alone.
  pub perform_all-ask :
      (r : Request) (w : World) {w' : World} {b : Bool} {es : List Effect}
      → request jid_of r w ≡ (done b, w', es)
      → perform_all jid_of (Turn.ask r ∷ []) w ≡ (done tt, w', es)
  unfolding perform_all perform
  perform_all-ask r w {es = es} h = ground (arith, append-nil es, append-nil (es ++ []))

  resume-Kept :
      (k : Action (Unit {0})) (r : Outcome (Unit {0})) (w w' : World) (es : List Effect)
      → Kept w w' es
      → Kept w' (k w').1 (k w').2
      → let (s, v, fs) = resume (r, w', es) (λ _. k) in Kept w v fs
  resume-Kept k (done a) w w' es p q = Kept-append es (k w').2 p q
  resume-Kept k (threw x) w w' es p q = p
  resume-Kept k undefined w w' es p q = p
  resume-Kept k terminated w w' es p q = p

  perform-Kept :
      (c : Callback) (w : World)
      → Kept w (perform jid_of (Turn.callback c) w).1 (perform jid_of (Turn.callback c) w).2
  unfolding perform
  perform-Kept c w =
      ground (arith, deliver-SameWires c w, deliver-sent c w, append-nil (deliver c w).2)

  callbacks-Kept :
      (cs : List Callback) (w : World)
      → let (r, w', es) = perform_all jid_of (map Turn.callback cs) w in Kept w w' es
  unfolding perform_all sent
  callbacks-Kept [] w = ground arith
  callbacks-Kept (c ∷ cs) w =
      let (r, w', es) = perform jid_of (Turn.callback c) w in
      resume-Kept (perform_all jid_of (map Turn.callback cs)) r w w' es (perform-Kept c w)
        (callbacks-Kept cs w')

  pub ran-Kept :
      (cs : List Callback) (w : World) {r : Outcome (Unit {0})} {w' : World} {es : List Effect}
      → perform_all jid_of (map Turn.callback cs) w ≡ (r, w', es)
      → Kept w w' es
  ran-Kept cs w h = subst (λ (t : Run (Unit {0})). Kept w t.1 t.2) h (callbacks-Kept cs w)
