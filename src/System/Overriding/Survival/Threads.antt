-- ===== src/System/Overriding/Survival/Threads.antt =====
-- The thread of a client whose overriding functions are calm.
use cinder_xmpp.Prelude.{
  ◌≡◌, refl, ap, ◌∙◌, Str, Bool, true, false, not, ◌&&◌, ◌==◌, List, [], ◌∷◌, map, arith,
  Bool-cases, inl, inr, if◌then◌else◌,
}
use cinder_xmpp.Gloox.{Jid, null, ConnectionError}
use cinder_xmpp.World.{
  World, Effect, Signal, Outcome, done, threw, undefined, terminated, Action, ◌>>◌, pure, no_throw,
}
use cinder_xmpp.World.Laws.{Run, resume}
use cinder_xmpp.Client.Api
use cinder_xmpp.Listener
use cinder_xmpp.Listener.{is_no_error, Progress, returned}
use cinder_xmpp.System.{Request, Turn}
use cinder_xmpp.System.Receiving.{Script, progress, resume-pure}
use cinder_xmpp.System.Threads.{connection_progress}
use cinder_xmpp.System.Slots.{replying}
use cinder_xmpp.System.Overriding.{Overriding, perform_all_in}
use cinder_xmpp.System.Overriding.Survival.{AreSending, resume-done}
use cinder_xmpp.System.Overriding.Survival.Turns.{
  AreCalm, IsUp, perform_all_in-Staying, perform_all_in-returns,
}

-- What `recv` does each time: the turns that take place meanwhile, and the answer.
abbrev pub ScriptIn : Type 0
ScriptIn = List (List (Overriding × Turn) × ConnectionError)

abbrev pub IsCalmScript : ScriptIn → Type 0
IsCalmScript [] = Unit
IsCalmScript ((ts, ce) ∷ script) = AreCalm ts × IsCalmScript script

-- Without what the overriding functions do.
abbrev pub plain : ScriptIn → Script
plain script =
    map (λ (s : List (Overriding × Turn) × ConnectionError). (map (λ t. t.1) s.0, s.1)) script

guarded :
    (r : Outcome Progress) (w : World) (es : List Effect) {p : Progress}
    → r ≡ done p
    → (no_throw (λ _. (r, w, es)) w).0 ≡ done p
guarded (done a) w es e = e
guarded (threw x) w es e = cc
guarded undefined w es e = cc
guarded terminated w es e = cc

module _ (jid_of : Str → Jid) (replies : Signal → Bool → List Request) where
  abbrev pub answer_in : {A : Type 0} → List (Overriding × Turn) × A → Action A
  answer_in (ts, a) = do perform_all_in jid_of (replying jid_of replies) ts; pure a

  module _ (quiet : (s : Signal) (b : Bool) → AreSending (replies s b)) where
    -- After calm turns and an answer.
    answered :
        {A : Type 0} (ts : List (Overriding × Turn)) (a : A) (f : A → Action Progress) (w : World)
        {p : Progress}
        → IsUp w
        → AreCalm ts
        → (f a (perform_all_in jid_of (replying jid_of replies) ts w).1).0 ≡ done p
        → (resume (answer_in (ts, a) w) f).0 ≡ done p
    answered ts a f w up calm h =
        let (r, v, es) = perform_all_in jid_of (replying jid_of replies) ts w in
        ap (λ (t : Run Progress). t.0) (resume-pure f a r v es)
        ∙ resume-done (λ _. f a) r v es (perform_all_in-returns jid_of replies quiet ts w up calm) h

    recv_loop-returns :
        (script : ScriptIn) (w : World)
        → IsUp w
        → IsCalmScript script
        → (Listener.recv_loop (map answer_in script) w).0 ≡ done (progress (plain script))
    unfolding Listener.recv_loop progress
    recv_loop-returns [] w (wired, c) calm = ground arith
    recv_loop-returns ((ts, ce) ∷ script) w up (calm, calms) =
        let some_client : (w.client.listener.client == null) ≡ false = ground (arith, up.1) in
        let next : Action Progress = Listener.recv_loop (map answer_in script) in
        let v = (perform_all_in jid_of (replying jid_of replies) ts w).1 in
        let later =
          recv_loop-returns script v (perform_all_in-Staying jid_of replies ts w up) calms in
        rw some_client (
          answered ts ce (λ ce. if is_no_error ce then next else pure returned) w up calm
            (elim (Bool-cases (is_no_error ce)) [
              | inl ok ↦ rw ok later
              | inr failed ↦ rw failed refl
            ]))

    open_connection-returns :
        (toggle : Bool) (ts : List (Overriding × Turn)) (accepted : Bool) (script : ScriptIn)
        (w : World)
        → IsUp w
        → w.client.listener.is_connected ≡ false
        → AreCalm ts
        → IsCalmScript script
        → (Listener.open_connection toggle (answer_in (ts, accepted)) (map answer_in script) w).0
          ≡ done (connection_progress accepted (plain script))
    unfolding Listener.open_connection connection_progress
    open_connection-returns toggle ts accepted script w up down calm calms =
        let idle : (not w.client.listener.is_connected && not (w.client.listener.client == null))
            ≡ true =
          ground (arith, up.1) in
        let loop : Action Progress = Listener.recv_loop (map answer_in script) in
        let v = (perform_all_in jid_of (replying jid_of replies) ts w).1 in
        let later =
          recv_loop-returns script v (perform_all_in-Staying jid_of replies ts w up) calms in
        rw idle (
          answered ts accepted (λ ok. if ok then loop else pure returned) w up calm
            (elim (Bool-cases accepted) [ inl ok ↦ rw ok later | inr refused ↦ rw refused refl ]))

    -- A subclass whose overriding functions neither throw nor connect and inherit only what returns, with
    -- slots that send messages at most: the thread, started in a wired client that has a gloox client and
    -- is not connected, never ends the process, if the application does not connect meanwhile and gloox
    -- gives no null session. `openConnection` returns as soon as `connect` refuses or an answer of `recv`
    -- is an error, and is still in `recv` while there was none, whatever error a disconnect reports.
    pub run_thread-survives :
        (toggle : Bool) (ts : List (Overriding × Turn)) (accepted : Bool) (script : ScriptIn)
        (w : World)
        → IsUp w
        → w.client.listener.is_connected ≡ false
        → AreCalm ts
        → IsCalmScript script
        → (Api.run_thread
            (record { joinable = true; toggle = toggle })
            (answer_in (ts, accepted))
            (map answer_in script)
            w).0
          ≡ done (connection_progress accepted (plain script))
    unfolding Api.run_thread connection_progress
    run_thread-survives toggle ts accepted script w up down calm calms =
        let ends = open_connection-returns toggle ts accepted script w up down calm calms in
        let (r, v, es) =
          Listener.open_connection toggle (answer_in (ts, accepted)) (map answer_in script) w in
        guarded r v es ends
