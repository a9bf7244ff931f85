-- ===== src/System/Concurrent/Storing.antt =====
-- `mListenerThread` is the application's thread's alone: the callbacks that run before `connect` stores
-- the new thread might as well run after it.
use cinder_xmpp.Prelude.{
  is_empty, ◌||◌, sym, ◌≡◌, refl, ap, ◌∙◌, Str, Bool, true, false, Option, none, some, List, [],
  ◌∷◌, ◌++◌, map, arith, append-nil,
}
use cinder_xmpp.Gloox.{Jid}
use cinder_xmpp.World.{
  World, pure, ◌>>=◌, Effect, Thread, Action, done, threw, undefined, terminated,
}
use cinder_xmpp.World.Laws.{Run, resume, >>=-done}
use cinder_xmpp.Client.Delegate
use cinder_xmpp.Client.Api
use cinder_xmpp.Listener
use cinder_xmpp.System.{Callback, deliver, Request, Turn, request, perform, perform_all}
use cinder_xmpp.System.Interleaving.Quiet.{ran-Kept, perform_all-join, perform_all-ask}
use cinder_xmpp.System.Concurrent.{dial, store}

abbrev pub with_thread : Option Thread → World → World
with_thread t w = record w { client = record w.client { thread = t } }

-- The same run from a world with another thread.
abbrev pub Unthreaded : {A : Type 0} → Action A → Type 0
Unthreaded m =
    (t : Option Thread) (w : World)
    → m (with_thread t w) ≡ ((m w).0, with_thread t (m w).1, (m w).2)

pub deliver-Unthreaded : (c : Callback) → Unthreaded (deliver c)
unfolding deliver Listener.on_connect Listener.on_disconnect Listener.on_tls_connect
    Listener.handle_message Listener.handle_message_event Listener.handle_chat_state
    Listener.handle_message_session Listener.handle_roster Listener.handle_roster_presence
    Listener.handle_log Delegate.on_disconnect Delegate.on_tls_connect Delegate.handle_message
    Delegate.handle_roster Delegate.handle_roster_presence
deliver-Unthreaded Callback.on_connect t w = ground arith
deliver-Unthreaded (Callback.on_disconnect e) t w = ground arith
deliver-Unthreaded (Callback.on_tls_connect info) t w = ground arith
deliver-Unthreaded (Callback.handle_message msg none) t w = ground arith
deliver-Unthreaded (Callback.handle_message msg (some s)) t w = ground arith
deliver-Unthreaded (Callback.handle_message_session s) t w = ground arith
deliver-Unthreaded (Callback.handle_roster items) t w = ground arith
deliver-Unthreaded (Callback.handle_roster_presence item resource presence msg) t w = ground arith
deliver-Unthreaded _ t w = ground arith

resume-Unthreaded :
    {A B : Type 0} (k : Action B) (r : Run A) (t : Option Thread)
    → Unthreaded k
    → let (s, v, es) = resume r (λ _. k) in
      resume (r.0, with_thread t r.1, r.2) (λ _. k) ≡ (s, with_thread t v, es)
resume-Unthreaded {B = B} k (done a, w, es) t h =
    ap {B = Run B} (λ (r : Run B). (r.0, r.1, es ++ r.2)) (h t w)
resume-Unthreaded k (threw x, w, es) t h = refl
resume-Unthreaded k (undefined, w, es) t h = refl
resume-Unthreaded k (terminated, w, es) t h = refl

-- An assignment that ended well did nothing else.
pub store-done :
    (t : Thread) (w : World) {b : Bool} {w' : World} {es : List Effect}
    → store t w ≡ (done b, w', es)
    → (b ≡ true) × (w' ≡ with_thread (some t) w) × (es ≡ [])
unfolding store
store-done t w h = ground arith

pub store-same :
    (t : Thread) (w v : World) {b : Bool} {w' : World} {es : List Effect}
    → store t w ≡ (done b, w', es)
    → w.client.thread ≡ v.client.thread
    → store t v ≡ (done true, with_thread (some t) v, [])
unfolding store
store-same t w v h e = ground arith

module _ (jid_of : Str → Jid) where
  perform-Unthreaded : (c : Callback) → Unthreaded (perform jid_of (Turn.callback c))
  unfolding perform
  perform-Unthreaded c t w =
      ap (λ r. resume r (λ _. pure tt)) (deliver-Unthreaded c t w)
      ∙ resume-Unthreaded (pure tt) (deliver c w) t (λ t w. refl)

  callbacks-Unthreaded :
      (cs : List Callback) → Unthreaded (perform_all jid_of (map Turn.callback cs))
  unfolding perform_all
  callbacks-Unthreaded [] t w = refl
  callbacks-Unthreaded (c ∷ cs) t w =
      ap (λ r. resume r (λ _. perform_all jid_of (map Turn.callback cs))) (perform-Unthreaded c t w)
      ∙ resume-Unthreaded (perform_all jid_of (map Turn.callback cs))
          (perform jid_of (Turn.callback c) w) t (callbacks-Unthreaded cs)

  connect-dial :
      (user server : Str) (w : World)
      → (is_empty user || is_empty server) ≡ false
      → Api.connect jid_of user server w ≡ (dial jid_of user server >>= store) w
  unfolding Api.connect dial store Listener.setup
  connect-dial user server w h = ground arith

  module _ (user server : Str) (meanwhile : List Callback) (t : Thread) (w v v' : World)
      {w' : World} {b : Bool} {fs gs hs : List Effect}
      (given : (is_empty user || is_empty server) ≡ false)
      (dialled : dial jid_of user server w ≡ (done t, v, fs))
      (ran : perform_all jid_of (map Turn.callback meanwhile) v ≡ (done tt, v', gs))
      (stored : store t v' ≡ (done b, w', hs)) where
    pub connect-stored : Api.connect jid_of user server w ≡ (done true, with_thread (some t) v, fs)
    connect-stored =
        connect-dial user server w given
        ∙ >>=-done (dial jid_of user server) store w dialled
        ∙ ap {B = Run Bool} (λ (r : Run Bool). (r.0, r.1, fs ++ r.2))
            (store-same t v' v stored (ran-Kept jid_of meanwhile v ran).thread)
        ∙ (λ i. (done true, with_thread (some t) v, append-nil fs i))

    meanwhile_after :
        perform_all jid_of (map Turn.callback meanwhile) (with_thread (some t) v)
        ≡ (done tt, with_thread (some t) v', gs)
    meanwhile_after =
        callbacks-Unthreaded meanwhile (some t) v
        ∙ ap {B = Run (Unit {0})} (λ (r : Run (Unit {0})). (r.0, with_thread (some t) r.1, r.2)) ran

    -- `connect` as if it had been whole, and then the callbacks.
    pub connect-first :
        perform_all jid_of (Turn.ask (Request.connect user server) ∷ map Turn.callback meanwhile) w
        ≡ (done tt, w', fs ++ (gs ++ hs))
    unfolding request
    connect-first =
        let (answer, same, nothing) = store-done t v' stored in
        perform_all-join jid_of (Turn.ask (Request.connect user server) ∷ [])
          (map Turn.callback meanwhile) w
          (perform_all-ask jid_of (Request.connect user server) w connect-stored) meanwhile_after
        ∙ (λ i. (done tt, sym same i, fs ++ sym (ap (λ es. gs ++ es) nothing ∙ append-nil gs) i))
