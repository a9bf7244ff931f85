-- ===== src/System/Concurrent/Steps.antt =====
-- The two threads step by step. The application's calls `connect` and `sendMessage`, one after the
-- other; the listener's runs callbacks, each in two halves, also across the ends of calls.
pub mod Coarsely
pub mod Moves
pub mod Pending
pub mod Whole
pub mod Onward
pub mod Verdict
pub mod Settling
pub mod Unique
use cinder_xmpp.Prelude.{
  ◌≡◌, Str, is_empty, Bool, true, false, ◌||◌, Option, none, some, List, [], ◌∷◌, ◌++◌,
}
use cinder_xmpp.Gloox.{Jid}
use cinder_xmpp.World.{World, Effect, Thread, done}
use cinder_xmpp.System.{Callback, Request}
use cinder_xmpp.System.Interleaving.{Sending, addressing, answered, is_over, advance}
use cinder_xmpp.System.Interleaving.Halves.{noted, rest}
use cinder_xmpp.System.Concurrent.{dial, store}

-- Where the application's thread is: between calls, in `sendMessage`, or in `connect` with the new
-- thread started and not yet stored.
pub data Task : Type 0 where
  idle : Task
  sending : Str → Str → Str → Sending → Task
  storing : Str → Str → Thread → Task

module _ (jid_of : Str → Jid) where
  -- What is reached from `w`: the calls that have ended with their answers, the callbacks that have
  -- ended, the one in its second half, where the application's thread is, and all effects. `setup`
  -- runs while no callback is half done: there is no other thread when it is first called, and the
  -- next one ends the process.
  pub data Steps (w : World)
      : List (Request × Bool)
        → List Callback
        → Option Callback
        → Task
        → World
        → List Effect
        → Type 0 where
    start : Steps w [] [] none Task.idle w []
    begin :
        {rs : List (Request × Bool)} {cs : List Callback} {p : Option Callback} {k : Task}
        {w' : World} {es : List Effect} (c : Callback)
        → Steps w rs cs p k w' es
        → p ≡ none
        → Steps w rs cs (some c) k (noted c w') es
    finish :
        {rs : List (Request × Bool)} {cs : List Callback} {p : Option Callback} {k : Task}
        {w' : World} {es : List Effect} (c : Callback) {b : Option Bool}
        → Steps w rs cs p k w' es
        → p ≡ some c
        → (rest c w').0 ≡ done b
        → Steps w rs (cs ++ c ∷ []) none k (rest c w').1 (es ++ (rest c w').2)
    call_send_message :
        {rs : List (Request × Bool)} {cs : List Callback} {p : Option Callback} {w' : World}
        {es : List Effect} (recipient message subject : Str)
        → Steps w rs cs p Task.idle w' es
        → Steps w rs cs p (Task.sending recipient message subject addressing) w' es
    step :
        {rs : List (Request × Bool)} {cs : List Callback} {p : Option Callback} {w' : World}
        {es : List Effect} (recipient message subject : Str) (s : Sending)
        → Steps w rs cs p (Task.sending recipient message subject s) w' es
        → is_over s ≡ false
        → Steps w rs cs p
            (Task.sending recipient message subject
              (advance jid_of recipient message subject s w').0)
            w'
            (es ++ (advance jid_of recipient message subject s w').1)
    answer :
        {rs : List (Request × Bool)} {cs : List Callback} {p : Option Callback} {w' : World}
        {es : List Effect} (recipient message subject : Str) (b : Bool)
        → Steps w rs cs p (Task.sending recipient message subject (answered b)) w' es
        → Steps w
            (rs ++ (Request.send_message recipient message subject, b) ∷ [])
            cs
            p
            Task.idle
            w'
            es
    refuse :
        {rs : List (Request × Bool)} {cs : List Callback} {p : Option Callback} {w' : World}
        {es : List Effect} (user server : Str)
        → Steps w rs cs p Task.idle w' es
        → (is_empty user || is_empty server) ≡ true
        → Steps w (rs ++ (Request.connect user server, false) ∷ []) cs p Task.idle w' es
    dialling :
        {rs : List (Request × Bool)} {cs : List Callback} {p : Option Callback} {w' : World}
        {es : List Effect} (user server : Str) {t : Thread} {v : World} {fs : List Effect}
        → Steps w rs cs p Task.idle w' es
        → p ≡ none
        → (is_empty user || is_empty server) ≡ false
        → dial jid_of user server w' ≡ (done t, v, fs)
        → Steps w rs cs none (Task.storing user server t) v (es ++ fs)
    stored :
        {rs : List (Request × Bool)} {cs : List Callback} {p : Option Callback} {w' : World}
        {es : List Effect} (user server : Str) (t : Thread) {b : Bool} {v : World}
        {hs : List Effect}
        → Steps w rs cs p (Task.storing user server t) w' es
        → store t w' ≡ (done b, v, hs)
        → Steps w (rs ++ (Request.connect user server, b) ∷ []) cs p Task.idle v (es ++ hs)
