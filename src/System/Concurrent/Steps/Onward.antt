-- ===== src/System/Concurrent/Steps/Onward.antt =====
-- The two threads from where they are to rest: the callback and the call that are under way are
-- brought to their ends, and no other is begun.
use cinder_xmpp.Prelude.{
  ◌≡◌, refl, sym, Str, Bool, false, Option, none, some, List, [], ◌∷◌, ◌++◌, append-nil,
  append_assoc,
}
use mathlib.Core.Path.{subst}
use cinder_xmpp.Gloox.{Jid}
use cinder_xmpp.World.{World, Effect, Thread, done}
use cinder_xmpp.System.{Callback, Request}
use cinder_xmpp.System.Interleaving.{Sending, answered, is_over, advance}
use cinder_xmpp.System.Interleaving.Halves.{rest}
use cinder_xmpp.System.Concurrent.{store}
use cinder_xmpp.System.Concurrent.Steps.{Task, Steps}

module _ (jid_of : Str → Jid) where
  -- From a callback in its second half, a call and the members to rest: the calls that end, with their
  -- answers, the callbacks that end, the members then, and the effects on the way.
  pub data Onward
      : Option Callback
        → Task
        → World
        → List (Request × Bool)
        → List Callback
        → World
        → List Effect
        → Type 0 where
    at_rest : {w : World} → Onward none Task.idle w [] [] w []
    finish :
        {k : Task} {w : World} {rs : List (Request × Bool)} {cs : List Callback} {w' : World}
        {es : List Effect} (c : Callback) {b : Option Bool}
        → (rest c w).0 ≡ done b
        → Onward none k (rest c w).1 rs cs w' es
        → Onward (some c) k w rs (c ∷ cs) w' ((rest c w).2 ++ es)
    step :
        {p : Option Callback} {w : World} {rs : List (Request × Bool)} {cs : List Callback}
        {w' : World} {es : List Effect} (recipient message subject : Str) (s : Sending)
        → is_over s ≡ false
        → Onward p
            (Task.sending recipient message subject
              (advance jid_of recipient message subject s w).0)
            w
            rs
            cs
            w'
            es
        → Onward p
            (Task.sending recipient message subject s)
            w
            rs
            cs
            w'
            ((advance jid_of recipient message subject s w).1 ++ es)
    answer :
        {p : Option Callback} {w : World} {rs : List (Request × Bool)} {cs : List Callback}
        {w' : World} {es : List Effect} (recipient message subject : Str) (b : Bool)
        → Onward p Task.idle w rs cs w' es
        → Onward p
            (Task.sending recipient message subject (answered b))
            w
            ((Request.send_message recipient message subject, b) ∷ rs)
            cs
            w'
            es
    stored :
        {p : Option Callback} {w : World} {rs : List (Request × Bool)} {cs : List Callback}
        {w' : World} {es : List Effect} (user server : Str) (t : Thread) {b : Bool} {v : World}
        {fs : List Effect}
        → store t w ≡ (done b, v, fs)
        → Onward p Task.idle v rs cs w' es
        → Onward p
            (Task.storing user server t)
            w
            ((Request.connect user server, b) ∷ rs)
            cs
            w'
            (fs ++ es)

  module _ {w : World} where
    -- What is reached goes on to rest.
    pub Steps-Onward :
        {p : Option Callback} {k : Task} {v : World} {rs' : List (Request × Bool)}
        {cs' : List Callback} {w' : World} {fs : List Effect}
        → Onward p k v rs' cs' w' fs
        → {rs : List (Request × Bool)} {cs : List Callback} {es : List Effect}
        → Steps jid_of w rs cs p k v es
        → Steps jid_of w (rs ++ rs') (cs ++ cs') none Task.idle w' (es ++ fs)
    Steps-Onward (at_rest {w = v}) {rs} {cs} {es} r =
        subst (λ es. Steps jid_of w (rs ++ []) (cs ++ []) none Task.idle v es) (sym (append-nil es))
          (subst (λ cs. Steps jid_of w (rs ++ []) cs none Task.idle v es) (sym (append-nil cs))
            (subst (λ rs. Steps jid_of w rs cs none Task.idle v es) (sym (append-nil rs)) r))
    Steps-Onward (finish {w = v} {rs = rs'} {cs = cs'} {w' = w'} {es = fs} c ends on) {rs} {cs} {es}
          r =
        subst (λ es. Steps jid_of w (rs ++ rs') (cs ++ c ∷ cs') none Task.idle w' es)
          (append_assoc es (rest c v).2 fs)
          (subst
            (λ cs. Steps jid_of w (rs ++ rs') cs none Task.idle w' ((es ++ (rest c v).2) ++ fs))
            (append_assoc cs (c ∷ []) cs') (Steps-Onward on (Steps.finish c r refl ends)))
    Steps-Onward
          (step {w = v} {rs = rs'} {cs = cs'} {w' = w'} {es = fs} recipient message subject s o on)
          {rs} {cs} {es} r =
        subst (λ es. Steps jid_of w (rs ++ rs') (cs ++ cs') none Task.idle w' es)
          (append_assoc es (advance jid_of recipient message subject s v).1 fs)
          (Steps-Onward on (Steps.step recipient message subject s r o))
    Steps-Onward (answer {rs = rs'} {cs = cs'} {w' = w'} {es = fs} recipient message subject b on)
          {rs} {cs} {es} r =
        subst (λ rs. Steps jid_of w rs (cs ++ cs') none Task.idle w' (es ++ fs))
          (append_assoc rs ((Request.send_message recipient message subject, b) ∷ []) rs')
          (Steps-Onward on (Steps.answer recipient message subject b r))
    Steps-Onward (stored {rs = rs'} {cs = cs'} {w' = w'} {es = gs} user server t {b} {fs = fs} e on)
          {rs} {cs} {es} r =
        subst
          (λ es.
            Steps jid_of w (rs ++ (Request.connect user server, b) ∷ rs') (cs ++ cs') none Task.idle
              w' es)
          (append_assoc es fs gs)
          (subst (λ rs. Steps jid_of w rs (cs ++ cs') none Task.idle w' ((es ++ fs) ++ gs))
            (append_assoc rs ((Request.connect user server, b) ∷ []) rs')
            (Steps-Onward on (Steps.stored user server t r e)))
