-- ===== src/System/Concurrent/Steps/Pending.antt =====
-- The same with one callback between its halves: what is reached as soon as it has ended.
use cinder_xmpp.Prelude.{
  ◌≡◌, refl, sym, ap, ◌∙◌, Str, Bool, true, false, Option, none, some, List, [], ◌∷◌, ◌++◌,
  append-nil,
}
use mathlib.Core.Path.{subst}
use cinder_xmpp.Gloox.{Jid}
use cinder_xmpp.World.{World, Effect, Thread, done}
use cinder_xmpp.World.Laws.{Run}
use cinder_xmpp.System.{Callback, deliver, Request}
use cinder_xmpp.System.Wiring.{deliver-SameWires}
use cinder_xmpp.System.Interleaving.{Sending, is_over, advance}
use cinder_xmpp.System.Interleaving.Sent.{sent, sent-append, deliver-sent}
use cinder_xmpp.System.Interleaving.Quiet.{unsent, unsent-append}
use cinder_xmpp.System.Interleaving.Halves.{noted}
use cinder_xmpp.System.Interleaving.Halves.Joined.{
  Reads, noted-Reads, advance-Reads, advance-unsent,
}
use cinder_xmpp.System.Concurrent.{store}
use cinder_xmpp.System.Concurrent.Storing.{with_thread, deliver-Unthreaded, store-done, store-same}
use cinder_xmpp.System.Concurrent.Steps.{Task}
use cinder_xmpp.System.Concurrent.Steps.Coarsely.{Coarse, Coarse-same, Same}
use cinder_xmpp.System.Concurrent.Steps.Moves.{step-Coarse, stored-Coarse}

Same-swap :
    (es fs gs : List Effect)
    → sent fs ≡ []
    → unsent gs ≡ []
    → Same ((es ++ fs) ++ gs) ((es ++ gs) ++ fs)
Same-swap es fs gs h k = (simp (sent-append, h, append-nil), simp (unsent-append, k, append-nil))

noted-with_thread :
    (c : Callback) (t : Option Thread) (w : World)
    → noted c (with_thread t w) ≡ with_thread t (noted c w)
unfolding noted
noted-with_thread Callback.on_connect t w = refl
noted-with_thread _ t w = refl

pub noted-thread : (c : Callback) (w : World) → (noted c w).client.thread ≡ w.client.thread
unfolding noted
noted-thread Callback.on_connect w = refl
noted-thread _ w = refl

module _ (jid_of : Str → Jid) (w : World) where
  abbrev Whole : List (Request × Bool) → List Callback → Task → World → List Effect → Type 0
  Whole = Coarse jid_of w

  -- Between the halves of a callback: what is reached as soon as it has ended, if it will.
  abbrev pub Pending :
      List (Request × Bool) → List Callback → Option Callback → Task → World → List Effect → Type 0
  Pending rs cs none k w' es = Whole rs cs k w' es
  Pending rs cs (some c) k w' es =
      (v : World) × (w' ≡ noted c v)
      × ((b : Option Bool)
          → (deliver c v).0 ≡ done b
          → Whole rs (cs ++ c ∷ []) k (deliver c v).1 (es ++ (deliver c v).2))

  -- A step of the application's thread that changes no member and does nothing to others.
  pub Pending-map :
      (rs qs : List (Request × Bool)) (cs : List Callback) (p : Option Callback) (k l : Task)
      (w' : World) (es : List Effect)
      → ((cs : List Callback) (w' : World) (es : List Effect)
          → Whole rs cs k w' es
          → Whole qs cs l w' es)
      → Pending rs cs p k w' es
      → Pending qs cs p l w' es
  Pending-map rs qs cs none k l w' es f h = f cs w' es h
  Pending-map rs qs cs (some c) k l w' es f (v, e, h) =
      (v, e, λ b d. f (cs ++ c ∷ []) (deliver c v).1 (es ++ (deliver c v).2) (h b d))

  -- A step at a world of which `sendMessage` reads the same, before the effects of a second half.
  half_step-Coarse :
      (rs : List (Request × Bool)) (cs : List Callback) (v : World) (es : List Effect)
      (recipient message subject : Str) (s : Sending) (u : World) (fs : List Effect)
      → Reads u v
      → sent fs ≡ []
      → is_over s ≡ false
      → Whole rs cs (Task.sending recipient message subject s) v (es ++ fs)
      → let (s', gs) = advance jid_of recipient message subject s u in
        Whole rs cs (Task.sending recipient message subject s') v ((es ++ gs) ++ fs)
  half_step-Coarse rs cs v es recipient message subject s u fs same silent o h =
      let (s', gs) = advance jid_of recipient message subject s v in
      let k = Task.sending recipient message subject s' in
      subst
        (λ (t : Sending × List Effect).
          Whole rs cs (Task.sending recipient message subject t.0) v ((es ++ t.1) ++ fs))
        (advance-Reads jid_of recipient message subject s u v same)
        (Coarse-same jid_of w rs cs v ((es ++ fs) ++ gs) ((es ++ gs) ++ fs) k
          (Same-swap es fs gs silent (advance-unsent jid_of recipient message subject s v))
          (step-Coarse jid_of w recipient message subject s o h))

  pub step-Pending :
      (rs : List (Request × Bool)) (cs : List Callback) (p : Option Callback) (w' : World)
      (es : List Effect) (recipient message subject : Str) (s : Sending)
      → is_over s ≡ false
      → Pending rs cs p (Task.sending recipient message subject s) w' es
      → let (s', gs) = advance jid_of recipient message subject s w' in
        Pending rs cs p (Task.sending recipient message subject s') w' (es ++ gs)
  step-Pending rs cs none w' es recipient message subject s o h =
      step-Coarse jid_of w recipient message subject s o h
  step-Pending rs cs (some c) w' es recipient message subject s o (v, e, h) = (
    v,
    e,
    λ b d.
        half_step-Coarse rs (cs ++ c ∷ []) (deliver c v).1 es recipient message subject s w'
          (deliver c v).2 (subst (λ u. Reads u (deliver c v).1) (sym e) (noted-Reads c v))
          (deliver-sent c v) o (h b d),
  )

  -- The thread is stored while a callback is in its second half.
  half_stored-Coarse :
      (rs : List (Request × Bool)) (cs : List Callback) (es : List Effect) (user server : Str)
      (t : Thread) (c : Callback) (v w' : World) {b : Bool} {w'' : World} {hs : List Effect}
      {o : Option Bool}
      → w' ≡ noted c v
      → store t w' ≡ (done b, w'', hs)
      → (deliver c (with_thread (some t) v)).0 ≡ done o
      → ((o : Option Bool)
          → (deliver c v).0 ≡ done o
          → Whole rs cs (Task.storing user server t) (deliver c v).1 (es ++ (deliver c v).2))
      → Whole
          (rs ++ (Request.connect user server, b) ∷ [])
          cs
          Task.idle
          (deliver c (with_thread (some t) v)).1
          ((es ++ hs) ++ (deliver c (with_thread (some t) v)).2)
  unfolding unsent
  half_stored-Coarse rs cs es user server t c v w' {b} {w''} {hs} {o} e h d f =
      let moved = deliver-Unthreaded c (some t) v in
      let (answer, same, nothing) = store-done t w' h in
      let (r, u, fs) = deliver c v in
      let well : r ≡ done o = ap (λ (t : Run (Option Bool)). t.0) (sym moved) ∙ d in
      let threads : w'.client.thread ≡ u.client.thread =
        ap (λ (w : World). w.client.thread) e
        ∙ noted-thread c v
        ∙ sym (deliver-SameWires c v).thread in
      let there = stored-Coarse jid_of w user server t (store-same t w' u h threads) (f o well) in
      let qs = rs ++ (Request.connect user server, true) ∷ [] in
      let ordered =
        Coarse-same jid_of w qs cs (with_thread (some t) u) ((es ++ fs) ++ []) ((es ++ []) ++ fs)
          Task.idle (Same-swap es fs [] (deliver-sent c v) refl) there in
      subst
        (λ b.
          Whole (rs ++ (Request.connect user server, b) ∷ []) cs Task.idle
            (deliver c (with_thread (some t) v)).1
            ((es ++ hs) ++ (deliver c (with_thread (some t) v)).2))
        (sym answer)
        (subst (λ (t : Run (Option Bool)). Whole qs cs Task.idle t.1 ((es ++ hs) ++ t.2))
          (sym moved)
          (subst (λ hs. Whole qs cs Task.idle (with_thread (some t) u) ((es ++ hs) ++ fs))
            (sym nothing) ordered))

  pub stored-Pending :
      (rs : List (Request × Bool)) (cs : List Callback) (p : Option Callback) (w' : World)
      (es : List Effect) (user server : Str) (t : Thread) {b : Bool} {v : World} {hs : List Effect}
      → store t w' ≡ (done b, v, hs)
      → Pending rs cs p (Task.storing user server t) w' es
      → Pending (rs ++ (Request.connect user server, b) ∷ []) cs p Task.idle v (es ++ hs)
  stored-Pending rs cs none w' es user server t h p = stored-Coarse jid_of w user server t h p
  stored-Pending rs cs (some c) w' es user server t h (v, e, f) = (
    with_thread (some t) v,
    (store-done t w' h).1 ∙ ap (with_thread (some t)) e ∙ sym (noted-with_thread c (some t) v),
    λ o d. half_stored-Coarse rs (cs ++ c ∷ []) es user server t c v w' e h d f,
  )
