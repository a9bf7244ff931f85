-- ===== src/System/Concurrent/Steps/Settling.antt =====
-- The end of what both threads are doing, from wherever they are.
use cinder_xmpp.Prelude.{
  ◌≡◌, refl, sym, ap, ◌∙◌, Str, Bool, true, false, ◌==◌, Bool-cases, inl, inr, Option, none, some,
  List, [], ◌∷◌, ◌++◌, arith,
}
use cinder_xmpp.Gloox.{Jid, null}
use cinder_xmpp.World.{World, Effect, done}
use cinder_xmpp.World.Laws.{Run}
use cinder_xmpp.System.{Callback, Request}
use cinder_xmpp.System.Wiring.{deliver-SameWires}
use cinder_xmpp.System.Interleaving.{
  Sending, addressing, testing_flag, testing_client, handing_over, answered, crashed, advance,
}
use cinder_xmpp.System.Interleaving.Sent.{Reach-sent}
use cinder_xmpp.System.Interleaving.Halves.{rest}
use cinder_xmpp.System.Interleaving.Halves.Joined.{rest-noted}
use cinder_xmpp.System.Concurrent.{store}
use cinder_xmpp.System.Concurrent.Storing.{with_thread}
use cinder_xmpp.System.Concurrent.Steps.{Task, Steps}
use cinder_xmpp.System.Concurrent.Steps.Pending.{noted-thread}
use cinder_xmpp.System.Concurrent.Steps.Whole.{Steps-Pending}
use cinder_xmpp.System.Concurrent.Steps.Onward.{Onward, Steps-Onward}
use cinder_xmpp.System.Concurrent.Steps.Verdict.{
  verdict, Answers, answered-Answers, step-Answers, handing_over-Answers, testing_client-Answers,
  testing_flag-Answers,
}

-- The callback that is under way returns.
abbrev pub CanFinish : Option Callback → World → Type 0
CanFinish none w = Unit
CanFinish (some c) w = (b : Option Bool) × ((rest c w).0 ≡ done b)

-- No thread is stored where one is about to be.
abbrev pub CanStore : Task → World → Type 0
CanStore (Task.storing user server t) w = w.client.thread ≡ none
CanStore _ w = Unit

-- The callback that is under way, if there is one.
abbrev pub pending : Option Callback → List Callback
pending none = []
pending (some c) = c ∷ []

-- The members once the callback that is under way has returned.
abbrev pub after : Option Callback → World → World
after none w = w
after (some c) w = (rest c w).1

-- The call that is under way, with its answer.
abbrev pub ended : Task → World → List (Request × Bool)
ended Task.idle w = []
ended (Task.sending recipient message subject s) w =
    (Request.send_message recipient message subject, verdict message s w) ∷ []
ended (Task.storing user server t) w = (Request.connect user server, true) ∷ []

-- The members once that call has ended.
abbrev pub settled : Task → World → World
settled (Task.storing user server t) w = with_thread (some t) w
settled _ w = w

module _ (jid_of : Str → Jid) (w : World) where
  -- On from what is reached to rest, with what ends on the way and the members then.
  abbrev pub Settled :
      List (Request × Bool) → List Callback → Option Callback → Task → World → List Effect → Type 0
  Settled rs cs p k w' es =
      let v = after p w' in
      (fs : List Effect) × Onward jid_of p k w' (ended k v) (pending p) (settled k v) fs
      × Steps jid_of w (rs ++ ended k v) (cs ++ pending p) none Task.idle (settled k v) (es ++ fs)

  module _ {rs : List (Request × Bool)} {cs : List Callback} {v : World} where
    crashed-absurd :
        (recipient message subject : Str) (s : Sending) {es : List Effect}
        → Steps jid_of w rs cs none (Task.sending recipient message subject s) v es
        → s ≡ crashed
        → ⊥
    crashed-absurd recipient message subject s r e =
        let at = Steps-Pending jid_of w r in
        (Reach-sent jid_of recipient message subject at.mid at.run).0 e

    has_client :
        (recipient message subject : Str) (jid : Jid) {es : List Effect}
        → Steps jid_of w rs cs none (Task.sending recipient message subject (handing_over jid)) v es
        → (v.client.listener.client == null) ≡ false
    unfolding advance
    has_client recipient message subject jid r =
        elim (Bool-cases (v.client.listener.client == null)) [
          | inl e ↦ absurd (
              crashed-absurd recipient message subject
                (advance jid_of recipient message subject (handing_over jid) v).0
                (Steps.step recipient message subject (handing_over jid) r refl) (ground arith))
          | inr e ↦ e
        ]

    sending-Answers :
        (recipient message subject : Str) (s : Sending) {es : List Effect}
        → Steps jid_of w rs cs none (Task.sending recipient message subject s) v es
        → Answers jid_of recipient message subject v s (verdict message s v)
    unfolding advance
    sending-Answers recipient message subject addressing r =
        step-Answers jid_of recipient message subject v addressing _ _ refl refl
          (testing_flag-Answers jid_of recipient message subject v _)
    sending-Answers recipient message subject (testing_flag jid) r =
        testing_flag-Answers jid_of recipient message subject v jid
    sending-Answers recipient message subject (testing_client jid) r =
        testing_client-Answers jid_of recipient message subject v jid
    sending-Answers recipient message subject (handing_over jid) r =
        handing_over-Answers jid_of recipient message subject v jid
          (has_client recipient message subject jid r)
    sending-Answers recipient message subject (answered b) r =
        answered-Answers jid_of recipient message subject v b
    sending-Answers recipient message subject crashed r =
        absurd (crashed-absurd recipient message subject crashed r refl)

    call-Onward :
        (k : Task) {es : List Effect}
        → Steps jid_of w rs cs none k v es
        → CanStore k v
        → (fs : List Effect) × Onward jid_of none k v (ended k v) [] (settled k v) fs
    unfolding store
    call-Onward Task.idle r h = ([], Onward.at_rest)
    call-Onward (Task.sending recipient message subject s) r h =
        sending-Answers recipient message subject s r
    call-Onward (Task.storing user server t) r h =
        ([] ++ [], Onward.stored user server t {fs = []} (ground arith) Onward.at_rest)

  -- The second half of a callback does not store a thread.
  rest-CanStore :
      {rs : List (Request × Bool)} {cs : List Callback} {w' : World} {es : List Effect}
      (c : Callback) (k : Task)
      → Steps jid_of w rs cs (some c) k w' es
      → CanStore k w'
      → CanStore k (rest c w').1
  rest-CanStore c Task.idle r h = tt
  rest-CanStore c (Task.sending recipient message subject s) r h = tt
  rest-CanStore {w' = w'} c (Task.storing user server t) r h =
      let (v, e, f) = Steps-Pending jid_of w r in
      ap (λ (t : Run (Option Bool)). t.1.client.thread) (ap (rest c) e ∙ rest-noted c v)
      ∙ (deliver-SameWires c v).thread
      ∙ sym (noted-thread c v)
      ∙ ap (λ (w : World). w.client.thread) (sym e)
      ∙ h

  pending-Onward :
      {rs : List (Request × Bool)} {cs : List Callback} {p : Option Callback} (k : Task)
      {w' : World} {es : List Effect}
      → Steps jid_of w rs cs p k w' es
      → CanFinish p w'
      → CanStore k w'
      → let v = after p w' in
        (fs : List Effect) × Onward jid_of p k w' (ended k v) (pending p) (settled k v) fs
  pending-Onward {p = none} k r finish h = call-Onward k r h
  pending-Onward {p = some c} k {w'} r (b, ends) h =
      let (fs, on) = call-Onward k (Steps.finish c r refl ends) (rest-CanStore c k r h) in
      ((rest c w').2 ++ fs, Onward.finish c ends on)

  -- From wherever the two threads are, if the callback that is under way returns, and no thread is
  -- stored where a new one is about to be: that callback and the call that is under way come to their
  -- ends from there, and none other is begun. `connect` has then stored its thread and answers
  -- `true`; `sendMessage` has changed no member, and answers what its tests that are left say of the
  -- members as the callback leaves them.
  pub Steps-Settled :
      {rs : List (Request × Bool)} {cs : List Callback} {p : Option Callback} {k : Task}
      {w' : World} {es : List Effect}
      → Steps jid_of w rs cs p k w' es
      → CanFinish p w'
      → CanStore k w'
      → Settled rs cs p k w' es
  Steps-Settled {k = k} r finish h =
      let (fs, on) = pending-Onward k r finish h in (fs, on, Steps-Onward jid_of on r)
