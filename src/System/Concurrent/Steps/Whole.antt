-- ===== src/System/Concurrent/Steps/Whole.antt =====
-- What the two threads reach step by step is reached by turns in a row.
use cinder_xmpp.Prelude.{
  ◌≡◌, refl, sym, ap, ◌∙◌, Str, Bool, false, Option, none, List, [], ◌∷◌, ◌++◌,
}
use mathlib.Core.Path.{subst}
use cinder_xmpp.Gloox.{Jid}
use cinder_xmpp.World.{World, Effect}
use cinder_xmpp.World.Laws.{Run}
use cinder_xmpp.System.{Callback, deliver, Request}
use cinder_xmpp.System.Interleaving.{addressing, answered}
use cinder_xmpp.System.Interleaving.Halves.{rest}
use cinder_xmpp.System.Interleaving.Halves.Joined.{rest-noted}
use cinder_xmpp.System.Concurrent.{idle}
use cinder_xmpp.System.Concurrent.Linear.{Serial, Reaches-Serial}
use cinder_xmpp.System.Concurrent.Steps.{Task, Steps}
use cinder_xmpp.System.Concurrent.Steps.Coarsely.{Coarse}
use cinder_xmpp.System.Concurrent.Steps.Moves.{
  told-Coarse, call-Coarse, answer-Coarse, refuse-Coarse, dialling-Coarse,
}
use cinder_xmpp.System.Concurrent.Steps.Pending.{Pending, Pending-map, step-Pending, stored-Pending}

module _ (jid_of : Str → Jid) (w : World) where
  pub Steps-Pending :
      {rs : List (Request × Bool)} {cs : List Callback} {p : Option Callback} {k : Task}
      {w' : World} {es : List Effect}
      → Steps jid_of w rs cs p k w' es
      → Pending jid_of w rs cs p k w' es
  Steps-Pending Steps.start = record { effects = []; run = idle; same = (refl, refl) }
  Steps-Pending (Steps.begin {rs = rs} {cs = cs} {k = k} {w' = w'} {es = es} c r e) =
      let p = subst (λ p. Pending jid_of w rs cs p k w' es) e (Steps-Pending r) in
      (w', refl, λ b h. told-Coarse jid_of w rs cs w' es k c h p)
  Steps-Pending (Steps.finish {rs = rs} {cs = cs} {k = k} {w' = w'} {es = es} c {b} r e h) =
      let (v, q, f) = subst (λ p. Pending jid_of w rs cs p k w' es) e (Steps-Pending r) in
      let whole : rest c w' ≡ deliver c v = ap (rest c) q ∙ rest-noted c v in
      subst (λ (t : Run (Option Bool)). Coarse jid_of w rs (cs ++ c ∷ []) k t.1 (es ++ t.2))
        (sym whole) (f b (ap (λ (t : Run (Option Bool)). t.0) (sym whole) ∙ h))
  Steps-Pending
        (Steps.call_send_message {rs = rs} {cs = cs} {p = p} {w' = w'} {es = es} recipient message
          subject r) =
      Pending-map jid_of w rs rs cs p Task.idle (Task.sending recipient message subject addressing)
        w' es (λ cs w' es h. call-Coarse jid_of w recipient message subject h) (Steps-Pending r)
  Steps-Pending
        (Steps.step {rs = rs} {cs = cs} {p = p} {w' = w'} {es = es} recipient message subject s r
          o) =
      step-Pending jid_of w rs cs p w' es recipient message subject s o (Steps-Pending r)
  Steps-Pending
        (Steps.answer {rs = rs} {cs = cs} {p = p} {w' = w'} {es = es} recipient message subject b
          r) =
      Pending-map jid_of w rs (rs ++ (Request.send_message recipient message subject, b) ∷ []) cs p
        (Task.sending recipient message subject (answered b)) Task.idle w' es
        (λ cs w' es h. answer-Coarse jid_of w recipient message subject b h) (Steps-Pending r)
  Steps-Pending (Steps.refuse {rs = rs} {cs = cs} {p = p} {w' = w'} {es = es} user server r d) =
      Pending-map jid_of w rs (rs ++ (Request.connect user server, false) ∷ []) cs p Task.idle
        Task.idle w' es (λ cs w' es h. refuse-Coarse jid_of w user server d h) (Steps-Pending r)
  Steps-Pending
        (Steps.dialling {rs = rs} {cs = cs} {w' = w'} {es = es} user server r e given dialled) =
      let p = subst (λ p. Pending jid_of w rs cs p Task.idle w' es) e (Steps-Pending r) in
      dialling-Coarse jid_of w user server given dialled p
  Steps-Pending (Steps.stored {rs = rs} {cs = cs} {p = p} {w' = w'} {es = es} user server t r h) =
      stored-Pending jid_of w rs cs p w' es user server t h (Steps-Pending r)

  -- Whatever the two threads do, step by step, once the application's thread is between calls and no
  -- callback is half done it is as if they had done it in turns: the same calls, with the same answers,
  -- and the same callbacks, each whole and in some order, reach the same members, hand the same messages
  -- to gloox in the same order, and have the same other effects in the same order.
  pub Steps-Serial :
      {rs : List (Request × Bool)} {cs : List Callback} {w' : World} {es : List Effect}
      → Steps jid_of w rs cs none Task.idle w' es
      → Serial jid_of w rs cs w' es
  Steps-Serial r =
      let p = Steps-Pending r in
      let s = Reaches-Serial jid_of p.run in
      record {
        turns = s.turns;
        effects = s.effects;
        run = s.run;
        answered = s.answered;
        heard = s.heard;
        messages = s.messages ∙ p.same.0;
        others = s.others ∙ p.same.1;
      }
