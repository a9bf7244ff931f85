-- ===== src/System/Concurrent/Linear.antt =====
-- What the two threads reach is reached by turns in a row: calls and callbacks may be taken as whole.
use cinder_xmpp.Prelude.{
  ℕ, ◌≡◌, refl, sym, ap, ◌∙◌, Str, is_empty, Bool, true, false, ◌||◌, Option, List, [], ◌∷◌, ◌++◌,
  map, arith, append-nil,
}
use cinder_xmpp.Gloox.{Jid}
use mathlib.Core.Path.{subst}
use cinder_xmpp.World.{Thread, World, Effect, done}
use cinder_xmpp.World.Laws.{Run}
use cinder_xmpp.Client.Api
use cinder_xmpp.System.{Callback, deliver, Request, Turn, request, perform_all}
use cinder_xmpp.System.Interleaving.Sent.{sent, sent-append}
use cinder_xmpp.System.Interleaving.Quiet.{
  unsent, unsent-append, perform_all-join, perform_all-callback, perform_all-ask,
}
use cinder_xmpp.System.Interleaving.{Sending, addressing, Reach}
use cinder_xmpp.System.Interleaving.Point
use cinder_xmpp.System.Interleaving.Linear.{Reach-linear}
use cinder_xmpp.System.Concurrent.{dial, store, Reaches, idle, told, messaged, refused, connected}
use cinder_xmpp.System.Concurrent.Storing.{store-done, connect-stored, connect-first}
use cinder_xmpp.System.Concurrent.Answers.{
  callbacks_of, callbacks_of-append, answers, answers-append, append-done, answers-around,
  callbacks_of-around,
}

module _ (jid_of : Str → Jid) where
  -- Turns in a row with these calls, answers and callbacks, which reach the same members, hand the same
  -- messages to gloox in the same order, and have the same other effects in the same order.
  pub record Serial (w : World) (rs : List (Request × Bool)) (cs : List Callback) (w' : World)
      (es : List Effect) : Type 0 where
    pub turns : List Turn
    pub effects : List Effect
    pub run : perform_all jid_of turns w ≡ (done tt, w', effects)
    pub answered : answers jid_of turns w ≡ rs
    pub heard : callbacks_of turns ≡ cs
    pub messages : sent effects ≡ sent es
    pub others : unsent effects ≡ unsent es

  Serial-append :
      {rs qs : List (Request × Bool)} {cs ds : List Callback} {w w' w'' : World}
      {es fs : List Effect}
      → Serial w rs cs w' es
      → Serial w' qs ds w'' fs
      → Serial w (rs ++ qs) (cs ++ ds) w'' (es ++ fs)
  Serial-append {w = w} {es = es} {fs = fs} p q = record {
    turns = p.turns ++ q.turns;
    effects = p.effects ++ q.effects;
    run = perform_all-join jid_of p.turns q.turns w p.run q.run;
    answered =
        answers-append jid_of p.turns q.turns w (ap (λ (r : Run (Unit {0})). r.0) p.run)
        ∙ ap (λ (r : Run (Unit {0})). answers jid_of p.turns w ++ answers jid_of q.turns r.1) p.run
        ∙ (λ i. p.answered i ++ q.answered i);
    heard = callbacks_of-append p.turns q.turns ∙ (λ i. p.heard i ++ q.heard i);
    messages = simp (sent-append, p.messages, q.messages);
    others = simp (unsent-append, p.others, q.others);
  }

  told-Serial :
      (c : Callback) (w : World) {b : Option Bool}
      → (deliver c w).0 ≡ done b
      → Serial w [] (c ∷ []) (deliver c w).1 (deliver c w).2
  unfolding answers callbacks_of
  told-Serial c w h = record {
    turns = Turn.callback c ∷ [];
    effects = (deliver c w).2;
    run = perform_all-callback jid_of c w h;
    answered = refl;
    heard = refl;
    messages = refl;
    others = refl;
  }

  messaged-Serial :
      (recipient message subject : Str) {n : ℕ} {b : Bool} {w w' : World} {es : List Effect}
      (r : Reach jid_of recipient message subject addressing w n (Sending.answered b) w' es)
      → Serial w
          ((Request.send_message recipient message subject, b) ∷ [])
          (Point.heard jid_of recipient message subject w r)
          w'
          es
  unfolding request
  messaged-Serial recipient message subject {w = w} r =
      let (before, after, es', cut, run, answer, messages, others) =
        Reach-linear jid_of recipient message subject w r in
      let ask = Request.send_message recipient message subject in
      let rest = Turn.ask ask ∷ map Turn.callback after in
      record {
        turns = map Turn.callback before ++ rest;
        effects = es';
        run = run;
        answered =
            answers-around jid_of ask before after w
              (append-done jid_of (map Turn.callback before) rest w
                (ap (λ (t : Run (Unit {0})). t.0) run))
              answer;
        heard = callbacks_of-around ask before after ∙ cut;
        messages = messages;
        others = others;
      }

  refused-Serial :
      (user server : Str) (w : World)
      → (is_empty user || is_empty server) ≡ true
      → Serial w ((Request.connect user server, false) ∷ []) [] w []
  refused-Serial user server w h =
      let refuses : Api.connect jid_of user server w ≡ (done false, w, []) =
        unfold Api.connect in ground arith in
      record {
        turns = Turn.ask (Request.connect user server) ∷ [];
        effects = [];
        run = unfold request in perform_all-ask jid_of (Request.connect user server) w refuses;
        answered =
            unfold request perform_all in
            answers-around jid_of (Request.connect user server) [] [] w refl
              (ap (λ (t : Run Bool). t.0) refuses);
        heard = callbacks_of-around (Request.connect user server) [] [];
        messages = refl;
        others = refl;
      }

  connected-Serial :
      (user server : Str) (meanwhile : List Callback) {b : Bool} {t : Thread} {w v v' w' : World}
      {fs gs hs : List Effect}
      → (is_empty user || is_empty server) ≡ false
      → dial jid_of user server w ≡ (done t, v, fs)
      → perform_all jid_of (map Turn.callback meanwhile) v ≡ (done tt, v', gs)
      → store t v' ≡ (done b, w', hs)
      → Serial w ((Request.connect user server, b) ∷ []) meanwhile w' (fs ++ (gs ++ hs))
  connected-Serial user server meanwhile {b} {t} {w} {v} {v'} {fs = fs} {gs = gs} {hs = hs} given
        dialled ran stored =
      let whole = connect-stored jid_of user server meanwhile t w v v' given dialled ran stored in
      record {
        turns = Turn.ask (Request.connect user server) ∷ map Turn.callback meanwhile;
        effects = fs ++ (gs ++ hs);
        run = connect-first jid_of user server meanwhile t w v v' given dialled ran stored;
        answered =
            unfold request perform_all in
            answers-around jid_of (Request.connect user server) [] meanwhile w refl
              (ap (λ (r : Run Bool). r.0) whole ∙ (λ i. done (sym (store-done t v' stored).0 i)));
        heard = callbacks_of-around (Request.connect user server) [] meanwhile;
        messages = refl;
        others = refl;
      }

  -- Whatever the two threads do, step by step, it is as if they had done it in turns: the same calls,
  -- with the same answers, and the same callbacks, each whole and in some order, reach the same members,
  -- hand the same messages to gloox in the same order, and have the same other effects in the same
  -- order.
  pub Reaches-Serial :
      {w : World} {rs : List (Request × Bool)} {cs : List Callback} {w' : World} {es : List Effect}
      → Reaches jid_of w rs cs w' es
      → Serial w rs cs w' es
  unfolding answers callbacks_of perform_all
  Reaches-Serial idle = record {
    turns = [];
    effects = [];
    run = refl;
    answered = refl;
    heard = refl;
    messages = refl;
    others = refl;
  }
  Reaches-Serial {w} (told {rs = rs} {cs = cs} {w' = w'} {es = es} c r h) =
      subst (λ rs. Serial w rs (cs ++ c ∷ []) (deliver c w').1 (es ++ (deliver c w').2))
        (append-nil rs) (Serial-append (Reaches-Serial r) (told-Serial c w' h))
  Reaches-Serial (messaged recipient message subject r s) =
      Serial-append (Reaches-Serial r) (messaged-Serial recipient message subject s)
  Reaches-Serial {w} (refused {rs = rs} {cs = cs} {w' = w'} {es = es} user server r h) =
      let qs = rs ++ (Request.connect user server, false) ∷ [] in
      subst (λ cs. Serial w qs cs w' es) (append-nil cs)
        (subst (λ es. Serial w qs (cs ++ []) w' es) (append-nil es)
          (Serial-append (Reaches-Serial r) (refused-Serial user server w' h)))
  Reaches-Serial (connected user server meanwhile r given dialled ran stored) =
      Serial-append (Reaches-Serial r)
        (connected-Serial user server meanwhile given dialled ran stored)
