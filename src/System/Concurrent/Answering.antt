-- ===== src/System/Concurrent/Answering.antt =====
-- The answers of the calls among turns, and those that the specification gives.
use cinder_xmpp.Prelude.{◌≡◌, refl, ap, ◌∙◌, Str, List, [], ◌∷◌, ◌++◌, arith}
use cinder_xmpp.Gloox.{Jid}
use cinder_xmpp.World.{World}
use cinder_xmpp.Client.Api
use cinder_xmpp.Listener
use cinder_xmpp.System.{Request, Turn, request, perform}
use cinder_xmpp.System.Wiring.{IsWired, perform-IsWired}
use cinder_xmpp.System.Spec.{Observed, view, spec_answer, spec_answers}
use cinder_xmpp.System.Refinement.{perform-spec_turn}
use cinder_xmpp.System.Concurrent.Answers.{answer, answers}

module _ (jid_of : Str → Jid) where
  answer-spec_answer :
      (t : Turn) {w : World} → IsWired w → answer jid_of t w ≡ spec_answer t (view w)
  unfolding answer spec_answer request Api.connect Api.send_message Listener.setup
      Listener.send_message
  answer-spec_answer (Turn.callback c) wired = refl
  answer-spec_answer (Turn.ask (Request.connect user server)) wired = ground arith
  answer-spec_answer (Turn.ask (Request.send_message recipient message subject)) wired =
      ground arith

  pub answers-spec_answers :
      (ts : List Turn) {w : World} → IsWired w → answers jid_of ts w ≡ spec_answers ts (view w)
  unfolding answers spec_answers
  answers-spec_answers [] wired = refl
  answers-spec_answers (t ∷ ts) {w} wired =
      ap (λ rs. rs ++ answers jid_of ts (perform jid_of t w).1) (answer-spec_answer t wired)
      ∙ ap (λ rs. spec_answer t (view w) ++ rs)
          (answers-spec_answers ts (perform-IsWired jid_of t w wired)
            ∙ ap (λ (o : Observed). spec_answers ts o.1) (perform-spec_turn jid_of wired t))
