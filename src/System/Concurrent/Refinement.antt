-- ===== src/System/Concurrent/Refinement.antt =====
-- The specification, for two threads.
use cinder_xmpp.Prelude.{none, ◌≡◌, refl, sym, ap, ◌∙◌, Str, Bool, List, [], ◌∷◌}
use mathlib.Core.Path.{subst}
use cinder_xmpp.Gloox.{Jid, Call}
use cinder_xmpp.World.{World, Effect, call, done}
use cinder_xmpp.World.Laws.{Run, signals}
use cinder_xmpp.System.{Callback, Request, Turn}
use cinder_xmpp.System.Wiring.{IsWired, perform_all-IsWired}
use cinder_xmpp.System.Spec.{view, observe, spec_all, spec_answers}
use cinder_xmpp.System.Refinement.{perform_all-spec_all}
use cinder_xmpp.System.Interleaving.Quiet.{unsent}
use cinder_xmpp.System.Concurrent.Steps.{Task, Steps}
use cinder_xmpp.System.Concurrent.Steps.Whole.{Steps-Serial}
use cinder_xmpp.System.Concurrent.Answers.{callbacks_of}
use cinder_xmpp.System.Concurrent.Answering.{answers-spec_answers}

-- A message is no signal.
signals-unsent : (es : List Effect) → signals (unsent es) ≡ signals es
unfolding signals unsent
signals-unsent [] = refl
signals-unsent (call (Call.send c msg) ∷ es) = signals-unsent es
signals-unsent (Effect.call c ∷ es) = signals-unsent es
signals-unsent (Effect.signal s ∷ es) = ap (◌∷◌ s) (signals-unsent es)
signals-unsent (Effect.start_thread t ∷ es) = signals-unsent es
signals-unsent (Effect.console l a m ∷ es) = signals-unsent es

module _ (jid_of : Str → Jid) {w : World} {rs : List (Request × Bool)} {cs : List Callback}
    {w' : World} {es : List Effect} (r : Steps jid_of w rs cs none Task.idle w' es)
    (wired : IsWired w) where
  -- What the two threads reach from a wired world, step by step, once no call and no callback is under
  -- way, is what the specification says of the same calls and callbacks in some order: the calls with
  -- the answers that the specification gives them, the view, and the signals in their order.
  pub Steps-spec_all :
      (ts : List Turn) × (callbacks_of ts ≡ cs)
      × (spec_answers ts (view w) ≡ rs)
      × (spec_all ts (view w) ≡ (done tt, view w', signals es))
  Steps-spec_all =
      let s = Steps-Serial jid_of w r in
      let same : signals s.effects ≡ signals es =
        sym (signals-unsent s.effects) ∙ ap signals s.others ∙ signals-unsent es in
      (
        s.turns,
        s.heard,
        sym (answers-spec_answers jid_of s.turns wired) ∙ s.answered,
        sym (perform_all-spec_all jid_of s.turns w wired)
            ∙ ap observe s.run
            ∙ (λ i. (done tt, view w', same i)),
      )

  Steps-IsWired : IsWired w'
  Steps-IsWired =
      let s = Steps-Serial jid_of w r in
      subst (λ (t : Run (Unit {0})). IsWired t.1) s.run (perform_all-IsWired jid_of s.turns w wired)
