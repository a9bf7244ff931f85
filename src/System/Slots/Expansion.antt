-- ===== src/System/Slots/Expansion.antt =====
-- Where the slots make calls, a history is a longer one without slots.
use cinder_xmpp.Prelude.{Bool, some, ap, ◌≡◌, refl, sym, ◌∙◌, Str, List, [], ◌∷◌, ◌++◌}
use cinder_xmpp.Gloox.{Jid}
use cinder_xmpp.World.{World, done, threw, undefined, terminated, Signal, Action}
use cinder_xmpp.World.Laws.{Run, resume, signals}
use cinder_xmpp.System.{Request, Turn, perform, perform_all}
use cinder_xmpp.System.Wiring.{perform_all-append, IsWired, perform_all-IsWired}
use cinder_xmpp.System.Protocol.{follow, usage, perform_all-follow}
use cinder_xmpp.System.Slots.{perform_all_with, replied, expand}
use cinder_xmpp.System.Slots.Replies.{perform_with-Replied}

-- Only where the second part of a run starts counts.
resume-same :
    {A B : Type 0} (r : Run A) (k k' : A → Action B)
    → ((a : A) → k a r.1 ≡ k' a r.1)
    → resume r k ≡ resume r k'
resume-same {B = B} (done a, w, es) k k' h = ap (λ (t : Run B). (t.0, t.1, es ++ t.2)) (h a)
resume-same (threw e, w, es) k k' h = refl
resume-same (undefined, w, es) k k' h = refl
resume-same (terminated, w, es) k k' h = refl

module _ (jid_of : Str → Jid) (replies : Signal → Bool → List Request) where
  -- Where slots make calls while the callback that raised their signal still runs, any history has the
  -- outcome, the state and the effects of the history in which these calls come, in the order of the
  -- signals, right after that callback.
  pub perform_all_with-expand :
      (ts : List Turn) (w : World)
      → perform_all_with jid_of replies ts w ≡ perform_all jid_of (expand jid_of replies ts w) w
  unfolding perform_all_with expand perform_all
  perform_all_with-expand [] w = refl
  perform_all_with-expand (t ∷ ts) w =
      let us = t ∷ replied jid_of replies (perform jid_of t w).1 (signals (perform jid_of t w).2) in
      let run = perform_all jid_of us w in
      ap (λ r. resume r (λ _. perform_all_with jid_of replies ts))
        (perform_with-Replied jid_of replies t w)
      ∙ resume-same run (λ _. perform_all_with jid_of replies ts)
          (λ _. perform_all jid_of (expand jid_of replies ts run.1))
          (λ _. perform_all_with-expand ts run.1)
      ∙ ap (λ m. m w) (sym (perform_all-append jid_of us (expand jid_of replies ts run.1)))

  -- Slots that make calls keep the listener wired to its client.
  perform_all_with-IsWired :
      (ts : List Turn) (w : World) → IsWired w → IsWired (perform_all_with jid_of replies ts w).1
  perform_all_with-IsWired ts w h =
      rw (perform_all_with-expand ts w)
        (perform_all-IsWired jid_of (expand jid_of replies ts w) w h)

  -- Slots that make calls keep to the protocol of the calls into gloox: from a wired world the monitor
  -- accepts every effect of a history with slots, and what it then holds to be in use is what the
  -- members say.
  pub perform_all_with-follow :
      (ts : List Turn) (w : World)
      → IsWired w
      → let (r, w', es) = perform_all_with jid_of replies ts w in
        follow (usage w) es ≡ some (usage w')
  perform_all_with-follow ts w h =
      rw (perform_all_with-expand ts w) (perform_all-follow jid_of (expand jid_of replies ts w) w h)
