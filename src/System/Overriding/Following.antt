-- ===== src/System/Overriding/Following.antt =====
-- The wires and the protocol of the calls into gloox, for clients of subclasses.
use cinder_xmpp.Prelude.{◌≡◌, refl, Str, Bool, some, List, arith}
use cinder_xmpp.Gloox.{Jid}
use cinder_xmpp.World.{World, Signal}
use cinder_xmpp.System.{Request, Turn}
use cinder_xmpp.System.Wiring.{IsWired}
use cinder_xmpp.System.Protocol.{follow, allow, usage, Keeping, Keeping-Sequential, perform-Keeping}
use cinder_xmpp.System.Slots.{replying}
use cinder_xmpp.System.Overriding.{Overriding, perform_all_in}
use cinder_xmpp.System.Overriding.Laws.{Composes}
use cinder_xmpp.System.Overriding.Turns.{perform_all_in-Holds}

Keeping-Composes : Composes Keeping
unfolding follow allow
Keeping-Composes = record {
  runs = Keeping-Sequential;
  filled = λ items w h. (ground arith, refl);
  changed = λ name status w h. (ground arith, refl);
  raised = λ s w h. (h, refl);
}

module _ (jid_of : Str → Jid) (replies : Signal → Bool → List Request) where
  -- Whatever the handlers do that a subclass overrides, and whatever calls the slots make in answer
  -- to signals: any turns from a wired world, whatever way they end, keep the listener wired to its
  -- client, and the monitor accepts every effect and then holds in use what the members say.
  pub perform_all_in-follow :
      (ts : List (Overriding × Turn)) (w : World)
      → IsWired w
      → let (r, w', es) = perform_all_in jid_of (replying jid_of replies) ts w in
        IsWired w' × (follow (usage w) es ≡ some (usage w'))
  perform_all_in-follow =
      perform_all_in-Holds Keeping Keeping-Composes jid_of replies (perform-Keeping jid_of)
        (λ b w h. (ground arith, unfold follow in refl))
