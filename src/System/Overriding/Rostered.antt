-- ===== src/System/Overriding/Rostered.antt =====
-- The roster of a client of a subclass.
use cinder_xmpp.Prelude.{Str, Bool, List, [], arith}
use cinder_xmpp.Gloox.{Jid}
use cinder_xmpp.World.{World, Signal}
use cinder_xmpp.Client.Rosters.{IsRoster, add_items-IsRoster}
use cinder_xmpp.Client.Presences.{modify-IsRoster}
use cinder_xmpp.System.{Request, Turn}
use cinder_xmpp.System.Wiring.{IsWired}
use cinder_xmpp.System.Peers.{Rostering, Rostering-Sequential, perform-Rostering}
use cinder_xmpp.System.Slots.{replying}
use cinder_xmpp.System.Overriding.{Overriding, perform_all_in}
use cinder_xmpp.System.Overriding.Laws.{Composes}
use cinder_xmpp.System.Overriding.Turns.{perform_all_in-Holds}

Rostering-Composes : Composes Rostering
Rostering-Composes = record {
  runs = Rostering-Sequential;
  filled = λ items w h.
      (ground arith, λ r. add_items-IsRoster items [] [] (record { is_map = tt; peers = tt }));
  changed = λ name status w h. (ground arith, modify-IsRoster name status w.client.roster);
  raised = λ s w h. (h, λ r. r);
}

-- Whatever the handlers do that a subclass overrides, and whatever calls the slots make in answer to
-- signals: the roster stays a map from names to peers of that name, each flagged as connected by its
-- state, through any turns from a wired world, whatever way they end.
pub perform_all_in-IsRoster :
    (jid_of : Str → Jid) (replies : Signal → Bool → List Request) (ts : List (Overriding × Turn))
    (w : World)
    → IsWired w
    → IsRoster w.client.roster
    → IsRoster (perform_all_in jid_of (replying jid_of replies) ts w).1.client.roster
perform_all_in-IsRoster jid_of replies ts w wired =
    (perform_all_in-Holds Rostering Rostering-Composes jid_of replies (perform-Rostering jid_of)
      (λ b w h. (ground arith, λ r. r)) ts w wired).1
