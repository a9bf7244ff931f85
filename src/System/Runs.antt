-- ===== src/System/Runs.antt =====
-- What any turns do, from what each turn does.
use cinder_xmpp.Prelude.{Str, List, [], ◌∷◌}
use cinder_xmpp.Gloox.{Jid}
use cinder_xmpp.World.{World, Effect}
use cinder_xmpp.World.Relations.{Sequential, Holds, >>=-Holds}
use cinder_xmpp.System.{Turn, perform, perform_all}

module _ (R : World → World → List Effect → Type 0) (laws : Sequential R) (jid_of : Str → Jid)
    (performs : (t : Turn) → Holds R (perform jid_of t)) where
  pub perform_all-Holds : (ts : List Turn) → Holds R (perform_all jid_of ts)
  unfolding perform_all
  perform_all-Holds [] = laws.nothing
  perform_all-Holds (t ∷ ts) =
      >>=-Holds R laws (perform jid_of t) (λ _. perform_all jid_of ts) (performs t)
        (λ _. perform_all-Holds ts)
