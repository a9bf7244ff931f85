-- ===== src/Client/Orders.antt =====
-- The roster that gloox hands over is read in some order; what is known of each name afterwards does
-- not depend on it.
use mathlib.Core.List.{Perm, Permᴰ}
use mathlib.Core.Logic.{∥∥₁_elim}
use mathlib.Core.Bool.{Bool-set}
use cinder_xmpp.Prelude.{ap, ◌≡◌, refl, sym, ◌∙◌, Str, List, arith, if◌then◌else◌, none, some}
use cinder_xmpp.UnorderedMap.{find}
use cinder_xmpp.Gloox.{Roster}
use cinder_xmpp.Peer.{peer_named}
use cinder_xmpp.World.{World}
use cinder_xmpp.Client.{handle_roster}
use cinder_xmpp.Client.Rosters.{names, contains, handle_roster_lem}

contains-Permᴰ : (k : Str) {xs ys : List Str} → Permᴰ xs ys → contains k xs ≡ contains k ys
unfolding contains
contains-Permᴰ k Permᴰ.nil = refl
contains-Permᴰ k (Permᴰ.cons e p) = ground (arith, contains-Permᴰ k p)
contains-Permᴰ k (Permᴰ.swap e f) = ground arith
contains-Permᴰ k (Permᴰ.trans p q) = contains-Permᴰ k p ∙ contains-Permᴰ k q

-- Two rosters with the same names, in any order and each as often, leave the same peer, or none, under
-- every name, whatever was known before in either case.
pub handle_roster-perm :
    (items others : Roster) (w v : World)
    → Perm (names items) (names others)
    → (k : Str)
    → find k (handle_roster items w).1.client.roster
      ≡ find k (handle_roster others v).1.client.roster
handle_roster-perm items others w v p k =
    let same : contains k (names items) ≡ contains k (names others) =
      ∥∥₁_elim p (Bool-set _ _) (contains-Permᴰ k) in
    (handle_roster_lem items w).2 k
    ∙ ap (λ b. if b then some (peer_named k) else none) same
    ∙ sym ((handle_roster_lem others v).2 k)
