-- ===== src/Peer/Equality.antt =====
-- Comparison of peers: by name alone.
use cinder_xmpp.Prelude.{◌≡◌, ◌↔◌, ◌≢◌, true, arith, str_eq_iff}
use cinder_xmpp.Peer.{XmppPeer, peer_eq, peer_ne}

-- Two peers are equal exactly when they have the same name, and unequal exactly when they are not
-- equal.
pub peer_eq_iff :
    (p q : XmppPeer)
    → ((peer_eq p q ≡ true) ↔ (p.username ≡ q.username))
      × ((peer_ne p q ≡ true) ↔ (p.username ≢ q.username))
unfolding peer_eq peer_ne
peer_eq_iff p q =
    (str_eq_iff p.username q.username, ground (arith, str_eq_iff p.username q.username))
