-- ===== src/Client/Rosters.antt =====
-- `XmppClient::handleRoster`: what the roster holds afterwards, and what is signalled.
use cinder_xmpp.Client.Delegate
use cinder_xmpp.Prelude.{
  ◌≡◌, refl, Str, str_eq, str_eq_iff, Bool, false, ◌||◌, none, some, List, [], ◌∷◌, ◌++◌, arith,
  if◌then◌else◌, append-nil, append_assoc, ltb,
}
use cinder_xmpp.UnorderedMap.{UnorderedMap, find, insert, AllEntries, IsMap}
use cinder_xmpp.UnorderedMap.Laws.{or_else, find-insert, insert-IsMap, AllEntries-insert}
use cinder_xmpp.Gloox.{Roster}
use cinder_xmpp.Peer.{XmppPeer, peer_named, status_int}
use cinder_xmpp.World.{World, done, Signal, signal}
use cinder_xmpp.Client.{add_items, handle_roster}

-- The user names of a roster, in its order.
unfoldable pub names : Roster → List Str
names [] = []
names ((_, item) ∷ items) = item.jid_jid.username ∷ names items

unfoldable pub contains : Str → List Str → Bool
contains k [] = false
contains k (x ∷ xs) = str_eq x k || contains k xs

add_items-names :
    (items : Roster) (peers : UnorderedMap XmppPeer) (userlist : List Str)
    → (add_items items peers userlist).1 ≡ userlist ++ names items
unfolding add_items names
add_items-names [] peers userlist = simp append-nil
add_items-names ((_, item) ∷ items) peers userlist =
    rw
      (add_items-names items
        (insert item.jid_jid.username (peer_named item.jid_jid.username) peers))
      (simp append_assoc)

find-add_items :
    (k : Str) (items : Roster) (peers : UnorderedMap XmppPeer) (userlist : List Str)
    → find k (add_items items peers userlist).0
      ≡ (if contains k (names items) then or_else (find k peers) (peer_named k) else find k peers)
unfolding add_items names contains
find-add_items k [] peers userlist = refl
find-add_items k ((_, item) ∷ items) peers userlist =
    let name = item.jid_jid.username in
    ground (
      arith,
      find-add_items k items (insert name (peer_named name) peers) (userlist ++ name ∷ []),
      find-insert name k (peer_named name) peers,
      str_eq_iff name k,
    )

-- A peer stands under its own name, and is flagged as connected by its state.
abbrev pub IsPeer : Str → XmppPeer → Type 0
IsPeer k p = (p.username ≡ k) × (p.connected ≡ ltb (status_int p.status) 5)

pub record IsRoster (m : UnorderedMap XmppPeer) : Type 0 where
  pub is_map : IsMap m
  pub peers : AllEntries IsPeer m

peer_named-IsPeer : (k : Str) → IsPeer k (peer_named k)
unfolding peer_named status_int
peer_named-IsPeer k = (refl, refl)

pub add_items-IsRoster :
    (items : Roster) (m : UnorderedMap XmppPeer) (userlist : List Str)
    → IsRoster m
    → IsRoster (add_items items m userlist).0
unfolding add_items
add_items-IsRoster [] m userlist h = h
add_items-IsRoster ((_, item) ∷ items) m userlist h =
    let name = item.jid_jid.username in
    add_items-IsRoster items (insert name (peer_named name) m) (userlist ++ name ∷ []) (record {
      is_map = insert-IsMap name (peer_named name) m h.is_map;
      peers = AllEntries-insert IsPeer name (peer_named name) m (peer_named-IsPeer name) h.peers;
    })

-- A roster replaces the one before: afterwards a name is found exactly if an item has it, as a new
-- peer of that name that is not connected. The names are signalled in the roster's order, as often
-- as they occur, and the roster is well formed.
pub handle_roster_lem :
    (items : Roster) (w : World)
    → let (r, w', es) = handle_roster items w in
      (r ≡ done tt)
      × (es ≡ signal (Signal.roster (names items)) ∷ [])
      × ((k : Str)
          → find k w'.client.roster
            ≡ (if contains k (names items) then some (peer_named k) else none))
      × IsRoster w'.client.roster
unfolding Delegate.handle_roster find
handle_roster_lem items w = (
  refl,
  rw (add_items-names items [] []),
  λ k. find-add_items k items [] [],
  add_items-IsRoster items [] [] (record { is_map = tt; peers = tt }),
)
