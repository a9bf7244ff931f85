-- ===== src/System/Knowledge.antt =====
-- What is known of a name: the last presence counts, until the next roster.
use cinder_xmpp.Prelude.{
  All, ap, ◌≡◌, refl, ◌∙◌, Bool, true, false, none, some, Str, str_eq, str_eq_refl, List, [], ◌∷◌,
  arith,
}
use cinder_xmpp.UnorderedMap.{find}
use cinder_xmpp.UnorderedMap.Laws.{find-AllEntries}
use cinder_xmpp.Gloox.{Jid, PresenceType, RosterItem}
use cinder_xmpp.Peer.{XmppPeer, set_status, presence_to_status}
use cinder_xmpp.Peer.Presence.{named_alike, is_reachable, set_status-presence}
use cinder_xmpp.World.{threw, terminated, World, done, undefined}
use cinder_xmpp.Client.Rosters.{IsPeer, IsRoster}
use cinder_xmpp.System.{Callback, Request, Turn, perform_all}
use cinder_xmpp.System.Wiring.{IsWired}
use cinder_xmpp.System.Spec.{
  View, Observed, view, spec_callback, spec_request, spec_turn, and_then, spec_all,
}
use cinder_xmpp.System.Refinement.{spec_found, perform_all-spec_all}

-- Whether a turn may change what is known of the name.
unfoldable pub touches : Str → Turn → Bool
touches name (Turn.callback (Callback.handle_roster items)) = true
touches name (Turn.callback (Callback.handle_roster_presence item resource presence msg)) =
    str_eq item.jid_jid.username name
touches name _ = false

untouched_callback :
    (name : Str) (c : Callback) (v : View)
    → touches name (Turn.callback c) ≡ false
    → (spec_callback c v).1.peers name ≡ v.peers name
unfolding spec_callback touches
untouched_callback name (Callback.on_disconnect e) v h = ground arith
untouched_callback name (Callback.handle_message msg none) v h = refl
untouched_callback name (Callback.handle_message msg (some s)) v h = refl
untouched_callback name (Callback.handle_roster items) v h = cc
untouched_callback name (Callback.handle_roster_presence item resource presence msg) v h =
    ground arith
untouched_callback name _ v h = refl

untouched_turn :
    (name : Str) (t : Turn) (v : View)
    → touches name t ≡ false
    → (spec_turn t v).1.peers name ≡ v.peers name
unfolding spec_turn spec_request
untouched_turn name (Turn.callback c) v h = untouched_callback name c v h
untouched_turn name (Turn.ask (Request.connect user server)) v h = ground arith
untouched_turn name (Turn.ask (Request.send_message recipient message subject)) v h = refl

and_then-peers :
    (name : Str) (o : Observed) (f : View → Observed)
    → (f o.1).1.peers name ≡ o.1.peers name
    → (and_then o f).1.peers name ≡ o.1.peers name
and_then-peers name (done a, v, ss) f h = h
and_then-peers name (threw x, v, ss) f h = refl
and_then-peers name (undefined, v, ss) f h = refl
and_then-peers name (terminated, v, ss) f h = refl

untouched-All :
    (name : Str) (ts : List Turn) (v : View)
    → All (λ t. touches name t ≡ false) ts
    → (spec_all ts v).1.peers name ≡ v.peers name
unfolding spec_all
untouched-All name [] v h = refl
untouched-All name (t ∷ ts) v h =
    and_then-peers name (spec_turn t v) (spec_all ts) (untouched-All name ts (spec_turn t v).1 h.1)
    ∙ untouched_turn name t v h.0

module _ (item : RosterItem) (resource : Str) (presence : PresenceType) (msg : Str) where
  abbrev arrival : Turn
  arrival = Turn.callback (Callback.handle_roster_presence item resource presence msg)

  -- The rest of the run, from a name that is known, whatever way it ends.
  known_stays :
      (ts : List Turn) (v : View) {q : XmppPeer}
      → v.peers item.jid_jid.username ≡ some q
      → All (λ t. touches item.jid_jid.username t ≡ false) ts
      → (spec_all (arrival ∷ ts) v).1.peers item.jid_jid.username
        ≡ some (set_status (presence_to_status presence) q)
  unfolding spec_all spec_turn
  known_stays ts v {q} known quiet =
      let name = item.jid_jid.username in
      let o = spec_turn arrival v in
      and_then-peers name o (spec_all ts) (untouched-All name ts o.1 quiet)
      ∙ ap (λ (r : Observed). r.1.peers name) (spec_found item resource presence msg v known)
      ∙ rw (str_eq_refl name)

  -- After a presence of a name that the roster holds, and until a roster or another presence of that
  -- name arrives, the name is held with the state of that presence, and counts as connected exactly
  -- if the presence was that of a reachable entity, whatever else happens and whatever way it ends.
  pub last_presence :
      (jid_of : Str → Jid) (ts : List Turn) (w : World) {q : XmppPeer}
      → IsWired w
      → IsRoster w.client.roster
      → find item.jid_jid.username w.client.roster ≡ some q
      → All (λ t. touches item.jid_jid.username t ≡ false) ts
      → (p : XmppPeer) × (find item.jid_jid.username
            (perform_all jid_of (arrival ∷ ts) w).1.client.roster
          ≡ some p)
        × (p.username ≡ item.jid_jid.username)
        × (p.status ≡ named_alike presence)
        × (p.connected ≡ is_reachable presence)
  last_presence jid_of ts w {q} wired is known quiet =
      let name = item.jid_jid.username in
      let (connected, status, username) = set_status-presence presence q in
      (
        set_status (presence_to_status presence) q,
        ap (λ (r : Observed). r.1.peers name) (perform_all-spec_all jid_of (arrival ∷ ts) w wired)
            ∙ known_stays ts (view w) known quiet,
        username ∙ (find-AllEntries IsPeer name w.client.roster is.peers known).0,
        status,
        connected,
      )
