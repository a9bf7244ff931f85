-- ===== src/Client/Presences.antt =====
-- `XmppClient::handleRosterPresence`: the peer that changes, and the name that is not there.
use cinder_xmpp.Client.Delegate
use cinder_xmpp.Prelude.{
  ◌≡◌, ◌↔◌, refl, sym, ap, ◌∙◌, Str, str_eq, str_eq_iff, str_eq_refl, none, some, [], ◌∷◌, arith,
  if◌then◌else◌, Option-cases, inl, inr,
}
use cinder_xmpp.UnorderedMap.{UnorderedMap, find, modify}
use cinder_xmpp.UnorderedMap.Laws.{find-modify, modify-IsMap, AllEntries-modify}
use cinder_xmpp.Gloox.{RosterItem, PresenceType}
use cinder_xmpp.Peer.{Status, XmppPeer, set_status, presence_to_status}
use cinder_xmpp.World.{World, done, undefined, Signal, signal}
use cinder_xmpp.Client.{handle_roster_presence}
use cinder_xmpp.Client.Rosters.{IsPeer, IsRoster}

set_status-IsPeer :
    (k : Str) (status : Status) (p : XmppPeer) → IsPeer k p → IsPeer k (set_status status p)
unfolding set_status
set_status-IsPeer k status p h = (h.0, refl)

pub modify-IsRoster :
    (k : Str) (status : Status) (m : UnorderedMap XmppPeer)
    → IsRoster m
    → IsRoster (modify k (set_status status) m)
modify-IsRoster k status m h = record {
  is_map = modify-IsMap k (set_status status) m h.is_map;
  peers =
      AllEntries-modify IsPeer k (set_status status) m (λ j p. set_status-IsPeer j status p)
        h.peers;
}

module _ (item : RosterItem) (resource : Str) (presence : PresenceType) (msg : Str)
    (w : World) where
  -- A presence of a name that the roster holds sets the state of that peer, and of no other, and
  -- signals the peer as it is after the change.
  pub handle_roster_presence_found :
      {p : XmppPeer}
      → find item.jid_jid.username w.client.roster ≡ some p
      → let status = presence_to_status presence in
        let p' = set_status status p in
        let (r, w', es) = handle_roster_presence item resource presence msg w in
        (r ≡ done tt)
        × (es ≡ signal (Signal.roster_presence p' resource status msg) ∷ [])
        × ((k : Str)
            → find k w'.client.roster
              ≡ (if str_eq item.jid_jid.username k then some p' else find k w.client.roster))
  unfolding Delegate.handle_roster_presence
  handle_roster_presence_found {p} h = (
    ground (arith, find-modify name name f w.client.roster, str_eq_refl name),
    ground (arith, find-modify name name f w.client.roster, str_eq_refl name),
    λ k. ground (arith, find-modify name k f w.client.roster, str_eq_iff name k),
  )
    where
      name : Str
      name = item.jid_jid.username

      f : XmppPeer → XmppPeer
      f = set_status (presence_to_status presence)

  pub missing_undefined :
      find item.jid_jid.username w.client.roster ≡ none
      → handle_roster_presence item resource presence msg w ≡ (undefined, w, [])
  unfolding Delegate.handle_roster_presence
  missing_undefined e = ground arith

  undefined_missing :
      (handle_roster_presence item resource presence msg w).0 ≡ undefined
      → find item.jid_jid.username w.client.roster ≡ none
  undefined_missing e = elim (Option-cases (find item.jid_jid.username w.client.roster)) [
    | inl missing ↦ missing
    | inr (p, found) ↦ cc (sym (handle_roster_presence_found found).0 ∙ e)
  ]

  -- The run is undefined exactly for a name that the roster does not hold, whatever was done until
  -- there: the iterator is then at the end when the signal reads through it. An undefined run has
  -- changed and signalled nothing.
  pub handle_roster_presence_missing :
      let (r, w', es) = handle_roster_presence item resource presence msg w in
      ((find item.jid_jid.username w.client.roster ≡ none) ↔ (r ≡ undefined))
      × (r ≡ undefined → (w' ≡ w) × (es ≡ []))
  handle_roster_presence_missing = (
    (λ e. ap (λ t. t.0) (missing_undefined e), undefined_missing),
    λ e.
        let same = missing_undefined (undefined_missing e) in
        (ap (λ t. t.1) same, ap (λ t. t.2) same),
  )

  found_roster :
      {p : XmppPeer}
      → find item.jid_jid.username w.client.roster ≡ some p
      → (handle_roster_presence item resource presence msg w).1.client.roster
        ≡ modify item.jid_jid.username (set_status (presence_to_status presence)) w.client.roster
  unfolding Delegate.handle_roster_presence
  found_roster h = ground (
    arith,
    find-modify item.jid_jid.username item.jid_jid.username
        (set_status (presence_to_status presence)) w.client.roster,
  )

  -- A presence keeps the roster well formed, also where its name is not in it.
  pub handle_roster_presence-IsRoster :
      IsRoster w.client.roster
      → IsRoster (handle_roster_presence item resource presence msg w).1.client.roster
  handle_roster_presence-IsRoster h =
      elim (Option-cases (find item.jid_jid.username w.client.roster)) [
        | inl missing ↦ rw (missing_undefined missing) h
        | inr (p, found) ↦
            rw (found_roster found) (
              modify-IsRoster item.jid_jid.username (presence_to_status presence) w.client.roster h)
      ]
