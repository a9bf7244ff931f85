-- ===== src/System/Slots/Handlers.antt =====
-- src/XmppClient.cpp: a handler that raises a signal is that handler without slots, and then the calls
-- that the slots make.
use cinder_xmpp.Prelude.{
  Bool, ◌≡◌, refl, Str, Option, none, some, List, [], arith, append-nil, Bool-cases, Option-cases,
  inl, inr, ◌==◌, str_eq_refl,
}
use cinder_xmpp.UnorderedMap.{find, modify}
use cinder_xmpp.Gloox.{
  null, Jid, ConnectionError, CertInfo, Message, MessageSession, RosterItem, Roster, PresenceType,
}
use mathlib.Core.Option.{get_or}
use cinder_xmpp.UnorderedMap.Laws.{find-modify}
use cinder_xmpp.Peer.{default_peer, set_status, presence_to_status}
use cinder_xmpp.World.{World, Signal, Action, Slots, no_slots, raise_signal}
use cinder_xmpp.World.Laws.{resume, signals}
use cinder_xmpp.Client.{exception_of, add_items}
use cinder_xmpp.Client.Delegate
use cinder_xmpp.Client.Api
use cinder_xmpp.Listener.{to_delegate}
use cinder_xmpp.System.{Request, perform_all}
use cinder_xmpp.System.Slots.{replying, answers, replied}

module _ (jid_of : Str → Jid) (replies : Signal → Bool → List Request) where
  abbrev slots : Slots
  slots = replying jid_of replies

  -- A run with slots is the run without them, and then the answers to its signals.
  abbrev pub Replied : Action (Unit {0}) → Action (Unit {0}) → World → Type 0
  Replied m₁ m₀ w =
      m₁ w
      ≡ resume (m₀ w) (λ _. perform_all jid_of (replied jid_of replies (m₀ w).1 (signals (m₀ w).2)))

  raise-Replied :
      (s : Signal) (w : World) → Replied (raise_signal slots s) (raise_signal no_slots s) w
  unfolding replied answers signals Api.is_connected
  raise-Replied s w = rw (append-nil (replies s (Api.is_connected w)))

  pub on_connect-Replied :
      (w : World) → Replied (Delegate.on_connect slots) (Delegate.on_connect no_slots) w
  unfolding Delegate.on_connect
  on_connect-Replied w = raise-Replied Signal.connected w

  pub on_disconnect-Replied :
      (e : ConnectionError) (w : World)
      → Replied (Delegate.on_disconnect slots e) (Delegate.on_disconnect no_slots e) w
  unfolding Delegate.on_disconnect
  on_disconnect-Replied e w = elim (Option-cases (exception_of e)) [
    | inl p ↦ rw (p, Delegate.on_disconnect) (raise-Replied Signal.disconnected w)
    | inr (x, p) ↦ rw (p, Delegate.on_disconnect)
  ]

  pub on_tls_connect-Replied :
      (info : CertInfo) (w : World)
      → Replied (Delegate.on_tls_connect slots info) (Delegate.on_tls_connect no_slots info) w
  unfolding Delegate.on_tls_connect
  on_tls_connect-Replied info w = raise-Replied Signal.tls_connected w

  pub handle_message-Replied :
      (msg : Message) (sess : Option MessageSession) (w : World)
      → Replied
          (Delegate.handle_message slots msg sess)
          (Delegate.handle_message no_slots msg sess)
          w
  unfolding Delegate.handle_message
  handle_message-Replied msg none w = refl
  handle_message-Replied msg (some s) w =
      raise-Replied
        (Signal.message (get_or (find s.target.username w.client.roster) default_peer) msg.subject
          msg.body)
        w

  pub handle_roster-Replied :
      (items : Roster) (w : World)
      → Replied (Delegate.handle_roster slots items) (Delegate.handle_roster no_slots items) w
  unfolding Delegate.handle_roster
  handle_roster-Replied items w =
      let filled = add_items items [] [] in
      raise-Replied (Signal.roster filled.1)
        (record w { client = record w.client { roster = filled.0 } })

  module _ (item : RosterItem) (resource : Str) (presence : PresenceType) (msg : Str) where
    pub handle_roster_presence-Replied :
        (w : World)
        → Replied
            (Delegate.handle_roster_presence slots item resource presence msg)
            (Delegate.handle_roster_presence no_slots item resource presence msg)
            w
    unfolding Delegate.handle_roster_presence
    handle_roster_presence-Replied w =
        let name = item.jid_jid.username in
        let status = presence_to_status presence in
        let m = modify name (set_status status) w.client.roster in
        elim (Option-cases (find name w.client.roster)) [
          | inl missing ↦ rw (missing, Delegate.handle_roster_presence) (rw missing)
          | inr (p, found) ↦
              let there : find name m ≡ some (set_status status p) = ground (
                arith,
                find-modify name name (set_status status) w.client.roster,
                str_eq_refl name,
              ) in
              rw (found, Delegate.handle_roster_presence)
                (rw there (
                  raise-Replied (Signal.roster_presence (set_status status p) resource status msg)
                    (record w { client = record w.client { roster = m } })))
        ]

  pub to_delegate-Replied :
      (m₁ m₀ : Action (Unit {0})) (w : World)
      → Replied m₁ m₀ w
      → Replied (to_delegate m₁) (to_delegate m₀) w
  unfolding perform_all replied answers signals
  to_delegate-Replied m₁ m₀ w h = elim (Bool-cases (w.client.listener.delegate == null)) [
    | inl null_there ↦ rw null_there
    | inr p ↦ rw p (elim (Bool-cases (w.client.listener.delegate == w.self)) [
      | inl attached ↦ rw attached h
      | inr dangling ↦ rw dangling
    ])
  ]
