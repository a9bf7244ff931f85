-- ===== src/System/Slots.antt =====
-- Slots that call back: what the application connects to the signals may call `connect` and
-- `sendMessage` while the callback that raised the signal is still running.
pub mod Handlers
pub mod Replies
pub mod Expansion
pub mod Reconnecting
use cinder_xmpp.Prelude.{
  Bool, ap, ◌≡◌, refl, sym, ◌∙◌, Str, Bool, true, false, Option, none, some, List, [], ◌∷◌, ◌++◌,
  map, arith, append-nil, Bool-cases, Option-cases, inl, inr, ◌==◌, str_eq_refl,
}
use cinder_xmpp.UnorderedMap.{find, modify}
use cinder_xmpp.Gloox.{
  null, Jid, ConnectionError, CertInfo, Message, MessageSession, RosterItem, Roster, PresenceType,
}
use mathlib.Core.Option.{get_or}
use cinder_xmpp.UnorderedMap.Laws.{find-modify}
use cinder_xmpp.Peer.{default_peer, set_status, presence_to_status}
use cinder_xmpp.World.{
  gets, World, Outcome, done, threw, undefined, terminated, Effect, signal, Signal, Action, ◌>>=◌,
  ◌>>◌, pure, Slots, no_slots, raise_signal, modify_listener,
}
use cinder_xmpp.World.Laws.{Run, resume, signals}
use cinder_xmpp.Client.{exception_of, add_items}
use cinder_xmpp.Client.Delegate
use cinder_xmpp.Listener
use cinder_xmpp.Listener.{to_delegate, set_connected}
use cinder_xmpp.Listener.Callbacks
use cinder_xmpp.Client.Api
use cinder_xmpp.System.{request, void, Callback, deliver, Request, Turn, perform, perform_all}
use cinder_xmpp.System.Refinement.{perform-void}

-- A callback where slots are connected.
unfoldable pub deliver_with : Slots → Callback → Action (Option Bool)
deliver_with slots Callback.on_connect = void (Callbacks.on_connect slots)
deliver_with slots (Callback.on_disconnect e) = void (Callbacks.on_disconnect slots e)
deliver_with slots (Callback.on_tls_connect info) = do
  b ← Callbacks.on_tls_connect slots info
  pure (some b)
deliver_with slots (Callback.handle_message msg sess) =
    void (Callbacks.handle_message slots msg sess)
deliver_with slots (Callback.handle_roster items) = void (Callbacks.handle_roster slots items)
deliver_with slots (Callback.handle_roster_presence item resource presence msg) =
    void (Callbacks.handle_roster_presence slots item resource presence msg)
deliver_with slots c = deliver c

module _ (jid_of : Str → Jid) (replies : Signal → Bool → List Request) where
  -- The slots of a signal make these calls, one after the other. Which ones may depend on what
  -- `isConnected` answers when the signal is raised.
  abbrev pub replying : Slots
  replying s = do b ← gets Api.is_connected; perform_all jid_of (map Turn.ask (replies s b))

  unfoldable pub perform_with : Turn → Action (Unit {0})
  perform_with (Turn.callback c) = do deliver_with replying c; pure tt
  perform_with (Turn.ask r) = perform jid_of (Turn.ask r)

  unfoldable pub perform_all_with : List Turn → Action (Unit {0})
  perform_all_with [] = pure tt
  perform_all_with (t ∷ ts) = do perform_with t; perform_all_with ts

  -- The calls that answer these signals.
  unfoldable pub answers : Bool → List Signal → List Request
  answers b [] = []
  answers b (s ∷ ss) = replies s b ++ answers b ss

  unfoldable pub replied : World → List Signal → List Turn
  unfolding answers
  replied w ss = map Turn.ask (answers (Api.is_connected w) ss)

  -- The turns as they happen: each is followed by the answers to its signals.
  unfoldable pub expand : List Turn → World → List Turn
  unfolding replied signals
  expand [] w = []
  expand (t ∷ ts) w =
      let us = t ∷ replied (perform jid_of t w).1 (signals (perform jid_of t w).2) in
      us ++ expand ts (perform_all jid_of us w).1
