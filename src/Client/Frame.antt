-- ===== src/Client/Frame.antt =====
-- A handler of the client changes nothing but the roster.
use cinder_xmpp.Client.Delegate
use cinder_xmpp.Prelude.{◌≡◌, Str, Option, none, some, arith}
use cinder_xmpp.Gloox.{ConnectionError, Message, MessageSession, RosterItem, Roster, PresenceType}
use cinder_xmpp.World.{World}
use cinder_xmpp.Client.{on_disconnect, handle_message, handle_roster, handle_roster_presence}

-- Nothing but the roster has changed.
pub record SameButRoster (w w' : World) : Type 0 where
  pub self : w'.self ≡ w.self
  pub fresh : w'.fresh ≡ w.fresh
  pub listener : w'.client.listener ≡ w.client.listener
  pub thread : w'.client.thread ≡ w.client.thread

pub on_disconnect-SameButRoster :
    (e : ConnectionError) (w : World) → SameButRoster w (on_disconnect e w).1
unfolding Delegate.on_disconnect
on_disconnect-SameButRoster e w = ground arith

pub handle_message-SameButRoster :
    (msg : Message) (sess : Option MessageSession) (w : World)
    → SameButRoster w (handle_message msg sess w).1
unfolding Delegate.handle_message
handle_message-SameButRoster msg none w = ground arith
handle_message-SameButRoster msg (some s) w = ground arith

pub handle_roster-SameButRoster :
    (items : Roster) (w : World) → SameButRoster w (handle_roster items w).1
unfolding Delegate.handle_roster
handle_roster-SameButRoster items w = ground arith

pub handle_roster_presence-SameButRoster :
    (item : RosterItem) (resource : Str) (presence : PresenceType) (msg : Str) (w : World)
    → SameButRoster w (handle_roster_presence item resource presence msg w).1
unfolding Delegate.handle_roster_presence
handle_roster_presence-SameButRoster item resource presence msg w = ground arith
