-- ===== src/World/Monad.antt =====
-- A run of a member function: state, exceptions, undefined behaviour and effects in their order.
use cinder_xmpp.Prelude.{◌+◌, true, false, Option, none, some, List, [], ◌∷◌, ◌++◌}
use cinder_xmpp.UnorderedMap.{UnorderedMap}
use cinder_xmpp.Gloox.{Ptr, Call}
use cinder_xmpp.Peer.{XmppPeer}
use cinder_xmpp.World.State.{
  XmppListener, Thread, XmppClient, World, Exception, Signal, Effect, call, signal,
}

-- `undefined`: the run has no defined meaning from here. `terminated`: `std::terminate` was called.
pub data Outcome (A : Type 0) : Type 0 where
  done : A → Outcome A
  threw : Exception → Outcome A
  undefined : Outcome A
  terminated : Outcome A

-- What was written and emitted before an exception stays.
abbrev pub Action : Type 0 → Type 0
Action A = World → Outcome A × World × List Effect

infixl 5 ◌>>=◌ ◌>>◌
abbrev pub ◌>>=◌ : {A B : Type 0} → Action A → (A → Action B) → Action B
◌>>=◌ m f w =
    let (r, w', es) = m w in
    elim r [
      | done a ↦ (let (s, w'', fs) = f a w' in (s, w'', es ++ fs))
      | threw e ↦ (threw e, w', es)
      | undefined ↦ (undefined, w', es)
      | terminated ↦ (terminated, w', es)
    ]

abbrev pub ◌>>◌ : {A B : Type 0} → Action A → Action B → Action B
m >> k = m >>= λ _. k

module _ {A : Type 0} where
  abbrev pub pure : A → Action A
  pure a w = (done a, w, [])

  abbrev pub throw : Exception → Action A
  throw e w = (threw e, w, [])

  abbrev pub behave_undefined : Action A
  behave_undefined w = (undefined, w, [])

  abbrev pub terminate : Action A
  terminate w = (terminated, w, [])

  -- A function that may not throw: an exception that leaves it ends the process.
  abbrev pub no_throw : Action A → Action A
  no_throw m w =
      let (r, w', es) = m w in
      elim r [
        | done a ↦ (done a, w', es)
        | threw e ↦ (terminated, w', es)
        | undefined ↦ (undefined, w', es)
        | terminated ↦ (terminated, w', es)
      ]

  abbrev pub gets : (World → A) → Action A
  gets f w = (done (f w), w, [])

  -- Through a null pointer, or an iterator at the end.
  abbrev pub dereference : Option A → Action A
  dereference none = behave_undefined
  dereference (some a) = pure a

abbrev pub emit : Effect → Action (Unit {0})
emit e w = (done tt, w, e ∷ [])

abbrev pub invoke : Call → Action (Unit {0})
invoke c = emit (call c)

-- What the application does when a signal is raised.
abbrev pub Slots : Type 0
Slots = Signal → Action (Unit {0})

abbrev pub no_slots : Slots
no_slots s = pure tt

abbrev pub raise_signal : Slots → Signal → Action (Unit {0})
raise_signal slots s = do emit (signal s); slots s

-- The address that `new` gives.
abbrev pub allocate : Action Ptr
allocate w = (done w.fresh, record w { fresh = w.fresh + 1 }, [])

abbrev pub get_listener : Action XmppListener
get_listener = gets (λ w. w.client.listener)

abbrev pub modify_client : (XmppClient → XmppClient) → Action (Unit {0})
modify_client f w = (done tt, record w { client = f w.client }, [])

abbrev pub modify_listener : (XmppListener → XmppListener) → Action (Unit {0})
modify_listener f = modify_client (λ c. record c { listener = f c.listener })

abbrev pub get_roster : Action (UnorderedMap XmppPeer)
get_roster = gets (λ w. w.client.roster)

abbrev pub put_roster : UnorderedMap XmppPeer → Action (Unit {0})
put_roster m = modify_client (λ c. record c { roster = m })

-- `~thread`, of the thread behind a `shared_ptr` that may be empty.
abbrev pub release_thread : Option Thread → Action (Unit {0})
release_thread none = pure tt
release_thread (some t) = elim t.joinable [ true ↦ terminate | false ↦ pure tt ]
