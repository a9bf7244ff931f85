-- ===== src/System/Orderly.antt =====
-- Histories in which gloox calls back in order, and what the wrapper makes of them.
pub mod Verdict
use cinder_xmpp.Prelude.{
  ◌≡◌, ◌≢◌, ◌<◌, Str, str_eq, is_empty, Bool, true, false, not, ◌&&◌, ◌||◌, none, some, List, [],
  ◌∷◌, ◌==◌, is_some, arith, Option-cases, inl, inr, ap, str_eq_iff, Bool-cases, sym, refl, ◌∙◌,
  ◌↔◌,
}
use cinder_xmpp.Peer.{XmppPeer, set_status, presence_to_status}
use cinder_xmpp.UnorderedMap.{find}
use cinder_xmpp.System.Histories.{and_then-done}
use cinder_xmpp.Gloox.{RosterItem, PresenceType, ConnectionError, Jid, null, Ptr}
use cinder_xmpp.World.{done, threw, undefined, terminated}
use cinder_xmpp.Client.{exception_of}
use cinder_xmpp.Listener.{is_no_error, new_listener}
use cinder_xmpp.Client.Rosters.{names, contains}
use cinder_xmpp.System.{Callback, Request, Turn, perform_all, start}
use cinder_xmpp.System.Wiring.{start-IsWired}
use cinder_xmpp.System.Spec.{
  View, Observed, view, spec_callback, spec_request, spec_turn, and_then, spec_all, update,
}
use cinder_xmpp.System.Refinement.{perform_all-spec_all, spec_found}

-- What gloox may call back, once a client was made or not, and after a roster of the known names.
unfoldable is_due : Bool → List Str → Turn → Bool
is_due ready known (Turn.callback (Callback.handle_roster_presence item resource presence msg)) =
    contains item.jid_jid.username known
is_due ready known (Turn.callback (Callback.handle_message msg sess)) = is_some sess
is_due ready known (Turn.callback (Callback.handle_message_session s)) = ready && not (s == null)
is_due ready known _ = true

-- The names of the last roster.
unfoldable known_after : List Str → Turn → List Str
known_after known (Turn.callback (Callback.handle_roster items)) = names items
known_after known _ = known

-- Whether a client was made.
unfoldable ready_after : Bool → Turn → Bool
ready_after ready (Turn.ask (Request.connect user server)) =
    ready || not (is_empty user || is_empty server)
ready_after ready _ = ready

-- Whether a turn ends the run: a disconnect with an error throws, and the second `connect` that is
-- not refused ends the process.
unfoldable stops : Bool → Turn → Bool
stops ready (Turn.callback (Callback.on_disconnect e)) = not (is_no_error e)
stops ready (Turn.ask (Request.connect user server)) =
    ready && not (is_empty user || is_empty server)
stops ready _ = false

-- Each turn is due, up to one that ends the run.
pub is_orderly : Bool → List Str → List Turn → Bool
is_orderly ready known [] = true
is_orderly ready known (t ∷ ts) =
    let rest = is_orderly (ready_after ready t) (known_after known t) ts in
    is_due ready known t && (stops ready t || rest)

-- The view has peers under exactly these names, and a thread if there is a client.
record Expects (ready : Bool) (known : List Str) (v : View) : Type 0 where
  client : v.ready ≡ ready
  thread : v.started ≡ ready
  knows : (k : Str) → is_some (v.peers k) ≡ contains k known

no_error_iff : (e : ConnectionError) → is_no_error e ≡ not (is_some (exception_of e))
unfolding is_no_error exception_of
no_error_iff e = ground arith

module _ (ready : Bool) (known : List Str) (v : View) (x : Expects ready known v) where
  undue-undefined : (t : Turn) → is_due ready known t ≡ false → (spec_turn t v).0 ≡ undefined
  unfolding spec_turn spec_callback spec_request is_due
  undue-undefined (Turn.callback (Callback.handle_roster_presence item resource presence msg)) h =
      ground (arith, x.knows item.jid_jid.username)
  undue-undefined (Turn.callback (Callback.handle_message msg none)) h = ground arith
  undue-undefined (Turn.callback (Callback.handle_message msg (some s))) h = ground arith
  undue-undefined (Turn.callback (Callback.handle_message_session s)) h = ground arith
  undue-undefined t h = ground arith

  stops-undone :
      (t : Turn)
      → is_due ready known t ≡ true
      → stops ready t ≡ true
      → ((spec_turn t v).0 ≢ undefined) × ((spec_turn t v).0 ≢ done tt)
  unfolding spec_turn spec_callback spec_request is_due stops
  stops-undone (Turn.callback (Callback.on_disconnect e)) d h = ground (arith, no_error_iff e)
  stops-undone (Turn.ask (Request.connect user server)) d h = ground arith
  stops-undone t d h = ground arith

  due-done :
      (t : Turn) → is_due ready known t ≡ true → stops ready t ≡ false → (spec_turn t v).0 ≡ done tt
  unfolding spec_turn spec_callback spec_request is_due stops
  due-done (Turn.callback (Callback.handle_roster_presence item resource presence msg)) d h =
      ground (arith, x.knows item.jid_jid.username)
  due-done (Turn.callback (Callback.handle_message msg none)) d h = ground arith
  due-done (Turn.callback (Callback.handle_message msg (some s))) d h = ground arith
  due-done (Turn.callback (Callback.on_disconnect e)) d h = ground (arith, no_error_iff e)
  due-done (Turn.ask (Request.connect user server)) d h = ground arith
  due-done t d h = ground arith

  -- A presence changes the peer that is held under a name, and adds none.
  update-knows :
      (name : Str) (p : XmppPeer)
      → contains name known ≡ true
      → (k : Str) → is_some (update name p v.peers k) ≡ contains k known
  update-knows name p d k = elim (Bool-cases (str_eq name k)) [
    | inl same ↦ rw same (rw (← (str_eq_iff name k).0 same) (sym d))
    | inr other ↦ rw other (x.knows k)
  ]

  presence-Expects :
      (item : RosterItem) (resource : Str) (presence : PresenceType) (msg : Str)
      → contains item.jid_jid.username known ≡ true
      → Expects ready known
          (spec_callback (Callback.handle_roster_presence item resource presence msg) v).1
  presence-Expects item resource presence msg d =
      elim (Option-cases (v.peers item.jid_jid.username)) [
        | inl missing ↦ absurd (ground (arith, x.knows item.jid_jid.username))
        | inr (p, found) ↦ rw (spec_found item resource presence msg v found) (record {
          client = x.client;
          thread = x.thread;
          knows = update-knows item.jid_jid.username (set_status (presence_to_status presence) p) d;
        })
      ]

  Expects-turn :
      (t : Turn)
      → is_due ready known t ≡ true
      → stops ready t ≡ false
      → Expects (ready_after ready t) (known_after known t) (spec_turn t v).1
  unfolding spec_turn spec_callback spec_request is_due stops ready_after known_after
  Expects-turn (Turn.ask (Request.connect user server)) d h = ground arith
  Expects-turn (Turn.callback (Callback.handle_roster items)) d h = record {
    client = x.client;
    thread = x.thread;
    knows = λ k. elim (Bool-cases (contains k (names items))) [
      | inl held ↦ ground arith
      | inr not_held ↦ ground arith
    ];
  }
  Expects-turn (Turn.callback (Callback.handle_roster_presence item resource presence msg)) d h =
      presence-Expects item resource presence msg d
  Expects-turn t d h = ground arith

and_then-undefined :
    (o : Observed) (f : View → Observed) → o.0 ≡ undefined → (and_then o f).0 ≡ undefined
and_then-undefined (done a, v, ss) f h = cc
and_then-undefined (threw x, v, ss) f h = cc
and_then-undefined (undefined, v, ss) f h = h
and_then-undefined (terminated, v, ss) f h = cc

and_then-stopped :
    (o : Observed) (f : View → Observed)
    → o.0 ≢ undefined
    → o.0 ≢ done tt
    → (and_then o f).0 ≢ undefined
and_then-stopped (done a, v, ss) f p q = absurd (q refl)
and_then-stopped (threw x, v, ss) f p q = p
and_then-stopped (undefined, v, ss) f p q = p
and_then-stopped (terminated, v, ss) f p q = p

spec_all-is_orderly :
    (ts : List Turn) (ready : Bool) (known : List Str) (v : View)
    → Expects ready known v
    → ((spec_all ts v).0 ≡ undefined) ↔ (is_orderly ready known ts ≡ false)
unfolding spec_all is_orderly
spec_all-is_orderly [] ready known v x = ground arith
spec_all-is_orderly (t ∷ ts) ready known v x = elim (Bool-cases (is_due ready known t)) [
  | inr undue ↦ ground (
    arith,
    and_then-undefined (spec_turn t v) (spec_all ts) (undue-undefined ready known v x t undue),
  )
  | inl due ↦ elim (Bool-cases (stops ready t)) [
    | inl stop ↦
        let (p, q) = stops-undone ready known v x t due stop in
        ground (arith, and_then-stopped (spec_turn t v) (spec_all ts) p q)
    | inr go ↦
        let ih =
          spec_all-is_orderly ts (ready_after ready t) (known_after known t) (spec_turn t v).1
            (Expects-turn ready known v x t due go) in
        ground (
          arith,
          ih,
          and_then-done (spec_turn t v) (spec_all ts) (due-done ready known v x t due go),
        )
  ]
]

start-Expects : (self fresh : Ptr) → Expects false [] (view (start self fresh))
unfolding start new_listener contains find
start-Expects self fresh = ground arith

-- A run of a new client is undefined exactly if the history is out of order: a turn, before one that
-- ends the run, is a presence of a name that the last roster does not have, a message without a
-- session, or a session that is null or comes before any client was made.
pub perform_all-is_orderly :
    (jid_of : Str → Jid) (ts : List Turn) (self fresh : Ptr)
    → 0 < self
    → 0 < fresh
    → ((perform_all jid_of ts (start self fresh)).0 ≡ undefined) ↔ (is_orderly false [] ts ≡ false)
perform_all-is_orderly jid_of ts self fresh self_pos fresh_pos =
    let w = start self fresh in
    let e =
      ap (λ (o : Observed). o.0)
        (perform_all-spec_all jid_of ts w (start-IsWired self fresh self_pos fresh_pos)) in
    let (f, g) = spec_all-is_orderly ts false [] (view w) (start-Expects self fresh) in
    ((λ h. f (sym e ∙ h)), (λ h. e ∙ g h))
