-- ===== src/System/Orderly/Verdict.antt =====
-- How a history ends, told from the history alone.
use cinder_xmpp.Prelude.{
  ◌≡◌, ◌≢◌, refl, sym, ap, ◌∙◌, ◌<◌, Str, is_empty, Bool, false, not, ◌&&◌, ◌||◌, Option, none,
  some, List, [], ◌∷◌, arith, Bool-cases, Option-cases, inl, inr, if◌then◌else◌,
}
use cinder_xmpp.Gloox.{Jid, Ptr}
use cinder_xmpp.World.{Outcome, done, threw, undefined, terminated}
use cinder_xmpp.Client.{exception_of}
use cinder_xmpp.System.{Callback, Request, Turn, perform_all, start}
use cinder_xmpp.System.Wiring.{start-IsWired}
use cinder_xmpp.System.Spec.{
  View, Observed, view, spec_callback, spec_request, spec_turn, and_then, spec_all,
}
use cinder_xmpp.System.Histories.{and_then-done}
use cinder_xmpp.System.Refinement.{perform_all-spec_all}
use cinder_xmpp.System.Orderly.{
  is_due, known_after, ready_after, stops, Expects, no_error_iff, undue-undefined, due-done,
  Expects-turn, start-Expects,
}

-- What a turn that is due ends the run with, if it does.
unfoldable pub ending : Bool → Turn → Option (Outcome (Unit {0}))
ending ready (Turn.callback (Callback.on_disconnect e)) = elim (exception_of e) [
  | none ↦ none
  | some x ↦ some (threw x)
]
ending ready (Turn.ask (Request.connect user server)) =
    if ready && not (is_empty user || is_empty server) then some terminated else none
ending ready _ = none

-- The first turn that is not due, or that ends the run, decides.
unfoldable pub verdict : Bool → List Str → List Turn → Outcome (Unit {0})
unfolding is_due ending known_after ready_after
verdict ready known [] = done tt
verdict ready known (t ∷ ts) =
    let rest = verdict (ready_after ready t) (known_after known t) ts in
    if is_due ready known t then elim (ending ready t) [ none ↦ rest | some o ↦ o ] else undefined

stops-ending : (ready : Bool) (t : Turn) → ending ready t ≡ none → stops ready t ≡ false
unfolding ending stops
stops-ending ready (Turn.callback (Callback.on_disconnect e)) h = ground (arith, no_error_iff e)
stops-ending ready (Turn.ask (Request.connect user server)) h = ground arith
stops-ending ready t h = ground arith

-- It ends so, and not well.
spec_turn-ending :
    (ready : Bool) (known : List Str) (v : View)
    → Expects ready known v
    → (t : Turn) {o : Outcome (Unit {0})} → ending ready t ≡ some o
    → ((spec_turn t v).0 ≡ o) × (o ≢ done tt)
unfolding ending spec_turn spec_callback spec_request
spec_turn-ending ready known v x (Turn.callback (Callback.on_disconnect e)) h = ground arith
spec_turn-ending ready known v x (Turn.ask (Request.connect user server)) h =
    ground (arith, x.client, x.thread)
spec_turn-ending ready known v x t h = ground arith

and_then-ended : (o : Observed) (f : View → Observed) → o.0 ≢ done tt → (and_then o f).0 ≡ o.0
and_then-ended (done a, v, ss) f h = absurd (h refl)
and_then-ended (threw x, v, ss) f h = refl
and_then-ended (undefined, v, ss) f h = refl
and_then-ended (terminated, v, ss) f h = refl

spec_all-verdict :
    (ts : List Turn) (ready : Bool) (known : List Str) (v : View)
    → Expects ready known v
    → (spec_all ts v).0 ≡ verdict ready known ts
unfolding spec_all verdict
spec_all-verdict [] ready known v x = refl
spec_all-verdict (t ∷ ts) ready known v x = elim (Bool-cases (is_due ready known t)) [
  | inr undue ↦
      let ends = undue-undefined ready known v x t undue in
      rw undue (and_then-ended (spec_turn t v) (spec_all ts) (ground (arith, ends)) ∙ ends)
  | inl due ↦ rw due (elim (Option-cases (ending ready t)) [
    | inl none_there ↦
        let go = stops-ending ready t none_there in
        rw none_there (
          and_then-done (spec_turn t v) (spec_all ts) (due-done ready known v x t due go)
          ∙ spec_all-verdict ts (ready_after ready t) (known_after known t) (spec_turn t v).1
              (Expects-turn ready known v x t due go))
    | inr (o, e) ↦
        let (ends, bad) = spec_turn-ending ready known v x t e in
        rw e (and_then-ended (spec_turn t v) (spec_all ts) (λ p. bad (sym ends ∙ p)) ∙ ends)
  ])
]

-- How a run of a new client ends is told by its history alone. It is undefined if, before anything else
-- ends it, there comes a presence of a name that the last roster lacks, a message without a session, or
-- a session that is null or comes before any client. Otherwise the first disconnect with an error
-- throws the exception of its kind, or the second `connect` that is not refused ends the process,
-- whichever comes first; and if there is none of these, the run ends well.
pub perform_all-verdict :
    (jid_of : Str → Jid) (ts : List Turn) (self fresh : Ptr)
    → 0 < self
    → 0 < fresh
    → (perform_all jid_of ts (start self fresh)).0 ≡ verdict false [] ts
perform_all-verdict jid_of ts self fresh self_pos fresh_pos =
    let w = start self fresh in
    ap (λ (o : Observed). o.0)
      (perform_all-spec_all jid_of ts w (start-IsWired self fresh self_pos fresh_pos))
    ∙ spec_all-verdict ts false [] (view w) (start-Expects self fresh)
