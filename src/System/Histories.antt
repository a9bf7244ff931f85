-- ===== src/System/Histories.antt =====
-- The specification over sequences of turns.
use cinder_xmpp.Prelude.{
  fun_ext, ap, ◌≡◌, ◌≢◌, refl, sym, ◌∙◌, List, [], ◌∷◌, ◌++◌, arith, append_assoc, Option-cases,
  inl, inr,
}
use cinder_xmpp.Gloox.{ConnectionError, conn_no_error}
use cinder_xmpp.World.{Outcome, done, threw, undefined, terminated, Exception, Signal}
use cinder_xmpp.Client.{exception_of}
use cinder_xmpp.System.{Callback, Turn}
use cinder_xmpp.System.Spec.{View, Observed, spec_turn, and_then, spec_all}

and_then_assoc :
    (o : Observed) (f g : View → Observed)
    → and_then (and_then o f) g ≡ and_then o (λ v. and_then (f v) g)
and_then_assoc (done a, v, ss) f g = settle (f v).0 (f v).1 (f v).2
  where
    settle :
        (r : Outcome (Unit {0})) (v' : View) (ts : List Signal)
        → and_then (r, v', ss ++ ts) g
          ≡ (let (r', v'', us) = and_then (r, v', ts) g in (r', v'', ss ++ us))
    settle (done b) v' ts = simp append_assoc
    settle (threw x) v' ts = refl
    settle undefined v' ts = refl
    settle terminated v' ts = refl
and_then_assoc (threw x, v, ss) f g = refl
and_then_assoc (undefined, v, ss) f g = refl
and_then_assoc (terminated, v, ss) f g = refl

pub spec_all-append :
    (ts us : List Turn) (v : View) → spec_all (ts ++ us) v ≡ and_then (spec_all ts v) (spec_all us)
unfolding spec_all
spec_all-append [] us v = refl
spec_all-append (t ∷ ts) us v =
    ap (and_then (spec_turn t v)) (fun_ext (spec_all-append ts us))
    ∙ sym (and_then_assoc (spec_turn t v) (spec_all ts) (spec_all us))

pub and_then-done :
    (o : Observed) (f : View → Observed) → o.0 ≡ done tt → (and_then o f).0 ≡ (f o.1).0
and_then-done (done a, v, ss) f h = refl
and_then-done (threw x, v, ss) f h = cc
and_then-done (undefined, v, ss) f h = cc
and_then-done (terminated, v, ss) f h = cc

and_then-threw :
    (o : Observed) (f : View → Observed) {x : Exception}
    → o.0 ≡ threw x
    → (and_then o f).0 ≡ threw x
and_then-threw (done a, v, ss) f h = cc
and_then-threw (threw x, v, ss) f h = h
and_then-threw (undefined, v, ss) f h = cc
and_then-threw (terminated, v, ss) f h = cc

disconnect_throws :
    (e : ConnectionError) (v : View)
    → e ≢ conn_no_error
    → (x : Exception) × ((spec_turn (Turn.callback (Callback.on_disconnect e)) v).0 ≡ threw x)
unfolding spec_turn exception_of
disconnect_throws e v h = elim (Option-cases (exception_of e)) [
  | inl p ↦ absurd (h (ground arith))
  | inr (x, p) ↦ (x, ground arith)
]

-- After turns that end well, a disconnect with an error is an exception, whatever would follow.
pub spec_all-disconnect :
    (before behind : List Turn) (e : ConnectionError) (v : View)
    → (spec_all before v).0 ≡ done tt
    → e ≢ conn_no_error
    → (x : Exception) × ((spec_all
          (before ++ Turn.callback (Callback.on_disconnect e) ∷ behind)
          v).0
        ≡ threw x)
unfolding spec_all
spec_all-disconnect before behind e v fine bad =
    let t = Turn.callback (Callback.on_disconnect e) in
    let v' = (spec_all before v).1 in
    let (x, thrown) = disconnect_throws e v' bad in
    (
      x,
      ap (λ (o : Observed). o.0) (spec_all-append before (t ∷ behind) v)
          ∙ and_then-done (spec_all before v) (spec_all (t ∷ behind)) fine
          ∙ and_then-threw (spec_turn t v') (spec_all behind) thrown,
    )

-- Where turns end well, each part of them has, and the last has the say.
pub and_then-well :
    (o : Observed) (f : View → Observed)
    → (and_then o f).0 ≡ done tt
    → ((and_then o f).1 ≡ (f o.1).1) × ((f o.1).0 ≡ done tt)
and_then-well (done a, v, ss) f h = (refl, h)
and_then-well (threw x, v, ss) f h = cc
and_then-well (undefined, v, ss) f h = cc
and_then-well (terminated, v, ss) f h = cc
