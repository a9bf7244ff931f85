-- ===== src/System/Alike/Members.antt =====
-- What an `XmppClient` keeps, without the order in which `std::unordered_map` holds the roster: a
-- quotient of the worlds, on which the turns still run.
use cinder_xmpp.Prelude.{◌≡◌, Str, List, ◌∷◌, ◌++◌}
use native.Mathlib.Nat.{ℕ_set}
use mathlib.Core.List.{Perm}
use mathlib.Core.Quot
use mathlib.Core.Quot.{Quot, Quot-set}
use cinder_xmpp.Gloox.{Jid, Roster}
use cinder_xmpp.World.{Effect, Outcome}
use cinder_xmpp.Client.Rosters.{names}
use cinder_xmpp.System.{Callback, Turn, perform_all}
use cinder_xmpp.System.Alike.{Alike, perform_all-Alike}
use cinder_xmpp.System.Alike.Rosters.{unrostered, roster-SameButOrder}

abbrev pub Members : Type 0
Members = Quot Alike

-- How a run ends, what is kept, and what it did to others.
abbrev pub Ended : Type 0
Ended = Outcome (Unit {0}) × Members × List Effect

Outcome-set : IsSet (Outcome (Unit {0}))
Outcome-set = hlevel

Effects-set : IsSet (List Effect)
Effects-set = hlevel ℕ_set

pub Ended-set : IsSet Ended
Ended-set = hlevel (Outcome-set, Effects-set, Quot-set {r = Alike})

-- Turns from what is kept, which cannot depend on the order of the roster.
unfoldable pub run : (Str → Jid) → List Turn → Members → Ended
run jid_of ts =
    Quot.lift Ended-set (λ w. let (r, w', es) = perform_all jid_of ts w in (r, Quot.mk w', es))
      (λ w v a.
        let (r, e, b) = perform_all-Alike jid_of ts w v a in λ i. (r i, Quot.sound b i, e i))

-- With a roster's items in another order, whatever comes before and after it, a run ends the same way
-- and with the same members, and does the same to others but for the signals that tell a roster.
pub run-roster :
    (jid_of : Str → Jid) (items others : Roster)
    → Perm (names items) (names others)
    → (ts us : List Turn) (m : Members)
    → let (r, m', es) = run jid_of (ts ++ Turn.callback (Callback.handle_roster items) ∷ us) m in
      let (s, n', fs) = run jid_of (ts ++ Turn.callback (Callback.handle_roster others) ∷ us) m in
      (r ≡ s) × (m' ≡ n') × (unrostered es ≡ unrostered fs)
unfolding run
run-roster jid_of items others perm ts us =
    Quot.ind (λ m. hlevel (Outcome-set, Effects-set, Quot-set {r = Alike}))
      (λ w.
        let (r, f, a) = roster-SameButOrder items others perm jid_of ts us w in
        (r, Quot.sound a, f))
