-- ===== src/System/Interleaving/Ending.antt =====
-- `sendMessage` comes to an end, whatever the other thread does meanwhile.
use cinder_xmpp.Prelude.{
  ℕ, ◌+◌, ◌≤◌, ◌≡◌, Str, true, false, Bool-cases, inl, inr, List, arith, zero, suc, refl, ◌<◌, Bool,
  if◌then◌else◌,
}
use cinder_xmpp.Gloox.{Jid}
use cinder_xmpp.World.{World, Effect}
use cinder_xmpp.System.Interleaving.Sent.{Reach-sent}
use cinder_xmpp.System.Interleaving.{
  Sending, addressing, testing_flag, testing_client, handing_over, answered, crashed, is_over,
  advance, Reach, here, step, callback,
}

-- How many steps are left at most.
abbrev pub remaining : Sending → ℕ
remaining addressing = 4
remaining (testing_flag jid) = 3
remaining (testing_client jid) = 2
remaining (handing_over jid) = 1
remaining (answered b) = 0
remaining crashed = 0

pub remaining-eq-zero : (s : Sending) → remaining s ≡ 0 → is_over s ≡ true
remaining-eq-zero s h = ground arith

remaining_pos : (s : Sending) → is_over s ≡ false → 0 < remaining s
remaining_pos s h = ground arith

module _ (jid_of : Str → Jid) (recipient message subject : Str) where
  pub advance-lt :
      (s : Sending) (w : World)
      → is_over s ≡ false
      → remaining (advance jid_of recipient message subject s w).0 < remaining s
  unfolding advance
  advance-lt s w o = ground arith

  Reach-remaining :
      {s : Sending} {w : World} {n : ℕ} {s' : Sending} {w' : World} {es : List Effect}
      → Reach jid_of recipient message subject s w n s' w' es
      → n + remaining s' ≤ remaining s
  Reach-remaining (here e) = omega arith
  Reach-remaining (step {s' = s'} {w' = w'} r o) =
      omega (arith, advance-lt s' w' o, Reach-remaining r)
  Reach-remaining (callback c r e) = Reach-remaining r

  -- However many callbacks run in between, `sendMessage` takes four steps at most, and three at most
  -- while it has not ended.
  pub Reach-bounded :
      {n : ℕ} {s : Sending} {w w' : World} {es : List Effect}
      → Reach jid_of recipient message subject addressing w n s w' es
      → n + (if is_over s then 0 else 1) ≤ 4
  Reach-bounded {s = s} r = ground (arith, remaining_pos s, Reach-remaining r)

  -- A way on to an answer, with the world as it is.
  abbrev pub CanAnswer : World → World → Type 0
  CanAnswer w w' =
      (m : ℕ) × (b : Bool) × (es : List Effect) × Reach jid_of recipient message subject addressing
        w m (answered b) w' es

  over-CanAnswer :
      {n : ℕ} {w w' : World} {es : List Effect} (s : Sending)
      → Reach jid_of recipient message subject addressing w n s w' es
      → is_over s ≡ true
      → CanAnswer w w'
  over-CanAnswer {n} {es = es} (answered b) r o = (n, b, es, r)
  over-CanAnswer {w} crashed r o = absurd ((Reach-sent jid_of recipient message subject w r).0 refl)
  over-CanAnswer _ r o = cc

  live-CanAnswer :
      (k : ℕ) {n : ℕ} {w w' : World} {es : List Effect} (s : Sending)
      → Reach jid_of recipient message subject addressing w n s w' es
      → remaining s ≤ k
      → CanAnswer w w'
  live-CanAnswer zero s r h = over-CanAnswer s r (remaining-eq-zero s (omega arith))
  live-CanAnswer (suc k) {w' = w'} s r h = elim (Bool-cases (is_over s)) [
    | inl over ↦ over-CanAnswer s r over
    | inr open_still ↦
        live-CanAnswer k (advance jid_of recipient message subject s w').0 (step r open_still)
          (omega (arith, advance-lt s w' open_still))
  ]

  -- From wherever it is, and in whatever state callbacks have left the members, `sendMessage` gets to
  -- an answer by its own steps alone: it never waits for the other thread, and never crashes.
  pub Reach-CanAnswer :
      {n : ℕ} {s : Sending} {w w' : World} {es : List Effect}
      → Reach jid_of recipient message subject addressing w n s w' es
      → CanAnswer w w'
  Reach-CanAnswer {s = s} r = live-CanAnswer 4 s r (ground arith)
