-- ===== src/UnorderedMap/Laws.antt =====
-- What `find` gives after each write to the map.
use cinder_xmpp.Prelude.{
  Bool-cases, inl, inr, Str, str_eq, str_eq_iff, ◌≡◌, refl, Option, none, some, [], ◌∷◌, arith,
  if◌then◌else◌,
}
use mathlib.Core.Option
use mathlib.Core.Path.{subst₂}
use cinder_xmpp.UnorderedMap.{UnorderedMap, find, insert, modify, AllEntries, IsMap}

-- `or_else o v` is `o` where it holds a value, else `some v`.
abbrev pub or_else {ℓ} : {V : Type ℓ} → Option V → V → Option V
or_else none v = some v
or_else (some w) v = some w

module _ {ℓ} {V : Type ℓ} where
  pub find-insert :
      (k j : Str) (v : V) (m : UnorderedMap V)
      → find j (insert k v m) ≡ (if str_eq k j then or_else (find k m) v else find j m)
  unfolding find insert
  find-insert k j v [] = refl
  find-insert k j v ((i, w) ∷ m) =
      ground (arith, str_eq_iff k j, str_eq_iff i k, str_eq_iff i j, find-insert k j v m)

  pub find-modify :
      (k j : Str) (f : V → V) (m : UnorderedMap V)
      → find j (modify k f m) ≡ (if str_eq k j then Option.map f (find j m) else find j m)
  unfolding find modify
  find-modify k j f [] = ground arith
  find-modify k j f ((i, w) ∷ m) =
      ground (arith, str_eq_iff k j, str_eq_iff i k, str_eq_iff i j, find-modify k j f m)

  pub insert-IsMap : (k : Str) (v : V) (m : UnorderedMap V) → IsMap m → IsMap (insert k v m)
  unfolding find insert
  insert-IsMap k v [] h = (refl, tt)
  insert-IsMap k v ((i, w) ∷ m) h =
      ground (arith, str_eq_iff i k, str_eq_iff k i, find-insert k i v m, insert-IsMap k v m h.1)

  pub modify-IsMap : (k : Str) (f : V → V) (m : UnorderedMap V) → IsMap m → IsMap (modify k f m)
  unfolding find modify
  modify-IsMap k f [] h = tt
  modify-IsMap k f ((i, w) ∷ m) h =
      ground (arith, str_eq_iff i k, str_eq_iff k i, find-modify k i f m, modify-IsMap k f m h.1)

  pub AllEntries-insert {κ} :
      (P : Str → V → Type κ) (k : Str) (v : V) (m : UnorderedMap V)
      → P k v
      → AllEntries P m
      → AllEntries P (insert k v m)
  unfolding insert
  AllEntries-insert P k v [] p h = (p, tt)
  AllEntries-insert P k v ((i, w) ∷ m) p h = elim (Bool-cases (str_eq i k)) [
    | inl same ↦ rw same h
    | inr other ↦ rw other (h.0, AllEntries-insert P k v m p h.1)
  ]

  pub AllEntries-modify {κ} :
      (P : Str → V → Type κ) (k : Str) (f : V → V) (m : UnorderedMap V)
      → ((j : Str) (v : V) → P j v → P j (f v))
      → AllEntries P m
      → AllEntries P (modify k f m)
  unfolding modify
  AllEntries-modify P k f [] keep h = tt
  AllEntries-modify P k f ((i, w) ∷ m) keep h = elim (Bool-cases (str_eq i k)) [
    | inl same ↦ rw same (keep i w h.0, h.1)
    | inr other ↦ rw other (h.0, AllEntries-modify P k f m keep h.1)
  ]

  pub find-AllEntries {κ} :
      (P : Str → V → Type κ) (k : Str) {v : V} (m : UnorderedMap V)
      → AllEntries P m
      → find k m ≡ some v
      → P k v
  unfolding find
  find-AllEntries P k [] h e = cc
  find-AllEntries P k {v} ((i, w) ∷ m) h e = elim (Bool-cases (str_eq i k)) [
    | inl same ↦ subst₂ P ((str_eq_iff i k).0 same) (ground arith) h.0
    | inr other ↦ find-AllEntries P k m h.1 (ground arith)
  ]
