-- ===== src/UnorderedMap.antt =====
-- `std::unordered_map` with text keys, as an association list: the order in which a map holds its
-- entries is not read by the program, which never iterates over one.
pub mod Laws
use cinder_xmpp.Prelude.{
  ◌≡◌, Str, str_eq, Bool, true, false, Option, none, some, List, [], ◌∷◌, if◌then◌else◌,
}

abbrev pub UnorderedMap {ℓ} : Type ℓ → Type ℓ
UnorderedMap V = List (Str × V)

module _ {ℓ} {V : Type ℓ} where
  -- `m.find(k)`: `none` is `m.end()`.
  unfoldable pub find : Str → UnorderedMap V → Option V
  find k [] = none
  find k ((j, v) ∷ m) = if str_eq j k then some v else find k m

  -- `m.insert(pair(k, v))`, which leaves an entry that is there as it is.
  unfoldable pub insert : Str → V → UnorderedMap V → UnorderedMap V
  insert k v [] = (k, v) ∷ []
  insert k v ((j, w) ∷ m) = if str_eq j k then (j, w) ∷ m else (j, w) ∷ insert k v m

  -- A write through the iterator that `m.find(k)` gave.
  unfoldable pub modify : Str → (V → V) → UnorderedMap V → UnorderedMap V
  modify k f [] = []
  modify k f ((j, w) ∷ m) = if str_eq j k then (j, f w) ∷ m else (j, w) ∷ modify k f m

  -- Every entry has the property of its key and value.
  abbrev pub AllEntries {κ} : (Str → V → Type κ) → UnorderedMap V → Type κ
  AllEntries P [] = Unit
  AllEntries P ((k, v) ∷ m) = P k v × AllEntries P m

  -- No key stands twice.
  abbrev pub IsMap : UnorderedMap V → Type ℓ
  IsMap [] = Unit
  IsMap ((k, v) ∷ m) = (find k m ≡ none) × IsMap m
