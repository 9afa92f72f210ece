-- ===== src/Authority/Table.antt =====
-- `HashMap` as an association list, for keys that a Boolean test decides.
use dot_terminal.Prelude.{
  ◌≡◌, ◌↔◌, refl, Bool, true, ◌&&◌, Option, none, some, List, [], ◌∷◌, arith, if◌then◌else◌,
  list_eq, list_eq_iff, Bytes,
}

module _ {K V : Type 0} (same : K → K → Bool) where
  unfoldable pub lookup : K → List (K × V) → Option V
  lookup k [] = none
  lookup k ((j, v) ∷ m) = if same j k then some v else lookup k m

  unfoldable pub insert : K → V → List (K × V) → List (K × V)
  insert k v [] = (k, v) ∷ []
  insert k v ((j, w) ∷ m) = if same j k then (k, v) ∷ m else (j, w) ∷ insert k v m

  pub lookup-insert :
      ((a b : K) → (same a b ≡ true) ↔ (a ≡ b))
      → (k j : K) (v : V) (m : List (K × V))
      → lookup j (insert k v m) ≡ (if same k j then some v else lookup j m)
  unfolding lookup insert
  lookup-insert iff k j v [] = refl
  lookup-insert iff k j v ((i, w) ∷ m) =
      ground (arith, iff k j, iff i k, iff i j, lookup-insert iff k j v m)

-- (grant id, nonce)
abbrev pub OpKey : Type 0
OpKey = Bytes × Bytes

abbrev pub same_op : OpKey → OpKey → Bool
same_op a b = list_eq a.0 b.0 && list_eq a.1 b.1

pub same_op_iff : (a b : OpKey) → (same_op a b ≡ true) ↔ (a ≡ b)
same_op_iff (a, c) (b, d) = ground (arith, list_eq_iff a b, list_eq_iff c d)
