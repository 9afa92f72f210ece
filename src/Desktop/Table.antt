-- ===== src/Desktop/Table.antt =====
-- `BTreeMap<String, V>` as an association list in the order of its keys.
use dot_terminal.Prelude.{
  ℕ, ◌+◌, ◌≤◌, ◌≡◌, refl, Bool, true, false, not, Option, none, some, List, [], ◌∷◌, arith, length,
  ltb, ◌==◌, if◌then◌else◌, keep_if, All, list_eq, list_eq_iff, Text, inl, inr, Option-cases, ◌<◌,
}

-- `Ord` of strings: by their bytes, which is by their scalar values.
unfoldable pub text_lt : Text → Text → Bool
text_lt _ [] = false
text_lt [] (y ∷ ys) = true
text_lt (x ∷ xs) (y ∷ ys) = if x == y then text_lt xs ys else ltb x y

-- What both values satisfy.
by_test {ℓ κ} :
    {A : Type ℓ} (P : A → Type κ) (b : Bool) {x y : A} → P x → P y → P (if b then x else y)
by_test P true p q = p
by_test P false p q = q

module _ {V : Type 0} where
  unfoldable pub get : Text → List (Text × V) → Option V
  get k [] = none
  get k ((j, v) ∷ m) = if list_eq j k then some v else get k m

  -- In the place of the key that is there, or before the first greater key.
  unfoldable pub replace : Text → V → List (Text × V) → List (Text × V)
  replace k v [] = []
  replace k v ((j, w) ∷ m) = if list_eq j k then (k, v) ∷ m else (j, w) ∷ replace k v m

  unfoldable pub place : Text → V → List (Text × V) → List (Text × V)
  place k v [] = (k, v) ∷ []
  place k v ((j, w) ∷ m) = if text_lt k j then (k, v) ∷ (j, w) ∷ m else (j, w) ∷ place k v m

  unfoldable pub insert : Text → V → List (Text × V) → List (Text × V)
  insert k v m = elim (get k m) [ some w ↦ replace k v m | none ↦ place k v m ]

  unfoldable pub remove : Text → List (Text × V) → List (Text × V)
  remove k m = keep_if (λ p. not (list_eq p.0 k)) m

  get-replace :
      (k j : Text) (v w : V) (m : List (Text × V))
      → get k m ≡ some w
      → get j (replace k v m) ≡ (if list_eq k j then some v else get j m)
  unfolding get replace
  get-replace k j v w [] e = absurd cc
  get-replace k j v w ((i, x) ∷ m) e =
      ground (arith, list_eq_iff k j, list_eq_iff i k, list_eq_iff i j, get-replace k j v w m)

  get-place :
      (k j : Text) (v : V) (m : List (Text × V))
      → get k m ≡ none
      → get j (place k v m) ≡ (if list_eq k j then some v else get j m)
  unfolding get place
  get-place k j v [] e = refl
  get-place k j v ((i, x) ∷ m) e =
      ground (arith, list_eq_iff k j, list_eq_iff i k, list_eq_iff i j, get-place k j v m)

  pub get-insert :
      (k j : Text) (v : V) (m : List (Text × V))
      → get j (insert k v m) ≡ (if list_eq k j then some v else get j m)
  unfolding insert
  get-insert k j v m = elim (Option-cases (get k m)) [
    | inl new ↦ ground (arith, get-place k j v m new)
    | inr (w, old) ↦ ground (arith, get-replace k j v w m old)
  ]

  pub get-remove :
      (k j : Text) (m : List (Text × V))
      → get j (remove k m) ≡ (if list_eq k j then none else get j m)
  unfolding get remove
  get-remove k j [] = ground arith
  get-remove k j ((i, w) ∷ m) =
      ground (arith, list_eq_iff k j, list_eq_iff i k, list_eq_iff i j, get-remove k j m)

  length-replace : (k : Text) (v : V) (m : List (Text × V)) → length (replace k v m) ≡ length m
  unfolding replace
  length-replace k v [] = refl
  length-replace k v ((i, w) ∷ m) = ground (arith, length-replace k v m)

  length-place : (k : Text) (v : V) (m : List (Text × V)) → length (place k v m) ≡ length m + 1
  unfolding place
  length-place k v [] = refl
  length-place k v ((i, w) ∷ m) = ground (arith, length-place k v m)

  -- A key that is there takes no more room; any other takes one entry.
  pub length-insert-le :
      (k : Text) (v : V) (m : List (Text × V)) (most : ℕ)
      → length m ≤ most
      → (get k m ≡ none → length m < most)
      → length (insert k v m) ≤ most
  unfolding insert
  length-insert-le k v m most few room = elim (Option-cases (get k m)) [
    | inl new ↦ ground (arith, length-place k v m, room new)
    | inr (w, old) ↦ ground (arith, length-replace k v m)
  ]

  replace-All :
      (P : Text × V → Type 0) (k : Text) (v : V) (m : List (Text × V))
      → P (k, v)
      → All P m
      → All P (replace k v m)
  unfolding replace
  replace-All P k v [] p a = a
  replace-All P k v ((i, w) ∷ m) p a =
      by_test (All P) (list_eq i k) (p, a.1) (a.0, replace-All P k v m p a.1)

  place-All :
      (P : Text × V → Type 0) (k : Text) (v : V) (m : List (Text × V))
      → P (k, v)
      → All P m
      → All P (place k v m)
  unfolding place
  place-All P k v [] p a = (p, tt)
  place-All P k v ((i, w) ∷ m) p a =
      by_test (All P) (text_lt k i) (p, a) (a.0, place-All P k v m p a.1)

  pub insert-All :
      (P : Text × V → Type 0) (k : Text) (v : V) (m : List (Text × V))
      → P (k, v)
      → All P m
      → All P (insert k v m)
  unfolding insert
  insert-All P k v m p a =
      elim (get k m) as (λ o. All P (elim o [ some w ↦ replace k v m | none ↦ place k v m ])) [
        | some w ↦ replace-All P k v m p a
        | none ↦ place-All P k v m p a
      ]

  pub remove-All :
      (P : Text × V → Type 0) (k : Text) (m : List (Text × V)) → All P m → All P (remove k m)
  unfolding remove
  remove-All P k [] a = a
  remove-All P k ((i, w) ∷ m) a =
      by_test (All P) (not (list_eq i k)) (a.0, remove-All P k m a.1) (remove-All P k m a.1)
