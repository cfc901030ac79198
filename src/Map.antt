-- ===== src/Map.antt =====
-- `std::collections::HashMap` with `u64` keys, as the registries use it: an association list.
-- The order of the entries is that of insertion, newest first; the program's results do not rest
-- on it except where `find_by_endpoints` and `drain` walk the map.
use newghost.Prelude.{
  ℕ, suc, ◌+◌, ◌≡◌, refl, ap, arith, Bool, false, Option, none, some, List, [], ◌∷◌, length, ◌==◌,
  ==_iff, if◌then◌else◌, Bool-cases, inl, inr,
}

abbrev pub Map {ℓ} : Type ℓ → Type ℓ
Map V = List (ℕ × V)

module _ {ℓ} {V : Type ℓ} where
  unfoldable pub lookup : ℕ → Map V → Option V
  lookup k [] = none
  lookup k ((j, v) ∷ m) = if j == k then some v else lookup k m

  -- `HashMap::remove`: at most one entry has the key, see `Distinct`.
  unfoldable pub remove : ℕ → Map V → Map V
  remove k [] = []
  remove k ((j, v) ∷ m) = let rest = remove k m in if j == k then rest else (j, v) ∷ rest

  unfoldable pub insert : ℕ → V → Map V → Map V
  unfolding remove
  insert k v m = (k, v) ∷ remove k m

  -- `get_mut` followed by a write to the value.
  unfoldable pub update : ℕ → (V → V) → Map V → Map V
  update k f [] = []
  update k f ((j, v) ∷ m) = (j, if j == k then f v else v) ∷ update k f m

  -- `HashMap::retain`.
  unfoldable pub retain : (ℕ → V → Bool) → Map V → Map V
  retain keep [] = []
  retain keep ((j, v) ∷ m) = let rest = retain keep m in if keep j v then (j, v) ∷ rest else rest

  -- The keys that a `retain` drops, in the order in which it meets them.
  unfoldable pub dropped : (ℕ → V → Bool) → Map V → List ℕ
  dropped keep [] = []
  dropped keep ((j, v) ∷ m) = let rest = dropped keep m in if keep j v then rest else j ∷ rest

  -- No key has two entries.
  abbrev pub Distinct : Map V → Type ℓ
  Distinct [] = Unit {ℓ}
  Distinct ((k, v) ∷ m) = (lookup k m ≡ none) × Distinct m

module _ {ℓ} {V : Type ℓ} where
  pub lookup-remove :
      (k j : ℕ) (m : Map V) → lookup j (remove k m) ≡ (if k == j then none else lookup j m)
  unfolding lookup remove
  lookup-remove k j [] = ground arith
  lookup-remove k j ((i, v) ∷ m) = ground (arith, lookup-remove k j m)

  pub lookup-insert :
      (k j : ℕ) (v : V) (m : Map V)
      → lookup j (insert k v m) ≡ (if k == j then some v else lookup j m)
  unfolding lookup insert
  lookup-insert k j v m = ground (arith, lookup-remove k j m)

  pub lookup-update_ne :
      (k j : ℕ) (f : V → V) (m : Map V) → (k == j) ≡ false → lookup j (update k f m) ≡ lookup j m
  unfolding lookup update
  lookup-update_ne k j f [] h = refl
  lookup-update_ne k j f ((i, v) ∷ m) h = ground (arith, lookup-update_ne k j f m)

  pub lookup-update_self :
      (k : ℕ) (f : V → V) (m : Map V) (v : V)
      → lookup k m ≡ some v
      → lookup k (update k f m) ≡ some (f v)
  unfolding lookup update
  lookup-update_self k f [] v h = cc
  lookup-update_self k f ((i, w) ∷ m) v h = ground (arith, lookup-update_self k f m v)

  pub lookup-update-none :
      (k j : ℕ) (f : V → V) (m : Map V) → lookup j m ≡ none → lookup j (update k f m) ≡ none
  unfolding lookup update
  lookup-update-none k j f [] h = refl
  lookup-update-none k j f ((i, v) ∷ m) h = ground (arith, lookup-update-none k j f m)

  pub lookup-retain-none :
      (keep : ℕ → V → Bool) (j : ℕ) (m : Map V)
      → lookup j m ≡ none
      → lookup j (retain keep m) ≡ none
  unfolding lookup retain
  lookup-retain-none keep j [] h = refl
  lookup-retain-none keep j ((i, v) ∷ m) h = ground (arith, lookup-retain-none keep j m)

  pub remove-none : (k : ℕ) (m : Map V) → lookup k m ≡ none → remove k m ≡ m
  unfolding lookup remove
  remove-none k [] h = refl
  remove-none k ((i, v) ∷ m) h = ground (arith, remove-none k m)

  pub remove-Distinct : (k : ℕ) (m : Map V) → Distinct m → Distinct (remove k m)
  unfolding remove
  remove-Distinct k [] d = tt
  remove-Distinct k ((i, v) ∷ m) d = ground (arith, remove-Distinct k m d.1, lookup-remove k i m)

  pub insert-Distinct : (k : ℕ) (v : V) (m : Map V) → Distinct m → Distinct (insert k v m)
  unfolding insert
  insert-Distinct k v m d = ground (arith, remove-Distinct k m d, lookup-remove k k m)

  pub update-Distinct : (k : ℕ) (f : V → V) (m : Map V) → Distinct m → Distinct (update k f m)
  unfolding update
  update-Distinct k f [] d = tt
  update-Distinct k f ((i, v) ∷ m) d = (lookup-update-none k i f m d.0, update-Distinct k f m d.1)

  pub retain-Distinct : (keep : ℕ → V → Bool) (m : Map V) → Distinct m → Distinct (retain keep m)
  unfolding retain
  retain-Distinct keep [] d = tt
  retain-Distinct keep ((i, v) ∷ m) d =
      ground (arith, retain-Distinct keep m d.1, lookup-retain-none keep i m)

  -- A key that is there is taken away once.
  pub length-remove :
      (k : ℕ) (m : Map V) {v : V}
      → Distinct m
      → lookup k m ≡ some v
      → length (remove k m) + 1 ≡ length m
  unfolding lookup remove
  length-remove k [] d h = cc
  length-remove k ((i, w) ∷ m) d h = elim (Bool-cases (i == k)) [
    | inl hit ↦ rw hit (
        let gone : lookup k m ≡ none = ground (arith, ==_iff i k) in
        rw (remove-none k m gone) (omega arith))
    | inr miss ↦ rw miss (omega (arith, length-remove k m d.1 (rw miss at h)))
  ]

  pub length-update : (k : ℕ) (f : V → V) (m : Map V) → length (update k f m) ≡ length m
  unfolding update
  length-update k f [] = refl
  length-update k f ((i, v) ∷ m) = ap suc (length-update k f m)

  -- A `retain` drops as many entries as it lists.
  pub length-retain :
      (keep : ℕ → V → Bool) (m : Map V)
      → length (retain keep m) + length (dropped keep m) ≡ length m
  unfolding retain dropped
  length-retain keep [] = omega arith
  length-retain keep ((i, v) ∷ m) = ground (arith, length-retain keep m)

  pub lookup-retain :
      (keep : ℕ → V → Bool) (j : ℕ) (m : Map V) (v : V)
      → Distinct m
      → lookup j m ≡ some v
      → lookup j (retain keep m) ≡ (if keep j v then some v else none)
  unfolding lookup retain
  lookup-retain keep j [] v d h = cc
  lookup-retain keep j ((i, w) ∷ m) v d h =
      ground (arith, lookup-retain keep j m v d.1, lookup-retain-none keep i m d.0)
