-- ===== src/Base/Maps.antt =====
-- Go maps with text keys as association lists: an assignment replaces the entry of its key.
use Prim.Native.Nat.{◌+◌, ◌≤◌}
use mathlib.Core.Path.{◌≡◌, refl, ap₂, subst}
use mathlib.Core.Bool.{Bool}
use mathlib.Core.List.{List, [], ◌∷◌}
use mathlib.Core.Option.{Option, none, some}
use native.Mathlib.Omega.{arith}
use mathlib.Core.Logic.{inl, inr}
use onwapp.Base.Tests.{if◌then◌else◌, Bool-cases}
use onwapp.Base.Lists.{length}
use onwapp.Base.Text.{Str, str_eq}
use onwapp.Base.Text.Laws.{str_eq_iff, str_eq_refl}

-- A map from texts.
abbrev pub Dict {ℓ} : Type ℓ → Type ℓ
Dict V = List (Str × V)

module _ {ℓ} {V : Type ℓ} where
  -- `m[k]`
  unfoldable pub lookup : Str → Dict V → Option V
  lookup k [] = none
  lookup k ((j, v) ∷ m) = let rest = lookup k m in if str_eq j k then some v else rest

  -- `m[k] = v`
  unfoldable pub insert : Str → V → Dict V → Dict V
  insert k v [] = (k, v) ∷ []
  insert k v ((j, w) ∷ m) =
      let rest = insert k v m in if str_eq j k then (k, v) ∷ m else (j, w) ∷ rest

  -- `delete(m, k)`
  unfoldable pub delete : Str → Dict V → Dict V
  delete k [] = []
  delete k ((j, w) ∷ m) = let rest = delete k m in if str_eq j k then rest else (j, w) ∷ rest

  -- What a loop with `delete` leaves: the entries that pass the test.
  unfoldable pub retain : (Str → V → Bool) → Dict V → Dict V
  retain p [] = []
  retain p ((j, w) ∷ m) = let rest = retain p m in if p j w then (j, w) ∷ rest else rest

  pub lookup-insert :
      (j k : Str) (v : V) (m : Dict V)
      → lookup j (insert k v m) ≡ (if str_eq k j then some v else lookup j m)
  unfolding lookup insert
  lookup-insert j k v [] = refl
  lookup-insert j k v ((i, w) ∷ m) =
      ground (arith, str_eq_iff k j, str_eq_iff i k, str_eq_iff i j, lookup-insert j k v m)

  pub lookup-insert_self : (k : Str) (v : V) (m : Dict V) → lookup k (insert k v m) ≡ some v
  lookup-insert_self k v m = ground (arith, lookup-insert k k v m, str_eq_refl k)

  pub lookup-delete :
      (j k : Str) (m : Dict V) → lookup j (delete k m) ≡ (if str_eq k j then none else lookup j m)
  unfolding lookup delete
  lookup-delete j k [] = ground arith
  lookup-delete j k ((i, w) ∷ m) =
      ground (arith, str_eq_iff k j, str_eq_iff i k, str_eq_iff i j, lookup-delete j k m)

  pub lookup-delete_self : (k : Str) (m : Dict V) → lookup k (delete k m) ≡ none
  lookup-delete_self k m = ground (arith, lookup-delete k k m, str_eq_refl k)

  pub length-insert : (k : Str) (v : V) (m : Dict V) → length (insert k v m) ≤ length m + 1
  unfolding insert
  length-insert k v [] = omega arith
  length-insert k v ((i, w) ∷ m) = ground (arith, length-insert k v m)

  pub length-delete : (k : Str) (m : Dict V) → length (delete k m) ≤ length m
  unfolding delete
  length-delete k [] = omega arith
  length-delete k ((i, w) ∷ m) = ground (arith, length-delete k m)

  pub length-retain : (p : Str → V → Bool) (m : Dict V) → length (retain p m) ≤ length m
  unfolding retain
  length-retain p [] = omega arith
  length-retain p ((i, w) ∷ m) = ground (arith, length-retain p m)

  -- The keys of a Go map are distinct.
  abbrev pub HasDistinctKeys : Dict V → Type ℓ
  HasDistinctKeys [] = Unit {ℓ}
  HasDistinctKeys ((j, w) ∷ m) = (lookup j m ≡ none) × HasDistinctKeys m

  pub insert-HasDistinctKeys :
      (k : Str) (v : V) (m : Dict V) → HasDistinctKeys m → HasDistinctKeys (insert k v m)
  unfolding lookup insert
  insert-HasDistinctKeys k v [] h = (refl, tt)
  insert-HasDistinctKeys k v ((i, w) ∷ m) h = ground (
    arith,
    str_eq_iff i k,
    str_eq_iff k i,
    lookup-insert i k v m,
    insert-HasDistinctKeys k v m h.1,
  )

  pub delete-HasDistinctKeys :
      (k : Str) (m : Dict V) → HasDistinctKeys m → HasDistinctKeys (delete k m)
  unfolding delete
  delete-HasDistinctKeys k [] h = tt
  delete-HasDistinctKeys k ((i, w) ∷ m) h =
      ground (arith, lookup-delete i k m, delete-HasDistinctKeys k m h.1)

  pub lookup-retain-none :
      (p : Str → V → Bool) (k : Str) (m : Dict V) → lookup k m ≡ none → lookup k (retain p m) ≡ none
  unfolding lookup retain
  lookup-retain-none p k [] h = refl
  lookup-retain-none p k ((i, w) ∷ m) h = ground (arith, lookup-retain-none p k m)

  pub retain-HasDistinctKeys :
      (p : Str → V → Bool) (m : Dict V) → HasDistinctKeys m → HasDistinctKeys (retain p m)
  unfolding retain
  retain-HasDistinctKeys p [] h = tt
  retain-HasDistinctKeys p ((i, w) ∷ m) h =
      ground (arith, lookup-retain-none p i m, retain-HasDistinctKeys p m h.1)

  -- An entry that passes the test stays, and another goes.
  pub lookup-retain :
      (p : Str → V → Bool) (k : Str) (v : V) (m : Dict V)
      → HasDistinctKeys m
      → lookup k m ≡ some v
      → lookup k (retain p m) ≡ (if p k v then some v else none)
  unfolding lookup retain
  lookup-retain p k v [] d h = cc
  lookup-retain p k v ((i, w) ∷ m) d h = elim (Bool-cases (str_eq i k)) [
    | inl hit ↦
        let same : i ≡ k = (str_eq_iff i k).0 hit in
        let val : w ≡ v = ground arith in
        let gone : lookup k m ≡ none = subst (λ t. lookup t m ≡ none) same d.0 in
        let left : lookup k (retain p m) ≡ none = lookup-retain-none p k m gone in
        let test : p i w ≡ p k v = ap₂ p same val in ground arith
    | inr miss ↦ ground (arith, lookup-retain p k v m d.1)
  ]
