-- ===== src/Base/Tables.antt =====
-- A Go map with string keys as an association list. A key is bound once when `insert` builds it.
use Prim.Native.Nat.{ℕ, suc}
use mathlib.Core.Path.{◌≡◌, refl}
use mathlib.Core.Logic.{inl, inr}
use mathlib.Core.Bool.{Bool, true, false, ◌||◌}
use mathlib.Core.List.{List, [], ◌∷◌}
use mathlib.Core.Option.{Option, none, some}
use native.Mathlib.Omega.{arith}
use kaf_claw.Base.Tests.{if◌then◌else◌, Bool-cases}
use kaf_claw.Base.Strings.{Text, text_eq, text_eq_iff}

abbrev pub Table {ℓ} : Type ℓ → Type ℓ
Table V = List (Text × V)

module _ {ℓ} {V : Type ℓ} where
  unfoldable pub lookup : Text → Table V → Option V
  lookup k [] = none
  lookup k ((j, v) ∷ m) = if text_eq j k then some v else lookup k m

  unfoldable pub insert : Text → V → Table V → Table V
  insert k v [] = (k, v) ∷ []
  insert k v ((j, w) ∷ m) = if text_eq j k then (k, v) ∷ m else (j, w) ∷ insert k v m

  unfoldable pub delete : Text → Table V → Table V
  delete k [] = []
  delete k ((j, w) ∷ m) = if text_eq j k then delete k m else (j, w) ∷ delete k m

  pub lookup-insert :
      (j k : Text) (v : V) (m : Table V)
      → lookup j (insert k v m) ≡ (if text_eq k j then some v else lookup j m)
  unfolding lookup insert
  lookup-insert j k v [] = refl
  lookup-insert j k v ((i, w) ∷ m) =
      ground (arith, text_eq_iff k j, text_eq_iff i k, text_eq_iff i j, lookup-insert j k v m)

  pub lookup-delete :
      (j k : Text) (m : Table V)
      → lookup j (delete k m) ≡ (if text_eq k j then none else lookup j m)
  unfolding lookup delete
  lookup-delete j k [] = ground arith
  lookup-delete j k ((i, w) ∷ m) =
      ground (arith, text_eq_iff k j, text_eq_iff i k, text_eq_iff i j, lookup-delete j k m)

  -- Every key is bound once, as in a Go map.
  abbrev pub Unique : Table V → Type ℓ
  Unique [] = Unit
  Unique ((k, v) ∷ m) = (lookup k m ≡ none) × Unique m

  abbrev pub entries : Table V → ℕ
  entries [] = 0
  entries (_ ∷ m) = suc (entries m)

  -- A test that some binding passes.
  abbrev pub any_entry : (Text → V → Bool) → Table V → Bool
  any_entry p [] = false
  any_entry p ((k, v) ∷ m) = p k v || any_entry p m

  pub insert-Unique : (k : Text) (v : V) (m : Table V) → Unique m → Unique (insert k v m)
  unfolding insert lookup
  insert-Unique k v [] u = (refl, tt)
  insert-Unique k v ((j, w) ∷ m) (new, u) = elim (Bool-cases (text_eq j k)) [
    | inl e ↦ rw e (ground (arith, text_eq_iff j k), u)
    | inr e ↦ rw e (
      ground (arith, lookup-insert j k v m, text_eq_iff k j, text_eq_iff j k),
      insert-Unique k v m u,
    )
  ]

  pub delete-Unique : (k : Text) (m : Table V) → Unique m → Unique (delete k m)
  unfolding delete lookup
  delete-Unique k [] u = tt
  delete-Unique k ((j, w) ∷ m) (new, u) = elim (Bool-cases (text_eq j k)) [
    | inl e ↦ rw e (delete-Unique k m u)
    | inr e ↦ rw e (ground (arith, lookup-delete j k m), delete-Unique k m u)
  ]

  pub any_entry-found :
      (p : Text → V → Bool) (m : Table V)
      → Unique m
      → any_entry p m ≡ true
      → (k : Text) × (v : V) × (lookup k m ≡ some v) × (p k v ≡ true)
  unfolding lookup
  any_entry-found p [] u h = cc
  any_entry-found p ((k, v) ∷ m) (new, u) h = elim (Bool-cases (p k v)) [
    | inl e ↦ (k, v, ground (arith, text_eq_iff k k), e)
    | inr e ↦
        let (j, w, found, e') = any_entry-found p m u (ground arith) in
        (j, w, ground (arith, text_eq_iff k j), e')
  ]

  pub any_entry_of_lookup :
      (p : Text → V → Bool) (m : Table V) (k : Text) (v : V)
      → lookup k m ≡ some v
      → p k v ≡ true
      → any_entry p m ≡ true
  unfolding lookup
  any_entry_of_lookup p [] k v f h = cc
  any_entry_of_lookup p ((j, w) ∷ m) k v f h =
      ground (arith, text_eq_iff j k, any_entry_of_lookup p m k v)
