-- ===== src/Prelude/Maps.antt =====
-- A Go map keyed by strings, as an association list whose keys are distinct (`IsDict`). Its
-- order is the order of insertion; no operation of the source may depend on it.
use Prim.Native.Nat.{suc}
use mathlib.Core.Path.{◌≡◌, refl}
use mathlib.Core.Logic.{◌≢◌}
use mathlib.Core.Option.{Option, none, some}
use mathlib.Core.List.{List, [], ◌∷◌}
use native.Mathlib.Omega.{arith}
use axigate_finops.Prelude.Tests.{if◌then◌else◌}
use axigate_finops.Prelude.Lists.{length}
use axigate_finops.Prelude.Text.{Bytes, beq, beq_iff, beq_refl, beq_ne}

abbrev pub Dict {ℓ} : Type ℓ → Type ℓ
Dict V = List (Bytes × V)

module _ {ℓ} {V : Type ℓ} where
  -- `m[k]`, with none for a missing key.
  unfoldable pub lookup : Bytes → Dict V → Option V
  lookup k [] = none
  lookup k ((j, v) ∷ m) = if beq j k then some v else lookup k m

  -- `m[k] = v`
  unfoldable pub insert : Bytes → V → Dict V → Dict V
  insert k v [] = (k, v) ∷ []
  insert k v ((j, w) ∷ m) = if beq j k then (k, v) ∷ m else (j, w) ∷ insert k v m

  -- `delete(m, k)`
  unfoldable pub erase : Bytes → Dict V → Dict V
  erase k [] = []
  erase k ((j, w) ∷ m) = if beq j k then m else (j, w) ∷ erase k m

  -- The keys are distinct.
  abbrev pub IsDict : Dict V → Type ℓ
  IsDict [] = Unit
  IsDict ((k, v) ∷ m) = (lookup k m ≡ none) × IsDict m

module _ {ℓ} {V : Type ℓ} where
  pub lookup-insert :
      (j k : Bytes) (v : V) (m : Dict V)
      → lookup j (insert k v m) ≡ (if beq k j then some v else lookup j m)
  unfolding lookup insert
  lookup-insert j k v [] = refl
  lookup-insert j k v ((i, w) ∷ m) =
      ground (arith, beq_iff k j, beq_iff i k, beq_iff i j, lookup-insert j k v m)

  pub lookup-insert_self : (k : Bytes) (v : V) (m : Dict V) → lookup k (insert k v m) ≡ some v
  lookup-insert_self k v m = rw (lookup-insert k k v m, beq_refl k)

  pub lookup-insert_ne :
      (j k : Bytes) (v : V) (m : Dict V) → k ≢ j → lookup j (insert k v m) ≡ lookup j m
  lookup-insert_ne j k v m h = rw (lookup-insert j k v m, beq_ne k j h)

  pub insert-IsDict : (k : Bytes) (v : V) (m : Dict V) → IsDict m → IsDict (insert k v m)
  unfolding lookup insert
  insert-IsDict k v [] h = (refl, tt)
  insert-IsDict k v ((j, w) ∷ m) h =
      ground (arith, beq_iff j k, beq_iff k j, lookup-insert j k v m, insert-IsDict k v m h.1)

  pub lookup-erase_self : (k : Bytes) (m : Dict V) → IsDict m → lookup k (erase k m) ≡ none
  unfolding lookup erase
  lookup-erase_self k [] h = refl
  lookup-erase_self k ((j, w) ∷ m) h = ground (arith, beq_iff j k, lookup-erase_self k m h.1)

  pub lookup-erase_ne : (j k : Bytes) (m : Dict V) → k ≢ j → lookup j (erase k m) ≡ lookup j m
  unfolding lookup erase
  lookup-erase_ne j k [] h = refl
  lookup-erase_ne j k ((i, w) ∷ m) h =
      ground (arith, beq_iff i k, beq_iff i j, lookup-erase_ne j k m h)

  pub erase-IsDict : (k : Bytes) (m : Dict V) → IsDict m → IsDict (erase k m)
  unfolding lookup erase
  erase-IsDict k [] h = tt
  erase-IsDict k ((j, w) ∷ m) h =
      ground (arith, beq_iff k j, beq_iff j k, lookup-erase_ne j k m, erase-IsDict k m h.1)

  pub length-erase :
      (k : Bytes) (m : Dict V) (v : V) → lookup k m ≡ some v → suc (length (erase k m)) ≡ length m
  unfolding lookup erase
  length-erase k [] v h = cc
  length-erase k ((j, w) ∷ m) v h = ground (arith, length-erase k m v)
