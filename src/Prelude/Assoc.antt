-- ===== src/Prelude/Assoc.antt =====
-- JavaScript's Map with text keys: entries in the order of insertion.
use Prim.Native.String.{String}
use mathlib.Core.Path.{◌≡◌, refl}
use mathlib.Core.Bool.{Bool, true}
use mathlib.Core.Option.{Option, none, some}
use mathlib.Core.List.{List, [], ◌∷◌}
use mathlib.Core.Logic.{inl, inr}
use native.Mathlib.Omega.{arith}
use text.Mathlib.Text.{◌==◌ as str_eq}
use text.Mathlib.TextEquality.{eq_iff}
use swim_flow_api.Prelude.Tests.{if◌then◌else◌, Bool-cases}
use swim_flow_api.Prelude.Lists.{filter}

abbrev pub Entries {ℓ} : Type ℓ → Type ℓ
Entries V = List (String × V)

module _ {ℓ} {V : Type ℓ} where
  -- Map.prototype.get
  abbrev pub lookup : String → Entries V → Option V
  lookup k [] = none
  lookup k ((j, v) ∷ m) = if str_eq j k then some v else lookup k m

  -- Map.prototype.set keeps the place of a key that is there.
  abbrev pub insert : String → V → Entries V → Entries V
  insert k v [] = (k, v) ∷ []
  insert k v ((j, w) ∷ m) = if str_eq j k then (k, v) ∷ m else (j, w) ∷ insert k v m

  pub lookup-insert :
      (k j : String) (v : V) (m : Entries V)
      → lookup j (insert k v m) ≡ (if str_eq k j then some v else lookup j m)
  lookup-insert k j v [] = refl
  lookup-insert k j v ((i, w) ∷ m) =
      ground (arith, eq_iff k j, eq_iff i k, eq_iff i j, lookup-insert k j v m)

  -- Deleting other entries keeps one that is found.
  pub lookup-filter :
      (keep : String × V → Bool) (k : String) (v : V) (m : Entries V)
      → ((j : String) → j ≡ k → keep (j, v) ≡ true)
      → lookup k m ≡ some v
      → lookup k (filter keep m) ≡ some v
  lookup-filter keep k v [] kept h = h
  lookup-filter keep k v ((j, w) ∷ m) kept h = elim (Bool-cases (str_eq j k)) [
    | inl same ↦
        let here : keep (j, w) ≡ true = ground (arith, kept j ((eq_iff j k).0 same)) in
        rw here (ground arith)
    | inr other ↦ ground (arith, lookup-filter keep k v m kept)
  ]
