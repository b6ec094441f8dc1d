-- ===== src/Prelude/Dicts.antt =====
-- A Python dictionary as an association list. Assignment overwrites in place or appends.
use mathlib.Core.Path.{◌≡◌, refl, sym, ap, ◌∙◌}
use mathlib.Core.Option.{Option, none, some}
use mathlib.Core.List.{List, [], ◌∷◌, map}
use mathlib.Core.Bool.{true}
use mathlib.Core.Logic.{inl, inr}
use native.Mathlib.Omega.{arith}
use nexus_grid_grid.Prelude.Tests.{
  Eq, ◌==◌, if◌then◌else◌, beq_refl, beq_comm, eq_of_beq, Bool-cases,
}

abbrev pub Dict {ℓ κ} : Type ℓ → Type κ → Type (ℓ ⊔ κ)
Dict K V = List (K × V)

module _ {ℓ κ} {K : Type ℓ} {V : Type κ} ⦃e : Eq K⦄ where
  unfoldable pub get : K → Dict K V → Option V
  get k [] = none
  get k ((j, v) ∷ m) = let rest = get k m in if j == k then some v else rest

  unfoldable pub insert : K → V → Dict K V → Dict K V
  insert k v [] = (k, v) ∷ []
  insert k v ((j, w) ∷ m) = if j == k then (k, v) ∷ m else (j, w) ∷ insert k v m

  -- `d.pop(k, None)`, without its result
  unfoldable pub erase : K → Dict K V → Dict K V
  erase k [] = []
  erase k ((j, w) ∷ m) = if j == k then erase k m else (j, w) ∷ erase k m

  pub get-insert :
      (k j : K) (v : V) (m : Dict K V) → get j (insert k v m) ≡ (if k == j then some v else get j m)
  unfolding get insert
  get-insert k j v [] = refl
  get-insert k j v ((i, w) ∷ m) =
      ground (arith, e.same_iff k j, e.same_iff i k, e.same_iff i j, get-insert k j v m)

  pub get_same : (k j : K) (m : Dict K V) → (k == j) ≡ true → get k m ≡ get j m
  get_same k j m h = ap (λ i. get i m) (eq_of_beq k j h)

  pub get-insert_self : (k : K) (v : V) (m : Dict K V) → get k (insert k v m) ≡ some v
  get-insert_self k v m = ground (arith, get-insert k k v m, beq_refl k)

  pub get-erase : (k j : K) (m : Dict K V) → get j (erase k m) ≡ (if k == j then none else get j m)
  unfolding get erase
  get-erase k j [] = ground arith
  get-erase k j ((i, w) ∷ m) =
      ground (arith, e.same_iff k j, e.same_iff i k, e.same_iff i j, get-erase k j m)

  pub get-erase_self : (k : K) (m : Dict K V) → get k (erase k m) ≡ none
  get-erase_self k m = ground (arith, get-erase k k m, beq_refl k)

-- No key twice, as in every dictionary that assignments build.
abbrev pub HasDistinctKeys {ℓ κ} : {K : Type ℓ} {V : Type κ} ⦃e : Eq K⦄ → Dict K V → Type κ
HasDistinctKeys [] = Unit
HasDistinctKeys ((key, value) ∷ m) = (get key m ≡ none) × HasDistinctKeys m

pub insert-HasDistinctKeys {ℓ κ} :
    {K : Type ℓ} {V : Type κ} ⦃e : Eq K⦄ (k : K) (v : V) (m : Dict K V)
    → HasDistinctKeys m
    → HasDistinctKeys (insert k v m)
unfolding insert get
insert-HasDistinctKeys k v [] h = (refl, tt)
insert-HasDistinctKeys ⦃e⦄ k v ((j, w) ∷ m) h = elim (Bool-cases (j == k)) [
  | inl same ↦ rw same (ap (λ i. get i m) (sym (eq_of_beq j k same)) ∙ h.0, h.1)
  | inr other ↦
      rw other (ground (arith, get-insert k j v m, beq_comm j k), insert-HasDistinctKeys k v m h.1)
]

abbrev pub dict_keys {ℓ κ} : {K : Type ℓ} {V : Type κ} → Dict K V → List K
dict_keys m = map (λ kv. kv.0) m
