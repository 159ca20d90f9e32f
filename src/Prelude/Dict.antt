-- ===== src/Prelude/Dict.antt =====
-- A Go map as an association list. A write replaces the entry of its key or adds one at the end; the
-- list's order stands for the order in which `range` visits the keys.
use mathlib.Core.Path.{◌≡◌, refl, sym, ◌∙◌, subst}
use mathlib.Core.Logic.{inl, inr}
use mathlib.Core.Bool.{Bool, true, false}
use mathlib.Core.List.{List, [], ◌∷◌}
use mathlib.Core.Option.{Option, none, some}
use native.Mathlib.Omega.{arith}
use go_socket_io.Prelude.Tests.{Eq, if◌then◌else◌, Bool-cases}

abbrev pub has_value {ℓ} : {A : Type ℓ} → Option A → Bool
has_value none = false
has_value (some a) = true

module _ {ℓ κ} {K : Type ℓ} {V : Type κ} ⦃e : Eq K⦄ where
  unfoldable pub lookup : K → List (K × V) → Option V
  lookup k [] = none
  lookup k ((j, v) ∷ m) = if e.beq j k then some v else lookup k m

  unfoldable pub insert : K → V → List (K × V) → List (K × V)
  insert k v [] = (k, v) ∷ []
  insert k v ((j, w) ∷ m) = if e.beq j k then (k, v) ∷ m else (j, w) ∷ insert k v m

  unfoldable pub remove : K → List (K × V) → List (K × V)
  remove k [] = []
  remove k ((j, w) ∷ m) = let rest = remove k m in if e.beq j k then rest else (j, w) ∷ rest

  -- A key stands in one entry at most.
  abbrev pub IsDistinct : List (K × V) → Type κ
  IsDistinct [] = Unit {κ}
  IsDistinct ((k, v) ∷ m) = (lookup k m ≡ none) × IsDistinct m

  pub lookup-insert :
      (k j : K) (v : V) (m : List (K × V))
      → lookup j (insert k v m) ≡ (if e.beq k j then some v else lookup j m)
  unfolding lookup insert
  lookup-insert k j v [] = refl
  lookup-insert k j v ((i, w) ∷ m) =
      ground (arith, e.beq_iff k j, e.beq_iff i k, e.beq_iff i j, lookup-insert k j v m)

  pub lookup-remove :
      (k j : K) (m : List (K × V))
      → lookup j (remove k m) ≡ (if e.beq k j then none else lookup j m)
  unfolding lookup remove
  lookup-remove k j [] = ground arith
  lookup-remove k j ((i, w) ∷ m) =
      ground (arith, e.beq_iff k j, e.beq_iff i k, e.beq_iff i j, lookup-remove k j m)

  pub insert-IsDistinct :
      (k : K) (v : V) (m : List (K × V)) → IsDistinct m → IsDistinct (insert k v m)
  unfolding insert
  insert-IsDistinct k v [] h = (unfold lookup in refl, tt)
  insert-IsDistinct k v ((i, w) ∷ m) h =
      ground
        (arith, e.beq_iff i k, e.beq_iff k i, lookup-insert k i v m, insert-IsDistinct k v m h.1)

  pub remove-IsDistinct : (k : K) (m : List (K × V)) → IsDistinct m → IsDistinct (remove k m)
  unfolding remove
  remove-IsDistinct k [] h = tt
  remove-IsDistinct k ((i, w) ∷ m) h =
      ground (arith, e.beq_iff i k, e.beq_iff k i, lookup-remove k i m, remove-IsDistinct k m h.1)

  -- Every key has the property.
  abbrev pub AllKeys {ι} : (K → Type ι) → List (K × V) → Type ι
  AllKeys P [] = Unit {ι}
  AllKeys P ((k, v) ∷ m) = P k × AllKeys P m

  pub insert-AllKeys {ι} :
      (P : K → Type ι) (k : K) (v : V) (m : List (K × V))
      → P k
      → AllKeys P m
      → AllKeys P (insert k v m)
  unfolding insert
  insert-AllKeys P k v [] h hs = (h, tt)
  insert-AllKeys P k v ((j, w) ∷ m) h hs = elim (Bool-cases (e.beq j k)) [
    | inl t ↦ rw t (h, hs.1)
    | inr t ↦ rw t (hs.0, insert-AllKeys P k v m h hs.1)
  ]

  pub remove-AllKeys {ι} :
      (P : K → Type ι) (k : K) (m : List (K × V)) → AllKeys P m → AllKeys P (remove k m)
  unfolding remove
  remove-AllKeys P k [] hs = tt
  remove-AllKeys P k ((j, w) ∷ m) hs = elim (Bool-cases (e.beq j k)) [
    | inl t ↦ rw t (remove-AllKeys P k m hs.1)
    | inr t ↦ rw t (hs.0, remove-AllKeys P k m hs.1)
  ]

  pub lookup-AllKeys {ι} :
      (P : K → Type ι) (k : K) (m : List (K × V)) (v : V) → AllKeys P m → lookup k m ≡ some v → P k
  unfolding lookup
  lookup-AllKeys P k [] v hs g = absurd (cc)
  lookup-AllKeys P k ((j, w) ∷ m) v hs g = elim (Bool-cases (e.beq j k)) [
    | inl t ↦ subst P ((e.beq_iff j k).0 t) hs.0
    | inr t ↦ lookup-AllKeys P k m v hs.1 (sym (pass t) ∙ g)
  ]
    where
      pass : (e.beq j k) ≡ false → (if e.beq j k then some w else lookup k m) ≡ lookup k m
      pass t = rw t refl

  pub map-AllKeys {ι κ'} :
      (P : K → Type ι) (Q : K → Type κ') (m : List (K × V))
      → ((k : K) → P k → Q k)
      → AllKeys P m
      → AllKeys Q m
  map-AllKeys P Q [] f hs = tt
  map-AllKeys P Q ((k, v) ∷ m) f hs = (f k hs.0, map-AllKeys P Q m f hs.1)
