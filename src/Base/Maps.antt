-- ===== src/Base/Maps.antt =====
-- `BTreeMap<String, V>`: entries in the order of their keys, each key once.
use mathlib.Core.Path.{◌≡◌, refl}
use mathlib.Core.Option.{Option, none, some}
use mathlib.Core.Bool.{true}
use mathlib.Core.List.{List, [], ◌∷◌, ◌++◌}
use rowd.Base.Lists.{All}
use native.Mathlib.Omega.{arith}
use rowd.Base.Tests.{if◌then◌else◌}
use rowd.Base.Texts.{Text, text_eq, text_lt, text_eq_iff, text_lt_irrefl, text_lt_trans}

abbrev pub Map {ℓ} : Type ℓ → Type ℓ
Map V = List (Text × V)

module _ {ℓ} {V : Type ℓ} where
  unfoldable pub lookup : Text → Map V → Option V
  lookup k [] = none
  lookup k ((j, v) ∷ m) = if text_eq j k then some v else lookup k m

  unfoldable pub insert : Text → V → Map V → Map V
  insert k v [] = (k, v) ∷ []
  insert k v ((j, w) ∷ m) =
      let rest = insert k v m in
      if text_eq j k then (k, v) ∷ m else if text_lt k j then (k, v) ∷ (j, w) ∷ m else (j, w) ∷ rest

  unfoldable pub remove : Text → Map V → Map V
  remove k [] = []
  remove k ((j, w) ∷ m) = let rest = remove k m in if text_eq j k then rest else (j, w) ∷ rest

  pub lookup-insert :
      (k j : Text) (v : V) (m : Map V)
      → lookup j (insert k v m) ≡ (if text_eq k j then some v else lookup j m)
  unfolding lookup insert
  lookup-insert k j v [] = refl
  lookup-insert k j v ((i, w) ∷ m) =
      ground (arith, text_eq_iff k j, text_eq_iff i k, text_eq_iff i j, lookup-insert k j v m)

  pub lookup-remove :
      (k j : Text) (m : Map V) → lookup j (remove k m) ≡ (if text_eq k j then none else lookup j m)
  unfolding lookup remove
  lookup-remove k j [] = ground arith
  lookup-remove k j ((i, w) ∷ m) =
      ground (arith, text_eq_iff k j, text_eq_iff i k, text_eq_iff i j, lookup-remove k j m)

pub ruleset map_laws = (lookup-insert, lookup-remove)

module _ {ℓ} {V : Type ℓ} where
  -- The order of the keys, and keys that all come before one.
  abbrev pub Below : Text → Map V → Type 0
  Below k m = All (λ (j, v). text_lt j k ≡ true) m

  abbrev pub Ascending : Map V → Type 0
  Ascending [] = Unit
  Ascending ((k, v) ∷ m) = All (λ (j, w). text_lt k j ≡ true) m × Ascending m

  pub Ascending-Below : (m n : Map V) (k : Text) (v : V) → Ascending (m ++ (k, v) ∷ n) → Below k m
  Ascending-Below [] n k v h = tt
  Ascending-Below ((j, w) ∷ m) n k v h = (All-at m n h.0, Ascending-Below m n k v h.1)
    where
      All-at :
          (m n : Map V) → All (λ (i, u). text_lt j i ≡ true) (m ++ (k, v) ∷ n) → text_lt j k ≡ true
      All-at [] n h = h.0
      All-at (x ∷ m) n h = All-at m n h.1

  pub lookup-above : (k : Text) (m : Map V) → Below k m → lookup k m ≡ none
  unfolding lookup
  lookup-above k [] h = refl
  lookup-above k ((j, w) ∷ m) h =
      ground (arith, text_eq_iff j k, text_lt_irrefl k, h.0, lookup-above k m h.1)

  -- A key after all others joins at the end.
  pub insert-above : (k : Text) (v : V) (m : Map V) → Below k m → insert k v m ≡ m ++ (k, v) ∷ []
  unfolding insert
  insert-above k v [] h = refl
  insert-above k v ((j, w) ∷ m) h =
      ground
        (arith, text_eq_iff j k, text_lt_irrefl k, text_lt_trans k j k, h.0, insert-above k v m h.1)

  pub Ascending-right : (m n : Map V) → Ascending (m ++ n) → Ascending n
  Ascending-right [] n h = h
  Ascending-right (x ∷ m) n h = Ascending-right m n h.1

  pub Ascending-left : (m n : Map V) → Ascending (m ++ n) → Ascending m
  Ascending-left [] n h = tt
  Ascending-left ((k, v) ∷ m) n h = (All-left m n h.0, Ascending-left m n h.1)
    where
      All-left :
          (m n : Map V)
          → All (λ (j, w). text_lt k j ≡ true) (m ++ n)
          → All (λ (j, w). text_lt k j ≡ true) m
      All-left [] n h = tt
      All-left (x ∷ m) n h = (h.0, All-left m n h.1)
