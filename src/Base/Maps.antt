-- ===== src/Base/Maps.antt =====
-- Maps as lists of keys with their values, for the source's `HashMap`. The order of a list is that in
-- which the map is iterated, which the source leaves open.
use mathlib.Core.Path.{◌≡◌, refl}
use mathlib.Core.Bool.{Bool, true, false}
use mathlib.Core.List.{List, [], ◌∷◌}
use mathlib.Core.Option.{Option, none, some}
use native.Mathlib.Omega.{arith}
use camelmailer.Base.Tests.{if◌then◌else◌}
use camelmailer.Base.Lists.{filter}

module _ {ℓ κ} {K : Type ℓ} {V : Type κ} (eq : K → K → Bool) where
  unfoldable pub map_get : K → List (K × V) → Option V
  map_get k [] = none
  map_get k ((k', v) ∷ r) = if eq k' k then some v else map_get k r

  -- The value in the place of the key, or at the end.
  unfoldable pub map_insert : K → V → List (K × V) → List (K × V)
  map_insert k v [] = (k, v) ∷ []
  map_insert k v ((k', w) ∷ r) =
      let rest = map_insert k v r in if eq k' k then (k', v) ∷ r else (k', w) ∷ rest

  unfoldable pub map_remove : K → List (K × V) → List (K × V)
  map_remove k [] = []
  map_remove k ((k', w) ∷ r) = let rest = map_remove k r in if eq k' k then rest else (k', w) ∷ rest

abbrev pub values {ℓ κ} : {K : Type ℓ} {V : Type κ} → List (K × V) → List V
values [] = []
values ((k, v) ∷ r) = v ∷ values r

-- `iter().find(..)`
abbrev pub find {ℓ} : {A : Type ℓ} → (A → Bool) → List A → Option A
find p [] = none
find p (x ∷ xs) = if p x then some x else find p xs

pub map_get-map_insert :
    {K V : Type 0} (eq : K → K → Bool) (k : K) (v : V) (m : List (K × V))
    → ((a : K) → eq a a ≡ true)
    → map_get eq k (map_insert eq k v m) ≡ some v
unfolding map_get map_insert
map_get-map_insert eq k v [] r = rw (r k) refl
map_get-map_insert eq k v ((k', w) ∷ m) r = ground (arith, map_get-map_insert eq k v m r)

-- A key that no other key can stand for is left alone by what is done to another key.
module _ {K V : Type 0} (eq : K → K → Bool) (k k' : K) (other : eq k' k ≡ false)
    (moves : (a b c : K) → eq a b ≡ true → eq a c ≡ eq b c) where
  pub map_get-map_insert_other :
      (v : V) (m : List (K × V)) → map_get eq k (map_insert eq k' v m) ≡ map_get eq k m
  unfolding map_get map_insert
  map_get-map_insert_other v [] = rw other refl
  map_get-map_insert_other v ((a, w) ∷ m) =
      ground (arith, moves a k' k, map_get-map_insert_other v m)

  pub map_get-map_remove_other :
      (m : List (K × V)) → map_get eq k (map_remove eq k' m) ≡ map_get eq k m
  unfolding map_get map_remove
  map_get-map_remove_other [] = refl
  map_get-map_remove_other ((a, w) ∷ m) = ground (arith, moves a k' k, map_get-map_remove_other m)

-- A value that is kept is still found.
pub map_get-filter :
    {K V : Type 0} (eq : K → K → Bool) (p : K × V → Bool) (k : K) (v : V) (m : List (K × V))
    → ((a : K) → p (a, v) ≡ true)
    → map_get eq k m ≡ some v
    → map_get eq k (filter p m) ≡ some v
unfolding map_get
map_get-filter eq p k v [] live h = h
map_get-filter eq p k v ((a, w) ∷ m) live h = ground (arith, live a, map_get-filter eq p k v m live)
