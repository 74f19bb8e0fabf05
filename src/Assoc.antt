-- ===== src/Assoc.antt =====
-- A Go map with string keys as an association list. A write to a key that is there keeps its
-- place, and a new key goes to the end; Go leaves the order of a `range` open, and no theorem
-- depends on the order that the list happens to have.
pub mod Laws
pub mod Distinct
use g0efilter.Prelude.{
  ◌≡◌, Bool, false, Option, none, some, List, [], ◌∷◌, if◌then◌else◌, drop, All,
}
use g0efilter.Text.{Bytes, equal}

module _ {V : Type 0} where
  unfoldable pub lookup : Bytes → List (Bytes × V) → Option V
  lookup k [] = none
  lookup k ((j, v) ∷ m) = if equal j k then some v else lookup k m

  -- `m[k] = v`
  unfoldable pub insert : Bytes → V → List (Bytes × V) → List (Bytes × V)
  insert k v [] = (k, v) ∷ []
  insert k v ((j, w) ∷ m) = if equal j k then (k, v) ∷ m else (j, w) ∷ insert k v m

  -- `delete(m, k)`
  unfoldable pub remove : Bytes → List (Bytes × V) → List (Bytes × V)
  remove k [] = []
  remove k ((j, w) ∷ m) = let rest = remove k m in if equal j k then rest else (j, w) ∷ rest

  -- `for k, v := range m { if drop(v) { delete(m, k) } }`
  unfoldable pub delete_where : (V → Bool) → List (Bytes × V) → List (Bytes × V)
  delete_where drop [] = []
  delete_where drop ((j, w) ∷ m) =
      let rest = delete_where drop m in if drop w then rest else (j, w) ∷ rest

  -- No entry has the key.
  abbrev pub Fresh : Bytes → List (Bytes × V) → Type 0
  Fresh k = All (λ e. equal e.0 k ≡ false)

  -- Every key stands once.
  abbrev pub IsMap : List (Bytes × V) → Type 0
  IsMap [] = Unit
  IsMap (e ∷ m) = Fresh e.0 m × IsMap m
