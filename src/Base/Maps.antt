-- ===== src/Base/Maps.antt =====
-- Rust's `HashMap<String, V>` and `HashSet<String>` as association lists and lists. An insertion
-- overwrites in place, a removal takes every entry of the key; iteration follows the list, an
-- order that Rust leaves open, so theorems hold for whatever order a map has.
use Prim.Native.Nat.{◌+◌, ◌≤◌}
use Prim.Native.String.{String}
use mathlib.Core.Path.{◌≡◌, refl}
use mathlib.Core.Bool.{Bool, true, false, ◌||◌}
use mathlib.Core.List.{List, [], ◌∷◌}
use mathlib.Core.Option.{Option, none, some}
use native.Mathlib.Omega.{arith}
use text.Mathlib.Text.{◌==◌ as str_eq}
use text.Mathlib.TextEquality.{eq_iff}
use sinfonia.Base.Tests.{if◌then◌else◌, is_some}
use sinfonia.Base.Lists.{length}

abbrev pub Map {ℓ} : Type ℓ → Type ℓ
Map V = List (String × V)

abbrev pub StringSet : Type 0
StringSet = List String

module _ {ℓ} {V : Type ℓ} where
  unfoldable pub lookup : String → Map V → Option V
  lookup key [] = none
  lookup key ((key', v) ∷ entries) = if str_eq key' key then some v else lookup key entries

  unfoldable pub contains_key : String → Map V → Bool
  contains_key key [] = false
  contains_key key ((key', v) ∷ entries) = str_eq key' key || contains_key key entries

  unfoldable pub insert : String → V → Map V → Map V
  insert key new [] = (key, new) ∷ []
  insert key new ((key', old) ∷ entries) =
      let kept = insert key new entries in
      if str_eq key' key then (key, new) ∷ entries else (key', old) ∷ kept

  unfoldable pub remove : String → Map V → Map V
  remove key [] = []
  remove key ((key', v) ∷ entries) =
      let kept = remove key entries in if str_eq key' key then kept else (key', v) ∷ kept

  abbrev pub values : Map V → List V
  values [] = []
  values ((k, v) ∷ m) = v ∷ values m

  abbrev pub keys : Map V → List String
  keys [] = []
  keys ((k, v) ∷ m) = k ∷ keys m

  pub lookup-insert :
      (k j : String) (v : V) (m : Map V)
      → lookup j (insert k v m) ≡ (if str_eq k j then some v else lookup j m)
  unfolding lookup insert
  lookup-insert k j v [] = refl
  lookup-insert k j v ((key, w) ∷ entries) =
      ground (arith, lookup-insert k j v entries, eq_iff key k, eq_iff key j, eq_iff k j)

  pub lookup-remove :
      (k j : String) (m : Map V) → lookup j (remove k m) ≡ (if str_eq k j then none else lookup j m)
  unfolding lookup remove
  lookup-remove k j [] = ground arith
  lookup-remove k j ((i, w) ∷ m) =
      ground (arith, eq_iff k j, eq_iff i k, eq_iff i j, lookup-remove k j m)

  pub contains_key-eq : (k : String) (m : Map V) → contains_key k m ≡ is_some (lookup k m)
  unfolding lookup contains_key
  contains_key-eq k [] = refl
  contains_key-eq k ((i, w) ∷ m) = ground (arith, contains_key-eq k m)

  pub length-remove-le : (k : String) (m : Map V) → length (remove k m) ≤ length m
  unfolding remove
  length-remove-le k [] = omega arith
  length-remove-le k ((i, w) ∷ m) = ground (arith, length-remove-le k m)

  -- An overwritten entry adds none.
  pub length-insert_over :
      (k : String) (v w : V) (m : Map V) → lookup k m ≡ some w → length (insert k v m) ≡ length m
  unfolding lookup insert
  length-insert_over k v w [] h = cc
  length-insert_over k v w ((i, u) ∷ m) h = ground (arith, length-insert_over k v w m)

  pub length-insert-le : (k : String) (v : V) (m : Map V) → length (insert k v m) ≤ length m + 1
  unfolding insert
  length-insert-le k v [] = omega arith
  length-insert-le k v ((i, w) ∷ m) = ground (arith, length-insert-le k v m)

module _ where
  unfoldable pub member : String → StringSet → Bool
  member k [] = false
  member k (j ∷ s) = str_eq j k || member k s

  unfoldable pub set_insert : String → StringSet → StringSet
  set_insert k s = if member k s then s else k ∷ s

  unfoldable pub set_remove : String → StringSet → StringSet
  set_remove k [] = []
  set_remove k (j ∷ s) = let rest = set_remove k s in if str_eq j k then rest else j ∷ rest

  pub member-insert :
      (k j : String) (s : StringSet)
      → member j (set_insert k s) ≡ (if str_eq k j then true else member j s)
  unfolding member set_insert
  member-insert k j s = ground (arith, eq_iff k j)

  pub member-remove :
      (k j : String) (s : StringSet)
      → member j (set_remove k s) ≡ (if str_eq k j then false else member j s)
  unfolding member set_remove
  member-remove k j [] = ground arith
  member-remove k j (i ∷ s) =
      ground (arith, eq_iff k j, eq_iff i k, eq_iff i j, member-remove k j s)
