-- ===== src/Prelude/Dict.antt =====
-- Python's `dict` and `OrderedDict` with text keys, as association lists in insertion order.
use Prim.Native.Nat.{suc, ◌+◌, ◌≤◌}
use Prim.Native.String.{String}
use mathlib.Core.Path.{◌≡◌, refl}
use mathlib.Core.Option.{Option, none, some}
use mathlib.Core.List.{List, [], ◌∷◌, ◌++◌}
use native.Mathlib.Omega.{arith}
use text.Mathlib.TextEquality.{eq_iff}
use fetech.Prelude.Tests.{if◌then◌else◌, ◌=s=◌}
use fetech.Prelude.Lists.{length, length-append}

abbrev pub Dict {ℓ} : Type ℓ → Type ℓ
Dict V = List (String × V)

module _ {ℓ} {V : Type ℓ} where
  -- d.get(k)
  unfoldable pub lookup : String → Dict V → Option V
  lookup k [] = none
  lookup k ((j, v) ∷ d) = if j =s= k then some v else lookup k d

  -- d[k] = v keeps the place of a key that is there
  unfoldable pub insert : String → V → Dict V → Dict V
  insert k v [] = (k, v) ∷ []
  insert k v ((j, w) ∷ d) = if j =s= k then (k, v) ∷ d else (j, w) ∷ insert k v d

  -- del d[k]
  unfoldable pub remove : String → Dict V → Dict V
  remove k [] = []
  remove k ((j, w) ∷ d) = let rest = remove k d in if j =s= k then rest else (j, w) ∷ rest

  -- d[k] = v; d.move_to_end(k)
  unfoldable pub insert_last : String → V → Dict V → Dict V
  insert_last k v d = remove k d ++ (k, v) ∷ []

  pub lookup-insert :
      (k j : String) (v : V) (d : Dict V)
      → lookup j (insert k v d) ≡ (if k =s= j then some v else lookup j d)
  unfolding lookup insert
  lookup-insert k j v [] = refl
  lookup-insert k j v ((i, w) ∷ d) =
      ground (arith, eq_iff k j, eq_iff i k, eq_iff i j, lookup-insert k j v d)

  pub lookup-remove :
      (k j : String) (d : Dict V) → lookup j (remove k d) ≡ (if k =s= j then none else lookup j d)
  unfolding lookup remove
  lookup-remove k j [] = ground arith
  lookup-remove k j ((i, w) ∷ d) =
      ground (arith, eq_iff k j, eq_iff i k, eq_iff i j, lookup-remove k j d)

  lookup-one : (k j : String) (v : V) → lookup j ((k, v) ∷ []) ≡ (if k =s= j then some v else none)
  unfolding lookup
  lookup-one k j v = refl

  lookup-append :
      (j : String) (d e : Dict V)
      → lookup j (d ++ e) ≡ elim (lookup j d) [ none ↦ lookup j e | some v ↦ some v ]
  unfolding lookup
  lookup-append j [] e = refl
  lookup-append j ((i, w) ∷ d) e = ground (arith, lookup-append j d e)

  pub lookup-insert_last :
      (k j : String) (v : V) (d : Dict V)
      → lookup j (insert_last k v d) ≡ (if k =s= j then some v else lookup j d)
  unfolding insert_last
  lookup-insert_last k j v d =
      ground
        (arith, lookup-append j (remove k d) ((k, v) ∷ []), lookup-remove k j d, lookup-one k j v)

  pub length-remove : (k : String) (d : Dict V) → length (remove k d) ≤ length d
  unfolding remove
  length-remove k [] = omega arith
  length-remove k ((j, w) ∷ d) = ground (arith, length-remove k d)

  pub length-remove_of_some :
      (k : String) (d : Dict V) {v : V} → lookup k d ≡ some v → suc (length (remove k d)) ≤ length d
  unfolding lookup remove
  length-remove_of_some k [] h = absurd (ground arith)
  length-remove_of_some k ((j, w) ∷ d) {v} h =
      ground (arith, length-remove k d, length-remove_of_some k d {v = v})

  pub length-insert_last :
      (k : String) (v : V) (d : Dict V) → length (insert_last k v d) ≡ length (remove k d) + 1
  unfolding insert_last
  length-insert_last k v d = length-append (remove k d) ((k, v) ∷ [])
