-- ===== src/Adapters/Archive/Bounds.antt =====
-- src/fetech/adapters/archive.py: what a list of extracted members keeps to, and the runs of the
-- loops that extract them.
use fetech.Prelude.{ℕ, ◌+◌, ◌≤◌, String, ◌≡◌, false, List, [], ◌∷◌, length, elem, All, arith}
use fetech.Prelude.Text.{lower}
use fetech.Prelude.Path.{path_parts, is_absolute}
use fetech.Adapters.Archive.{Bytes, Member, is_nested, is_nil}

-- A relative path with a component, of which none is ".."
pub record IsInside (name : String) : Type 0 where
  pub relative : is_absolute name ≡ false
  pub no_parent : elem ".." (path_parts name) ≡ false
  pub has_part : is_nil (path_parts name) ≡ false

-- The runs of a loop on members, with the portable names seen and the bytes expanded before it:
-- a member is skipped or taken, and its name was not seen.
pub data Extracted (maximum : ℕ) : List String → ℕ → List Member → Type 0 where
  done : (seen : List String) (expanded : ℕ) → Extracted maximum seen expanded []
  skipped :
      (name : String) (seen : List String) (expanded : ℕ) (out : List Member)
      → Extracted maximum (lower name ∷ seen) expanded out
      → Extracted maximum seen expanded out
  taken :
      (name : String) (content : Bytes) (seen : List String) (expanded : ℕ) (out : List Member)
      → elem (lower name) seen ≡ false
      → IsInside name
      → expanded + length content ≤ maximum
      → is_nested name content ≡ false
      → Extracted maximum (lower name ∷ seen) (expanded + length content) out
      → Extracted maximum seen expanded ((name, content) ∷ out)

pub total_size : List Member → ℕ
total_size [] = 0
total_size ((name, content) ∷ out) = length content + total_size out

-- No two members have names that differ only by case.
pub DistinctNames : List String → List Member → Type 0
DistinctNames seen [] = Unit
DistinctNames seen ((name, content) ∷ out) =
    (elem (lower name) seen ≡ false) × DistinctNames (lower name ∷ seen) out

-- What the caller of an extraction can rely on.
pub record IsBounded (maximum_members maximum_expanded : ℕ) (out : List Member) : Type 0 where
  pub few : length out ≤ maximum_members
  pub small : total_size out ≤ maximum_expanded
  pub inside : All (λ m. IsInside m.0) out
  pub flat : All (λ m. is_nested m.0 m.1 ≡ false) out
  pub distinct : DistinctNames [] out

Extracted-small :
    (maximum : ℕ) (seen : List String) (expanded : ℕ) (out : List Member)
    → expanded ≤ maximum
    → Extracted maximum seen expanded out
    → expanded + total_size out ≤ maximum
unfolding total_size
Extracted-small maximum seen expanded _ h (done _ _) = omega (arith, h)
Extracted-small maximum seen expanded out h (skipped name _ _ _ e) =
    Extracted-small maximum (lower name ∷ seen) expanded out h e
Extracted-small maximum seen expanded _ h (taken name content _ _ out _ _ fits _ e) =
    omega
      (arith, Extracted-small maximum (lower name ∷ seen) (expanded + length content) out fits e)

Extracted-IsInside :
    (maximum : ℕ) (seen : List String) (expanded : ℕ) (out : List Member)
    → Extracted maximum seen expanded out
    → All (λ m. IsInside m.0) out
Extracted-IsInside maximum seen expanded _ (done _ _) = tt
Extracted-IsInside maximum seen expanded out (skipped name _ _ _ e) =
    Extracted-IsInside maximum (lower name ∷ seen) expanded out e
Extracted-IsInside maximum seen expanded _ (taken name content _ _ out _ inside _ _ e) =
    (inside, Extracted-IsInside maximum (lower name ∷ seen) (expanded + length content) out e)

Extracted-flat :
    (maximum : ℕ) (seen : List String) (expanded : ℕ) (out : List Member)
    → Extracted maximum seen expanded out
    → All (λ m. is_nested m.0 m.1 ≡ false) out
Extracted-flat maximum seen expanded _ (done _ _) = tt
Extracted-flat maximum seen expanded out (skipped name _ _ _ e) =
    Extracted-flat maximum (lower name ∷ seen) expanded out e
Extracted-flat maximum seen expanded _ (taken name content _ _ out _ _ _ flat e) =
    (flat, Extracted-flat maximum (lower name ∷ seen) (expanded + length content) out e)

-- Fewer names seen, fewer collisions.
fewer :
    (xs ys : List String) (out : List Member)
    → ((n : String) → elem n xs ≡ false → elem n ys ≡ false)
    → DistinctNames xs out
    → DistinctNames ys out
unfolding DistinctNames
fewer xs ys [] sub h = tt
fewer xs ys ((name, content) ∷ out) sub h = (
  sub (lower name) h.0,
  fewer (lower name ∷ xs) (lower name ∷ ys) out (λ n e. ground (arith, sub n)) h.1,
)

Extracted-distinct :
    (maximum : ℕ) (seen : List String) (expanded : ℕ) (out : List Member)
    → Extracted maximum seen expanded out
    → DistinctNames seen out
unfolding DistinctNames
Extracted-distinct maximum seen expanded _ (done _ _) = tt
Extracted-distinct maximum seen expanded out (skipped name _ _ _ e) =
    fewer (lower name ∷ seen) seen out (λ n e'. ground arith)
      (Extracted-distinct maximum (lower name ∷ seen) expanded out e)
Extracted-distinct maximum seen expanded _ (taken name content _ _ out fresh _ _ _ e) =
    (fresh, Extracted-distinct maximum (lower name ∷ seen) (expanded + length content) out e)

-- A run that begins with nothing gives a list within the bounds.
pub Extracted-IsBounded :
    (members maximum : ℕ) (out : List Member)
    → length out ≤ members
    → Extracted maximum [] 0 out
    → IsBounded members maximum out
Extracted-IsBounded members maximum out few e = record {
  few = few;
  small = omega (arith, Extracted-small maximum [] 0 out (omega arith) e);
  inside = Extracted-IsInside maximum [] 0 out e;
  flat = Extracted-flat maximum [] 0 out e;
  distinct = Extracted-distinct maximum [] 0 out e;
}
