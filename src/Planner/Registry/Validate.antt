-- ===== src/Planner/Registry/Validate.antt =====
-- src/fetech/registry.py: `_validate`.
use fetech.Prelude.{
  ℕ, String, Bool, true, false, not, List, [], ◌∷◌, ◌++◌, map, keep, elem, length, ◌==◌,
  if◌then◌else◌,
}
use fetech.Prelude.Answer.{Answer, raise, give}
use fetech.Planner.Registry.{Registry}

-- EXPECTED_CATEGORIES
abbrev pub expected_categories : ℕ
expected_categories = 13

-- EXPECTED_CAPABILITIES
abbrev pub expected_capabilities : ℕ
expected_capabilities = 155

-- The messages of a ManifestError
pub data Flaw : Type 0 where
  wrong_categories : ℕ → Flaw
  wrong_capabilities : ℕ → Flaw
  repeated_ids : Flaw
  repeated_aliases : Flaw
  collisions : List String → Flaw

-- set(xs), its members in the order of their last places
unfoldable pub members : List String → List String
members [] = []
members (x ∷ xs) = let rest = members xs in if elem x xs then rest else x ∷ rest

abbrev pub entry_ids : Registry → List String
entry_ids r = map (λ e. e.id) r

abbrev pub all_aliases : Registry → List String
all_aliases [] = []
all_aliases (e ∷ es) = e.aliases ++ all_aliases es

unfoldable pub is_repeated : List String → Bool
unfolding members
is_repeated xs = not (length xs == length (members xs))

-- set(ids) & set(aliases)
unfoldable pub common : List String → List String → List String
unfolding members
common xs ys = keep (λ x. elem x ys) (members xs)

abbrev pub is_empty_set : {A : Type 0} → List A → Bool
is_empty_set [] = true
is_empty_set (x ∷ xs) = false

abbrev pub flaw_if : Bool → Flaw → List Flaw
flaw_if true flaw = flaw ∷ []
flaw_if false flaw = []

unfoldable pub flaws : Registry → List Flaw
unfolding members is_repeated common
flaws r =
    let categories = length (members (map (λ e. e.category) r)) in
    let both = common (entry_ids r) (all_aliases r) in
    flaw_if (not (categories == expected_categories)) (wrong_categories categories)
    ++ (flaw_if (not (length r == expected_capabilities)) (wrong_capabilities (length r))
        ++ (flaw_if (is_repeated (entry_ids r)) repeated_ids
            ++ (flaw_if (is_repeated (all_aliases r)) repeated_aliases
                ++ flaw_if (not (is_empty_set both)) (collisions both))))

abbrev pub raise_any : List Flaw → Answer (List Flaw) (Unit {0})
raise_any [] = give tt
raise_any (f ∷ fs) = raise (f ∷ fs)

unfoldable pub validate : Registry → Answer (List Flaw) (Unit {0})
unfolding flaws
validate r = raise_any (flaws r)
