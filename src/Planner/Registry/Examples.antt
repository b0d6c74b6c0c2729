-- ===== src/Planner/Registry/Examples.antt =====
-- src/fetech/registry.py: a manifest of the expected size.
use fetech.Prelude.{◌≡◌, refl, ◌⊎◌, inl, String, false, List, [], ◌∷◌, ◌++◌, map, elem}
use fetech.Prelude.Text.{append}
use fetech.Prelude.Answer.{raise, give}
use fetech.Models.Status.{CapabilityKind}
use fetech.Planner.Result.{ok}
use fetech.Planner.Registry.{Entry, Registry, resolve_id, get}
use fetech.Planner.Registry.Validate.{
  members, is_repeated, common, flaws, validate, wrong_categories, wrong_capabilities,
}
use fetech.Planner.Registry.Unambiguous.{validate-unambiguous}

abbrev entry : String → List String → String → Entry
entry category aliases name = record {
  id = append category name;
  aliases = aliases;
  category = category;
  kind = CapabilityKind.operation;
  implementation_available = false;
}

abbrev eleven : List String
eleven = "a" ∷ "b" ∷ "c" ∷ "d" ∷ "e" ∷ "f" ∷ "g" ∷ "h" ∷ "i" ∷ "j" ∷ "k" ∷ []

abbrev by_category : List String → Registry
by_category [] = []
by_category (c ∷ cs) = map (entry c []) ("l" ∷ eleven) ++ by_category cs

abbrev article : Entry
article = entry "M" ("article" ∷ []) "a"

abbrev manifest : Registry
manifest =
    article ∷ map (entry "M" []) ("b" ∷ "c" ∷ "d" ∷ "e" ∷ "f" ∷ "g" ∷ "h" ∷ "i" ∷ "j" ∷ "k" ∷ [])
    ++ by_category ("L" ∷ eleven)

valid : validate manifest ≡ give tt
unfolding validate flaws members is_repeated common
valid = refl

too_small : validate (article ∷ []) ≡ raise (wrong_categories 1 ∷ wrong_capabilities 1 ∷ [])
unfolding validate flaws members is_repeated common
too_small = refl

validate-unambiguous_example :
    (get manifest "Ma" ≡ ok article)
    × ((c : String)
        → (elem c ("article" ∷ []) ≡ false)
          ⊎ ((resolve_id manifest c ≡ ok "Ma") × (get manifest c ≡ ok article)))
validate-unambiguous_example = validate-unambiguous manifest article valid (inl refl)
