-- ===== src/Planner/Registry.antt =====
-- src/fetech/registry.py: `resolve_id` and `get`. The entries are those of the manifest.
pub mod Validate
pub mod Members
pub mod Unambiguous
pub mod Examples
use fetech.Prelude.{String, ◌=s=◌, Bool, Option, none, some, List, [], ◌∷◌, if◌then◌else◌, elem}
use fetech.Models.Status.{CapabilityKind}
use fetech.Planner.Result.{Result, ok, err, unknown_capability, ◌>>=◌}

-- CapabilityManifestEntry, as far as the planner and the registry read it
pub record Entry : Type 0 where
  pub id : String
  pub aliases : List String
  pub category : String
  pub kind : CapabilityKind
  pub implementation_available : Bool

abbrev pub Registry : Type 0
Registry = List Entry

-- self._by_id: of two entries with one id the later one
abbrev pub by_id : String → Registry → Option Entry
by_id c [] = none
by_id c (e ∷ es) = elim (by_id c es) [
  | some f ↦ some f
  | none ↦ if e.id =s= c then some e else none
]

-- self._aliases
abbrev pub by_alias : String → Registry → Option String
by_alias c [] = none
by_alias c (e ∷ es) = elim (by_alias c es) [
  | some f ↦ some f
  | none ↦ if elem c e.aliases then some e.id else none
]

-- resolve_id
unfoldable pub resolve_id : Registry → String → Result String
resolve_id r c = elim (by_id c r) [
  | some e ↦ ok c
  | none ↦ elim (by_alias c r) [ some id ↦ ok id | none ↦ err (unknown_capability c) ]
]

-- get
unfoldable pub get : Registry → String → Result Entry
unfolding resolve_id
get r c = do
  id ← resolve_id r c
  elim (by_id id r) [ some e ↦ ok e | none ↦ err (unknown_capability id) ]
