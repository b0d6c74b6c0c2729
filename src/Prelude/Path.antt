-- ===== src/Prelude/Path.antt =====
-- Python's `PurePosixPath`: the components of a path and its text.
use Prim.Native.Char.{Char, char, code}
use Prim.Native.String.{String}
use mathlib.Core.Path.{◌≡◌, refl}
use mathlib.Core.Logic.{inl, inr}
use mathlib.Core.Bool.{Bool, true, false, not, ◌||◌}
use mathlib.Core.Option.{Option, none, some}
use mathlib.Core.List.{List, [], ◌∷◌}
use native.Mathlib.Omega.{arith}
use fetech.Prelude.Tests.{if◌then◌else◌, ◌==◌, ◌=s=◌, Bool-cases}
use fetech.Prelude.Lists.{All, keep}
use fetech.Prelude.Text.{is_empty_text}

-- s.split("/"), which has a first text
unfoldable pub split_path : String → String × List String
split_path String.[] = ("", [])
split_path (String.◌∷◌ c s) =
    let rest = split_path s in
    if code c == 47 then ("", rest.0 ∷ rest.1) else (String.◌∷◌ c rest.0, rest.1)

abbrev pub is_component : String → Bool
is_component s = not (is_empty_text s || s =s= ".")

-- PurePosixPath(s).parts, without the root of an absolute path
unfoldable pub path_parts : String → List String
unfolding split_path
path_parts s = let texts = split_path s in keep is_component (texts.0 ∷ texts.1)

-- PurePosixPath(s).is_absolute()
unfoldable pub is_absolute : String → Bool
is_absolute String.[] = false
is_absolute (String.◌∷◌ c s) = code c == 47

abbrev pub slash : Char
slash = char 47 tt

-- s + "/" + t
abbrev pub under : String → String → String
under String.[] t = String.◌∷◌ slash t
under (String.◌∷◌ c s) t = String.◌∷◌ c (under s t)

-- "/".join(parts), for a path that has a component
unfoldable pub join_path : List String → String
join_path [] = ""
join_path (s ∷ []) = s
join_path (s ∷ t ∷ ts) = under s (join_path (t ∷ ts))

abbrev last_dot : String → Option String
last_dot String.[] = none
last_dot (String.◌∷◌ c s) =
    let rest = last_dot s in
    elim rest [ some t ↦ some t | none ↦ if code c == 46 then some (String.◌∷◌ c s) else none ]

abbrev suffix_of_dot : Option String → String
suffix_of_dot none = ""
suffix_of_dot (some t) = if t =s= "." then "" else t

abbrev component_suffix : String → String
component_suffix String.[] = ""
component_suffix (String.◌∷◌ c s) = suffix_of_dot (last_dot s)

abbrev last_component : List String → String
last_component [] = ""
last_component (s ∷ []) = s
last_component (s ∷ t ∷ ts) = last_component (t ∷ ts)

-- PurePosixPath(s).suffix
unfoldable pub path_suffix : String → String
unfolding path_parts
path_suffix s = component_suffix (last_component (path_parts s))

has_slash : String → Bool
has_slash String.[] = false
has_slash (String.◌∷◌ c s) = (code c == 47) || has_slash s

-- A component has text, is not the current folder and has no slash.
pub IsPart : String → Type 0
IsPart s = (is_component s ≡ true) × (has_slash s ≡ false)

SlashFree : String × List String → Type 0
SlashFree texts = (has_slash texts.0 ≡ false) × All (λ t. has_slash t ≡ false) texts.1

split_path-SlashFree : (s : String) → SlashFree (split_path s)
unfolding split_path has_slash SlashFree
split_path-SlashFree String.[] = (refl, tt)
split_path-SlashFree (String.◌∷◌ c s) =
    let (first, rest) = split_path-SlashFree s in
    elim (Bool-cases (code c == 47)) [
      | inl e ↦ rw e (refl, (first, rest))
      | inr e ↦ rw (e, e) (first, rest)
    ]

keep-IsPart :
    (ts : List String) → All (λ t. has_slash t ≡ false) ts → All IsPart (keep is_component ts)
unfolding IsPart
keep-IsPart [] h = tt
keep-IsPart (t ∷ ts) h = elim (Bool-cases (is_component t)) [
  | inl e ↦ rw e ((e, h.0), keep-IsPart ts h.1)
  | inr e ↦ rw e (keep-IsPart ts h.1)
]

pub path_parts-IsPart : (s : String) → All IsPart (path_parts s)
unfolding path_parts SlashFree
path_parts-IsPart s =
    let texts = split_path s in keep-IsPart (texts.0 ∷ texts.1) (split_path-SlashFree s)

keep-parts : (ts : List String) → All IsPart ts → keep is_component ts ≡ ts
unfolding IsPart
keep-parts [] h = refl
keep-parts (t ∷ ts) h = rw (h.0.0, keep-parts ts h.1) refl

split_path-one : (s : String) → has_slash s ≡ false → split_path s ≡ (s, [])
unfolding split_path has_slash
split_path-one String.[] h = refl
split_path-one (String.◌∷◌ c s) h = elim (Bool-cases (code c == 47)) [
  | inl e ↦ absurd (ground arith)
  | inr e ↦ rw (e, split_path-one s (ground arith)) refl
]

split_path-under :
    (s t : String)
    → has_slash s ≡ false
    → split_path (under s t) ≡ (s, (split_path t).0 ∷ (split_path t).1)
unfolding split_path has_slash
split_path-under String.[] t h = refl
split_path-under (String.◌∷◌ c s) t h = elim (Bool-cases (code c == 47)) [
  | inl e ↦ absurd (ground arith)
  | inr e ↦ rw (e, split_path-under s t (ground arith)) refl
]

split_path-join_path :
    (s : String) (ts : List String)
    → All IsPart (s ∷ ts)
    → split_path (join_path (s ∷ ts)) ≡ (s, ts)
unfolding join_path IsPart
split_path-join_path s [] h = split_path-one s h.0.1
split_path-join_path s (t ∷ ts) h =
    rw (split_path-under s (join_path (t ∷ ts)) h.0.1, split_path-join_path t ts h.1) refl

-- The text of a path that has components is read back as the same components.
pub path_parts-join_path :
    (s : String) (ts : List String) → All IsPart (s ∷ ts) → path_parts (join_path (s ∷ ts)) ≡ s ∷ ts
unfolding path_parts
path_parts-join_path s ts h = rw (split_path-join_path s ts h) (keep-parts (s ∷ ts) h)

pub join_path-relative :
    (s : String) (ts : List String) → All IsPart (s ∷ ts) → is_absolute (join_path (s ∷ ts)) ≡ false
unfolding join_path IsPart is_absolute has_slash
join_path-relative String.[] ts h = absurd (ground arith)
join_path-relative (String.◌∷◌ c s) [] h = ground arith
join_path-relative (String.◌∷◌ c s) (t ∷ ts) h = ground arith
