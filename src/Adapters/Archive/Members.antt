-- ===== src/Adapters/Archive/Members.antt =====
-- src/fetech/adapters/archive.py: each loop on members is a run that keeps to the bounds.
use fetech.Prelude.{
  ℕ, suc, ◌+◌, ◌≤◌, String, ◌≡◌, refl, subst, Bool, true, false, Option, List, [], ◌∷◌, length,
  elem, All, arith, if◌then◌else◌, ltb, ==→eq,
}
use fetech.Prelude.Text.{lower}
use fetech.Prelude.Path.{
  path_parts, join_path, IsPart, path_parts-IsPart, path_parts-join_path, join_path-relative,
}
use fetech.Prelude.Answer.{Answer, give, ◌>>◌, raise_if, passes, gives}
use fetech.Adapters.Archive.{
  Bytes, Member, ArchiveError, ArchiveLimits, name_checks, validate_name, record_name, admit_member,
  keep_member, is_nil, is_nested, ZipInfo, TarInfo, is_symlink, symlink, read_body,
  unreadable_member, zip_checks, content_checks, zip_members, tar_checks, tar_members,
  duplicate_path, link_or_device,
}
use fetech.Adapters.Archive.Bounds.{
  IsInside, Extracted, done, skipped, taken, IsBounded, Extracted-IsBounded,
}

-- One statement that raises if its test holds
pub guarded {ℓ} :
    {A : Type ℓ} (test : Bool) (e : ArchiveError) (rest : Answer ArchiveError A) (a : A)
    → (raise_if test e >> rest) ≡ give a
    → (test ≡ false) × (rest ≡ give a)
guarded true e rest a h = absurd (ground arith)
guarded false e rest a h = (refl, h)

join-IsInside :
    (ps : List String)
    → All IsPart ps
    → is_nil ps ≡ false
    → elem ".." ps ≡ false
    → IsInside (join_path ps)
join-IsInside [] parts nonempty up = absurd (ground arith)
join-IsInside (p ∷ ps) parts nonempty up = record {
  relative = join_path-relative p ps parts;
  no_parent = rw (path_parts-join_path p ps parts) up;
  has_part = rw (path_parts-join_path p ps parts) refl;
}

pub validate_name-IsInside : (raw name : String) → validate_name raw ≡ give name → IsInside name
unfolding validate_name
validate_name-IsInside raw name h =
    let ((_, (path, _)), h') = passes (name_checks raw) _ name h in
    let same : join_path (path_parts raw) ≡ name = cc in
    subst IsInside same
      (join-IsInside (path_parts raw) (path_parts-IsPart raw) (ground arith) (ground arith))

pub record_name-fresh :
    (name : String) (seen seen' : List String)
    → record_name name seen ≡ give seen'
    → (elem (lower name) seen ≡ false) × (lower name ∷ seen ≡ seen')
unfolding record_name
record_name-fresh name seen seen' h =
    let (fresh, h') =
      guarded (elem (lower name) seen) duplicate_path (give (lower name ∷ seen)) seen' h in
    (fresh, cc)

content_size :
    (name : String) (size : ℕ) (content : Bytes)
    → All (λ c. c.0 ≡ false) (content_checks name size content)
    → (length content ≡ size) × (is_nested name content ≡ false)
content_size name size content h = (==→eq (length content) size (ground arith), h.1.0)

-- What is known of a member that both loops have admitted
pub record Admitted (raw : String) (seen : List String) (name : String) (seen' : List String)
    : Type 0 where
  pub fresh : elem (lower name) seen ≡ false
  pub inside : IsInside name
  pub noted : lower name ∷ seen ≡ seen'

admit_member-Admitted :
    (raw : String) (seen : List String) (is_link : Bool) (e : ArchiveError) (name : String)
    (seen' : List String)
    → admit_member raw seen is_link e ≡ give (name, seen')
    → Admitted raw seen name seen'
admit_member-Admitted raw seen is_link e name seen' h =
    let (n, en, h1) = gives (validate_name raw) _ (name, seen') h in
    let (s, es, h2) = gives (record_name n seen) _ (name, seen') h1 in
    let (_, h3) = guarded is_link e (give (n, s)) (name, seen') h2 in
    let same : ◌≡◌ {A = String × List String} (n, s) (name, seen') = cc in
    let (fresh, is) = record_name-fresh n seen s es in
    subst (λ (x : String × List String). Admitted raw seen x.0 x.1) same
      record { fresh = fresh; inside = validate_name-IsInside raw n en; noted = is }

-- What is known of a member whose content is kept
pub record Kept (checks : List (Bool × ArchiveError)) (name : String) (size : ℕ)
    (later : Answer ArchiveError (List Member)) (out : List Member) : Type 0 where
  pub checked : All (λ c. c.0 ≡ false) checks
  pub content : Bytes
  pub sized : length content ≡ size
  pub flat : is_nested name content ≡ false
  pub rest : List Member
  pub rest_given : later ≡ give rest
  pub result : (name, content) ∷ rest ≡ out

keep_member-Kept :
    (checks : List (Bool × ArchiveError)) (name : String) (size : ℕ) (body : Option Bytes)
    (later : Answer ArchiveError (List Member)) (out : List Member)
    → keep_member checks name size body later ≡ give out
    → Kept checks name size later out
keep_member-Kept checks name size body later out h =
    let (checked, h1) = passes checks _ out h in
    let (content, _, h2) = gives (read_body unreadable_member body) _ out h1 in
    let (cs, h3) = passes (content_checks name size content) _ out h2 in
    let (rest, er, h4) = gives later (λ r. give ((name, content) ∷ r)) out h3 in
    let (sized, flat) = content_size name size content cs in
    record {
      checked = checked;
      content = content;
      sized = sized;
      flat = flat;
      rest = rest;
      rest_given = er;
      result = cc;
    }

module _ (l : ArchiveLimits) where
  -- A member is taken when the code has made its checks and read it.
  take_member :
      (name : String) (content : Bytes) (seen : List String) (expanded size : ℕ)
      (rest out : List Member)
      → elem (lower name) seen ≡ false
      → IsInside name
      → ltb l.maximum_expanded (expanded + size) ≡ false
      → length content ≡ size
      → is_nested name content ≡ false
      → Extracted l.maximum_expanded (lower name ∷ seen) (expanded + size) rest
      → (name, content) ∷ rest ≡ out
      → Extracted l.maximum_expanded seen expanded out
  take_member name content seen expanded size rest out fresh inside fits same flat e is =
      let e' : Extracted l.maximum_expanded (lower name ∷ seen) (expanded + length content) rest =
        rw same e in
      subst (Extracted l.maximum_expanded seen expanded) is
        (taken name content seen expanded rest fresh inside (ground arith) flat e')

  pub Run : List String → ℕ → ℕ → List Member → Type 0
  Run seen expanded count out =
      Extracted l.maximum_expanded seen expanded out × (length out ≤ count)

  skip-Run :
      (raw name : String) (seen seen' : List String) (expanded count : ℕ) (out : List Member)
      → Admitted raw seen name seen'
      → Run seen' expanded count out
      → Run seen expanded (suc count) out
  unfolding Run
  skip-Run raw name seen seen' expanded count out a r =
      let r' : Extracted l.maximum_expanded (lower name ∷ seen) expanded out = rw a.noted r.0 in
      (skipped name seen expanded out r', omega (arith, r.1))

  pub keep-Run :
      (raw name : String) (seen seen' : List String) (expanded size count : ℕ)
      (checks : List (Bool × ArchiveError)) (later : Answer ArchiveError (List Member))
      (out : List Member)
      → Admitted raw seen name seen'
      → (k : Kept checks name size later out) → ltb l.maximum_expanded (expanded + size) ≡ false
      → Run seen' (expanded + size) count k.rest
      → Run seen expanded (suc count) out
  unfolding Run
  keep-Run raw name seen seen' expanded size count checks later out a k fits r =
      let r' : Extracted l.maximum_expanded (lower name ∷ seen) (expanded + size) k.rest =
        rw a.noted r.0 in
      (
        take_member name k.content seen expanded size k.rest out a.fresh a.inside fits k.sized
            k.flat r' k.result,
        rw (← k.result) (omega (arith, r.1)),
      )

  pub empty-Run :
      (seen : List String) (expanded : ℕ) (out : List Member) → [] ≡ out → Run seen expanded 0 out
  unfolding Run
  empty-Run seen expanded out is =
      subst (λ o. Extracted l.maximum_expanded seen expanded o × (length o ≤ 0)) is
        (done seen expanded, omega arith)

  -- One member of a ZIP file, when the loop is right on the members that follow
  zip_member :
      (info : ZipInfo) (name : String) (seen seen' : List String) (expanded count : ℕ)
      (loop : ℕ → Answer ArchiveError (List Member)) (out : List Member)
      → Admitted info.filename seen name seen'
      → ((n : ℕ) (rest : List Member) → loop n ≡ give rest → Run seen' n count rest)
      → (is_dir : Bool)
      → (let expanded' = if is_dir then expanded else expanded + info.file_size in
          if is_dir
          then loop expanded'
          else keep_member
              (zip_checks l info expanded')
              name
              info.file_size
              info.body
              (loop expanded'))
        ≡ give out
      → Run seen expanded (suc count) out
  zip_member info name seen seen' expanded count loop out a right true h =
      skip-Run info.filename name seen seen' expanded count out a (right expanded out h)
  zip_member info name seen seen' expanded count loop out a right false h =
      let expanded' = expanded + info.file_size in
      let checks = zip_checks l info expanded' in
      let k = keep_member-Kept checks name info.file_size info.body (loop expanded') out h in
      keep-Run info.filename name seen seen' expanded info.file_size count checks (loop expanded')
        out a k k.checked.1.1.0 (right expanded' k.rest k.rest_given)

  pub zip_members-Extracted :
      (infos : List ZipInfo) (seen : List String) (expanded : ℕ) (out : List Member)
      → zip_members l infos seen expanded ≡ give out
      → Run seen expanded (length infos) out
  unfolding zip_members
  zip_members-Extracted [] seen expanded out h = empty-Run seen expanded out cc
  zip_members-Extracted (info ∷ infos) seen expanded out h =
      let ((name, seen'), admitted, h1) =
        gives (admit_member info.filename seen (is_symlink info) symlink) _ out h in
      zip_member info name seen seen' expanded (length infos) (zip_members l infos seen') out
        (admit_member-Admitted info.filename seen (is_symlink info) symlink name seen' admitted)
        (λ n rest e. zip_members-Extracted infos seen' n rest e) info.is_dir h1

  tar_member :
      (body_size : ℕ) (member : TarInfo) (name : String) (seen seen' : List String)
      (expanded count : ℕ) (loop : ℕ → Answer ArchiveError (List Member)) (out : List Member)
      → Admitted member.name seen name seen'
      → ((n : ℕ) (rest : List Member) → loop n ≡ give rest → Run seen' n count rest)
      → (is_file : Bool)
      → (let expanded' = if is_file then expanded + member.size else expanded in
          if is_file
          then keep_member
              (tar_checks l body_size member expanded')
              name
              member.size
              member.body
              (loop expanded')
          else loop expanded')
        ≡ give out
      → Run seen expanded (suc count) out
  tar_member body_size member name seen seen' expanded count loop out a right false h =
      skip-Run member.name name seen seen' expanded count out a (right expanded out h)
  tar_member body_size member name seen seen' expanded count loop out a right true h =
      let expanded' = expanded + member.size in
      let checks = tar_checks l body_size member expanded' in
      let k = keep_member-Kept checks name member.size member.body (loop expanded') out h in
      keep-Run member.name name seen seen' expanded member.size count checks (loop expanded') out a
        k k.checked.1.0 (right expanded' k.rest k.rest_given)

  pub tar_members-Extracted :
      (body_size : ℕ) (members : List TarInfo) (seen : List String) (expanded : ℕ)
      (out : List Member)
      → tar_members l body_size members seen expanded ≡ give out
      → Run seen expanded (length members) out
  unfolding tar_members
  tar_members-Extracted body_size [] seen expanded out h = empty-Run seen expanded out cc
  tar_members-Extracted body_size (member ∷ members) seen expanded out h =
      let ((name, seen'), admitted, h1) =
        gives (admit_member member.name seen member.is_link link_or_device) _ out h in
      tar_member body_size member name seen seen' expanded (length members)
        (tar_members l body_size members seen') out
        (admit_member-Admitted member.name seen member.is_link link_or_device name seen' admitted)
        (λ n rest e. tar_members-Extracted body_size members seen' n rest e) member.is_file h1

  pub Run-IsBounded :
      (count : ℕ) (out : List Member)
      → count ≤ l.maximum_members
      → Run [] 0 count out
      → IsBounded l.maximum_members l.maximum_expanded out
  unfolding Run
  Run-IsBounded count out few r =
      Extracted-IsBounded l.maximum_members l.maximum_expanded out (omega (arith, r.1)) r.0
