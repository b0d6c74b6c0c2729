-- ===== src/Adapters/Archive/Safe.antt =====
-- src/fetech/adapters/archive.py: what `_extract_members` gives and what is believed of the worker's
-- answer keep to the limits.
use fetech.Prelude.{ℕ, ◌+◌, String, ◌≡◌, refl, ◌==◌, ltb, List, [], ◌∷◌, length, arith}
use fetech.Prelude.Answer.{raise, give, passes, gives}
use fetech.Adapters.Archive.{
  Member, ArchiveLimits, validate_name, record_name, read_body, is_nested, invalid_base64,
  too_large, nested, RawMember, bad_schema, bad_types, encoded, Response, no_members, not_a_list,
  raw_members, worker_members, validate_worker_members, Opened, zip_file, tar_file, unknown_file,
  extract_zip, extract_tar, extract_members, check_limits, limit_checks, not_readable,
  too_many_members, invalid_member_list, empty_body, ZipInfo, TarInfo,
}
use fetech.Adapters.Archive.Bounds.{IsBounded}
use fetech.Adapters.Archive.Members.{
  guarded, validate_name-IsInside, record_name-fresh, Admitted, Kept, Run, Run-IsBounded, empty-Run,
  keep-Run, zip_members-Extracted, tar_members-Extracted,
}

module _ (l : ArchiveLimits) where
  worker_members-Extracted :
      (items : List RawMember) (seen : List String) (expanded : ℕ) (out : List Member)
      → worker_members l items seen expanded ≡ give out
      → Run l seen expanded (length items) out
  unfolding worker_members
  worker_members-Extracted [] seen expanded out h = empty-Run l seen expanded out cc
  worker_members-Extracted (bad_schema ∷ items) seen expanded out h = absurd (ground arith)
  worker_members-Extracted (bad_types ∷ items) seen expanded out h = absurd (ground arith)
  worker_members-Extracted (encoded raw body ∷ items) seen expanded out h =
      let (name, en, h1) = gives (validate_name raw) _ out h in
      let (seen', es, h2) = gives (record_name name seen) _ out h1 in
      let (content, _, h3) = gives (read_body invalid_base64 body) _ out h2 in
      let expanded' = expanded + length content in
      let later = worker_members l items seen' expanded' in
      let (fits, h4) = guarded (ltb l.maximum_expanded expanded') too_large _ out h3 in
      let (flat, h5) = guarded (is_nested name content) nested _ out h4 in
      let (rest, er, h6) = gives later (λ r. give ((name, content) ∷ r)) out h5 in
      let (fresh, noted) = record_name-fresh name seen seen' es in
      let a : Admitted raw seen name seen' = record {
        fresh = fresh;
        inside = validate_name-IsInside raw name en;
        noted = noted;
      } in
      let k : Kept [] name (length content) later out = record {
        checked = tt;
        content = content;
        sized = refl;
        flat = flat;
        rest = rest;
        rest_given = er;
        result = cc;
      } in
      keep-Run l raw name seen seen' expanded (length content) (length items) [] later out a k fits
        (worker_members-Extracted items seen' expanded' rest er)

  -- What is believed of a worker's answer has at most the greatest number of members, and their
  -- contents have at most the greatest number of bytes in all. Each name is a relative path with a
  -- component and no "..", no two names differ only by case, and no member is an archive itself.
  pub validate_worker_members-IsBounded :
      (response : Response) (out : List Member)
      → validate_worker_members l response ≡ give out
      → IsBounded l.maximum_members l.maximum_expanded out
  unfolding validate_worker_members
  validate_worker_members-IsBounded no_members out h = absurd (ground arith)
  validate_worker_members-IsBounded not_a_list out h = absurd (ground arith)
  validate_worker_members-IsBounded (raw_members items) out h =
      let (few, h1) = guarded (ltb l.maximum_members (length items)) invalid_member_list _ out h in
      Run-IsBounded l (length items) out (ground arith) (worker_members-Extracted items [] 0 out h1)

  extract_zip-IsBounded :
      (infos : List ZipInfo) (out : List Member)
      → extract_zip l infos ≡ give out
      → IsBounded l.maximum_members l.maximum_expanded out
  unfolding extract_zip
  extract_zip-IsBounded infos out h =
      let (few, h1) = guarded (ltb l.maximum_members (length infos)) too_many_members _ out h in
      Run-IsBounded l (length infos) out (ground arith) (zip_members-Extracted l infos [] 0 out h1)

  extract_tar-IsBounded :
      (body_size : ℕ) (members : List TarInfo) (out : List Member)
      → extract_tar l body_size members ≡ give out
      → IsBounded l.maximum_members l.maximum_expanded out
  unfolding extract_tar
  extract_tar-IsBounded body_size members out h =
      let (few, h1) = guarded (ltb l.maximum_members (length members)) too_many_members _ out h in
      Run-IsBounded l (length members) out (ground arith)
        (tar_members-Extracted l body_size members [] 0 out h1)

  -- What an archive of either kind gives has at most the greatest number of members, and their
  -- contents have at most the greatest number of bytes in all. Each name is a relative path with a
  -- component and no "..", no two names differ only by case, and no member is an archive itself.
  pub extract_members-IsBounded :
      (body_size : ℕ) (opened : Opened) (out : List Member)
      → extract_members l body_size opened ≡ give out
      → IsBounded l.maximum_members l.maximum_expanded out
  unfolding extract_members check_limits
  extract_members-IsBounded body_size opened out h =
      let (_, h1) = passes (limit_checks l) _ out h in
      let (_, h2) = guarded (body_size == 0) empty_body _ out h1 in by_kind opened h2
    where
      by_kind :
          (kind : Opened)
          → (elim kind [
            | zip_file infos ↦ extract_zip l infos
            | tar_file members ↦ extract_tar l body_size members
            | unknown_file ↦ raise not_readable
          ])
            ≡ give out
          → IsBounded l.maximum_members l.maximum_expanded out
      by_kind (zip_file infos) h = extract_zip-IsBounded infos out h
      by_kind (tar_file members) h = extract_tar-IsBounded body_size members out h
      by_kind unknown_file h = absurd (ground arith)
