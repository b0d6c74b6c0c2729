-- ===== src/Adapters/Archive.antt =====
-- src/fetech/adapters/archive.py: the names of members and the loops that extract them from a ZIP
-- file, from a TAR file and from the answer of the worker. The library's view of a member is a
-- record; reading it gives its bytes, or `none` for an exception.
pub mod Members
pub mod Bounds
pub mod Safe
use Prim.Native.Char.{code}
use Prim.Native.String.{len}
use fetech.Prelude.{
  ℕ, zero, suc, ◌+◌, ◌*◌, ◌/◌, ◌%◌, max, String, ◌=s=◌, Bool, true, false, not, ◌&&◌, ◌||◌, Option,
  none, some, List, [], ◌∷◌, ◌==◌, ltb, leb, if◌then◌else◌, elem, any, drop, length,
}
use fetech.Prelude.Text.{lower, is_empty_text}
use fetech.Prelude.Path.{path_parts, is_absolute, join_path, path_suffix}
use fetech.Prelude.Answer.{Answer, raise, give, ◌>>=◌, ◌>>◌, raise_if, raise_first}

abbrev pub Bytes : Type 0
Bytes = List ℕ

abbrev pub Member : Type 0
Member = String × Bytes

pub data ArchiveError : Type 0 where
  limits_not_positive ratio_below_one empty_body not_readable : ArchiveError
  too_many_members symlink encrypted ratio_exceeded too_large : ArchiveError
  size_mismatch nested link_or_device sparse unreadable_member : ArchiveError
  invalid_name path_traversal duplicate_path : ArchiveError
  invalid_response invalid_member_list invalid_member_schema invalid_member_types : ArchiveError
  invalid_base64 : ArchiveError

-- A ratio is counted in thousandths.
abbrev pub ratio_unit : ℕ
ratio_unit = 1000

pub record ArchiveLimits : Type 0 where
  pub maximum_members : ℕ
  pub maximum_expanded : ℕ
  pub maximum_ratio : ℕ

abbrev pub limit_checks : ArchiveLimits → List (Bool × ArchiveError)
limit_checks l =
    (l.maximum_members == 0 || l.maximum_expanded == 0, limits_not_positive)
    ∷ (ltb l.maximum_ratio ratio_unit, ratio_below_one)
    ∷ []

-- ArchiveLimits.__post_init__; an integer limit is not negative
unfoldable pub check_limits : ArchiveLimits → Answer ArchiveError (Unit {0})
check_limits l = raise_first (limit_checks l)

-- ARCHIVE_SUFFIXES
abbrev pub archive_suffixes : List String
archive_suffixes = ".7z" ∷ ".bz2" ∷ ".gz" ∷ ".rar" ∷ ".tar" ∷ ".tgz" ∷ ".zip" ∷ []

-- _MAX_MEMBER_NAME_BYTES
abbrev pub max_member_name_bytes : ℕ
max_member_name_bytes = 4096

-- `"\\" in name`, `"\x00" in name` or a character below 32
abbrev pub has_forbidden_character : String → Bool
has_forbidden_character String.[] = false
has_forbidden_character (String.◌∷◌ c s) =
    (code c == 92 || (code c == 0 || ltb (code c) 32)) || has_forbidden_character s

abbrev pub is_nil : List String → Bool
is_nil [] = true
is_nil (x ∷ xs) = false

abbrev pub name_checks : String → List (Bool × ArchiveError)
name_checks name =
    (
      is_empty_text name || (ltb max_member_name_bytes (len name) || has_forbidden_character name),
      invalid_name,
    )
    ∷ (
      is_absolute name || (elem ".." (path_parts name) || is_nil (path_parts name)),
      path_traversal,
    )
    ∷ []

-- `_validate_name`. The text of a path that is not absolute does not begin with "/", and with no
-- component ".." it does not begin with "../", so the second check of that is not met.
unfoldable pub validate_name : String → Answer ArchiveError String
validate_name name = do raise_first (name_checks name); give (join_path (path_parts name))

-- `_record_name`, with the portable names that were seen
unfoldable pub record_name : String → List String → Answer ArchiveError (List String)
record_name name seen = do
  raise_if (elem (lower name) seen) duplicate_path
  give (lower name ∷ seen)

abbrev pub begins_with : Bytes → Bytes → Bool
begins_with [] content = true
begins_with (b ∷ bs) [] = false
begins_with (b ∷ bs) (c ∷ cs) = (b == c) && begins_with bs cs

abbrev pub signatures : List Bytes
signatures =
    (80 ∷ 75 ∷ 3 ∷ 4 ∷ [])
    ∷ (80 ∷ 75 ∷ 5 ∷ 6 ∷ [])
    ∷ (80 ∷ 75 ∷ 7 ∷ 8 ∷ [])
    ∷ (31 ∷ 139 ∷ [])
    ∷ (66 ∷ 90 ∷ 104 ∷ [])
    ∷ (55 ∷ 122 ∷ 188 ∷ 175 ∷ 39 ∷ 28 ∷ [])
    ∷ (82 ∷ 97 ∷ 114 ∷ 33 ∷ 26 ∷ 7 ∷ [])
    ∷ []

-- b"ustar"
abbrev pub ustar : Bytes
ustar = 117 ∷ 115 ∷ 116 ∷ 97 ∷ 114 ∷ []

-- _has_archive_signature
unfoldable pub has_archive_signature : Bytes → Bool
has_archive_signature content =
    any (λ s. begins_with s content) signatures
    || (ltb 262 (length content) && begins_with ustar (drop 257 content))

-- The test of `_reject_nested`
unfoldable pub is_nested : String → Bytes → Bool
unfolding has_archive_signature
is_nested name content =
    elem (path_suffix (lower name)) archive_suffixes || has_archive_signature content

-- What the `zipfile` module knows of a member
pub record ZipInfo : Type 0 where
  pub filename : String
  pub external_attr : ℕ
  pub is_dir : Bool
  pub flag_bits : ℕ
  pub file_size : ℕ
  pub compress_size : ℕ
  pub body : Option Bytes

-- What the `tarfile` module knows of a member; `is_link` is for links of both kinds and devices.
pub record TarInfo : Type 0 where
  pub name : String
  pub is_link : Bool
  pub is_file : Bool
  pub is_sparse : Bool
  pub size : ℕ
  pub body : Option Bytes

-- stat.S_ISLNK(info.external_attr >> 16)
abbrev pub is_symlink : ZipInfo → Bool
is_symlink info = ((info.external_attr / 65536) / 4096) % 16 == 10

abbrev pub read_body : ArchiveError → Option Bytes → Answer ArchiveError Bytes
read_body e none = raise e
read_body e (some content) = give content

-- Checks of one member of a ZIP file that is no folder, before and after it is read
abbrev pub zip_checks : ArchiveLimits → ZipInfo → ℕ → List (Bool × ArchiveError)
zip_checks l info expanded =
    (info.flag_bits % 2 == 1, encrypted)
    ∷ (
      ltb (l.maximum_ratio * max 1 info.compress_size) (info.file_size * ratio_unit),
      ratio_exceeded,
    )
    ∷ (ltb l.maximum_expanded expanded, too_large)
    ∷ []

abbrev pub content_checks : String → ℕ → Bytes → List (Bool × ArchiveError)
content_checks name size content =
    (not (length content == size), size_mismatch) ∷ (is_nested name content, nested) ∷ []

-- How both loops begin with a member: its name, and the names seen with it
abbrev pub admit_member :
    String → List String → Bool → ArchiveError → Answer ArchiveError (String × List String)
admit_member raw_name seen is_link e = do
  name ← validate_name raw_name
  seen' ← record_name name seen
  raise_if is_link e
  give (name, seen')

-- How both loops end with a member of which they keep the content, before what comes later
abbrev pub keep_member :
    List (Bool × ArchiveError)
    → String
    → ℕ
    → Option Bytes
    → Answer ArchiveError (List Member)
    → Answer ArchiveError (List Member)
keep_member checks name size body later = do
  raise_first checks
  content ← read_body unreadable_member body
  raise_first (content_checks name size content)
  rest ← later
  give ((name, content) ∷ rest)

-- The `for` loop of `_extract_zip`, with the names seen and the bytes expanded so far
unfoldable pub zip_members :
    ArchiveLimits → List ZipInfo → List String → ℕ → Answer ArchiveError (List Member)
zip_members l [] seen expanded = give []
zip_members l (info ∷ infos) seen expanded = do
  (name, seen') ← admit_member info.filename seen (is_symlink info) symlink
  let expanded' = if info.is_dir then expanded else expanded + info.file_size
  let later = zip_members l infos seen' expanded'
  if info.is_dir
      then later
      else keep_member (zip_checks l info expanded') name info.file_size info.body later

-- `_extract_zip`, from the members that `infolist` gives
unfoldable pub extract_zip : ArchiveLimits → List ZipInfo → Answer ArchiveError (List Member)
unfolding zip_members
extract_zip l infos = do
  raise_if (ltb l.maximum_members (length infos)) too_many_members
  zip_members l infos [] 0

abbrev pub tar_checks : ArchiveLimits → ℕ → TarInfo → ℕ → List (Bool × ArchiveError)
tar_checks l body_size member expanded =
    (member.is_sparse, sparse)
    ∷ (ltb l.maximum_expanded expanded, too_large)
    ∷ (ltb (l.maximum_ratio * max 1 body_size) (expanded * ratio_unit), ratio_exceeded)
    ∷ []

-- The `for` loop of `_extract_tar`, for an archive of `body_size` bytes
unfoldable pub tar_members :
    ArchiveLimits → ℕ → List TarInfo → List String → ℕ → Answer ArchiveError (List Member)
tar_members l body_size [] seen expanded = give []
tar_members l body_size (member ∷ members) seen expanded = do
  (name, seen') ← admit_member member.name seen member.is_link link_or_device
  let expanded' = if member.is_file then expanded + member.size else expanded
  let later = tar_members l body_size members seen' expanded'
  if member.is_file
      then keep_member (tar_checks l body_size member expanded') name member.size member.body later
      else later

-- `_extract_tar`, from the members that `getmembers` gives
unfoldable pub extract_tar : ArchiveLimits → ℕ → List TarInfo → Answer ArchiveError (List Member)
unfolding tar_members
extract_tar l body_size members = do
  raise_if (ltb l.maximum_members (length members)) too_many_members
  tar_members l body_size members [] 0

-- An item of the worker's answer: not an object of the two fields, fields that are no texts, or a
-- name with the bytes that its base64 text stands for, if it stands for any.
pub data RawMember : Type 0 where
  bad_schema bad_types : RawMember
  encoded : String → Option Bytes → RawMember

-- The worker's answer: not an object of the one field, a field that is no list, or its items
pub data Response : Type 0 where
  no_members not_a_list : Response
  raw_members : List RawMember → Response

-- The `for` loop of `_validate_worker_members`
unfoldable pub worker_members :
    ArchiveLimits → List RawMember → List String → ℕ → Answer ArchiveError (List Member)
worker_members l [] seen expanded = give []
worker_members l (bad_schema ∷ items) seen expanded = raise invalid_member_schema
worker_members l (bad_types ∷ items) seen expanded = raise invalid_member_types
worker_members l (encoded raw_name body ∷ items) seen expanded = do
  name ← validate_name raw_name
  seen' ← record_name name seen
  content ← read_body invalid_base64 body
  let expanded' = expanded + length content
  raise_if (ltb l.maximum_expanded expanded') too_large
  raise_if (is_nested name content) nested
  rest ← worker_members l items seen' expanded'
  give ((name, content) ∷ rest)

unfoldable pub validate_worker_members :
    ArchiveLimits → Response → Answer ArchiveError (List Member)
unfolding worker_members
validate_worker_members l no_members = raise invalid_response
validate_worker_members l not_a_list = raise invalid_member_list
validate_worker_members l (raw_members items) = do
  raise_if (ltb l.maximum_members (length items)) invalid_member_list
  worker_members l items [] 0

-- What the libraries make of the bytes of an archive: a ZIP file, else a TAR file with the size of
-- its body, else what `tarfile` refuses.
pub data Opened : Type 0 where
  zip_file : List ZipInfo → Opened
  tar_file : List TarInfo → Opened
  unknown_file : Opened

-- `_extract_members`, of a body of `body_size` bytes
unfoldable pub extract_members : ArchiveLimits → ℕ → Opened → Answer ArchiveError (List Member)
unfolding check_limits extract_zip extract_tar
extract_members l body_size opened = do
  check_limits l
  raise_if (body_size == 0) empty_body
  elim opened [
    | zip_file infos ↦ extract_zip l infos
    | tar_file members ↦ extract_tar l body_size members
    | unknown_file ↦ raise not_readable
  ]
