-- ===== src/Adapters/Examples.antt =====
-- src/fetech/adapters: concrete archives.
use fetech.Prelude.{ℕ, String, ◌≡◌, refl, true, false, none, some, List, [], ◌∷◌, length}
use fetech.Prelude.Text.{lower}
use fetech.Prelude.Path.{split_path, path_parts, is_absolute, join_path, path_suffix}
use fetech.Prelude.Answer.{raise, give}
use fetech.Adapters.Archive.{
  Member, ArchiveLimits, ZipInfo, check_limits, validate_name, record_name, is_nested,
  has_archive_signature, zip_members, extract_zip, Opened, zip_file, extract_members, encoded,
  Response, raw_members, worker_members, validate_worker_members, duplicate_path, path_traversal,
  nested,
}
use fetech.Adapters.Archive.Bounds.{IsBounded}
use fetech.Adapters.Archive.Safe.{extract_members-IsBounded, validate_worker_members-IsBounded}

abbrev limits : ArchiveLimits
limits = record { maximum_members = 3; maximum_expanded = 10; maximum_ratio = 2000 }

abbrev file : String → List ℕ → ZipInfo
file name content = record {
  filename = name;
  external_attr = 2175008768;
  is_dir = false;
  flag_bits = 0;
  file_size = length content;
  compress_size = 4;
  body = some content;
}

abbrev folder : ZipInfo
folder = record {
  filename = "docs/";
  external_attr = 1106051088;
  is_dir = true;
  flag_bits = 0;
  file_size = 0;
  compress_size = 0;
  body = none;
}

abbrev two_files : Opened
two_files = zip_file (folder ∷ file "docs/./a.txt" (1 ∷ 2 ∷ []) ∷ file "b" (3 ∷ []) ∷ [])

abbrev extracted : List Member
extracted = ("docs/a.txt", 1 ∷ 2 ∷ []) ∷ ("b", 3 ∷ []) ∷ []

extracts : extract_members limits 100 two_files ≡ give extracted
unfolding extract_members check_limits extract_zip zip_members validate_name record_name is_nested
    has_archive_signature lower split_path path_parts is_absolute join_path path_suffix
extracts = refl

extract_members-IsBounded_example : IsBounded 3 10 extracted
extract_members-IsBounded_example =
    extract_members-IsBounded limits 100 two_files extracted extracts

abbrev answer : Response
answer = raw_members (encoded "docs/./a.txt" (some (1 ∷ 2 ∷ [])) ∷ encoded "b" (some (3 ∷ [])) ∷ [])

believed : validate_worker_members limits answer ≡ give extracted
unfolding validate_worker_members worker_members validate_name record_name is_nested
    has_archive_signature lower split_path path_parts is_absolute join_path path_suffix
believed = refl

validate_worker_members-IsBounded_example : IsBounded 3 10 extracted
validate_worker_members-IsBounded_example =
    validate_worker_members-IsBounded limits answer extracted believed

climbs : validate_name "docs/../../etc" ≡ raise path_traversal
unfolding validate_name split_path path_parts is_absolute
climbs = refl

same_by_case :
    extract_zip limits (file "A" (1 ∷ []) ∷ file "./a" (2 ∷ []) ∷ []) ≡ raise duplicate_path
unfolding extract_zip zip_members validate_name record_name is_nested has_archive_signature lower
    split_path path_parts is_absolute join_path path_suffix
same_by_case = refl

archive_inside : extract_zip limits (file "x.ZIP" (1 ∷ []) ∷ []) ≡ raise nested
unfolding extract_zip zip_members validate_name record_name is_nested has_archive_signature lower
    split_path path_parts is_absolute join_path path_suffix
archive_inside = refl
