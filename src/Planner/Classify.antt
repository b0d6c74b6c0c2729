-- ===== src/Planner/Classify.antt =====
-- src/fetech/planning.py: `classify_target`, and which capabilities a request asks for.
use fetech.Prelude.{
  String, ◌=s=◌, ◌&&◌, ◌||◌, not, Bool, true, false, Option, none, some, List, [], ◌∷◌,
  if◌then◌else◌, elem, any, all, keep,
}
use fetech.Models.Request.{FetchRequest}
use fetech.Planner.Result.{Result, ok, err, several_api_capabilities}
use fetech.Planner.Tables.{
  document_extensions, media_extensions, archive_extensions, api_extensions, document_capabilities,
  media_capabilities, cache_capabilities, api_capability_order, api_capabilities,
}

-- What the planner asks of URLs: `normalize_url` (`none` is its ValueError), `sanitize_url_for_request`,
-- the suffix of the lower-cased path, and `detect_named_api`.
pub record Urls : Type 0 where
  pub normalize : String → Option String
  pub sanitize : FetchRequest → String → String
  pub suffix : String → String
  pub named_api : String → Option String

pub data Family : Type 0 where
  cache document media archive api web : Family

-- requested & set(table)
abbrev pub meets : List String → List String → Bool
meets requested table = any (λ c. elem c table) requested

abbrev pub is_some {ℓ} : {A : Type ℓ} → Option A → Bool
is_some none = false
is_some (some a) = true

-- classify_target
unfoldable pub classify_target : Urls → String → List String → Family
classify_target u target requested =
    if meets requested cache_capabilities && all (λ c. elem c cache_capabilities) requested
    then cache
    else if meets requested document_capabilities
    then (if elem "zip_archive" requested then archive else document)
    else if meets requested media_capabilities
    then media
    else if meets requested api_capabilities || is_some (u.named_api target)
    then api
    else if elem (u.suffix target) document_extensions
        || meets requested ("document" ∷ "tables" ∷ "ocr" ∷ "slides" ∷ [])
    then document
    else if elem (u.suffix target) media_extensions
        || meets requested
            ("audio" ∷ "frames" ∷ "image" ∷ "subtitles" ∷ "transcript" ∷ "video" ∷ [])
    then media
    else if elem (u.suffix target) archive_extensions || elem "archive" requested
    then archive
    else if elem (u.suffix target) api_extensions || meets requested ("json" ∷ "xml" ∷ "feed" ∷ [])
    then api
    else web

-- The entries of a table that the request asks for, in the order of the table.
abbrev pub requested_of : List String → FetchRequest → List String
requested_of table r = keep (λ c. elem c r.output_requirements) table

abbrev pub first_or : String → List String → String
first_or default [] = default
first_or default (c ∷ cs) = c

-- _http_capability
unfoldable pub http_capability : FetchRequest → String
http_capability r =
    first_or "http_get"
      (requested_of ("http_head" ∷ "http_post" ∷ "browser_header_http" ∷ "range_request" ∷ []) r)

-- _requested_cache_capabilities
abbrev pub requested_cache_capabilities : FetchRequest → List String
requested_cache_capabilities = requested_of cache_capabilities

-- the dictionary of _document_capabilities and _document_capability
unfoldable pub document_capability : String → String
document_capability suffix =
    if suffix =s= ".md"
    then "markdown"
    else if suffix =s= ".markdown"
    then "markdown"
    else if suffix =s= ".json"
    then "json_file"
    else if suffix =s= ".xml"
    then "xml_file"
    else if suffix =s= ".csv"
    then "csv"
    else if suffix =s= ".docx"
    then "docx"
    else if suffix =s= ".epub"
    then "dataset_file"
    else if suffix =s= ".pdf"
    then "pdf"
    else if suffix =s= ".pptx"
    then "pptx"
    else if suffix =s= ".txt"
    then "txt"
    else if suffix =s= ".xls"
    then "dataset_file"
    else if suffix =s= ".xlsx"
    then "xlsx"
    else "dataset_file"

abbrev pub or_one : String → List String → List String
or_one default [] = default ∷ []
or_one default (c ∷ cs) = c ∷ cs

-- _document_capabilities
unfoldable pub document_capabilities_of : Urls → String → FetchRequest → List String
document_capabilities_of u target r =
    or_one (document_capability (u.suffix target))
      (keep (λ c. not (c =s= "zip_archive")) (requested_of document_capabilities r))

-- _media_capabilities
unfoldable pub media_capabilities_of : Urls → String → FetchRequest → List String
media_capabilities_of u target r =
    let suffix = u.suffix target in
    or_one
      (if elem suffix (".gif" ∷ ".jpeg" ∷ ".jpg" ∷ ".png" ∷ ".tif" ∷ ".tiff" ∷ ".webp" ∷ [])
        then "image_metadata"
        else if elem suffix (".aac" ∷ ".flac" ∷ ".m4a" ∷ ".mp3" ∷ ".wav" ∷ [])
        then "audio_metadata"
        else "video_metadata")
      (requested_of media_capabilities r)

abbrev pub api_default : Option String → String → String
api_default (some named) suffix = named
api_default none suffix = if suffix =s= ".xml" then "xml_endpoint" else "json_endpoint"

abbrev pub api_choice : String → List String → Result String
api_choice default [] = ok default
api_choice default (c ∷ []) = ok c
api_choice default (c ∷ d ∷ cs) = err several_api_capabilities

-- _api_capability
unfoldable pub api_capability : Urls → String → FetchRequest → Result String
api_capability u target r =
    api_choice (api_default (u.named_api target) (u.suffix target))
      (requested_of api_capability_order r)
