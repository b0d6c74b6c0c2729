-- ===== src/Planner/Tables.antt =====
-- src/fetech/planning.py: the constant tables.
use fetech.Prelude.{String, List, [], ◌∷◌}

abbrev pub document_extensions : List String
document_extensions =
    ".csv" ∷ ".docx" ∷ ".epub" ∷ ".md" ∷ ".markdown" ∷ ".pdf" ∷ ".pptx" ∷ ".txt" ∷ ".xls" ∷ ".xlsx"
    ∷ []

abbrev pub media_extensions : List String
media_extensions =
    ".aac" ∷ ".flac" ∷ ".gif" ∷ ".jpeg" ∷ ".jpg" ∷ ".m4a" ∷ ".mp3" ∷ ".mp4" ∷ ".png" ∷ ".tif"
    ∷ ".tiff" ∷ ".wav" ∷ ".webm" ∷ ".webp" ∷ []

abbrev pub archive_extensions : List String
archive_extensions = ".7z" ∷ ".bz2" ∷ ".gz" ∷ ".rar" ∷ ".tar" ∷ ".tgz" ∷ ".zip" ∷ []

abbrev pub api_extensions : List String
api_extensions = ".json" ∷ ".xml" ∷ []

abbrev pub document_capabilities : List String
document_capabilities =
    "pdf" ∷ "scanned_pdf" ∷ "docx" ∷ "pptx" ∷ "xlsx" ∷ "csv" ∷ "txt" ∷ "markdown" ∷ "json_file"
    ∷ "xml_file" ∷ "zip_archive" ∷ "github_raw" ∷ "git_lfs" ∷ "dataset_file" ∷ []

abbrev pub media_capabilities : List String
media_capabilities =
    "image" ∷ "image_metadata" ∷ "image_ocr" ∷ "screenshot_to_text" ∷ "video_metadata"
    ∷ "audio_metadata" ∷ "transcript" ∷ "youtube_metadata" ∷ "podcast_feed" ∷ "thumbnail"
    ∷ "exif_metadata" ∷ []

abbrev pub cache_capabilities : List String
cache_capabilities =
    "search_snippet_cache" ∷ "search_cache" ∷ "search_engine_cache_adapter"
    ∷ "alternate_search_cache_adapter" ∷ "web_archive" ∷ "internet_archive_snapshot"
    ∷ "local_snapshot" ∷ "previous_successful_snapshot" ∷ "cdn_copy" ∷ "browser_cache"
    ∷ "rag_document_cache" ∷ []

abbrev pub pre_acquisition_cache_capabilities : List String
pre_acquisition_cache_capabilities =
    "previous_successful_snapshot" ∷ "search_engine_cache_adapter"
    ∷ "alternate_search_cache_adapter" ∷ "web_archive" ∷ "internet_archive_snapshot" ∷ "cdn_copy"
    ∷ []

abbrev pub post_acquisition_cache_capabilities : List String
post_acquisition_cache_capabilities =
    "search_snippet_cache" ∷ "search_cache" ∷ "local_snapshot" ∷ "browser_cache"
    ∷ "rag_document_cache" ∷ []

abbrev pub reader_capabilities : List String
reader_capabilities =
    "raw_html" ∷ "clean_text" ∷ "main_article" ∷ "boilerplate_removal" ∷ "mozilla_readability"
    ∷ "trafilatura" ∷ "newspaper_style" ∷ "mercury_style" ∷ "jina_reader" ∷ "browser_reader_mode"
    ∷ []

abbrev pub browser_capabilities : List String
browser_capabilities =
    "playwright" ∷ "puppeteer" ∷ "selenium" ∷ "cdp" ∷ "headless_dom" ∷ "visible_text" ∷ "screenshot"
    ∷ "wait_for_selector" ∷ "wait_for_network_idle" ∷ "scroll_to_load" ∷ "click_expand"
    ∷ "cookie_banner_handling" ∷ "lazy_loading" ∷ "javascript_rendering" ∷ "spa_route_handling" ∷ []

abbrev pub browser_engines : List String
browser_engines = "playwright" ∷ "puppeteer" ∷ "selenium" ∷ "cdp" ∷ []

abbrev pub api_capability_order : List String
api_capability_order =
    "rest" ∷ "graphql" ∷ "json_endpoint" ∷ "xml_endpoint" ∷ "rss" ∷ "atom" ∷ "sitemap_xml"
    ∷ "openapi_discovery" ∷ "github_api" ∷ "semantic_scholar_api" ∷ "arxiv_api" ∷ "openreview_api"
    ∷ "crossref_openalex_api" ∷ []

abbrev pub auth_session_capabilities : List String
auth_session_capabilities = "login_session" ∷ "oauth" ∷ "sso" ∷ "private_workspace" ∷ []

abbrev pub http_embedded_auth_capabilities : List String
http_embedded_auth_capabilities =
    "api_key" ∷ "bearer_token" ∷ "connector_auth" ∷ "cookie_session" ∷ []

-- src/fetech/adapters/api.py, `API_CAPABILITIES`
abbrev pub api_capabilities : List String
api_capabilities = api_capability_order

-- BROWSER_CAPABILITIES without BROWSER_ENGINES
abbrev pub browser_embedded_capabilities : List String
browser_embedded_capabilities =
    "headless_dom" ∷ "visible_text" ∷ "screenshot" ∷ "wait_for_selector" ∷ "wait_for_network_idle"
    ∷ "scroll_to_load" ∷ "click_expand" ∷ "cookie_banner_handling" ∷ "lazy_loading"
    ∷ "javascript_rendering" ∷ "spa_route_handling" ∷ []
