-- ===== src/Models/Request.antt =====
-- src/fetech/models.py: `ResourceBudget`, `FetchRequest` and its validator.
use fetech.Prelude.{ℕ, String, ◌=s=◌, Option, none, some, List, if◌then◌else◌}
use fetech.Prelude.Dict.{Dict}

-- Seconds, ratios and money are counted in a small unit, so that they are numbers too.
pub record ResourceBudget : Type 0 where
  pub deadline_seconds : ℕ
  pub attempts : ℕ
  pub redirects : ℕ
  pub bytes : ℕ
  pub decompressed_bytes : ℕ
  pub crawl_pages : ℕ
  pub crawl_depth : ℕ
  pub browser_seconds : ℕ
  pub archive_members : ℕ
  pub archive_ratio : ℕ
  pub model_tokens : ℕ
  pub monetary_ceiling : ℕ

-- getattr(budget, name, None)
unfoldable pub budget_field : String → ResourceBudget → Option ℕ
budget_field name b =
    if name =s= "deadline_seconds"
    then some b.deadline_seconds
    else if name =s= "attempts"
    then some b.attempts
    else if name =s= "redirects"
    then some b.redirects
    else if name =s= "bytes"
    then some b.bytes
    else if name =s= "decompressed_bytes"
    then some b.decompressed_bytes
    else if name =s= "crawl_pages"
    then some b.crawl_pages
    else if name =s= "crawl_depth"
    then some b.crawl_depth
    else if name =s= "browser_seconds"
    then some b.browser_seconds
    else if name =s= "archive_members"
    then some b.archive_members
    else if name =s= "archive_ratio"
    then some b.archive_ratio
    else if name =s= "model_tokens"
    then some b.model_tokens
    else if name =s= "monetary_ceiling"
    then some b.monetary_ceiling
    else none

-- The sets of capabilities are lists whose order and repetitions nothing reads.
pub record FetchRequest : Type 0 where
  pub target : String
  pub intent : String
  pub output_requirements : List String
  pub authentication_ref : Option String
  pub privacy_profile : String
  pub policy_profile : String
  pub freshness_seconds : Option ℕ
  pub language : Option String
  pub region : Option String
  pub allow_capabilities : List String
  pub deny_capabilities : List String
  pub approved_capabilities : List String
  pub budget : ResourceBudget
  pub metadata : Dict String
