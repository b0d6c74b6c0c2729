-- ===== src/Planner/Nodes.antt =====
-- src/fetech/planning.py: the nodes that `DeterministicPlanner.plan` makes.
use Prim.Native.Char.{Char, code}
use Prim.Native.String.{◌++◌ as append}
use fetech.Prelude.{
  ℕ, suc, ◌*◌, ◌==◌, String, ◌=s=◌, Bool, true, false, Option, none, some, List, [], ◌∷◌,
  if◌then◌else◌,
}
use fetech.Prelude.Dict.{Dict}
use fetech.Models.Request.{FetchRequest}
use fetech.Models.Plan.{PlanNode, RetryRule}
use fetech.Executor.Failure.Text.{decimal}

-- `c.replace('_', '-')`
abbrev pub dashed : String → String
dashed String.[] = String.[]
dashed (String.◌∷◌ c s) = let d : Char = if code c == 95 then "-" else c in String.◌∷◌ d (dashed s)

-- One second in the unit of the budgets, and the default rule of `RetryRule`.
abbrev pub second : ℕ
second = 1000

abbrev pub default_retry : RetryRule
default_retry = record {
  maximum = 1;
  backoff_seconds = 250;
  retryable_codes = "timeout" ∷ "connection" ∷ "429" ∷ "5xx" ∷ [];
}

abbrev pub retry_at_most : ℕ → RetryRule
retry_at_most n = record default_retry { maximum = n }

-- A node with the defaults of `PlanNode`.
abbrev pub plain : String → String → String → List String → PlanNode
plain id capability adapter dependencies = record {
  id = id;
  capability_id = capability;
  adapter = adapter;
  dependencies = dependencies;
  parallel_group = none;
  retry = default_retry;
  fallback_for = none;
  stop_on_acceptance = false;
  requires_approval = false;
  reserved_budget = [];
  parameters = [];
}

-- f"{prefix}{index}-{capability.replace('_', '-')}"
abbrev pub indexed : String → ℕ → String → String
indexed prefix i c = append prefix (append (decimal i) (append "-" (dashed c)))

abbrev pub head_nodes : List PlanNode
head_nodes =
    plain "normalize" "url_normalisation" "core" []
    ∷ record (plain "policy" "url_validation" "core" ("normalize" ∷ [])) {
      reserved_budget = ("deadline_seconds", 2 * second) ∷ [];
    }
    ∷ []

abbrev pub session_node : String → PlanNode
session_node c = record (plain (append "auth-" (dashed c)) c "auth" ("policy" ∷ [])) {
  retry = retry_at_most 0;
}

abbrev pub pre_parameters : String → Dict String
pre_parameters c =
    if c =s= "previous_successful_snapshot"
    then ("cache_operation", "lookup")
      ∷ ("representation", "raw")
      ∷ ("parser_version", "httpx/0.28")
      ∷ []
    else []

abbrev pub pre_cache_node : FetchRequest → String → ℕ → Option String → String → PlanNode
pre_cache_node r dependency i previous c =
    record (plain (indexed "cache-pre-" i c) c "cache" (dependency ∷ [])) {
      fallback_for = previous;
      stop_on_acceptance = true;
      reserved_budget = ("bytes", r.budget.bytes) ∷ [];
      parameters = pre_parameters c;
    }

-- The `for` loop over the cache strategies before the acquisition; each is a fallback for the last.
abbrev pub pre_cache_nodes : FetchRequest → String → ℕ → Option String → List String → List PlanNode
pre_cache_nodes r dependency i previous [] = []
pre_cache_nodes r dependency i previous (c ∷ cs) =
    pre_cache_node r dependency i previous c
    ∷ pre_cache_nodes r dependency (suc i) (some (indexed "cache-pre-" i c)) cs

abbrev pub http_node : FetchRequest → String → String → Option String → Bool → PlanNode
http_node r capability dependency fallback stops =
    record (plain "http" capability "http" (dependency ∷ [])) {
      fallback_for = fallback;
      retry = retry_at_most (if capability =s= "http_post" then 0 else 2);
      stop_on_acceptance = stops;
      requires_approval = capability =s= "http_post";
      reserved_budget = ("bytes", r.budget.bytes) ∷ [];
    }

abbrev pub csrf_node : String → PlanNode
csrf_node dependency = record (plain "auth-csrf-token" "csrf_token" "auth" (dependency ∷ [])) {
  retry = retry_at_most 0;
}

abbrev pub form_node : String → PlanNode
form_node dependency = record (plain "auth-form-submit" "form_submit" "auth" (dependency ∷ [])) {
  retry = retry_at_most 0;
  requires_approval = true;
}

abbrev pub crawl_node : FetchRequest → String → PlanNode
crawl_node r dependency =
    record (plain "crawl" "depth_limited_crawl" "discovery" (dependency ∷ [])) {
      stop_on_acceptance = true;
      reserved_budget =
          ("attempts", r.budget.attempts)
          ∷ ("crawl_pages", r.budget.crawl_pages)
          ∷ ("crawl_depth", r.budget.crawl_depth)
          ∷ [];
    }

abbrev pub alternatives_node : String → PlanNode
alternatives_node dependency =
    plain "alternatives" "candidate_url_expansion" "variants" (dependency ∷ [])

abbrev pub reader_node : String → ℕ → Option String → String → PlanNode
reader_node dependency i previous c =
    record (plain (indexed "reader-" i c) c "reader" (dependency ∷ [])) {
      parallel_group = some "static-readers";
      fallback_for = previous;
      stop_on_acceptance = true;
    }

abbrev pub reader_nodes_from : String → ℕ → Option String → List String → List PlanNode
reader_nodes_from dependency i previous [] = []
reader_nodes_from dependency i previous (c ∷ cs) =
    reader_node dependency i previous c
    ∷ reader_nodes_from dependency (suc i) (some (indexed "reader-" i c)) cs

abbrev pub browser_node : FetchRequest → String → String → Bool → PlanNode
browser_node r reader engine wanted = record (plain "browser" engine "browser" (reader ∷ [])) {
  fallback_for = if wanted then none else some reader;
  stop_on_acceptance = true;
  reserved_budget = ("browser_seconds", r.budget.browser_seconds) ∷ [];
}

abbrev pub all_bytes : FetchRequest → Dict ℕ
all_bytes r = ("bytes", r.budget.bytes) ∷ ("decompressed_bytes", r.budget.decompressed_bytes) ∷ []

abbrev pub archive_bytes : FetchRequest → Dict ℕ
archive_bytes r =
    ("bytes", r.budget.bytes)
    ∷ ("decompressed_bytes", r.budget.decompressed_bytes)
    ∷ ("archive_members", r.budget.archive_members)
    ∷ ("archive_ratio", r.budget.archive_ratio)
    ∷ []

abbrev pub document_nodes : FetchRequest → String → ℕ → List String → List PlanNode
document_nodes r dependency i [] = []
document_nodes r dependency i (c ∷ cs) =
    record (plain (indexed "document-" i c) c "documents" (dependency ∷ [])) {
      parallel_group = some "document-extractors";
      stop_on_acceptance = true;
      reserved_budget = archive_bytes r;
    }
    ∷ document_nodes r dependency (suc i) cs

abbrev pub media_nodes : FetchRequest → String → ℕ → List String → List PlanNode
media_nodes r dependency i [] = []
media_nodes r dependency i (c ∷ cs) =
    record (plain (indexed "media-" i c) c "media" (dependency ∷ [])) {
      parallel_group = some "media-extractors";
      stop_on_acceptance = true;
      reserved_budget = all_bytes r;
    }
    ∷ media_nodes r dependency (suc i) cs

abbrev pub archive_node : FetchRequest → String → PlanNode
archive_node r dependency = record (plain "archive" "zip_archive" "archive" (dependency ∷ [])) {
  stop_on_acceptance = true;
  reserved_budget = archive_bytes r;
}

abbrev pub structured_node : String → String → PlanNode
structured_node capability dependency =
    record (plain "structured" capability "api" (dependency ∷ [])) { stop_on_acceptance = true }

abbrev pub rag_producer : FetchRequest → String → PlanNode
rag_producer r dependency =
    record (plain "cache-producer-rag-document" "clean_text" "reader" (dependency ∷ [])) {
      reserved_budget = ("decompressed_bytes", r.budget.decompressed_bytes) ∷ [];
    }

abbrev pub browser_producer : FetchRequest → String → PlanNode
browser_producer r dependency =
    record (plain "cache-producer-browser-render" "playwright" "browser" (dependency ∷ [])) {
      reserved_budget =
          ("browser_seconds", r.budget.browser_seconds)
          ∷ ("decompressed_bytes", r.budget.decompressed_bytes)
          ∷ [];
    }

abbrev pub post_cache_node : FetchRequest → String → ℕ → String → PlanNode
post_cache_node r dependency i c =
    record (plain (indexed "cache-post-" i c) c "cache" (dependency ∷ [])) {
      parallel_group = some "cache-strategies";
      reserved_budget = ("bytes", r.budget.bytes) ∷ [];
    }
