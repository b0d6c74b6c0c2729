-- ===== src/Planner/Stages.antt =====
-- src/fetech/planning.py: the parts of `DeterministicPlanner.plan` that choose nodes, in the order
-- of the code. `dependency` and `acquired` are the ids that the code keeps in variables.
use fetech.Prelude.{
  ℕ, suc, String, ◌=s=◌, ◌&&◌, ◌||◌, not, Bool, true, false, Option, none, some, List, [], ◌∷◌,
  ◌++◌, if◌then◌else◌, elem, keep, last?,
}
use fetech.Prelude.Dict.{Dict, lookup}
use fetech.Models.Request.{FetchRequest}
use fetech.Models.Plan.{PlanNode}
use fetech.Planner.Result.{
  Result, ok, err, require, ◌>>=◌, ◌>>◌, several_sessions, rag_without_clean_text,
  browser_cache_of_bytes, browser_cache_without_playwright,
}
use fetech.Planner.Registry.{Registry, get, resolve_id}
use fetech.Planner.Tables
use fetech.Planner.Classify.{
  Urls, Family, cache, document, media, archive, api, web, classify_target, meets, requested_of,
  first_or, document_capabilities_of, media_capabilities_of, api_capability, is_some,
}
use fetech.Planner.Nodes

abbrev pub exempt_capabilities : List String
exempt_capabilities =
    "url_normalisation" ∷ "url_validation" ∷ "http_get" ∷ "http_head" ∷ "http_post"
    ∷ "browser_header_http" ∷ "range_request" ∷ []

abbrev pub is_empty {ℓ} : {A : Type ℓ} → List A → Bool
is_empty [] = true
is_empty (x ∷ xs) = false

abbrev pub permits : FetchRequest → String → Bool
permits r c =
    if elem c r.deny_capabilities
    then false
    else if not (is_empty r.allow_capabilities) && not (elem c r.allow_capabilities)
    then elem c exempt_capabilities
    else true

-- _permitted
unfoldable pub permitted : Registry → FetchRequest → String → Result Bool
permitted g r c = do canonical ← resolve_id g c; ok (permits r canonical)

-- The `for` of a comprehension whose filter is `_permitted`, on what the nodes or names ask for.
unfoldable pub keep_permitted {ℓ} :
    {A : Type ℓ} → Registry → FetchRequest → (A → String) → List A → Result (List A)
keep_permitted g r name [] = ok []
keep_permitted g r name (x ∷ xs) = do
  b ← permitted g r (name x)
  rest ← keep_permitted g r name xs
  ok (if b then x ∷ rest else rest)

abbrev pub session_of : List String → Result (List PlanNode × String)
session_of [] = ok ([], "policy")
session_of (c ∷ []) = ok (Nodes.session_node c ∷ [], (Nodes.session_node c).id)
session_of (c ∷ d ∷ cs) = err several_sessions

-- The session that is asked for, and the id that `http` waits for.
unfoldable pub session_stage : FetchRequest → Result (List PlanNode × String)
session_stage r = session_of (requested_of Tables.auth_session_capabilities r)

-- requested_pre_cache, with the engine's cache where a search cache is asked for without one
unfoldable pub requested_pre_cache : List String → List String
requested_pre_cache requested =
    if meets requested ("search_snippet_cache" ∷ "search_cache" ∷ [])
      && not
          (meets requested ("search_engine_cache_adapter" ∷ "alternate_search_cache_adapter" ∷ []))
    then "search_engine_cache_adapter" ∷ requested
    else requested

abbrev pub last_id : String → List PlanNode → String
last_id default nodes = elim (last? nodes) [ some n ↦ n.id | none ↦ default ]

-- previous_cache_node
abbrev pub last_id? : List PlanNode → Option String
last_id? nodes = elim (last? nodes) [ some n ↦ some n.id | none ↦ none ]

-- pre_cache_nodes: capability to id
abbrev pub ids_by_capability : List PlanNode → Dict String
ids_by_capability [] = []
ids_by_capability (n ∷ ns) = (n.capability_id, n.id) ∷ ids_by_capability ns

abbrev pub is_cache : Family → Bool
is_cache cache = true
is_cache _ = false

abbrev pub is_bytes : Family → Bool
is_bytes document = true
is_bytes media = true
is_bytes archive = true
is_bytes _ = false

abbrev pub is_document : Family → Bool
is_document document = true
is_document _ = false

-- The fallback and the stop of the `http` node
unfoldable pub http_stage :
    FetchRequest → Family → String → List String → String → Option String → PlanNode
http_stage r family capability requested dependency previous =
    Nodes.http_node r capability dependency
      (if is_cache family && not (meets requested ("browser_cache" ∷ "rag_document_cache" ∷ []))
        then previous
        else none)
      (is_bytes family || is_api family)
  where
    is_api : Family → Bool
    is_api api = true
    is_api _ = false

-- csrf_token and form_submit; each waits for what is acquired before it
unfoldable pub form_stage : FetchRequest → List PlanNode
form_stage r =
    let csrf : List PlanNode =
      if elem "csrf_token" r.output_requirements then Nodes.csrf_node "http" ∷ [] else [] in
    if elem "form_submit" r.output_requirements
    then csrf ++ Nodes.form_node (last_id "http" csrf) ∷ []
    else csrf

abbrev pub selected_readers : List String → List String
selected_readers [] = "clean_text" ∷ "main_article" ∷ []
selected_readers (c ∷ cs) = c ∷ cs

-- _reader_nodes
unfoldable pub reader_nodes : FetchRequest → String → List PlanNode
reader_nodes r dependency =
    Nodes.reader_nodes_from dependency 0 none
      (selected_readers (requested_of Tables.reader_capabilities r))

unfoldable pub browser_stage : FetchRequest → String → PlanNode
browser_stage r reader =
    let requested : List String = requested_of Tables.browser_capabilities r in
    Nodes.browser_node r reader
      (first_or "playwright" (keep (λ c. elem c requested) Tables.browser_engines))
      (not (is_empty requested))

unfoldable pub web_stage : Registry → FetchRequest → String → Result (List PlanNode)
unfolding reader_nodes browser_stage
web_stage g r acquired = do
  let alternatives : List PlanNode =
      if is_some r.authentication_ref then [] else Nodes.alternatives_node acquired ∷ []
  let readers : List PlanNode = reader_nodes r (last_id acquired alternatives)
  entry ← get g "playwright"
  ok (
      alternatives
      ++ (readers
          ++ (if entry.implementation_available
              then browser_stage r (last_id acquired readers) ∷ []
              else [])))

unfoldable pub nodes_by_family :
    Registry → Urls → FetchRequest → String → String → Family → Result (List PlanNode)
unfolding web_stage
nodes_by_family g u r capability acquired web =
    if capability =s= "http_head" then ok [] else web_stage g r acquired
nodes_by_family g u r capability acquired document =
    ok (Nodes.document_nodes r acquired 0 (document_capabilities_of u r.target r))
nodes_by_family g u r capability acquired media =
    ok (Nodes.media_nodes r acquired 0 (media_capabilities_of u r.target r))
nodes_by_family g u r capability acquired archive = ok (Nodes.archive_node r acquired ∷ [])
nodes_by_family g u r capability acquired api = do
  c ← api_capability u r.target r
  ok (Nodes.structured_node c acquired ∷ [])
nodes_by_family g u r capability acquired cache = ok []

-- The nodes of the request's family. `terminal_dependency` is the last of them, or what was
-- acquired if there is none.
unfoldable pub family_stage :
    Registry → Urls → FetchRequest → Family → String → String → Result (List PlanNode)
unfolding nodes_by_family
family_stage g u r family capability acquired =
    if r.intent =s= "crawl"
    then ok (Nodes.crawl_node r acquired ∷ [])
    else nodes_by_family g u r capability acquired family

-- next(node for node in reversed(nodes) if p(node)): the id of the last such node
unfoldable pub last_such : (PlanNode → Bool) → List PlanNode → Option String
last_such p nodes = last_id? (keep p nodes)

abbrev pub is_clean_text_reader : PlanNode → Bool
is_clean_text_reader n = (n.capability_id =s= "clean_text") && (n.adapter =s= "reader")

abbrev pub is_browser_engine : PlanNode → Bool
is_browser_engine n = (n.adapter =s= "browser") && elem n.capability_id Tables.browser_engines

abbrev pub producer_or : String → Option String → PlanNode → List PlanNode × Dict String
producer_or c (some id) n = ([], (c, id) ∷ [])
producer_or c none n = (n ∷ [], (c, n.id) ∷ [])

-- The producer that rag_document_cache reads: new nodes, and its id.
unfoldable pub rag_stage :
    Registry
    → FetchRequest
    → List PlanNode
    → Family
    → String
    → String
    → Result (List PlanNode × Dict String)
rag_stage g r nodes family acquired terminal =
    if elem "rag_document_cache" r.output_requirements
    then (do
      b ← permitted g r "clean_text"
      require b rag_without_clean_text
      ok (
          producer_or "rag_document_cache" (last_such is_clean_text_reader nodes)
            (Nodes.rag_producer r (if is_document family then terminal else acquired))))
    else ok ([], [])

-- `playwright` is asked of the policy only if no browser node is there.
abbrev pub browser_allowed : Registry → FetchRequest → Option String → Result (Unit {0})
browser_allowed g r (some id) = ok tt
browser_allowed g r none = do
  b ← permitted g r "playwright"
  require b browser_cache_without_playwright

-- The producer that browser_cache reads.
unfoldable pub browser_cache_stage :
    Registry
    → Urls
    → FetchRequest
    → List PlanNode
    → Family
    → String
    → Result (List PlanNode × Dict String)
browser_cache_stage g u r nodes family acquired =
    if elem "browser_cache" r.output_requirements
    then (do
      require (not (is_bytes family || is_bytes (classify_target u r.target [])))
          browser_cache_of_bytes
      browser_allowed g r (last_such is_browser_engine nodes)
      ok (
          producer_or "browser_cache" (last_such is_browser_engine nodes)
            (Nodes.browser_producer r acquired)))
    else ok ([], [])

-- What a cache strategy after the acquisition waits for.
unfoldable pub post_dependency : Dict String → Dict String → String → String → String
post_dependency producers pre terminal c =
    let produced : String = elim (lookup c producers) [ some id ↦ id | none ↦ terminal ] in
    if elem c ("search_snippet_cache" ∷ "search_cache" ∷ [])
    then elim (lookup "search_engine_cache_adapter" pre) [
      | some id ↦ id
      | none ↦ elim (lookup "alternate_search_cache_adapter" pre) [ some id ↦ id | none ↦ produced ]
    ]
    else produced

unfoldable pub post_stage :
    FetchRequest → Dict String → Dict String → String → ℕ → List String → List PlanNode
post_stage r producers pre terminal i [] = []
post_stage r producers pre terminal i (c ∷ cs) =
    Nodes.post_cache_node r (post_dependency producers pre terminal c) i c
    ∷ post_stage r producers pre terminal (suc i) cs
