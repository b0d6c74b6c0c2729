-- ===== src/Executor/Node/Events.antt =====
-- src/fetech/executor.py, `_execute_node`: what the node appends to the event ledger.
use mathlib.Core.List.{append_assoc, append-nil}
use fetech.Prelude.{
  ℕ, ◌≡◌, refl, sym, ap, ◌∙◌, inl, inr, Option, none, some, List, [], ◌∷◌, ◌++◌, String, drop, All,
  All-append, Bool-cases,
}
use fetech.Prelude.Dict.{Dict}
use fetech.Models.Request.{FetchRequest}
use fetech.Models.Plan.{PlanNode}
use fetech.Models.Record.{Detail, ProvenanceEvent}
use fetech.Executor.Context.{ExecutionContext, PendingEvent}
use fetech.Executor.Failure.{Signal}
use fetech.Executor.Retry.{Operation}
use fetech.Executor.Ledger.{Ledger, emit, emit_all, flush_pending_events}
use fetech.Executor.Node.{
  Engine, payload_of, is_returned, emit_handled, try_node, finish_node, execute_node,
}

abbrev pub ChildOf : ℕ → ProvenanceEvent → Type 0
ChildOf parent e = e.parent_event_ids ≡ parent ∷ []

-- `h` continues `g` by events that all have the one parent.
pub record Continues (parent : ℕ) (g h : Ledger) : Type 0 where
  pub added : List ProvenanceEvent
  pub appended : h.events ≡ g.events ++ added
  pub children : All (ChildOf parent) added

module _ (parent : ℕ) where
  Continues-refl : (g : Ledger) → Continues parent g g
  Continues-refl g = record { added = []; appended = sym (append-nil g.events); children = tt }

  Continues-trans :
      (g h k : Ledger) → Continues parent g h → Continues parent h k → Continues parent g k
  Continues-trans g h k a b = record {
    added = a.added ++ b.added;
    appended =
        b.appended
        ∙ (ap (λ (l : List ProvenanceEvent). l ++ b.added) a.appended
            ∙ append_assoc g.events a.added b.added);
    children = All-append (ChildOf parent) a.added b.added a.children b.children;
  }

  emit-Continues :
      (event_type actor : String) (payload : Dict Detail) (g : Ledger)
      → Continues parent g (emit event_type actor payload (parent ∷ []) g)
  unfolding emit
  emit-Continues event_type actor payload g = record {
    added = _ ∷ [];
    appended = refl;
    children = (refl, tt);
  }

  emit_all-Continues :
      (es : List PendingEvent) (g : Ledger) → Continues parent g (emit_all es parent g)
  emit_all-Continues [] g = Continues-refl g
  emit_all-Continues (e ∷ es) g =
      let next = emit e.event_type e.actor e.payload (parent ∷ []) g in
      Continues-trans g next (emit_all es parent next)
        (emit-Continues e.event_type e.actor e.payload g) (emit_all-Continues es next)

  flush-Continues :
      (start : ℕ) (c : ExecutionContext) (g : Ledger)
      → Continues parent g (flush_pending_events start parent c g)
  unfolding flush_pending_events
  flush-Continues start c g = emit_all-Continues (drop start c.pending_events) g

  handled-Continues :
      (node : PlanNode) (o : Option (String × Dict Detail)) (g : Ledger)
      → Continues parent g (emit_handled node parent o g)
  handled-Continues node none g = Continues-refl g
  handled-Continues node (some (event_type, details)) g = emit-Continues event_type node.adapter _ g

finish_node-Continues :
    (engine : Engine) (node : PlanNode) (before : ExecutionContext) (event : ℕ) (g : Ledger)
    (signal : Signal) (c : ExecutionContext)
    → Continues event g (finish_node engine node before event g (signal, c)).2
unfolding finish_node
finish_node-Continues engine node before event g signal c = elim (Bool-cases (is_returned signal)) [
  | inl e ↦ rw e (
      Continues-trans event g (flush_pending_events _ event c g) _ (flush-Continues event _ c g)
        (emit-Continues event "attempt.finished" node.adapter _ (flush_pending_events _ event c g)))
  | inr e ↦ rw e (
      Continues-trans event g (emit_handled node event _ g) _ (handled-Continues event node _ g)
        (flush-Continues event _ _ (emit_handled node event _ g)))
]

-- The event that `_execute_node` emits first.
abbrev pub started : PlanNode → ℕ → ℕ → ProvenanceEvent
started node id root = record {
  event_id = id;
  event_type = "attempt.started";
  actor = node.adapter;
  payload = payload_of node;
  parent_event_ids = root ∷ [];
}

-- Where the adapter is registered, `_execute_node` keeps the ledger's events and appends a start event
-- under the root of the run and then only children of that start event, however it ends.
pub execute_node-provenance :
    (engine : Engine) (request : FetchRequest) (node : PlanNode) (root elapsed : ℕ)
    (c : ExecutionContext) (g : Ledger) (adapter : PlanNode → Operation)
    → engine.adapter node.adapter ≡ some adapter
    → (rest : List ProvenanceEvent) × ((execute_node engine request node root elapsed c g).2.events
        ≡ g.events ++ started node g.next_id root ∷ rest)
      × All (ChildOf g.next_id) rest
unfolding execute_node emit
execute_node-provenance engine request node root elapsed c g adapter found =
    let tried = try_node engine request node elapsed (adapter node) c in
    let h = emit "attempt.started" node.adapter (payload_of node) (root ∷ []) g in
    let step = finish_node-Continues engine node c g.next_id h tried.0 tried.1 in
    (
      step.added,
      rw (found, execute_node)
          (step.appended ∙ append_assoc g.events (started node g.next_id root ∷ []) step.added),
      step.children,
    )
