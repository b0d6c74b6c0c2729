-- ===== src/Executor/Ledger.antt =====
-- src/fetech/executor.py, `_emit` and `_flush_pending_events`, over the append-only event ledger.
use fetech.Prelude.{ℕ, suc, String, List, [], ◌∷◌, ◌++◌, drop}
use fetech.Prelude.Dict.{Dict}
use fetech.Models.Record.{Detail, ProvenanceEvent}
use fetech.Executor.Context.{PendingEvent, ExecutionContext}

-- The events of the run in order. A new event gets a fresh identifier (`uuid4` in the source).
pub record Ledger : Type 0 where
  pub events : List ProvenanceEvent
  pub next_id : ℕ

-- _emit
unfoldable pub emit : String → String → Dict Detail → List ℕ → Ledger → Ledger
emit event_type actor payload parents g = record {
  events =
      g.events
      ++ record {
        event_id = g.next_id;
        event_type = event_type;
        actor = actor;
        payload = payload;
        parent_event_ids = parents;
      }
        ∷ [];
  next_id = suc g.next_id;
}

abbrev pub emit_all : List PendingEvent → ℕ → Ledger → Ledger
emit_all [] parent g = g
emit_all (e ∷ es) parent g =
    emit_all es parent (emit e.event_type e.actor e.payload (parent ∷ []) g)

-- _flush_pending_events: those that were queued from position `start` on
unfoldable pub flush_pending_events : ℕ → ℕ → ExecutionContext → Ledger → Ledger
flush_pending_events start parent c g = emit_all (drop start c.pending_events) parent g
