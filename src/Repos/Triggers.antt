-- ===== src/Repos/Triggers.antt =====
-- TriggersRepo (internal/infra/db/gormrepo/triggers_repo.go).
use crawlerv.Prelude.{ℕ, suc, Bool, true, ◌&&◌, List, [], ◌∷◌, ◌++◌, map, Bytes, bytes_eq, ◌==◌}
use crawlerv.Store.Rows.{PipelineTrigger}
use crawlerv.Store.Sql.{select, update, delete, sort_by}
use crawlerv.Store.World.{M, query, execute}
use crawlerv.FrontierRepo.Domains.{text_or_empty, null_if_empty}
use crawlerv.Dispatcher.Triggers.{Trigger}

-- A trigger is created enabled, whatever the argument says.
unfoldable pub new_row : ℕ → Trigger → ℕ → PipelineTrigger
new_row now t id = record {
  id = id;
  when_event = t.when_event;
  when_filter = null_if_empty t.when_filter;
  enqueue_kind = t.enqueue_kind;
  enabled = true;
  created_at = now;
}

unfoldable pub create : ℕ → Trigger → M ℕ
unfolding new_row
create now t = execute λ d. (
  d.next_trigger_id,
  record d {
    pipeline_triggers = d.pipeline_triggers ++ new_row now t d.next_trigger_id ∷ [];
    next_trigger_id = suc d.next_trigger_id;
  },
)

unfoldable pub map_trigger : PipelineTrigger → Trigger
map_trigger m = record {
  id = m.id;
  when_event = m.when_event;
  when_filter = text_or_empty m.when_filter;
  enqueue_kind = m.enqueue_kind;
  enabled = m.enabled;
}

abbrev pub in_order : List PipelineTrigger → List Trigger
in_order rows = map map_trigger (sort_by (λ r. r.id) rows)

unfoldable pub list : M (List Trigger)
unfolding map_trigger
list = query λ d. in_order d.pipeline_triggers

unfoldable pub list_by_event : Bytes → M (List Trigger)
unfolding map_trigger
list_by_event e = query λ d.
    in_order
      (select (λ (r : PipelineTrigger). bytes_eq r.when_event e && r.enabled) d.pipeline_triggers)

unfoldable pub set_enabled : ℕ → Bool → M (Unit {0})
set_enabled id enabled = execute λ d. (
  tt,
  record d {
    pipeline_triggers =
        update (λ (r : PipelineTrigger). r.id == id) (λ r. record r { enabled = enabled })
          d.pipeline_triggers;
  },
)

unfoldable pub delete_id : ℕ → M (Unit {0})
delete_id id =
    execute λ d. (tt, record d { pipeline_triggers = delete (λ r. r.id == id) d.pipeline_triggers })
