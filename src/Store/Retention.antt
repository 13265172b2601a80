-- ===== src/Store/Retention.antt =====
-- internal/store/retention.go: pruning the terminal events of each repository, then of all of them.
-- The `pipeline_observations` table, whose rows no other part of the model reads, is left out.
pub mod Kept
use mathlib.Core.List.{reverse}
use hookfly.Base.{
  ℕ, suc, String, Bool, true, not, ◌&&◌, Option, none, some, List, [], ◌∷◌, ◌++◌, ◌==◌,
  if◌then◌else◌, any, keep_if, drop, map, order_by, str_eq, rows_affected,
}
use hookfly.Domain.{Uuid}
use hookfly.Store.Tables.{EventRow, DeliveryRow, Db, rows}
use hookfly.Store.Recovery.{is_active_row}
use hookfly.Store.Routing.{is_deferred}

pub record RepositoryKey : Type 0 where
  pub source_id : String
  pub repository_id : String

pub record PruneResult : Type 0 where
  pub deleted : ℕ
  pub event_ids : List Uuid

abbrev pub group_of : EventRow → RepositoryKey
group_of e = record { source_id = e.canonical.source; repository_id = e.canonical.repository }

abbrev pub same_group : RepositoryKey → RepositoryKey → Bool
same_group a b = str_eq a.source_id b.source_id && str_eq a.repository_id b.repository_id

-- `SELECT DISTINCT source_id, repository_id`.
unfoldable pub distinct_groups : List EventRow → List RepositoryKey
distinct_groups [] = []
distinct_groups (e ∷ es) =
    let rest = distinct_groups es in
    if any (same_group (group_of e)) rest then rest else group_of e ∷ rest

-- `group == nil`: the pass over all repositories.
abbrev pub in_group : Option RepositoryKey → EventRow → Bool
in_group none e = true
in_group (some g) e = same_group g (group_of e)

-- Some current attempt of the event is active.
abbrev pub has_active : Db → Uuid → Bool
has_active db event_id = any (λ r. r.delivery.event_id == event_id && is_active_row r) (rows db)

abbrev pub is_terminal : Db → EventRow → Bool
is_terminal db e = not (is_deferred e.routing_result) && not (has_active db e.id)

abbrev pub age_key : EventRow → List ℕ
age_key e = e.received_at ∷ e.id ∷ []

abbrev pub event_id_of : EventRow → Uuid
event_id_of e = e.id

-- The terminal events of a group, newest first.
unfoldable pub terminal_events : Option RepositoryKey → Db → List EventRow
terminal_events g db =
    reverse (order_by age_key (keep_if (λ e. in_group g e && is_terminal db e) db.events))

-- `LIMIT -1 OFFSET ?`.
unfoldable pub terminal_event_ids_after : Option RepositoryKey → ℕ → Db → List Uuid
terminal_event_ids_after g limit db = map event_id_of (drop limit (terminal_events g db))

abbrev pub is_delivery_of_event : Uuid → DeliveryRow → Bool
is_delivery_of_event id d = d.event_id == id

-- `DELETE FROM events WHERE id = ?`, with the rows that ON DELETE CASCADE takes along.
unfoldable pub delete_event : Uuid → Db → Db
delete_event id db = record db {
  events = keep_if (λ e. not (e.id == id)) db.events;
  deliveries = keep_if (λ d. not (is_delivery_of_event id d)) db.deliveries;
  attempts =
      keep_if
        (λ a. not (any (λ d. is_delivery_of_event id d && d.id == a.delivery_id) db.deliveries))
        db.attempts;
  audit_logs = keep_if (λ l. not (l.event_id == id)) db.audit_logs;
  routing_queue = keep_if (λ q. not (q.event_id == id)) db.routing_queue;
}

-- `deleteRetentionEvents`: the ids whose DELETE met one row are counted.
unfoldable pub delete_retention_events : List Uuid → PruneResult → Db → PruneResult × Db
delete_retention_events [] result db = (result, db)
delete_retention_events (id ∷ ids) result db =
    delete_retention_events ids
      (if rows_affected (λ (e : EventRow). e.id == id) db.events == 1
        then record { deleted = suc result.deleted; event_ids = result.event_ids ++ id ∷ [] }
        else result)
      (delete_event id db)

-- A limit that is not positive keeps every event.
unfoldable pub prune_group : Option RepositoryKey → ℕ → PruneResult → Db → PruneResult × Db
prune_group g limit result db =
    if limit == 0
    then (result, db)
    else delete_retention_events (terminal_event_ids_after g limit db) result db

abbrev pub limit_for : (RepositoryKey → Option ℕ) → ℕ → RepositoryKey → ℕ
limit_for limits default g = elim (limits g) [ none ↦ default | some configured ↦ configured ]

-- `sort.Slice` over the groups is a parameter; `limits` are the configured repositories'.
module _ (sort_groups : List RepositoryKey → List RepositoryKey) (limits : RepositoryKey → Option ℕ)
    (default global : ℕ) where
  unfoldable pub prune_groups : List RepositoryKey → PruneResult → Db → PruneResult × Db
  prune_groups [] result db = (result, db)
  prune_groups (g ∷ gs) result db =
      let (result', db') = prune_group (some g) (limit_for limits default g) result db in
      prune_groups gs result' db'

  -- `Prune`.
  unfoldable pub prune : Db → PruneResult × Db
  prune db =
      let (result, db') =
        prune_groups (sort_groups (distinct_groups db.events))
          (record { deleted = 0; event_ids = [] }) db in
      prune_group none global result db'
