-- ===== src/Storage/MetaStore/Ledgers.antt =====
-- The other tables of src/forge/storage/meta_store.py: snapshots, artifacts, scope bindings and
-- pool events.
use xforgebox.Base.{
  ℕ, ◌+◌, String, Bool, true, not, ◌||◌, Option, none, some, List, [], ◌∷◌, ◌++◌, map, ltb, take,
  if◌then◌else◌, ◌==◌, string_eq,
}
use mathlib.Core.List.{reverse}
use xforgebox.Errors.{Result, ok, err}
use xforgebox.Models.{DateTime, Snapshot, Artifact}
use xforgebox.Storage.Rows.{count_if, has, first, update, select, order_by}
use xforgebox.Storage.MetaStore.{
  MetaStore, PoolEvent, Outcome, iso, parse_iso, row_to_snapshot, row_to_artifact, or_not_found,
  instant, snap_is, snap_of, art_is, art_of, scope_is, ws_is, insert_row, with_conn,
}

unfoldable pub create_snapshot : Snapshot → MetaStore → Outcome (Unit {0})
unfolding iso count_if
create_snapshot s m =
    insert_row m (has (snap_is s.id) m.snapshots || not (has (ws_is s.workspace_id) m.workspaces))
      (λ t. record m { snapshots = m.snapshots ++ record s { created_at = t } ∷ [] })
      (iso s.created_at)

unfoldable pub get_snapshot : String → MetaStore → Outcome Snapshot
unfolding first row_to_snapshot or_not_found
get_snapshot id m = with_conn m (or_not_found row_to_snapshot (first (snap_is id) m.snapshots), m)

unfoldable pub list_snapshots : String → MetaStore → Outcome (List Snapshot)
unfolding select order_by row_to_snapshot
list_snapshots ws m = with_conn m (
  ok (
      map row_to_snapshot (
        order_by (λ a b. ltb (instant a.created_at) (instant b.created_at))
          (select (snap_of ws) m.snapshots))),
  m,
)

unfoldable pub create_artifact : Artifact → MetaStore → Outcome (Unit {0})
unfolding iso count_if
create_artifact a m =
    insert_row m (has (art_is a.id) m.artifacts || not (has (ws_is a.workspace_id) m.workspaces))
      (λ t. record m { artifacts = m.artifacts ++ record a { created_at = t } ∷ [] })
      (iso a.created_at)

unfoldable pub get_artifact : String → MetaStore → Outcome Artifact
unfolding first row_to_artifact or_not_found
get_artifact id m = with_conn m (or_not_found row_to_artifact (first (art_is id) m.artifacts), m)

unfoldable pub list_artifacts : String → MetaStore → Outcome (List Artifact)
unfolding select order_by row_to_artifact
list_artifacts ws m = with_conn m (
  ok (
      map row_to_artifact (
        order_by (λ a b. ltb (instant a.created_at) (instant b.created_at))
          (select (art_of ws) m.artifacts))),
  m,
)

-- `INSERT ... ON CONFLICT DO UPDATE SET workspace_id`, at the time `now`; the reference is checked
-- in both cases.
unfoldable pub bind_scope : String → String → String → DateTime → MetaStore → Outcome (Unit {0})
unfolding iso count_if update
bind_scope kind key ws now m =
    insert_row m (not (has (ws_is ws) m.workspaces))
      (λ t.
        if has (scope_is kind key) m.scope_bindings
        then record m {
          scope_bindings =
              update (scope_is kind key) (λ b. record b { workspace_id = ws }) m.scope_bindings;
        }
        else record m {
          scope_bindings =
              m.scope_bindings
              ++ record { scope_kind = kind; scope_key = key; workspace_id = ws; created_at = t }
                ∷ [];
        })
      (iso now)

unfoldable pub resolve_scope : String → String → MetaStore → Outcome (Option String)
unfolding first
resolve_scope kind key m = with_conn m (
  ok (elim (first (scope_is kind key) m.scope_bindings) [
    | none ↦ none
    | some b ↦ some b.workspace_id
  ]),
  m,
)

-- `append_pool_event` at the time that is given or now; ids are handed out in order.
abbrev pub event_written :
    String → String → String → MetaStore → Result DateTime → Outcome (Unit {0})
event_written image kind payload m (err e) = (err e, m)
event_written image kind payload m (ok t) = (
  ok tt,
  record m {
    pool_events =
        m.pool_events
        ++ record { id = m.next_event; ts = t; image = image; kind = kind; payload = payload } ∷ [];
    next_event = m.next_event + 1;
  },
)

unfoldable pub append_pool_event :
    String → String → String → DateTime → MetaStore → Outcome (Unit {0})
unfolding iso
append_pool_event image kind payload ts m =
    with_conn m (event_written image kind payload m (iso ts))

abbrev of_image : Option String → PoolEvent → Bool
of_image none e = true
of_image (some image) e = e.image == image

abbrev event_entry : PoolEvent → PoolEvent
event_entry e = record e { ts = parse_iso e.ts }

-- `ORDER BY id DESC LIMIT ?`: the rows stand by ascending id.
unfoldable pub list_pool_events : Option String → ℕ → MetaStore → Outcome (List PoolEvent)
unfolding select parse_iso
list_pool_events image limit m =
    with_conn m
      (ok (map event_entry (take limit (reverse (select (of_image image) m.pool_events)))), m)
