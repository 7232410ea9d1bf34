-- ===== src/Services/Executions/Steps.antt =====
-- The steps of `exec` one by one: the row inserted and marked, the log written, the row closed.
use xforgebox.Base.{
  ==_refl, ◌≡◌, refl, subst, String, Bool, true, false, Option, none, some, List, [], ◌∷◌, ◌++◌,
  if◌then◌else◌, ◌==◌, string_eq, arith, Bool-cases, inl, inr,
}
use xforgebox.Errors.{ok}
use xforgebox.Models.{aware, Execution, ExecutionStatus, ExecutionResult, ExecRequest, pos}
use xforgebox.Events.Bus.{publish}
use xforgebox.Storage.Rows.{has, first, first-none, update, count_if, count_if-snoc}
use xforgebox.Storage.MetaStore.{MetaStore, ex_is, ex_key, ws_is, iso_opt}
use xforgebox.Storage.MetaStore.Executions.{
  Field, Stamp, create_execution, update_execution, get_execution_by_idempotency, key_taken,
  execution_row, setters, setter, stamp, any_unknown,
}
use xforgebox.Storage.WorkspaceStore.{Disk, path}
use xforgebox.Services.World.{World}
use xforgebox.Services.Executions.{Host, whole, log_path, put_file, classify_status, spill_overflow}
use xforgebox.Services.Executions.Exec.{spill, queued_row, event_of, begin, earlier, complete}

update-none {ℓ} :
    {A : Type ℓ} (p : A → Bool) (f : A → A) (xs : List A) (r : A)
    → has p xs ≡ false
    → p r ≡ true
    → update p f (xs ++ r ∷ []) ≡ xs ++ f r ∷ []
unfolding count_if update
update-none p f [] r free hit = ground (arith)
update-none p f (x ∷ xs) r free hit = ground (arith, update-none p f xs r)

-- What a call needs to insert its row.
pub record IsNew (host : Host) (ws : String) (req : ExecRequest) (m : MetaStore) : Type 0 where
  pub up : m.connected ≡ true
  pub owner : has (ws_is ws) m.workspaces ≡ true
  pub fresh : has (ex_is host.exec_id) m.executions ≡ false
  pub key_free : key_taken (queued_row host ws req) m ≡ false

abbrev pub running_row : Host → String → ExecRequest → Execution
running_row host ws req = record (queued_row host ws req) {
  status = ExecutionStatus.running;
  started_at = some (aware host.started_at);
}

-- The world when the session is entered.
unfoldable pub began : Host → String → ExecRequest → World → World
began host ws req w = record w {
  meta = record w.meta { executions = w.meta.executions ++ running_row host ws req ∷ [] };
  bus =
      publish (event_of "execution.started" host ws)
        (publish (event_of "execution.queued" host ws) w.bus);
}

-- The store with one more execution.
abbrev pub with_row : Execution → MetaStore → MetaStore
with_row ex m = record m { executions = m.executions ++ ex ∷ [] }

pub create_execution-new :
    (host : Host) (ws : String) (req : ExecRequest) (m : MetaStore)
    → IsNew host ws req m
    → create_execution (queued_row host ws req) m ≡ (ok tt, with_row (queued_row host ws req) m)
unfolding create_execution execution_row queued_row iso_opt
create_execution-new host ws req m new = rw (new.up, new.fresh, new.owner, new.key_free)

-- The last row is the one that an update finds.
pub update_execution-last :
    (ex : Execution) (m : MetaStore) (f : Field) (fs : List Field) (set : Execution → Execution)
    → m.connected ≡ true
    → has (ex_is ex.id) m.executions ≡ false
    → any_unknown (f ∷ fs) ≡ false
    → setters (f ∷ fs) ≡ ok set
    → update_execution ex.id (f ∷ fs) (with_row ex m) ≡ (ok tt, with_row (set ex) m)
unfolding update_execution
update_execution-last ex m f fs set up fresh known sets =
    let self = ==_refl ex.id in
    let there : has (ex_is ex.id) (m.executions ++ ex ∷ []) ≡ true =
      ground (arith, count_if-snoc (ex_is ex.id) m.executions ex) in
    rw (known, sets, up, there, update-none (ex_is ex.id) set m.executions ex fresh self)

pub begin-began :
    (host : Host) (ws : String) (req : ExecRequest) (w : World)
    → IsNew host ws req w.meta
    → begin host ws req w ≡ (ok tt, began host ws req w)
unfolding begin began queued_row any_unknown setters setter stamp
begin-began host ws req w new = rw (
  create_execution-new host ws req w.meta new,
  update_execution-last (queued_row host ws req) w.meta (Field.status ExecutionStatus.running)
      (Field.started_at (Stamp.text (aware host.started_at)) ∷ [])
      (λ r. record r {
        status = ExecutionStatus.running;
        started_at = some (aware host.started_at);
      })
      new.up new.fresh refl refl,
)

-- Where the output that the driver cut goes, and the row and the world at the end of a run.
unfoldable pub out_path : Host → ExecutionResult → Option String
out_path host r = if r.truncated then some (log_path host.exec_id) else none

unfoldable pub spilled : Host → String → ExecutionResult → Disk → Disk
unfolding put_file
spilled host ws r d =
    if r.truncated
    then record d { files = put_file ws (log_path host.exec_id) r.output d.files }
    else d

unfoldable pub final_row : Host → String → ExecRequest → ExecutionResult → Execution
unfolding classify_status out_path queued_row
final_row host ws req r = record (running_row host ws req) {
  status = classify_status r.exit_code;
  exit_code = some r.exit_code;
  truncated = r.truncated;
  output_path = out_path host r;
  finished_at = some (aware host.finished_at);
}

unfoldable pub failed_row : Host → String → ExecRequest → Execution
unfolding queued_row
failed_row host ws req = record (running_row host ws req) {
  status = ExecutionStatus.failed;
  finished_at = some (aware host.finished_at);
}

unfoldable pub ended : Host → String → Execution → World → World → World
unfolding publish
ended host ws row w w2 = record w2 {
  meta = with_row row w.meta;
  bus = publish (event_of "execution.finished" host ws) w2.bus;
}

-- The log can be written, where one is needed.
unfoldable pub CanSpill : Host → String → ExecutionResult → Type 0
CanSpill host ws r = r.truncated ≡ true → (host.write ≡ whole) × (path ws ≡ ok ws)

pub spill-spilled :
    (host : Host) (ws : String) (r : ExecutionResult) (w : World)
    → CanSpill host ws r
    → spill host ws r w ≡ (ok (out_path host r), record w { disk = spilled host ws r w.disk })
unfolding CanSpill spill_overflow out_path spilled
spill-spilled host ws r w can = elim (Bool-cases r.truncated) [
  | inl cut ↦ ground (arith, (can cut).0, (can cut).1)
  | inr all ↦ rw all
]

pub complete-ended :
    (host : Host) (ws : String) (req : ExecRequest) (r : ExecutionResult) (w w2 : World)
    → IsNew host ws req w.meta
    → w2.meta ≡ with_row (running_row host ws req) w.meta
    → CanSpill host ws r
    → complete host ws r w2 ≡ (
      ok (record r {
        execution_id = host.exec_id;
        output_path = out_path host r;
        duration_ms = pos host.elapsed_ms;
      }),
      ended host ws (final_row host ws req r) w (record w2 { disk = spilled host ws r w2.disk }),
    )
unfolding complete ended final_row queued_row any_unknown setters setter stamp
complete-ended host ws req r w w2 new quiet can = rw (
  spill-spilled host ws r w2 can,
  quiet,
  update_execution-last (running_row host ws req) w.meta
      (Field.status (classify_status r.exit_code))
      (Field.exit_code (some r.exit_code)
        ∷ Field.truncated r.truncated
        ∷ Field.output_path (out_path host r)
        ∷ Field.finished_at (Stamp.text (aware host.finished_at))
        ∷ [])
      (λ x. record x {
        status = classify_status r.exit_code;
        exit_code = some r.exit_code;
        truncated = r.truncated;
        output_path = out_path host r;
        finished_at = some (aware host.finished_at);
      })
      new.up new.fresh refl refl,
)

-- A free key finds no execution.
pub lookup-free :
    (ws key : String) (m : MetaStore)
    → m.connected ≡ true
    → has (ex_key ws key) m.executions ≡ false
    → get_execution_by_idempotency ws key m ≡ (ok none, m)
unfolding get_execution_by_idempotency
lookup-free ws key m up free =
    let none_there : first (ex_key ws key) m.executions ≡ none =
      first-none (ex_key ws key) m.executions (ground arith) in
    rw (up, none_there)

pub key_free-at :
    (host : Host) (ws : String) (req : ExecRequest) (m : MetaStore)
    → IsNew host ws req m
    → (k : String) → req.idempotency_key ≡ some k
    → has (ex_key ws k) m.executions ≡ false
unfolding queued_row
key_free-at host ws req m new k e =
    subst
      (λ (o : Option String).
        elim o [ none ↦ false | some x ↦ has (ex_key ws x) m.executions ] ≡ false)
      e new.key_free

pub earlier-none :
    (host : Host) (ws : String) (req : ExecRequest) (w : World)
    → IsNew host ws req w.meta
    → earlier ws req w ≡ (ok none, w)
unfolding earlier
earlier-none host ws req w new = by_key req.idempotency_key refl
  where
    by_key : (k : Option String) → req.idempotency_key ≡ k → earlier ws req w ≡ (ok none, w)
    by_key none e = rw e
    by_key (some k) e = elim (Bool-cases (k == "")) [
      | inl empty ↦ rw (e, empty)
      | inr full ↦
          rw (e, full, lookup-free ws k w.meta new.up (key_free-at host ws req w.meta new k e))
    ]
