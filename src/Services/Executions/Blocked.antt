-- ===== src/Services/Executions/Blocked.antt =====
-- A key whose execution has not come to an end.
use xforgebox.Base.{
  ==_refl, ◌≡◌, refl, sym, ◌∙◌, subst, String, true, false, none, some, List, ◌==◌, string_eq,
  option_eq, arith, Bool-cases, inl, inr,
}
use xforgebox.Errors.{Result, ok, err, cancelled_error, integrity_error}
use xforgebox.Models.{Workspace, Execution, ExecutionStatus, ExecutionResult, ExecRequest}
use xforgebox.Storage.Rows.{has, count_if, count_if-snoc, first-append_fresh}
use xforgebox.Storage.MetaStore.{
  MetaStore, ex_key, get_workspace, row_to_execution, parse_iso_opt, parse_iso,
}
use xforgebox.Storage.MetaStore.Executions.{
  create_execution, get_execution_by_idempotency, execution_row,
}
use xforgebox.Services.World.{World}
use xforgebox.Services.Executions.{Session, Host, is_terminal}
use xforgebox.Services.Executions.Exec.{queued_row, earlier, exec, begin, run}
use xforgebox.Services.Executions.Steps.{IsNew, began, running_row, with_row, key_free-at}
use xforgebox.Services.Executions.Outcome.{Starts, Yields, exec_cancelled, get_workspace-pure}
use xforgebox.Services.Executions.Retry.{get_workspace-with_row}

running_row-open :
    (host : Host) (ws : String) (req : ExecRequest)
    → is_terminal (running_row host ws req).status ≡ false
unfolding is_terminal queued_row
running_row-open host ws req = refl

running-found :
    (host : Host) (ws key : String) (req : ExecRequest) (m : MetaStore)
    → IsNew host ws req m
    → req.idempotency_key ≡ some key
    → get_execution_by_idempotency ws key (with_row (running_row host ws req) m)
      ≡ (ok (some (running_row host ws req)), with_row (running_row host ws req) m)
unfolding get_execution_by_idempotency queued_row row_to_execution parse_iso_opt parse_iso
running-found host ws key req m new keyed =
    let free : count_if (ex_key ws key) m.executions ≡ 0 =
      ground (arith, key_free-at host ws req m new key keyed) in
    let hit : ex_key ws key (running_row host ws req) ≡ true =
      rw (==_refl ws, keyed, ==_refl (some key)) in
    rw (new.up, first-append_fresh (ex_key ws key) m.executions (running_row host ws req) free hit)

earlier-running :
    (ws key : String) (req : ExecRequest) (w : World) (ex : Execution)
    → req.idempotency_key ≡ some key
    → get_execution_by_idempotency ws key w.meta ≡ (ok (some ex), w.meta)
    → is_terminal ex.status ≡ false
    → earlier ws req w ≡ (ok none, w)
unfolding earlier
earlier-running ws key req w ex keyed found runs = elim (Bool-cases (key == "")) [
  | inl empty ↦ rw (keyed, empty)
  | inr full ↦ rw (keyed, full, found, runs)
]

create_execution-refused :
    (host' : Host) (ws key : String) (req' : ExecRequest) (m : MetaStore)
    → m.connected ≡ true
    → req'.idempotency_key ≡ some key
    → has (ex_key ws key) m.executions ≡ true
    → create_execution (queued_row host' ws req') m ≡ (err integrity_error, m)
unfolding create_execution queued_row execution_row
create_execution-refused host' ws key req' m up keyed taken = ground (arith, up, keyed, taken)

running-taken :
    (host : Host) (ws key : String) (req : ExecRequest) (m : MetaStore)
    → req.idempotency_key ≡ some key
    → has (ex_key ws key) (with_row (running_row host ws req) m).executions ≡ true
unfolding queued_row
running-taken host ws key req m keyed =
    let hit : ex_key ws key (running_row host ws req) ≡ true =
      rw (==_refl ws, keyed, ==_refl (some key)) in
    ground (arith, count_if-snoc (ex_key ws key) m.executions (running_row host ws req), hit)

retry-running :
    (session' : Session) (host host' : Host) (ws key : String) (req req' : ExecRequest)
    (w w2 : World) (row : Workspace)
    → (get_workspace ws w.meta).0 ≡ ok row
    → IsNew host ws req w.meta
    → w2.meta ≡ with_row (running_row host ws req) w.meta
    → req.idempotency_key ≡ some key
    → req'.idempotency_key ≡ some key
    → exec session' host' ws req' w2 ≡ (err integrity_error, w2)
unfolding exec run begin
retry-running session' host host' ws key req req' w w2 row found new still keyed keyed' =
    let stored = running_row host ws req in
    let there : get_execution_by_idempotency ws key w2.meta ≡ (ok (some stored), w2.meta) =
      rw still (running-found host ws key req w.meta new keyed) in
    let reads : (get_workspace ws w2.meta).0 ≡ ok row =
      rw still (get_workspace-with_row ws stored w.meta ∙ found) in
    let up : w2.meta.connected ≡ true = rw still new.up in
    let taken : has (ex_key ws key) w2.meta.executions ≡ true =
      rw still (running-taken host ws key req w.meta keyed) in
    rw (
      get_workspace-pure ws w2.meta row reads,
      earlier-running ws key req' w2 stored keyed' there (running_row-open host ws req),
      create_execution-refused host' ws key req' w2.meta up keyed' taken,
    )

module _ (session session' : Session) (host host' : Host) (ws key : String) (req req' : ExecRequest)
    (w w2 : World) (row : Workspace) (cmd : List String) where
  -- When a call with a key has been cancelled in its session, its row is found by the key with the
  -- status `running`, and the next call with the key raises the database's `IntegrityError`, runs
  -- nothing and changes nothing, so that the same holds of the one after it. (The session leaves the
  -- metastore alone.)
  pub cancelled_key_blocked :
      Starts session host ws req w w2 row cmd
      → Yields session host ws req w w2 row cmd (err cancelled_error)
      → req.idempotency_key ≡ some key
      → req'.idempotency_key ≡ some key
      → let after = (exec session host ws req w).1 in
        (get_execution_by_idempotency ws key after.meta
          ≡ (ok (some (running_row host ws req)), after.meta))
        × ((running_row host ws req).status ≡ ExecutionStatus.running)
        × (exec session' host' ws req' after ≡ (err integrity_error, after))
  unfolding exec run begin began queued_row
  cancelled_key_blocked start yields keyed keyed' =
      let done = exec_cancelled session host ws req w w2 row cmd start yields in
      let stored = running_row host ws req in
      let still : w2.meta ≡ with_row stored w.meta = yields.1 in
      let there : get_execution_by_idempotency ws key w2.meta ≡ (ok (some stored), w2.meta) =
        rw still (running-found host ws key req w.meta start.new keyed) in
      let again =
        retry-running session' host host' ws key req req' w w2 row start.found start.new still keyed
          keyed' in
      subst
        (λ (o : Result ExecutionResult × World).
          (get_execution_by_idempotency ws key o.1.meta ≡ (ok (some stored), o.1.meta))
          × (stored.status ≡ ExecutionStatus.running)
          × (exec session' host' ws req' o.1 ≡ (err integrity_error, o.1)))
        (sym done) (there, refl, again)
