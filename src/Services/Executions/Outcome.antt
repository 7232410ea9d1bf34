-- ===== src/Services/Executions/Outcome.antt =====
-- How an execution ends, and what a retry of it shows.
use xforgebox.Base.{
  ap, ◌∙◌, ==_refl, ◌≡◌, ◌≢◌, ◌↔◌, nat_eq, refl, String, none, some, List, [], ◌∷◌, string_eq,
  arith,
}
use xforgebox.Errors.{Result, ok, err, Exception, cancelled_error}
use xforgebox.Models.{
  Execution, aware, Workspace, ExecutionStatus, ExecutionResult, ExecRequest, ℤ, pos, negsuc,
}
use xforgebox.Storage.Rows.{count_if, first-append_fresh}
use xforgebox.Storage.MetaStore.{
  MetaStore, ex_is, get_workspace, or_not_found, row_to_execution, parse_iso_opt, parse_iso,
}
use xforgebox.Storage.MetaStore.Executions.{
  get_execution, Field, Stamp, update_execution, setters, setter, stamp, any_unknown,
}
use xforgebox.Services.World.{World}
use xforgebox.Services.Executions.{Session, Host, prepare_command, classify_status}
use xforgebox.Services.Executions.Exec.{
  session_call, queued_row, run, exec, infra_failure, failed_fields,
}
use xforgebox.Services.Executions.Steps.{
  IsNew, began, begin-began, ended, failed_row, final_row, out_path, spilled, CanSpill,
  complete-ended, earlier-none, update_execution-last, running_row, with_row,
}

-- What a status says of an exit code, both ways.
abbrev pub EndsAs : ExecutionStatus → ℤ → Type 0
EndsAs status code =
    ((status ≡ ExecutionStatus.succeeded) ↔ (code ≡ pos 0))
    × ((status ≡ ExecutionStatus.timed_out) ↔ (code ≡ pos 124))
    × ((status ≡ ExecutionStatus.failed) ↔ ((code ≢ pos 0) × (code ≢ pos 124)))

status_of : (code : ℤ) → EndsAs (classify_status code) code
unfolding classify_status nat_eq
status_of (pos n) = (
  (λ h. ground arith, λ h. ground arith),
  (λ h. ground arith, λ h. ground arith),
  (λ h. (λ k. ground arith, λ k. ground arith), λ h. ground (arith, h.0, h.1)),
)
status_of (negsuc n) = (
  (λ h. cc, λ h. ground arith),
  (λ h. cc, λ h. ground arith),
  (λ h. (λ k. ground arith, λ k. ground arith), λ h. refl),
)

pub get_workspace-pure :
    (id : String) (m : MetaStore) (row : Workspace)
    → (get_workspace id m).0 ≡ ok row
    → get_workspace id m ≡ (ok row, m)
unfolding get_workspace
get_workspace-pure id m row h = ground (arith)

infra_failure-ended :
    (host : Host) (ws : String) (req : ExecRequest) (e : Exception) (w w2 : World)
    → e ≢ cancelled_error
    → IsNew host ws req w.meta
    → w2.meta ≡ with_row (running_row host ws req) w.meta
    → infra_failure host ws e w2 ≡ (err e, ended host ws (failed_row host ws req) w w2)
unfolding infra_failure ended failed_row queued_row any_unknown setters setter stamp
infra_failure-ended host ws req e w w2 real new quiet = by_class e real
  where
    closed :
        (update_execution host.exec_id (failed_fields host) w2.meta)
        ≡ (ok tt, with_row (failed_row host ws req) w.meta)
    closed = rw (
      quiet,
      update_execution-last (running_row host ws req) w.meta (Field.status ExecutionStatus.failed)
          (Field.exit_code none ∷ Field.finished_at (Stamp.text (aware host.finished_at)) ∷ [])
          (λ x. record x {
            status = ExecutionStatus.failed;
            exit_code = none;
            finished_at = some (aware host.finished_at);
          })
          new.up new.fresh refl refl,
    )

    by_class :
        (e : Exception)
        → e ≢ cancelled_error
        → infra_failure host ws e w2 ≡ (err e, ended host ws (failed_row host ws req) w w2)
    by_class cancelled_error real = absurd (real refl)
    by_class _ real = rw closed

module _ (session : Session) (host : Host) (ws : String) (req : ExecRequest) (w w2 : World)
    (row : Workspace) (cmd : List String) where
  -- What an execution takes to get as far as its session.
  pub record Starts : Type 0 where
    pub new : IsNew host ws req w.meta
    pub found : (get_workspace ws w.meta).0 ≡ ok row
    pub command : prepare_command req ≡ ok cmd

  -- The session ends in this way, and nothing else writes to the metastore meanwhile.
  abbrev pub Yields : Result ExecutionResult → Type 0
  Yields out =
      (session (session_call row ws req cmd) (began host ws req w) ≡ (out, w2))
      × (w2.meta ≡ (began host ws req w).meta)

  -- A command that the driver runs, whatever it returns: the caller has its output and its exit
  -- code, and the row is closed with the same code, the status that goes with it, and the path
  -- of the log where the output was cut.
  pub exec_succeeds :
      (r : ExecutionResult)
      → Starts
      → Yields (ok r)
      → CanSpill host ws r
      → exec session host ws req w ≡ (
        ok (record r {
          execution_id = host.exec_id;
          output_path = out_path host r;
          duration_ms = pos host.elapsed_ms;
        }),
        ended host ws (final_row host ws req r) w (record w2 { disk = spilled host ws r w2.disk }),
      )
  unfolding exec run began
  exec_succeeds r start (yields, quiet) can = rw (
    get_workspace-pure ws w.meta row start.found,
    earlier-none host ws req w start.new,
    begin-began host ws req w start.new,
    start.command,
    yields,
    complete-ended host ws req r w w2 start.new quiet can,
  )

  -- The session raises: the exception reaches the caller when the row is closed as `failed`,
  -- with no exit code.
  pub exec_fails :
      (e : Exception)
      → e ≢ cancelled_error
      → Starts
      → Yields (err e)
      → exec session host ws req w ≡ (err e, ended host ws (failed_row host ws req) w w2)
  unfolding exec run began
  exec_fails e real start (yields, quiet) = rw (
    get_workspace-pure ws w.meta row start.found,
    earlier-none host ws req w start.new,
    begin-began host ws req w start.new,
    start.command,
    yields,
    infra_failure-ended host ws req e w w2 real start.new quiet,
  )

  -- A session that is cancelled leaves the row as `running`.
  pub exec_cancelled :
      Starts → Yields (err cancelled_error) → exec session host ws req w ≡ (err cancelled_error, w2)
  unfolding exec run began infra_failure
  exec_cancelled start (yields, quiet) = rw (
    get_workspace-pure ws w.meta row start.found,
    earlier-none host ws req w start.new,
    begin-began host ws req w start.new,
    start.command,
    yields,
  )

-- The row that a run adds is the one that is read by its id.
get_execution-final :
    (host : Host) (ws : String) (req : ExecRequest) (r : ExecutionResult) (m : MetaStore)
    → IsNew host ws req m
    → (get_execution host.exec_id (with_row (final_row host ws req r) m)).0
      ≡ ok (final_row host ws req r)
unfolding get_execution or_not_found row_to_execution parse_iso_opt parse_iso final_row queued_row
get_execution-final host ws req r m new =
    let free : count_if (ex_is host.exec_id) m.executions ≡ 0 = ground (arith, new.fresh) in
    rw
      (
        new.up,
        first-append_fresh (ex_is host.exec_id) m.executions (final_row host ws req r) free
            (==_refl host.exec_id),
      )
      refl

-- After a run as in `exec_succeeds` the execution that is read by its id has the exit code of the
-- command, and its status says how that ended: succeeded for 0, timed out for 124, and failed for
-- every other code, whatever the command printed.
pub exec_status :
    (session : Session) (host : Host) (ws : String) (req : ExecRequest) (w w2 : World)
    (row : Workspace) (cmd : List String) (r : ExecutionResult)
    → Starts session host ws req w w2 row cmd
    → Yields session host ws req w w2 row cmd (ok r)
    → CanSpill host ws r
    → let after = (exec session host ws req w).1 in
      (x : Execution) × ((get_execution host.exec_id after.meta).0 ≡ ok x)
      × (x.exit_code ≡ some r.exit_code)
      × EndsAs x.status r.exit_code
unfolding ended final_row
exec_status session host ws req w w2 row cmd r start yields can = (
  final_row host ws req r,
  ap (λ (o : Result ExecutionResult × World). (get_execution host.exec_id o.1.meta).0)
        (exec_succeeds session host ws req w w2 row cmd r start yields can)
      ∙ get_execution-final host ws req r w.meta start.new,
  refl,
  status_of r.exit_code,
)
