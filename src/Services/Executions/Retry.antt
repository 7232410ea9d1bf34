-- ===== src/Services/Executions/Retry.antt =====
-- A call with the idempotency key of an earlier one.
use xforgebox.Base.{
  ap, ==_refl, ==_eq, ◌≡◌, refl, sym, ◌∙◌, subst, String, ◌<>◌, true, false, not, ◌&&◌, some, List,
  [], ◌∷◌, if◌then◌else◌, ◌==◌, string_eq, option_eq, arith, Bool-cases, inl, inr,
}
use Prim.Native.String.{len}
use text.Mathlib.TextPositions.{len-append}
use xforgebox.Errors.{Result, ok}
use xforgebox.Models.{
  Text, ℤ, pos, negsuc, aware, Workspace, Execution, ExecutionResult, ExecRequest,
}
use xforgebox.Storage.Rows.{first, count_if, first-append_fresh}
use xforgebox.Storage.MetaStore.{
  MetaStore, ex_key, get_workspace, row_to_execution, parse_iso_opt, parse_iso,
}
use xforgebox.Storage.MetaStore.Executions.{get_execution_by_idempotency}
use xforgebox.Storage.WorkspaceStore.{Disk, File, path, valid_workspace_id}
use xforgebox.Services.World.{World}
use xforgebox.Services.Executions.{
  Session, Host, has_log, logged, log_path, put_file, read_file, newlines, text_of, span_ms,
  classify_status, is_terminal, replayed, result_from_terminal_execution,
}
use xforgebox.Services.Executions.Exec.{queued_row, earlier, exec}
use xforgebox.Services.Executions.Steps.{
  key_free-at, IsNew, ended, final_row, out_path, spilled, CanSpill, with_row,
}
use xforgebox.Services.Executions.Outcome.{Starts, Yields, exec_succeeds, get_workspace-pure}

-- What has been written is read back with its line ends as line feeds.
read-put :
    (ws p : String) (text : Text) (files : List File)
    → read_file ws p (put_file ws p text files) ≡ some (newlines false text)
unfolding read_file text_of put_file first
read-put ws p text [] = ground (arith, ==_refl ws, ==_refl p)
read-put ws p text (f ∷ fs) = ground (arith, read-put ws p text fs)

classify_status-terminal : (c : ℤ) → is_terminal (classify_status c) ≡ true
unfolding is_terminal classify_status
classify_status-terminal (pos n) = ground (arith)
classify_status-terminal (negsuc n) = refl

final_row-read :
    (host : Host) (ws : String) (req : ExecRequest) (r : ExecutionResult)
    → row_to_execution (final_row host ws req r) ≡ final_row host ws req r
unfolding row_to_execution parse_iso_opt parse_iso final_row queued_row
final_row-read host ws req r = refl

final_row-terminal :
    (host : Host) (ws : String) (req : ExecRequest) (r : ExecutionResult)
    → is_terminal (final_row host ws req r).status ≡ true
unfolding final_row
final_row-terminal host ws req r = classify_status-terminal r.exit_code

final_row-found :
    (host : Host) (ws key : String) (req : ExecRequest) (r : ExecutionResult) (m : MetaStore)
    → IsNew host ws req m
    → req.idempotency_key ≡ some key
    → get_execution_by_idempotency ws key (with_row (final_row host ws req r) m)
      ≡ (ok (some (final_row host ws req r)), with_row (final_row host ws req r) m)
unfolding get_execution_by_idempotency final_row queued_row row_to_execution parse_iso_opt parse_iso
final_row-found host ws key req r m new keyed =
    let free : count_if (ex_key ws key) m.executions ≡ 0 =
      ground (arith, key_free-at host ws req m new key keyed) in
    let hit : ex_key ws key (final_row host ws req r) ≡ true =
      rw (==_refl ws, keyed, ==_refl (some key)) in
    rw (new.up, first-append_fresh (ex_key ws key) m.executions (final_row host ws req r) free hit)

-- A text that begins with a character is not empty.
log_path-nonempty : (id : String) → (log_path id == "") ≡ false
log_path-nonempty id = elim (Bool-cases (log_path id == "")) [
  | inl empty ↦
      let lengths = len-append ".forge/exec/" (id <> ".log") in
      let same = ap len (==_eq (log_path id) "" empty) in absurd (omega (arith, lengths, same))
  | inr full ↦ full
]

replayed-output :
    (host host' : Host) (ws : String) (r : ExecutionResult) (d : Disk)
    → host'.readable ≡ true
    → logged host' ws (out_path host r) (spilled host ws r d).files
      ≡ (if r.truncated then newlines false r.output else [])
unfolding out_path spilled
replayed-output host host' ws r d readable = elim (Bool-cases r.truncated) [
  | inl cut ↦ rw (
    cut,
    log_path-nonempty host.exec_id,
    readable,
    read-put ws (log_path host.exec_id) r.output d.files,
  )
  | inr all ↦ rw all
]

valid-path : (ws : String) → path ws ≡ ok ws → valid_workspace_id ws ≡ true
unfolding path
valid-path ws h = ground arith

log_readable :
    (host : Host) (ws : String) (req : ExecRequest) (r : ExecutionResult)
    → CanSpill host ws r
    → (has_log (final_row host ws req r) && not (valid_workspace_id ws)) ≡ false
unfolding final_row out_path CanSpill
log_readable host ws req r can = elim (Bool-cases r.truncated) [
  | inl cut ↦ rw (cut, valid-path ws (can cut).1, log_path-nonempty host.exec_id)
  | inr all ↦ rw all
]

-- The result that a retry shows: what the row has, and of the output what the log has.
unfoldable pub replay : Host → Host → ExecutionResult → ExecutionResult
unfolding out_path newlines span_ms
replay host host' r = record {
  execution_id = host.exec_id;
  output = if r.truncated then newlines false r.output else [];
  exit_code = r.exit_code;
  truncated = r.truncated;
  output_path = out_path host r;
  duration_ms =
      span_ms host'.float_ms (some (aware host.started_at)) (some (aware host.finished_at));
}

replayed-replay :
    (host host' : Host) (ws : String) (req : ExecRequest) (r : ExecutionResult) (d : Disk)
    → host'.readable ≡ true
    → replayed host' ws (final_row host ws req r) (spilled host ws r d) ≡ replay host host' r
unfolding replayed replay final_row queued_row
replayed-replay host host' ws req r d readable = rw (replayed-output host host' ws r d readable)

earlier-terminal :
    (ws key : String) (req : ExecRequest) (w : World) (ex : Execution)
    → req.idempotency_key ≡ some key
    → (key == "") ≡ false
    → get_execution_by_idempotency ws key w.meta ≡ (ok (some ex), w.meta)
    → is_terminal ex.status ≡ true
    → earlier ws req w ≡ (ok (some ex), w)
unfolding earlier
earlier-terminal ws key req w ex keyed full found terminal = rw (keyed, full, found, terminal)

pub get_workspace-with_row :
    (ws : String) (ex : Execution) (m : MetaStore)
    → (get_workspace ws (with_row ex m)).0 ≡ (get_workspace ws m).0
unfolding get_workspace
get_workspace-with_row ws ex m = ground arith

retry-ended :
    (session' : Session) (host host' : Host) (ws key : String) (req req' : ExecRequest)
    (w w2 : World) (row : Workspace) (r : ExecutionResult)
    → (get_workspace ws w.meta).0 ≡ ok row
    → IsNew host ws req w.meta
    → CanSpill host ws r
    → host'.readable ≡ true
    → req.idempotency_key ≡ some key
    → req'.idempotency_key ≡ some key
    → (key == "") ≡ false
    → let after =
        ended host ws
          (final_row host ws req r)
          w
          (record w2 { disk = spilled host ws r w2.disk }) in
      exec session' host' ws req' after ≡ (ok (replay host host' r), after)
unfolding exec ended result_from_terminal_execution
retry-ended session' host host' ws key req req' w w2 row r found new can readable keyed keyed'
      full =
    let ex = final_row host ws req r in
    let after = ended host ws ex w (record w2 { disk = spilled host ws r w2.disk }) in
    let there = final_row-found host ws key req r w.meta new keyed in
    let terminal : is_terminal ex.status ≡ true = final_row-terminal host ws req r in
    rw (
      get_workspace-pure ws after.meta row (get_workspace-with_row ws ex w.meta ∙ found),
      earlier-terminal ws key req' after ex keyed' full there terminal,
      log_readable host ws req r can,
      replayed-replay host host' ws req r w2.disk readable,
    )

module _ (session session' : Session) (host host' : Host) (ws key : String) (req req' : ExecRequest)
    (w w2 : World) (row : Workspace) (cmd : List String) where
  -- A second call with the key of a command that has run: no session is entered and nothing
  -- changes. The caller has the id, the exit code, the flag and the path of the first call. The
  -- output is that of the log with its line ends as line feeds where the output was cut, and
  -- empty where it was not.
  pub exec_then_retry :
      (r : ExecutionResult)
      → Starts session host ws req w w2 row cmd
      → Yields session host ws req w w2 row cmd (ok r)
      → CanSpill host ws r
      → host'.readable ≡ true
      → req.idempotency_key ≡ some key
      → req'.idempotency_key ≡ some key
      → (key == "") ≡ false
      → let after = (exec session host ws req w).1 in
        exec session' host' ws req' after ≡ (ok (replay host host' r), after)
  unfolding exec
  exec_then_retry r start yields can readable keyed keyed' full =
      let done = exec_succeeds session host ws req w w2 row cmd r start yields can in
      let after =
        ended host ws (final_row host ws req r) w
          (record w2 { disk = spilled host ws r w2.disk }) in
      let again =
        retry-ended session' host host' ws key req req' w w2 row r start.found start.new can
          readable keyed keyed' full in
      subst
        (λ (o : Result ExecutionResult × World).
          exec session' host' ws req' o.1 ≡ (ok (replay host host' r), o.1))
        (sym done) again
