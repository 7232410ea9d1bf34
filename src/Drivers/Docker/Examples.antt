-- ===== src/Drivers/Docker/Examples.antt =====
-- A daemon's answers and an output in chunks, with the theorems about them.
use xforgebox.Base.{String, true, false, none, some, List, [], ◌∷◌, string_eq, ◌≡◌, refl, inr}
use xforgebox.Base.Counting.{count}
use xforgebox.Errors.{err, os_error}
use xforgebox.Models.{pos, ExecutionResult}
use xforgebox.Services.Files.Paths.{codes}
use xforgebox.Drivers.Docker.Containers.{done, refused, raised, Creation, create_environment}
use xforgebox.Drivers.Docker.Exec.{drain, ended, exec_in_environment}
use xforgebox.Drivers.Docker.Rollback.{failed_install_removed}
use xforgebox.Drivers.Docker.Output.{HasOutput, exec-HasOutput}

-- All goes well, but for what a record update says.
abbrev creation : Creation
creation = record {
  inspect = refused 404;
  pull = done;
  create = done;
  start = done;
  put_archive = done;
  kill = done;
  delete = done;
}

abbrev others : List String
others = "c1" ∷ []

failed_install_removed_example :
    create_environment
      (record creation { put_archive = raised os_error; kill = refused 409 })
      "forge-"
      "python"
      "0"
      "c2"
      others
    ≡ (err os_error, others)
unfolding create_environment count
failed_install_removed_example =
    failed_install_removed (record creation { put_archive = raised os_error; kill = refused 409 })
      "forge-" "python" "0" "c2" others os_error refl refl refl refl refl (inr (409, refl)) refl
      refl

-- Nothing is lost here, but the output counts as truncated.
exact : drain 3 ([], false) (codes "abc" ∷ []) ≡ (codes "abc", true)
unfolding drain
exact = refl

abbrev result_3 : ExecutionResult
result_3 = record {
  execution_id = "ex_1";
  output = codes "abc";
  exit_code = pos 0;
  truncated = true;
  output_path = none;
  duration_ms = pos 7;
}

exec-HasOutput_example : HasOutput 3 (codes "ab" ∷ codes "cd" ∷ []) result_3
unfolding exec_in_environment
exec-HasOutput_example =
    exec-HasOutput done done (ended (codes "ab" ∷ codes "cd" ∷ [])) (some (pos 0)) "ex_1" (pos 7) 3
      result_3 refl
