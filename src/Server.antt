-- ===== src/Server.antt =====
-- src/forge/server/app.py: the answer to an exception. A handler is looked up by the class and
-- then by its bases, up to Python's own `Exception`, for which there is none: that is a 500.
pub mod State
pub mod Wire
pub mod Routes
pub mod Routing
pub mod Order
use xforgebox.Base.{◌≡◌, ℕ, zero, suc, Option, none, some, arith}
use xforgebox.Errors.{
  Exception, base_class, not_found_error, path_escape_error, workspace_error, conflict_error,
  pool_exhausted_error, snapshot_error, artifact_error,
}

-- The exception handlers that `create_app` registers.
unfoldable pub handler : Exception → Option ℕ
handler not_found_error = some 404
handler path_escape_error = some 400
handler workspace_error = some 400
handler conflict_error = some 409
handler pool_exhausted_error = some 503
handler snapshot_error = some 400
handler artifact_error = some 400
handler _ = none

-- No class of the package has more than three bases above it.
unfoldable pub look_up : ℕ → Option Exception → ℕ
unfolding handler base_class
look_up zero e = 500
look_up (suc n) none = 500
look_up (suc n) (some e) =
    let above = look_up n (base_class e) in elim (handler e) [ none ↦ above | some code ↦ code ]

unfoldable pub status_code : Exception → ℕ
unfolding look_up
status_code e = look_up 4 (some e)

-- A class that has no handler of its own is answered as its base is: the bases looked up suffice.
pub status_code-base_class :
    (e b : Exception) → handler e ≡ none → base_class e ≡ some b → status_code e ≡ status_code b
unfolding status_code
status_code-base_class e b h k = ground arith
