-- ===== src/Client/Errors.antt =====
-- Exceptions on their way through HTTP: the handlers of src/forge/server/app.py write a body, from
-- which `_raise_error` of src/forge/client/http_client.py makes an exception.
use xforgebox.Base.{
  ℕ, zero, suc, String, Option, none, some, List, [], ◌∷◌, if◌then◌else◌, ◌==◌, string_eq, nat_eq,
  contains, ◌≡◌, arith,
}
use xforgebox.Errors.{
  Result, ok, err, Exception, base_class, forge_error, not_found_error, path_escape_error,
  workspace_error, conflict_error, pool_exhausted_error, snapshot_error, artifact_error,
}
use xforgebox.Server.{handler}

-- The `error` key of the body that a handler writes.
unfoldable pub error_kind : Exception → Option String
error_kind not_found_error = some "not_found"
error_kind path_escape_error = some "path_escape"
error_kind workspace_error = some "workspace_error"
error_kind conflict_error = some "conflict"
error_kind pool_exhausted_error = some "pool_exhausted"
error_kind snapshot_error = some "snapshot_error"
error_kind artifact_error = some "artifact_error"
error_kind _ = none

-- The class whose handler answers.
unfoldable pub handled_as : ℕ → Option Exception → Option Exception
unfolding handler base_class
handled_as zero e = none
handled_as (suc n) none = none
handled_as (suc n) (some e) =
    let above = handled_as n (base_class e) in
    elim (handler e) [ none ↦ above | some code ↦ some e ]

-- A response: its status, and the `error` key of its body if that is JSON, which is empty where
-- there is no such key.
pub record Response : Type 0 where
  pub status : ℕ
  pub body : Option String

-- The answer to an exception. Python's own handler answers all that have none, in plain text.
unfoldable pub respond : Exception → Response
unfolding handled_as error_kind handler
respond e = elim (handled_as 4 (some e)) [
  | none ↦ record { status = 500; body = none }
  | some c ↦ record {
    status = elim (handler c) [ none ↦ 500 | some code ↦ code ];
    body = error_kind c;
  }
]

-- `_ERROR_MAP`
abbrev pub error_map : List (String × Exception)
error_map =
    ("not_found", not_found_error)
    ∷ ("path_escape", path_escape_error)
    ∷ ("workspace_error", workspace_error)
    ∷ ("conflict", conflict_error)
    ∷ ("pool_exhausted", pool_exhausted_error)
    ∷ ("snapshot_error", snapshot_error)
    ∷ ("artifact_error", artifact_error)
    ∷ []

unfoldable pub class_of : List (String × Exception) → String → Exception
unfolding string_eq
class_of [] kind = forge_error
class_of ((k, e) ∷ rest) kind = let later = class_of rest kind in if k == kind then e else later

-- `_raise_error`
unfoldable pub raise_error : Response → Exception
unfolding class_of
raise_error resp = elim resp.body [ none ↦ forge_error | some kind ↦ class_of error_map kind ]

-- `_ok`: a body that is taken as it is.
unfoldable pub check_ok : List ℕ → Response → Result (Unit {0})
unfolding raise_error nat_eq
check_ok expected resp = if contains expected resp.status then ok tt else err (raise_error resp)

-- The class that the client raises for one that a service raised: the nearest with a handler of
-- its own, `ForgeError` where there is none.
unfoldable pub nearest : Exception → Exception
unfolding handled_as
nearest e = elim (handled_as 4 (some e)) [ none ↦ forge_error | some c ↦ c ]

-- The statuses that the client's calls accept.
pub data Accepted : List ℕ → Type 0 where
  read_ones : Accepted (200 ∷ 201 ∷ [])
  no_body : Accepted (204 ∷ [])
  stream : Accepted (200 ∷ [])

-- An exception that a service raises comes out of the HTTP client as the nearest class with a handler
-- of its own, if it or one of its bases has one, and as `ForgeError` if none has.
pub check_ok-respond :
    {expected : List ℕ} (e : Exception)
    → Accepted expected
    → check_ok expected (respond e) ≡ err (nearest e)
unfolding check_ok respond nearest
check_ok-respond e read_ones = ground arith
check_ok-respond e no_body = ground arith
check_ok-respond e stream = ground arith
