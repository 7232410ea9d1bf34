-- ===== src/Services/Files/Service.antt =====
-- `FilesService` of src/forge/services/files_service.py as what the routes and the clients call.
use xforgebox.Base.{
  ℕ, suc, ◌-◌, String, Bool, true, none, some, length, take, leb, ltb, if◌then◌else◌,
}
use xforgebox.Errors.{Result, ok, err}
use xforgebox.Models.{Text, ℤ, pos, negsuc}
use xforgebox.Strings.Lines.{split_lines, join}
use xforgebox.Services.Files.Host.{Tree, Os}
use xforgebox.Services.Files.Ops.{reads}
use xforgebox.Services.Files.Ops as Ops
use xforgebox.Services.Files.Search.{Patterns}
use xforgebox.Services.Files.Search as Search
use xforgebox.Server.State.{FilesService, ForgeState}

-- `_MAX_READ_BYTES`
abbrev pub max_read_bytes : ℕ
max_read_bytes = 5242880

-- `_MAX_GREP_MATCHES`
abbrev max_grep_matches : ℕ
max_grep_matches = 2000

-- `lines[offset : offset - (n + 1)]` of a text read from the line `offset` on, with the count and
-- the `offset - (n + 1) < total_lines` that `read` returns.
abbrev cut_end : ℕ → ℤ → Text × ℕ × Bool → Text × ℕ × Bool
cut_end n (negsuc m) (content, total, truncated) = (content, total, truncated)
cut_end n (pos offset) (content, total, truncated) =
    let lines = split_lines content in
    if leb (suc n) offset
    then (join (take 0 lines), total, ltb (offset - suc n) total)
    else (join (take (length lines - suc n) lines), total, true)

-- A negative limit, which the route refuses, cuts lines off the end.
abbrev pub read_limited : Os → String → Text → ℤ → ℤ → Tree → Result (Text × ℕ × Bool)
read_limited os ws path offset (pos n) t = Ops.read os ws path offset (some n) max_read_bytes t
read_limited os ws path offset (negsuc n) t =
    elim (Ops.read os ws path offset none max_read_bytes t) [
      | err e ↦ err e
      | ok got ↦ ok (cut_end n offset got)
    ]

abbrev pub files_service : Patterns → Os → FilesService Tree
files_service re os = record {
  ls = λ ws path. reads (Ops.ls os ws path);
  read = λ ws path offset limit. reads (read_limited os ws path offset limit);
  write = λ ws path content. Ops.write os ws path content;
  edit = λ ws path old new all. Ops.edit os ws path old new all;
  glob = λ ws pattern. reads (Search.glob re os ws pattern);
  grep = λ ws pattern path_glob. reads (Search.grep re os ws pattern path_glob max_grep_matches);
  delete = λ ws path. Ops.delete os ws path;
  upload_files = λ ws items. Ops.upload_files os ws items;
  download_files = λ ws paths. reads (Ops.download_files os ws paths);
}

-- The services, with this one for the files.
abbrev pub on_disk : Patterns → Os → ForgeState Tree → ForgeState Tree
on_disk re os st = record st { files = files_service re os }
