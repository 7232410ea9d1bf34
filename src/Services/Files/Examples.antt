-- ===== src/Services/Files/Examples.antt =====
-- The theorems on `FilesService` on a host with one workspace.
use xforgebox.Base.{
  List, Bool, true, false, none, some, [], ◌∷◌, ◌++◌, ◌==◌, nat_eq, list_eq, ◌≡◌, refl, arith, inl,
}
use xforgebox.Errors.{ok, err, path_escape_error}
use xforgebox.Models.{Text, pos}
use xforgebox.Strings.Lines.{split_lines}
use xforgebox.Strings.Replace.{parts, rejoin}
use xforgebox.Strings.Utf8.{encode}
use xforgebox.Services.Files.Paths.{AbsPath, codes, is_absolute, components}
use xforgebox.Services.Files.Host.{file, link, Tree, Os, put}
use xforgebox.Services.Files.Kept.{link_of}
use xforgebox.Services.Files.Ops.{write, read, edit, workspace_root}
use xforgebox.Services.Files.Confined.{writes, deletes, uploads, changes, files_confined}
use xforgebox.Services.Files.WriteRead.{read-write}
use xforgebox.Services.Files.Pages.{read_on, read_on-read}
use xforgebox.Services.Files.Editing.{edit_replaces}
use xforgebox.Services.Files.Search.{Patterns, GrepMatch, searched, walk, grep}
use xforgebox.Services.Files.Found.{all_matches, grep-take}
use xforgebox.Services.Files.Leaks.{grep_follows_link}
use xforgebox.Services.Files.Hosts.{
  plain_way, host, host-IsResolving, host-IsLinkReader, root_1, outside, disk, host-IsOutside,
}

files_confined_example :
    changes host "ws_1"
      (writes (codes "a.txt") (codes "new")
        ∷ writes (codes "../../etc/passwd") (codes "new")
        ∷ deletes (codes "b.txt")
        ∷ uploads (record { path = codes "c/d"; content_b64 = codes "x" } ∷ [])
        ∷ [])
      disk
      outside
    ≡ some (file (codes "root"))
unfolding list_eq nat_eq
files_confined_example = files_confined host "ws_1" outside host-IsResolving host-IsOutside _ disk

read-write_example :
    read host "ws_1"
      (codes "a/b")
      (pos 0)
      none
      100
      (write host "ws_1" (codes "a/b") (codes "x\ny") disk).1
    ≡ ok (codes "x\ny", 2, false)
unfolding write read encode split_lines plain_way
read-write_example =
    read-write host "ws_1" (codes "a/b") (codes "x\ny") 100 disk
      (write host "ws_1" (codes "a/b") (codes "x\ny") disk).1 host-IsLinkReader refl (ground arith)
      refl

read_on-read_example :
    read_on host "ws_1" (codes "a.txt") 2 100 4 0 disk ≡ ok (codes "one\ntwo\nthree")
unfolding read plain_way
read_on-read_example =
    read_on-read host "ws_1" (codes "a.txt") 2 100 3 (codes "one\ntwo\nthree") false disk
      (ground arith) refl

abbrev two_file : AbsPath
two_file = root_1 ++ codes "b.txt" ∷ []

edit_replaces_example :
    let ps = parts (codes "two") 0 (codes "two two\n") in
    (edit host "ws_1" (codes "b.txt") (codes "two") (codes "2") true disk
      ≡ (ok 2, put two_file (some (file (codes "2 2\n"))) disk))
    × (rejoin (codes "two") ps ≡ codes "two two\n")
unfolding edit parts encode plain_way
edit_replaces_example =
    edit_replaces host "ws_1" (codes "b.txt") (codes "two") (codes "2") true disk two_file
      (codes "two two\n") (refl, (codes "two two\n", refl, refl)) (ground arith) (ground arith)
      (inl refl) refl

-- A pattern is a first character here.
abbrev first_is : Text → Text → Bool
first_is [] l = true
first_is (c ∷ p) [] = false
first_is (c ∷ p) (d ∷ l) = c == d

abbrev patterns : Patterns
patterns = record {
  compile = λ p. some (first_is p);
  fullmatch = λ p text. p == text;
  fnmatchcase = λ text p. p == text;
  translate = λ p. p;
}

grep-take_example :
    grep patterns host "ws_1" (codes "t") none 2 disk
    ≡ ok (
        record { path = codes "a.txt"; line = 2; text = codes "two" }
        ∷ record { path = codes "a.txt"; line = 3; text = codes "three" }
        ∷ [])
unfolding grep all_matches plain_way nat_eq
grep-take_example =
    grep-take patterns host "ws_1" (codes "t") none 2 disk (first_is (codes "t")) root_1 refl refl

-- With a link in the workspace to the file outside it, on a host that resolves it.
abbrev linked : Tree
linked = put (root_1 ++ codes "out" ∷ []) (some (link outside)) disk

abbrev linking_host : Os
linking_host = record host {
  realpath = λ t root names. elim (link_of (t (root ++ names))) [
    | none ↦ ok (root ++ names)
    | some q ↦ ok q
  ];
  visits = λ t root. record { base = root; dirs = []; files = codes "out" ∷ [] } ∷ [];
}

grep_follows_link_example :
    (read linking_host "ws_1" (codes "out") (pos 0) none 100 linked ≡ err path_escape_error)
    × ((front back : List GrepMatch) × (grep patterns linking_host "ws_1" (codes "r") none 5 linked
          ≡ ok (front ++ record { path = codes "out"; line = 1; text = codes "root" } ∷ back)))
unfolding walk searched all_matches nat_eq plain_way workspace_root is_absolute components
grep_follows_link_example =
    grep_follows_link patterns linking_host "ws_1" (codes "r") (codes "out") (codes "out") linked
      root_1 (root_1 ++ codes "out" ∷ []) outside (codes "root") (first_is (codes "r")) [] [] [] []
      (codes "root") (pos 0) none 100 5
      record {
        compiled = refl;
        rooted = refl;
        relative = refl;
        resolved = refl;
        outside = refl;
        linked = refl;
        shown = refl;
        stored = refl;
        text = refl;
        walked = refl;
      }
      refl refl (omega arith)
