-- ===== src/Services/Files/Hosts.antt =====
-- A host with one workspace, on which the tests run.
use xforgebox.Base.{
  Bool, true, false, ◌&&◌, Option, none, some, List, [], ◌∷◌, ◌++◌, append-nil, append_assoc,
  if◌then◌else◌, nat_eq, list_eq, ◌≡◌, refl, sym, ap, ◌∙◌, arith, subst,
}
use xforgebox.Errors.{ok, err, bind-ok, os_error, workspace_error}
use xforgebox.Models.{Text, aware}
use xforgebox.Services.Files.Paths.{AbsPath, codes}
use xforgebox.Services.Files.Host.{file, dir, Tree, Os, put, is_dir}
use xforgebox.Services.Files.Host.Safe.{IsPlain}
use xforgebox.Services.Files.Kept.{link_of}
use xforgebox.Services.Files.Ops.{workspace_root}
use xforgebox.Services.Files.Resolved.{in_workspace, IsResolving, IsOutside}
use xforgebox.Services.Files.WriteRead.{IsLinkReader}

-- No link on the way from `base` along the names.
abbrev no_link : Option AbsPath → Bool
no_link none = true
no_link (some q) = false

unfoldable pub plain_way : Tree → AbsPath → List Text → Bool
plain_way t base [] = no_link (link_of (t base))
plain_way t base (c ∷ rest) =
    let further = plain_way t (base ++ c ∷ []) rest in no_link (link_of (t base)) && further

no_link-IsPlain : (t : Tree) (base : AbsPath) → no_link (link_of (t base)) ≡ true → IsPlain (t base)
no_link-IsPlain t base h r k = ground (arith, k)

plain-first :
    (t : Tree) (base b : AbsPath) → plain_way t base b ≡ true → no_link (link_of (t base)) ≡ true
unfolding plain_way
plain-first t base [] h = h
plain-first t base (c ∷ rest) h = ground arith

way-IsPlain :
    (t : Tree) (base a b : AbsPath) → plain_way t base (a ++ b) ≡ true → IsPlain (t (base ++ a))
unfolding plain_way
way-IsPlain t base [] b h = rw (append-nil base) (no_link-IsPlain t base (plain-first t base b h))
way-IsPlain t base (c ∷ a) b h =
    let further : plain_way t (base ++ c ∷ []) (a ++ b) ≡ true = ground arith in
    subst (λ p. IsPlain (t p)) (append_assoc base (c ∷ []) a)
      (way-IsPlain t (base ++ c ∷ []) a b further)

way-same :
    (t u : Tree) (base rest : AbsPath)
    → ((a : AbsPath) → link_of (t a) ≡ link_of (u a))
    → plain_way t base rest ≡ plain_way u base rest
unfolding plain_way
way-same t u base [] h = ap no_link (h base)
way-same t u base (c ∷ rest) h = rw (h base, way-same t u (base ++ c ∷ []) rest h) refl

-- A host on which a path that goes over a link cannot be resolved.
abbrev pub host : Os
host = record {
  workspaces = codes "srv" ∷ [];
  realpath =
      λ t root names. if plain_way t [] (root ++ names) then ok (root ++ names) else err os_error;
  scan = λ t p. [];
  visits = λ t p. record { base = p; dirs = []; files = codes "a.txt" ∷ codes "b.txt" ∷ [] } ∷ [];
  dir_size = λ p. 4096;
  modified_at = λ p. aware 0;
  b64decode = some;
  b64encode = λ b. b;
}

resolved-here :
    (t : Tree) (p target : AbsPath)
    → (if plain_way t [] p then ok p else err os_error) ≡ ok target
    → (plain_way t [] p ≡ true) × (p ≡ target)
resolved-here t p target h = (ground arith, ground arith)

pub host-IsResolving : IsResolving host
host-IsResolving t root names target h a b split =
    let (way, same) = resolved-here t (root ++ names) target h in
    way-IsPlain t [] a b (subst (λ p. plain_way t [] p ≡ true) (same ∙ split) way)

pub host-IsLinkReader : IsLinkReader host
host-IsLinkReader = (
  (λ t root names target h.
      host-IsResolving t root names target h target [] (sym (append-nil target))),
  λ t u h root names. rw (way-same t u [] (root ++ names) h) refl,
)

abbrev pub root_1 : AbsPath
root_1 = codes "srv" ∷ codes "ws_1" ∷ []

abbrev pub outside : AbsPath
outside = codes "etc" ∷ codes "passwd" ∷ []

-- Two files in the workspace, and one outside it.
abbrev pub disk : Tree
disk = put [] (some dir) (
    put (codes "srv" ∷ []) (some dir) (
      put root_1 (some dir) (
        put (root_1 ++ codes "a.txt" ∷ []) (some (file (codes "one\ntwo\nthree"))) (
          put (root_1 ++ codes "b.txt" ∷ []) (some (file (codes "two two\n")))
            (put outside (some (file (codes "root"))) (λ p. none))))))

dir-ok :
    (b : Bool) (r root : AbsPath)
    → (if b then ok r else err workspace_error) ≡ ok root
    → (b ≡ true) × (r ≡ root)
dir-ok b r root h = (ground arith, ground arith)

pub host-IsOutside : IsOutside host "ws_1" outside
unfolding workspace_root in_workspace
host-IsOutside t root h =
    let (r, real, found) = bind-ok (host.realpath t host.workspaces (codes "ws_1" ∷ [])) _ root h in
    let (_, here) = resolved-here t root_1 r real in
    let (_, same) = dir-ok (is_dir t r) r root found in
    subst (λ x. in_workspace x outside ≡ false) (here ∙ same) refl
