-- ===== src/Drivers/Docker/Rollback.antt =====
-- What a creation that fails in src/forge/drivers/docker_driver.py leaves behind.
use xforgebox.Base.{
  ℕ, String, true, Option, none, some, [], ◌∷◌, string_eq, ==_refl, ◌≡◌, refl, ap, ◌∙◌, arith, ◌⊎◌,
  inl, inr,
}
use xforgebox.Base.Counting.{discard, count}
use xforgebox.Errors.{ok, err, Exception, docker_error}
use xforgebox.Models.{EnvironmentHandle}
use xforgebox.Drivers.Docker.Containers.{
  Reply, done, refused, raised, Containers, is_caught, ensure_image, Creation, roll_back, install,
  create_environment,
}

discard-fresh : (id : String) (cs : Containers) → count id cs ≡ 0 → discard id cs ≡ cs
unfolding discard count
discard-fresh id [] h = refl
discard-fresh id (c ∷ cs) h = ground (arith, discard-fresh id cs)

reply-cases :
    (r : Reply) → (r ≡ done) ⊎ ((s : ℕ) × (r ≡ refused s)) ⊎ ((e : Exception) × (r ≡ raised e))
reply-cases done = inl refl
reply-cases (refused s) = inr (inl (s, refl))
reply-cases (raised e) = inr (inr (e, refl))

-- The exception of a reply.
abbrev error_of : Reply → Option Exception
error_of done = none
error_of (refused s) = some docker_error
error_of (raised e) = some e

roll_back-removes :
    (c : Creation) (e : Exception) (id : String) (cs : Containers)
    → is_caught e ≡ true
    → (c.kill ≡ done) ⊎ ((s : ℕ) × (c.kill ≡ refused s))
    → c.delete ≡ done
    → count id cs ≡ 0
    → roll_back c e id (id ∷ cs) ≡ (err e, cs)
unfolding roll_back discard
roll_back-removes c e id cs caught (inl killed) gone fresh =
    rw (roll_back, caught, killed, gone, ==_refl id)
      (ap (λ x. (err e, x)) (discard-fresh id cs fresh))
roll_back-removes c e id cs caught (inr (s, killed)) gone fresh =
    rw (roll_back, caught, killed, gone, ==_refl id)
      (ap (λ x. (err e, x)) (discard-fresh id cs fresh))

install-fails :
    (c : Creation) (env : EnvironmentHandle) (cs : Containers) (e : Exception)
    → error_of c.put_archive ≡ some e
    → install c env cs ≡ roll_back c e env.id cs
unfolding install
install-fails c env cs e failed = elim (reply-cases c.put_archive) [
  | inl k ↦ ground (arith, k)
  | inr (inl (s, k)) ↦
      let same : docker_error ≡ e = ground (arith, k) in
      rw (install, k) (ap (λ x. roll_back c x env.id cs) same)
  | inr (inr (x, k)) ↦
      let same : x ≡ e = ground (arith, k) in
      rw (install, k) (ap (λ x. roll_back c x env.id cs) same)
]

-- An environment in which `forge-run` could not be installed (no cancellation) is removed, if the
-- daemon removes it: the containers are what they were, and the exception goes on.
pub failed_install_removed :
    (c : Creation) (label_prefix image name id : String) (cs : Containers) (e : Exception)
    → ensure_image c.inspect c.pull ≡ ok tt
    → c.create ≡ done
    → c.start ≡ done
    → error_of c.put_archive ≡ some e
    → is_caught e ≡ true
    → (c.kill ≡ done) ⊎ ((s : ℕ) × (c.kill ≡ refused s))
    → c.delete ≡ done
    → count id cs ≡ 0
    → create_environment c label_prefix image name id cs ≡ (err e, cs)
unfolding create_environment install roll_back
failed_install_removed c label_prefix image name id cs e i cr st failed caught killed gone fresh =
    rw (create_environment, i, cr, st)
      (install-fails c _ (id ∷ cs) e failed ∙ roll_back-removes c e id cs caught killed gone fresh)
