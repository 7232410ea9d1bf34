-- ===== src/Services/World.antt =====
-- What the services share: the metastore, the workspace directories and the event bus. An
-- operation takes the world and returns its result, or the exception raised, and the world after.
use xforgebox.Base.{◌≡◌, refl, arith}
use xforgebox.Errors.{Result, ok, err, Exception, cancelled_error}
use xforgebox.Models.{ForgeEvent}
use xforgebox.Events.Bus.{EventBus, publish}
use xforgebox.Storage.MetaStore.{MetaStore}
use xforgebox.Storage.WorkspaceStore.{Disk}

pub record World : Type 0 where
  pub meta : MetaStore
  pub disk : Disk
  pub bus : EventBus

abbrev pub Over : Type 0 → Type 0 → Type 0
Over S A = S → Result A × S

abbrev pub Action : Type 0 → Type 0
Action A = Over World A

-- The statement after an `await`: it runs if nothing was raised.
abbrev pub next : {S A B : Type 0} → Result A × S → (A → Over S B) → Result B × S
next (ok a, w) k = k a w
next (err e, w) k = (err e, w)

infixl 5 ◌▷◌
abbrev pub ◌▷◌ : {S A B : Type 0} → Over S A → (A → Over S B) → Over S B
(m ▷ k) w = next (m w) k

abbrev pub returns : {S A : Type 0} → A → Over S A
returns a w = (ok a, w)

abbrev pub raises : {S A : Type 0} → Exception → Over S A
raises e w = (err e, w)

-- A call of the metastore, and one of the workspace store.
abbrev pub on_meta : {A : Type 0} → (MetaStore → Result A × MetaStore) → Action A
on_meta call w = let out = call w.meta in (out.0, record w { meta = out.1 })

abbrev pub on_disk : {A : Type 0} → (Disk → Result A × Disk) → Action A
on_disk call w = let out = call w.disk in (out.0, record w { disk = out.1 })

-- How an `await` comes out: the call is made and its result returned, or the task is cancelled before
-- the call has had its effect, or when it has had it.
pub data Await : Type 0 where
  completes cancelled_before cancelled_after : Await

abbrev pub awaited : {A : Type 0} → Await → Action A → Action A
awaited completes call w = call w
awaited cancelled_before call w = (err cancelled_error, w)
awaited cancelled_after call w = (err cancelled_error, (call w).1)

abbrev pub publishes : ForgeEvent → Action (Unit {0})
publishes ev w = (ok tt, record w { bus = publish ev w.bus })

-- A sequence that ends without an exception has taken its first step without one.
pub next-ok :
    {S A B : Type 0} (out : Result A × S) (k : A → Over S B) (b : B)
    → (next out k).0 ≡ ok b
    → (a : A) × (w1 : S) × (out ≡ (ok a, w1)) × (next out k ≡ k a w1)
next-ok (ok a, w1) k b h = (a, w1, refl, refl)
next-ok (err e, w1) k b h = ground arith

-- What holds of the state after the first step, and after the second one, holds at the end.
pub next-keeps :
    {S A B : Type 0} (P : S → Type 0) (out : Result A × S) (k : A → Over S B)
    → P out.1
    → ((a : A) → P (k a out.1).1)
    → P (next out k).1
next-keeps P (ok a, s) k h g = g a
next-keeps P (err e, s) k h g = h
