-- ===== src/Storage/Disk/Os/Apart.antt =====
-- The calls of package os do not touch the store, also when they fail.
use parallax_kv.Base.{◌≡◌, refl, ◌∙◌, Outcome, ok, err, Option, none, some, List, [], ◌∷◌, ℕ, Bytes}
use parallax_kv.Base.GoMap.{GoMap}
use parallax_kv.Storage.Disk.{DiskError}
use parallax_kv.Storage.Disk.Os.{
  File, Fault, works, fails, World, M, Call, with_faults, nothing, answer, call, call_faulty,
  marked, naming, settled, sync_names, create, create_empty, write, sync, remove, rename, no_op,
}

pub record IsApart {ℓ} {A : Type ℓ} (m : M A) : Type ℓ where
  pub at : (w : World) → (m w).1.storage ≡ w.storage

answer-IsApart {ℓ} :
    {A : Type ℓ} (o : Option (A × GoMap Bytes File)) (w : World)
    → (answer o w).1.storage ≡ w.storage
unfolding answer
answer-IsApart none w = refl
answer-IsApart (some (a, d)) w = refl

call_faulty-IsApart {ℓ} :
    {A : Type ℓ} (faults : List Fault) (f : Call A) (partly : ℕ → Call (Unit {0})) (w : World)
    → (call_faulty faults f partly w).1.storage ≡ w.storage
unfolding call_faulty
call_faulty-IsApart [] f partly w = answer-IsApart (f w.os.directory) w
call_faulty-IsApart (works ∷ fs) f partly w = answer-IsApart (f w.os.directory) (with_faults w fs)
call_faulty-IsApart (fails n ∷ fs) f partly w =
    answer-IsApart (partly n w.os.directory) (with_faults w fs)

call-IsApart {ℓ} : {A : Type ℓ} (f : Call A) → IsApart (call f)
unfolding call
call-IsApart f = record { at = λ w. call_faulty-IsApart w.os.faults f nothing w }

naming-IsApart : (name : Bytes) (m : M (Unit {0})) → IsApart m → IsApart (naming name m)
unfolding naming marked
naming-IsApart name m h = record { at = λ w. marked-storage (m w) ∙ h.at w }
  where
    marked-storage :
        (p : Outcome DiskError (Unit {0}) × World) → (marked name p).1.storage ≡ p.1.storage
    marked-storage (ok u, w) = refl
    marked-storage (err e, w) = refl

pub no_op-IsApart : IsApart no_op
unfolding no_op
no_op-IsApart = call-IsApart _

pub sync_names-IsApart : IsApart sync_names
unfolding sync_names settled
sync_names-IsApart = record { at = λ w. settled-storage (no_op w) ∙ no_op-IsApart.at w }
  where
    settled-storage :
        (p : Outcome DiskError (Unit {0}) × World) → (settled p).1.storage ≡ p.1.storage
    settled-storage (ok u, w) = refl
    settled-storage (err e, w) = refl

pub create-IsApart : (n : Bytes) → IsApart (create n)
unfolding create
create-IsApart n = naming-IsApart n _ (call-IsApart _)

pub create_empty-IsApart : (n : Bytes) → IsApart (create_empty n)
unfolding create_empty
create_empty-IsApart n = naming-IsApart n _ (call-IsApart _)

pub sync-IsApart : (n : Bytes) → IsApart (sync n)
unfolding sync
sync-IsApart n = call-IsApart _

pub remove-IsApart : (n : Bytes) → IsApart (remove n)
unfolding remove
remove-IsApart n = naming-IsApart n _ (call-IsApart _)

pub rename-IsApart : (from to : Bytes) → IsApart (rename from to)
unfolding rename
rename-IsApart from to = naming-IsApart from _ (naming-IsApart to _ (call-IsApart _))

pub write-IsApart : (n bytes : Bytes) → IsApart (write n bytes)
unfolding write
write-IsApart n bytes = record { at = λ w. call_faulty-IsApart w.os.faults _ _ w }
