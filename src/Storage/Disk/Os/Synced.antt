-- ===== src/Storage/Disk/Os/Synced.antt =====
-- What an fsync that returned no error has done, and what a sequence of calls that did went through.
use parallax_kv.Base.{
  ◌≡◌, refl, sym, ap, ◌∙◌, Option, none, some, List, [], ◌∷◌, Bytes, Outcome, ok, err, length,
  bytes_eq,
}
use parallax_kv.Base.GoMap
use parallax_kv.Base.GoMap.{GoMap}
use parallax_kv.Storage.Disk.{DiskError}
use parallax_kv.Storage.Disk.Os.{
  File, Fault, works, fails, World, M, ◌>>=◌, resume, with_directory, with_faults, answer, call,
  call_faulty, changing, nothing, sync,
}

-- A chain that returned a value has gone through its parts.
pub >>=-eq-ok {ℓ κ} :
    {A : Type ℓ} {B : Type κ} (m : M A) (f : A → M B) (w : World) {b : B} {w' : World}
    → (m >>= f) w ≡ (ok b, w')
    → (a : A) × (u : World) × (m w ≡ (ok a, u)) × (f a u ≡ (ok b, w'))
>>=-eq-ok {A} {B} m f w {b} {w'} h = of_result (m w) refl h
  where
    of_result :
        (p : Outcome DiskError A × World)
        → m w ≡ p
        → resume f p ≡ (ok b, w')
        → (a : A) × (u : World) × (m w ≡ (ok a, u)) × (f a u ≡ (ok b, w'))
    of_result (ok a, u) q e = (a, u, q, e)
    of_result (err x, u) q e = cc

-- The file is there, and an fsync covers all that it holds.
abbrev pub AllSynced : Bytes → World → Type 0
AllSynced name w =
    (f : File) × (GoMap.get w.os.directory name ≡ some f) × (f.synced ≡ length f.content)

abbrev covered : File → File
covered f = record f { synced = length f.content }

abbrev found : World → Bytes → Option File → Option (Unit {0} × GoMap Bytes File)
found w name none = none
found w name (some f) = some (tt, GoMap.put w.os.directory name (covered f))

answer_synced :
    (name : Bytes) (w w' : World) (o : Option File)
    → GoMap.get w.os.directory name ≡ o
    → answer {A = Unit {0}} (found w name o) w ≡ (ok tt, w')
    → (w'.storage ≡ w.storage) × AllSynced name w'
unfolding answer
answer_synced name w w' none q e = cc
answer_synced name w w' (some f) q e =
    let same : with_directory w (GoMap.put w.os.directory name (covered f)) ≡ w' =
      ap (λ p. p.1) e in
    (
      ap (λ (x : World). x.storage) (sym same),
      (
        covered f,
        ap (λ (x : World). GoMap.get x.os.directory name) (sym same)
            ∙ GoMap.get-put_self w.os.directory name (covered f),
        refl,
      ),
    )

call_synced :
    (name : Bytes) (fs : List Fault) (w w' : World)
    → call_faulty fs (changing name covered) nothing w ≡ (ok tt, w')
    → (w'.storage ≡ w.storage) × AllSynced name w'
unfolding call_faulty
call_synced name [] w w' e = answer_synced name w w' (GoMap.get w.os.directory name) refl e
call_synced name (works ∷ fs) w w' e =
    answer_synced name (with_faults w fs) w' (GoMap.get w.os.directory name) refl e
call_synced name (fails n ∷ fs) w w' e = cc

pub sync-AllSynced :
    (name : Bytes) (w w' : World)
    → sync name w ≡ (ok tt, w')
    → (w'.storage ≡ w.storage) × AllSynced name w'
unfolding sync call
sync-AllSynced name w w' e = call_synced name w.os.faults w w' e
