-- ===== src/Storage/Disk/Os/Named.antt =====
-- Which calls leave names that no fsync of the directory covers.
use parallax_kv.Base.{
  ℕ, ◌≡◌, refl, sym, ap, ◌∙◌, Bool, true, false, Option, none, some, List, [], ◌∷◌, Bytes, Outcome,
  ok, err, if◌then◌else◌,
}
use parallax_kv.Base.GoMap.{GoMap}
use parallax_kv.Storage.Disk.{Storage, DiskError}
use parallax_kv.Storage.Disk.Os.{
  File, Fault, works, fails, World, M, Call, ◌>>=◌, pure, fail, get, put, with_faults, nothing,
  answer, call, call_faulty, write, sync, no_op, settled, sync_names, fsync_dir,
}
use parallax_kv.Storage.Disk.Os.Synced.{>>=-eq-ok}

-- Where all names are covered before, they are when it has worked.
pub record Settles {ℓ} {A : Type ℓ} (m : M A) : Type ℓ where
  pub at : (w w' : World) (a : A) → m w ≡ (ok a, w') → w.os.unsynced ≡ [] → w'.os.unsynced ≡ []

-- All names are covered when it has worked.
pub record Covers {ℓ} {A : Type ℓ} (m : M A) : Type ℓ where
  pub at : (w w' : World) (a : A) → m w ≡ (ok a, w') → w'.os.unsynced ≡ []

pub Covers-Settles {ℓ} : {A : Type ℓ} (m : M A) → Covers m → Settles m
Covers-Settles m h = record { at = λ w w' a e names. h.at w w' a e }

module _ {ℓ κ} {A : Type ℓ} {B : Type κ} where
  pub bind-Settles :
      (m : M A) (f : A → M B) → Settles m → ((a : A) → Settles (f a)) → Settles (m >>= f)
  bind-Settles m f hm hf = record {
    at = λ w w' b e names.
        let (a, u, first, rest) = >>=-eq-ok m f w e in
        (hf a).at u w' b rest (hm.at w u a first names);
  }

  pub bind-Covers : (m : M A) (f : A → M B) → ((a : A) → Covers (f a)) → Covers (m >>= f)
  bind-Covers m f hf = record {
    at = λ w w' b e. let (a, u, first, rest) = >>=-eq-ok m f w e in (hf a).at u w' b rest;
  }

pub if-Settles {ℓ} :
    {A : Type ℓ} (b : Bool) (m n : M A) → Settles m → Settles n → Settles (if b then m else n)
if-Settles true m n hm hn = hm
if-Settles false m n hm hn = hn

pub pure-Settles {ℓ} : {A : Type ℓ} (a : A) → Settles (pure a)
pure-Settles a = record { at = λ w w' b e names. ap (λ p. p.1.os.unsynced) (sym e) ∙ names }

pub get-Settles : Settles get
get-Settles = record { at = λ w w' b e names. ap (λ p. p.1.os.unsynced) (sym e) ∙ names }

pub put-Settles : (s : Storage) → Settles (put s)
put-Settles s = record { at = λ w w' b e names. ap (λ p. p.1.os.unsynced) (sym e) ∙ names }

pub fail-Settles {ℓ} : {A : Type ℓ} (x : DiskError) → Settles {A = A} (fail x)
fail-Settles x = record { at = λ w w' b e names. cc }

answer-names {ℓ} :
    {A : Type ℓ} (o : Option (A × GoMap Bytes File)) (w : World)
    → (answer o w).1.os.unsynced ≡ w.os.unsynced
unfolding answer
answer-names none w = refl
answer-names (some (a, d)) w = refl

call_faulty-names {ℓ} :
    {A : Type ℓ} (faults : List Fault) (f : Call A) (partly : ℕ → Call (Unit {0})) (w : World)
    → (call_faulty faults f partly w).1.os.unsynced ≡ w.os.unsynced
unfolding call_faulty
call_faulty-names [] f partly w = answer-names (f w.os.directory) w
call_faulty-names (works ∷ fs) f partly w = answer-names (f w.os.directory) (with_faults w fs)
call_faulty-names (fails n ∷ fs) f partly w =
    answer-names (partly n w.os.directory) (with_faults w fs)

-- a call that leaves the names alone
quiet-Settles {ℓ} :
    {A : Type ℓ} (m : M A) → ((w : World) → (m w).1.os.unsynced ≡ w.os.unsynced) → Settles m
quiet-Settles m h = record {
  at = λ w w' a e names. ap (λ p. p.1.os.unsynced) (sym e) ∙ h w ∙ names;
}

pub no_op-Settles : Settles no_op
unfolding no_op call
no_op-Settles = quiet-Settles _ (λ w. call_faulty-names w.os.faults _ nothing w)

pub sync-Settles : (n : Bytes) → Settles (sync n)
unfolding sync call
sync-Settles n = quiet-Settles _ (λ w. call_faulty-names w.os.faults _ nothing w)

pub write-Settles : (n bytes : Bytes) → Settles (write n bytes)
unfolding write
write-Settles n bytes = quiet-Settles _ (λ w. call_faulty-names w.os.faults _ _ w)

sync_names-Covers : Covers sync_names
unfolding sync_names settled
sync_names-Covers = record { at = λ w w' a e. of_result (no_op w) w' e }
  where
    of_result :
        (p : Outcome DiskError (Unit {0}) × World) (w' : World)
        → settled p ≡ (ok tt, w')
        → w'.os.unsynced ≡ []
    of_result (ok u, v) w' e = ap (λ q. q.1.os.unsynced) (sym e)
    of_result (err x, v) w' e = cc

pub fsync_dir-Covers : Covers fsync_dir
unfolding fsync_dir
fsync_dir-Covers = bind-Covers no_op (λ _. sync_names) (λ u. sync_names-Covers)
