-- ===== src/Storage/Disk/Os.antt =====
-- The calls of package os (Go's standard library) that storage/disk makes, on one directory of
-- files. Any call may fail: the environment chooses by a list of faults, one for each call to
-- come, and the calls behind the end of the list work. A failed write has put some of its bytes
-- into the file. A close whose error the code ignores is left out. A crash may cut a file anywhere behind the bytes that its last fsync covered,
-- and a name that is not covered by an fsync of the directory may be lost or come back, so what holds
-- of a crash is stated only of worlds in which every name is covered.
pub mod Calm
pub mod Apart
pub mod Synced
pub mod Named
use parallax_kv.Base.{
  ℕ, ◌≤◌, Bool, Option, none, some, List, [], ◌∷◌, ◌++◌, Bytes, Outcome, ok, err, length, take, min,
  ◌==◌, bytes_eq,
}
use parallax_kv.Base.GoMap
use parallax_kv.Base.GoMap.{GoMap}
use parallax_kv.Storage.Disk.{Storage, DiskError, io_error}

pub record File : Type 0 where
  pub content : Bytes
  -- how many bytes of it survive a crash
  pub synced : ℕ

pub data Fault : Type 0 where
  works : Fault
  fails : ℕ → Fault

pub record Os : Type 0 where
  pub directory : GoMap Bytes File
  pub faults : List Fault
  -- the names that were made, removed or moved since the last fsync of the directory
  pub unsynced : List Bytes

pub record World : Type 0 where
  pub storage : Storage
  pub os : Os

-- A method of Storage: its result or error, and what it has changed in either case.
abbrev pub M {ℓ} : Type ℓ → Type ℓ
M A = World → Outcome DiskError A × World

module _ {ℓ κ} {A : Type ℓ} {B : Type κ} where
  -- the rest of the function, if `err == nil`
  abbrev pub resume : (A → M B) → Outcome DiskError A × World → Outcome DiskError B × World
  resume f (ok a, w) = f a w
  resume f (err e, w) = (err e, w)

  infixl 5 ◌>>=◌ ◌>>◌
  abbrev pub ◌>>=◌ : M A → (A → M B) → M B
  ◌>>=◌ m f w = resume f (m w)

  abbrev pub ◌>>◌ : M A → M B → M B
  m >> k = m >>= λ _. k

abbrev pub pure {ℓ} : {A : Type ℓ} → A → M A
pure a w = (ok a, w)

abbrev pub fail {ℓ} : {A : Type ℓ} → DiskError → M A
fail e w = (err e, w)

abbrev pub get : M Storage
get w = (ok w.storage, w)

abbrev pub put : Storage → M (Unit {0})
put s w = (ok tt, record w { storage = s })

-- what a call does to the directory if it works, `none` for a file that is not there
abbrev Call {ℓ} : Type ℓ → Type ℓ
Call A = GoMap Bytes File → Option (A × GoMap Bytes File)

abbrev with_directory : World → GoMap Bytes File → World
with_directory w d = record w { os = record w.os { directory = d } }

abbrev with_faults : World → List Fault → World
with_faults w fs = record w { os = record w.os { faults = fs } }

answer {ℓ} : {A : Type ℓ} → Option (A × GoMap Bytes File) → M A
answer none w = (err io_error, w)
answer (some (a, d)) w = (ok a, with_directory w d)

-- `partly n` is what a call that fails has done.
call_faulty {ℓ} : {A : Type ℓ} → List Fault → Call A → (ℕ → Call (Unit {0})) → M A
unfolding answer
call_faulty [] f partly w = answer (f w.os.directory) w
call_faulty (works ∷ fs) f partly w = answer (f w.os.directory) (with_faults w fs)
call_faulty (fails n ∷ fs) f partly w =
    (err io_error, (answer (partly n w.os.directory) (with_faults w fs)).1)

abbrev nothing : ℕ → Call (Unit {0})
nothing n d = none

call {ℓ} : {A : Type ℓ} → Call A → M A
unfolding call_faulty
call f w = call_faulty w.os.faults f nothing w

-- a call that changes no file
unfoldable pub no_op : M (Unit {0})
unfolding call
no_op = call λ d. some (tt, d)

-- the names of the files; there are no directories in it
unfoldable pub read_dir : M (List Bytes)
unfolding call
read_dir = call λ d. some (GoMap.keys d, d)

-- a call that looks at one file, which is there
abbrev looking {ℓ} : {A : Type ℓ} → Bytes → (File → A) → Call A
looking name f d = elim (GoMap.get d name) [ none ↦ none | some file ↦ some (f file, d) ]

-- a call that changes one file, which is there
abbrev changing : Bytes → (File → File) → Call (Unit {0})
changing name f d = elim (GoMap.get d name) [
  | none ↦ none
  | some file ↦ some (tt, GoMap.put d name (f file))
]

unfoldable pub read_file : Bytes → M Bytes
unfolding call
read_file name = call (looking name λ f. f.content)

unfoldable pub stat_size : Bytes → M ℕ
unfolding call
stat_size name = call (looking name λ f. length f.content)

-- os.OpenFile without os.O_CREATE
unfoldable pub open_file : Bytes → M (Unit {0})
unfolding call
open_file name = call (looking name λ f. tt)

abbrev pub empty_file : File
empty_file = record { content = []; synced = 0 }

abbrev unsettled : Bytes → World → World
unsettled name w = record w { os = record w.os { unsynced = name ∷ w.os.unsynced } }

marked : Bytes → Outcome DiskError (Unit {0}) × World → Outcome DiskError (Unit {0}) × World
marked name (ok u, w) = (ok u, unsettled name w)
marked name (err e, w) = (err e, w)

-- a call that changes which file has the name, if it works
naming : Bytes → M (Unit {0}) → M (Unit {0})
unfolding marked
naming name m w = marked name (m w)

-- os.OpenFile with os.O_CREATE: a file that is there stays
unfoldable pub create : Bytes → M (Unit {0})
unfolding call naming
create name = naming name (
    call λ d. elim (GoMap.get d name) [
      | none ↦ some (tt, GoMap.put d name empty_file)
      | some f ↦ some (tt, d)
    ])

-- with os.O_CREATE and os.O_TRUNC
unfoldable pub create_empty : Bytes → M (Unit {0})
unfolding call naming
create_empty name = naming name (call λ d. some (tt, GoMap.put d name empty_file))

abbrev appended : Bytes → File → File
appended bytes f = record f { content = f.content ++ bytes }

-- f.Write, at the end of the file
unfoldable pub write : Bytes → Bytes → M (Unit {0})
unfolding call_faulty
write name bytes w =
    call_faulty w.os.faults (changing name (appended bytes))
      (λ n. changing name (appended (take n bytes))) w

-- f.Truncate to a size within the file
unfoldable pub truncate : Bytes → ℕ → M (Unit {0})
unfolding call
truncate name size =
    call (changing name λ f. record { content = take size f.content; synced = min f.synced size })

unfoldable pub sync : Bytes → M (Unit {0})
unfolding call
sync name = call (changing name λ f. record f { synced = length f.content })

unfoldable pub remove : Bytes → M (Unit {0})
unfolding call naming
remove name =
    naming name
      (call λ d. elim (GoMap.get d name) [ none ↦ none | some f ↦ some (tt, GoMap.delete d name) ])

unfoldable pub rename : Bytes → Bytes → M (Unit {0})
unfolding call naming
rename from to = naming from (
    naming to (
      call λ d. elim (GoMap.get d from) [
        | none ↦ none
        | some f ↦ some (tt, GoMap.put (GoMap.delete d from) to f)
      ]))

-- a call whose error the code ignores
unfoldable pub ignoring : M (Unit {0}) → M (Unit {0})
ignoring m w = (ok tt, (m w).1)

settled : Outcome DiskError (Unit {0}) × World → Outcome DiskError (Unit {0}) × World
settled (ok u, w) = (ok u, record w { os = record w.os { unsynced = [] } })
settled (err e, w) = (err e, w)

-- d.Sync, of the directory
unfoldable pub sync_names : M (Unit {0})
unfolding no_op settled
sync_names w = settled (no_op w)

-- open and fsync of the directory
unfoldable pub fsync_dir : M (Unit {0})
unfolding sync_names
fsync_dir = no_op >> sync_names
