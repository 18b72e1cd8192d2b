-- ===== src/Storage/Disk/Os/Calm.antt =====
-- The calls of package os when none of them fails, and directories as maps.
use parallax_kv.Base.{
  ℕ, ◌≡◌, refl, ap, none, some, List, [], ◌∷◌, ◌++◌, Bytes, ok, arith, length, take, min, Eq,
  bytes_eq,
}
use parallax_kv.Base.GoMap
use parallax_kv.Base.GoMap.{GoMap, map_laws}
use parallax_kv.Storage.Disk.{Storage}
use parallax_kv.Storage.Disk.Os.{
  File, World, M, ◌>>=◌, ◌>>◌, resume, answer, call, call_faulty, empty_file, read_dir, read_file,
  stat_size, open_file, marked, settled, naming, create, write, truncate, sync, no_op, sync_names,
  fsync_dir,
}

abbrev pub Directory : Type 0
Directory = GoMap Bytes File

-- A store whose calls all work, behind changes of these names that no fsync covers yet.
abbrev pub renamed : Storage → Directory → List Bytes → World
renamed s d names = record {
  storage = s;
  os = record { directory = d; faults = []; unsynced = names };
}

-- The state of a store whose calls all work, and all whose file names are on the disk.
abbrev pub calm : Storage → Directory → World
calm s d = renamed s d []

module _ (s : Storage) (d : Directory) where
  pub no_op-calm : no_op (calm s d) ≡ (ok tt, calm s d)
  unfolding no_op call call_faulty answer
  no_op-calm = refl

  pub fsync_dir-renamed : (ns : List Bytes) → fsync_dir (renamed s d ns) ≡ (ok tt, calm s d)
  unfolding fsync_dir sync_names no_op call call_faulty answer settled
  fsync_dir-renamed ns = refl

  pub read_dir-calm : read_dir (calm s d) ≡ (ok (GoMap.keys d), calm s d)
  unfolding read_dir call call_faulty answer
  read_dir-calm = refl

  pub create-calm :
      (n : Bytes)
      → GoMap.get d n ≡ none
      → create n (calm s d) ≡ (ok tt, renamed s (GoMap.put d n empty_file) (n ∷ []))
  unfolding create call call_faulty answer naming marked
  create-calm n h = rw (h, answer)

  module _ (n : Bytes) (f : File) (held : GoMap.get d n ≡ some f) where
    pub read_file-calm : read_file n (calm s d) ≡ (ok f.content, calm s d)
    unfolding read_file call call_faulty answer
    read_file-calm = rw (held, answer)

    pub stat_size-calm : stat_size n (calm s d) ≡ (ok (length f.content), calm s d)
    unfolding stat_size call call_faulty answer
    stat_size-calm = rw (held, answer)

    pub open_file-calm : open_file n (calm s d) ≡ (ok tt, calm s d)
    unfolding open_file call call_faulty answer
    open_file-calm = rw (held, answer)

    pub write-calm :
        (bytes : Bytes)
        → write n bytes (calm s d)
          ≡ (ok tt, calm s (GoMap.put d n (record f { content = f.content ++ bytes })))
    unfolding write call_faulty answer
    write-calm bytes = rw (held, answer)

    pub truncate-calm :
        (size : ℕ)
        → truncate n size (calm s d) ≡ (
          ok tt,
          calm s (
              GoMap.put d n (record { content = take size f.content; synced = min f.synced size })),
        )
    unfolding truncate call call_faulty answer
    truncate-calm size = rw (held, answer)

    pub sync-calm :
        sync n (calm s d) ≡ (ok tt, calm s (GoMap.put d n (record f { synced = length f.content })))
    unfolding sync call call_faulty answer
    sync-calm = rw (held, answer)

-- a statement that worked, and the rest
pub >>=-ok {ℓ κ} :
    {A : Type ℓ} {B : Type κ} (m : M A) (f : A → M B) {w w' : World} {a : A}
    → m w ≡ (ok a, w')
    → (m >>= f) w ≡ f a w'
>>=-ok m f h = ap (resume f) h

pub >>-ok {ℓ κ} :
    {A : Type ℓ} {B : Type κ} (m : M A) (k : M B) {w w' : World} {a : A}
    → m w ≡ (ok a, w')
    → (m >> k) w ≡ k w'
>>-ok m k h = >>=-ok m (λ _. k) h

module _ {ℓ κ} {K : Type ℓ} {V : Type κ} ⦃e : Eq K⦄ where
  pub put-put :
      (m : GoMap K V) (k : K) (v w : V) → GoMap.put (GoMap.put m k v) k w ≡ GoMap.put m k w
  unfolding GoMap.put
  put-put [] k v w = ground (arith, e.eqb_iff k k)
  put-put ((j, x) ∷ m) k v w = ground (arith, e.eqb_iff k k, put-put m k v w)

  -- The keys of a map after a change of a key that it has, and of one that it has not.
  pub keys-put_held :
      (m : GoMap K V) (k : K) (v w : V)
      → GoMap.get m k ≡ some w
      → GoMap.keys (GoMap.put m k v) ≡ GoMap.keys m
  unfolding GoMap.put GoMap.get
  keys-put_held [] k v w h = cc
  keys-put_held ((j, x) ∷ m) k v w h = ground (arith, e.eqb_iff j k, keys-put_held m k v w)

  pub keys-put_fresh :
      (m : GoMap K V) (k : K) (v : V)
      → GoMap.get m k ≡ none
      → GoMap.keys (GoMap.put m k v) ≡ GoMap.keys m ++ k ∷ []
  unfolding GoMap.put GoMap.get
  keys-put_fresh [] k v h = refl
  keys-put_fresh ((j, x) ∷ m) k v h = ground (arith, keys-put_fresh m k v)
