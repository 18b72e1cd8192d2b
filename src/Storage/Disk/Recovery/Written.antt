-- ===== src/Storage/Disk/Recovery/Written.antt =====
-- storage/disk/wal.go: the directory of a log behind a write to its active segment, and behind a
-- rotation.
use parallax_kv.Base.{
  ℕ, ◌+◌, ◌^◌, ◌<◌, ◌≡◌, ◌≢◌, refl, sym, ap, ◌∙◌, subst, none, some, List, [], ◌∷◌, ◌++◌,
  append_assoc, Bytes, arith, bytes_eq, sort_by, bytes_leb,
}
use parallax_kv.Base.GoMap
use parallax_kv.Storage.Disk.Os.{File, empty_file}
use parallax_kv.Storage.Disk.Os.Calm.{Directory, keys-put_held, keys-put_fresh}
use parallax_kv.Storage.Disk.Segments.{has_prefix, segment_name, is_segment, select}
use parallax_kv.Storage.Disk.Segments.Names.{
  AllBelow, select-append, sort-append_last, is_segment-segment_name, segment_name_ne,
  bytes_leb-segment_name,
}
use parallax_kv.Storage.Disk.Snapshots.{is_snapshot}
use parallax_kv.Storage.Disk.Records.Redo.{Record, log_bytes}
use parallax_kv.Storage.Disk.Recovery.{
  Segments, names, records, AllHeld, AllApart, IsLog, durable_file,
}

-- A file that is there and one that is not have different names.
held_apart :
    (d : Directory) (n m : Bytes) {f : File} → GoMap.get d n ≡ some f → GoMap.get d m ≡ none → n ≢ m
held_apart d n m h k e = cc (ap (GoMap.get d) e)

pub AllHeld-put :
    (d : Directory) (n : Bytes) (f : File) (segs : Segments)
    → AllApart n segs
    → AllHeld d segs
    → AllHeld (GoMap.put d n f) segs
AllHeld-put d n f [] a h = tt
AllHeld-put d n f ((m, rs) ∷ segs) (ne, a) ((g, found, bytes), h) =
    ((g, GoMap.get-put_ne d n f m (λ e. ne (sym e)) ∙ found, bytes), AllHeld-put d n f segs a h)

-- The log with other records in its active segment.
pub put_active-IsLog :
    (d : Directory) (older : Segments) (seq : ℕ) (safe new_safe : List Record)
    → IsLog d older seq safe
    → IsLog (GoMap.put d (segment_name seq) (durable_file (log_bytes new_safe))) older seq new_safe
put_active-IsLog d older seq safe new_safe h =
    let n = segment_name seq in
    let f = durable_file (log_bytes new_safe) in
    let same : GoMap.keys (GoMap.put d n f) ≡ GoMap.keys d = keys-put_held d n f _ h.active in
    record {
      listed = ap (λ ks. sort_by bytes_leb (select is_segment ks)) same ∙ h.listed;
      held = AllHeld-put d n f older h.apart h.held;
      active = GoMap.get-put_self d n f;
      apart = h.apart;
      fresh = λ k above word.
          let free = h.fresh k above word in
          record {
            absent =
                GoMap.get-put_ne d n f (segment_name k)
                  (held_apart d n (segment_name k) h.active free.absent)
                ∙ free.absent;
            above =
                subst (λ ks. AllBelow (segment_name k) (select is_segment ks)) (sym same)
                  free.above;
          };
      word = h.word;
      no_snapshots = ap (select is_snapshot) same ∙ h.no_snapshots;
    }

held_AllApart :
    (d : Directory) (n : Bytes) (segs : Segments)
    → GoMap.get d n ≡ none
    → AllHeld d segs
    → AllApart n segs
held_AllApart d n [] free h = tt
held_AllApart d n ((m, rs) ∷ segs) free ((g, found, bytes), h) =
    (held_apart d m n found free, held_AllApart d n segs free h)

names-append : (xs ys : Segments) → names (xs ++ ys) ≡ names xs ++ names ys
names-append [] ys = refl
names-append ((n, rs) ∷ xs) ys = ap (λ l. n ∷ l) (names-append xs ys)

pub records-append : (xs ys : Segments) → records (xs ++ ys) ≡ records xs ++ records ys
records-append [] ys = refl
records-append ((n, rs) ∷ xs) ys =
    ap (λ l. rs ++ l) (records-append xs ys) ∙ sym (append_assoc rs (records xs) (records ys))

AllHeld-append :
    (d : Directory) (xs ys : Segments) → AllHeld d xs → AllHeld d ys → AllHeld d (xs ++ ys)
AllHeld-append d [] ys h k = k
AllHeld-append d ((n, rs) ∷ xs) ys (a, h) k = (a, AllHeld-append d xs ys h k)

AllApart-append :
    (m : Bytes) (xs ys : Segments) → AllApart m xs → AllApart m ys → AllApart m (xs ++ ys)
AllApart-append m [] ys h k = k
AllApart-append m ((n, rs) ∷ xs) ys (a, h) k = (a, AllApart-append m xs ys h k)

AllBelow-append :
    (m : Bytes) (xs ys : List Bytes) → AllBelow m xs → AllBelow m ys → AllBelow m (xs ++ ys)
AllBelow-append m [] ys h k = k
AllBelow-append m (n ∷ xs) ys (a, h) k = (a, AllBelow-append m xs ys h k)

pub select_one : (k : ℕ) → select is_segment (segment_name k ∷ []) ≡ segment_name k ∷ []
unfolding select
select_one k = rw (is_segment-segment_name k) refl

pub not_snapshot : (k : ℕ) → select is_snapshot (segment_name k ∷ []) ≡ []
unfolding select is_snapshot has_prefix segment_name
not_snapshot k = refl

-- the directory with an empty segment behind all others
abbrev pub with_segment : Directory → ℕ → Directory
with_segment d k = GoMap.put d (segment_name k) empty_file

-- The log behind a rotation: the active segment is full, and a new one is empty.
pub with_segment-IsLog :
    (d : Directory) (older : Segments) (seq : ℕ) (safe : List Record)
    → IsLog d older seq safe
    → seq + 1 < 2 ^ 64
    → IsLog (with_segment d (seq + 1)) (older ++ (segment_name seq, safe) ∷ []) (seq + 1) []
unfolding log_bytes
with_segment-IsLog d older seq safe h word =
    let n = segment_name (seq + 1) in
    let free = h.fresh (seq + 1) (omega arith) word in
    let keys = keys-put_fresh d n empty_file free.absent in
    let full = older ++ (segment_name seq, safe) ∷ [] in
    let held : AllHeld d full =
      AllHeld-append d older ((segment_name seq, safe) ∷ []) h.held ((_, h.active, refl), tt) in
    let apart = held_AllApart d n full free.absent held in
    let segs : select is_segment (GoMap.keys (with_segment d (seq + 1)))
        ≡ select is_segment (GoMap.keys d) ++ n ∷ [] =
      ap (select is_segment) keys
      ∙ select-append is_segment (GoMap.keys d) (n ∷ [])
      ∙ ap (λ l. select is_segment (GoMap.keys d) ++ l) (select_one (seq + 1)) in
    record {
      listed =
          ap (sort_by bytes_leb) segs
          ∙ sort-append_last n (select is_segment (GoMap.keys d)) free.above
          ∙ ap (λ l. l ++ n ∷ [])
              (h.listed ∙ sym (names-append older ((segment_name seq, safe) ∷ [])));
      held = AllHeld-put d n empty_file full apart held;
      active = GoMap.get-put_self d n empty_file;
      apart = apart;
      fresh = λ k above bound.
          let next = h.fresh k (omega arith) bound in
          let ne : n ≢ segment_name k = λ e. segment_name_ne (seq + 1) k word bound above e in
          record {
            absent = GoMap.get-put_ne d n empty_file (segment_name k) ne ∙ next.absent;
            above = subst (AllBelow (segment_name k)) (sym segs) (
                AllBelow-append (segment_name k) (select is_segment (GoMap.keys d)) (n ∷ [])
                  next.above (bytes_leb-segment_name (seq + 1) k word bound ∙ ground arith, tt));
          };
      word = word;
      no_snapshots =
          ap (select is_snapshot) keys
          ∙ select-append is_snapshot (GoMap.keys d) (n ∷ [])
          ∙ ap (λ l. l ++ select is_snapshot (n ∷ [])) h.no_snapshots
          ∙ not_snapshot (seq + 1);
    }
