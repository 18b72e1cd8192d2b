-- ===== src/Storage/Disk/Wal/Fuel.antt =====
-- storage/disk/wal.go, replaySegment: the loop ends.
use parallax_kv.Base.{
  ℕ, zero, suc, ◌+◌, ◌<◌, ◌≤◌, ◌≡◌, refl, [], ◌∷◌, Bytes, Outcome, ok, err, arith, length,
  length-drop, drop,
}
use parallax_kv.Storage.Disk.{Storage, DiskError}
use parallax_kv.Storage.Disk.Framing.{read_frame}
use parallax_kv.Storage.Disk.Framing.Bounds.{IsFrameOf, read_frame-IsFrameOf}
use parallax_kv.Storage.Disk.Records.{apply_record}
use parallax_kv.Storage.Disk.Wal.{Round, next, stop, applied, round, replay_from}

applied-next :
    (o : Outcome DiskError Storage) (k : ℕ) {s' : Storage} {n : ℕ} → applied o k ≡ next s' n → k ≡ n
unfolding applied
applied-next (ok t) k h = cc
applied-next (err e) k h = cc

abbrev continued : Storage → Outcome DiskError (Bytes × ℕ) → Round
continued s o = elim o [ ok (payload, n) ↦ applied (apply_record s payload) n | err e ↦ stop ]

continued_consumes :
    (s s' : Storage) (rest : Bytes) (n : ℕ) (o : Outcome DiskError (Bytes × ℕ))
    → ((p : Bytes) (k : ℕ) → o ≡ ok (p, k) → IsFrameOf rest p k)
    → continued s o ≡ next s' n
    → (0 < n) × (n ≤ length rest)
continued_consumes s s' rest n (err e) f h = cc
continued_consumes s s' rest n (ok (p, k)) f h =
    let frame = f p k refl in
    let same = applied-next (apply_record s p) k h in
    (omega (arith, frame.size), omega (arith, frame.within))

-- A round that goes on has consumed bytes of the segment.
round_consumes :
    (s s' : Storage) (rest : Bytes) (n : ℕ) → round s rest ≡ next s' n → (0 < n) × (n ≤ length rest)
unfolding round
round_consumes s s' rest n h =
    continued_consumes s s' rest n (read_frame rest) (read_frame-IsFrameOf rest) h

-- The number of unread bytes is fuel enough for the loop over a segment: more fuel does not
-- change what it leaves, whatever the segment holds.
pub replay_enough :
    (fuel more : ℕ) (s : Storage) (off : ℕ) (rest : Bytes)
    → length rest ≤ fuel
    → length rest ≤ more
    → replay_from fuel s off rest ≡ replay_from more s off rest
unfolding replay_from
replay_enough zero zero s off rest h k = refl
replay_enough fuel more s off [] h k = refl
replay_enough zero more s off (b ∷ rest) h k = absurd (omega arith)
replay_enough (suc fuel) zero s off (b ∷ rest) h k = absurd (omega arith)
replay_enough (suc fuel) (suc more) s off (b ∷ rest) h k =
    by_round (round s (b ∷ rest)) refl λ s' n e.
      let (some_bytes, within) = round_consumes s s' (b ∷ rest) n e in
      let shorter = length-drop n (b ∷ rest) in
      replay_enough fuel more s' (off + n) (drop n (b ∷ rest)) (omega arith) (omega arith)
  where
    by_round :
        (r : Round)
        → round s (b ∷ rest) ≡ r
        → ((s' : Storage) (n : ℕ)
            → round s (b ∷ rest) ≡ next s' n
            → replay_from fuel s' (off + n) (drop n (b ∷ rest))
              ≡ replay_from more s' (off + n) (drop n (b ∷ rest)))
        → replay_from (suc fuel) s off (b ∷ rest) ≡ replay_from (suc more) s off (b ∷ rest)
    by_round stop e later = rw (e, replay_from)
    by_round (next s' n) e later = rw (e, replay_from) (later s' n e)
