-- ===== src/Storage/Disk/Wal/Replay.antt =====
-- storage/disk/wal.go, replaySegment: what the replay of a log leaves, whole or cut anywhere.
use parallax_kv.Base.{
  ℕ, zero, suc, ◌+◌, ◌-◌, ◌<◌, ◌≤◌, ◌≡◌, refl, sym, ap, ◌∙◌, Option, none, some, List, [], ◌∷◌,
  ◌++◌, append_assoc, append-nil, Bytes, ok, ok-injective, and_then-eq-ok, arith, length,
  length-append, take, take-nil, take-append_within, take-append_beyond, take-append, length-take,
  subst, drop, drop-append, ltb, Bool-cases, inl, inr,
}
use parallax_kv.Storage.Disk.{Storage}
use parallax_kv.Storage.Disk.Framing.{frame}
use parallax_kv.Storage.Disk.Framing.RoundTrip.{read_frame-frame, read_frame_torn, length-frame}
use parallax_kv.Storage.Disk.Records.Redo.{
  Record, encode, IsSound, AllSound, redo, redo_all, log_bytes, apply_record-encode,
  encode-IsPayload, length-log_bytes, log_bytes-append, redo_all-split, AllSound-split,
}
use parallax_kv.Storage.Disk.Wal.{next, stop, applied, round, replay_from, replay}

-- One round reads one record, whatever follows it.
round_whole :
    (s s' : Storage) (r : Record) (rest : Bytes)
    → IsSound r
    → redo s r ≡ ok s'
    → round s (frame (encode r) ++ rest) ≡ next s' (length (frame (encode r)))
unfolding round applied
round_whole s s' r rest h done =
    rw (read_frame-frame (encode r) rest (encode-IsPayload r h), round)
      (rw (apply_record-encode s r h) (rw (done, applied)))

frame_starts : (p rest : Bytes) → (b : ℕ) × (bs : Bytes) × (frame p ++ rest ≡ b ∷ bs)
frame_starts p rest =
    nonempty (frame p ++ rest) (omega (arith, length-append (frame p) rest, length-frame p))
  where
    nonempty : (xs : Bytes) → 0 < length xs → (b : ℕ) × (bs : Bytes) × (xs ≡ b ∷ bs)
    nonempty [] h = absurd (omega arith)
    nonempty (b ∷ bs) h = (b, bs, refl)

-- one round of the loop, on bytes that are not the end
replay_from_next :
    (fuel : ℕ) (s s' : Storage) (off n : ℕ) (rest : Bytes)
    → 0 < length rest
    → round s rest ≡ next s' n
    → replay_from (suc fuel) s off rest ≡ replay_from fuel s' (off + n) (drop n rest)
unfolding replay_from
replay_from_next fuel s s' off n [] h r = absurd (omega arith)
replay_from_next fuel s s' off n (b ∷ rest) h r = rw (r, replay_from)

replay_from_stop :
    (fuel : ℕ) (s : Storage) (off : ℕ) (rest : Bytes)
    → 0 < length rest
    → round s rest ≡ stop
    → replay_from (suc fuel) s off rest ≡ record { mirror = s; torn = some off }
unfolding replay_from
replay_from_stop fuel s off [] h r = absurd (omega arith)
replay_from_stop fuel s off (b ∷ rest) h r = rw (r, replay_from)

replay_from_done :
    (fuel : ℕ) (s : Storage) (off : ℕ)
    → replay_from fuel s off [] ≡ record { mirror = s; torn = none }
unfolding replay_from
replay_from_done fuel s off = refl

-- Whole records, and then what follows them.
pub replay_from_records :
    (rs : List Record) (fuel : ℕ) (s s' : Storage) (off : ℕ) (rest : Bytes)
    → AllSound rs
    → redo_all s rs ≡ ok s'
    → length rs ≤ fuel
    → replay_from fuel s off (log_bytes rs ++ rest)
      ≡ replay_from (fuel - length rs) s' (off + length (log_bytes rs)) rest
unfolding redo_all log_bytes
replay_from_records [] fuel s s' off rest h done enough =
    ap (λ t. replay_from fuel t off rest) (ok-injective done)
    ∙ ap (λ k. replay_from k s' off rest) {y = fuel - 0} (omega arith)
    ∙ ap (λ o. replay_from (fuel - 0) s' o rest) {y = off + 0} (omega arith)
replay_from_records (r ∷ rs) zero s s' off rest h done enough = absurd (omega arith)
replay_from_records (r ∷ rs) (suc fuel) s s' off rest h done enough =
    let (t, first, later) = and_then-eq-ok (redo s r) (λ t. redo_all t rs) done in
    let f = frame (encode r) in
    let size : 0 < length (f ++ (log_bytes rs ++ rest)) =
      omega (arith, length-append f (log_bytes rs ++ rest), length-frame (encode r)) in
    ap (replay_from (suc fuel) s off) (append_assoc f (log_bytes rs) rest)
    ∙ replay_from_next fuel s t off (length f) (f ++ (log_bytes rs ++ rest)) size
        (round_whole s t r (log_bytes rs ++ rest) h.0 first)
    ∙ ap (replay_from fuel t (off + length f)) (drop-append f (log_bytes rs ++ rest))
    ∙ replay_from_records rs fuel t s' (off + length f) rest h.1 later (omega arith)
    ∙ ap (λ k. replay_from k s' (off + length f + length (log_bytes rs)) rest)
        {y = suc fuel - length (r ∷ rs)} (omega arith)
    ∙ ap (λ o. replay_from (suc fuel - length (r ∷ rs)) s' o rest)
        {y = off + length (log_bytes (r ∷ rs))} (omega (arith, length-append f (log_bytes rs)))

-- What a crash leaves of the last record: nothing, or a torn part of its frame.
data IsTail : Bytes → Type 0 where
  nothing : IsTail []
  part :
      (r : Record) (m : ℕ)
      → IsSound r
      → 0 < m
      → m < length (frame (encode r))
      → IsTail (take m (frame (encode r)))

-- The first n bytes of a log are whole records and a tail.
record IsCut (rs : List Record) (n : ℕ) : Type 0 where
  kept : List Record
  lost : List Record
  tail : Bytes
  splits : rs ≡ kept ++ lost
  bytes : take n (log_bytes rs) ≡ log_bytes kept ++ tail
  is_tail : IsTail tail

IsCut-first :
    (r : Record) (rs : List Record) (n : ℕ)
    → IsSound r
    → n < length (frame (encode r))
    → IsCut (r ∷ rs) n
unfolding log_bytes
IsCut-first r rs zero h k = record {
  kept = [];
  lost = r ∷ rs;
  tail = [];
  splits = refl;
  bytes = refl;
  is_tail = nothing;
}
IsCut-first r rs (suc n) h k = record {
  kept = [];
  lost = r ∷ rs;
  tail = take (suc n) (frame (encode r));
  splits = refl;
  bytes = take-append_within (suc n) (frame (encode r)) (log_bytes rs) (omega arith);
  is_tail = part r (suc n) h (omega arith) k;
}

IsCut-later :
    (r : Record) (rs : List Record) (n : ℕ)
    → length (frame (encode r)) ≤ n
    → IsCut rs (n - length (frame (encode r)))
    → IsCut (r ∷ rs) n
unfolding log_bytes
IsCut-later r rs n k c = record {
  kept = r ∷ c.kept;
  lost = c.lost;
  tail = c.tail;
  splits = ap (λ l. r ∷ l) c.splits;
  bytes =
      take-append_beyond n (frame (encode r)) (log_bytes rs) k
      ∙ ap (λ b. frame (encode r) ++ b) c.bytes
      ∙ sym (append_assoc (frame (encode r)) (log_bytes c.kept) c.tail);
  is_tail = c.is_tail;
}

cut : (rs : List Record) (n : ℕ) → AllSound rs → IsCut rs n
unfolding log_bytes
cut [] n h = record {
  kept = [];
  lost = [];
  tail = [];
  splits = refl;
  bytes = take-nil n;
  is_tail = nothing;
}
cut (r ∷ rs) n h = elim (Bool-cases (ltb n (length (frame (encode r))))) [
  | inl t ↦ IsCut-first r rs n h.0 (ground arith)
  | inr f ↦ IsCut-later r rs n (ground arith) (cut rs (n - length (frame (encode r))) h.1)
]

-- what a segment holds behind the cut of its torn tail
abbrev pub left_behind : Option ℕ → Bytes → Bytes
left_behind none content = content
left_behind (some off) content = take off content

-- where the loop stops before a tail
abbrev torn_at : ℕ → Bytes → Option ℕ
torn_at off [] = none
torn_at off (b ∷ bs) = some off

round_torn :
    (s : Storage) (r : Record) (m : ℕ)
    → IsSound r
    → m < length (frame (encode r))
    → round s (take m (frame (encode r))) ≡ stop
unfolding round
round_torn s r m h k = rw (read_frame_torn (encode r) m (encode-IsPayload r h) k, round)

torn_at-some : (off : ℕ) (xs : Bytes) → 0 < length xs → torn_at off xs ≡ some off
torn_at-some off [] h = absurd (omega arith)
torn_at-some off (x ∷ xs) h = refl

replay_from_tail :
    {tail : Bytes} (fuel : ℕ) (s : Storage) (off : ℕ)
    → IsTail tail
    → length tail ≤ fuel
    → replay_from fuel s off tail ≡ record { mirror = s; torn = torn_at off tail }
replay_from_tail fuel s off nothing h = replay_from_done fuel s off
replay_from_tail zero s off (part r m k lo hi) h =
    absurd (omega (arith, length-take m (frame (encode r))))
replay_from_tail (suc fuel) s off (part r m k lo hi) h =
    let size : 0 < length (take m (frame (encode r))) =
      omega (arith, length-take m (frame (encode r))) in
    replay_from_stop fuel s off _ size (round_torn s r m k hi)
    ∙ ap (λ t. record { mirror = s; torn = t }) (sym (torn_at-some off _ size))

-- The replay of whole records and a tail stops at the tail.
replay_tail :
    {tail : Bytes} (s s' : Storage) (rs : List Record)
    → AllSound rs
    → redo_all s rs ≡ ok s'
    → IsTail tail
    → replay s (log_bytes rs ++ tail)
      ≡ record { mirror = s'; torn = torn_at (length (log_bytes rs)) tail }
unfolding replay
replay_tail {tail} s s' rs h done t =
    let size = length-append (log_bytes rs) tail in
    let records = length-log_bytes rs in
    replay_from_records rs (length (log_bytes rs ++ tail)) s s' 0 tail h done (omega arith)
    ∙ replay_from_tail _ s' _ t (omega arith)
    ∙ ap (λ o. record { mirror = s'; torn = torn_at o tail }) (omega arith)

left_behind_tail : (xs tail : Bytes) → left_behind (torn_at (length xs) tail) (xs ++ tail) ≡ xs
left_behind_tail xs [] = append-nil xs
left_behind_tail xs (b ∷ bs) = take-append xs (b ∷ bs)

-- The replay of a whole log applies all of its records.
pub replay-log_bytes :
    (s s' : Storage) (rs : List Record)
    → AllSound rs
    → redo_all s rs ≡ ok s'
    → replay s (log_bytes rs) ≡ record { mirror = s'; torn = none }
replay-log_bytes s s' rs h done =
    ap (replay s) (sym (append-nil (log_bytes rs))) ∙ replay_tail s s' rs h done nothing

-- A log whose first records are `safe`, cut by a crash at any byte behind them, is replayed up to
-- some record of the log that is not before the end of `safe`: the mirror is what those records
-- leave, and behind the truncation of the torn tail the segment holds exactly them.
pub record Recovers (s : Storage) (safe more : List Record) (content : Bytes) : Type 0 where
  pub kept : List Record
  pub lost : List Record
  pub splits : more ≡ kept ++ lost
  pub mirror : redo_all s (safe ++ kept) ≡ ok (replay s content).mirror
  pub left : left_behind (replay s content).torn content ≡ log_bytes (safe ++ kept)

pub replay-Recovers :
    (s s' : Storage) (safe more : List Record) (n : ℕ)
    → AllSound (safe ++ more)
    → redo_all s (safe ++ more) ≡ ok s'
    → length (log_bytes safe) ≤ n
    → Recovers s safe more (take n (log_bytes (safe ++ more)))
replay-Recovers s s' safe more n h done k =
    let (h_safe, h_more) = AllSound-split safe more h in
    let c = cut more (n - length (log_bytes safe)) h_more in
    let all : safe ++ more ≡ (safe ++ c.kept) ++ c.lost =
      ap (λ l. safe ++ l) c.splits ∙ sym (append_assoc safe c.kept c.lost) in
    let (t, front, back) =
      redo_all-split s s' (safe ++ c.kept) c.lost (ap (redo_all s) (sym all) ∙ done) in
    let sound = (AllSound-split (safe ++ c.kept) c.lost (subst AllSound all h)).0 in
    let content : take n (log_bytes (safe ++ more)) ≡ log_bytes (safe ++ c.kept) ++ c.tail =
      ap (take n) (log_bytes-append safe more)
      ∙ take-append_beyond n (log_bytes safe) (log_bytes more) k
      ∙ ap (λ b. log_bytes safe ++ b) c.bytes
      ∙ sym (append_assoc (log_bytes safe) (log_bytes c.kept) c.tail)
      ∙ ap (λ b. b ++ c.tail) (sym (log_bytes-append safe c.kept)) in
    let run = replay_tail s t (safe ++ c.kept) sound front c.is_tail in
    record {
      kept = c.kept;
      lost = c.lost;
      splits = c.splits;
      mirror = rw content (rw run front);
      left = rw content (rw run (left_behind_tail (log_bytes (safe ++ c.kept)) c.tail));
    }
