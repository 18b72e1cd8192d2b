-- ===== src/Storage/Disk/Segments/Names.antt =====
-- storage/disk/wal.go: the file names of segments name them and sort them.
use parallax_kv.Base.{
  ℕ, ◌+◌, ◌^◌, ◌<◌, ◌≡◌, ◌≢◌, refl, sym, ap, ◌∙◌, Bool, true, some, List, [], ◌∷◌, ◌++◌, Bytes,
  arith, length, length-append, drop, drop-append_add, leb, nat_eq, bytes_eq, bytes_leb, sort_by,
  insert_by, padded,
}
use mathlib.Core.Option.{some-injective}
use parallax_kv.Base.Decimal.Padded.{length-padded, scan_padded-padded, bytes_leb-padded}
use parallax_kv.Storage.Disk.Segments.{
  has_prefix, has_suffix, seq_before_suffix, segment_name, parse_segment_seq, is_segment,
  seg_suffix, select,
}

length-segment_name : (k : ℕ) → length (segment_name k) ≡ 28
unfolding segment_name
length-segment_name k = omega (arith, length-append (padded 20 k) seg_suffix, length-padded 20 k)

-- The name of a segment gives its number back.
pub parse_segment_seq-segment_name :
    (k : ℕ) → k < 2 ^ 64 → parse_segment_seq (segment_name k) ≡ some k
unfolding parse_segment_seq segment_name seq_before_suffix has_prefix
parse_segment_seq-segment_name k h = rw (scan_padded-padded k seg_suffix h) refl

name_suffix : (k : ℕ) → drop 24 (segment_name k) ≡ seg_suffix
unfolding segment_name
name_suffix k =
    ap (λ n. drop n (padded 20 k ++ seg_suffix)) {x = 20} {y = length (padded 20 k) + 0}
      (omega (arith, length-padded 20 k))
    ∙ drop-append_add (padded 20 k) seg_suffix 0

pub is_segment-segment_name : (k : ℕ) → is_segment (segment_name k) ≡ true
unfolding is_segment has_prefix has_suffix
is_segment-segment_name k =
    rw (length-segment_name k) (rw (name_suffix k) (unfold segment_name in refl))

-- The names sort by number.
pub bytes_leb-segment_name :
    (a b : ℕ) → a < 2 ^ 64 → b < 2 ^ 64 → bytes_leb (segment_name a) (segment_name b) ≡ leb a b
unfolding segment_name bytes_leb
bytes_leb-segment_name a b h k =
    bytes_leb-padded 20 a b seg_suffix seg_suffix (omega arith) (omega arith) ∙ ground arith

pub segment_name_ne : (a b : ℕ) → a < 2 ^ 64 → b < 2 ^ 64 → a < b → segment_name a ≢ segment_name b
segment_name_ne a b h k lt e =
    let same : some a ≡ some b =
      sym (parse_segment_seq-segment_name a h)
      ∙ ap parse_segment_seq e
      ∙ parse_segment_seq-segment_name b k in
    omega (arith, some-injective a b same)

module _ (p : Bytes → Bool) where
  pub select-append : (xs ys : List Bytes) → select p (xs ++ ys) ≡ select p xs ++ select p ys
  unfolding select
  select-append [] ys = refl
  select-append (x ∷ xs) ys = ground (arith, select-append xs ys)

-- Every name of a list sorts before n.
abbrev pub AllBelow : Bytes → List Bytes → Type 0
AllBelow n [] = Unit
AllBelow n (x ∷ xs) = (bytes_leb x n ≡ true) × AllBelow n xs

insert_last :
    (x n : Bytes) (xs : List Bytes)
    → bytes_leb x n ≡ true
    → insert_by bytes_leb x (xs ++ n ∷ []) ≡ insert_by bytes_leb x xs ++ n ∷ []
unfolding insert_by
insert_last x n [] h = ground arith
insert_last x n (y ∷ ys) h = ground (arith, insert_last x n ys h)

-- A name behind all others sorts behind them.
pub sort-append_last :
    (n : Bytes) (xs : List Bytes)
    → AllBelow n xs
    → sort_by bytes_leb (xs ++ n ∷ []) ≡ sort_by bytes_leb xs ++ n ∷ []
unfolding sort_by insert_by
sort-append_last n [] h = refl
sort-append_last n (x ∷ xs) h =
    ap (insert_by bytes_leb x) (sort-append_last n xs h.1)
    ∙ insert_last x n (sort_by bytes_leb xs) h.0
