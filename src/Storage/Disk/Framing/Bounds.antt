-- ===== src/Storage/Disk/Framing/Bounds.antt =====
-- storage/disk/framing.go, readFrame: what every accepted frame satisfies.
use parallax_kv.Base.{
  ℕ, ◌+◌, ◌<◌, ◌≤◌, ◌≡◌, sym, ap, ◌∙◌, Bytes, ok, arith, length, length-take, length-drop, take,
  drop, checksum, nat_eq,
}
use parallax_kv.Storage.Disk.Framing.{field, sanity_max_payload, read_frame}
use parallax_kv.Storage.Disk.Framing.RoundTrip.{IsPayload}

-- `p` is the payload of the frame of n bytes at the start of `buf`.
pub record IsFrameOf (buf p : Bytes) (n : ℕ) : Type 0 where
  pub payload : IsPayload p
  pub size : n ≡ 8 + length p
  pub within : n ≤ length buf
  pub bytes : p ≡ take (length p) (drop 8 buf)
  pub sum : checksum p ≡ field 4 4 buf

-- A payload that readFrame returns is not empty and not above the limit, lies within the buffer
-- behind a header, has the checksum of the header, and the number of bytes consumed is its
-- length and that of the header.
pub read_frame-IsFrameOf : (buf p : Bytes) (n : ℕ) → read_frame buf ≡ ok (p, n) → IsFrameOf buf p n
unfolding read_frame
read_frame-IsFrameOf buf p n h =
    let len = field 0 4 buf in
    let body = take len (drop 8 buf) in
    let small : len ≤ sanity_max_payload = ground arith in
    let some_bytes : 0 < len = ground arith in
    let whole : 8 + len ≤ length buf = ground arith in
    let same : body ≡ p = ground arith in
    let end : 8 + len ≡ n = ground arith in
    let sum : checksum body ≡ field 4 4 buf = ground arith in
    let size : length p ≡ len =
      omega (arith, ap length same, length-take len (drop 8 buf), length-drop 8 buf) in
    record {
      payload = record { nonempty = omega arith; bound = omega arith };
      size = omega arith;
      within = omega arith;
      bytes = sym same ∙ ap (λ k. take k (drop 8 buf)) (sym size);
      sum = ap checksum (sym same) ∙ sum;
    }
