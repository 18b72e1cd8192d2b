-- ===== src/Storage/Disk/Framing/RoundTrip.antt =====
-- storage/disk/framing.go: what is read back of a frame and of a record, whole or cut short.
use parallax_kv.Base.{
  ℕ, ◌+◌, ◌^◌, ◌<◌, ◌≤◌, ◌≡◌, ap, ◌∙◌, [], ◌++◌, append_assoc, append-nil, sym, Bytes, ok, err,
  arith, length, length-append, length-take, take, take-take, Bool-cases, inl, inr, drop,
  take-append, drop-append_add, be_bytes, be_value, length-be_bytes, be_value-be_bytes, checksum,
  checksum_bound, ltb, u32, nat_eq,
}
use parallax_kv.Raft.Types.{Entry, HardState, SnapshotMetadata}
use parallax_kv.Storage.Disk.{torn_frame}
use parallax_kv.Storage.Disk.Framing.{
  field, type_byte, type_of_byte, encode_entry, decode_entry, encode_hard_state, decode_hard_state,
  encode_truncate_suffix, decode_truncate_suffix, frame, read_frame, sanity_max_payload,
}

-- Past a word, the rest is read.
pub drop-be_bytes : (m v n : ℕ) (rest : Bytes) → drop (m + n) (be_bytes m v ++ rest) ≡ drop n rest
drop-be_bytes m v n rest =
    ap (λ k. drop (k + n) (be_bytes m v ++ rest)) {y = length (be_bytes m v)}
      (omega (arith, length-be_bytes m v))
    ∙ drop-append_add (be_bytes m v) rest n

pub field_past :
    (m v lo n : ℕ) (rest : Bytes) → field (m + lo) n (be_bytes m v ++ rest) ≡ field lo n rest
unfolding field
field_past m v lo n rest = ap (λ d. be_value (take n d)) (drop-be_bytes m v lo rest)

pub field_here : (n v : ℕ) (rest : Bytes) → v < 256 ^ n → field 0 n (be_bytes n v ++ rest) ≡ v
unfolding field
field_here n v rest h =
    ap (λ k. be_value (take k (be_bytes n v ++ rest))) {y = length (be_bytes n v)}
      (omega (arith, length-be_bytes n v))
    ∙ ap be_value (take-append (be_bytes n v) rest)
    ∙ be_value-be_bytes n v h

pub field_whole : (n v : ℕ) → v < 256 ^ n → field 0 n (be_bytes n v) ≡ v
field_whole n v h = ap (field 0 n) (sym (append-nil (be_bytes n v))) ∙ field_here n v [] h

-- An entry whose numbers fit their fields; its type is a byte, under its name if it has one.
pub record IsEncodable (e : Entry) : Type 0 where
  pub term : e.term < 2 ^ 64
  pub index : e.index < 2 ^ 64
  pub type_bound : type_byte e.type < 256
  pub type_name : type_of_byte (type_byte e.type) ≡ e.type
  pub payload : length e.payload < 2 ^ 32

entry_body : Entry → Bytes
entry_body e =
    be_bytes 8 e.term
    ++ (be_bytes 8 e.index
        ++ (be_bytes 1 (type_byte e.type) ++ (be_bytes 4 (u32 (length e.payload)) ++ e.payload)))

length-entry_body : (e : Entry) → length (entry_body e) ≡ 21 + length e.payload
unfolding entry_body
length-entry_body e = simp (length-append, length-be_bytes) (omega arith)

-- What decodeEntry reads in the body that encodeEntry wrote.
pub decode-encode_entry :
    (e : Entry) → IsEncodable e → decode_entry (drop 1 (encode_entry e)) ≡ ok e
unfolding decode_entry encode_entry entry_body
decode-encode_entry e h =
    let body = entry_body e in
    let len : field 17 4 body ≡ length e.payload =
      field_past 8 e.term 9 4 _
      ∙ field_past 8 e.index 1 4 _
      ∙ field_past 1 (type_byte e.type) 0 4 _
      ∙ field_here 4 (u32 (length e.payload)) e.payload (omega arith)
      ∙ omega (arith, h.payload) in
    let term : field 0 8 body ≡ e.term = field_here 8 e.term _ h.term in
    let index : field 8 8 body ≡ e.index =
      field_past 8 e.term 0 8 _ ∙ field_here 8 e.index _ h.index in
    let type : field 16 1 body ≡ type_byte e.type =
      field_past 8 e.term 8 1 _
      ∙ field_past 8 e.index 0 1 _
      ∙ field_here 1 (type_byte e.type) _ h.type_bound in
    let payload : drop 21 body ≡ e.payload =
      drop-be_bytes 8 e.term 13 _
      ∙ drop-be_bytes 8 e.index 5 _
      ∙ drop-be_bytes 1 (type_byte e.type) 4 _
      ∙ drop-be_bytes 4 (u32 (length e.payload)) 0 _ in
    ground (arith, length-entry_body e, len, term, index, type, payload, h.type_name)

pub decode-encode_hard_state :
    (st : HardState)
    → st.term < 2 ^ 64
    → st.vote < 2 ^ 64
    → st.commit < 2 ^ 64
    → decode_hard_state (drop 1 (encode_hard_state st)) ≡ ok st
unfolding decode_hard_state encode_hard_state
decode-encode_hard_state st t v c =
    let last = be_bytes 8 st.commit in
    let body = be_bytes 8 st.term ++ (be_bytes 8 st.vote ++ last) in
    let len : length body ≡ 24 = simp (length-append, length-be_bytes) in
    let term : field 0 8 body ≡ st.term = field_here 8 st.term _ t in
    let vote : field 8 8 body ≡ st.vote = field_past 8 st.term 0 8 _ ∙ field_here 8 st.vote _ v in
    let commit : field 16 8 body ≡ st.commit =
      field_past 8 st.term 8 8 _ ∙ field_past 8 st.vote 0 8 _ ∙ field_whole 8 st.commit c in
    ground (arith, len, term, vote, commit)

pub decode-encode_truncate_suffix :
    (meta : SnapshotMetadata)
    → meta.index < 2 ^ 64
    → meta.term < 2 ^ 64
    → decode_truncate_suffix (drop 1 (encode_truncate_suffix meta)) ≡ ok meta
unfolding decode_truncate_suffix encode_truncate_suffix
decode-encode_truncate_suffix meta i t =
    let body = be_bytes 8 meta.index ++ be_bytes 8 meta.term in
    let len : length body ≡ 16 = simp (length-append, length-be_bytes) in
    let index : field 0 8 body ≡ meta.index = field_here 8 meta.index _ i in
    let term : field 8 8 body ≡ meta.term =
      field_past 8 meta.index 0 8 _ ∙ field_whole 8 meta.term t in
    ground (arith, len, index, term)

pub length-frame : (p : Bytes) → length (frame p) ≡ 8 + length p
unfolding frame
length-frame p = simp (length-append, length-be_bytes) (omega arith)

-- The length and the checksum in the header of a frame, and the payload behind them.
frame-length-field :
    (p rest : Bytes) → length p ≤ sanity_max_payload → field 0 4 (frame p ++ rest) ≡ length p
unfolding frame
frame-length-field p rest h =
    ap (field 0 4) (append_assoc (be_bytes 4 (u32 (length p))) _ rest)
    ∙ field_here 4 (u32 (length p)) _ (omega arith)
    ∙ omega arith

frame-tail :
    (p rest : Bytes) (n : ℕ)
    → drop (4 + n) (frame p ++ rest) ≡ drop n (be_bytes 4 (checksum p) ++ (p ++ rest))
unfolding frame
frame-tail p rest n =
    ap (drop (4 + n)) (append_assoc (be_bytes 4 (u32 (length p))) _ rest)
    ∙ drop-be_bytes 4 (u32 (length p)) n _
    ∙ ap (drop n) (append_assoc (be_bytes 4 (checksum p)) p rest)

frame-checksum-field : (p rest : Bytes) → field 4 4 (frame p ++ rest) ≡ checksum p
unfolding field
frame-checksum-field p rest =
    ap (λ d. be_value (take 4 d)) (frame-tail p rest 0)
    ∙ unfold field in field_here 4 (checksum p) _ (omega (arith, checksum_bound p))

frame-payload : (p rest : Bytes) → take (length p) (drop 8 (frame p ++ rest)) ≡ p
frame-payload p rest =
    ap (take (length p)) (frame-tail p rest 4 ∙ drop-be_bytes 4 (checksum p) 0 (p ++ rest))
    ∙ take-append p rest

-- A payload that a frame carries.
pub record IsPayload (p : Bytes) : Type 0 where
  pub nonempty : 0 < length p
  pub bound : length p ≤ sanity_max_payload

-- readFrame gives back the payload of a whole frame, whatever follows it, and its length.
pub read_frame-frame :
    (p rest : Bytes) → IsPayload p → read_frame (frame p ++ rest) ≡ ok (p, length (frame p))
unfolding read_frame
read_frame-frame p rest h =
    let lo = h.nonempty in
    let hi = h.bound in
    let len = frame-length-field p rest h.bound in
    let crc = frame-checksum-field p rest in
    let payload = frame-payload p rest in
    rw len (rw payload (ground (arith, crc, length-append (frame p) rest, length-frame p)))

cut-length-field :
    (p : Bytes) (n : ℕ) → IsPayload p → 8 ≤ n → field 0 4 (take n (frame p)) ≡ length p
cut-length-field p n h kept =
    unfold field in
    ap be_value (take-take 4 n (frame p) (omega arith))
    ∙ ap (field 0 4) (sym (append-nil (frame p)))
    ∙ frame-length-field p [] h.bound

-- A frame that a crash cut short is torn, wherever the cut lies.
pub read_frame_torn :
    (p : Bytes) (n : ℕ)
    → IsPayload p
    → n < length (frame p)
    → read_frame (take n (frame p)) ≡ err torn_frame
unfolding read_frame
read_frame_torn p n h cut = elim (Bool-cases (ltb (length (take n (frame p))) 8)) [
  | inl short ↦ ground (arith, short)
  | inr long ↦
      let size = length-take n (frame p) in
      let whole = length-frame p in
      let kept : 8 ≤ n = ground arith in
      let len : field 0 4 (take n (frame p)) ≡ length p = cut-length-field p n h kept in
      rw len (ground arith)
]
