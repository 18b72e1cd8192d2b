-- ===== src/Storage/Disk/Framing.antt =====
-- storage/disk/framing.go: the frames of the log, and the records that they carry.
pub mod RoundTrip
pub mod Bounds
use parallax_kv.Base.{
  ℕ, ◌+◌, ◌*◌, ◌<◌, ◌||◌, [], ◌∷◌, ◌++◌, Bytes, Outcome, ok, err, length, take, drop, be_bytes,
  be_value, checksum, ltb, u32, ◌==◌, nat_eq, if◌then◌else◌,
}
use parallax_kv.Raft.Types.{
  Entry, EntryType, entry_normal, entry_noop, entry_other, HardState, SnapshotMetadata,
}
use parallax_kv.Storage.Disk.{DiskError, torn_frame}

abbrev pub frame_header_size : ℕ
frame_header_size = 8

-- 64 << 20
abbrev pub sanity_max_payload : ℕ
sanity_max_payload = 67108864

-- recType
abbrev pub rec_entry : ℕ
rec_entry = 1

abbrev pub rec_hard_state : ℕ
rec_hard_state = 2

abbrev pub rec_truncate_suffix : ℕ
rec_truncate_suffix = 3

-- The big-endian word of n bytes at buf[lo:lo+n]; one byte is buf[lo].
unfoldable pub field : ℕ → ℕ → Bytes → ℕ
field lo n buf = be_value (take n (drop lo buf))

-- byte(e.Type), and raft.EntryType of a byte
unfoldable pub type_byte : EntryType → ℕ
type_byte entry_normal = 0
type_byte entry_noop = 1
type_byte (entry_other b) = b

unfoldable pub type_of_byte : ℕ → EntryType
type_of_byte b = if b == 0 then entry_normal else if b == 1 then entry_noop else entry_other b

unfoldable pub encode_entry : Entry → Bytes
encode_entry e =
    rec_entry ∷ be_bytes 8 e.term
    ++ (be_bytes 8 e.index
        ++ (be_bytes 1 (type_byte e.type) ++ (be_bytes 4 (u32 (length e.payload)) ++ e.payload)))

unfoldable pub decode_entry : Bytes → Outcome DiskError Entry
decode_entry body =
    if ltb (length body) 21
    then err torn_frame
    else if 21 + field 17 4 body == length body
    then ok (record {
      term = field 0 8 body;
      index = field 8 8 body;
      type = type_of_byte (field 16 1 body);
      payload = drop 21 body;
    })
    else err torn_frame

unfoldable pub encode_hard_state : HardState → Bytes
encode_hard_state st =
    rec_hard_state ∷ be_bytes 8 st.term ++ (be_bytes 8 st.vote ++ be_bytes 8 st.commit)

unfoldable pub decode_hard_state : Bytes → Outcome DiskError HardState
decode_hard_state body =
    if length body == 24
    then ok (record { term = field 0 8 body; vote = field 8 8 body; commit = field 16 8 body })
    else err torn_frame

unfoldable pub encode_truncate_suffix : SnapshotMetadata → Bytes
encode_truncate_suffix meta = rec_truncate_suffix ∷ be_bytes 8 meta.index ++ be_bytes 8 meta.term

unfoldable pub decode_truncate_suffix : Bytes → Outcome DiskError SnapshotMetadata
decode_truncate_suffix body =
    if length body == 16
    then ok (record { index = field 0 8 body; term = field 8 8 body })
    else err torn_frame

-- what appendFrame appends
unfoldable pub frame : Bytes → Bytes
frame payload = be_bytes 4 (u32 (length payload)) ++ (be_bytes 4 (checksum payload) ++ payload)

unfoldable pub append_frame : Bytes → Bytes → Bytes
append_frame dst payload = dst ++ frame payload

-- readFrame at the start of `buf`, the unread part of its buffer: the payload, and the number of
-- bytes consumed. The sum of header and payload length is below 2 ^ 27 and cannot overflow.
unfoldable pub read_frame : Bytes → Outcome DiskError (Bytes × ℕ)
read_frame buf =
    if ltb (length buf) frame_header_size
    then err torn_frame
    else let payload_len = field 0 4 buf in
      let end = frame_header_size + payload_len in
      let p = take payload_len (drop frame_header_size buf) in
      if payload_len == 0 || ltb sanity_max_payload payload_len
      then err torn_frame
      else if ltb (length buf) end
      then err torn_frame
      else if checksum p == field 4 4 buf
      then ok (p, end)
      else err torn_frame
