-- ===== src/Storage/Disk/Snapshots/RoundTrip.antt =====
-- storage/disk/snapshot.go: parseSnapPayload after snapPayload.
use parallax_kv.Base.{
  ℕ, ◌+◌, ◌^◌, ◌<◌, ◌≡◌, refl, sym, ap, ◌∙◌, Bool, true, false, [], ◌∷◌, ◌++◌, append_assoc, Bytes,
  ok, arith, length, length-append, take, take-append, drop, drop-append_add, be_bytes, be_value,
  length-be_bytes, u32, nat_eq, if◌then◌else◌,
}
use parallax_kv.Raft.Types.{Snapshot}
use parallax_kv.Storage.Disk.Framing.{field}
use parallax_kv.Storage.Disk.Framing.RoundTrip.{field_past, field_here, drop-be_bytes}
use parallax_kv.Storage.Disk.Snapshots.{snap_payload, parse_snap_payload}

-- A snapshot whose numbers fit their fields.
pub record IsStorable (snap : Snapshot) : Type 0 where
  pub index : snap.metadata.index < 2 ^ 64
  pub term : snap.metadata.term < 2 ^ 64
  pub payload : length snap.payload < 2 ^ 32

-- the bytes of a snapshot with these behind its data: a byte of flags, or none
layout : Snapshot → Bytes → Bytes
layout snap rest =
    be_bytes 8 snap.metadata.index
    ++ (be_bytes 8 snap.metadata.term
        ++ (be_bytes 4 (u32 (length snap.payload)) ++ (snap.payload ++ rest)))

-- what parseSnapPayload reads in them
record Reads (snap : Snapshot) (rest : Bytes) : Type 0 where
  size : length (layout snap rest) ≡ 20 + length snap.payload + length rest
  index : field 0 8 (layout snap rest) ≡ snap.metadata.index
  term : field 8 8 (layout snap rest) ≡ snap.metadata.term
  data_len : field 16 4 (layout snap rest) ≡ length snap.payload
  payload : take (length snap.payload) (drop 20 (layout snap rest)) ≡ snap.payload
  flags : field (20 + length snap.payload) 1 (layout snap rest) ≡ field 0 1 rest

field_skip : (xs ys : Bytes) (n : ℕ) → field (length xs) n (xs ++ ys) ≡ field 0 n ys
unfolding field
field_skip xs ys n =
    ap (λ k. be_value (take n (drop k (xs ++ ys)))) {y = length xs + 0} (omega arith)
    ∙ ap (λ d. be_value (take n d)) (drop-append_add xs ys 0)

layout-Reads : (snap : Snapshot) (rest : Bytes) → IsStorable snap → Reads snap rest
unfolding layout
layout-Reads snap rest h =
    let size = length snap.payload in
    let i = snap.metadata.index in
    let t = snap.metadata.term in
    record {
      size = simp (length-append, length-be_bytes) (omega arith);
      index = field_here 8 i _ h.index;
      term = field_past 8 i 0 8 _ ∙ field_here 8 t _ h.term;
      data_len =
          field_past 8 i 8 4 _
          ∙ field_past 8 t 0 4 _
          ∙ field_here 4 (u32 size) _ (omega arith)
          ∙ omega (arith, h.payload);
      payload =
          ap (take size)
            (drop-be_bytes 8 i 12 _ ∙ drop-be_bytes 8 t 4 _ ∙ drop-be_bytes 4 (u32 size) 0 _)
          ∙ take-append snap.payload rest;
      flags =
          ap (λ k. field k 1 (layout snap rest)) {y = 8 + (8 + (4 + size))} (omega arith)
          ∙ field_past 8 i (8 + (4 + size)) 1 _
          ∙ field_past 8 t (4 + size) 1 _
          ∙ field_past 4 (u32 size) size 1 _
          ∙ field_skip snap.payload rest 1;
    }

abbrev flag : Bool → ℕ
flag b = if b then 1 else 0

snap_payload-layout : (snap : Snapshot) (b : Bool) → snap_payload snap b ≡ layout snap (flag b ∷ [])
unfolding snap_payload layout
snap_payload-layout snap b = refl

field-flag : (b : Bool) → field 0 1 (flag b ∷ []) ≡ flag b
unfolding be_bytes
field-flag true = field_here 1 1 [] (omega arith)
field-flag false = field_here 1 0 [] (omega arith)

parse_flag :
    (snap : Snapshot) (b : Bool)
    → IsStorable snap
    → parse_snap_payload (layout snap (flag b ∷ []))
      ≡ ok (record { snapshot = snap; truncate_suffix = b })
unfolding parse_snap_payload
parse_flag snap b h =
    let r = layout-Reads snap (flag b ∷ []) h in
    let x = field-flag b in
    rw r.data_len (rw r.payload (rw r.flags (rw x (ground (arith, r.size, r.index, r.term)))))

parse_legacy :
    (snap : Snapshot)
    → IsStorable snap
    → parse_snap_payload (layout snap []) ≡ ok (record { snapshot = snap; truncate_suffix = false })
unfolding parse_snap_payload
parse_legacy snap h =
    let r = layout-Reads snap [] h in
    rw r.data_len (rw r.payload (ground (arith, r.size, r.index, r.term)))

layout_cut :
    (snap : Snapshot) (rest : Bytes)
    → IsStorable snap
    → take (20 + length snap.payload) (layout snap rest) ≡ layout snap []
layout_cut snap rest h =
    let split : layout snap rest ≡ layout snap [] ++ rest = unfold layout in simp (append_assoc) in
    let size : length (layout snap []) ≡ 20 + length snap.payload =
      omega (arith, (layout-Reads snap [] h).size) in
    ap (take (20 + length snap.payload)) split
    ∙ ap (λ k. take k (layout snap [] ++ rest)) (sym size)
    ∙ take-append (layout snap []) rest

-- parseSnapPayload of snapPayload's bytes is the snapshot, with its flag, and of the same bytes
-- without the last one, which an older version wrote, the snapshot without a flag. The numbers of
-- the snapshot fit their fields.
pub parse-snap_payload :
    (snap : Snapshot) (truncate_suffix : Bool)
    → IsStorable snap
    → (parse_snap_payload (snap_payload snap truncate_suffix)
        ≡ ok (record { snapshot = snap; truncate_suffix = truncate_suffix }))
      × (parse_snap_payload (take (20 + length snap.payload) (snap_payload snap truncate_suffix))
          ≡ ok (record { snapshot = snap; truncate_suffix = false }))
parse-snap_payload snap truncate_suffix h = (
  ap parse_snap_payload (snap_payload-layout snap truncate_suffix)
      ∙ parse_flag snap truncate_suffix h,
  ap (λ b. parse_snap_payload (take (20 + length snap.payload) b))
        (snap_payload-layout snap truncate_suffix)
      ∙ ap parse_snap_payload (layout_cut snap (flag truncate_suffix ∷ []) h)
      ∙ parse_legacy snap h,
)
