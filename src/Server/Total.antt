-- ===== src/Server/Total.antt =====
-- server/drive.go, applyEntry: committed entries do not panic the server.
use parallax_kv.Base.{
  ◌≡◌, refl, ◌∙◌, ap, not, ◌&&◌, Option, some, List, [], ◌∷◌, Bytes, Outcome, ok, err, leb,
  Bool-cases, inl, inr,
}
use parallax_kv.Base.Panics.{◌>>=◌}
use parallax_kv.Base.GoMap
use parallax_kv.Raft.Types.{Entry}
use parallax_kv.Raft.Node.{is_empty}
use parallax_kv.Kv.Codec.{DecodeError}
use parallax_kv.Kv.Command.{Command, decode_command}
use parallax_kv.Kv.StateMachine.Total.{apply_total}
use parallax_kv.Server.{Server, client_key_eq}
use parallax_kv.Server.Waiters.{
  is_normal, key_of, complete, serve_pending_reads, apply_decoded, apply_entry,
}
use parallax_kv.Server.Drive.{apply_entries}

abbrev Returns : Option Server → Type 0
Returns o = (t : Server) × (o ≡ some t)

apply_decoded-Returns :
    (s : Server) (payload : Bytes) (o : Outcome DecodeError Command)
    → decode_command payload ≡ o
    → Returns (apply_decoded s o)
unfolding apply_decoded
apply_decoded-Returns s payload (err e) q = (s, refl)
apply_decoded-Returns s payload (ok cmd) q =
    let (res, sm, ran) = apply_total s.sm payload cmd q in
    let waiter = GoMap.get s.write_waiters (key_of cmd) in
    (serve_pending_reads (complete (record s { sm = sm }) (key_of cmd) res waiter), rw ran refl)

apply_entry-Returns : (s : Server) (e : Entry) → Returns (apply_entry s e)
unfolding apply_entry
apply_entry-Returns s e =
    let s' : Server = record s { applied = e.index } in
    elim (Bool-cases (leb e.index s.applied)) [
      | inl seen ↦ (s, rw seen refl)
      | inr fresh ↦ elim (Bool-cases (is_normal e.type && not (is_empty e.payload))) [
        | inl normal ↦
            let (t, ran) = apply_decoded-Returns s' e.payload (decode_command e.payload) refl in
            (t, rw fresh (rw normal ran))
        | inr other ↦ (serve_pending_reads s', rw fresh (rw other refl))
      ]
    ]

-- Applying committed entries does not panic, whatever entries they are, whatever bytes they hold,
-- and whatever the server has applied before: a command that DecodeCommand lets through is one that
-- the state machine knows.
pub apply_entries_total :
    (s : Server) (es : List Entry) → (t : Server) × (apply_entries s es ≡ some t)
unfolding apply_entries
apply_entries_total s [] = (s, refl)
apply_entries_total s (e ∷ es) =
    let (s', first) = apply_entry-Returns s e in
    let (t, rest) = apply_entries_total s' es in
    (t, ap (λ o. o >>= λ x. apply_entries x es) first ∙ rest)
