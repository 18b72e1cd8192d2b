-- ===== src/Server/Waiting.antt =====
-- server/drive.go: the reads that a confirmed index still has to be applied for.
use parallax_kv.Base.{
  ℕ, ◌≡◌, refl, sym, ap, ◌∙◌, subst, Bool, true, false, not, ◌&&◌, ◌||◌, Bytes, Bool-cases, inl,
  inr, ltb, leb, Option, none, some, List, [], ◌∷◌, ◌++◌, Outcome, ok, err, arith, bytes_eq,
}
use mathlib.Core.Option.{some-injective}
use parallax_kv.Base.Returns.{bind-eq-some}
use parallax_kv.Base.GoMap
use parallax_kv.Raft.Types.{Entry, ReadState}
use parallax_kv.Raft.Node.{is_empty}
use parallax_kv.Kv.Codec.{DecodeError}
use parallax_kv.Kv.Command.{Command, decode_command}
use parallax_kv.Kv.StateMachine.{apply}
use parallax_kv.Server.{Server, client_key_eq, ReadWaiter}
use parallax_kv.Server.Waiters.{
  served, serve_read, release_read, serve_due, serve_pending_reads, complete, key_of, is_normal,
  apply_decoded, apply_entry,
}
use parallax_kv.Server.Drive.{apply_entries, release_reads}
use parallax_kv.Server.Replica.{serve_due-Answers, serve_read-Answers}

-- every read waits for an index beyond this one
abbrev pub all_beyond : ℕ → List ReadState → Bool
all_beyond i [] = true
all_beyond i (rs ∷ reads) = ltb i rs.index && all_beyond i reads

-- No buffered read could be served.
abbrev pub AllWait : Server → Type 0
AllWait s = all_beyond s.applied s.pending_reads ≡ true

abbrev pub succeeds : Outcome DecodeError Command → Bool
succeeds (ok cmd) = true
succeeds (err e) = false

-- The entry is no command, or one that decodes.
abbrev pub decodes : Entry → Bool
decodes e =
    not (is_normal e.type && not (is_empty e.payload)) || succeeds (decode_command e.payload)

abbrev pub all_decode : List Entry → Bool
all_decode [] = true
all_decode (e ∷ es) = decodes e && all_decode es

serve_due_beyond :
    (s : Server) (reads : List ReadState) → all_beyond s.applied (serve_due s reads).1 ≡ true
unfolding serve_due
serve_due_beyond s [] = refl
serve_due_beyond s (rs ∷ reads) =
    let later : all_beyond s.applied (serve_due (serve_read s rs) reads).1 ≡ true =
      subst (λ i. all_beyond i (serve_due (serve_read s rs) reads).1 ≡ true)
        (serve_read-Answers s rs).applied (serve_due_beyond (serve_read s rs) reads) in
    ground (arith, serve_due_beyond s reads)

serve_pending_reads-AllWait : (s : Server) → AllWait (serve_pending_reads s)
unfolding serve_pending_reads
serve_pending_reads-AllWait s =
    ap (λ i. all_beyond i (serve_due s s.pending_reads).1)
      (serve_due-Answers s s.pending_reads).applied
    ∙ serve_due_beyond s s.pending_reads

served-AllWait : (s t : Server) → serve_pending_reads s ≡ t → AllWait t
served-AllWait s t h = subst AllWait h (serve_pending_reads-AllWait s)

apply_decoded-AllWait :
    (s t : Server) (o : Outcome DecodeError Command)
    → succeeds o ≡ true
    → apply_decoded s o ≡ some t
    → AllWait t
unfolding apply_decoded
apply_decoded-AllWait s t (err e) fine h = cc
apply_decoded-AllWait s t (ok cmd) fine h =
    let ((res, sm), done, rest) = bind-eq-some (apply s.sm cmd) _ h in
    let waiter = GoMap.get s.write_waiters (key_of cmd) in
    served-AllWait (complete (record s { sm = sm }) (key_of cmd) res waiter) t
      (some-injective _ _ rest)

apply_entry-AllWait :
    (s t : Server) (e : Entry) → AllWait s → decodes e ≡ true → apply_entry s e ≡ some t → AllWait t
unfolding apply_entry
apply_entry-AllWait s t e wait fine h = elim (Bool-cases (leb e.index s.applied)) [
  | inl seen ↦ subst AllWait (some-injective s t (sym (rw seen refl) ∙ h)) wait
  | inr fresh ↦
      let s' : Server = record s { applied = e.index } in
      elim (Bool-cases (is_normal e.type && not (is_empty e.payload))) [
        | inl normal ↦
            apply_decoded-AllWait s' t (decode_command e.payload) (ground arith)
              (sym (rw fresh (rw normal refl)) ∙ h)
        | inr other ↦ served-AllWait s' t (some-injective _ _ (sym (rw fresh (rw other refl)) ∙ h))
      ]
]

all_beyond-append :
    (i : ℕ) (xs : List ReadState) (rs : ReadState)
    → all_beyond i xs ≡ true
    → ltb i rs.index ≡ true
    → all_beyond i (xs ++ rs ∷ []) ≡ true
all_beyond-append i [] rs h k = ground arith
all_beyond-append i (x ∷ xs) rs h k = ground (arith, all_beyond-append i xs rs)

of_waiter :
    (s : Server) (token : Bytes) (o : Option ReadWaiter)
    → (served s token o).pending_reads ≡ s.pending_reads
unfolding served
of_waiter s token none = refl
of_waiter s token (some w) = refl

served_pending : (s : Server) (rs : ReadState) → (serve_read s rs).pending_reads ≡ s.pending_reads
unfolding serve_read
served_pending s rs = of_waiter s rs.request_ctx (GoMap.get s.read_waiters rs.request_ctx)

release_read-AllWait : (s : Server) (rs : ReadState) → AllWait s → AllWait (release_read s rs)
unfolding release_read
release_read-AllWait s rs wait =
    let same = serve_read-Answers s rs in
    let pending = served_pending s rs in
    elim (Bool-cases (leb rs.index s.applied)) [
      | inl due ↦ rw due (rw same.applied (rw pending wait))
      | inr later ↦ rw later (all_beyond-append s.applied s.pending_reads rs wait (ground arith))
    ]

release_reads-AllWait :
    (s : Server) (reads : List ReadState) → AllWait s → AllWait (release_reads s reads)
unfolding release_reads
release_reads-AllWait s [] wait = wait
release_reads-AllWait s (rs ∷ reads) wait =
    release_reads-AllWait (release_read s rs) reads (release_read-AllWait s rs wait)

apply_entries-AllWait :
    (s t : Server) (es : List Entry)
    → AllWait s
    → all_decode es ≡ true
    → apply_entries s es ≡ some t
    → AllWait t
unfolding apply_entries
apply_entries-AllWait s t [] wait fine h = subst AllWait (some-injective s t h) wait
apply_entries-AllWait s t (e ∷ es) wait fine h =
    let (s', done, rest) = bind-eq-some (apply_entry s e) _ h in
    apply_entries-AllWait s' t es (apply_entry-AllWait s s' e wait (ground arith) done)
      (ground arith) rest

-- Behind the entries and the confirmed reads of a batch without a snapshot, whose commands all
-- decode, every read that is still buffered waits for an index beyond the applied one, if this was
-- so before the batch: no read is left waiting that could be served.
pub batch-AllWait :
    (s t : Server) (es : List Entry) (reads : List ReadState)
    → AllWait s
    → all_decode es ≡ true
    → apply_entries s es ≡ some t
    → AllWait (release_reads t reads)
batch-AllWait s t es reads wait fine h =
    release_reads-AllWait t reads (apply_entries-AllWait s t es wait fine h)
