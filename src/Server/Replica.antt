-- ===== src/Server/Replica.antt =====
-- server/drive.go: the state machine of a server against a run of the commands of its log.
use parallax_kv.Base.{
  ℕ, zero, suc, ◌+◌, ◌-◌, ◌≤◌, ◌<◌, max, ◌≡◌, refl, sym, ap, ◌∙◌, subst, true, false, not, ◌&&◌,
  Option, none, some, List, [], ◌∷◌, ◌++◌, Bytes, Outcome, ok, err, length, drop, leb, arith, inl,
  inr, Bool-cases, Option-cases, bytes_eq, nat_eq, if◌then◌else◌,
}
use mathlib.Core.Option.{some-injective}
use parallax_kv.Base.Panics.{◌>>=◌}
use parallax_kv.Base.Returns.{bind-eq-some}
use parallax_kv.Base.GoMap
use parallax_kv.Raft.Types.{Entry, ReadState}
use parallax_kv.Raft.Node.{is_empty}
use parallax_kv.Kv.Codec.{DecodeError}
use parallax_kv.Kv.Command.{Command, Result, decode_command}
use parallax_kv.Kv.StateMachine.{StateMachine, apply}
use parallax_kv.Storage.Mem.Append.{contiguous}
use parallax_kv.Server.{Server, ClientKey, client_key_eq, ReadWaiter}
use parallax_kv.Server.Waiters.{
  served, serve_read, serve_due, serve_pending_reads, complete, key_of, is_normal, apply_decoded,
  apply_entry,
}
use parallax_kv.Server.Drive.{apply_entries}

-- The commands of a log: those of its normal entries that are not empty and that decode.
abbrev pub decoded : Outcome DecodeError Command → List Command
decoded (err e) = []
decoded (ok cmd) = cmd ∷ []

unfoldable pub command_of : Entry → List Command
command_of e =
    if is_normal e.type && not (is_empty e.payload) then decoded (decode_command e.payload) else []

unfoldable pub commands : List Entry → List Command
commands [] = []
commands (e ∷ es) = command_of e ++ commands es

-- the state machine behind some commands
unfoldable pub execute_all : StateMachine → List Command → Option StateMachine
execute_all m [] = some m
execute_all m (cmd ∷ cmds) = do (res, m') ← apply m cmd; execute_all m' cmds

execute_all-append :
    (m : StateMachine) (xs ys : List Command)
    → execute_all m (xs ++ ys) ≡ (execute_all m xs >>= λ m'. execute_all m' ys)
unfolding execute_all
execute_all-append m [] ys = refl
execute_all-append m (x ∷ xs) ys = elim (Option-cases (apply m x)) [
  | inl p ↦ rw p refl
  | inr ((res, m'), p) ↦ rw p (execute_all-append m' xs ys)
]

-- The clients' answers do not touch the state machine.
pub record Answers (s t : Server) : Type 0 where
  pub sm : t.sm ≡ s.sm
  pub applied : t.applied ≡ s.applied

Answers-refl : (s : Server) → Answers s s
Answers-refl s = record { sm = refl; applied = refl }

Answers-trans : (s t u : Server) → Answers s t → Answers t u → Answers s u
Answers-trans s t u h k = record { sm = k.sm ∙ h.sm; applied = k.applied ∙ h.applied }

served-Answers : (s : Server) (token : Bytes) (o : Option ReadWaiter) → Answers s (served s token o)
unfolding served
served-Answers s token none = Answers-refl s
served-Answers s token (some w) = record { sm = refl; applied = refl }

pub serve_read-Answers : (s : Server) (rs : ReadState) → Answers s (serve_read s rs)
unfolding serve_read
serve_read-Answers s rs = served-Answers s rs.request_ctx _

pub serve_due-Answers : (s : Server) (reads : List ReadState) → Answers s (serve_due s reads).0
unfolding serve_due
serve_due-Answers s [] = Answers-refl s
serve_due-Answers s (rs ∷ reads) =
    let kept = serve_due-Answers s reads in
    let read =
      Answers-trans _ _ _ (serve_read-Answers s rs) (serve_due-Answers (serve_read s rs) reads) in
    record {
      sm = ground (arith, kept.sm, read.sm);
      applied = ground (arith, kept.applied, read.applied);
    }

serve_pending_reads-Answers : (s : Server) → Answers s (serve_pending_reads s)
unfolding serve_pending_reads
serve_pending_reads-Answers s =
    let h = serve_due-Answers s s.pending_reads in record { sm = h.sm; applied = h.applied }

pub complete-Answers :
    (s : Server) (k : ClientKey) (res : Result) (o : Option ℕ) → Answers s (complete s k res o)
unfolding complete
complete-Answers s k res none = Answers-refl s
complete-Answers s k res (some ch) = record { sm = refl; applied = refl }

-- What applying an entry does to the state machine.
record Applies (e : Entry) (s t : Server) : Type 0 where
  ran : execute_all s.sm (command_of e) ≡ some t.sm
  applied : t.applied ≡ e.index

apply_decoded-runs :
    (s t : Server) (o : Outcome DecodeError Command)
    → apply_decoded s o ≡ some t
    → (execute_all s.sm (decoded o) ≡ some t.sm) × (t.applied ≡ s.applied)
unfolding apply_decoded execute_all
apply_decoded-runs s t (err e) h =
    let same = some-injective s t h in
    (ap (λ (x : Server). some x.sm) same, ap (λ (x : Server). x.applied) (sym same))
apply_decoded-runs s t (ok cmd) h =
    let ((res, sm), done, rest) = bind-eq-some (apply s.sm cmd) _ h in
    let s' : Server = record s { sm = sm } in
    let waiter = GoMap.get s.write_waiters (key_of cmd) in
    let k =
      Answers-trans _ _ _ (complete-Answers s' (key_of cmd) res waiter)
        (serve_pending_reads-Answers _) in
    let same = some-injective _ _ rest in
    (
      rw done (ap some (sym k.sm ∙ ap (λ (x : Server). x.sm) same)),
      ap (λ (x : Server). x.applied) (sym same) ∙ k.applied,
    )

apply_entry-Applies :
    (s : Server) (e : Entry) (t : Server)
    → s.applied < e.index
    → apply_entry s e ≡ some t
    → Applies e s t
unfolding apply_entry command_of execute_all
apply_entry-Applies s e t above h =
    let s' : Server = record s { applied = e.index } in
    let behind : leb e.index s.applied ≡ false = ground arith in
    let k = serve_pending_reads-Answers s' in
    elim (Bool-cases (is_normal e.type && not (is_empty e.payload))) [
      | inl normal ↦
          let (ran, at) =
            apply_decoded-runs s' t (decode_command e.payload)
              (sym (rw behind (rw normal refl)) ∙ h) in
          record { ran = rw normal ran; applied = at }
      | inr empty ↦
          let same =
            some-injective (serve_pending_reads s') t (sym (rw behind (rw empty refl)) ∙ h) in
          record {
            ran = rw empty (ap some (sym k.sm ∙ ap (λ (x : Server). x.sm) same));
            applied = ap (λ (x : Server). x.applied) (sym same) ∙ k.applied;
          }
    ]

apply_entry_seen : (s : Server) (e : Entry) → e.index ≤ s.applied → apply_entry s e ≡ some s
unfolding apply_entry
apply_entry_seen s e h = ground arith

drop-nil : (n : ℕ) → drop {A = Entry} n [] ≡ []
drop-nil zero = refl
drop-nil (suc n) = refl

-- Applying contiguous entries, which begin at or below the next index, runs the commands of those
-- entries that are not applied yet on the state machine, each once and in the order of the log, and
-- the last index becomes the applied one, where it is larger. Whatever batches the entries come in,
-- and however often one comes again, the state machine depends on the log alone.
pub apply_entries-execute_all :
    (s t : Server) (es : List Entry) (first : ℕ)
    → contiguous first es ≡ true
    → first ≤ s.applied + 1
    → apply_entries s es ≡ some t
    → (execute_all s.sm (commands (drop (s.applied + 1 - first) es)) ≡ some t.sm)
      × (t.applied ≡ max s.applied (first + length es - 1))
unfolding apply_entries contiguous commands
apply_entries-execute_all s t [] first c low h =
    let same = some-injective s t h in
    (
      rw drop-nil (unfold execute_all in ap (λ (x : Server). some x.sm) same),
      omega (arith, ap (λ (x : Server). x.applied) same),
    )
apply_entries-execute_all s t (e ∷ es) first c low h =
    let (s', done, rest) = bind-eq-some (apply_entry s e) _ h in
    let at : e.index ≡ first = ground arith in
    let dense : contiguous (first + 1) es ≡ true = ground arith in
    elim (Bool-cases (leb first s.applied)) [
      | inl seen ↦
          let same = some-injective _ _ (sym (apply_entry_seen s e (ground arith)) ∙ done) in
          let again = subst (λ x. apply_entries x es ≡ some t) (sym same) rest in
          let (ran, applied) =
            apply_entries-execute_all s t es (first + 1) dense (ground arith) again in
          (
            ap (λ n. execute_all s.sm (commands (drop n (e ∷ es))))
                  {y = suc (s.applied + 1 - (first + 1))} (ground arith)
                ∙ ran,
            ground arith,
          )
      | inr fresh ↦
          let one = apply_entry-Applies s e s' (ground arith) done in
          let (ran, applied) =
            apply_entries-execute_all s' t es (first + 1) dense (omega (arith, one.applied)) rest in
          (
            ap (λ n. execute_all s.sm (commands (drop n (e ∷ es)))) {y = 0} (ground arith)
                ∙ execute_all-append s.sm (command_of e) (commands es)
                ∙ rw one.ran (
                    ap (λ n. execute_all s'.sm (commands (drop n es))) {x = 0}
                      {y = s'.applied + 1 - (first + 1)} (omega (arith, one.applied))
                    ∙ ran),
            ground (arith, one.applied),
          )
    ]
