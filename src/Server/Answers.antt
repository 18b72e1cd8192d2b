-- ===== src/Server/Answers.antt =====
-- server/drive.go: how often a response channel is written to. What a channel weighs is the number
-- of its answers and of the waiters that hold it.
use parallax_kv.Base.{
  ℕ, ◌+◌, ◌≤◌, ◌≡◌, refl, ap, Bool, Option, none, some, List, [], ◌∷◌, ◌++◌, Bytes, Outcome, ok,
  err, Eq, nat_eq, bytes_eq, ◌==◌, if◌then◌else◌, arith,
}
use mathlib.Core.Option.{some-injective}
use parallax_kv.Base.Returns.{bind-eq-some}
use parallax_kv.Base.GoMap
use parallax_kv.Base.GoMap.{GoMap}
use parallax_kv.Raft.Types.{Entry, ReadState}
use parallax_kv.Kv.Command.{Command, Result, decode_command}
use parallax_kv.Kv.Codec.{DecodeError}
use parallax_kv.Kv.StateMachine.{apply}
use parallax_kv.Server.{
  Server, ClientKey, client_key_eq, ReadWaiter, OpResult, answered, not_leader,
}
use parallax_kv.Server.Waiters.{
  answer, served, serve_read, release_read, serve_due, serve_pending_reads, complete, key_of,
  apply_decoded, apply_entry, fail_writes, fail_reads, depose, check_leadership,
}

abbrev pub one : ℕ → ℕ → ℕ
one c ch = if c == ch then 1 else 0

-- the answers to a channel
unfoldable pub times : ℕ → List (ℕ × OpResult) → ℕ
times c [] = 0
times c ((ch, r) ∷ rest) = one c ch + times c rest

times-append :
    (c : ℕ) (xs : List (ℕ × OpResult)) (ch : ℕ) (r : OpResult)
    → times c (xs ++ (ch, r) ∷ []) ≡ times c xs + one c ch
unfolding times
times-append c [] ch r = ground arith
times-append c ((ch', r') ∷ xs) ch r = ground (arith, times-append c xs ch r)

module _ {K V : Type 0} ⦃e : Eq K⦄ (chan : V → ℕ) (c : ℕ) where
  -- the waiters that hold the channel
  unfoldable pub held : GoMap K V → ℕ
  held [] = 0
  held ((k, v) ∷ m) = one c (chan v) + held m

  held-delete : (m : GoMap K V) (k : K) → held (GoMap.delete m k) ≤ held m
  unfolding held GoMap.delete
  held-delete [] k = omega arith
  held-delete ((j, v) ∷ m) k = ground (arith, held-delete m k)

  held-delete_found :
      (m : GoMap K V) (k : K) (v : V)
      → GoMap.get m k ≡ some v
      → held (GoMap.delete m k) + one c (chan v) ≤ held m
  unfolding held GoMap.delete GoMap.get
  held-delete_found [] k v h = cc
  held-delete_found ((j, w) ∷ m) k v h =
      ground (arith, held-delete_found m k v, held-delete m k, some-injective w v)

  pub held-put : (m : GoMap K V) (k : K) (v : V) → held (GoMap.put m k v) ≤ held m + one c (chan v)
  unfolding held GoMap.put
  held-put [] k v = omega arith
  held-put ((j, w) ∷ m) k v = ground (arith, held-put m k v)

abbrev pub channel : ℕ → ℕ
channel ch = ch

abbrev pub read_channel : ReadWaiter → ℕ
read_channel w = w.resp

-- what a channel weighs
unfoldable pub load : ℕ → Server → ℕ
unfolding times held
load c s = times c s.answers + (held channel c s.write_waiters + held read_channel c s.read_waiters)

pub load-answer :
    (c : ℕ) (s : Server) (ch : ℕ) (r : OpResult) → load c (answer s ch r) ≡ load c s + one c ch
unfolding load
load-answer c s ch r = omega (arith, times-append c s.answers ch r)

load-served :
    (c : ℕ) (s : Server) (token : Bytes) (o : Option ReadWaiter)
    → GoMap.get s.read_waiters token ≡ o
    → load c (served s token o) ≤ load c s
unfolding load served
load-served c s token none h = omega arith
load-served c s token (some w) h = omega (
  arith,
  times-append c s.answers w.resp (answered (parallax_kv.Kv.StateMachine.read s.sm w.key)),
  held-delete_found read_channel c s.read_waiters token w h,
)

load-serve_read : (c : ℕ) (s : Server) (rs : ReadState) → load c (serve_read s rs) ≤ load c s
unfolding serve_read
load-serve_read c s rs = load-served c s rs.request_ctx _ refl

pub load-release_read :
    (c : ℕ) (s : Server) (rs : ReadState) → load c (release_read s rs) ≤ load c s
unfolding release_read load
load-release_read c s rs = ground (arith, load-serve_read c s rs)

load-serve_due :
    (c : ℕ) (s : Server) (reads : List ReadState) → load c (serve_due s reads).0 ≤ load c s
unfolding serve_due
load-serve_due c s [] = omega arith
load-serve_due c s (rs ∷ reads) = ground (
  arith,
  load-serve_due c s reads,
  load-serve_due c (serve_read s rs) reads,
  load-serve_read c s rs,
)

load-serve_pending_reads : (c : ℕ) (s : Server) → load c (serve_pending_reads s) ≤ load c s
unfolding serve_pending_reads load
load-serve_pending_reads c s = load-serve_due c s s.pending_reads

load-complete :
    (c : ℕ) (s : Server) (k : ClientKey) (res : Result) (o : Option ℕ)
    → GoMap.get s.write_waiters k ≡ o
    → load c (complete s k res o) ≤ load c s
unfolding complete load
load-complete c s k res none h = omega arith
load-complete c s k res (some ch) h = omega (
  arith,
  times-append c s.answers ch (answered res),
  held-delete_found channel c s.write_waiters k ch h,
)

load-apply_decoded :
    (c : ℕ) (s : Server) (o : Outcome DecodeError Command) (t : Server)
    → apply_decoded s o ≡ some t
    → load c t ≤ load c s
unfolding apply_decoded load
load-apply_decoded c s (err e) t h = omega (arith, ap (load c) (some-injective _ _ h))
load-apply_decoded c s (ok cmd) t h =
    let ((res, sm), done, rest) = bind-eq-some (apply s.sm cmd) _ h in
    let k = key_of cmd in
    let s' : Server = record s { sm = sm } in
    omega (
      arith,
      ap (load c) (some-injective _ _ rest),
      load-complete c s' k res _ refl,
      load-serve_pending_reads c (complete s' k res (GoMap.get s.write_waiters k)),
    )

pub load-apply_entry :
    (c : ℕ) (s : Server) (e : Entry) (t : Server) → apply_entry s e ≡ some t → load c t ≤ load c s
unfolding apply_entry load
load-apply_entry c s e t h =
    let s' : Server = record s { applied = e.index } in
    ground (
      arith,
      load-apply_decoded c s' (decode_command e.payload) t,
      load-serve_pending_reads c s',
      ap (load c) {x = s} {y = t},
      ap (load c) {x = serve_pending_reads s'} {y = t},
      some-injective s t,
      some-injective (serve_pending_reads s') t,
    )

times-fail_writes :
    (lead c : ℕ) (s : Server) (ws : GoMap ClientKey ℕ)
    → times c (fail_writes lead s ws).answers ≡ times c s.answers + held channel c ws
unfolding fail_writes held
times-fail_writes lead c s [] = omega arith
times-fail_writes lead c s ((k, ch) ∷ ws) = omega (
  arith,
  times-fail_writes lead c (answer s ch (not_leader lead)) ws,
  times-append c s.answers ch (not_leader lead),
)

times-fail_reads :
    (lead c : ℕ) (s : Server) (ws : GoMap Bytes ReadWaiter)
    → times c (fail_reads lead s ws).answers ≡ times c s.answers + held read_channel c ws
unfolding fail_reads held
times-fail_reads lead c s [] = omega arith
times-fail_reads lead c s ((k, w) ∷ ws) = omega (
  arith,
  times-fail_reads lead c (answer s w.resp (not_leader lead)) ws,
  times-append c s.answers w.resp (not_leader lead),
)

-- Deposing answers every waiter once.
load-depose : (c : ℕ) (s : Server) (lead : ℕ) → load c (depose s lead) ≡ load c s
unfolding depose load held
load-depose c s lead = omega (
  arith,
  times-fail_reads lead c (fail_writes lead s s.write_waiters) s.read_waiters,
  times-fail_writes lead c s s.write_waiters,
)

pub load-check_leadership :
    (c : ℕ) (s : Server) (leads : Bool) (lead : ℕ)
    → load c (check_leadership s leads lead) ≡ load c s
unfolding check_leadership load
load-check_leadership c s leads lead = ground (arith, load-depose c s lead)
