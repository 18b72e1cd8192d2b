-- ===== src/Kv/StateMachine/Sessions.antt =====
-- The session table of kv/kv.go: what a client sees when it retries.
use parallax_kv.Base.{
  ℕ, ◌<◌, ◌≤◌, ◌≡◌, ◌≢◌, refl, Option, none, some, inl, inr, arith, ltb, ltb→lt, ap, ◌==◌, nat_eq,
  bytes_eq, Bool-cases,
}
use parallax_kv.Base.GoMap
use parallax_kv.Base.GoMap.{get-put_self, get-put_ne, eqb_refl}
use parallax_kv.Kv.Command.{
  Command, Result, status_stale_seq, op_get, op_put, op_delete, op_cas, op_invalid, op_other,
  OpType,
}
use parallax_kv.Kv.StateMachine.{
  StateMachine, Session, bare, dispatch, execute, apply, after_execute, apply_new, with_session,
}

-- the session of a client
abbrev pub session : StateMachine → ℕ → Option Session
session m id = GoMap.get m.sessions id

-- Execution leaves the session table alone.
sessions-dispatch :
    (op : OpType) (m : StateMachine) (cmd : Command) {r : Result} {m' : StateMachine}
    → dispatch op m cmd ≡ some (r, m')
    → m'.sessions ≡ m.sessions
unfolding dispatch
sessions-dispatch op_get m cmd h = ground arith
sessions-dispatch op_put m cmd h = ground arith
sessions-dispatch op_delete m cmd h = ground arith
sessions-dispatch op_cas m cmd h = ground arith
sessions-dispatch op_invalid m cmd h = ground arith
sessions-dispatch (op_other n) m cmd h = ground arith

pub sessions-execute :
    (m : StateMachine) (cmd : Command) {r : Result} {m' : StateMachine}
    → execute m cmd ≡ some (r, m')
    → m'.sessions ≡ m.sessions
unfolding execute
sessions-execute m cmd h = sessions-dispatch cmd.op m cmd h

-- After a command was accepted the session holds its number and its result; after a stale one
-- nothing has changed. The sessions of other clients stay.
pub data Applied (m : StateMachine) (cmd : Command) (r : Result) (m' : StateMachine) : Type 0 where
  recorded :
      session m' cmd.client_id ≡ some (record { last_seq = cmd.seq; last_result = r })
      → ((s : Session) → session m cmd.client_id ≡ some s → s.last_seq ≤ cmd.seq)
      → ((id : ℕ) → cmd.client_id ≢ id → session m' id ≡ session m id)
      → Applied m cmd r m'
  stale :
      (s : Session)
      → session m cmd.client_id ≡ some s
      → cmd.seq < s.last_seq
      → r ≡ bare status_stale_seq
      → m' ≡ m
      → Applied m cmd r m'

module _ (m : StateMachine) (cmd : Command) {r : Result} {m' : StateMachine} where
  session-after_execute :
      (o : Option (Result × StateMachine))
      → after_execute cmd o ≡ some (r, m')
      → session m' cmd.client_id ≡ some (record { last_seq = cmd.seq; last_result = r })
  unfolding after_execute
  session-after_execute none h = cc
  session-after_execute (some (r', n)) h =
      cc (get-put_self n.sessions cmd.client_id (record { last_seq = cmd.seq; last_result = r' }))

  session-after_execute_ne :
      (o : Option (Result × StateMachine))
      → execute m cmd ≡ o
      → after_execute cmd o ≡ some (r, m')
      → (id : ℕ) → cmd.client_id ≢ id
      → session m' id ≡ session m id
  unfolding after_execute
  session-after_execute_ne none e h id d = cc
  session-after_execute_ne (some (r', n)) e h id d = cc (
    get-put_ne n.sessions cmd.client_id (record { last_seq = cmd.seq; last_result = r' }) id d,
    sessions-execute m cmd e,
  )

  new-Applied :
      apply_new m cmd ≡ some (r, m')
      → ((s : Session) → session m cmd.client_id ≡ some s → s.last_seq ≤ cmd.seq)
      → Applied m cmd r m'
  unfolding apply_new
  new-Applied h newer =
      recorded (session-after_execute (execute m cmd) h) newer
        (session-after_execute_ne (execute m cmd) refl h)

  with_session-Applied :
      (o : Option Session)
      → session m cmd.client_id ≡ o
      → with_session m cmd o ≡ some (r, m')
      → Applied m cmd r m'
  unfolding with_session
  with_session-Applied none e h = new-Applied h (λ s found. cc)
  with_session-Applied (some s) e h = elim (Bool-cases (cmd.seq == s.last_seq)) [
    | inl same ↦
        recorded (ground arith) (λ t found. ground arith)
          (λ id d. ap (λ (n : StateMachine). session n id) {x = m'} {y = m} (ground arith))
    | inr other ↦ elim (Bool-cases (ltb cmd.seq s.last_seq)) [
      | inl old ↦ stale s e (ltb→lt _ _ old) (ground arith) (ground arith)
      | inr new ↦ new-Applied (ground arith) (λ t found. ground arith)
    ]
  ]

pub apply-Applied :
    (m : StateMachine) (cmd : Command) {r : Result} {m' : StateMachine}
    → apply m cmd ≡ some (r, m')
    → Applied m cmd r m'
unfolding apply
apply-Applied m cmd h = with_session-Applied m cmd (session m cmd.client_id) refl h
