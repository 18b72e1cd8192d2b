-- ===== src/Sim/Lin/Executes.antt =====
-- The model of sim/lin/lin.go against the state machine of kv/kv.go.
use parallax_kv.Base.{
  ◌≡◌, ◌≢◌, refl, ◌∙◌, true, Option, none, some, [], ◌∷◌, Bytes, arith, ◌==◌, nat_eq, bytes_eq,
  Bool-cases, inl, inr, bytes_eqb_iff, add64,
}
use parallax_kv.Base.GoMap
use parallax_kv.Base.GoMap.{get-put, get-put_self, get-put_ne, get-delete, eqb_refl}
use parallax_kv.Kv.Command.{
  OpType, op_get, op_put, op_delete, op_cas, op_invalid, op_other, Command, Result,
}
use parallax_kv.Kv.StateMachine.{
  ValueRecord, StateMachine, contents, execute, version_of, store, get, remove, cas_on, dispatch,
}
use parallax_kv.Sim.Lin.{KeyState, LinOutcome, absent, step_kv, step_known, writes}

abbrev pub state_of : Option ValueRecord → KeyState
state_of none = absent
state_of (some rec) = record { present = true; value = contents rec.value; version = rec.version }

-- what the model sees of one key
abbrev pub key_state : StateMachine → Bytes → KeyState
key_state m key = state_of (GoMap.get m.kvs key)

abbrev pub observed : Result → LinOutcome
observed r = record { known = true; res = r }

-- the record that a write leaves
abbrev next : Command → Option ValueRecord → ValueRecord
next cmd o = record { value = cmd.value; version = add64 (version_of o) 1 }

module _ (m : StateMachine) (cmd : Command) where
  -- A step of the model from the key's state, against the reply and the state that `p` gives.
  abbrev Agrees : OpType → Option ValueRecord → Result × StateMachine → Type 0
  Agrees op o p = step_known op (state_of o) cmd p.0 ≡ key_state p.1 cmd.key ∷ []

  store-writes :
      (o : Option ValueRecord)
      → GoMap.get m.kvs cmd.key ≡ o
      → writes (state_of o) cmd (store m cmd).0 ≡ key_state (store m cmd).1 cmd.key ∷ []
  unfolding store writes
  store-writes none g = ground (arith, get-put_self m.kvs cmd.key (next cmd none))
  store-writes (some cur) g = ground (arith, get-put_self m.kvs cmd.key (next cmd (some cur)))

  get-Agrees :
      (o : Option ValueRecord) → GoMap.get m.kvs cmd.key ≡ o → Agrees op_get o (get m cmd.key, m)
  unfolding get step_known
  get-Agrees none g = ground arith
  get-Agrees (some cur) g = ground (arith, eqb_refl (contents cur.value))

  remove-Agrees :
      (o : Option ValueRecord) → GoMap.get m.kvs cmd.key ≡ o → Agrees op_delete o (remove m cmd o)
  unfolding remove step_known
  remove-Agrees none g = ground arith
  remove-Agrees (some cur) g = ground (arith, get-delete m.kvs cmd.key cmd.key, eqb_refl cmd.key)

  cas-Agrees :
      (o : Option ValueRecord) (x : Option Bytes)
      → GoMap.get m.kvs cmd.key ≡ o
      → cmd.expect ≡ x
      → Agrees op_cas o (cas_on m cmd o x)
  unfolding cas_on step_known
  cas-Agrees none none g e = ground (arith, store-writes none)
  cas-Agrees none (some x) g e = ground arith
  cas-Agrees (some cur) none g e = ground (arith, eqb_refl (contents cur.value))
  cas-Agrees (some cur) (some x) g e =
      ground (arith, store-writes (some cur), eqb_refl (contents cur.value))

  dispatch-Agrees :
      (op : OpType) {r : Result} {m' : StateMachine}
      → dispatch op m cmd ≡ some (r, m')
      → Agrees op (GoMap.get m.kvs cmd.key) (r, m')
  unfolding dispatch step_known
  dispatch-Agrees op_get h = cc (h, get-Agrees (GoMap.get m.kvs cmd.key) refl)
  dispatch-Agrees op_put h = cc (h, store-writes (GoMap.get m.kvs cmd.key) refl)
  dispatch-Agrees op_delete h = cc (h, remove-Agrees (GoMap.get m.kvs cmd.key) refl)
  dispatch-Agrees op_cas h = cc (h, cas-Agrees (GoMap.get m.kvs cmd.key) cmd.expect refl refl)
  dispatch-Agrees op_invalid h = cc
  dispatch-Agrees (op_other n) h = cc

  -- What the state machine executes without a panic, the checker's model accepts: from the state
  -- of the command's key, with the reply that was given, it steps to the new state of that key
  -- and to no other.
  pub step_kv-execute :
      {r : Result} {m' : StateMachine}
      → execute m cmd ≡ some (r, m')
      → step_kv (key_state m cmd.key) cmd (observed r) ≡ key_state m' cmd.key ∷ []
  unfolding execute step_kv
  step_kv-execute h = dispatch-Agrees cmd.op h

  store_ne : (j : Bytes) → cmd.key ≢ j → GoMap.get (store m cmd).1.kvs j ≡ GoMap.get m.kvs j
  unfolding store
  store_ne j d = get-put_ne m.kvs cmd.key (next cmd (GoMap.get m.kvs cmd.key)) j d

  remove_ne :
      (o : Option ValueRecord) (j : Bytes)
      → cmd.key ≢ j
      → GoMap.get (remove m cmd o).1.kvs j ≡ GoMap.get m.kvs j
  unfolding remove
  remove_ne none j d = refl
  remove_ne (some cur) j d = get-delete m.kvs cmd.key j ∙ ground (arith, bytes_eqb_iff cmd.key j)

  cas_on_ne :
      (o : Option ValueRecord) (x : Option Bytes) (j : Bytes)
      → cmd.key ≢ j
      → GoMap.get (cas_on m cmd o x).1.kvs j ≡ GoMap.get m.kvs j
  unfolding cas_on
  cas_on_ne none none j d = store_ne j d
  cas_on_ne none (some x) j d = refl
  cas_on_ne (some cur) none j d = refl
  cas_on_ne (some cur) (some x) j d = elim (Bool-cases (contents cur.value == x)) [
    | inl same ↦ rw same (store_ne j d)
    | inr other ↦ rw other
  ]

  get-dispatch_ne :
      (op : OpType) {r : Result} {m' : StateMachine}
      → dispatch op m cmd ≡ some (r, m')
      → (j : Bytes) → cmd.key ≢ j
      → GoMap.get m'.kvs j ≡ GoMap.get m.kvs j
  unfolding dispatch
  get-dispatch_ne op_get h j d = cc
  get-dispatch_ne op_put h j d = cc (h, store_ne j d)
  get-dispatch_ne op_delete h j d = cc (h, remove_ne (GoMap.get m.kvs cmd.key) j d)
  get-dispatch_ne op_cas h j d = cc (h, cas_on_ne (GoMap.get m.kvs cmd.key) cmd.expect j d)
  get-dispatch_ne op_invalid h j d = cc
  get-dispatch_ne (op_other n) h j d = cc

  -- A command that executes without a panic leaves the record of every key but its own.
  pub get-execute_ne :
      {r : Result} {m' : StateMachine}
      → execute m cmd ≡ some (r, m')
      → (j : Bytes) → cmd.key ≢ j
      → GoMap.get m'.kvs j ≡ GoMap.get m.kvs j
  unfolding execute
  get-execute_ne h = get-dispatch_ne cmd.op h
