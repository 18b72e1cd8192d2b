-- ===== src/Kv/StateMachine/Total.antt =====
-- kv/kv.go, Apply: which commands do not panic.
use parallax_kv.Base.{
  ◌≡◌, refl, Bool, true, false, Option, none, some, ok, Bytes, ltb, ◌==◌, nat_eq, if◌then◌else◌,
}
use parallax_kv.Base.GoMap
use parallax_kv.Kv.Command.{
  Command, Result, OpType, op_invalid, op_get, op_put, op_delete, op_cas, op_other,
  status_stale_seq, decode_command,
}
use parallax_kv.Kv.Command.Valid.{is_client_op, decode_command_valid}
use parallax_kv.Kv.StateMachine.{
  StateMachine, Session, bare, dispatch, execute, after_execute, apply_new, with_session, apply,
}

Replies : Option (Result × StateMachine) → Type 0
Replies o = (r : Result) × (m : StateMachine) × (o ≡ some (r, m))

dispatch-Replies :
    (op : OpType) (m : StateMachine) (cmd : Command)
    → is_client_op op ≡ true
    → Replies (dispatch op m cmd)
unfolding dispatch Replies
dispatch-Replies op_get m cmd h = (_, _, refl)
dispatch-Replies op_put m cmd h = (_, _, refl)
dispatch-Replies op_delete m cmd h = (_, _, refl)
dispatch-Replies op_cas m cmd h = (_, _, refl)
dispatch-Replies op_invalid m cmd h = cc
dispatch-Replies (op_other n) m cmd h = cc

after_execute-Replies :
    (cmd : Command) (o : Option (Result × StateMachine)) → Replies o → Replies (after_execute cmd o)
unfolding after_execute Replies
after_execute-Replies cmd none (r, m, e) = cc
after_execute-Replies cmd (some p) (r, m, e) = (_, _, refl)

with_session-Replies :
    (m : StateMachine) (cmd : Command) (o : Option Session)
    → is_client_op cmd.op ≡ true
    → Replies (with_session m cmd o)
unfolding with_session apply_new execute Replies
with_session-Replies m cmd none h =
    after_execute-Replies cmd (execute m cmd) (dispatch-Replies cmd.op m cmd h)
with_session-Replies m cmd (some sess) h =
    compared (cmd.seq == sess.last_seq) (ltb cmd.seq sess.last_seq)
  where
    compared :
        (a b : Bool)
        → Replies (
            if a
            then some (sess.last_result, m)
            else if b
            then some (bare status_stale_seq, m)
            else apply_new m cmd)
    compared true b = (_, _, refl)
    compared false true = (_, _, refl)
    compared false false =
        after_execute-Replies cmd (execute m cmd) (dispatch-Replies cmd.op m cmd h)

apply-Replies :
    (m : StateMachine) (cmd : Command) → is_client_op cmd.op ≡ true → Replies (apply m cmd)
unfolding apply
apply-Replies m cmd h = with_session-Replies m cmd (GoMap.get m.sessions cmd.client_id) h

-- Apply does not panic for a command that DecodeCommand has returned, whatever the state machine
-- holds.
pub apply_total :
    (m : StateMachine) (input : Bytes) (cmd : Command)
    → decode_command input ≡ ok cmd
    → (r : Result) × (m' : StateMachine) × (apply m cmd ≡ some (r, m'))
unfolding Replies
apply_total m input cmd h = apply-Replies m cmd (decode_command_valid input cmd h)
