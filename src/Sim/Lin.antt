-- ===== src/Sim/Lin.antt =====
-- sim/lin/lin.go: the sequential model of one key that the linearizability checker replays.
pub mod Executes
pub mod History
mod Tests
use parallax_kv.Base.{
  ℕ, Bool, true, false, not, ◌&&◌, ◌||◌, Option, none, some, List, [], ◌∷◌, Bytes, add64, ◌==◌,
  nat_eq, bytes_eq, nat_eqb, if◌then◌else◌,
}
use parallax_kv.Kv.Command.{
  OpType, op_get, op_put, op_delete, op_cas, Command, Status, status_ok, status_not_found,
  status_cas_mismatch, Result,
}
use parallax_kv.Kv.StateMachine.{contents, status_byte}

pub record KeyState : Type 0 where
  pub present : Bool
  pub value : Bytes
  pub version : ℕ

-- `known` is false for an operation that never completed.
pub record LinOutcome : Type 0 where
  pub known : Bool
  pub res : Result

-- keyState{}
abbrev pub absent : KeyState
absent = record { present = false; value = []; version = 0 }

-- a == b on keyState
abbrev bool_eqb : Bool → Bool → Bool
bool_eqb true b = b
bool_eqb false b = not b

same_state : KeyState → KeyState → Bool
same_state a b = bool_eqb a.present b.present && (a.value == b.value && a.version == b.version)

unfoldable pub cas_matches : KeyState → Option Bytes → Bool
cas_matches st none = not st.present
cas_matches st (some expect) = st.present && st.value == expect

-- the state after cmd wrote its value
abbrev pub written : KeyState → Command → KeyState
written st cmd = record { present = true; value = contents cmd.value; version = add64 st.version 1 }

apply_to : OpType → KeyState → Command → KeyState
apply_to op_put st cmd = written st cmd
apply_to op_delete st cmd = absent
apply_to op_cas st cmd = if cas_matches st cmd.expect then written st cmd else st
apply_to _ st cmd = st

unfoldable pub apply_op : KeyState → Command → KeyState
unfolding apply_to cas_matches
apply_op st cmd = apply_to cmd.op st cmd

-- res.Status == s
abbrev status_is : Status → Status → Bool
status_is status_ok status_ok = true
status_is status_not_found status_not_found = true
status_is status_cas_mismatch status_cas_mismatch = true
status_is _ _ = false

abbrev only_if : Bool → KeyState → List KeyState
only_if b st = if b then st ∷ [] else []

-- the reply that shows the key's value and version
shows : KeyState → Status → Result → Bool
shows st s res =
    status_is res.status s && (contents res.value == st.value && res.version == st.version)

unfoldable pub writes : KeyState → Command → Result → List KeyState
writes st cmd res =
    only_if (status_is res.status status_ok && res.version == add64 st.version 1) (written st cmd)

-- the `switch` of stepKV on a completed operation
unfoldable pub step_known : OpType → KeyState → Command → Result → List KeyState
unfolding shows writes cas_matches
step_known op_get st cmd res =
    if st.present
    then only_if (shows st status_ok res) st
    else only_if (status_is res.status status_not_found) st
step_known op_put st cmd res = writes st cmd res
step_known op_delete st cmd res =
    if st.present
    then only_if (status_is res.status status_ok) absent
    else only_if (status_is res.status status_not_found) st
step_known op_cas st cmd res =
    if cas_matches st cmd.expect
    then writes st cmd res
    else if st.present
    then only_if (shows st status_cas_mismatch res) st
    else only_if (status_is res.status status_cas_mismatch) st
step_known _ st cmd res = []

step_unknown : KeyState → KeyState → List KeyState
unfolding same_state
step_unknown after st = if same_state after st then st ∷ [] else after ∷ st ∷ []

unfoldable pub step_kv : KeyState → Command → LinOutcome → List KeyState
unfolding step_known step_unknown apply_op
step_kv st cmd out =
    if out.known then step_known cmd.op st cmd out.res else step_unknown (apply_op st cmd) st
