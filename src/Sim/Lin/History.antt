-- ===== src/Sim/Lin/History.antt =====
-- A sequential run of the store, replayed key by key as Partition and Step of sim/lin/lin.go do.
use parallax_kv.Base.{
  ◌≡◌, refl, ap, ◌∙◌, sym, some, List, [], ◌∷◌, ◌++◌, subst, Bytes, ◌==◌, bytes_eq, bytes_eqb_iff,
  if◌then◌else◌, Bool-cases, inl, inr,
}
use parallax_kv.Kv.Command.{Command, Result}
use parallax_kv.Kv.StateMachine.{StateMachine, execute}
use parallax_kv.Sim.Lin.{KeyState, step_kv}
use parallax_kv.Sim.Lin.Executes.{state_of, key_state, observed, step_kv-execute, get-execute_ne}

abbrev pub History : Type 0
History = List (Command × Result)

-- byKey[k]: the operations on one key, in their order
unfoldable pub by_key : Bytes → History → History
by_key k [] = []
by_key k ((cmd, r) ∷ h) = if cmd.key == k then (cmd, r) ∷ by_key k h else by_key k h

-- the states that a list of completed operations may lead to
unfoldable pub step_each : List KeyState → Command → Result → List KeyState
step_each [] cmd r = []
step_each (st ∷ sts) cmd r = step_kv st cmd (observed r) ++ step_each sts cmd r

unfoldable pub replay : List KeyState → History → List KeyState
replay sts [] = sts
replay sts ((cmd, r) ∷ h) = replay (step_each sts cmd r) h

-- A run: each command executes, and its reply is noted.
pub data Run : StateMachine → History → StateMachine → Type 0 where
  done : {m : StateMachine} → Run m [] m
  step :
      {m m' n : StateMachine} {h : History} {cmd : Command} {r : Result}
      → execute m cmd ≡ some (r, m')
      → Run m' h n
      → Run m ((cmd, r) ∷ h) n

step_each_one :
    (st : KeyState) (cmd : Command) (r : Result) (st' : KeyState)
    → step_kv st cmd (observed r) ≡ st' ∷ []
    → step_each (st ∷ []) cmd r ≡ st' ∷ []
unfolding step_each
step_each_one st cmd r st' e = rw e

-- Whatever commands the store executes one after the other without a panic, the model accepts
-- the run of every key: it replays the key's commands and replies from the state before to the
-- state after, and to no other.
pub replay-run :
    (k : Bytes) {m n : StateMachine} {h : History}
    → Run m h n
    → replay (key_state m k ∷ []) (by_key k h) ≡ key_state n k ∷ []
unfolding replay by_key
replay-run k done = refl
replay-run k (step {m = m} {m' = m'} {h = h} {cmd = cmd} {r = r} e run) =
    elim (Bool-cases (cmd.key == k)) [
      | inl same ↦
          let at_key : cmd.key ≡ k = (bytes_eqb_iff cmd.key k).0 same in
          rw same (
            ap (λ sts. replay sts (by_key k h))
              (step_each_one (key_state m k) cmd r (key_state m' k) (
                subst (λ j. step_kv (key_state m j) cmd (observed r) ≡ key_state m' j ∷ []) at_key
                  (step_kv-execute m cmd e)))
            ∙ replay-run k run)
      | inr other ↦ rw other (
          ap (λ o. replay (state_of o ∷ []) (by_key k h))
            (sym (get-execute_ne m cmd e k (λ p. cc (other, (bytes_eqb_iff cmd.key k).1 p))))
          ∙ replay-run k run)
    ]
