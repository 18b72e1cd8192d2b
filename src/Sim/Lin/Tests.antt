-- ===== src/Sim/Lin/Tests.antt =====
-- A put and a get, and what the model says of them.
use parallax_kv.Base.{◌≡◌, refl, none, some, [], ◌∷◌, bytes_eq}
use parallax_kv.Base.GoMap
use parallax_kv.Kv.Command.{Command, op_put, op_get, Result, status_ok}
use parallax_kv.Kv.StateMachine.{StateMachine, new_state_machine, execute}
use parallax_kv.Sim.Lin.Executes.{key_state}
use parallax_kv.Sim.Lin.History.{done, step, replay, by_key, replay-run}

abbrev put_a : Command
put_a = record {
  client_id = 1;
  seq = 1;
  op = op_put;
  key = 97 ∷ [];
  value = some (5 ∷ []);
  expect = none;
}

abbrev get_a : Command
get_a = record put_a { seq = 2; op = op_get; value = none }

abbrev has_five : Result
has_five = record { status = status_ok; value = some (5 ∷ []); version = 1 }

abbrev stored : Result
stored = record { status = status_ok; value = none; version = 1 }

abbrev holding : StateMachine
holding = record {
  kvs = (97 ∷ [], record { value = some (5 ∷ []); version = 1 }) ∷ [];
  sessions = GoMap.empty;
}

put_executes : execute new_state_machine put_a ≡ some (stored, holding)
unfolding execute GoMap.get GoMap.put
put_executes = refl

get_executes : execute holding get_a ≡ some (has_five, holding)
unfolding execute GoMap.get
get_executes = refl

replay-run_example :
    replay
      (key_state new_state_machine (97 ∷ []) ∷ [])
      (by_key (97 ∷ []) ((put_a, stored) ∷ (get_a, has_five) ∷ []))
    ≡ key_state holding (97 ∷ []) ∷ []
replay-run_example = replay-run (97 ∷ []) (step put_executes (step get_executes done))
