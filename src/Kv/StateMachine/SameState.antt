-- ===== src/Kv/StateMachine/SameState.antt =====
-- kv/kv.go: state machines with the same records and sessions cannot be told apart by commands.
use parallax_kv.Base.{
  ℕ, ◌≡◌, refl, sym, ap, ◌∙◌, subst, Bool, true, false, Option, none, some, List, [], ◌∷◌, Bytes,
  ltb, ◌==◌, nat_eq, bytes_eq, if◌then◌else◌, add64,
}
use parallax_kv.Base.GoMap
use parallax_kv.Base.GoMap.{get-put, get-delete}
use parallax_kv.Kv.Command.{
  Command, Result, OpType, op_invalid, op_get, op_put, op_delete, op_cas, op_other,
  status_cas_mismatch, status_ok, status_stale_seq,
}
use parallax_kv.Kv.StateMachine.{
  StateMachine, ValueRecord, Session, bare, showing, contents, version_of, get, get_result, store,
  cas_on, cas, remove, dispatch, execute, record_session, after_execute, apply_new, with_session,
  apply,
}
use parallax_kv.Kv.StateMachine.Snapshot.{snapshot, restore}
use parallax_kv.Kv.StateMachine.Snapshot.RoundTrip.{IsStorable, restore-snapshot}

-- The same record for every key, and the same session for every client.
pub record SameState (m n : StateMachine) : Type 0 where
  pub kvs : (k : Bytes) → GoMap.get m.kvs k ≡ GoMap.get n.kvs k
  pub sessions : (id : ℕ) → GoMap.get m.sessions id ≡ GoMap.get n.sessions id

-- Both panic, or both give the same reply and states that are the same.
data Alike : Option (Result × StateMachine) → Option (Result × StateMachine) → Type 0 where
  panics : Alike none none
  replies_alike :
      {m n : StateMachine} (r : Result) → SameState m n → Alike (some (r, m)) (some (r, n))

put-SameState :
    (m n : StateMachine) (k : Bytes) (rec : ValueRecord)
    → SameState m n
    → SameState
        (record m { kvs = GoMap.put m.kvs k rec })
        (record n { kvs = GoMap.put n.kvs k rec })
put-SameState m n k rec s = record {
  kvs = λ j.
      get-put m.kvs k rec j
      ∙ ap (λ o. if k == j then some rec else o) (s.kvs j)
      ∙ sym (get-put n.kvs k rec j);
  sessions = s.sessions;
}

delete-SameState :
    (m n : StateMachine) (k : Bytes)
    → SameState m n
    → SameState (record m { kvs = GoMap.delete m.kvs k }) (record n { kvs = GoMap.delete n.kvs k })
delete-SameState m n k s = record {
  kvs = λ j.
      get-delete m.kvs k j
      ∙ ap (λ o. if k == j then none else o) (s.kvs j)
      ∙ sym (get-delete n.kvs k j);
  sessions = s.sessions;
}

store-Alike :
    (m n : StateMachine) (cmd : Command)
    → SameState m n
    → Alike (some (store m cmd)) (some (store n cmd))
unfolding store
store-Alike m n cmd s =
    subst
      (λ o. Alike (some (store m cmd)) (
        some (
          record { status = status_ok; value = none; version = add64 (version_of o) 1 },
          record n {
            kvs =
                GoMap.put n.kvs cmd.key
                  (record { value = cmd.value; version = add64 (version_of o) 1 });
          },
        )))
      (s.kvs cmd.key) (replies_alike _ (put-SameState m n cmd.key _ s))

remove-Alike :
    (m n : StateMachine) (cmd : Command) (o : Option ValueRecord)
    → SameState m n
    → Alike (some (remove m cmd o)) (some (remove n cmd o))
unfolding remove
remove-Alike m n cmd none s = replies_alike _ s
remove-Alike m n cmd (some rec) s = replies_alike _ (delete-SameState m n cmd.key s)

cas_on-Alike :
    (m n : StateMachine) (cmd : Command) (o : Option ValueRecord) (expect : Option Bytes)
    → SameState m n
    → Alike (some (cas_on m cmd o expect)) (some (cas_on n cmd o expect))
unfolding cas_on
cas_on-Alike m n cmd (some cur) none s = replies_alike _ s
cas_on-Alike m n cmd none none s = store-Alike m n cmd s
cas_on-Alike m n cmd none (some expect) s = replies_alike _ s
cas_on-Alike m n cmd (some cur) (some expect) s = compared (contents cur.value == expect)
  where
    compared :
        (b : Bool)
        → Alike
            (some (if b then store m cmd else (showing status_cas_mismatch cur, m)))
            (some (if b then store n cmd else (showing status_cas_mismatch cur, n)))
    compared true = store-Alike m n cmd s
    compared false = replies_alike _ s

dispatch-Alike :
    (op : OpType) (m n : StateMachine) (cmd : Command)
    → SameState m n
    → Alike (dispatch op m cmd) (dispatch op n cmd)
unfolding dispatch get cas
dispatch-Alike op_get m n cmd s =
    subst (λ o. Alike (some (get m cmd.key, m)) (some (get_result o, n))) (s.kvs cmd.key)
      (replies_alike _ s)
dispatch-Alike op_put m n cmd s = store-Alike m n cmd s
dispatch-Alike op_delete m n cmd s =
    subst (λ o. Alike (some (remove m cmd (GoMap.get m.kvs cmd.key))) (some (remove n cmd o)))
      (s.kvs cmd.key) (remove-Alike m n cmd (GoMap.get m.kvs cmd.key) s)
dispatch-Alike op_cas m n cmd s =
    subst (λ o. Alike (some (cas m cmd)) (some (cas_on n cmd o cmd.expect))) (s.kvs cmd.key)
      (cas_on-Alike m n cmd (GoMap.get m.kvs cmd.key) cmd.expect s)
dispatch-Alike op_invalid m n cmd s = panics
dispatch-Alike (op_other x) m n cmd s = panics

after_execute-Alike :
    (cmd : Command) (o p : Option (Result × StateMachine))
    → Alike o p
    → Alike (after_execute cmd o) (after_execute cmd p)
unfolding after_execute record_session
after_execute-Alike cmd _ _ panics = panics
after_execute-Alike cmd _ _ (replies_alike {m = m} {n = n} r s) = replies_alike r (record {
  kvs = s.kvs;
  sessions = λ id.
      get-put m.sessions cmd.client_id _ id
      ∙ ap
          (λ o.
            if cmd.client_id == id
            then some (record { last_seq = cmd.seq; last_result = r })
            else o)
          (s.sessions id)
      ∙ sym (get-put n.sessions cmd.client_id _ id);
})

apply_new-Alike :
    (m n : StateMachine) (cmd : Command) → SameState m n → Alike (apply_new m cmd) (apply_new n cmd)
unfolding apply_new execute
apply_new-Alike m n cmd s =
    after_execute-Alike cmd (execute m cmd) (execute n cmd) (dispatch-Alike cmd.op m n cmd s)

with_session-Alike :
    (m n : StateMachine) (cmd : Command) (o : Option Session)
    → SameState m n
    → Alike (with_session m cmd o) (with_session n cmd o)
unfolding with_session
with_session-Alike m n cmd none s = apply_new-Alike m n cmd s
with_session-Alike m n cmd (some sess) s =
    compared (cmd.seq == sess.last_seq) (ltb cmd.seq sess.last_seq)
  where
    compared :
        (a b : Bool)
        → Alike
            (if a
              then some (sess.last_result, m)
              else if b
              then some (bare status_stale_seq, m)
              else apply_new m cmd)
            (if a
              then some (sess.last_result, n)
              else if b
              then some (bare status_stale_seq, n)
              else apply_new n cmd)
    compared true b = replies_alike _ s
    compared false true = replies_alike _ s
    compared false false = apply_new-Alike m n cmd s

apply-Alike :
    (m n : StateMachine) (cmd : Command) → SameState m n → Alike (apply m cmd) (apply n cmd)
unfolding apply
apply-Alike m n cmd s =
    subst (λ o. Alike (apply m cmd) (with_session n cmd o)) (s.sessions cmd.client_id)
      (with_session-Alike m n cmd (GoMap.get m.sessions cmd.client_id) s)

-- The replies to a log of commands; `none` if one of them panics.
unfoldable pub replies : StateMachine → List Command → Option (List Result)
replies m [] = some []
replies m (c ∷ cs) = elim (apply m c) [
  | none ↦ none
  | some (r, m') ↦ elim (replies m' cs) [ none ↦ none | some rs ↦ some (r ∷ rs) ]
]

replies-SameState :
    (cs : List Command) (m n : StateMachine) → SameState m n → replies m cs ≡ replies n cs
unfolding replies
replies-SameState [] m n s = refl
replies-SameState (c ∷ cs) m n s =
    both (apply m c) (apply n c) (apply-Alike m n c s) (replies-SameState cs)
  where
    both :
        (o p : Option (Result × StateMachine))
        → Alike o p
        → ((m n : StateMachine) → SameState m n → replies m cs ≡ replies n cs)
        → ◌≡◌ {A = Option (List Result)}
            (elim o [
              | none ↦ none
              | some (r, m') ↦ elim (replies m' cs) [ none ↦ none | some rs ↦ some (r ∷ rs) ]
            ])
            (elim p [
              | none ↦ none
              | some (r, m') ↦ elim (replies m' cs) [ none ↦ none | some rs ↦ some (r ∷ rs) ]
            ])
    both _ _ panics ih = refl
    both _ _ (replies_alike {m = m'} {n = n'} r t) ih =
        ap (λ o. elim o as (λ x. Option (List Result)) [ none ↦ none | some rs ↦ some (r ∷ rs) ])
          (ih m' n' t)

-- A state machine that Restore makes of another one's Snapshot gives the same replies as that one to
-- every sequence of commands, and panics where it does. The numbers, lengths and counts of the
-- snapshot fit their fields.
pub replies-restore :
    (old m : StateMachine) (cs : List Command)
    → IsStorable m
    → replies (restore old (snapshot m)).0 cs ≡ replies m cs
replies-restore old m cs h =
    let (none_failed, kvs, sessions) = restore-snapshot old m h in
    replies-SameState cs (restore old (snapshot m)).0 m (record { kvs = kvs; sessions = sessions })
