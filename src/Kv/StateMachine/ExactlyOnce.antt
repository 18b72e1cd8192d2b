-- ===== src/Kv/StateMachine/ExactlyOnce.antt =====
-- Exactly-once apply of kv/kv.go: what a retry meets, at once and after any other commands.
use parallax_kv.Base.{
  ℕ, ◌<◌, ◌≤◌, ◌≡◌, Option, none, some, List, [], ◌∷◌, inl, inr, arith, ltb, ltb→lt, ap, sym, subst,
  ℕ_discrete, ◌∙◌, nat_eq, bytes_eq, Option-cases, Bool-cases,
}
use parallax_kv.Base.GoMap.{eqb_refl}
use parallax_kv.Kv.Command.{Command, Result, status_stale_seq}
use parallax_kv.Kv.StateMachine.{StateMachine, Session, bare, apply}
use parallax_kv.Kv.StateMachine.Sessions.{session, Applied, recorded, stale, apply-Applied}

-- What a recorded session makes of a retry.
apply_recorded :
    (m : StateMachine) (cmd : Command) (r : Result)
    → session m cmd.client_id ≡ some (record { last_seq = cmd.seq; last_result = r })
    → apply m cmd ≡ some (r, m)
unfolding apply
apply_recorded m cmd r e = rw (e, apply) (rw (eqb_refl cmd.seq))

apply_stale :
    (m : StateMachine) (cmd : Command) (s : Session)
    → session m cmd.client_id ≡ some s
    → cmd.seq < s.last_seq
    → apply m cmd ≡ some (bare status_stale_seq, m)
unfolding apply
apply_stale m cmd s e lt = rw (e, apply) (ground arith)

Applied-retry :
    (m : StateMachine) (cmd : Command) {r : Result} {m' : StateMachine}
    → apply m cmd ≡ some (r, m')
    → Applied m cmd r m'
    → apply m' cmd ≡ some (r, m')
Applied-retry m cmd {r} {m'} h (recorded e _ _) = apply_recorded m' cmd r e
Applied-retry m cmd h (stale s e lt re me) = cc

-- Applying a command a second time, right after the first, gives the reply of the first time and
-- leaves the state machine as it is, if the first time did not panic.
pub apply-apply :
    (m : StateMachine) (cmd : Command) {r : Result} {m' : StateMachine}
    → apply m cmd ≡ some (r, m')
    → apply m' cmd ≡ some (r, m')
apply-apply m cmd h = Applied-retry m cmd h (apply-Applied m cmd h)

-- The client has a session that has come as far as `n`.
pub record HasSeen (m : StateMachine) (id n : ℕ) : Type 0 where
  pub sess : Session
  pub found : session m id ≡ some sess
  pub reached : n ≤ sess.last_seq

HasSeen-retry :
    (m : StateMachine) (cmd : Command)
    → HasSeen m cmd.client_id cmd.seq
    → (r : Result) × (apply m cmd ≡ some (r, m))
unfolding apply
HasSeen-retry m cmd seen = elim (Bool-cases (ltb cmd.seq seen.sess.last_seq)) [
  | inl old ↦ (bare status_stale_seq, apply_stale m cmd seen.sess seen.found (ltb→lt _ _ old))
  | inr same ↦ (
    seen.sess.last_result,
    apply_recorded m cmd seen.sess.last_result
        (seen.found ∙ ap some (ground (arith, seen.reached))),
  )
]

HasSeen-Applied :
    {m m' : StateMachine} (cmd : Command) {r : Result} (id n : ℕ)
    → Applied m cmd r m'
    → HasSeen m id n
    → HasSeen m' id n
HasSeen-Applied {m} {m'} cmd {r} id n (recorded e newer others) seen =
    elim (ℕ_discrete cmd.client_id id) [
      | yes same ↦ record {
        sess = record { last_seq = cmd.seq; last_result = r };
        found = ap (session m') (sym same) ∙ e;
        reached = omega (arith, newer seen.sess (ap (session m) same ∙ seen.found), seen.reached);
      }
      | no other ↦ record {
        sess = seen.sess;
        found = others id other ∙ seen.found;
        reached = seen.reached;
      }
    ]
HasSeen-Applied cmd id n (stale s e lt re me) seen = record {
  sess = seen.sess;
  found = ap (λ (k : StateMachine). session k id) me ∙ seen.found;
  reached = seen.reached;
}

Applied-HasSeen :
    {m m' : StateMachine} (cmd : Command) {r : Result}
    → Applied m cmd r m'
    → HasSeen m' cmd.client_id cmd.seq
Applied-HasSeen cmd {r} (recorded e _ _) = record {
  sess = record { last_seq = cmd.seq; last_result = r };
  found = e;
  reached = omega arith;
}
Applied-HasSeen cmd (stale s e lt re me) = record {
  sess = s;
  found = ap (λ (k : StateMachine). session k cmd.client_id) me ∙ e;
  reached = omega arith;
}

-- The apply loop over a log of commands; `none` if one of them panics.
unfoldable pub apply_all : StateMachine → List Command → Option StateMachine
apply_all m [] = some m
apply_all m (c ∷ cs) = elim (apply m c) [ none ↦ none | some (r, m') ↦ apply_all m' cs ]

HasSeen-apply_all :
    (cs : List Command) (m : StateMachine) {m' : StateMachine} (id n : ℕ)
    → HasSeen m id n
    → apply_all m cs ≡ some m'
    → HasSeen m' id n
unfolding apply_all
HasSeen-apply_all [] m id n seen h = subst (λ k. HasSeen k id n) (cc) seen
HasSeen-apply_all (c ∷ cs) m id n seen h = elim (Option-cases (apply m c)) [
  | inl e ↦ absurd (ground arith)
  | inr ((r, m1), e) ↦
      HasSeen-apply_all cs m1 id n (HasSeen-Applied c id n (apply-Applied m c e) seen)
        (ground arith)
]

-- Exactly-once apply: after a command was applied, and then any commands of any clients were,
-- none with a panic, applying the command again returns a reply and leaves the state machine as
-- it is.
pub apply_once :
    (m : StateMachine) (cmd : Command) (cs : List Command) {r : Result} {m1 m2 : StateMachine}
    → apply m cmd ≡ some (r, m1)
    → apply_all m1 cs ≡ some m2
    → (r' : Result) × (apply m2 cmd ≡ some (r', m2))
apply_once m cmd cs {m1 = m1} {m2 = m2} h hs =
    HasSeen-retry m2 cmd (
      HasSeen-apply_all cs m1 cmd.client_id cmd.seq (Applied-HasSeen cmd (apply-Applied m cmd h))
        hs)
