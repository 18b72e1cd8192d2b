-- ===== src/Raft/Node/Batch.antt =====
-- raft/node.go, Ready and Advance: what a batch asks the driver to make durable.
use parallax_kv.Base.{
  ◌≡◌, refl, sym, subst, ap, ◌∙◌, true, false, not, ◌&&◌, ◌||◌, Option, none, some, List, [], ◌∷◌,
  arith, if◌then◌else◌, nat_eq,
}
use mathlib.Core.Option.{some-injective}
use parallax_kv.Base.Panics.{◌>>=◌}
use parallax_kv.Base.Returns.{bind-eq-some}
use parallax_kv.Raft.Types.{HardState, Ready}
use parallax_kv.Raft.Log
use parallax_kv.Raft.Core.{Raft, hard_state}
use parallax_kv.Raft.Node.{
  Node, ready, ready_of, advance, acknowledge, same_hard_state, promises, is_some, is_empty,
  or_else, stabilise, stabilise_snapshot, mark_applied,
}

-- A batch that may be written without an fsync: it has nothing but a commit index to store.
pub record NeedsNoSync (prev : HardState) (r : Raft) (rd : Ready) : Type 0 where
  pub entries : rd.entries ≡ []
  pub snapshot : rd.snapshot ≡ none
  pub term : r.term ≡ prev.term
  pub vote : r.vote ≡ prev.vote

is_empty-nil : {A : Type 0} (xs : List A) → is_empty xs ≡ true → xs ≡ []
is_empty-nil [] h = refl
is_empty-nil (x ∷ xs) h = cc

is_some-none : {A : Type 0} (o : Option A) → is_some o ≡ false → o ≡ none
is_some-none none h = refl
is_some-none (some a) h = cc

-- The fields of a batch.
ready_of-fields :
    (r : Raft) (rd : Ready)
    → ready_of r ≡ some rd
    → (rd.entries ≡ r.raft_log.unstable.entries)
      × (rd.snapshot ≡ r.raft_log.unstable.snapshot)
      × (rd.messages ≡ r.msgs)
      × (rd.read_states ≡ r.read_states)
      × (rd.must_sync ≡ (
          not (is_empty r.raft_log.unstable.entries)
          || (is_some r.raft_log.unstable.snapshot
              || not (same_hard_state (hard_state r) r.prev_hard_st)
                && promises r.prev_hard_st (hard_state r))))
      × (rd.hard_state ≡ (
          if not (same_hard_state (hard_state r) r.prev_hard_st)
          then some (hard_state r)
          else none))
unfolding ready_of
ready_of-fields r rd e =
    let (c, done, rest) = bind-eq-some (Log.next_committed_ents r.raft_log) _ e in
    let same = some-injective _ _ (sym rest) in
    (
      ap (λ z. z.entries) same,
      ap (λ z. z.snapshot) same,
      ap (λ z. z.messages) same,
      ap (λ z. z.read_states) same,
      ap (λ z. z.must_sync) same,
      ap (λ z. z.hard_state) same,
    )

-- A batch without MustSync has no entries and no snapshot to store, and the term and the vote of
-- the node are those of the hard state that was handed out before.
pub ready_of-NeedsNoSync :
    (r : Raft) (rd : Ready)
    → ready_of r ≡ some rd
    → rd.must_sync ≡ false
    → NeedsNoSync r.prev_hard_st r rd
unfolding hard_state
ready_of-NeedsNoSync r rd e h =
    let (entries, snapshot, msgs, rs, sync, hs) = ready_of-fields r rd e in
    let off = sym sync ∙ h in
    record {
      entries = entries ∙ is_empty-nil _ (ground arith);
      snapshot = snapshot ∙ is_some-none _ (ground arith);
      term = ground arith;
      vote = ground arith;
    }

same_hard_state-eq : (a b : HardState) → same_hard_state a b ≡ true → a ≡ b
same_hard_state-eq a b h = ground arith

-- What Advance compares with from now on is what the node had.
or_else-hard_state :
    (prev hs : HardState)
    → or_else (if not (same_hard_state hs prev) then some hs else none) prev ≡ hs
or_else-hard_state prev hs = ground (arith, same_hard_state-eq hs prev)

acknowledge-fields :
    (r s : Raft) (rd : Ready)
    → acknowledge r rd ≡ some s
    → (s.msgs ≡ []) × (s.read_states ≡ []) × (s.prev_hard_st ≡ or_else rd.hard_state r.prev_hard_st)
unfolding acknowledge
acknowledge-fields r s rd e =
    let (l, done, rest) = bind-eq-some (stabilise r.raft_log rd.entries) _ e in
    let (l', done', rest') =
      bind-eq-some (mark_applied (stabilise_snapshot l rd.snapshot) rd.committed_entries) _ rest in
    let same = some-injective _ _ (sym rest') in
    (ap (λ z. z.msgs) same, ap (λ z. z.read_states) same, ap (λ z. z.prev_hard_st) same)

advance-pending :
    (k t : Node) (rd : Ready) (o : Option Ready)
    → o ≡ some rd
    → ◌≡◌ {A = Option Node}
        (elim o [
          | none ↦ some k
          | some rd' ↦ do
            r ← acknowledge k.raft rd'
            some (record { raft = r; pending_ready = none })
        ])
        (some t)
    → (s : Raft) × (acknowledge k.raft rd ≡ some s)
      × (t ≡ record { raft = s; pending_ready = none })
advance-pending k t rd none p e = cc
advance-pending k t rd (some rd') p e =
    let (s, done, rest) = bind-eq-some (acknowledge k.raft rd') _ e in
    (
      s,
      subst (λ z. acknowledge k.raft z ≡ some s) (some-injective _ _ p) done,
      some-injective _ _ (sym rest),
    )

-- After Ready and then Advance, where neither panics, the batch had all messages and read states
-- of the node, none of them is left, no batch is pending, and the hard state with which the next
-- one compares is that of the node at Ready.
pub ready-advance :
    (n k t : Node) (rd : Ready)
    → ready n ≡ some (rd, k)
    → advance k ≡ some t
    → (rd.messages ≡ n.raft.msgs)
      × (rd.read_states ≡ n.raft.read_states)
      × (t.raft.msgs ≡ [])
      × (t.raft.read_states ≡ [])
      × (t.raft.prev_hard_st ≡ hard_state n.raft)
      × (t.pending_ready ≡ none)
unfolding ready advance
ready-advance n k t rd e a =
    let (rd', done, rest) = bind-eq-some (ready_of n.raft) _ e in
    let both = some-injective _ _ rest in
    let batch : rd' ≡ rd = ap (λ z. z.0) both in
    let pending : k.pending_ready ≡ some rd =
      ap (λ z. z.1.pending_ready) (sym both) ∙ ap some batch in
    let raft : k.raft ≡ n.raft = ap (λ z. z.1.raft) (sym both) in
    let (s, acked, left) = advance-pending k t rd k.pending_ready pending a in
    let (es, sn, msgs, rs, sync, hs) =
      ready_of-fields n.raft rd (subst (λ z. ready_of n.raft ≡ some z) batch done) in
    let (no_msgs, no_states, prev) = acknowledge-fields k.raft s rd acked in
    let at = ap (λ z. z.raft) left in
    (
      msgs,
      rs,
      ap (λ z. z.msgs) at ∙ no_msgs,
      ap (λ z. z.read_states) at ∙ no_states,
      ap (λ z. z.prev_hard_st) at
          ∙ prev
          ∙ ap (or_else rd.hard_state) (ap (λ z. z.prev_hard_st) raft)
          ∙ ap (λ h. or_else h n.raft.prev_hard_st) hs
          ∙ or_else-hard_state n.raft.prev_hard_st (hard_state n.raft),
      ap (λ z. z.pending_ready) left,
    )
