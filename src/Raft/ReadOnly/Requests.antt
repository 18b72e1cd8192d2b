-- ===== src/Raft/ReadOnly/Requests.antt =====
-- raft/readonly.go, addRequest and recvAck: how the queue grows, and what an acknowledgement changes.
use parallax_kv.Base.{
  ℕ, ◌≡◌, ◌≢◌, refl, sym, ap, ◌∙◌, true, Option, none, some, List, [], ◌∷◌, ◌++◌, Bytes, arith,
  ◌==◌, bytes_eq, nat_eq, Bool-cases, inl, inr, length,
}
use mathlib.Core.Option.{some-injective}
use parallax_kv.Base.GoMap
use parallax_kv.Base.GoMap.{GoMap, get-put, get-put_self}
use parallax_kv.Raft.Types.{Message}
use parallax_kv.Raft.ReadOnly.{ReadIndexStatus, ReadOnly, add_request, recv_ack}
use parallax_kv.Raft.ReadOnly.Order.{
  Pending, idle, waiting, Fresh, unseen, beyond, IsDistinct, alone, once, IsConsistent,
}

none≢some : {A : Type 0} {a : A} → ¬ (none ≡ some a)
none≢some e = cc

-- A context without a pending request is not queued.
missing-Fresh :
    (p : GoMap Bytes ReadIndexStatus) (k : Bytes) (queue : List Bytes)
    → GoMap.get p k ≡ none
    → Pending p queue
    → Fresh k queue
missing-Fresh p k [] h idle = unseen
missing-Fresh p k (ctx ∷ queue) h (waiting rs held same w) =
    beyond (λ e. none≢some (sym h ∙ ap (GoMap.get p) e ∙ held)) (missing-Fresh p k queue h w)

snoc-IsDistinct :
    (k : Bytes) (queue : List Bytes)
    → Fresh k queue
    → IsDistinct queue
    → IsDistinct (queue ++ k ∷ [])
snoc-IsDistinct k [] f alone = once unseen alone
snoc-IsDistinct k (c ∷ queue) (beyond ne f) (once g d) =
    once (snoc-Fresh c k queue (λ e. ne (sym e)) g) (snoc-IsDistinct k queue f d)
  where
    snoc-Fresh : (c k : Bytes) (q : List Bytes) → c ≢ k → Fresh c q → Fresh c (q ++ k ∷ [])
    snoc-Fresh c k [] h unseen = beyond h unseen
    snoc-Fresh c k (x ∷ q) h (beyond ne f) = beyond ne (snoc-Fresh c k q h f)

-- A changed or new request of one context.
put-Pending :
    (p : GoMap Bytes ReadIndexStatus) (k : Bytes) (rs : ReadIndexStatus) (queue : List Bytes)
    → rs.req.context ≡ k
    → Pending p queue
    → Pending (GoMap.put p k rs) queue
put-Pending p k rs [] h idle = idle
put-Pending p k rs (ctx ∷ queue) h (waiting old held same w) = elim (Bool-cases (k == ctx)) [
  | inl t ↦
      let found : k ≡ ctx = (bytes_eq.eqb_iff k ctx).0 t in
      waiting rs (get-put p k rs ctx ∙ ground (arith, t)) (h ∙ found) (put-Pending p k rs queue h w)
  | inr f ↦
      waiting old (get-put p k rs ctx ∙ ground (arith, f, held)) same (put-Pending p k rs queue h w)
]

snoc-Pending :
    (p : GoMap Bytes ReadIndexStatus) (k : Bytes) (rs : ReadIndexStatus) (queue : List Bytes)
    → GoMap.get p k ≡ some rs
    → rs.req.context ≡ k
    → Pending p queue
    → Pending p (queue ++ k ∷ [])
snoc-Pending p k rs [] h c idle = waiting rs h c idle
snoc-Pending p k rs (ctx ∷ queue) h c (waiting old held same w) =
    waiting old held same (snoc-Pending p k rs queue h c w)

-- addRequest keeps the invariant that every queued context has its request pending and none is
-- queued twice.
pub add_request-IsConsistent :
    (ro : ReadOnly) (idx : ℕ) (m : Message) → IsConsistent ro → IsConsistent (add_request ro idx m)
unfolding add_request
add_request-IsConsistent ro idx m c = added (GoMap.get ro.pending_read_index m.context) refl
  where
    added :
        (o : Option ReadIndexStatus)
        → GoMap.get ro.pending_read_index m.context ≡ o
        → IsConsistent (elim o [
          | some rs ↦ ro
          | none ↦ record {
            pending_read_index =
                GoMap.put ro.pending_read_index m.context
                  (record { index = idx; req = m; acks = GoMap.empty });
            read_index_queue = ro.read_index_queue ++ m.context ∷ [];
          }
        ])
    added (some rs) p = c
    added none p =
        let rs : ReadIndexStatus = record { index = idx; req = m; acks = GoMap.empty } in
        record {
          pending =
              snoc-Pending _ m.context rs ro.read_index_queue
                (get-put_self ro.pending_read_index m.context rs) refl
                (put-Pending ro.pending_read_index m.context rs ro.read_index_queue refl c.pending);
          distinct =
              snoc-IsDistinct m.context ro.read_index_queue
                (missing-Fresh ro.pending_read_index m.context ro.read_index_queue p c.pending)
                c.distinct;
        }

-- A pending request that is replaced by one of the same message.
replace-Pending :
    (p : GoMap Bytes ReadIndexStatus) (k : Bytes) (rs new : ReadIndexStatus) (queue : List Bytes)
    → GoMap.get p k ≡ some rs
    → new.req ≡ rs.req
    → Pending p queue
    → Pending (GoMap.put p k new) queue
replace-Pending p k rs new [] h q idle = idle
replace-Pending p k rs new (ctx ∷ queue) h q (waiting old held same w) =
    elim (Bool-cases (k == ctx)) [
      | inl t ↦
          let found : k ≡ ctx = (bytes_eq.eqb_iff k ctx).0 t in
          let one : rs ≡ old = some-injective _ _ (sym h ∙ ap (GoMap.get p) found ∙ held) in
          waiting new (get-put p k new ctx ∙ ground (arith, t))
            (ap (λ z. z.context) (q ∙ ap (λ z. z.req) one) ∙ same)
            (replace-Pending p k rs new queue h q w)
      | inr f ↦
          waiting old (get-put p k new ctx ∙ ground (arith, f, held)) same
            (replace-Pending p k rs new queue h q w)
    ]

-- recvAck keeps the invariant that every queued context has its request pending and none is
-- queued twice, and it leaves the queue as it is.
pub recv_ack-IsConsistent :
    (ro : ReadOnly) (id : ℕ) (context : Bytes)
    → IsConsistent ro
    → IsConsistent (recv_ack ro id context).0
      × ((recv_ack ro id context).0.read_index_queue ≡ ro.read_index_queue)
unfolding recv_ack
recv_ack-IsConsistent ro id context c = acked (GoMap.get ro.pending_read_index context) refl
  where
    acked :
        (o : Option ReadIndexStatus)
        → GoMap.get ro.pending_read_index context ≡ o
        → (let next : ReadOnly × ℕ = elim o [
          | none ↦ (ro, 0)
          | some rs ↦ (
            record ro {
              pending_read_index =
                  GoMap.put ro.pending_read_index context
                    (record rs { acks = GoMap.put rs.acks id true });
            },
            length (GoMap.put rs.acks id true),
          )
        ] in
            IsConsistent next.0 × (next.0.read_index_queue ≡ ro.read_index_queue))
    acked none p = (c, refl)
    acked (some rs) p = (
      record {
        pending =
            replace-Pending ro.pending_read_index context rs
              (record rs { acks = GoMap.put rs.acks id true }) ro.read_index_queue p refl c.pending;
        distinct = c.distinct;
      },
      refl,
    )
