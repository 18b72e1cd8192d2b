-- ===== src/Raft/ReadOnly/Order.antt =====
-- raft/readonly.go: the queue and the pending requests agree, and reads are released in the order in
-- which they came.
use parallax_kv.Base.{
  ◌≡◌, ◌≢◌, ◌⊎◌, inl, inr, refl, sym, subst, ap, ◌∙◌, Bool, true, false, Option, none, some, List,
  [], ◌∷◌, ◌++◌, Bytes, arith, if◌then◌else◌, ◌==◌, bytes_eq, get_last?,
}
use mathlib.Core.Option.{some-injective}
use parallax_kv.Base.Panics.{◌>>=◌}
use parallax_kv.Base.Returns.{bind-eq-some}
use parallax_kv.Base.GoMap
use parallax_kv.Base.GoMap.{GoMap, get-put, get-delete}
use parallax_kv.Raft.ReadOnly.{ReadIndexStatus, ReadOnly, walk, delete_all, advance}

-- Every context of a queue has its request pending.
pub data Pending (p : GoMap Bytes ReadIndexStatus) : List Bytes → Type 0 where
  idle : Pending p []
  waiting :
      {ctx : Bytes} {queue : List Bytes} (rs : ReadIndexStatus)
      → GoMap.get p ctx ≡ some rs
      → rs.req.context ≡ ctx
      → Pending p queue
      → Pending p (ctx ∷ queue)

-- A context that is not in a queue.
pub data Fresh (ctx : Bytes) : List Bytes → Type 0 where
  unseen : Fresh ctx []
  beyond : {c : Bytes} {queue : List Bytes} → ctx ≢ c → Fresh ctx queue → Fresh ctx (c ∷ queue)

pub data IsDistinct : List Bytes → Type 0 where
  alone : IsDistinct []
  once :
      {c : Bytes} {queue : List Bytes} → Fresh c queue → IsDistinct queue → IsDistinct (c ∷ queue)

-- The invariant of a readOnly.
pub record IsConsistent (ro : ReadOnly) : Type 0 where
  pub pending : Pending ro.pending_read_index ro.read_index_queue
  pub distinct : IsDistinct ro.read_index_queue

abbrev pub contexts : List ReadIndexStatus → List Bytes
contexts [] = []
contexts (rs ∷ rss) = rs.req.context ∷ contexts rss

get_last?-cons :
    (x : Bytes) (xs : List Bytes) (t : Bytes) → get_last? xs ≡ some t → get_last? (x ∷ xs) ≡ some t
get_last?-cons x [] t h = cc
get_last?-cons x (y ∷ ys) t h = h

walk-prefix :
    (p : GoMap Bytes ReadIndexStatus) (target : Bytes) (queue : List Bytes)
    (rss : List ReadIndexStatus) (rest : List Bytes)
    → Pending p queue
    → walk p target queue ≡ some (rss, rest)
    → (queue ≡ contexts rss ++ rest) × (get_last? (contexts rss) ≡ some target)
unfolding walk
walk-prefix p target [] rss rest w e = cc
walk-prefix p target (ctx ∷ queue) rss rest (waiting rs held same w) e =
    met (λ rss' rest'. walk-prefix p target queue rss' rest' w) (ctx == target) refl
      (rw (held, walk) at e)
  where
    met :
        ((rss' : List ReadIndexStatus) (rest' : List Bytes)
          → walk p target queue ≡ some (rss', rest')
          → (queue ≡ contexts rss' ++ rest') × (get_last? (contexts rss') ≡ some target))
        → (b : Bool) → (ctx == target) ≡ b
        → ◌≡◌ {A = Option (List ReadIndexStatus × List Bytes)}
            (if b
              then some (rs ∷ [], queue)
              else (do (rss', queue') ← walk p target queue; some (rs ∷ rss', queue')))
            (some (rss, rest))
        → (ctx ∷ queue ≡ contexts rss ++ rest) × (get_last? (contexts rss) ≡ some target)
    met ih true q e =
        let found : ctx ≡ target = (bytes_eq.eqb_iff ctx target).0 q in
        let both = some-injective _ _ e in
        let one : rs ∷ [] ≡ rss = ap (λ z. z.0) both in
        let left : queue ≡ rest = ap (λ z. z.1) both in
        (
          ap (λ c. c ∷ queue) (sym same)
              ∙ ap (λ z. contexts z ++ queue) one
              ∙ ap (λ q. contexts rss ++ q) left,
          ap (λ z. get_last? (contexts z)) (sym one) ∙ ap some (same ∙ found),
        )
    met ih false q e =
        let ((rss', rest'), done, tail) = bind-eq-some (walk p target queue) _ e in
        let (split, last) = ih rss' rest' done in
        let both = some-injective _ _ tail in
        let more : rs ∷ rss' ≡ rss = ap (λ z. z.0) both in
        let left : rest' ≡ rest = ap (λ z. z.1) both in
        (
          ap (λ q. ctx ∷ q) split
              ∙ ap (λ c. c ∷ contexts rss' ++ rest') (sym same)
              ∙ ap (λ z. contexts z ++ rest') more
              ∙ ap (λ q. contexts rss ++ q) left,
          ap (λ z. get_last? (contexts z)) (sym more)
              ∙ get_last?-cons rs.req.context (contexts rss') target last,
        )

-- What leaves the pending requests leaves those of other contexts.
delete-Pending :
    (p : GoMap Bytes ReadIndexStatus) (k : Bytes) (queue : List Bytes)
    → Fresh k queue
    → Pending p queue
    → Pending (GoMap.delete p k) queue
delete-Pending p k [] f idle = idle
delete-Pending p k (ctx ∷ queue) (beyond ne f) (waiting rs held same w) =
    waiting rs (get-delete p k ctx ∙ ground (arith, bytes_eq.eqb_iff k ctx, held)) same
      (delete-Pending p k queue f w)

-- Split a distinct queue.
tail-Fresh : (k : Bytes) (xs ys : List Bytes) → Fresh k (xs ++ ys) → Fresh k ys
tail-Fresh k [] ys f = f
tail-Fresh k (x ∷ xs) ys (beyond ne f) = tail-Fresh k xs ys f

tail-IsDistinct : (xs ys : List Bytes) → IsDistinct (xs ++ ys) → IsDistinct ys
tail-IsDistinct [] ys d = d
tail-IsDistinct (x ∷ xs) ys (once f d) = tail-IsDistinct xs ys d

tail-Pending :
    (p : GoMap Bytes ReadIndexStatus) (xs ys : List Bytes) → Pending p (xs ++ ys) → Pending p ys
tail-Pending p [] ys w = w
tail-Pending p (x ∷ xs) ys (waiting rs h s w) = tail-Pending p xs ys w

delete_all-Pending :
    (p : GoMap Bytes ReadIndexStatus) (rss : List ReadIndexStatus) (queue : List Bytes)
    → IsDistinct (contexts rss ++ queue)
    → Pending p queue
    → Pending (delete_all p rss) queue
unfolding delete_all
delete_all-Pending p [] queue d w = w
delete_all-Pending p (rs ∷ rss) queue (once f d) w =
    delete_all-Pending (GoMap.delete p rs.req.context) rss queue d
      (delete-Pending p rs.req.context queue (tail-Fresh rs.req.context (contexts rss) queue f) w)

-- advance keeps the invariant that every queued context has its request pending and none is
-- queued twice. What it releases is a prefix of the queue, in order, which ends with the
-- confirmed context, and the rest stays queued; or it releases nothing and changes nothing.
pub advance_lem :
    (ro ro' : ReadOnly) (context : Bytes) (rss : List ReadIndexStatus)
    → IsConsistent ro
    → advance ro context ≡ (ro', rss)
    → IsConsistent ro'
      × (ro.read_index_queue ≡ contexts rss ++ ro'.read_index_queue)
      × (((rss ≡ []) × (ro' ≡ ro)) ⊎ (get_last? (contexts rss) ≡ some context))
unfolding advance
advance_lem ro ro' context rss c e =
    walked (walk ro.pending_read_index context ro.read_index_queue) refl e
  where
    walked :
        (o : Option (List ReadIndexStatus × List Bytes))
        → walk ro.pending_read_index context ro.read_index_queue ≡ o
        → ◌≡◌ {A = ReadOnly × List ReadIndexStatus}
            (elim o [
              | none ↦ (ro, [])
              | some (rss, queue) ↦ (
                record {
                  pending_read_index = delete_all ro.pending_read_index rss;
                  read_index_queue = queue;
                },
                rss,
              )
            ])
            (ro', rss)
        → IsConsistent ro'
          × (ro.read_index_queue ≡ contexts rss ++ ro'.read_index_queue)
          × (((rss ≡ []) × (ro' ≡ ro)) ⊎ (get_last? (contexts rss) ≡ some context))
    walked none p e =
        let same : ro ≡ ro' = ap (λ z. z.0) e in
        let nothing : [] ≡ rss = ap (λ z. z.1) e in
        (
          subst IsConsistent same c,
          ap (λ z. z.read_index_queue) same ∙ ap (λ z. contexts z ++ ro'.read_index_queue) nothing,
          inl (sym nothing, sym same),
        )
    walked (some (rss', queue)) p e =
        let left = ap (λ z. z.0) e in
        let same : rss' ≡ rss = ap (λ z. z.1) e in
        let (split, last) =
          walk-prefix ro.pending_read_index context ro.read_index_queue rss' queue c.pending p in
        let distinct = subst IsDistinct split c.distinct in
        let kept : IsConsistent (record {
          pending_read_index = delete_all ro.pending_read_index rss';
          read_index_queue = queue;
        }) =
          record {
            pending = delete_all-Pending ro.pending_read_index rss' queue distinct (
                tail-Pending ro.pending_read_index (contexts rss') queue
                  (subst (Pending ro.pending_read_index) split c.pending));
            distinct = tail-IsDistinct (contexts rss') queue distinct;
          } in
        (
          subst IsConsistent left kept,
          split
              ∙ ap (λ z. contexts rss' ++ z.read_index_queue) left
              ∙ ap (λ z. contexts z ++ ro'.read_index_queue) same,
          inr (ap (λ z. get_last? (contexts z)) (sym same) ∙ last),
        )
