-- ===== src/Raft/Keeps.antt =====
-- Relations between the states before and after an action, one rule for each way to build one.
use parallax_kv.Base.{
  ◌≡◌, refl, subst, Bool, true, false, Option, none, some, List, [], ◌∷◌, if◌then◌else◌,
  Option-cases, inl, inr, arith,
}
use parallax_kv.Raft.Log.{RaftLog}
use parallax_kv.Raft.Core.{Raft, Action, Done, ◌>>=◌, pure, gets, modify, reads, on_log, for_each}

-- Whenever `m` returns, the new state stands in the relation to the old one.
pub record Keeps {A : Type 0} (R : Raft → Raft → Type 0) (m : Action A) : Type 0 where
  pub at : (r : Raft) (a : A) (r' : Raft) → m r ≡ some (a, r') → R r r'

pub record IsPreorder (R : Raft → Raft → Type 0) : Type 0 where
  pub reflexive : (r : Raft) → R r r
  pub transitive : (r s t : Raft) → R r s → R s t → R r t

module _ {R : Raft → Raft → Type 0} (order : IsPreorder R) where
  pub Keeps-pure : {A : Type 0} (a : A) → Keeps R (pure a)
  Keeps-pure a = record { at = λ r b t e. subst (R r) (cc e) (order.reflexive r) }

  pub Keeps-gets : {A : Type 0} (f : Raft → A) → Keeps R (gets f)
  Keeps-gets f = record { at = λ r b t e. subst (R r) (cc e) (order.reflexive r) }

  pub Keeps-modify : (f : Raft → Raft) → ((r : Raft) → R r (f r)) → Keeps R (modify f)
  Keeps-modify f h = record { at = λ r b t e. subst (R r) (cc e) (h r) }

  reads-Keeps :
      {A : Type 0} (r : Raft) (o : Option A) (b : A) (t : Raft)
      → ◌≡◌ {A = Option (A × Raft)} (elim o [ none ↦ none | some a ↦ some (a, r) ]) (some (b, t))
      → R r t
  reads-Keeps r none b t e = cc
  reads-Keeps r (some a) b t e = subst (R r) (cc e) (order.reflexive r)

  pub Keeps-reads : {A : Type 0} (f : Raft → Option A) → Keeps R (reads f)
  Keeps-reads f = record { at = λ r b t e. reads-Keeps r (f r) b t e }

  on_log-Keeps :
      {A : Type 0} (r : Raft) (o : Option (A × RaftLog)) (b : A) (t : Raft)
      → ((a : A) (l : RaftLog) → o ≡ some (a, l) → R r (record r { raft_log = l }))
      → ◌≡◌ {A = Option (A × Raft)}
          (elim o [ none ↦ none | some (a, l) ↦ some (a, record r { raft_log = l }) ])
          (some (b, t))
      → R r t
  on_log-Keeps r none b t h e = cc
  on_log-Keeps r (some (a, l)) b t h e = subst (R r) (cc e) (h a l refl)

  pub Keeps-on_log :
      {A : Type 0} (f : RaftLog → Option (A × RaftLog))
      → ((r : Raft) (a : A) (l : RaftLog)
          → f r.raft_log ≡ some (a, l)
          → R r (record r { raft_log = l }))
      → Keeps R (on_log f)
  Keeps-on_log f h = record { at = λ r b t e. on_log-Keeps r (f r.raft_log) b t (h r) e }

  pub Keeps-if :
      {A : Type 0} (b : Bool) (m n : Action A)
      → Keeps R m
      → Keeps R n
      → Keeps R (if b then m else n)
  Keeps-if true m n hm hn = hm
  Keeps-if false m n hm hn = hn

  bind-Keeps :
      {A B : Type 0} (f : A → Action B) (r : Raft) (o : Option (A × Raft)) (b : B) (t : Raft)
      → ((a : A) (s : Raft) → o ≡ some (a, s) → R r s)
      → ((a : A) → Keeps R (f a))
      → ◌≡◌ {A = Option (B × Raft)} (elim o [ none ↦ none | some (a, s) ↦ f a s ]) (some (b, t))
      → R r t
  bind-Keeps f r none b t hm hf e = cc
  bind-Keeps f r (some (a, s)) b t hm hf e =
      order.transitive r s t (hm a s refl) ((hf a).at s b t e)

  pub Keeps-bind :
      {A B : Type 0} (m : Action A) (f : A → Action B)
      → Keeps R m
      → ((a : A) → Keeps R (f a))
      → Keeps R (m >>= f)
  Keeps-bind m f hm hf = record { at = λ r b t e. bind-Keeps f r (m r) b t (hm.at r) hf e }

  for_each-Keeps :
      {A : Type 0} (xs : List A) (body : A → Action Done)
      → ((x : A) → Keeps R (body x))
      → (r : Raft) (u : Done) (t : Raft) → for_each xs body r ≡ some (u, t)
      → R r t
  unfolding for_each
  for_each-Keeps [] body h r u t e = subst (R r) (cc e) (order.reflexive r)
  for_each-Keeps (x ∷ xs) body h r u t e = elim (Option-cases (body x r)) [
    | inl stuck ↦ cc (rw (stuck, for_each) at e)
    | inr ((v, s), done) ↦
        order.transitive r s t ((h x).at r v s done)
          (for_each-Keeps xs body h s u t (rw (done, for_each) at e))
  ]

  pub Keeps-for_each :
      {A : Type 0} (xs : List A) (body : A → Action Done)
      → ((x : A) → Keeps R (body x))
      → Keeps R (for_each xs body)
  Keeps-for_each xs body h = record { at = for_each-Keeps xs body h }

pub ruleset keeps_rules = (
  Keeps-pure, Keeps-gets, Keeps-modify, Keeps-reads, Keeps-on_log, Keeps-if, Keeps-bind,
  Keeps-for_each,
)

-- An action that returned has gone through its parts.
bound :
    {A B : Type 0} (f : A → Action B) (o : Option (A × Raft)) {b : B} {t : Raft}
    → ◌≡◌ {A = Option (B × Raft)} (elim o [ none ↦ none | some (a, s) ↦ f a s ]) (some (b, t))
    → (a : A) × (s : Raft) × (o ≡ some (a, s)) × (f a s ≡ some (b, t))
bound f none e = cc
bound f (some (a, s)) e = (a, s, refl, e)

pub >>=-eq-some :
    {A B : Type 0} (m : Action A) (f : A → Action B) (r : Raft) {b : B} {t : Raft}
    → (m >>= f) r ≡ some (b, t)
    → (a : A) × (s : Raft) × (m r ≡ some (a, s)) × (f a s ≡ some (b, t))
>>=-eq-some m f r e = bound f (m r) e

pub reads-eq-some :
    {A : Type 0} (f : Raft → Option A) (r : Raft) {a : A} {s : Raft}
    → reads f r ≡ some (a, s)
    → (f r ≡ some a) × (s ≡ r)
reads-eq-some f r e = elim (Option-cases (f r)) [
  | inl stuck ↦ ground (arith, stuck)
  | inr (b, found) ↦ (ground (arith, found), ground (arith, found))
]

pub on_log-eq-some :
    {A : Type 0} (f : RaftLog → Option (A × RaftLog)) (r : Raft) {a : A} {s : Raft}
    → on_log f r ≡ some (a, s)
    → (l : RaftLog) × (f r.raft_log ≡ some (a, l)) × (s ≡ record r { raft_log = l })
on_log-eq-some f r e = elim (Option-cases (f r.raft_log)) [
  | inl stuck ↦ ground (arith, stuck)
  | inr ((b, l), found) ↦ (l, ground (arith, found), ground (arith, found))
]
