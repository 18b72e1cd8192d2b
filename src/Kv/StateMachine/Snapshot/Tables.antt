-- ===== src/Kv/StateMachine/Snapshot/Tables.antt =====
-- A map written out over a list of its keys and read back, whatever the format of an entry.
use parallax_kv.Base.{
  ℕ, suc, ◌*◌, ◌≤◌, ◌≡◌, refl, ap, sym, ◌∙◌, Bool, true, false, ◌||◌, Option, none, some, List, [],
  ◌∷◌, ◌++◌, append_assoc, append-nil, Bytes, ok, length, length-append, arith, Eq, ◌==◌,
  if◌then◌else◌, Bool-cases, Option-cases, inl, inr, insert_by, sort_by,
}
use mathlib.Core.Bool.{false≢true}
use parallax_kv.Base.GoMap
use parallax_kv.Base.GoMap.{GoMap, keys, get-put, eqb_refl}
use parallax_kv.Kv.Codec.{Decoder, ◌>>=◌}
use parallax_kv.Kv.StateMachine.Snapshot.{get_or, emit, read_entries}

module _ {ℓ} {K : Type ℓ} ⦃e : Eq K⦄ where
  unfoldable pub mem : K → List K → Bool
  mem j [] = false
  mem j (k ∷ ks) = k == j || mem j ks

  mem-insert_by :
      (le : K → K → Bool) (j x : K) (ks : List K) → mem j (insert_by le x ks) ≡ (x == j || mem j ks)
  unfolding mem insert_by
  mem-insert_by le j x [] = refl
  mem-insert_by le j x (k ∷ ks) = ground (arith, mem-insert_by le j x ks)

  -- Sorting neither loses a key nor makes one up.
  pub mem-sort_by : (le : K → K → Bool) (j : K) (ks : List K) → mem j (sort_by le ks) ≡ mem j ks
  unfolding mem sort_by
  mem-sort_by le j [] = refl
  mem-sort_by le j (k ∷ ks) = mem-insert_by le j k (sort_by le ks) ∙ rw (mem-sort_by le j ks)

pub length-insert_by {ℓ} :
    {K : Type ℓ} (le : K → K → Bool) (x : K) (ks : List K)
    → length (insert_by le x ks) ≡ suc (length ks)
unfolding insert_by
length-insert_by le x [] = refl
length-insert_by le x (k ∷ ks) = ground (arith, length-insert_by le x ks)

pub length-sort_by {ℓ} :
    {K : Type ℓ} (le : K → K → Bool) (ks : List K) → length (sort_by le ks) ≡ length ks
unfolding sort_by
length-sort_by le [] = refl
length-sort_by le (k ∷ ks) = length-insert_by le k (sort_by le ks) ∙ ap suc (length-sort_by le ks)

abbrev pub is_some {κ} : {V : Type κ} → Option V → Bool
is_some none = false
is_some (some v) = true

module _ {ℓ κ} {K : Type ℓ} {V : Type κ} ⦃e : Eq K⦄ where
  -- The keys of a map are those at which a lookup succeeds.
  pub mem-keys : (m : GoMap K V) (j : K) → mem j (keys m) ≡ is_some (GoMap.get m j)
  unfolding mem GoMap.get
  mem-keys [] j = refl
  mem-keys ((k, v) ∷ m) j = ground (arith, mem-keys m j)

  -- the map that the read loop builds
  unfoldable pub put_all : (K → V) → List K → GoMap K V → GoMap K V
  put_all at [] m = m
  put_all at (k ∷ ks) m = put_all at ks (GoMap.put m k (at k))

  get-put_all :
      (at : K → V) (ks : List K) (m : GoMap K V) (j : K)
      → GoMap.get (put_all at ks m) j ≡ (if mem j ks then some (at j) else GoMap.get m j)
  unfolding put_all mem
  get-put_all at [] m j = refl
  get-put_all at (k ∷ ks) m j =
      get-put_all at ks (GoMap.put m k (at k)) j
      ∙ ground (arith, get-put m k (at k) j, e.eqb_iff k j, λ (p : k ≡ j). ap at p)

  -- Writing every key of a map into the empty map gives a map with the same lookups.
  pub get-put_all-keys :
      (zero_value : V) (le : K → K → Bool) (m : GoMap K V) (j : K)
      → GoMap.get
          (put_all (λ k. get_or zero_value (GoMap.get m k)) (sort_by le (keys m)) GoMap.empty)
          j
        ≡ GoMap.get m j
  unfolding GoMap.get
  get-put_all-keys zero_value le m j =
      get-put_all (λ k. get_or zero_value (GoMap.get m k)) (sort_by le (keys m)) GoMap.empty j
      ∙ rw (mem-sort_by le j (keys m)) (rw (mem-keys m j) (ground arith))

  -- What holds of every entry of a map holds at its sorted keys.
  pub at_keys {ι} :
      {P : K → V → Type ι} (zero_value : V) (le : K → K → Bool) (m : GoMap K V)
      → ((k : K) (v : V) → GoMap.get m k ≡ some v → P k v)
      → (k : K) → mem k (sort_by le (keys m)) ≡ true
      → P k (get_or zero_value (GoMap.get m k))
  at_keys {P} zero_value le m all k h = elim (Option-cases (GoMap.get m k)) [
    | inl p ↦
        absurd (false≢true (sym (mem-sort_by le k (keys m) ∙ mem-keys m k ∙ ap is_some p) ∙ h))
    | inr (v, p) ↦ rw p (all k v p)
  ]

-- The format of an entry: what is added, and what reads it back.
module _ {ℓ κ} {K : Type ℓ} {V : Type κ} ⦃e : Eq K⦄ (add : Bytes → K → V → Bytes)
    (code : K → V → Bytes) (entry : Decoder (K × V)) (Storable : K → V → Type 0)
    (add-eq : (buf : Bytes) (k : K) (v : V) → add buf k v ≡ buf ++ code k v)
    (entry-code : (k : K) (v : V) (rest : Bytes)
      → Storable k v
      → entry (code k v ++ rest) ≡ ok ((k, v), rest))
    (at : K → V) where
  abbrev pub codes : List K → Bytes
  codes [] = []
  codes (k ∷ ks) = code k (at k) ++ codes ks

  pub emit-eq : (ks : List K) (buf : Bytes) → emit add at ks buf ≡ buf ++ codes ks
  unfolding emit
  emit-eq [] buf = sym (append-nil buf)
  emit-eq (k ∷ ks) buf =
      emit-eq ks (add buf k (at k))
      ∙ ap (λ b. b ++ codes ks) (add-eq buf k (at k))
      ∙ append_assoc buf (code k (at k)) (codes ks)

  pub read_entries-codes :
      (ks : List K) (m : GoMap K V) (rest : Bytes)
      → ((k : K) → mem k ks ≡ true → Storable k (at k))
      → read_entries entry (length ks) m (codes ks ++ rest) ≡ ok (put_all at ks m, rest)
  unfolding read_entries mem put_all
  read_entries-codes [] m rest fits = refl
  read_entries-codes (k ∷ ks) m rest fits = rw (append_assoc (code k (at k)) (codes ks) rest) (
      rw (entry-code k (at k) (codes ks ++ rest) (fits k (rw eqb_refl)), read_entries, ◌>>=◌)
        (read_entries-codes ks (GoMap.put m k (at k)) rest
          (λ j h. fits j (elim (Bool-cases (k == j)) [ inl p ↦ rw p | inr p ↦ rw p h ]))))

  pub width-codes :
      (width : ℕ)
      → ((k : K) (v : V) → width ≤ length (code k v))
      → (ks : List K) → width * length ks ≤ length (codes ks)
  width-codes width wide [] = omega arith
  width-codes width wide (k ∷ ks) =
      omega
        (arith, length-append (code k (at k)) (codes ks), wide k (at k), width-codes width wide ks)
