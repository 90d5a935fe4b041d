-- ===== src/Gateway/Control/Bound/Deletion.antt =====
-- internal/gateway/control.go: the deletions of `evict` and `evictKeys`, and the sorted ids.
use axigate_finops.Prelude.{
  ℕ, zero, suc, ◌+◌, ◌≤◌, ◌<◌, ◌≡◌, refl, ◌≢◌, ◌⊎◌, inl, inr, false, List, [], ◌∷◌, map, none, some,
  Bytes, Dict, IsDict, lookup, erase, beq_iff, lookup-erase_self, lookup-erase_ne, erase-IsDict,
  length-erase, arith, length, take, leb, All, All-take, sort_by, insert_by, All-insert_by,
  All-sort_by, Bool-cases, sym, ap, ◌∙◌,
}
use axigate_finops.Gateway.Control.Evict.{Age, older, age_id, delete_all}

-- The ids differ.
abbrev pub Apart : List Age → Type 0
Apart [] = Unit
Apart (a ∷ bs) = All (λ (b : Age). a.0 ≢ b.0) bs × Apart bs

pub Apart-insert_by :
    (a : Age) (bs : List Age)
    → All (λ (b : Age). a.0 ≢ b.0) bs
    → Apart bs
    → Apart (insert_by older a bs)
Apart-insert_by a [] h hs = (tt, tt)
Apart-insert_by a (b ∷ bs) h hs = elim (Bool-cases (older b a)) [
  | inl e ↦ rw e (
    All-insert_by older (λ (x : Age). b.0 ≢ x.0) a bs (λ e. h.0 (sym e)) hs.0,
    Apart-insert_by a bs h.1 hs.1,
  )
  | inr e ↦ rw e (h, hs)
]

pub Apart-sort_by : (bs : List Age) → Apart bs → Apart (sort_by older bs)
unfolding sort_by
Apart-sort_by [] h = tt
Apart-sort_by (a ∷ bs) h =
    Apart-insert_by a (sort_by older bs) (All-sort_by older (λ (b : Age). a.0 ≢ b.0) bs h.0)
      (Apart-sort_by bs h.1)

pub Apart-take : (n : ℕ) (bs : List Age) → Apart bs → Apart (take n bs)
Apart-take zero bs h = tt
Apart-take (suc n) [] h = tt
Apart-take (suc n) (a ∷ bs) h = (All-take (λ (b : Age). a.0 ≢ b.0) n bs h.0, Apart-take n bs h.1)

pub All-imp {ℓ κ μ} :
    {A : Type ℓ} {P : A → Type κ} {Q : A → Type μ} (xs : List A)
    → ((x : A) → P x → Q x)
    → All P xs
    → All Q xs
All-imp [] f h = tt
All-imp (x ∷ xs) f h = (f x h.0, All-imp xs f h.1)

module _ {V : Type 0} where
  -- What is left of the entry of `r` after a deletion: all of it, or nothing.
  abbrev pub Kept : Bytes → Dict V → Dict V → Type 0
  Kept r m n = (lookup r n ≡ lookup r m) ⊎ (lookup r n ≡ none)

  pub delete_all-Kept :
      (r : Bytes) (ks : List Bytes) (m : Dict V) → IsDict m → Kept r m (delete_all ks m)
  delete_all-Kept r [] m d = inl refl
  delete_all-Kept r (k ∷ ks) m d = ground (
    arith,
    beq_iff k r,
    lookup-erase_self k m d,
    lookup-erase_ne r k m,
    delete_all-Kept r ks (erase k m) (erase-IsDict k m d),
  )

  pub delete_all-IsDict : (ks : List Bytes) (m : Dict V) → IsDict m → IsDict (delete_all ks m)
  delete_all-IsDict [] m d = d
  delete_all-IsDict (k ∷ ks) m d = delete_all-IsDict ks (erase k m) (erase-IsDict k m d)

  pub delete_all_other :
      (r : Bytes) (ks : List Bytes) (m : Dict V)
      → All (λ (k : Bytes). k ≢ r) ks
      → lookup r (delete_all ks m) ≡ lookup r m
  delete_all_other r [] m h = refl
  delete_all_other r (k ∷ ks) m h =
      delete_all_other r ks (erase k m) h.1 ∙ lookup-erase_ne r k m h.0

  unfoldable pub Present : Dict V → Age → Type 0
  Present m a = (v : V) × (lookup a.0 m ≡ some v)

  pub length-delete_all :
      (bs : List Age) (m : Dict V)
      → All (Present m) bs
      → Apart bs
      → length (delete_all (map age_id bs) m) + length bs ≡ length m
  unfolding Present
  length-delete_all [] m h a = omega arith
  length-delete_all (b ∷ bs) m h a = omega (
    arith,
    length-erase b.0 m h.0.0 h.0.1,
    length-delete_all bs (erase b.0 m) (step bs h.1 a.0) a.1,
  )
    where
      step :
          (cs : List Age)
          → All (Present m) cs
          → All (λ (c : Age). b.0 ≢ c.0) cs
          → All (Present (erase b.0 m)) cs
      step [] p q = tt
      step (c ∷ cs) p q = ((p.0.0, lookup-erase_ne c.0 b.0 m q.0 ∙ p.0.1), step cs p.1 q.1)

pub leb-false : (a b : ℕ) → leb a b ≡ false → b ≤ a
leb-false a b h = ground arith

pub lt→leb : (a b : ℕ) → a < b → leb b a ≡ false
lt→leb a b h = ground arith

pub take_all {ℓ} : {A : Type ℓ} (n : ℕ) (xs : List A) → length xs ≤ n → take n xs ≡ xs
take_all zero [] h = refl
take_all zero (x ∷ xs) h = absurd (omega arith)
take_all (suc n) [] h = refl
take_all (suc n) (x ∷ xs) h = ap (◌∷◌ x) (take_all n xs (omega arith))

-- The id stands in the list.
abbrev pub HasId : Bytes → List Age → Type 0
HasId r [] = ⊥
HasId r (a ∷ bs) = (a.0 ≡ r) ⊎ HasId r bs

pub HasId-insert_by :
    (r : Bytes) (a : Age) (bs : List Age) → HasId r (a ∷ bs) → HasId r (insert_by older a bs)
HasId-insert_by r a [] h = h
HasId-insert_by r a (b ∷ bs) h = ground (arith, HasId-insert_by r a bs)

pub HasId-sort_by : (r : Bytes) (bs : List Age) → HasId r bs → HasId r (sort_by older bs)
unfolding sort_by
HasId-sort_by r [] h = h
HasId-sort_by r (a ∷ bs) (inl e) = HasId-insert_by r a (sort_by older bs) (inl e)
HasId-sort_by r (a ∷ bs) (inr h) =
    HasId-insert_by r a (sort_by older bs) (inr (HasId-sort_by r bs h))

pub delete_all_gone :
    {V : Type 0} (r : Bytes) (ks : List Bytes) (m : Dict V)
    → IsDict m
    → lookup r m ≡ none
    → lookup r (delete_all ks m) ≡ none
delete_all_gone r ks m d e = elim (delete_all-Kept r ks m d) [ inl k ↦ k ∙ e | inr k ↦ k ]

pub delete_all_hit :
    {V : Type 0} (r : Bytes) (bs : List Age) (m : Dict V)
    → IsDict m
    → HasId r bs
    → lookup r (delete_all (map age_id bs) m) ≡ none
delete_all_hit r [] m d h = absurd h
delete_all_hit r (b ∷ bs) m d (inl e) =
    delete_all_gone r (map age_id bs) (erase b.0 m) (erase-IsDict b.0 m d)
      (rw e (lookup-erase_self r m d))
delete_all_hit r (b ∷ bs) m d (inr h) = delete_all_hit r bs (erase b.0 m) (erase-IsDict b.0 m d) h
