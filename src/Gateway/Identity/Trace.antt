-- ===== src/Gateway/Identity/Trace.antt =====
-- internal/gateway/identity.go: what a trace id is.
use axigate_finops.Prelude.{
  ◌≡◌, refl, ◌⊎◌, inl, inr, Bool, true, false, List, [], ◌∷◌, ◌++◌, Bytes, trim_space, ◌==◌,
  if◌then◌else◌, length, arith, Bool-cases, ◌∙◌,
}
use axigate_finops.Gateway.Identity.Headers.{
  is_hex, all_hex, all_zero, checked_id, split_dashes, trace_id_of, trace_id,
}

-- 32 lowercase hexadecimal digits, not all zero.
abbrev pub IsTraceId : Bytes → Type 0
IsTraceId p = (length p ≡ 32) × (all_hex p ≡ true) × (all_zero p ≡ false)

abbrev pub has_dash : Bytes → Bool
has_dash [] = false
has_dash (c ∷ s) = if c == 45 then true else has_dash s

checked_id-IsTraceId : (p : Bytes) → (checked_id p ≡ []) ⊎ IsTraceId (checked_id p)
unfolding checked_id
checked_id-IsTraceId p = elim (Bool-cases (length p == 32)) [
  | inl l ↦ elim (Bool-cases (all_hex p)) [
    | inl h ↦ elim (Bool-cases (all_zero p)) [
      | inl z ↦ inl (rw (l, h, z) refl)
      | inr z ↦ inr (rw (l, h, z) (ground arith, h, z))
    ]
    | inr h ↦ inl (rw (l, h) refl)
  ]
  | inr l ↦ inl (rw l refl)
]

trace_id_of-IsTraceId : (ps : List Bytes) → (trace_id_of ps ≡ []) ⊎ IsTraceId (trace_id_of ps)
unfolding trace_id_of
trace_id_of-IsTraceId [] = inl refl
trace_id_of-IsTraceId (a ∷ []) = inl refl
trace_id_of-IsTraceId (a ∷ b ∷ []) = inl refl
trace_id_of-IsTraceId (a ∷ b ∷ c ∷ []) = inl refl
trace_id_of-IsTraceId (a ∷ b ∷ c ∷ d ∷ ps) = checked_id-IsTraceId b

-- Whatever a traceparent header holds, the run that it gives is 32 lowercase hexadecimal digits
-- that are not all zero, or there is none.
pub trace_id-IsTraceId : (v : Bytes) → (trace_id v ≡ []) ⊎ IsTraceId (trace_id v)
unfolding trace_id
trace_id-IsTraceId v = trace_id_of-IsTraceId (split_dashes (trim_space v))

split_dashes-append :
    (p s : Bytes) → has_dash p ≡ false → split_dashes (p ++ 45 ∷ s) ≡ p ∷ split_dashes s
unfolding split_dashes
split_dashes-append [] s h = refl
split_dashes-append (c ∷ p) s h = ground (arith, split_dashes-append p s)

all_hex-has_dash : (p : Bytes) → all_hex p ≡ true → has_dash p ≡ false
unfolding is_hex
all_hex-has_dash [] h = refl
all_hex-has_dash (c ∷ p) h = ground (arith, all_hex-has_dash p)

split_dashes-nonempty : (s : Bytes) → (q : Bytes) × (qs : List Bytes) × (split_dashes s ≡ q ∷ qs)
unfolding split_dashes
split_dashes-nonempty [] = ([], [], refl)
split_dashes-nonempty (c ∷ s) =
    let (q, qs, e) = split_dashes-nonempty s in
    elim (Bool-cases (c == 45)) [
      | inl d ↦ ([], split_dashes s, rw d refl)
      | inr d ↦ (c ∷ q, qs, rw (d, e) refl)
    ]

-- With three parts and a rest, the second part is the one that is checked.
trace_id_of-four :
    (v p w : Bytes) (qs : List Bytes)
    → ((q : Bytes) × (rs : List Bytes) × (qs ≡ q ∷ rs))
    → trace_id_of (v ∷ p ∷ w ∷ qs) ≡ checked_id p
unfolding trace_id_of
trace_id_of-four v p w qs (q, rs, e) = rw e refl

checked_id-valid : (p : Bytes) → IsTraceId p → checked_id p ≡ p
unfolding checked_id
checked_id-valid p (l, h, z) = rw (l, h, z) refl

-- A header whose text is a version, a trace id, a parent id and flags, with dashes between, gives
-- its trace id, whatever the version and the parent, which hold no dash, and the flags are.
pub trace_id-finds :
    (v version id parent flags : Bytes)
    → trim_space v ≡ version ++ (45 ∷ (id ++ (45 ∷ (parent ++ (45 ∷ flags)))))
    → IsTraceId id
    → has_dash version ≡ false
    → has_dash parent ≡ false
    → trace_id v ≡ id
unfolding trace_id
trace_id-finds v version id parent flags e k a b =
    rw
      (
        e,
        split_dashes-append version (id ++ (45 ∷ (parent ++ (45 ∷ flags)))) a,
        split_dashes-append id (parent ++ (45 ∷ flags)) (all_hex-has_dash id k.1),
        split_dashes-append parent flags b,
      )
      (trace_id_of-four version id parent (split_dashes flags) (split_dashes-nonempty flags)
        ∙ checked_id-valid id k)
