-- ===== src/Names/Split.antt =====
-- `split` against the separators of its text.
use opentunnel.Prelude.{
  ℕ, ◌≡◌, refl, ap, subst, ◌∙◌, ◌⊎◌, inl, inr, false, none, some, List, [], ◌∷◌, ◌++◌, ◌==◌, ==_iff,
  ==_refl, arith, Bytes, Bool-cases,
}
use opentunnel.Names.{has, cons_head, split, last_label}

split_none : (c : ℕ) (s : Bytes) → has c s ≡ false → split c s ≡ s ∷ []
unfolding has split
split_none c [] h = refl
split_none c (x ∷ xs) h = ground (arith, split_none c xs)

split_one : (c : ℕ) (a b : Bytes) → has c a ≡ false → split c (a ++ c ∷ b) ≡ a ∷ split c b
unfolding has split
split_one c [] b h = rw (==_refl c) refl
split_one c (x ∷ a) b h = ground (arith, split_one c a b)

-- Either there is no separator, or the text is cut at the first.
pub split_cases :
    (c : ℕ) (s : Bytes)
    → (has c s ≡ false) ⊎ ((a : Bytes) × (b : Bytes) × (has c a ≡ false) × (s ≡ a ++ c ∷ b))
unfolding has
split_cases c [] = inl refl
split_cases c (x ∷ xs) = elim (Bool-cases (x == c)) [
  | inl e ↦ inr ([], xs, refl, ap (λ t. t ∷ xs) ((==_iff x c).0 e))
  | inr e ↦ elim (split_cases c xs) [
    | inl h ↦ inl (rw e h)
    | inr (a, b, h, eq) ↦ inr (x ∷ a, b, rw e h, ap (λ t. x ∷ t) eq)
  ]
]

pub last_label_none : (c : ℕ) (s : Bytes) → has c s ≡ false → last_label (split c s) ≡ some s
unfolding last_label
last_label_none c s h = rw (split_none c s h)

pub last_label_one :
    (c : ℕ) (r s : Bytes)
    → has c r ≡ false
    → has c s ≡ false
    → last_label (split c (r ++ c ∷ s)) ≡ some s
unfolding last_label
last_label_one c r s hr hs = rw (split_one c r s hr, split_none c s hs)

split_cons : (c : ℕ) (s : Bytes) → (d : Bytes) × (ds : List Bytes) × (split c s ≡ d ∷ ds)
unfolding split cons_head
split_cons c [] = ([], [], refl)
split_cons c (x ∷ xs) =
    let (d, ds, e) = split_cons c xs in
    elim (Bool-cases (x == c)) [ inl t ↦ ([], split c xs, rw t) | inr t ↦ (x ∷ d, ds, rw (t, e)) ]

-- Three parts or more are refused.
last_label_more : (c : ℕ) (a b s : Bytes) → last_label (a ∷ b ∷ split c s) ≡ none
unfolding last_label
last_label_more c a b s = let (d, ds, e) = split_cons c s in rw e

-- The guards of `tunnel_id` let through one label, or two.
pub last_label_sound :
    (c : ℕ) (s id : Bytes)
    → last_label (split c s) ≡ some id
    → (has c id ≡ false) × ((s ≡ id) ⊎ ((r : Bytes) × (has c r ≡ false) × (s ≡ r ++ c ∷ id)))
last_label_sound c s id h = elim (split_cases c s) [
  | inl e ↦
      let same : s ≡ id = cc (last_label_none c s e) in
      (subst (λ t. has c t ≡ false) same e, inl same)
  | inr (a, b, ha, eq) ↦ elim (split_cases c b) [
    | inl e ↦
        let cut : last_label (split c s) ≡ some b = rw eq (last_label_one c a b ha e) in
        let same : b ≡ id = cc cut in
        (subst (λ t. has c t ≡ false) same e, inr (a, ha, eq ∙ ap (λ t. a ++ c ∷ t) same))
    | inr (a', b', ha', eq') ↦
        let cut : last_label (split c s) ≡ none =
          rw (eq, eq', split_one c a (a' ++ c ∷ b') ha, split_one c a' b' ha')
            (last_label_more c a a' b') in
        cc cut
  ]
]
