-- ===== src/Names/Ports.antt =====
-- The targets that `parse_target` accepts.
use opentunnel.Prelude.{
  ℕ, ◌≡◌, ◌≢◌, ◌↔◌, ◌⊎◌, inl, inr, refl, ap, ap₂, ◌∙◌, true, false, none, some, [], ◌∷◌, ◌++◌, ◌==◌,
  ==_iff, ==_refl, if_some, Bytes, strip_suffix-append, strip_suffix_sound, Bool-cases,
  Option-cases,
}
use opentunnel.Names.{has, all}
use opentunnel.Names.Targets.{rsplit_once, parse_u16, bare_host, is_host, host_char, parse_target}

rsplit_once-none : (c : ℕ) (b : Bytes) → has c b ≡ false → rsplit_once c b ≡ none
unfolding rsplit_once has
rsplit_once-none c [] h = refl
rsplit_once-none c (x ∷ b) h = elim (Bool-cases (x == c)) [
  | inl e ↦ absurd (cc (rw e at h))
  | inr e ↦ rw (rsplit_once-none c b (rw e at h), e) refl
]

rsplit_once-append :
    (c : ℕ) (a b : Bytes) → has c b ≡ false → rsplit_once c (a ++ c ∷ b) ≡ some (a, b)
unfolding rsplit_once
rsplit_once-append c [] b h = rw (rsplit_once-none c b h, ==_refl c) refl
rsplit_once-append c (x ∷ a) b h = rw (rsplit_once-append c a b h) refl

rsplit_once_free : (c : ℕ) (b : Bytes) → rsplit_once c b ≡ none → has c b ≡ false
unfolding rsplit_once has
rsplit_once_free c [] h = refl
rsplit_once_free c (x ∷ b) h = elim (Option-cases (rsplit_once c b)) [
  | inr (p, e) ↦ absurd (cc (rw e at h))
  | inl e ↦ elim (Bool-cases (x == c)) [
    | inl s ↦ absurd (cc (rw (e, s) at h))
    | inr s ↦ rw (s, rsplit_once_free c b e) refl
  ]
]

rsplit_once_sound :
    (c : ℕ) (value a b : Bytes)
    → rsplit_once c value ≡ some (a, b)
    → (value ≡ a ++ c ∷ b) × (has c b ≡ false)
unfolding rsplit_once has
rsplit_once_sound c [] a b h = absurd (cc h)
rsplit_once_sound c (x ∷ xs) a b h = elim (Option-cases (rsplit_once c xs)) [
  | inr ((a', b'), e) ↦
      let (shape, free) = rsplit_once_sound c xs a' b' e in
      let front : x ∷ a' ≡ a = let h' = rw e at h in cc h' in
      let back : b' ≡ b = let h' = rw e at h in cc h' in
      rw (← front, ← back) (ap (λ ys. x ∷ ys) shape, free)
  | inl e ↦ elim (Bool-cases (x == c)) [
    | inr n ↦ absurd (cc (rw (e, n) at h))
    | inl s ↦
        let front : [] ≡ a = let h' = rw (e, s) at h in cc h' in
        let back : xs ≡ b = let h' = rw (e, s) at h in cc h' in
        rw (← front, ← back) (ap (λ y. y ∷ xs) ((==_iff x c).0 s), rsplit_once_free c xs e)
  ]
]

-- A host, alone or in brackets.
pub IsWritten : Bytes → Bytes → Type 0
IsWritten host text = (text ≡ host) ⊎ (text ≡ b'[' ∷ host ++ b']' ∷ [])

bare_host_sound : (text host : Bytes) → bare_host text ≡ some host → IsWritten host text
unfolding bare_host IsWritten
bare_host_sound [] host h = inl (cc h)
bare_host_sound (c ∷ inner) host h = elim (Bool-cases (c == b'[')) [
  | inr e ↦ inl (let h' = rw e at h in cc h')
  | inl e ↦ inr (
      ap₂ (λ x xs. x ∷ xs) ((==_iff c b'[').0 e)
        (strip_suffix_sound inner (b']' ∷ []) host (rw e at h)))
]

bracket : (c : ℕ) (host : Bytes) → is_host (c ∷ host) ≡ true → c ≢ b'['
unfolding is_host all host_char
bracket c host v e = cc (rw e at v)

plain : (host : Bytes) → is_host host ≡ true → bare_host host ≡ some host
unfolding bare_host
plain [] v = refl
plain (c ∷ host) v = elim (Bool-cases (c == b'[')) [
  | inr e ↦ rw e refl
  | inl e ↦ absurd (bracket c host v ((==_iff c b'[').0 e))
]

bare_host_written :
    (text host : Bytes) → is_host host ≡ true → IsWritten host text → bare_host text ≡ some host
unfolding bare_host IsWritten
bare_host_written text host v (inr e) = rw e (strip_suffix-append host (b']' ∷ []))
bare_host_written text host v (inl e) = rw e (plain host v)

-- What a target says: a host of letters, digits, `.`, `-`, `:` and `_`, and a port that is not 0.
pub record IsTarget (value host : Bytes) (port : ℕ) : Type 0 where
  pub before : Bytes
  pub text : Bytes
  pub shape : value ≡ before ++ b':' ∷ text
  pub last : has b':' text ≡ false
  pub number : parse_u16 text ≡ some port
  pub nonzero : port ≢ 0
  pub written : IsWritten host before
  pub valid : is_host host ≡ true

-- The targets that are accepted are exactly `<host>:<port>` and `[<host>]:<port>`, of a port that is not 0
-- and a host that is not empty and has only the characters allowed.
pub parse_target_iff :
    (value host : Bytes) (port : ℕ)
    → (parse_target value ≡ some (host, port)) ↔ IsTarget value host port
unfolding parse_target
parse_target_iff value host port = (sound, complete)
  where
    sound : parse_target value ≡ some (host, port) → IsTarget value host port
    sound h = elim (Option-cases (rsplit_once b':' value)) [
      | inl e ↦ absurd (cc (rw (e, parse_target) at h))
      | inr ((before, text), e) ↦ elim (Option-cases (parse_u16 text)) [
        | inl f ↦ absurd (cc (rw (e, f, parse_target) at h))
        | inr (p, f) ↦ elim (Bool-cases (p == 0)) [
          | inl z ↦ absurd (cc (rw (e, f, z, parse_target) at h))
          | inr z ↦ elim (Option-cases (bare_host before)) [
            | inl g ↦ absurd (cc (rw (e, f, z, g, parse_target) at h))
            | inr (bare, g) ↦
                let found =
                  if_some (is_host bare) (bare, p) (host, port)
                    (rw (e, f, z, g, parse_target) at h) in
                let same : bare ≡ host = cc found.1 in
                let same_port : p ≡ port = cc found.1 in
                let (shape, last) = rsplit_once_sound b':' value before text e in
                record {
                  before = before;
                  text = text;
                  shape = shape;
                  last = last;
                  number = f ∙ ap some same_port;
                  nonzero = λ zero_. absurd (cc ((==_iff p 0).1 (same_port ∙ zero_), z));
                  written = bare_host_sound before host (g ∙ ap some same);
                  valid = rw same at found.0;
                }
          ]
        ]
      ]
    ]

    complete : IsTarget value host port → parse_target value ≡ some (host, port)
    complete t =
        let nonzero : (port == 0) ≡ false = elim (Bool-cases (port == 0)) [
          | inl z ↦ absurd (t.nonzero ((==_iff port 0).0 z))
          | inr z ↦ z
        ] in
        rw
          (
            t.shape,
            rsplit_once-append b':' t.before t.text t.last,
            t.number,
            nonzero,
            bare_host_written t.before host t.valid t.written,
            t.valid,
            parse_target,
          )
          refl
