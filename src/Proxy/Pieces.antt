-- ===== src/Proxy/Pieces.antt =====
-- The parser of proxy_protocol.rs on a header that more bytes follow.
use opentunnel.Prelude.{
  ℕ, ◌+◌, ◌/◌, ◌%◌, ◌≤◌, ◌<◌, ◌≡◌, refl, sym, ap, ap₂, ◌∙◌, inl, inr, Bool, true, false, not, ◌&&◌,
  Option, none, some, [], ◌∷◌, ◌++◌, ltb, leb, ◌==◌, min, arith, if◌then◌else◌, Bytes, beq, beq→eq,
  codes, length, take, drop, length-append, length-drop, take-append-drop, take-append_le,
  Bool-cases, Option-cases,
}
use opentunnel.Proxy.Write.{SocketAddr, v2_signature}
use opentunnel.Proxy.Parse.{
  Header, incomplete, invalid, complete, from_be16, source_of, completed, parse_v2, line_end,
  parse_line, parse_v1, parse, v1_max,
}
use opentunnel.Proxy.Version2.{headed, parse_v2-headed}

line_end-append :
    (data_ more : Bytes) (end : ℕ) → line_end data_ ≡ some end → line_end (data_ ++ more) ≡ some end
unfolding line_end
line_end-append [] more end h = absurd (cc h)
line_end-append (x ∷ []) more end h = absurd (cc h)
line_end-append (x ∷ y ∷ rest) more end h = elim (Bool-cases (x == 13 && y == 10)) [
  | inl e ↦ rw e (rw e at h)
  | inr e ↦ elim (Option-cases (line_end (y ∷ rest))) [
    | inl n ↦ absurd (cc (rw (e, n) at h))
    | inr (k, s) ↦ rw (e, line_end-append (y ∷ rest) more k s) (rw (e, s) at h)
  ]
]

line_end_within : (data_ : Bytes) (end : ℕ) → line_end data_ ≡ some end → end + 2 ≤ length data_
unfolding line_end
line_end_within [] end h = absurd (cc h)
line_end_within (x ∷ []) end h = absurd (cc h)
line_end_within (x ∷ y ∷ rest) end h = elim (Bool-cases (x == 13 && y == 10)) [
  | inl e ↦ let z : 0 ≡ end = let h' = rw e at h in cc h' in omega (arith, z)
  | inr e ↦ elim (Option-cases (line_end (y ∷ rest))) [
    | inl n ↦ absurd (cc (rw (e, n) at h))
    | inr (k, s) ↦
        let z : k + 1 ≡ end = let h' = rw (e, s) at h in cc h' in
        omega (arith, z, line_end_within (y ∷ rest) k s)
  ]
]

-- Fewer than six bytes of a header of version 1 hold no line end.
short_none :
    (data_ : Bytes)
    → length data_ < 6
    → beq data_ (take (length data_) (codes "PROXY ")) ≡ true
    → line_end data_ ≡ none
unfolding line_end
short_none [] s h = refl
short_none (a ∷ []) s h = refl
short_none (a ∷ b ∷ []) s h = ap line_end (beq→eq (a ∷ b ∷ []) (80 ∷ 82 ∷ []) h)
short_none (a ∷ b ∷ c ∷ []) s h = ap line_end (beq→eq (a ∷ b ∷ c ∷ []) (80 ∷ 82 ∷ 79 ∷ []) h)
short_none (a ∷ b ∷ c ∷ d ∷ []) s h =
    ap line_end (beq→eq (a ∷ b ∷ c ∷ d ∷ []) (80 ∷ 82 ∷ 79 ∷ 88 ∷ []) h)
short_none (a ∷ b ∷ c ∷ d ∷ e ∷ []) s h =
    ap line_end (beq→eq (a ∷ b ∷ c ∷ d ∷ e ∷ []) (80 ∷ 82 ∷ 79 ∷ 88 ∷ 89 ∷ []) h)
short_none (a ∷ b ∷ c ∷ d ∷ e ∷ f ∷ rest) s h = absurd (omega (arith, s))

take-length : (xs : Bytes) → take (length xs) xs ≡ xs
take-length [] = refl
take-length (x ∷ xs) = ap (λ ys. x ∷ ys) (take-length xs)

-- Where a line end was found, six bytes are there, and they are the prefix.
prefix_whole :
    (data_ : Bytes) (end : ℕ)
    → line_end data_ ≡ some end
    → beq (take (min (length data_) 6) data_) (take (min (length data_) 6) (codes "PROXY ")) ≡ true
    → (6 ≤ length data_) × (beq (take 6 data_) (codes "PROXY ") ≡ true)
prefix_whole data_ end s b = elim (Bool-cases (ltb (length data_) 6)) [
  | inl e ↦
      let short : length data_ < 6 = ground arith in
      let all : min (length data_) 6 ≡ length data_ = omega (arith, short) in
      let b' = rw (all, take-length data_) at b in absurd (cc (short_none data_ short b', s))
  | inr e ↦
      let long : 6 ≤ length data_ = ground arith in
      let six : min (length data_) 6 ≡ 6 = omega (arith, long) in (long, rw six at b)
]

module _ (ip : Bytes → Option (ℕ → SocketAddr)) (port : Bytes → Option ℕ)
    (utf8 : Bytes → Bool) where
  parse_line-append :
      (data_ more : Bytes) (end : ℕ)
      → end ≤ length data_
      → parse_line ip port utf8 (data_ ++ more) end ≡ parse_line ip port utf8 data_ end
  unfolding parse_line
  parse_line-append data_ more end h = rw (take-append_le end data_ more h) refl

  parse_v1-append :
      (data_ more : Bytes) (n : ℕ) (source : Option SocketAddr)
      → parse_v1 ip port utf8 data_ ≡ complete n source
      → parse_v1 ip port utf8 (data_ ++ more) ≡ complete n source
  unfolding parse_v1
  parse_v1-append data_ more n source h =
      elim (Bool-cases
        (beq (take (min (length data_) 6) data_) (take (min (length data_) 6) (codes "PROXY ")))) [
          | inr e ↦ absurd (cc (rw e at h))
          | inl e ↦ elim (Option-cases (line_end data_)) [
            | inl none_ ↦ elim (Bool-cases (leb v1_max (length data_))) [
              | inl long ↦ absurd (cc (rw (e, none_, long) at h))
              | inr long ↦ absurd (cc (rw (e, none_, long) at h))
            ]
            | inr (k, s) ↦
                let (six, prefix) = prefix_whole data_ k s e in
                let within = line_end_within data_ k s in
                let all : min (length (data_ ++ more)) 6 ≡ 6 =
                  omega (arith, length-append data_ more, six) in
                rw
                  (
                    all,
                    take-append_le 6 data_ more six,
                    prefix,
                    line_end-append data_ more k s,
                    parse_line-append data_ more k (omega (arith, within)),
                  )
                  (rw (e, s) at h)
          ]
        ]

-- A complete header of version 2 has its signature and four bytes of head.
parse_v2-complete :
    (data_ : Bytes) (n : ℕ) (source : Option SocketAddr)
    → parse_v2 data_ ≡ complete n source
    → (command : ℕ) × (family : ℕ) × (high : ℕ) × (low : ℕ) × (tail : Bytes) × (data_
        ≡ headed command family high low tail)
unfolding parse_v2
parse_v2-complete data_ n source h =
    elim (Bool-cases
      (beq (take (min (length data_) 12) data_) (take (min (length data_) 12) v2_signature))) [
        | inr e ↦ absurd (cc (rw e at h))
        | inl e ↦ elim (Bool-cases (ltb (length data_) 16)) [
          | inl s ↦ absurd (cc (rw (e, s) at h))
          | inr s ↦
              let long : 16 ≤ length data_ = ground arith in
              let twelve : min (length data_) 12 ≡ 12 = omega (arith, long) in
              let e' = rw twelve at e in
              four (drop 12 data_) refl (omega (arith, long, length-drop 12 data_))
                (beq→eq (take 12 data_) v2_signature e')
        ]
      ]
  where
    four :
        (rest : Bytes)
        → drop 12 data_ ≡ rest
        → 4 ≤ length rest
        → take 12 data_ ≡ v2_signature
        → (command : ℕ) × (family : ℕ) × (high : ℕ) × (low : ℕ) × (tail : Bytes) × (data_
            ≡ headed command family high low tail)
    four [] d l t = absurd (omega (arith, l))
    four (a ∷ []) d l t = absurd (omega (arith, l))
    four (a ∷ b ∷ []) d l t = absurd (omega (arith, l))
    four (a ∷ b ∷ c ∷ []) d l t = absurd (omega (arith, l))
    four (a ∷ b ∷ c ∷ e ∷ tail) d l t =
        (a, b, c, e, tail, sym (take-append-drop 12 data_) ∙ ap₂ (λ x y. x ++ y) t d)

-- What follows the head is complete where the length in the head is reached.
unfoldable body_of : ℕ → ℕ → ℕ → Bytes → Header
body_of command family k tail =
    if not (command / 16 == 2)
    then invalid
    else if ltb (length tail) k
    then incomplete
    else completed (16 + k) (source_of (command % 16) (family / 16) (take k tail))

body_of-append :
    (command family k : ℕ) (tail more : Bytes) (n : ℕ) (source : Option SocketAddr)
    → body_of command family k tail ≡ complete n source
    → body_of command family k (tail ++ more) ≡ complete n source
unfolding body_of
body_of-append command family k tail more n source h = elim (Bool-cases (command / 16 == 2)) [
  | inr e ↦ absurd (cc (rw e at h))
  | inl e ↦ elim (Bool-cases (ltb (length tail) k)) [
    | inl s ↦ absurd (cc (rw (e, s) at h))
    | inr s ↦
        let reached : k ≤ length tail = ground arith in
        let still : ltb (length (tail ++ more)) k ≡ false =
          let all = length-append tail more in ground arith in
        rw (e, still, take-append_le k tail more reached) (rw (e, s) at h)
  ]
]

parse_v2-append :
    (data_ more : Bytes) (n : ℕ) (source : Option SocketAddr)
    → parse_v2 data_ ≡ complete n source
    → parse_v2 (data_ ++ more) ≡ complete n source
unfolding body_of
parse_v2-append data_ more n source h =
    let (command, family, high, low, tail, shape) = parse_v2-complete data_ n source h in
    let h' = sym (parse_v2-headed command family high low tail) ∙ (rw shape at h) in
    rw shape (
      parse_v2-headed command family high low (tail ++ more)
      ∙ body_of-append command family (from_be16 high low) tail more n source h')

-- A header that was found complete stays so, with its length and its source, whatever bytes come after
-- it: the answer does not depend on how much had arrived beyond the header.
pub parse-append :
    (ip : Bytes → Option (ℕ → SocketAddr)) (port : Bytes → Option ℕ) (utf8 : Bytes → Bool)
    (data_ more : Bytes) (n : ℕ) (source : Option SocketAddr)
    → parse ip port utf8 data_ ≡ complete n source
    → parse ip port utf8 (data_ ++ more) ≡ complete n source
unfolding parse
parse-append ip port utf8 [] more n source h = absurd (cc h)
parse-append ip port utf8 (x ∷ data_) more n source h = elim (Bool-cases (x == 13)) [
  | inl e ↦ rw e (parse_v2-append (x ∷ data_) more n source (rw e at h))
  | inr e ↦ elim (Bool-cases (x == b'P')) [
    | inl p ↦ rw (e, p) (parse_v1-append ip port utf8 (x ∷ data_) more n source (rw (e, p) at h))
    | inr p ↦ absurd (cc (rw (e, p) at h))
  ]
]
