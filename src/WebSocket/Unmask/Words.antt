-- ===== src/WebSocket/Unmask/Words.antt =====
-- Lemmas on `unmask`: words as the bytes that they hold.
use opentunnel.Prelude.{
  ℕ, zero, suc, ◌+◌, ◌*◌, ◌/◌, ◌%◌, ◌<◌, ◌≡◌, refl, sym, subst, ap, ap₂, ◌∙◌, [], ◌∷◌, ◌++◌, arith,
  Bytes, All, length,
}
use opentunnel.Proxy.Parse.{at}
use opentunnel.WebSocket.Unmask.{xor, from_le, to_le, wide, unmask_chunk, unmask_rest}

-- A shift to the left, and the width of a wider number.
abbrev pub shl : ℕ → ℕ → ℕ
shl zero x = x
shl (suc k) x = 2 * shl k x

abbrev pub wider : ℕ → ℕ → ℕ
wider zero w = w
wider (suc k) w = suc (wider k w)

pub xor_below : (k a b : ℕ) → xor k a b < shl k 1
unfolding xor
xor_below zero a b = omega arith
xor_below (suc k) a b = omega (arith, xor_below k (a / 2) (b / 2))

xor-wider :
    (k w a b x y : ℕ)
    → a < shl k 1
    → b < shl k 1
    → xor (wider k w) (a + shl k x) (b + shl k y) ≡ xor k a b + shl k (xor w x y)
unfolding xor
xor-wider zero w a b x y ha hb =
    let no_a : a ≡ 0 = omega arith in
    let no_b : b ≡ 0 = omega arith in
    let same_x : 0 + x ≡ x = omega arith in
    let same_y : 0 + y ≡ y = omega arith in rw (no_a, no_b, same_x, same_y) (omega arith)
xor-wider (suc k) w a b x y ha hb =
    let low_a : (a + 2 * shl k x) % 2 ≡ a % 2 = omega arith in
    let low_b : (b + 2 * shl k y) % 2 ≡ b % 2 = omega arith in
    let high_a : (a + 2 * shl k x) / 2 ≡ a / 2 + shl k x = omega arith in
    let high_b : (b + 2 * shl k y) / 2 ≡ b / 2 + shl k y = omega arith in
    let rest = xor-wider k w (a / 2) (b / 2) x y (omega arith) (omega arith) in
    rw (low_a, low_b, high_a, high_b, rest) (omega arith)

-- A number masked twice is the number.
pub xor_twice : (k a b : ℕ) → a < shl k 1 → xor k (xor k a b) b ≡ a
unfolding xor
xor_twice zero a b h = omega arith
xor_twice (suc k) a b h =
    let low : ((a % 2 + b % 2) % 2 + 2 * xor k (a / 2) (b / 2)) % 2 ≡ (a % 2 + b % 2) % 2 =
      omega arith in
    let high : ((a % 2 + b % 2) % 2 + 2 * xor k (a / 2) (b / 2)) / 2 ≡ xor k (a / 2) (b / 2) =
      omega arith in
    rw (low, high, xor_twice k (a / 2) (b / 2) (omega arith)) (omega arith)

abbrev pub IsByte : ℕ → Type 0
IsByte byte = byte < 256

abbrev pub bits : Bytes → ℕ
bits [] = 0
bits (x ∷ xs) = wider 8 (bits xs)

abbrev pub zip_xor : Bytes → Bytes → Bytes
zip_xor (x ∷ xs) (y ∷ ys) = xor 8 x y ∷ zip_xor xs ys
zip_xor _ _ = []

xor_word :
    (xs ys : Bytes)
    → length xs ≡ length ys
    → All IsByte xs
    → All IsByte ys
    → to_le (length xs) (xor (bits xs) (from_le xs) (from_le ys)) ≡ zip_xor xs ys
unfolding to_le from_le
xor_word [] [] e hx hy = refl
xor_word [] (y ∷ ys) e hx hy = absurd (omega arith)
xor_word (x ∷ xs) [] e hx hy = absurd (omega arith)
xor_word (x ∷ xs) (y ∷ ys) e (hx, vx) (hy, vy) =
    rw (split)
      (ap₂ (λ first rest. first ∷ rest) low (rw (high) (xor_word xs ys (omega arith) vx vy)))
  where
    word : ℕ
    word = xor (bits xs) (from_le xs) (from_le ys)

    split :
        xor (wider 8 (bits xs)) (x + 256 * from_le xs) (y + 256 * from_le ys)
        ≡ xor 8 x y + 256 * word
    split =
        let wider_xs : 256 * from_le xs ≡ shl 8 (from_le xs) = omega arith in
        let wider_ys : 256 * from_le ys ≡ shl 8 (from_le ys) = omega arith in
        let wider_word : shl 8 word ≡ 256 * word = omega arith in
        rw (wider_xs, wider_ys)
          (xor-wider 8 (bits xs) x y (from_le xs) (from_le ys) (omega arith) (omega arith)
            ∙ ap (λ n. xor 8 x y + n) wider_word)

    low : (xor 8 x y + 256 * word) % 256 ≡ xor 8 x y
    low = omega (arith, xor_below 8 x y)

    high : (xor 8 x y + 256 * word) / 256 ≡ word
    high = omega (arith, xor_below 8 x y)

-- Eight bytes of a payload against the mask twice.
pub chunk_bytes :
    (m : Bytes) (chunk : Bytes)
    → length (m ++ m) ≡ 8
    → length chunk ≡ 8
    → bits chunk ≡ 64
    → All IsByte chunk
    → All IsByte (m ++ m)
    → unmask_chunk m chunk ≡ zip_xor chunk (m ++ m)
unfolding unmask_chunk wide
chunk_bytes m chunk em ec eb vc vm =
    subst (λ n. to_le n (xor 64 (from_le chunk) (from_le (m ++ m))) ≡ zip_xor chunk (m ++ m)) ec
      (subst
        (λ n.
          to_le (length chunk) (xor n (from_le chunk) (from_le (m ++ m))) ≡ zip_xor chunk (m ++ m))
        eb (xor_word chunk (m ++ m) (ec ∙ sym em) vc vm))

-- The bytes of a mask come round.
pub unmask_rest-later :
    (i : ℕ) (mask payload : Bytes) → unmask_rest (i + 4) mask payload ≡ unmask_rest i mask payload
unfolding unmask_rest
unmask_rest-later i mask [] = refl
unmask_rest-later i mask (byte ∷ rest) =
    let same : (i + 4) % 4 ≡ i % 4 = omega arith in
    let after : i + 4 + 1 ≡ i + 1 + 4 = omega arith in
    rw (same, after)
      (ap (λ xs. xor 8 byte (at (i % 4) mask) ∷ xs) (unmask_rest-later (i + 1) mask rest))

-- A mask of four bytes.
pub record IsMask (mask : Bytes) : Type 0 where
  pub four : length mask ≡ 4
  pub bytes : All IsByte mask
