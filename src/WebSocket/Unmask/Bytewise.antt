-- ===== src/WebSocket/Unmask/Bytewise.antt =====
-- Lemmas on `unmask`: the eight bytes at a time against one by one.
use opentunnel.Prelude.{
  ℕ, ◌+◌, ◌%◌, ◌≡◌, refl, ap, ◌∙◌, [], ◌∷◌, ◌++◌, arith, Bytes, All, length, subst, sym, ap₂,
}
use opentunnel.Proxy.Parse.{at}
use opentunnel.WebSocket.Unmask.{unmask_chunk, unmask_rest, unmask}
use opentunnel.WebSocket.Unmask.Words.{
  IsByte, IsMask, xor_twice, xor_below, zip_xor, chunk_bytes, unmask_rest-later,
}

four_bytes :
    (mask : Bytes)
    → length mask ≡ 4
    → (a : ℕ) × (b : ℕ) × (c : ℕ) × (d : ℕ) × (mask ≡ a ∷ b ∷ c ∷ d ∷ [])
four_bytes [] e = absurd (omega arith)
four_bytes (a ∷ []) e = absurd (omega arith)
four_bytes (a ∷ b ∷ []) e = absurd (omega arith)
four_bytes (a ∷ b ∷ c ∷ []) e = absurd (omega arith)
four_bytes (a ∷ b ∷ c ∷ d ∷ []) e = (a, b, c, d, refl)
four_bytes (a ∷ b ∷ c ∷ d ∷ x ∷ rest) e = absurd (omega arith)

abbrev Front : Bytes → Type 0
Front mask =
    (a b c d e f g h : ℕ) (rest : Bytes)
    → IsMask mask
    → All IsByte (a ∷ b ∷ c ∷ d ∷ e ∷ f ∷ g ∷ h ∷ [])
    → unmask_chunk mask (a ∷ b ∷ c ∷ d ∷ e ∷ f ∷ g ∷ h ∷ []) ++ unmask_rest 0 mask rest
      ≡ unmask_rest 0 mask (a ∷ b ∷ c ∷ d ∷ e ∷ f ∷ g ∷ h ∷ rest)

front : (i j k l : ℕ) → Front (i ∷ j ∷ k ∷ l ∷ [])
unfolding unmask_rest
front i j k l a b c d e f g h rest m v =
    let mask : Bytes = i ∷ j ∷ k ∷ l ∷ [] in
    let (vi, (vj, (vk, (vl, _)))) = m.bytes in
    let eight =
      chunk_bytes mask (a ∷ b ∷ c ∷ d ∷ e ∷ f ∷ g ∷ h ∷ []) refl refl refl v
        (vi, (vj, (vk, (vl, (vi, (vj, (vk, (vl, tt)))))))) in
    ap (λ xs. xs ++ unmask_rest 0 mask rest) eight
    ∙ ap (λ xs. zip_xor (a ∷ b ∷ c ∷ d ∷ e ∷ f ∷ g ∷ h ∷ []) (mask ++ mask) ++ xs)
        (sym (unmask_rest-later 4 mask rest ∙ unmask_rest-later 0 mask rest))

-- Eight bytes at the front.
unmask_eight : (mask : Bytes) → length mask ≡ 4 → Front mask
unmask_eight mask four =
    let (i, j, k, l, e) = four_bytes mask four in subst Front (sym e) (front i j k l)

-- With a mask of four bytes, unmasking the bytes of a payload eight at a time, as words, is masking each with the
-- mask's byte at its index modulo 4.
pub unmask-unmask_rest :
    (mask payload : Bytes)
    → IsMask mask
    → All IsByte payload
    → unmask mask payload ≡ unmask_rest 0 mask payload
unfolding unmask
unmask-unmask_rest mask [] m v = refl
unmask-unmask_rest mask (a ∷ []) m v = refl
unmask-unmask_rest mask (a ∷ b ∷ []) m v = refl
unmask-unmask_rest mask (a ∷ b ∷ c ∷ []) m v = refl
unmask-unmask_rest mask (a ∷ b ∷ c ∷ d ∷ []) m v = refl
unmask-unmask_rest mask (a ∷ b ∷ c ∷ d ∷ e ∷ []) m v = refl
unmask-unmask_rest mask (a ∷ b ∷ c ∷ d ∷ e ∷ f ∷ []) m v = refl
unmask-unmask_rest mask (a ∷ b ∷ c ∷ d ∷ e ∷ f ∷ g ∷ []) m v = refl
unmask-unmask_rest mask (a ∷ b ∷ c ∷ d ∷ e ∷ f ∷ g ∷ h ∷ rest) m v =
    let (va, (vb, (vc, (vd, (ve, (vf, (vg, (vh, vr)))))))) = v in
    ap (λ xs. unmask_chunk mask (a ∷ b ∷ c ∷ d ∷ e ∷ f ∷ g ∷ h ∷ []) ++ xs)
      (unmask-unmask_rest mask rest m vr)
    ∙ unmask_eight mask m.four a b c d e f g h rest m
        (va, (vb, (vc, (vd, (ve, (vf, (vg, (vh, tt))))))))

-- Bytes that were masked one by one.
rest_twice :
    (i : ℕ) (mask payload : Bytes)
    → All IsByte payload
    → unmask_rest i mask (unmask_rest i mask payload) ≡ payload
unfolding unmask_rest
rest_twice i mask [] v = refl
rest_twice i mask (byte ∷ rest) (h, v) =
    ap₂ (λ x xs. x ∷ xs) (xor_twice 8 byte (at (i % 4) mask) (omega arith))
      (rest_twice (i + 1) mask rest v)

rest_IsByte : (i : ℕ) (mask payload : Bytes) → All IsByte (unmask_rest i mask payload)
unfolding unmask_rest
rest_IsByte i mask [] = tt
rest_IsByte i mask (byte ∷ rest) =
    (omega (arith, xor_below 8 byte (at (i % 4) mask)), rest_IsByte (i + 1) mask rest)

pub length-unmask_rest :
    (i : ℕ) (mask payload : Bytes) → length (unmask_rest i mask payload) ≡ length payload
unfolding unmask_rest
length-unmask_rest i mask [] = refl
length-unmask_rest i mask (byte ∷ rest) = omega (arith, length-unmask_rest (i + 1) mask rest)

-- A payload that was masked byte by byte.
pub unmask_masked :
    (mask payload : Bytes)
    → IsMask mask
    → All IsByte payload
    → unmask mask (unmask_rest 0 mask payload) ≡ payload
unmask_masked mask payload m v =
    unmask-unmask_rest mask (unmask_rest 0 mask payload) m (rest_IsByte 0 mask payload)
    ∙ rest_twice 0 mask payload v
