-- ===== src/Prelude/Octets.antt =====
-- Byte strings as lists of numbers, their comparison, and big-endian integers.
use Prim.Native.Char.{code}
use Prim.Native.Nat.{ℕ, ◌-◌, ◌≤◌}
use Prim.Native.String.{String}
use mathlib.Core.Path.{◌≡◌, refl, ap₂, ◌∙◌, sym}
use mathlib.Core.Bool.{Bool, true, false, ◌&&◌}
use mathlib.Core.List.{List, [], ◌∷◌, ◌++◌}
use mathlib.Core.Option.{Option, none, some}
use native.Mathlib.Omega.{arith}
use opentunnel.Prelude.Tests.{if_some, leb, le→leb, ◌==◌, ==_iff, if◌then◌else◌, &&_true}
use opentunnel.Prelude.Lists.{
  length, take, drop, length-append, take-append-drop, take-append_length, drop-append_length,
}

abbrev pub Bytes : Type 0
Bytes = List ℕ

-- The code points of a text: its bytes, as every text of the program here is ASCII.
abbrev pub codes : String → Bytes
codes String.[] = []
codes (String.◌∷◌ c s) = code c ∷ codes s

-- `==` on slices.
abbrev pub beq : Bytes → Bytes → Bool
beq [] [] = true
beq (x ∷ xs) (y ∷ ys) = x == y && beq xs ys
beq _ _ = false

pub beq_refl : (s : Bytes) → beq s s ≡ true
beq_refl [] = refl
beq_refl (x ∷ xs) = ground (arith, beq_refl xs)

pub beq→eq : (s t : Bytes) → beq s t ≡ true → s ≡ t
beq→eq [] [] h = refl
beq→eq [] (y ∷ ys) h = cc
beq→eq (x ∷ xs) [] h = cc
beq→eq (x ∷ xs) (y ∷ ys) h =
    let both = &&_true (x == y) (beq xs ys) h in
    ap₂ (λ a b. a ∷ b) ((==_iff x y).0 both.0) (beq→eq xs ys both.1)

-- `str::strip_suffix`.
unfoldable pub strip_suffix : Bytes → Bytes → Option Bytes
strip_suffix s t =
    let n = length s - length t in
    if leb (length t) (length s) && beq (drop n s) t then some (take n s) else none

pub strip_suffix-append : (a t : Bytes) → strip_suffix (a ++ t) t ≡ some a
unfolding strip_suffix
strip_suffix-append a t =
    rw (at, drop-append_length a t, take-append_length a t, beq_refl t, le→leb _ _ fits)
  where
    at : length (a ++ t) - length t ≡ length a
    at = omega (arith, length-append a t)

    fits : length t ≤ length (a ++ t)
    fits = omega (arith, length-append a t)

pub strip_suffix_sound : (s t a : Bytes) → strip_suffix s t ≡ some a → s ≡ a ++ t
unfolding strip_suffix
strip_suffix_sound s t a h =
    let n : ℕ = length s - length t in
    let found = if_some (leb (length t) (length s) && beq (drop n s) t) (take n s) a h in
    let tests = &&_true (leb (length t) (length s)) (beq (drop n s) t) found.0 in
    sym (take-append-drop n s) ∙ ap₂ (λ u v. u ++ v) found.1 (beq→eq (drop n s) t tests.1)
