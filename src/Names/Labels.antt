-- ===== src/Names/Labels.antt =====
-- What a label is made of.
use opentunnel.Prelude.{
  ℕ, ◌≡◌, refl, Bool, true, false, [], ◌∷◌, arith, Bytes, &&_true, leb, ◌+◌, length,
}
use opentunnel.Names.{all, has, valid_char, last_of, middle_of, label_char, is_label}

all-middle_last :
    (p : ℕ → Bool) (x : ℕ) (xs : Bytes)
    → all p (middle_of x xs) ≡ true
    → p (last_of x xs) ≡ true
    → all p (x ∷ xs) ≡ true
unfolding all middle_of last_of
all-middle_last p x [] m l = ground arith
all-middle_last p x (y ∷ ys) m l =
    let both = &&_true (p x) (all p (middle_of y ys)) m in
    ground (arith, all-middle_last p y ys both.1 l)

label_char_valid : (c : ℕ) → valid_char c ≡ true → label_char c ≡ true
unfolding label_char
label_char_valid c h = ground arith

-- Every byte of a label is a letter, a digit or a dash.
pub all-is_label : (s : Bytes) → is_label s ≡ true → all label_char s ≡ true
unfolding is_label all
all-is_label [] h = cc
all-is_label (x ∷ []) h = ground (arith, label_char_valid x)
all-is_label (x ∷ y ∷ rest) h =
    let a = &&_true (leb (length rest + 2) 63) _ h in
    let b = &&_true (valid_char x) _ a.1 in
    let c = &&_true (valid_char (last_of y rest)) _ b.1 in
    ground (
      arith,
      label_char_valid x b.0,
      all-middle_last label_char y rest c.1 (label_char_valid (last_of y rest) c.0),
    )

has-all : (s : Bytes) → all label_char s ≡ true → has b'.' s ≡ false
unfolding all has label_char valid_char
has-all [] h = refl
has-all (x ∷ xs) h =
    let both = &&_true (label_char x) (all label_char xs) h in ground (arith, has-all xs both.1)

-- So a label holds no dot.
pub has-is_label : (s : Bytes) → is_label s ≡ true → has b'.' s ≡ false
has-is_label s h = has-all s (all-is_label s h)
