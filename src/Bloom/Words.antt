-- ===== src/Bloom/Words.antt =====
-- Single bits of words, and lists of words that are written at an index.
use yggdrasil_ng.Prelude.{
  ℕ, zero, suc, ◌/◌, ◌%◌, ◌^◌, ◌<◌, ◌≡◌, refl, sym, ap, ◌∙◌, List, [], ◌∷◌, true, ◌||◌, ◌==◌,
  bit_or, get_or, set, length, arith,
}
use yggdrasil_ng.Prelude.Bits.{bit_or-halves, low_bits_1}
use native.Mathlib.Nat.{pow-suc, pow-succ', div-div-eq-div-mul}
use yggdrasil_ng.Bloom.{word_bit, or_words}

-- The low bit decides.
pub word_bit-zero : (a : ℕ) → word_bit a 0 ≡ (a % 2 == 1)
unfolding word_bit
word_bit-zero a = ground (arith, low_bits_1 (a / 1))

-- A higher bit is a bit of the half.
div_pow_suc : (a o : ℕ) → a / 2 ^ suc o ≡ a / 2 / 2 ^ o
div_pow_suc a o = ap (λ (t : ℕ). a / t) (pow-succ' 2 o) ∙ sym (div-div-eq-div-mul a 2 (2 ^ o))

pub word_bit-suc : (a o : ℕ) → word_bit a (suc o) ≡ word_bit (a / 2) o
unfolding word_bit
word_bit-suc a o = rw (div_pow_suc a o) refl

halves : (a b : ℕ) → bit_or a b / 2 ≡ bit_or (a / 2) (b / 2)
halves a b = omega (arith, bit_or-halves a b)

-- A bit of a union is set where one of the two is.
pub word_bit-bit_or : (a b o : ℕ) → word_bit (bit_or a b) o ≡ (word_bit a o || word_bit b o)
word_bit-bit_or a b zero =
    rw (word_bit-zero (bit_or a b), word_bit-zero a, word_bit-zero b)
      (ground (arith, bit_or-halves a b))
word_bit-bit_or a b (suc o) =
    rw (word_bit-suc (bit_or a b) o, word_bit-suc a o, word_bit-suc b o, halves a b)
      (word_bit-bit_or (a / 2) (b / 2) o)

-- The word with one bit.
pub word_bit-pow : (o : ℕ) → word_bit (2 ^ o) o ≡ true
word_bit-pow zero = word_bit-zero 1
word_bit-pow (suc o) = rw (word_bit-suc (2 ^ suc o) o, pow_half) (word_bit-pow o)
  where
    pow_half : 2 ^ suc o / 2 ≡ 2 ^ o
    pow_half = omega (arith, pow-suc 2 o)

-- The bit of the word at an index, by the number of the bit in the list.
pub get_or-or_words :
    (xs ys : List ℕ) (i : ℕ)
    → length xs ≡ length ys
    → get_or (or_words xs ys) i 0 ≡ bit_or (get_or xs i 0) (get_or ys i 0)
unfolding or_words
get_or-or_words [] [] i h = refl
get_or-or_words [] (y ∷ ys) i h = absurd (omega arith)
get_or-or_words (x ∷ xs) [] i h = absurd (omega arith)
get_or-or_words (x ∷ xs) (y ∷ ys) zero h = refl
get_or-or_words (x ∷ xs) (y ∷ ys) (suc i) h = get_or-or_words xs ys i (omega arith)

pub length-or_words : (xs ys : List ℕ) → length (or_words xs ys) ≡ length xs
unfolding or_words
length-or_words [] ys = refl
length-or_words (x ∷ xs) [] = refl
length-or_words (x ∷ xs) (y ∷ ys) = ap suc (length-or_words xs ys)

pub length-set : (xs : List ℕ) (i v : ℕ) → length (set xs i v) ≡ length xs
length-set [] i v = refl
length-set (x ∷ xs) zero v = refl
length-set (x ∷ xs) (suc i) v = ap suc (length-set xs i v)

pub get_or-set_same : (xs : List ℕ) (i v : ℕ) → i < length xs → get_or (set xs i v) i 0 ≡ v
get_or-set_same [] i v h = absurd (omega arith)
get_or-set_same (x ∷ xs) zero v h = refl
get_or-set_same (x ∷ xs) (suc i) v h = get_or-set_same xs i v (omega arith)

-- A bit that is set stays set where a word gets more bits.
pub word_bit-set :
    (xs : List ℕ) (i j w o : ℕ)
    → word_bit (get_or xs j 0) o ≡ true
    → word_bit (get_or (set xs i (bit_or (get_or xs i 0) w)) j 0) o ≡ true
word_bit-set [] i j w o h = h
word_bit-set (x ∷ xs) zero zero w o h = ground (arith, word_bit-bit_or x w o)
word_bit-set (x ∷ xs) zero (suc j) w o h = h
word_bit-set (x ∷ xs) (suc i) zero w o h = h
word_bit-set (x ∷ xs) (suc i) (suc j) w o h = word_bit-set xs i j w o h
