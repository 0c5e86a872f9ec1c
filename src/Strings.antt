-- ===== src/Strings.antt =====
-- What the program uses of Python's `str`: order, `strip`, `casefold`, and f-strings as lists of
-- pieces (agents/coordinator/signoff.py, backend/app/api, reconciliation).
use Prim.Native.Nat.{compare, Ordering}
use Prim.Native.Char.{code}
use finguard_major_project.Prelude.{
  ℕ, ◌+◌, ◌≤◌, suc, ◌≡◌, ◌↔◌, refl, ap, inl, inr, Bool-cases, String, Bool, true, false, ◌&&◌, ◌||◌,
  List, [], ◌∷◌, arith, leb, ◌==◌, if◌then◌else◌,
}
use finguard_major_project.Prelude.Int.{ℤ}

-- One replacement field of an f-string, before it is formatted. Amounts are in ten-thousandths,
-- times and spans in microseconds, percentages are a quotient.
pub data Piece : Type 0 where
  lit : String → Piece
  num : ℕ → Piece
  money : ℤ → Piece
  cents : ℤ → Piece
  percent : ℕ → ℕ → Piece
  decimal : ℤ → Piece
  moment : ℕ → Piece
  span : ℤ → Piece

abbrev pub Text : Type 0
Text = List Piece

-- `str.isspace` of one character: Python's white space.
unfoldable pub is_space : ℕ → Bool
is_space c =
    (leb 9 c && leb c 13)
    || (leb 28 c && leb c 32)
    || c == 0x85
    || c == 0xA0
    || c == 0x1680
    || (leb 0x2000 c && leb c 0x200A)
    || c == 0x2028
    || c == 0x2029
    || c == 0x202F
    || c == 0x205F
    || c == 0x3000

pub is_blank : String → Bool
is_blank String.[] = true
is_blank (String.◌∷◌ c s) = false

-- `s.lstrip`, `s.rstrip` and `s.strip` of the characters that pass a test.
unfoldable pub lstrip : (ℕ → Bool) → String → String
lstrip p String.[] = String.[]
lstrip p (String.◌∷◌ c s) = let rest = lstrip p s in if p (code c) then rest else String.◌∷◌ c s

unfoldable pub rstrip : (ℕ → Bool) → String → String
unfolding is_blank
rstrip p String.[] = String.[]
rstrip p (String.◌∷◌ c s) =
    let rest = rstrip p s in if p (code c) && is_blank rest then String.[] else String.◌∷◌ c rest

unfoldable pub strip_of : (ℕ → Bool) → String → String
unfolding lstrip rstrip
strip_of p s = rstrip p (lstrip p s)

unfoldable pub strip : String → String
unfolding strip_of is_space
strip s = strip_of is_space s

-- The case folding of an ASCII text, as its code points.
unfoldable pub fold_code : ℕ → ℕ
fold_code c = if leb 65 c && leb c 90 then c + 32 else c

unfoldable pub casefold : String → List ℕ
unfolding fold_code
casefold String.[] = []
casefold (String.◌∷◌ c s) = fold_code (code c) ∷ casefold s

abbrev pub codes_eq : List ℕ → List ℕ → Bool
codes_eq [] [] = true
codes_eq [] (y ∷ ys) = false
codes_eq (x ∷ xs) [] = false
codes_eq (x ∷ xs) (y ∷ ys) = x == y && codes_eq xs ys

-- The order of texts, by code points.
unfoldable pub str_le : String → String → Bool
str_le String.[] t = true
str_le (String.◌∷◌ c s) String.[] = false
str_le (String.◌∷◌ c s) (String.◌∷◌ d t) =
    let rest = str_le s t in
    elim (compare (code c) (code d)) [
      | Ordering.lt ↦ true
      | Ordering.eq ↦ rest
      | Ordering.gt ↦ false
    ]

pub str_le_total : (s t : String) → str_le s t ≡ false → str_le t s ≡ true
unfolding str_le
str_le_total String.[] t h = ground arith
str_le_total (String.◌∷◌ c s) String.[] h = refl
str_le_total (String.◌∷◌ c s) (String.◌∷◌ d t) h = ground (arith, str_le_total s t)

pub codes_eq_refl : (xs : List ℕ) → codes_eq xs xs ≡ true
codes_eq_refl [] = refl
codes_eq_refl (x ∷ xs) = ground (arith, codes_eq_refl xs)

rstrip-rstrip : (p : ℕ → Bool) (s : String) → rstrip p (rstrip p s) ≡ rstrip p s
unfolding rstrip
rstrip-rstrip p String.[] = refl
rstrip-rstrip p (String.◌∷◌ c s) = ground (arith, rstrip-rstrip p s)

-- A text with no leading character to strip, and one that stays so when its end is stripped.
lstrip_fixed : (p : ℕ → Bool) (s : String) → lstrip p (lstrip p s) ≡ lstrip p s
unfolding lstrip
lstrip_fixed p String.[] = refl
lstrip_fixed p (String.◌∷◌ c s) = elim (Bool-cases (p (code c))) [
  | inl h ↦ rw h (lstrip_fixed p s)
  | inr h ↦ rw (h, h)
]

abbrev size : String → ℕ
size String.[] = 0
size (String.◌∷◌ c s) = suc (size s)

size-lstrip-le : (p : ℕ → Bool) (s : String) → size (lstrip p s) ≤ size s
unfolding lstrip
size-lstrip-le p String.[] = omega arith
size-lstrip-le p (String.◌∷◌ c s) = ground (arith, size-lstrip-le p s)

lstrip-rstrip : (p : ℕ → Bool) (s : String) → lstrip p s ≡ s → lstrip p (rstrip p s) ≡ rstrip p s
unfolding lstrip rstrip
lstrip-rstrip p String.[] h = refl
lstrip-rstrip p (String.◌∷◌ c s) h = elim (Bool-cases (p (code c))) [
  | inl e ↦ absurd (omega (arith, ap size h, size-lstrip-le p s, ap size (headed e)))
  | inr e ↦ rw (e, e)
]
  where
    headed : p (code c) ≡ true → lstrip p (String.◌∷◌ c s) ≡ lstrip p s
    headed e = rw e

-- Stripping twice is stripping once.
pub strip_of_idem : (p : ℕ → Bool) (s : String) → strip_of p (strip_of p s) ≡ strip_of p s
unfolding strip_of
strip_of_idem p s =
    rw (lstrip-rstrip p (lstrip p s) (lstrip_fixed p s)) (rstrip-rstrip p (lstrip p s))

pub codes_eq_iff : (xs ys : List ℕ) → (codes_eq xs ys ≡ true) ↔ (xs ≡ ys)
codes_eq_iff xs ys = (to xs ys, λ e. rw e (codes_eq_refl ys))
  where
    to : (xs ys : List ℕ) → codes_eq xs ys ≡ true → xs ≡ ys
    to [] [] h = refl
    to [] (y ∷ ys) h = cc h
    to (x ∷ xs) [] h = cc h
    to (x ∷ xs) (y ∷ ys) h = ground (arith, to xs ys)
