-- ===== src/QrxCli/Itoa.antt =====
-- agent/qrx/fields.go, Itoa: the digits are those of the number.
use qrx_node_suite.Prelude.{
  ◌⊎◌, ℕ, zero, suc, ◌+◌, ◌-◌, ◌*◌, ◌/◌, ◌%◌, ◌<◌, ◌≤◌, ◌≡◌, refl, ap, sym, ◌∙◌, true, false, List,
  [], ◌∷◌, eqb, ltb, leb, All, arith, Bool-cases, inl, inr,
}
use mathlib.Core.Path.{subst}
use qrx_node_suite.QrxCli.{fill, digits, itoa, negate, word, min_int}

-- The number that a row of decimal digits denotes, read from the left behind `n`.
pub value : ℕ → List ℕ → ℕ
value n [] = n
value n (c ∷ s) = value (n * 10 + (c - 48)) s

-- A decimal digit, as a code point.
abbrev pub IsDigit : ℕ → Type 0
IsDigit c = (48 ≤ c) × (c ≤ 57)

-- A first digit that is not zero.
abbrev pub Leading : List ℕ → Type 0
Leading s = (c : ℕ) × (r : List ℕ) × (s ≡ c ∷ r) × (48 < c)

-- The decimal numeral of a number: digits only, at least one, and no zero in front of another digit.
pub record IsNumeral (n : ℕ) (s : List ℕ) : Type 0 where
  pub are_digits : All IsDigit s
  pub denotes : value 0 s ≡ n
  pub is_proper : (s ≡ 48 ∷ []) ⊎ Leading s

-- How many numbers `left` digits can write.
pub limit : ℕ → ℕ
limit zero = 1
limit (suc left) = 10 * limit left

fill-value : (left n : ℕ) (buf : List ℕ) → n < limit left → value 0 (fill left n buf) ≡ value n buf
unfolding fill value limit
fill-value zero n buf h = ap (λ (x : ℕ). value x buf) (omega (arith, h))
fill-value (suc left) n buf h = elim (Bool-cases (eqb n 0)) [
  | inl y ↦ rw y (ap (λ (x : ℕ). value x buf) (ground arith))
  | inr m ↦ rw m (
      fill-value left (n / 10) ((48 + n % 10) ∷ buf) (omega (arith, h))
      ∙ ap (λ (x : ℕ). value x buf) (omega arith))
]

last-IsDigit : (n : ℕ) → IsDigit (48 + n % 10)
last-IsDigit n = (omega arith, omega arith)

fill-IsDigit : (left n : ℕ) (buf : List ℕ) → All IsDigit buf → All IsDigit (fill left n buf)
unfolding fill
fill-IsDigit zero n buf h = h
fill-IsDigit (suc left) n buf h = elim (Bool-cases (eqb n 0)) [
  | inl y ↦ rw y h
  | inr m ↦ rw m (fill-IsDigit left (n / 10) ((48 + n % 10) ∷ buf) (last-IsDigit n, h))
]

leads : (n : ℕ) (buf : List ℕ) → 0 < n → (0 < n / 10) ⊎ Leading ((48 + n % 10) ∷ buf)
leads n buf h = elim (Bool-cases (ltb 0 (n / 10))) [
  | inl y ↦ inl (ground arith)
  | inr m ↦ inr (48 + n % 10, buf, refl, small (ground arith))
]
  where
    small : n / 10 ≤ 0 → 48 < 48 + n % 10
    small k = omega arith

fill-Leading :
    (left n : ℕ) (buf : List ℕ) → n < limit left → (0 < n) ⊎ Leading buf → Leading (fill left n buf)
unfolding fill limit
fill-Leading zero n buf h (inl p) = absurd (omega (arith, h, p))
fill-Leading zero n buf h (inr q) = q
fill-Leading (suc left) n buf h k = elim (Bool-cases (eqb n 0)) [
  | inl y ↦ rw y (elim k [ inl p ↦ absurd (ground arith) | inr q ↦ q ])
  | inr m ↦ rw m (
      fill-Leading left (n / 10) ((48 + n % 10) ∷ buf) (omega (arith, h))
        (leads n buf (ground arith)))
]

lt_leb : (a b : ℕ) → b < a → leb a b ≡ false
lt_leb a b h = ground arith

le_leb : (a b : ℕ) → a ≤ b → leb a b ≡ true
le_leb a b h = ground arith

ne_eqb : (n : ℕ) → 0 < n → eqb n 0 ≡ false
ne_eqb n h = ground arith

eqb_zero : (n : ℕ) → eqb n 0 ≡ true → 0 ≡ n
eqb_zero n h = ground arith

small_enough : (n : ℕ) → n < min_int → n < limit 20
unfolding limit
small_enough n h = omega (arith, h)

module _ (n : ℕ) (pos : 0 < n) (h : n < min_int) where
  filled : digits n ≡ fill 20 n []
  unfolding digits
  filled = rw (lt_leb min_int n h)

  digits-IsNumeral : IsNumeral n (digits n)
  unfolding value
  digits-IsNumeral = subst (IsNumeral n) (sym filled) (record {
    are_digits = fill-IsDigit 20 n [] tt;
    denotes = fill-value 20 n [] (small_enough n h);
    is_proper = inr (fill-Leading 20 n [] (small_enough n h) (inl pos));
  })

positive : (n : ℕ) → n < min_int → IsNumeral n (itoa n)
unfolding itoa value
positive n h = elim (Bool-cases (eqb n 0)) [
  | inl y ↦ rw y (record {
    are_digits = ((omega arith, omega arith), tt);
    denotes = eqb_zero n y;
    is_proper = inl refl;
  })
  | inr m ↦ subst (IsNumeral n) (sym (written m)) (digits-IsNumeral n (ground arith) h)
]
  where
    written : eqb n 0 ≡ false → itoa n ≡ digits n
    written m = rw (m, lt_leb min_int n h)

negate-word : (n : ℕ) → min_int < n → n < word → negate n ≡ word - n
negate-word n h k = omega (arith, h, k)

negative : (n : ℕ) → min_int < n → n < word → itoa n ≡ 45 ∷ digits (negate n)
unfolding itoa
negative n h k = rw (ne_eqb n (omega (arith, h)), le_leb min_int n (omega (arith, h))) refl

least : itoa min_int ≡ 45 ∷ []
unfolding itoa digits
least = refl

-- The text of an int: of one that is not negative, its decimal numeral (digits only, without a leading
-- zero); of a negative one but the least, a minus sign and the numeral of its magnitude; of the least one, the minus sign alone.
pub itoa-value :
    (n : ℕ)
    → n < word
    → ((n < min_int) × IsNumeral n (itoa n))
      ⊎ ((s : List ℕ) × (min_int < n) × (itoa n ≡ 45 ∷ s) × IsNumeral (word - n) s)
      ⊎ ((n ≡ min_int) × (itoa n ≡ 45 ∷ []))
itoa-value n h = elim (compare_cases n min_int) [
  | inl a ↦ inl (a, positive n a)
  | inr (inl b) ↦ inr (
      inl (
        digits (negate n),
        b,
        negative n b h,
        subst (λ x. IsNumeral x (digits (negate n))) (negate-word n b h)
            (digits-IsNumeral (negate n) (omega (arith, b, h, negate-word n b h))
              (omega (arith, b, h, negate-word n b h))),
      ))
  | inr (inr c) ↦ inr (inr (c, ap itoa c ∙ least))
]
  where
    compare_cases : (a b : ℕ) → (a < b) ⊎ (b < a) ⊎ (a ≡ b)
    compare_cases a b = omega arith
