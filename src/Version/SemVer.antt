-- ===== src/Version/SemVer.antt =====
-- agent/version/semver.go: parsing and comparing semantic versions, and range strings.
-- The two regular expressions are written as the deterministic scans that they amount to.
pub mod Order
pub mod Scanned
pub mod Grammar
use qrx_node_suite.Prelude.Options.{◌>>=◌}
use qrx_node_suite.Prelude.{
  ℕ, zero, suc, ◌+◌, ◌-◌, ◌*◌, ◌^◌, ◌≡◌, refl, String, Bool, true, false, not, ◌&&◌, ◌||◌, Option,
  none, some, List, [], ◌∷◌, ◌++◌, ltb, leb, eqb, is_some, if◌then◌else◌, compare, Ordering, codes,
  compare_codes, ◌==◌,
}

-- unicode.IsSpace, which strings.TrimSpace drops at both ends.
is_space : ℕ → Bool
is_space c =
    (leb 9 c && leb c 13)
    || eqb c 32
    || eqb c 0x85
    || eqb c 0xa0
    || eqb c 0x1680
    || (leb 0x2000 c && leb c 0x200a)
    || eqb c 0x2028
    || eqb c 0x2029
    || eqb c 0x202f
    || eqb c 0x205f
    || eqb c 0x3000

trim_left : List ℕ → List ℕ
trim_left [] = []
trim_left (c ∷ s) = if is_space c then trim_left s else c ∷ s

-- The text without its trailing space: a space is kept when something kept follows it.
trim_right : List ℕ → List ℕ
trim_right [] = []
trim_right (c ∷ s) = elim (trim_right s) [
  | [] ↦ if is_space c then [] else c ∷ []
  | d ∷ t ↦ c ∷ d ∷ t
]

pub trim_space : List ℕ → List ℕ
unfolding is_space trim_left trim_right
trim_space s = trim_right (trim_left s)

-- `\d` and `[0-9A-Za-z.-]`.
pub is_digit : ℕ → Bool
is_digit c = leb b'0' c && leb c b'9'

pub is_ident : ℕ → Bool
unfolding is_digit
is_ident c =
    is_digit c
    || (leb b'A' c && leb c b'Z')
    || (leb b'a' c && leb c b'z')
    || eqb c b'.'
    || eqb c b'-'

-- The longest prefix of characters that pass the test, and what follows it.
pub span : (ℕ → Bool) → List ℕ → List ℕ × List ℕ
span p [] = ([], [])
span p (c ∷ s) = let (run, rest) = span p s in if p c then (c ∷ run, rest) else ([], c ∷ s)

abbrev max_int : ℕ
max_int = 9223372036854775807

digits_value : ℕ → List ℕ → ℕ
digits_value acc [] = acc
digits_value acc (c ∷ s) = digits_value (acc * 10 + (c - b'0')) s

-- strconv.Atoi on a run of digits, its error dropped: out of range it returns the largest int64.
pub atoi : List ℕ → ℕ
unfolding digits_value
atoi s = let n = digits_value 0 s in if leb n max_int then n else max_int

pub record SemVer : Type 0 where
  pub major : ℕ
  pub minor : ℕ
  pub patch : ℕ
  pub prerelease : List ℕ  -- [] if none

-- A `+` group over a class: no match where the run is empty.
nonempty : List ℕ × List ℕ → Option (List ℕ × List ℕ)
nonempty ([], rest) = none
nonempty (c ∷ run, rest) = some (c ∷ run, rest)

-- `(\d+)` at the front: the digits and the rest.
pub digits1 : List ℕ → Option (List ℕ × List ℕ)
unfolding span nonempty is_digit
digits1 s = nonempty (span is_digit s)

-- `\.` between two numbers.
pub dot : List ℕ → Option (List ℕ)
dot [] = none
dot (c ∷ s) = if eqb c b'.' then some s else none

is_whole : Option (List ℕ × List ℕ) → Bool
is_whole none = false
is_whole (some (run, [])) = true
is_whole (some (run, c ∷ rest)) = false

-- `(?:\+[0-9A-Za-z.-]+)?$`.
pub build_end : List ℕ → Bool
unfolding span nonempty is_ident is_whole
build_end [] = true
build_end (c ∷ s) = eqb c b'+' && is_whole (nonempty (span is_ident s))

end_after : Option (List ℕ × List ℕ) → Option (List ℕ)
unfolding build_end
end_after none = none
end_after (some (run, rest)) = if build_end rest then some run else none

-- `(?:-([0-9A-Za-z.-]+))?` and the end: the prerelease.
pub suffix : List ℕ → Option (List ℕ)
unfolding span nonempty is_ident build_end end_after
suffix [] = some []
suffix (c ∷ s) =
    if eqb c b'-'
    then end_after (nonempty (span is_ident s))
    else if build_end (c ∷ s)
    then some []
    else none

-- semverRe over a text, and the record that ParseSemVer makes of its groups.
pub match_sem_ver : List ℕ → Option SemVer
unfolding digits1 dot suffix atoi
match_sem_ver s = do
  (x, s1) ← digits1 s
  s2 ← dot s1
  (y, s3) ← digits1 s2
  s4 ← dot s3
  (z, s5) ← digits1 s4
  pre ← suffix s5
  some (record { major = atoi x; minor = atoi y; patch = atoi z; prerelease = pre })

unfoldable pub parse_sem_ver : List ℕ → Option SemVer
unfolding trim_space match_sem_ver
parse_sem_ver s = match_sem_ver (trim_space s)

pub is_valid_sem_ver : List ℕ → Bool
is_valid_sem_ver s = is_some (parse_sem_ver s)

-- No prerelease outranks any prerelease.
compare_prerelease : List ℕ → List ℕ → Ordering
unfolding compare_codes
compare_prerelease [] [] = Ordering.eq
compare_prerelease [] (y ∷ ys) = Ordering.gt
compare_prerelease (x ∷ xs) [] = Ordering.lt
compare_prerelease (x ∷ xs) (y ∷ ys) = compare_codes (x ∷ xs) (y ∷ ys)

-- The steps of CompareStrict once both sides have parsed; lt, eq, gt stand for -1, 0, 1.
unfoldable pub compare_sem_ver : SemVer → SemVer → Ordering
unfolding compare_prerelease
compare_sem_ver a b =
    if not (eqb a.major b.major)
    then compare a.major b.major
    else if not (eqb a.minor b.minor)
    then compare a.minor b.minor
    else if not (eqb a.patch b.patch)
    then compare a.patch b.patch
    else compare_prerelease a.prerelease b.prerelease

-- CompareStrict: `none` is the error for a side that does not parse.
pub compare_strict : List ℕ → List ℕ → Option Ordering
compare_strict a b = do va ← parse_sem_ver a; vb ← parse_sem_ver b; some (compare_sem_ver va vb)

-- Compare: if either side does not parse, the texts are compared.
unfoldable pub compare_version : List ℕ → List ℕ → Ordering
unfolding compare_strict compare_codes
compare_version a b = elim (compare_strict a b) [ none ↦ compare_codes a b | some c ↦ c ]

abbrev pub is_lt : Ordering → Bool
is_lt Ordering.lt = true
is_lt _ = false

abbrev pub is_gt : Ordering → Bool
is_gt Ordering.gt = true
is_gt _ = false

abbrev pub is_eq : Ordering → Bool
is_eq Ordering.eq = true
is_eq _ = false

unfoldable pub gt : List ℕ → List ℕ → Bool
gt a b = is_gt (compare_version a b)

pub gte : List ℕ → List ℕ → Bool
gte a b = not (is_lt (compare_version a b))

pub lt : List ℕ → List ℕ → Bool
lt a b = is_lt (compare_version a b)

pub lte : List ℕ → List ℕ → Bool
lte a b = not (is_gt (compare_version a b))

pub eq : List ℕ → List ℕ → Bool
eq a b = is_eq (compare_version a b)
