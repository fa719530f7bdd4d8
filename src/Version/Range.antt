-- ===== src/Version/Range.antt =====
-- agent/version/semver.go: Satisfies, over the texts of the version and of the range.
use qrx_node_suite.Prelude.{
  ℕ, Bool, true, false, not, ◌&&◌, ◌||◌, Option, none, some, List, [], ◌∷◌, eqb, if◌then◌else◌,
}
use qrx_node_suite.Version.SemVer.{
  SemVer, trim_space, parse_sem_ver, compare_version, is_lt, is_gt, is_eq,
}

pub data RangeOp : Type 0 where
  ge gt le lt caret tilde exact : RangeOp

-- `\s`.
is_re_space : ℕ → Bool
is_re_space c = eqb c 9 || eqb c 10 || eqb c 12 || eqb c 13 || eqb c 32

has_newline : List ℕ → Bool
has_newline [] = false
has_newline (c ∷ s) = eqb c 10 || has_newline s

-- `\s*(.+)$`. The text was trimmed, so it never ends with a space that `\s*` would give back.
rest_group : List ℕ → Option (List ℕ)
unfolding is_re_space has_newline
rest_group [] = none
rest_group (c ∷ s) =
    if is_re_space c then rest_group s else if has_newline (c ∷ s) then none else some (c ∷ s)

-- One alternative of the operator group: its text at the front, then the rest.
alternative : RangeOp → List ℕ → List ℕ → Option (RangeOp × List ℕ)
unfolding rest_group
alternative op [] s = elim (rest_group s) [ none ↦ none | some t ↦ some (op, t) ]
alternative op (p ∷ ps) [] = none
alternative op (p ∷ ps) (c ∷ s) = if eqb c p then alternative op ps s else none

infixr 6 ◌<|>◌
abbrev ◌<|>◌ : {A : Type 0} → Option A → Option A → Option A
none <|> b = b
some a <|> b = some a

-- rangeRe, `^(>=|<=|>|<|\^|~)?\s*(.+)$`: the first alternative after which the rest matches.
pub match_range : List ℕ → Option (RangeOp × List ℕ)
unfolding alternative
match_range s =
    alternative ge (b'>' ∷ b'=' ∷ []) s
    <|> alternative le (b'<' ∷ b'=' ∷ []) s
    <|> alternative gt (b'>' ∷ []) s
    <|> alternative lt (b'<' ∷ []) s
    <|> alternative caret (b'^' ∷ []) s
    <|> alternative tilde (b'~' ∷ []) s
    <|> alternative exact [] s

-- The `switch op`, for the versions that both sides parsed to.
holds : RangeOp → List ℕ → List ℕ → SemVer → SemVer → Bool
holds ge version target v t = not (is_lt (compare_version version target))
holds gt version target v t = is_gt (compare_version version target)
holds le version target v t = not (is_gt (compare_version version target))
holds lt version target v t = is_lt (compare_version version target)
holds caret version target v t = eqb v.major t.major && not (is_lt (compare_version version target))
holds tilde version target v t =
    eqb v.major t.major && eqb v.minor t.minor && not (is_lt (compare_version version target))
holds exact version target v t = is_eq (compare_version version target)

holds_parsed : RangeOp → List ℕ → List ℕ → Option SemVer → Option SemVer → Bool
unfolding holds
holds_parsed op version target (some v) (some t) = holds op version target v t
holds_parsed op version target _ _ = false

-- rng == "*".
is_star : List ℕ → Bool
is_star [] = false
is_star (c ∷ []) = eqb c b'*'
is_star (c ∷ d ∷ s) = false

satisfies_trimmed : List ℕ → List ℕ → Bool
unfolding match_range holds_parsed is_star
satisfies_trimmed version [] = true
satisfies_trimmed version (c ∷ s) = if is_star (c ∷ s) then true else elim (match_range (c ∷ s)) [
  | none ↦ false
  | some (op, target) ↦
      holds_parsed op version target (parse_sem_ver version) (parse_sem_ver target)
]

unfoldable pub satisfies : List ℕ → List ℕ → Bool
unfolding satisfies_trimmed
satisfies version rng = satisfies_trimmed version (trim_space rng)
