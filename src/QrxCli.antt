-- ===== src/QrxCli.antt =====
-- agent/qrx/fields.go: reading the answers of qrx-cli, whose field names vary, and the numbers of its
-- arguments.
--
-- The JSON library is a parameter. An int is its 64-bit word, a number below 2 ^ 64.
pub mod Itoa
pub mod Keys
pub mod Runner
mod Tests
use qrx_node_suite.Prelude.{
  ℕ, zero, suc, ◌+◌, ◌-◌, ◌/◌, ◌%◌, ◌^◌, String, Bool, true, false, not, ◌&&◌, Option, none, some,
  List, [], ◌∷◌, eqb, ltb, leb, if◌then◌else◌, ◌==◌,
}

-- models.Value, less the reason of an absent one.
abbrev pub Value : Type 0 → Type 0
Value A = Option A

-- A raw message, and what json.Unmarshal makes of it: an object (a null decodes to none), a string, an
-- int64, a bool, and the text of a number.
pub record Json : Type 1 where
  pub Raw : Type 0
  pub object : Raw → Option (Option (List (String × Raw)))
  pub string : Raw → Option String
  pub int64 : Raw → Option ℕ
  pub bool : Raw → Option Bool
  pub number_text : Raw → Option String

unfoldable pub lookup : {A : Type 0} → String → List (String × A) → Option A
lookup k [] = none
lookup k ((j, a) ∷ m) = if j == k then some a else lookup k m

module _ (j : Json) where
  -- The envelope's result, if it is an object.
  unfoldable pub unwrapped : List (String × j.Raw) → Option j.Raw → List (String × j.Raw)
  unwrapped m none = m
  unwrapped m (some result) = elim (j.object result) [
    | some (some nested) ↦ nested
    | some none ↦ m
    | none ↦ m
  ]

  -- Fields; `none` is an error, a nil map is an empty one.
  unfoldable pub fields : j.Raw → Option (List (String × j.Raw))
  unfolding unwrapped lookup
  fields raw = elim (j.object raw) [
    | none ↦ none
    | some none ↦ some []
    | some (some m) ↦ some (unwrapped m (lookup "result" m))
  ]

  unfoldable pub result : j.Raw → Option j.Raw
  unfolding lookup
  result raw = elim (j.object raw) [
    | none ↦ none
    | some none ↦ some raw
    | some (some m) ↦ elim (lookup "result" m) [ none ↦ some raw | some r ↦ some r ]
  ]

  abbrev pub or_else : {A : Type 0} → Option A → Option A → Option A
  or_else none b = b
  or_else (some a) b = some a

  abbrev pub read : {A : Type 0} → (j.Raw → Option A) → Option j.Raw → Option A
  read f none = none
  read f (some raw) = f raw

  -- The first key that is there and decodes.
  unfoldable pub first :
      {A : Type 0} → (j.Raw → Option A) → List (String × j.Raw) → List String → Value A
  unfolding lookup
  first f m [] = none
  first f m (k ∷ keys) = let rest = first f m keys in or_else (read f (lookup k m)) rest

  -- A string, or a number as text.
  abbrev pub text : j.Raw → Option String
  text raw = or_else (j.string raw) (j.number_text raw)

  unfoldable pub str : List (String × j.Raw) → List String → Value String
  unfolding first
  str m keys = first text m keys

  unfoldable pub int64_of : List (String × j.Raw) → List String → Value ℕ
  unfolding first
  int64_of m keys = first j.int64 m keys

  -- int and int64 are one on the platforms of the agent.
  unfoldable pub int_of : List (String × j.Raw) → List String → Value ℕ
  unfolding int64_of
  int_of m keys = int64_of m keys

  unfoldable pub bool_of : List (String × j.Raw) → List String → Value Bool
  unfolding first
  bool_of m keys = first j.bool m keys

-- The loop of Itoa over the buffer of 20 bytes, from its end: `left` places are free.
unfoldable pub fill : ℕ → ℕ → List ℕ → List ℕ
fill zero n buf = buf
fill (suc left) n buf =
    let rest = fill left (n / 10) ((48 + n % 10) ∷ buf) in if eqb n 0 then buf else rest

abbrev pub min_int : ℕ
min_int = 9223372036854775808

abbrev pub word : ℕ
word = 18446744073709551616

abbrev pub is_neg : ℕ → Bool
is_neg n = leb min_int n

-- A word's negation wraps around.
abbrev pub negate : ℕ → ℕ
negate n = (word - n) % word

-- `for n > 0` of a word that is negative does nothing.
unfoldable pub digits : ℕ → List ℕ
digits n = if is_neg n then [] else fill 20 n []

unfoldable pub itoa : ℕ → List ℕ
itoa n = if eqb n 0 then 48 ∷ [] else if is_neg n then 45 ∷ digits (negate n) else digits n
