-- ===== src/QrxCli/Tests.antt =====
-- Words and answers of qrx-cli, and the theorems applied to them.
use qrx_node_suite.Prelude.{
  ℕ, ◌-◌, ◌<◌, ◌≡◌, ◌⊎◌, refl, String, Option, none, some, List, [], ◌∷◌, arith,
}
use qrx_node_suite.QrxCli.{Json, itoa, word, min_int, lookup}
use qrx_node_suite.QrxCli.Itoa.{IsNumeral, itoa-value}

itoa-value_example :
    ((10 < min_int) × IsNumeral 10 (itoa 10))
    ⊎ ((s : List ℕ) × (min_int < 10) × (itoa 10 ≡ 45 ∷ s) × IsNumeral (word - 10) s)
    ⊎ ((10 ≡ min_int) × (itoa 10 ≡ 45 ∷ []))
itoa-value_example = itoa-value 10 (omega arith)

data Message : Type 0 where
  envelope bare height : Message

abbrev outer : List (String × Message)
outer = ("ok", height) ∷ ("result", bare) ∷ []

abbrev inner : List (String × Message)
inner = ("height", height) ∷ []

abbrev object_of : Message → Option (Option (List (String × Message)))
object_of envelope = some (some outer)
object_of bare = some (some inner)
object_of height = none

abbrev json : Json
json = record {
  Raw = Message;
  object = object_of;
  string = λ n. none;
  int64 = λ n. none;
  bool = λ n. none;
  number_text = λ n. none;
}

enveloped : lookup "result" outer ≡ some bare
unfolding lookup
enveloped = refl

unwrapped_inner : lookup "result" inner ≡ none
unfolding lookup
unwrapped_inner = refl
