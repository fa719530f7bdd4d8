-- ===== src/QrxCli/Keys.antt =====
-- agent/qrx/fields.go: which field an answer is read from.
use qrx_node_suite.Prelude.{◌≡◌, refl, ◌∙◌, String, Option, none, some, List, [], ◌∷◌, arith}
use qrx_node_suite.QrxCli.{Json, lookup, unwrapped, fields, first, read, or_else}

module _ (j : Json) where
  -- The answer of one key, and of no key before it.
  pub data Chosen {A : Type 0} (f : j.Raw → Option A) (m : List (String × j.Raw)) (a : A)
      : List String → Type 0 where
    here :
        {k : String} {keys : List String} → read j f (lookup k m) ≡ some a → Chosen f m a (k ∷ keys)
    there :
        {k : String} {keys : List String}
        → read j f (lookup k m) ≡ none
        → Chosen f m a keys
        → Chosen f m a (k ∷ keys)

  -- An accessor answers with the first of its keys that is there and decodes.
  pub first-Chosen :
      {A : Type 0} (f : j.Raw → Option A) (m : List (String × j.Raw)) (keys : List String) (a : A)
      → first j f m keys ≡ some a
      → Chosen f m a keys
  unfolding first
  first-Chosen f m [] a h = cc
  first-Chosen {A} f m (k ∷ keys) a h = go (read j f (lookup k m)) refl h (first-Chosen f m keys a)
    where
      go :
          (o : Option A)
          → read j f (lookup k m) ≡ o
          → or_else j o (first j f m keys) ≡ some a
          → (first j f m keys ≡ some a → Chosen f m a keys)
          → Chosen f m a (k ∷ keys)
      go none e q r = there e (r q)
      go (some b) e q r = here (e ∙ q)

  -- An answer in the envelope of QRX Core 0.0.7 has the fields that it has without it, where it has no
  -- field `result` of its own.
  pub fields-enveloped :
      (raw bare : j.Raw) (m n : List (String × j.Raw))
      → j.object raw ≡ some (some m)
      → lookup "result" m ≡ some bare
      → j.object bare ≡ some (some n)
      → lookup "result" n ≡ none
      → (fields j raw ≡ some n) × (fields j bare ≡ some n)
  unfolding fields unwrapped
  fields-enveloped raw bare m n a b c d = (ground arith, ground arith)
