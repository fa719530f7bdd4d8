-- ===== src/Manifest/Tokens.antt =====
-- The canonical payload determines what it signs: no two manifests without NUL share one.
use qrx_node_suite.Prelude.{
  ℕ, suc, ◌+◌, ◌*◌, ◌-◌, ◌/◌, ◌%◌, ◌<◌, ltb, Bool-cases, inl, inr, ◌≡◌, ◌≢◌, refl, ap, sym, ◌∙◌,
  String, Option, none, some, List, [], ◌∷◌, ◌++◌, arith, All, codes, length,
}
use mathlib.Core.List.{append_assoc, map}
use text.Mathlib.TextEquality.{Char-path}
use qrx_node_suite.Manifest.{
  ReleaseNotes, ComponentUpdate, list_tokens, write_list, notes_tokens, notes_body,
  component_tokens, components_tokens, join, decimal, decimal_fuel,
}

abbrev pub NoNul : List ℕ → Type 0
NoNul s = All (λ c. c ≢ 0) s

-- What precedes the first NUL, and what follows it, are determined.
cut : (s t r q : List ℕ) → NoNul s → NoNul t → s ++ (0 ∷ r) ≡ t ++ (0 ∷ q) → (s ≡ t) × (r ≡ q)
cut [] [] r q a b h = (refl, cc)
cut [] (y ∷ t) r q a b h = absurd (b.0 (cc))
cut (x ∷ s) [] r q a b h = absurd (a.0 (cc))
cut (x ∷ s) (y ∷ t) r q a b h = let (e, f) = cut s t r q a.1 b.1 (cc) in (cc, f)

pub join-injective :
    (xs ys : List (List ℕ)) → All NoNul xs → All NoNul ys → join xs ≡ join ys → xs ≡ ys
unfolding join
join-injective [] [] a b h = refl
join-injective [] ([] ∷ ys) a b h = cc
join-injective [] ((c ∷ y) ∷ ys) a b h = cc
join-injective ([] ∷ xs) [] a b h = cc
join-injective ((c ∷ x) ∷ xs) [] a b h = cc
join-injective (x ∷ xs) (y ∷ ys) a b h =
    let (e, f) = cut x y (join xs) (join ys) a.0 b.0 h in cc (e, join-injective xs ys a.1 b.1 f)

pub codes-injective : (s t : String) → codes s ≡ codes t → s ≡ t
codes-injective String.[] String.[] h = refl
codes-injective String.[] (String.◌∷◌ d t) h = cc
codes-injective (String.◌∷◌ c s) String.[] h = cc
codes-injective (String.◌∷◌ c s) (String.◌∷◌ d t) h =
    cc (Char-path c d (cc), codes-injective s t (cc))

digits_value : ℕ → List ℕ → ℕ
digits_value acc [] = acc
digits_value acc (c ∷ s) = digits_value (acc * 10 + (c - b'0')) s

value-decimal_fuel :
    (f n : ℕ) (out : List ℕ) → n < f → digits_value 0 (decimal_fuel f n out) ≡ digits_value n out
unfolding decimal_fuel digits_value
value-decimal_fuel ℕ.zero n out h = elim h [ ]
value-decimal_fuel (suc f) n out h = elim (Bool-cases (ltb n 10)) [
  | inl y ↦ rw (y, decimal_fuel) (ap (λ k. digits_value k out) (ground arith))
  | inr k ↦
      rw (k, decimal_fuel)
        (value-decimal_fuel f (n / 10) ((b'0' + n % 10) ∷ out) (ground arith)
          ∙ ap (λ k. digits_value k out) (omega arith))
]

pub decimal-injective : (m n : ℕ) → decimal m ≡ decimal n → m ≡ n
unfolding decimal digits_value
decimal-injective m n h =
    sym (value-decimal_fuel (suc m) m [] (omega arith))
    ∙ ap (digits_value 0) h
    ∙ value-decimal_fuel (suc n) n [] (omega arith)

decimal_fuel-NoNul : (f n : ℕ) (out : List ℕ) → NoNul out → NoNul (decimal_fuel f n out)
unfolding decimal_fuel
decimal_fuel-NoNul ℕ.zero n out h = h
decimal_fuel-NoNul (suc f) n out h = elim (Bool-cases (ltb n 10)) [
  | inl y ↦ rw (y, decimal_fuel) (omega arith, h)
  | inr k ↦
      rw (k, decimal_fuel) (decimal_fuel-NoNul f (n / 10) ((b'0' + n % 10) ∷ out) (omega arith, h))
]

pub decimal-NoNul : (n : ℕ) → NoNul (decimal n)
unfolding decimal
decimal-NoNul n = decimal_fuel-NoNul (suc n) n [] tt

list_tokens_cut :
    (ss ts : List String) (r q : List (List ℕ))
    → length ss ≡ length ts
    → list_tokens ss ++ r ≡ list_tokens ts ++ q
    → (ss ≡ ts) × (r ≡ q)
unfolding list_tokens
list_tokens_cut [] [] r q l h = (refl, h)
list_tokens_cut [] (t ∷ ts) r q l h = absurd (omega arith)
list_tokens_cut (s ∷ ss) [] r q l h = absurd (omega arith)
list_tokens_cut (s ∷ ss) (t ∷ ts) r q l h =
    let (e, f) = list_tokens_cut ss ts r q (omega arith) (cc) in
    (cc (codes-injective s t (cc), e), f)

write_list_cut :
    (ss ts : List String) (r q : List (List ℕ))
    → write_list ss ++ r ≡ write_list ts ++ q
    → (ss ≡ ts) × (r ≡ q)
unfolding write_list
write_list_cut ss ts r q h =
    list_tokens_cut ss ts r q (decimal-injective (length ss) (length ts) (cc)) (cc)

notes_body-append :
    (x : ReleaseNotes) (r : List (List ℕ))
    → notes_body x ++ r
      ≡ write_list x.changes
        ++ (write_list x.breaking_changes
            ++ (write_list x.security_fixes
                ++ (codes x.required_qrx_version
                    ∷ codes x.required_adapter_version
                    ∷ codes x.min_suite_version
                    ∷ r)))
unfolding notes_body
notes_body-append x r = simp append_assoc

notes_body_cut :
    (x y : ReleaseNotes) (r q : List (List ℕ))
    → x.released_at ≡ y.released_at
    → notes_body x ++ r ≡ notes_body y ++ q
    → (x ≡ y) × (r ≡ q)
notes_body_cut x y r q e h =
    let (e1, h1) =
      write_list_cut x.changes y.changes _ _
        (sym (notes_body-append x r) ∙ h ∙ notes_body-append y q) in
    let (e2, h2) = write_list_cut x.breaking_changes y.breaking_changes _ _ h1 in
    let (e3, h3) = write_list_cut x.security_fixes y.security_fixes _ _ h2 in
    let e4 : codes x.required_qrx_version ≡ codes y.required_qrx_version = cc in
    let e5 : codes x.required_adapter_version ≡ codes y.required_adapter_version = cc in
    let e6 : codes x.min_suite_version ≡ codes y.min_suite_version = cc in
    (
      cc (
        codes-injective x.required_qrx_version y.required_qrx_version e4,
        codes-injective x.required_adapter_version y.required_adapter_version e5,
        codes-injective x.min_suite_version y.min_suite_version e6,
      ),
      cc,
    )

-- The first code point of the first token.
first_code : List (List ℕ) → ℕ
first_code [] = 0
first_code ([] ∷ r) = 0
first_code ((c ∷ s) ∷ r) = c

notes_tokens_cut :
    (m n : Option ReleaseNotes) (r q : List (List ℕ))
    → notes_tokens m ++ r ≡ notes_tokens n ++ q
    → (m ≡ n) × (r ≡ q)
unfolding notes_tokens first_code
notes_tokens_cut none none r q h = (refl, cc)
notes_tokens_cut none (some y) r q h = absurd (omega (arith, ap first_code h))
notes_tokens_cut (some x) none r q h = absurd (omega (arith, ap first_code h))
notes_tokens_cut (some x) (some y) r q h =
    let dates : codes x.released_at ≡ codes y.released_at = cc in
    let bodies : notes_body x ++ r ≡ notes_body y ++ q = cc in
    let (e, f) =
      notes_body_cut x y r q (codes-injective x.released_at y.released_at dates) bodies in
    (ap some e, f)

-- An entry without its artifact signature, which the manifest's signature does not cover.
abbrev pub unsigned : String × ComponentUpdate → String × ComponentUpdate
unsigned (name, c) = (name, record c { signature = "" })

component_tokens_cut :
    (c d : String × ComponentUpdate) (r q : List (List ℕ))
    → component_tokens c ++ r ≡ component_tokens d ++ q
    → (unsigned c ≡ unsigned d) × (r ≡ q)
unfolding component_tokens
component_tokens_cut (m, c) (n, d) r q h =
    let e1 : codes m ≡ codes n = cc in
    let e2 : codes c.version ≡ codes d.version = cc in
    let e3 : codes c.url ≡ codes d.url = cc in
    let e4 : codes c.sha256 ≡ codes d.sha256 = cc in
    let rest : notes_tokens c.release_notes ++ r ≡ notes_tokens d.release_notes ++ q = cc in
    let (e5, f) = notes_tokens_cut c.release_notes d.release_notes r q rest in
    (
      cc (
        codes-injective m n e1,
        codes-injective c.version d.version e2,
        codes-injective c.url d.url e3,
        codes-injective c.sha256 d.sha256 e4,
        e5,
      ),
      f,
    )

pub components_tokens_cut :
    (cs ds : List (String × ComponentUpdate))
    → components_tokens cs ≡ components_tokens ds
    → map unsigned cs ≡ map unsigned ds
unfolding components_tokens component_tokens
components_tokens_cut [] [] h = refl
components_tokens_cut [] (d ∷ ds) h = cc
components_tokens_cut (c ∷ cs) [] h = cc
components_tokens_cut (c ∷ cs) (d ∷ ds) h =
    let (e, f) = component_tokens_cut c d (components_tokens cs) (components_tokens ds) h in
    cc (e, components_tokens_cut cs ds f)
