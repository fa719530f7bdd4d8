-- ===== src/Version/SemVer/Scanned.antt =====
-- agent/version/semver.go: what each part of the scanner of a version has read.
use qrx_node_suite.Prelude.{
  ℕ, ◌≡◌, refl, Bool, true, false, Option, none, some, List, [], ◌∷◌, ◌++◌, ap, arith, All, eqb,
  eqb_iff, inl, inr, sym, ◌∙◌, ◌≢◌, Bool-cases,
}
use qrx_node_suite.Version.SemVer.{
  SemVer, is_digit, is_ident, span, nonempty, digits1, dot, is_whole, end_after, build_end, suffix,
  atoi,
}
use mathlib.Core.Path.{subst}
use mathlib.Core.List.{append-nil}

-- The texts of the five parts; [] for a prerelease or a build that is absent.
pub record Parts : Type 0 where
  pub major : List ℕ
  pub minor : List ℕ
  pub patch : List ℕ
  pub prerelease : List ℕ
  pub build : List ℕ

abbrev pub Number : List ℕ → Type 0
Number s = (s ≢ []) × All (λ c. is_digit c ≡ true) s

abbrev pub Idents : List ℕ → Type 0
Idents s = All (λ c. is_ident c ≡ true) s

pub record IsSpelled (p : Parts) : Type 0 where
  pub major : Number p.major
  pub minor : Number p.minor
  pub patch : Number p.patch
  pub prerelease : Idents p.prerelease
  pub build : Idents p.build

-- The sign and the text of an optional part.
abbrev pub marked : ℕ → List ℕ → List ℕ
marked sign [] = []
marked sign (c ∷ s) = sign ∷ c ∷ s

abbrev pub tail_text : Parts → List ℕ
tail_text p = marked b'-' p.prerelease ++ marked b'+' p.build

abbrev pub spell : Parts → List ℕ
spell p = p.major ++ (b'.' ∷ p.minor ++ (b'.' ∷ p.patch ++ tail_text p))

abbrev pub value : Parts → SemVer
value p = record {
  major = atoi p.major;
  minor = atoi p.minor;
  patch = atoi p.patch;
  prerelease = p.prerelease;
}

-- The rest does not begin with a character of the class.
abbrev pub Stops : (ℕ → Bool) → List ℕ → Type 0
Stops t [] = Unit
Stops t (c ∷ s) = t c ≡ false

pub span-append :
    (t : ℕ → Bool) (run rest : List ℕ)
    → All (λ c. t c ≡ true) run
    → Stops t rest
    → span t (run ++ rest) ≡ (run, rest)
unfolding span
span-append t [] [] a b = refl
span-append t [] (c ∷ rest) a b = ground arith
span-append t (c ∷ run) rest a b = ground (arith, span-append t run rest)

span_sound :
    (t : ℕ → Bool) (s : List ℕ)
    → ((span t s).0 ++ (span t s).1 ≡ s) × All (λ c. t c ≡ true) (span t s).0
unfolding span
span_sound t [] = (refl, tt)
span_sound t (c ∷ s) =
    let ih = span_sound t s in
    elim (Bool-cases (t c)) [
      | inl y ↦ rw y (ap (λ r. c ∷ r) ih.0, (y, ih.1))
      | inr n ↦ rw n (refl, tt)
    ]

nonempty-cons :
    (p : List ℕ × List ℕ) {run rest : List ℕ}
    → nonempty p ≡ some (run, rest)
    → (p ≡ (run, rest)) × (run ≢ [])
unfolding nonempty
nonempty-cons ([], r) h = cc
nonempty-cons (c ∷ s, r) h = (ground arith, ground arith)

pub digits1-append :
    (run rest : List ℕ)
    → Number run
    → Stops is_digit rest
    → digits1 (run ++ rest) ≡ some (run, rest)
unfolding digits1
digits1-append [] rest n b = absurd (n.0 refl)
digits1-append (c ∷ run) rest n b = ap nonempty (span-append is_digit (c ∷ run) rest n.1 b)

span_group :
    (t : ℕ → Bool) (s : List ℕ) {run rest : List ℕ}
    → nonempty (span t s) ≡ some (run, rest)
    → (run ++ rest ≡ s) × (run ≢ []) × All (λ c. t c ≡ true) run
span_group t s h =
    let (e, ne) = nonempty-cons (span t s) h in
    let (parts, all) =
      subst (λ (q : List ℕ × List ℕ). (q.0 ++ q.1 ≡ s) × All (λ c. t c ≡ true) q.0) e
        (span_sound t s) in
    (parts, ne, all)

pub digits1_sound :
    (s : List ℕ) {run rest : List ℕ} → digits1 s ≡ some (run, rest) → (run ++ rest ≡ s) × Number run
unfolding digits1
digits1_sound s h = let (parts, ne, all) = span_group is_digit s h in (parts, (ne, all))

pub dot_sound : (s : List ℕ) {rest : List ℕ} → dot s ≡ some rest → s ≡ b'.' ∷ rest
unfolding dot
dot_sound [] h = cc
dot_sound (c ∷ s) h = ground arith

is_whole_sound :
    (o : Option (List ℕ × List ℕ)) → is_whole o ≡ true → (run : List ℕ) × (o ≡ some (run, []))
unfolding is_whole
is_whole_sound none h = cc
is_whole_sound (some (run, [])) h = (run, refl)
is_whole_sound (some (run, c ∷ rest)) h = cc

marked-cons : (sign : ℕ) (s : List ℕ) → s ≢ [] → marked sign s ≡ sign ∷ s
marked-cons sign [] h = absurd (h refl)
marked-cons sign (c ∷ s) h = refl

build_end_sound : (s : List ℕ) → build_end s ≡ true → (b : List ℕ) × (s ≡ marked b'+' b) × Idents b
unfolding build_end
build_end_sound [] h = ([], refl, tt)
build_end_sound (c ∷ s) h =
    let plus : c ≡ b'+' = ground arith in
    let (run, o) = is_whole_sound (nonempty (span is_ident s)) (ground arith) in
    let (parts, ne, all) = span_group is_ident s o in
    let whole : run ≡ s = sym (append-nil run) ∙ parts in
    (run, rw (plus, marked-cons b'+' run ne) (ap (λ r. b'+' ∷ r) (sym whole)), all)

end_after_sound :
    (o : Option (List ℕ × List ℕ)) {pre : List ℕ}
    → end_after o ≡ some pre
    → (rest : List ℕ) × (o ≡ some (pre, rest)) × (build_end rest ≡ true)
unfolding end_after
end_after_sound none h = cc
end_after_sound (some (run, rest)) h = (rest, ground arith, ground arith)

pub suffix_sound :
    (s : List ℕ) {pre : List ℕ}
    → suffix s ≡ some pre
    → (b : List ℕ) × (s ≡ marked b'-' pre ++ marked b'+' b) × Idents pre × Idents b
unfolding suffix
suffix_sound [] {pre} h =
    let absent : pre ≡ [] = ground arith in ([], rw absent refl, rw absent tt, tt)
suffix_sound (c ∷ s) {pre} h = elim (Bool-cases (eqb c b'-')) [
  | inl y ↦
      let dashed : c ≡ b'-' = (eqb_iff c b'-').0 y in
      let (rest, o, e) = end_after_sound (nonempty (span is_ident s)) {pre = pre} (rw y at h) in
      let (parts, ne, all) = span_group is_ident s o in
      let (b, eb, ib) = build_end_sound rest e in
      (b, rw (dashed, marked-cons b'-' pre ne, ← parts, ← eb) refl, all, ib)
  | inr n ↦
      let e : build_end (c ∷ s) ≡ true = ground arith in
      let (b, eb, ib) = build_end_sound (c ∷ s) e in
      let absent : pre ≡ [] = ground arith in (b, rw absent eb, rw absent tt, ib)
]
