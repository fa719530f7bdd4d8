-- ===== src/Version/SemVer/Order.antt =====
-- Comparing semantic versions is a total order on what they parse to.
use qrx_node_suite.Prelude.{
  ℕ, ◌≡◌, refl, ◌↔◌, none, some, List, [], ◌∷◌, arith, compare, Ordering, compare_codes,
  Option-cases, inl, inr, sym, ◌∙◌,
}
use qrx_node_suite.Version.SemVer.{
  SemVer, parse_sem_ver, compare_prerelease, compare_sem_ver, compare_version,
}

abbrev pub flip : Ordering → Ordering
flip Ordering.lt = Ordering.gt
flip Ordering.eq = Ordering.eq
flip Ordering.gt = Ordering.lt

compare-flip : (a b : ℕ) → compare b a ≡ flip (compare a b)
compare-flip a b = ground arith

pub compare_codes-flip : (s t : List ℕ) → compare_codes t s ≡ flip (compare_codes s t)
unfolding compare_codes
compare_codes-flip [] [] = refl
compare_codes-flip [] (y ∷ t) = refl
compare_codes-flip (x ∷ s) [] = refl
compare_codes-flip (x ∷ s) (y ∷ t) = ground (arith, compare_codes-flip s t)

pub compare_codes-eq : (s t : List ℕ) → compare_codes s t ≡ Ordering.eq → s ≡ t
unfolding compare_codes
compare_codes-eq [] [] h = refl
compare_codes-eq [] (y ∷ t) h = cc
compare_codes-eq (x ∷ s) [] h = cc
compare_codes-eq (x ∷ s) (y ∷ t) h = ground (arith, compare_codes-eq s t)

pub compare_codes_refl : (s : List ℕ) → compare_codes s s ≡ Ordering.eq
unfolding compare_codes
compare_codes_refl [] = refl
compare_codes_refl (x ∷ s) = ground (arith, compare_codes_refl s)

pub compare_codes_trans :
    (r s t : List ℕ)
    → compare_codes r s ≡ Ordering.lt
    → compare_codes s t ≡ Ordering.lt
    → compare_codes r t ≡ Ordering.lt
unfolding compare_codes
compare_codes_trans [] [] [] h k = cc
compare_codes_trans [] (y ∷ s) [] h k = cc
compare_codes_trans [] s (z ∷ t) h k = refl
compare_codes_trans (x ∷ r) [] t h k = cc
compare_codes_trans (x ∷ r) (y ∷ s) [] h k = cc
compare_codes_trans (x ∷ r) (y ∷ s) (z ∷ t) h k = ground (arith, compare_codes_trans r s t)

compare_prerelease-flip : (s t : List ℕ) → compare_prerelease t s ≡ flip (compare_prerelease s t)
unfolding compare_prerelease
compare_prerelease-flip [] [] = refl
compare_prerelease-flip [] (y ∷ t) = refl
compare_prerelease-flip (x ∷ s) [] = refl
compare_prerelease-flip (x ∷ s) (y ∷ t) = compare_codes-flip (x ∷ s) (y ∷ t)

compare_prerelease-eq : (s t : List ℕ) → compare_prerelease s t ≡ Ordering.eq → s ≡ t
unfolding compare_prerelease
compare_prerelease-eq [] [] h = refl
compare_prerelease-eq [] (y ∷ t) h = cc
compare_prerelease-eq (x ∷ s) [] h = cc
compare_prerelease-eq (x ∷ s) (y ∷ t) h = compare_codes-eq (x ∷ s) (y ∷ t) h

compare_prerelease_refl : (s : List ℕ) → compare_prerelease s s ≡ Ordering.eq
unfolding compare_prerelease
compare_prerelease_refl [] = refl
compare_prerelease_refl (x ∷ s) = compare_codes_refl (x ∷ s)

compare_prerelease_trans :
    (r s t : List ℕ)
    → compare_prerelease r s ≡ Ordering.lt
    → compare_prerelease s t ≡ Ordering.lt
    → compare_prerelease r t ≡ Ordering.lt
unfolding compare_prerelease
compare_prerelease_trans [] [] t h k = cc
compare_prerelease_trans [] (y ∷ s) t h k = cc
compare_prerelease_trans (x ∷ r) [] [] h k = cc
compare_prerelease_trans (x ∷ r) [] (z ∷ t) h k = cc
compare_prerelease_trans (x ∷ r) (y ∷ s) [] h k = refl
compare_prerelease_trans (x ∷ r) (y ∷ s) (z ∷ t) h k =
    compare_codes_trans (x ∷ r) (y ∷ s) (z ∷ t) h k

compare_sem_ver-flip : (a b : SemVer) → compare_sem_ver b a ≡ flip (compare_sem_ver a b)
unfolding compare_sem_ver
compare_sem_ver-flip a b = ground (arith, compare_prerelease-flip a.prerelease b.prerelease)

compare_sem_ver-eq : (a b : SemVer) → compare_sem_ver a b ≡ Ordering.eq → a ≡ b
unfolding compare_sem_ver
compare_sem_ver-eq a b h = ground (arith, compare_prerelease-eq a.prerelease b.prerelease)

compare_sem_ver_refl : (a : SemVer) → compare_sem_ver a a ≡ Ordering.eq
unfolding compare_sem_ver
compare_sem_ver_refl a = ground (arith, compare_prerelease_refl a.prerelease)

compare_sem_ver_trans :
    (a b c : SemVer)
    → compare_sem_ver a b ≡ Ordering.lt
    → compare_sem_ver b c ≡ Ordering.lt
    → compare_sem_ver a c ≡ Ordering.lt
unfolding compare_sem_ver
compare_sem_ver_trans a b c h k =
    ground (arith, compare_prerelease_trans a.prerelease b.prerelease c.prerelease)

-- Swapping the two texts reverses the outcome of Compare, whether they parse or not.
pub compare_version-flip : (s t : List ℕ) → compare_version t s ≡ flip (compare_version s t)
unfolding compare_version
compare_version-flip s t = elim (Option-cases (parse_sem_ver s)) [
  | inl p ↦ ground (arith, compare_codes-flip s t)
  | inr (v, p) ↦ elim (Option-cases (parse_sem_ver t)) [
    | inl q ↦ ground (arith, compare_codes-flip s t)
    | inr (w, q) ↦ ground (arith, compare_sem_ver-flip v w)
  ]
]

pub compare_version_parsed :
    (s t : List ℕ) {v w : SemVer}
    → parse_sem_ver s ≡ some v
    → parse_sem_ver t ≡ some w
    → compare_version s t ≡ compare_sem_ver v w
unfolding compare_version
compare_version_parsed s t p q = ground arith

-- Two texts that parse compare as equal exactly when they parse to the same record: the build
-- metadata, and nothing else, is ignored.
pub compare_version-eq_iff :
    (s t : List ℕ) {v w : SemVer}
    → parse_sem_ver s ≡ some v
    → parse_sem_ver t ≡ some w
    → (compare_version s t ≡ Ordering.eq) ↔ (v ≡ w)
compare_version-eq_iff s t {v} {w} p q =
    rw (compare_version_parsed s t p q) (compare_sem_ver-eq v w, λ e. rw e (compare_sem_ver_refl w))

-- Among texts that parse, Compare is transitive.
pub compare_version_trans :
    (r s t : List ℕ) {u v w : SemVer}
    → parse_sem_ver r ≡ some u
    → parse_sem_ver s ≡ some v
    → parse_sem_ver t ≡ some w
    → compare_version r s ≡ Ordering.lt
    → compare_version s t ≡ Ordering.lt
    → compare_version r t ≡ Ordering.lt
compare_version_trans r s t {u} {v} {w} p q k h h' =
    let a : compare_sem_ver u v ≡ Ordering.lt = sym (compare_version_parsed r s p q) ∙ h in
    let b : compare_sem_ver v w ≡ Ordering.lt = sym (compare_version_parsed s t q k) ∙ h' in
    compare_version_parsed r t p k ∙ compare_sem_ver_trans u v w a b

-- A text that does not parse is compared as text, so it is greater than any version whose text is
-- smaller, and not least.
pub compare_version-invalid :
    (s t : List ℕ)
    → parse_sem_ver s ≡ none
    → (compare_version s t ≡ compare_codes s t) × (compare_version t s ≡ compare_codes t s)
unfolding compare_version
compare_version-invalid s t p = ground arith
