-- ===== src/Version/SemVer/Grammar.antt =====
-- The scan of match_sem_ver recognises exactly the texts of the grammar
-- major.minor.patch[-prerelease][+build], and returns their parts.
use qrx_node_suite.Prelude.Options.{bind_some}
use qrx_node_suite.Prelude.{ℕ, ◌≡◌, refl, ◌↔◌, Bool, true, some, List, [], ◌∷◌, ◌++◌, ap, All, ◌∙◌}
use qrx_node_suite.Version.SemVer.{
  SemVer, is_digit, is_ident, span, nonempty, digits1, dot, is_whole, end_after, build_end, suffix,
  match_sem_ver,
}
use mathlib.Core.List.{append-nil}
use qrx_node_suite.Version.SemVer.Scanned.{
  Parts, Idents, IsSpelled, marked, tail_text, spell, value, Stops, span-append, digits1-append,
  digits1_sound, dot_sound, suffix_sound,
}

span-All : (t : ℕ → Bool) (s : List ℕ) → All (λ c. t c ≡ true) s → span t s ≡ (s, [])
span-All t s a = rw (append-nil s) at (span-append t s [] a tt)

build_end-marked : (b : List ℕ) → Idents b → build_end (marked b'+' b) ≡ true
unfolding build_end
build_end-marked [] i = refl
build_end-marked (c ∷ b) i = ap (λ p. is_whole (nonempty p)) (span-All is_ident (c ∷ b) i)

Stops-marked : (b : List ℕ) → Stops is_ident (marked b'+' b)
unfolding is_ident
Stops-marked [] = tt
Stops-marked (c ∷ b) = refl

suffix-marked :
    (pre b : List ℕ) → Idents pre → Idents b → suffix (marked b'-' pre ++ marked b'+' b) ≡ some pre
unfolding suffix
suffix-marked [] [] i j = refl
suffix-marked [] (c ∷ b) i j = rw (build_end-marked (c ∷ b) j) refl
suffix-marked (c ∷ pre) b i j =
    ap end_after (ap nonempty (span-append is_ident (c ∷ pre) (marked b'+' b) i (Stops-marked b)))
    ∙ rw (build_end-marked b j, end_after) refl

some_eq : {A : Type 0} {a b : A} → some a ≡ some b → a ≡ b
some_eq h = cc

match_sem_ver_sound :
    (s : List ℕ) {v : SemVer}
    → match_sem_ver s ≡ some v
    → (p : Parts) × IsSpelled p × (spell p ≡ s) × (value p ≡ v)
unfolding match_sem_ver
match_sem_ver_sound s h =
    let (d1, e1, h1) = bind_some (digits1 s) _ h in
    let (s2, e2, h2) = bind_some (dot d1.1) _ h1 in
    let (d3, e3, h3) = bind_some (digits1 s2) _ h2 in
    let (s4, e4, h4) = bind_some (dot d3.1) _ h3 in
    let (d5, e5, h5) = bind_some (digits1 s4) _ h4 in
    let (pre, e6, h6) = bind_some (suffix d5.1) _ h5 in
    let (b, e7, ip, ib) = suffix_sound d5.1 e6 in
    let (a1, n1) = digits1_sound s e1 in
    let (a3, n3) = digits1_sound s2 e3 in
    let (a5, n5) = digits1_sound s4 e5 in
    (
      record { major = d1.0; minor = d3.0; patch = d5.0; prerelease = pre; build = b },
      record { major = n1; minor = n3; patch = n5; prerelease = ip; build = ib },
      rw (← e7, a5, ← dot_sound d3.1 e4, a3, ← dot_sound d1.1 e2) a1,
      some_eq h6,
    )

Stops-tail : (pre b : List ℕ) → Stops is_digit (marked b'-' pre ++ marked b'+' b)
unfolding is_digit
Stops-tail [] [] = tt
Stops-tail [] (c ∷ b) = refl
Stops-tail (c ∷ pre) b = refl

Stops-dot : (s : List ℕ) → Stops is_digit (b'.' ∷ s)
unfolding is_digit
Stops-dot s = refl

match_sem_ver-spell : (p : Parts) → IsSpelled p → match_sem_ver (spell p) ≡ some (value p)
unfolding match_sem_ver dot
match_sem_ver-spell p w =
    let third : List ℕ = b'.' ∷ p.patch ++ tail_text p in
    let second : List ℕ = b'.' ∷ p.minor ++ third in
    rw (digits1-append p.major second w.major (Stops-dot (p.minor ++ third))) (
      rw (digits1-append p.minor third w.minor (Stops-dot (p.patch ++ tail_text p))) (
        rw (digits1-append p.patch (tail_text p) w.patch (Stops-tail p.prerelease p.build))
          (rw (suffix-marked p.prerelease p.build w.prerelease w.build) refl)))

-- A text matches exactly if it is spelled by some parts, and then they give the record.
pub match_sem_ver_iff :
    (s : List ℕ) (v : SemVer)
    → (match_sem_ver s ≡ some v) ↔ ((p : Parts) × IsSpelled p × (spell p ≡ s) × (value p ≡ v))
match_sem_ver_iff s v =
    (match_sem_ver_sound s, λ (p, w, e, ev). rw (← e, ← ev) (match_sem_ver-spell p w))
