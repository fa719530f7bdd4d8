-- ===== src/Version/Matrix/Best.antt =====
-- What Lookup and BestAdapterFor promise of the row that they return.
use qrx_node_suite.Prelude.{
  ℕ, ◌≤◌, ◌<◌, ◌≡◌, ◌≢◌, refl, String, Bool, true, false, List, [], ◌∷◌, ltb, if◌then◌else◌, codes,
  ◌==◌, eq_iff, arith, All, ap, ◌∙◌, Bool-cases, inl, inr, ◌⊎◌,
}
use qrx_node_suite.Version.Range.{satisfies}
use qrx_node_suite.Version.Matrix.{
  CompatibilityState, supported, partial, experimental, unknown, MatrixEntry, Matrix, no_entry,
  selects, lookup_entries, lookup, entries_for, entries_for_core, rank, row_rank, best_loop,
  best_adapter_for,
}
use mathlib.Core.List.{Memᴰ}
use mathlib.Core.Path.{subst}

-- The row is for exactly this core version and adapter, and its range admits the adapter's version.
pub record Describes (e : MatrixEntry) (core name version : String) : Type 0 where
  pub core_eq : e.qrx_core_version ≡ core
  pub name_eq : e.adapter_name ≡ name
  pub in_range :
      (e.adapter_version_range ≡ "")
      ⊎ (satisfies (codes version) (codes e.adapter_version_range) ≡ true)

selects_sound :
    (e : MatrixEntry) (core name version : String)
    → selects e core name version ≡ true
    → Describes e core name version
unfolding selects
selects_sound e core name version h = ground (
  arith,
  eq_iff e.qrx_core_version core,
  eq_iff e.adapter_name name,
  eq_iff e.adapter_version_range "",
)

selects_complete :
    (e : MatrixEntry) (core name version : String)
    → Describes e core name version
    → selects e core name version ≡ true
unfolding selects
selects_complete e core name version d = ground (
  arith,
  eq_iff e.qrx_core_version core,
  eq_iff e.adapter_name name,
  eq_iff e.adapter_version_range "",
)

-- Either no row describes the combination and the answer is unknown, or the answer is the status of
-- the first row that does.
pub data Found (core name version : String)
    : List MatrixEntry → MatrixEntry × CompatibilityState → Type 0 where
  absent : Found core name version [] (no_entry, unknown)
  here :
      {e : MatrixEntry} {es : List MatrixEntry}
      → Describes e core name version
      → Found core name version (e ∷ es) (e, e.status)
  later :
      {e : MatrixEntry} {es : List MatrixEntry} {r : MatrixEntry × CompatibilityState}
      → ¬ Describes e core name version
      → Found core name version es r
      → Found core name version (e ∷ es) r

lookup_entries-Found :
    (core name version : String) (es : List MatrixEntry)
    → Found core name version es (lookup_entries es core name version)
unfolding lookup_entries
lookup_entries-Found core name version [] = absent
lookup_entries-Found core name version (e ∷ es) = elim (Bool-cases (selects e core name version)) [
  | inl y ↦ rw y (here (selects_sound e core name version y))
  | inr n ↦ rw n (
      later (λ d. cc (selects_complete e core name version d))
        (lookup_entries-Found core name version es))
]

-- Lookup answers with the first row that is for exactly the core version and the adapter and whose
-- range admits the adapter's version, and with no row and the status unknown if there is none.
pub lookup-Found :
    (m : Matrix) (core name version : String)
    → Found core name version m.entries (lookup m core name version)
unfolding lookup
lookup-Found m core name version = lookup_entries-Found core name version m.entries

-- The loop's result is at least as good as every row and as the starting point.
best_loop_max :
    (es : List MatrixEntry) (b : MatrixEntry) (r n : ℕ)
    → (best_loop es b r).1 ≡ n
    → (r ≤ n) × All (λ e. row_rank e ≤ n) es
unfolding best_loop
best_loop_max [] b r n h = (omega arith, tt)
best_loop_max (e ∷ es) b r n h = elim (Bool-cases (ltb r (row_rank e))) [
  | inl y ↦
      let (best, all) = best_loop_max es e (row_rank e) n (rw (y, best_loop) at h) in
      (ground arith, (best, all))
  | inr k ↦
      let (best, all) = best_loop_max es b r n (rw (k, best_loop) at h) in
      (best, (ground arith, all))
]

-- The result is the starting point, or a row of the list with its own rank, above the start's.
best_loop_source :
    (es : List MatrixEntry) (b : MatrixEntry) (r : ℕ)
    → (best_loop es b r ≡ (b, r))
      ⊎ (Memᴰ (best_loop es b r).0 es × ((best_loop es b r).1 ≡ row_rank (best_loop es b r).0))
unfolding best_loop
best_loop_source [] b r = inl refl
best_loop_source (e ∷ es) b r = elim (Bool-cases (ltb r (row_rank e))) [
  | inl y ↦
      rw (y, best_loop)
        (elim (best_loop_source es e (row_rank e)) [
          | inl p ↦ inr (rw p (Memᴰ.head refl, refl))
          | inr q ↦ inr (Memᴰ.tail q.0, q.1)
        ])
  | inr n ↦
      rw (n, best_loop)
        (elim (best_loop_source es b r) [ inl p ↦ inl p | inr q ↦ inr (Memᴰ.tail q.0, q.1) ])
]

not_nil : {A : Type 0} {x : A} → ¬ Memᴰ x []
not_nil m = elim m [ ]

cons_cases : {A : Type 0} {x y : A} {l : List A} → Memᴰ x (y ∷ l) → (x ≡ y) ⊎ Memᴰ x l
cons_cases (Memᴰ.head p) = inl p
cons_cases (Memᴰ.tail m) = inr m

entries_for_Mem :
    (es : List MatrixEntry) (core : String) (b : MatrixEntry)
    → Memᴰ b (entries_for es core)
    → Memᴰ b es × (b.qrx_core_version ≡ core)
unfolding entries_for
entries_for_Mem [] core b m = absurd (not_nil m)
entries_for_Mem (e ∷ es) core b m = elim (Bool-cases (e.qrx_core_version == core)) [
  | inl y ↦ elim (cons_cases (rw (y, entries_for) at m)) [
    | inl p ↦ (Memᴰ.head p, ap (λ r. MatrixEntry.qrx_core_version r) p ∙ (eq_iff _ _).0 y)
    | inr q ↦ let (i, c) = entries_for_Mem es core b q in (Memᴰ.tail i, c)
  ]
  | inr n ↦ let (i, c) = entries_for_Mem es core b (rw (n, entries_for) at m) in (Memᴰ.tail i, c)
]

entries_for-All :
    (P : MatrixEntry → Type 0) (es : List MatrixEntry) (core : String)
    → All P (entries_for es core)
    → All (λ e. e.qrx_core_version ≡ core → P e) es
unfolding entries_for
entries_for-All P [] core a = tt
entries_for-All P (e ∷ es) core a = elim (Bool-cases (e.qrx_core_version == core)) [
  | inl y ↦
      let (first, rest) =
        subst (λ (b : Bool). All P (if b then e ∷ entries_for es core else entries_for es core)) y
          a in
      (λ _. first, entries_for-All P es core rest)
  | inr n ↦ (
    λ q. absurd (ground (arith, eq_iff e.qrx_core_version core)),
    entries_for-All P es core (
        subst (λ (b : Bool). All P (if b then e ∷ entries_for es core else entries_for es core)) n
          a),
  )
]

-- A row that the program may choose by itself.
abbrev pub IsUsable : MatrixEntry → Type 0
IsUsable e =
    (e.adapter_name ≢ "UNKNOWN")
    × (e.adapter_name ≢ "")
    × ((e.status ≡ supported) ⊎ (e.status ≡ partial) ⊎ (e.status ≡ experimental))

row_rank_pos : (e : MatrixEntry) → 0 < row_rank e → IsUsable e
unfolding row_rank
row_rank_pos e h = grind (arith, eq_iff e.adapter_name "UNKNOWN", eq_iff e.adapter_name "")

row_rank_zero : (e : MatrixEntry) → row_rank e ≡ 0 → ¬ IsUsable e
unfolding row_rank
row_rank_zero e h =
    λ u. ground (arith, eq_iff e.adapter_name "UNKNOWN", eq_iff e.adapter_name "", u)

-- What BestAdapterFor answers. Found: a row of the matrix for this core version that may be chosen,
-- and no such row ranks higher. Not found: no row for this core version may be chosen.
pub record IsBest (m : Matrix) (core : String) (answer : MatrixEntry × Bool) : Type 0 where
  pub found_row : answer.1 ≡ true → Memᴰ answer.0 m.entries
  pub found_core : answer.1 ≡ true → answer.0.qrx_core_version ≡ core
  pub found_usable : answer.1 ≡ true → IsUsable answer.0
  pub found_highest :
      answer.1 ≡ true
      → All (λ e. e.qrx_core_version ≡ core → row_rank e ≤ rank answer.0.status) m.entries
  pub not_found : answer.1 ≡ false → All (λ e. e.qrx_core_version ≡ core → ¬ IsUsable e) m.entries

All-map : {A : Type 0} (P Q : A → Type 0) (l : List A) → ((a : A) → P a → Q a) → All P l → All Q l
All-map P Q [] f a = tt
All-map P Q (x ∷ l) f a = (f x a.0, All-map P Q l f a.1)

row_rank-le : (e : MatrixEntry) → row_rank e ≤ rank e.status
unfolding row_rank
row_rank-le e = ground arith

module _ (m : Matrix) (core : String) (best : MatrixEntry) (r : ℕ) where
  abbrev Source : Type 0
  Source =
      ((best ≡ no_entry) × (r ≡ 0)) ⊎ (Memᴰ best (entries_for_core m core) × (r ≡ row_rank best))

  chosen :
      Source
      → ltb 0 r ≡ true
      → (Memᴰ best m.entries × (best.qrx_core_version ≡ core)) × IsUsable best × (r ≡ row_rank best)
  unfolding entries_for_core
  chosen (inl p) h = absurd (ground arith)
  chosen (inr (i, e)) h =
      (entries_for_Mem m.entries core best i, row_rank_pos best (ground arith), e)

  IsBest-of :
      Source → All (λ e. row_rank e ≤ r) (entries_for_core m core) → IsBest m core (best, ltb 0 r)
  unfolding entries_for_core
  IsBest-of s all = record {
    found_row = λ h. (chosen s h).0.0;
    found_core = λ h. (chosen s h).0.1;
    found_usable = λ h. (chosen s h).1;
    found_highest = λ h.
        All-map _ _ m.entries
          (λ e le c.
            let r' : row_rank e ≤ r = le c in omega (arith, r', (chosen s h).2, row_rank-le best))
          (entries_for-All (λ e. row_rank e ≤ r) m.entries core all);
    not_found = λ h.
        All-map _ _ m.entries
          (λ e le c. let r' : row_rank e ≤ r = le c in row_rank_zero e (ground (arith, r')))
          (entries_for-All (λ e. row_rank e ≤ r) m.entries core all);
  }

-- BestAdapterFor answers with a row of the matrix for the core version that names an adapter and
-- has a usable status, none such being ranked higher; it finds nothing only if there is no such row.
pub best_adapter_for-IsBest : (m : Matrix) (core : String) → IsBest m core (best_adapter_for m core)
unfolding best_adapter_for
best_adapter_for-IsBest m core =
    let rows = entries_for_core m core in
    let out = best_loop rows no_entry 0 in
    IsBest-of m core out.0 out.1
      (elim (best_loop_source rows no_entry 0) [
        | inl p ↦ inl (ap (λ (q : MatrixEntry × ℕ). q.0) p, ap (λ (q : MatrixEntry × ℕ). q.1) p)
        | inr q ↦ inr q
      ])
      (best_loop_max rows no_entry 0 out.1 refl).1
