-- ===== src/Version/Matrix.antt =====
-- agent/version/compatibility.go: the compatibility matrix.
pub mod Best
use qrx_node_suite.Prelude.{
  ℕ, ◌+◌, ◌≡◌, refl, String, Bool, true, false, not, ◌&&◌, ◌||◌, Option, none, some, List, [], ◌∷◌,
  ltb, if◌then◌else◌, codes, ◌==◌,
}
use qrx_node_suite.Version.Range.{satisfies}

pub data CompatibilityState : Type 0 where
  supported partial experimental unsupported unknown : CompatibilityState

pub record MatrixEntry : Type 0 where
  pub qrx_core_version : String
  pub adapter_name : String
  pub adapter_version_range : String
  pub dashboard_version_range : String
  pub status : CompatibilityState
  pub notes : String

pub record Matrix : Type 0 where
  pub matrix_version : ℕ
  pub updated_at : String
  pub entries : List MatrixEntry

-- MatrixEntry{}: the zero value of a status is "", which no constant names; it is read as unknown.
abbrev pub no_entry : MatrixEntry
no_entry = record {
  qrx_core_version = "";
  adapter_name = "";
  adapter_version_range = "";
  dashboard_version_range = "";
  status = unknown;
  notes = "";
}

-- The three tests of the loop of Lookup; false is one of its `continue`s.
pub selects : MatrixEntry → String → String → String → Bool
selects e core name version =
    if not (e.qrx_core_version == core)
    then false
    else if not (e.adapter_name == name)
    then false
    else if not (e.adapter_version_range == "")
        && not (satisfies (codes version) (codes e.adapter_version_range))
    then false
    else true

pub lookup_entries : List MatrixEntry → String → String → String → MatrixEntry × CompatibilityState
lookup_entries [] core name version = (no_entry, unknown)
lookup_entries (e ∷ es) core name version =
    if selects e core name version then (e, e.status) else lookup_entries es core name version

unfoldable pub lookup : Matrix → String → String → String → MatrixEntry × CompatibilityState
unfolding lookup_entries selects
lookup m core name version = lookup_entries m.entries core name version

pub entries_for : List MatrixEntry → String → List MatrixEntry
entries_for [] core = []
entries_for (e ∷ es) core =
    let rest = entries_for es core in if e.qrx_core_version == core then e ∷ rest else rest

pub entries_for_core : Matrix → String → List MatrixEntry
unfolding entries_for
entries_for_core m core = entries_for m.entries core

-- The map `rank`; 0 is a missing key.
pub rank : CompatibilityState → ℕ
rank supported = 3
rank partial = 2
rank experimental = 1
rank unsupported = 0
rank unknown = 0

-- What the loop of BestAdapterFor counts a row for: 0 is one of its `continue`s.
pub row_rank : MatrixEntry → ℕ
unfolding rank
row_rank e = if e.adapter_name == "UNKNOWN" || e.adapter_name == "" then 0 else rank e.status

pub best_loop : List MatrixEntry → MatrixEntry → ℕ → MatrixEntry × ℕ
unfolding row_rank
best_loop [] best best_rank = (best, best_rank)
best_loop (e ∷ es) best best_rank =
    let taken = best_loop es e (row_rank e) in
    let kept = best_loop es best best_rank in if ltb best_rank (row_rank e) then taken else kept

unfoldable pub best_adapter_for : Matrix → String → MatrixEntry × Bool
unfolding best_loop entries_for_core
best_adapter_for m core =
    let (best, best_rank) = best_loop (entries_for_core m core) no_entry 0 in
    (best, ltb 0 best_rank)
