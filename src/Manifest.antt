-- ===== src/Manifest.antt =====
-- agent/updates/manifest/manifest.go: the update manifest, its validation and the bytes it signs.
pub mod Tokens
pub mod Payload
pub mod Verify
mod Tests
use qrx_node_suite.Prelude.{
  ℕ, suc, ◌+◌, ◌/◌, ◌%◌, ◌≡◌, refl, String, Bool, true, false, not, ◌&&◌, Option, none, some, List,
  [], ◌∷◌, ◌++◌, eqb, ltb, if◌then◌else◌, codes, compare_codes, Ordering, ◌==◌, length, is_some,
}
use qrx_node_suite.Errors.{Err, Result, ok, err, invalid_manifest}

pub record ReleaseNotes : Type 0 where
  pub released_at : String
  pub changes : List String
  pub breaking_changes : List String
  pub security_fixes : List String
  pub required_qrx_version : String
  pub required_adapter_version : String
  pub min_suite_version : String

pub record ComponentUpdate : Type 0 where
  pub version : String
  pub url : String
  pub sha256 : String
  pub signature : String
  pub release_notes : Option ReleaseNotes

-- `components` is the Go map: its entries in some order, each name once.
pub record Manifest : Type 0 where
  pub manifest_version : ℕ
  pub channel : String
  pub suite_version : String
  pub released_at : String
  pub components : List (String × ComponentUpdate)
  pub manifest_signature : String

-- `m.Components[name]`.
unfoldable pub component : String → List (String × ComponentUpdate) → Option ComponentUpdate
component name [] = none
component name ((n, c) ∷ cs) = if n == name then some c else component name cs

is_complete : ComponentUpdate → Bool
is_complete c =
    not (c.version == "") && not (c.url == "") && not (c.sha256 == "") && not (c.signature == "")

all_complete : List (String × ComponentUpdate) → Bool
unfolding is_complete
all_complete [] = true
all_complete ((n, c) ∷ cs) = is_complete c && all_complete cs

is_empty : List (String × ComponentUpdate) → Bool
is_empty [] = true
is_empty (c ∷ cs) = false

-- Validate: true is a nil error. `parse_time` is time.Parse(time.RFC3339, _).
unfoldable pub is_valid : (String → Option ℕ) → Manifest → Bool
unfolding all_complete is_empty
is_valid parse_time m =
    ltb 0 m.manifest_version
    && not (m.channel == "")
    && not (m.suite_version == "")
    && not (m.released_at == "")
    && is_some (parse_time m.released_at)
    && not (m.manifest_signature == "")
    && not (is_empty m.components)
    && all_complete m.components

-- fmt "%d", on fuel; a number has at most as many digits as its value and one.
decimal_fuel : ℕ → ℕ → List ℕ → List ℕ
decimal_fuel ℕ.zero n out = out
decimal_fuel (suc f) n out =
    let rest = decimal_fuel f (n / 10) ((b'0' + n % 10) ∷ out) in
    if ltb n 10 then (b'0' + n % 10) ∷ out else rest

pub decimal : ℕ → List ℕ
unfolding decimal_fuel
decimal n = decimal_fuel (suc n) n []

-- The arguments of `write`, in order.
list_tokens : List String → List (List ℕ)
list_tokens [] = []
list_tokens (s ∷ ss) = codes s ∷ list_tokens ss

-- writeList.
pub write_list : List String → List (List ℕ)
unfolding list_tokens decimal
write_list ss = decimal (length ss) ∷ list_tokens ss

notes_body : ReleaseNotes → List (List ℕ)
unfolding write_list
notes_body rn =
    write_list rn.changes
    ++ (write_list rn.breaking_changes
        ++ (write_list rn.security_fixes
            ++ (codes rn.required_qrx_version
                ∷ codes rn.required_adapter_version
                ∷ codes rn.min_suite_version
                ∷ [])))

-- A presence marker, then the notes.
pub notes_tokens : Option ReleaseNotes → List (List ℕ)
unfolding notes_body
notes_tokens none = codes "0" ∷ []
notes_tokens (some rn) = codes "1" ∷ codes rn.released_at ∷ notes_body rn

pub component_tokens : String × ComponentUpdate → List (List ℕ)
unfolding notes_tokens
component_tokens (name, c) =
    codes name ∷ codes c.version ∷ codes c.url ∷ codes c.sha256 ∷ notes_tokens c.release_notes

pub components_tokens : List (String × ComponentUpdate) → List (List ℕ)
unfolding component_tokens
components_tokens [] = []
components_tokens (c ∷ cs) = component_tokens c ++ components_tokens cs

-- sort.Strings over the names, each with its entry.
insert_entry :
    String × ComponentUpdate → List (String × ComponentUpdate) → List (String × ComponentUpdate)
insert_entry c [] = c ∷ []
insert_entry c (d ∷ ds) = elim (compare_codes (codes c.0) (codes d.0)) [
  | Ordering.gt ↦ d ∷ insert_entry c ds
  | _ ↦ c ∷ d ∷ ds
]

pub sort_entries : List (String × ComponentUpdate) → List (String × ComponentUpdate)
unfolding insert_entry
sort_entries [] = []
sort_entries (c ∷ cs) = insert_entry c (sort_entries cs)

pub tokens : Manifest → List (List ℕ)
unfolding components_tokens sort_entries decimal
tokens m =
    decimal m.manifest_version
    ∷ codes m.channel
    ∷ codes m.suite_version
    ∷ codes m.released_at
    ∷ components_tokens (sort_entries m.components)

-- `write`: each argument and a NUL.
pub join : List (List ℕ) → List ℕ
join [] = []
join (t ∷ ts) = t ++ (0 ∷ join ts)

unfoldable pub canonical_payload : Manifest → List ℕ
unfolding tokens join
canonical_payload m = join (tokens m)
