-- ===== src/Sources/Tests.antt =====
-- A repository with three releases, and the theorems on the sources applied to it.
use qrx_node_suite.Prelude.{
  ◌≡◌, ◌≢◌, refl, sym, String, Bool, true, false, none, some, List, [], ◌∷◌, eq_iff, if◌then◌else◌,
}
use mathlib.Core.Path.{subst}
use mathlib.Core.List.{Memᴰ}
use qrx_node_suite.Errors.{ok}
use qrx_node_suite.Exec.{◌>>=◌, guard}
use qrx_node_suite.Manifest.{is_valid}
use qrx_node_suite.Updates.Install.Tests.{release as manifest}
use qrx_node_suite.Sources.{
  Release, Web, GitHubReleaseSource, http_get, resolve_release, fetch_manifest, static_url,
}
use qrx_node_suite.Sources.Newest.{
  IsWeakOrder, SortsSlice, contradictory, Resolves, resolve_release-IsNewest,
}
use qrx_node_suite.Sources.Build.{UpdatesConfig, build_update_source, build_update_source-IsValid}

-- A sort that is enough: one that comes before all others in front.
module _ (before : Release → Release → Bool) where
  abbrev put : Release → List Release → List Release
  put r [] = r ∷ []
  put r (q ∷ qs) = if before q r then q ∷ r ∷ qs else r ∷ q ∷ qs

  first_sort : List Release → List Release
  first_sort [] = []
  first_sort (r ∷ rs) = put r (first_sort rs)

  put_keeps : (r : Release) (qs : List Release) {x : Release} → Memᴰ x (r ∷ qs) → Memᴰ x (put r qs)
  put_keeps r [] m = m
  put_keeps r (q ∷ qs) m = which (before q r) m
    where
      which :
          (b : Bool) {x : Release}
          → Memᴰ x (r ∷ q ∷ qs)
          → Memᴰ x (if b then q ∷ r ∷ qs else r ∷ q ∷ qs)
      which true (Memᴰ.head p) = Memᴰ.tail (Memᴰ.head p)
      which true (Memᴰ.tail (Memᴰ.head p)) = Memᴰ.head p
      which true (Memᴰ.tail (Memᴰ.tail k)) = Memᴰ.tail (Memᴰ.tail k)
      which false k = k

  put_adds_none :
      (r : Release) (qs : List Release) {x : Release} → Memᴰ x (put r qs) → Memᴰ x (r ∷ qs)
  put_adds_none r [] m = m
  put_adds_none r (q ∷ qs) m = which (before q r) m
    where
      which :
          (b : Bool) {x : Release}
          → Memᴰ x (if b then q ∷ r ∷ qs else r ∷ q ∷ qs)
          → Memᴰ x (r ∷ q ∷ qs)
      which true (Memᴰ.head p) = Memᴰ.tail (Memᴰ.head p)
      which true (Memᴰ.tail (Memᴰ.head p)) = Memᴰ.head p
      which true (Memᴰ.tail (Memᴰ.tail k)) = Memᴰ.tail (Memᴰ.tail k)
      which false k = k

  first_sort_keeps : (x : Release) (rs : List Release) → Memᴰ x rs → Memᴰ x (first_sort rs)
  unfolding first_sort
  first_sort_keeps x [] m = m
  first_sort_keeps x (r ∷ rs) (Memᴰ.head p) = put_keeps r (first_sort rs) (Memᴰ.head p)
  first_sort_keeps x (r ∷ rs) (Memᴰ.tail k) =
      put_keeps r (first_sort rs) (Memᴰ.tail (first_sort_keeps x rs k))

  first_sort_adds_none : (x : Release) (rs : List Release) → Memᴰ x (first_sort rs) → Memᴰ x rs
  unfolding first_sort
  first_sort_adds_none x [] m = m
  first_sort_adds_none x (r ∷ rs) m =
      step (put_adds_none r (first_sort rs) m) (first_sort_adds_none x rs)
    where
      step : Memᴰ x (r ∷ first_sort rs) → (Memᴰ x (first_sort rs) → Memᴰ x rs) → Memᴰ x (r ∷ rs)
      step (Memᴰ.head p) f = Memᴰ.head p
      step (Memᴰ.tail k) f = Memᴰ.tail (f k)

  abbrev IsFirst : List Release → Type 0
  IsFirst [] = Unit {0}
  IsFirst (r ∷ rest) = (q : Release) → Memᴰ q rest → before q r ≡ false

  first_cons :
      (r q : Release) (qs : List Release)
      → before q r ≡ false
      → ((z : Release) → Memᴰ z qs → before z r ≡ false)
      → (z : Release) → Memᴰ z (q ∷ qs)
      → before z r ≡ false
  first_cons r q qs e k z (Memᴰ.head p) = subst (λ x. before x r ≡ false) (sym p) e
  first_cons r q qs e k z (Memᴰ.tail m) = k z m

  module _ (order : IsWeakOrder before) where
    put-IsFirst : (r : Release) (qs : List Release) → IsFirst qs → IsFirst (put r qs)
    put-IsFirst r [] h = λ q m. elim m [ ]
    put-IsFirst r (q ∷ qs) h = which (before q r) refl
      where
        which : (b : Bool) → before q r ≡ b → IsFirst (if b then q ∷ r ∷ qs else r ∷ q ∷ qs)
        which true e = first_cons q r qs (order.asymmetric q r e) h
        which false e = first_cons r q qs e λ z m. order.incomparable r q z e (h z m)

    first_sort-IsFirst : (rs : List Release) → IsFirst (first_sort rs)
    unfolding first_sort
    first_sort-IsFirst [] = tt
    first_sort-IsFirst (r ∷ rs) = put-IsFirst r (first_sort rs) (first_sort-IsFirst rs)

sorts : SortsSlice first_sort
sorts = record {
  keeps = first_sort_keeps;
  adds_none = first_sort_adds_none;
  first_least = λ before r q rs rest order e m.
      subst (IsFirst before) e (first_sort-IsFirst before order rs) q m;
}

abbrev tagged : String → String → Release
tagged tag published = record { tag_name = tag; published_at = published; assets = [] }

abbrev releases : List Release
releases = tagged "beta-1" "2024-01" ∷ tagged "v2" "2024-03" ∷ tagged "beta-2" "2024-02" ∷ []

abbrev web : Web (Unit {0})
web = record {
  request = λ url w. (ok (record { status_code = 200; body = [] }), w);
  open_file = λ path w. (ok [], w);
  decode_release = λ body. none;
  decode_releases = λ body. some releases;
  decode_manifest = λ body. some manifest;
  parse_time = λ s. some 0;
  is_abs = λ path. true;
  join = λ dir path. [];
  sort_slice = first_sort;
}

abbrev source : GitHubReleaseSource
source = record { owner = "o"; repo = "r"; asset_name = "manifest.json"; base_url = "" }

abbrev beta : String
beta = "beta"

not_stable : beta ≢ "stable"
not_stable h = contradictory refl ((eq_iff beta "stable").1 h)

resolve_release-IsNewest_example :
    Resolves beta web sorts releases (resolve_release web source beta tt).0
unfolding http_get ◌>>=◌
resolve_release-IsNewest_example =
    resolve_release-IsNewest beta web sorts releases source tt tt not_stable refl refl

abbrev config : UpdatesConfig
config = record {
  source_kind = "static";
  github_owner = "";
  github_repo = "";
  static_url_template = "https://h/{channel}.json";
  local_manifest_path_template = "";
  asset_name = "manifest-linux-amd64.json";
}

built : build_update_source config ≡ ok (static_url "https://h/{channel}.json")
unfolding build_update_source
built = refl

fetched : (fetch_manifest web (static_url "https://h/{channel}.json") "stable" tt).0 ≡ ok manifest
unfolding fetch_manifest ◌>>=◌ is_valid guard
fetched = refl

build_update_source-IsValid_example : is_valid web.parse_time manifest ≡ true
build_update_source-IsValid_example =
    build_update_source-IsValid web config (static_url "https://h/{channel}.json") "stable" tt built
      fetched
