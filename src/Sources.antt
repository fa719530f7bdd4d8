-- ===== src/Sources.antt =====
-- agent/updates/sources: where a manifest and the artifacts that it names come from.
--
-- The network and the file system are the state W, arbitrary, and reached through `Web`: an HTTP request,
-- the opening of a file, and Go's JSON decoder, time parser, path functions and sort. A URL and a path are
-- lists of code points.
pub mod Newest
pub mod Fetched
pub mod Build
mod Tests
use qrx_node_suite.Prelude.{
  ℕ, ◌-◌, zero, suc, String, Bool, true, false, not, ◌||◌, Option, none, some, is_some, List, [],
  ◌∷◌, ◌++◌, codes, compare_codes, length, eqb, ltb, if◌then◌else◌, ◌==◌,
}
use qrx_node_suite.Errors.{
  Err, Result, ok, err, bad_json, bad_status, no_release, no_asset, not_registered,
  invalid_manifest,
}
use qrx_node_suite.Exec.{Exec, done, fail, ◌>>=◌, ◌>>◌, guard}
use qrx_node_suite.Version.SemVer.{is_gt}
use qrx_node_suite.Manifest.{Manifest, is_valid}
use qrx_node_suite.Api.{after_prefix}

pub record Asset : Type 0 where
  pub name : String
  pub browser_download_url : String

pub record Release : Type 0 where
  pub tag_name : String
  pub published_at : String
  pub assets : List Asset

pub record HttpResponse : Type 0 where
  pub status_code : ℕ
  pub body : List ℕ

pub record Web (W : Type 0) : Type 0 where
  -- client.Do of a GET request.
  pub request : List ℕ → Exec W HttpResponse
  -- os.Open, and what can then be read.
  pub open_file : List ℕ → Exec W (List ℕ)
  pub decode_release : List ℕ → Option Release
  pub decode_releases : List ℕ → Option (List Release)
  pub decode_manifest : List ℕ → Option Manifest
  pub parse_time : String → Option ℕ
  pub is_abs : String → Bool
  pub join : String → String → List ℕ
  -- sort.Slice, by whether one element comes before another.
  pub sort_slice : (Release → Release → Bool) → List Release → List Release

pub record GitHubReleaseSource : Type 0 where
  pub owner : String
  pub repo : String
  pub asset_name : String
  pub base_url : String

-- strings.ReplaceAll with a pattern that is not empty; `skip` counts the rest of a match.
replace_from : List ℕ → List ℕ → ℕ → List ℕ → List ℕ
unfolding after_prefix
replace_from pattern new skip [] = []
replace_from pattern new (suc skip) (c ∷ s) = replace_from pattern new skip s
replace_from pattern new zero (c ∷ s) =
    let is_match = is_some (after_prefix pattern (c ∷ s)) in
    let rest = replace_from pattern new (if is_match then length pattern - 1 else 0) s in
    if is_match then new ++ rest else c ∷ rest

-- manifestURL and manifestPath.
pub at_channel : String → String → List ℕ
unfolding replace_from
at_channel template channel = replace_from (codes "{channel}") (codes channel) 0 (codes template)

unfoldable pub base_url : GitHubReleaseSource → List ℕ
base_url s = if s.base_url == "" then codes "https://api.github.com" else codes s.base_url

unfoldable pub releases_url : GitHubReleaseSource → List ℕ
unfolding base_url
releases_url s =
    base_url s ++ codes "/repos/" ++ codes s.owner ++ codes "/" ++ codes s.repo ++ codes "/releases"

unfoldable pub find_asset_url : GitHubReleaseSource → Release → List Asset → Result String
find_asset_url s rel [] = err (no_asset rel.tag_name)
find_asset_url s rel (a ∷ rest) =
    let others = find_asset_url s rel rest in
    if a.name == s.asset_name then ok a.browser_download_url else others

unfoldable pub has_tag : String → Release → Bool
unfolding after_prefix
has_tag channel r = is_some (after_prefix (codes channel ++ codes "-") (codes r.tag_name))

unfoldable pub matches : String → List Release → List Release
unfolding has_tag
matches channel [] = []
matches channel (r ∷ rs) =
    let rest = matches channel rs in if has_tag channel r then r ∷ rest else rest

-- The comparison of the sort: PublishedAt, the greatest first.
unfoldable pub published_later : Release → Release → Bool
published_later a b = is_gt (compare_codes (codes a.published_at) (codes b.published_at))

unfoldable pub first_of : String → List Release → Result Release
first_of channel [] = err (no_release channel)
first_of channel (r ∷ rs) = ok r

module _ {W : Type 0} where
  unfoldable pub decoded : {A : Type 0} → Option A → Exec W A
  decoded none = fail bad_json
  decoded (some a) = done a

  unfoldable pub answered : {A : Type 0} → Result A → Exec W A
  answered (ok a) = done a
  answered (err e) = fail e

module _ {W : Type 0} (web : Web W) where
  -- httpGet.
  unfoldable pub http_get : List ℕ → Exec W (List ℕ)
  unfolding guard
  http_get url = do
    resp ← web.request url
    guard (not (ltb resp.status_code 200 || not (ltb resp.status_code 300)))
        (bad_status resp.status_code)
    done resp.body

  -- manifest.Parse.
  unfoldable pub parse : List ℕ → Exec W Manifest
  unfolding decoded guard
  parse body = do
    m ← decoded (web.decode_manifest body)
    guard (is_valid web.parse_time m) invalid_manifest
    done m

  unfoldable pub latest_release : GitHubReleaseSource → Exec W Release
  unfolding http_get decoded releases_url
  latest_release s = do
    body ← http_get (releases_url s ++ codes "/latest")
    decoded (web.decode_release body)

  unfoldable pub newest : String → List Release → Result Release
  unfolding matches first_of published_later
  newest channel releases =
      let found = matches channel releases in
      elim found [
        | [] ↦ err (no_release channel)
        | r ∷ rs ↦ first_of channel (web.sort_slice published_later (r ∷ rs))
      ]

  unfoldable pub newest_release : GitHubReleaseSource → String → Exec W Release
  unfolding http_get decoded answered releases_url newest
  newest_release s channel = do
    body ← http_get (releases_url s)
    releases ← decoded (web.decode_releases body)
    answered (newest channel releases)

  unfoldable pub resolve_release : GitHubReleaseSource → String → Exec W Release
  unfolding latest_release newest_release
  resolve_release s channel =
      if channel == "stable" then latest_release s else newest_release s channel

  unfoldable pub fetch_from_github : GitHubReleaseSource → String → Exec W Manifest
  unfolding resolve_release answered find_asset_url http_get parse
  fetch_from_github s channel = do
    rel ← resolve_release s channel
    url ← answered (find_asset_url s rel rel.assets)
    body ← http_get (codes url)
    parse body

  unfoldable pub resolve_path : String → String → List ℕ
  unfolding after_prefix
  resolve_path base url = elim (after_prefix (codes "file://") (codes url)) [
    | some p ↦ p
    | none ↦ if web.is_abs url then codes url else web.join base url
  ]

-- The development source's maps.
pub record Registered : Type 0 where
  pub manifests : String → Option Manifest
  pub artifacts : String → Option (List ℕ)

-- The providers of the Source interface.
pub data Source : Type 0 where
  github : GitHubReleaseSource → Source
  static_url : String → Source
  local_file : String → String → Source
  development : Registered → Source

module _ {W : Type 0} where
  unfoldable pub registered : {A : Type 0} → String → Option A → Exec W A
  registered key none = fail (not_registered key)
  registered key (some a) = done a

module _ {W : Type 0} (web : Web W) where
  -- FetchManifest of each provider.
  unfoldable pub fetch_manifest : Source → String → Exec W Manifest
  unfolding fetch_from_github at_channel http_get parse registered
  fetch_manifest (github s) channel = fetch_from_github web s channel
  fetch_manifest (static_url template) channel = do
    body ← http_get web (at_channel template channel)
    parse web body
  fetch_manifest (local_file template base) channel = do
    body ← web.open_file (at_channel template channel)
    parse web body
  fetch_manifest (development d) channel = registered channel (d.manifests channel)

  unfoldable pub open_artifact : Source → String → Exec W (List ℕ)
  unfolding http_get resolve_path registered
  open_artifact (github s) url = http_get web (codes url)
  open_artifact (static_url template) url = http_get web (codes url)
  open_artifact (local_file template base) url = web.open_file (resolve_path web base url)
  open_artifact (development d) url = registered url (d.artifacts url)
