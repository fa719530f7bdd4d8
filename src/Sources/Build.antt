-- ===== src/Sources/Build.antt =====
-- agent/cmd/agentd/sources.go: the source that the configuration asks for.
use qrx_node_suite.Prelude.{
  ◌≡◌, inl, inr, ap, sym, ◌∙◌, String, Bool, true, false, ◌||◌, none, some, if◌then◌else◌, ◌==◌,
}
use mathlib.Core.Path.{subst}
use qrx_node_suite.Errors.{Err, Result, ok, err, bad_source}
use qrx_node_suite.Exec.Wp.{ok_eq}
use qrx_node_suite.Manifest.{Manifest, is_valid}
use qrx_node_suite.Sources.{
  Web, Source, GitHubReleaseSource, github, static_url, local_file, development, Registered,
  fetch_manifest,
}
use qrx_node_suite.Sources.Fetched.{fetch_manifest-IsValid}

-- What the choice reads of config.UpdatesConfig; `asset_name` names the manifest of the architecture.
pub record UpdatesConfig : Type 0 where
  pub source_kind : String
  pub github_owner : String
  pub github_repo : String
  pub static_url_template : String
  pub local_manifest_path_template : String
  pub asset_name : String

-- NewDevelopmentSource: both maps are empty.
abbrev pub new_development_source : Registered
new_development_source = record { manifests = λ channel. none; artifacts = λ url. none }

abbrev pub required : Bool → Source → Result Source
required true s = err bad_source
required false s = ok s

unfoldable pub build_update_source : UpdatesConfig → Result Source
build_update_source cfg =
    if cfg.source_kind == "" || cfg.source_kind == "development"
    then ok (development new_development_source)
    else if cfg.source_kind == "github"
    then required (cfg.github_owner == "" || cfg.github_repo == "") (
        github (record {
          owner = cfg.github_owner;
          repo = cfg.github_repo;
          asset_name = cfg.asset_name;
          base_url = "";
        }))
    else if cfg.source_kind == "static"
    then required (cfg.static_url_template == "") (static_url cfg.static_url_template)
    else if cfg.source_kind == "local"
    then required (cfg.local_manifest_path_template == "")
        (local_file cfg.local_manifest_path_template "")
    else err bad_source

-- A development source has no manifest.
IsBare : Source → Type 0
IsBare s = (d : Registered) (channel : String) → s ≡ development d → d.manifests channel ≡ none

if-IsBare :
    (b : Bool) (x y : Result Source)
    → ((s : Source) → x ≡ ok s → IsBare s)
    → ((s : Source) → y ≡ ok s → IsBare s)
    → (s : Source) → (if b then x else y) ≡ ok s
    → IsBare s
if-IsBare true x y h k = h
if-IsBare false x y h k = k

same : (s : Source) → IsBare s → (x : Source) → ok s ≡ ok x → IsBare x
same s h x e = subst IsBare (ok_eq e) h

required-IsBare : (b : Bool) (s : Source) → IsBare s → (x : Source) → required b s ≡ ok x → IsBare x
required-IsBare true s h x e = cc
required-IsBare false s h x e = same s h x e

same_maps : {a b : Registered} → development a ≡ development b → a ≡ b
same_maps h = cc

new-IsBare : IsBare (development new_development_source)
unfolding IsBare
new-IsBare d channel e = sym (ap (λ (x : Registered). x.manifests channel) (same_maps e))

github-IsBare : (g : GitHubReleaseSource) → IsBare (github g)
unfolding IsBare
github-IsBare g d channel e = cc

static-IsBare : (template : String) → IsBare (static_url template)
unfolding IsBare
static-IsBare template d channel e = cc

local-IsBare : (template base : String) → IsBare (local_file template base)
unfolding IsBare
local-IsBare template base d channel e = cc

refused-IsBare : (e : Err) (x : Source) → err e ≡ ok x → IsBare x
refused-IsBare e x h = cc

build-IsBare : (cfg : UpdatesConfig) (s : Source) → build_update_source cfg ≡ ok s → IsBare s
unfolding build_update_source
build-IsBare cfg =
    if-IsBare (cfg.source_kind == "" || cfg.source_kind == "development") _ _ (same _ new-IsBare) (
      if-IsBare (cfg.source_kind == "github") _ _
        (required-IsBare (cfg.github_owner == "" || cfg.github_repo == "") _ (
          github-IsBare (record {
            owner = cfg.github_owner;
            repo = cfg.github_repo;
            asset_name = cfg.asset_name;
            base_url = "";
          })))
        (if-IsBare (cfg.source_kind == "static") _ _
          (required-IsBare (cfg.static_url_template == "") _
            (static-IsBare cfg.static_url_template))
          (if-IsBare (cfg.source_kind == "local") _ _
            (required-IsBare (cfg.local_manifest_path_template == "") _
              (local-IsBare cfg.local_manifest_path_template ""))
            (refused-IsBare bad_source))))

-- A manifest that the source of the configuration returns, whatever the configuration and the world behind
-- the source, has passed Validate.
pub build_update_source-IsValid :
    {W : Type 0} (web : Web W) (cfg : UpdatesConfig) (s : Source) (channel : String) (w : W)
    {m : Manifest}
    → build_update_source cfg ≡ ok s
    → (fetch_manifest web s channel w).0 ≡ ok m
    → is_valid web.parse_time m ≡ true
unfolding IsBare
build_update_source-IsValid web cfg s channel w {m} b h =
    elim (fetch_manifest-IsValid web s channel w h) [
      | inl valid ↦ valid
      | inr (d, p, q) ↦ impossible (sym (build-IsBare cfg s b d channel p) ∙ q)
    ]
  where
    impossible : {P : Type 0} → none ≡ some m → P
    impossible e = cc
