-- ===== src/Sources/Fetched.antt =====
-- agent/updates/sources: what FetchManifest hands on, for every provider.
use qrx_node_suite.Prelude.{
  ◌≡◌, ◌⊎◌, inl, inr, refl, ap, String, true, Option, none, some, List, ℕ, codes,
}
use mathlib.Core.Path.{subst}
use qrx_node_suite.Errors.{ok}
use qrx_node_suite.Exec.Wp.{ok_eq}
use qrx_node_suite.Exec.Went.{bind-Went, guard-bind}
use qrx_node_suite.Manifest.{Manifest, is_valid}
use qrx_node_suite.Sources.{
  Web, Source, github, static_url, local_file, development, Registered, GitHubReleaseSource,
  http_get, parse, fetch_from_github, fetch_manifest, at_channel, decoded, registered, answered,
  resolve_release, find_asset_url,
}

module _ {W : Type 0} (web : Web W) where
  parse-IsValid :
      (body : List ℕ) (w : W) {m : Manifest}
      → (parse web body w).0 ≡ ok m
      → is_valid web.parse_time m ≡ true
  unfolding parse
  parse-IsValid body w h =
      let k = bind-Went (decoded (web.decode_manifest body)) _ w h in
      let g = guard-bind (is_valid web.parse_time k.value) _ _ _ k.rest in
      subst (λ (x : Manifest). is_valid web.parse_time x ≡ true) (ok_eq g.1) g.0

  github-IsValid :
      (s : GitHubReleaseSource) (channel : String) (w : W) {m : Manifest}
      → (fetch_from_github web s channel w).0 ≡ ok m
      → is_valid web.parse_time m ≡ true
  unfolding fetch_from_github
  github-IsValid s channel w h =
      let a = bind-Went (resolve_release web s channel) _ w h in
      let b = bind-Went (answered (find_asset_url s a.value a.value.assets)) _ _ a.rest in
      let c = bind-Went (http_get web (codes b.value)) _ _ b.rest in parse-IsValid _ _ c.rest

  -- A manifest that FetchManifest returns has passed Validate, or it is one that was registered with a
  -- development source under the channel.
  pub fetch_manifest-IsValid :
      (s : Source) (channel : String) (w : W) {m : Manifest}
      → (fetch_manifest web s channel w).0 ≡ ok m
      → (is_valid web.parse_time m ≡ true)
        ⊎ ((d : Registered) × (s ≡ development d) × (d.manifests channel ≡ some m))
  unfolding fetch_manifest registered
  fetch_manifest-IsValid (github s) channel w h = inl (github-IsValid s channel w h)
  fetch_manifest-IsValid (static_url template) channel w h =
      let k = bind-Went (http_get web (at_channel template channel)) _ w h in
      inl (parse-IsValid _ _ k.rest)
  fetch_manifest-IsValid (local_file template base) channel w h =
      let k = bind-Went (web.open_file (at_channel template channel)) _ w h in
      inl (parse-IsValid _ _ k.rest)
  fetch_manifest-IsValid (development d) channel w {m} h =
      inr (d, refl, found (d.manifests channel) h)
    where
      found : (o : Option Manifest) → (registered channel o w).0 ≡ ok m → o ≡ some m
      found none k = cc
      found (some x) k = ap some (ok_eq k)
