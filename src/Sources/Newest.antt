-- ===== src/Sources/Newest.antt =====
-- agent/updates/sources/github.go: which release a channel resolves to.
use qrx_node_suite.Prelude.{
  ℕ, ◌≡◌, ◌≢◌, ◌⊎◌, inl, inr, refl, sym, ap, ◌∙◌, String, Bool, true, false, some, List, [], ◌∷◌,
  codes, compare_codes, Ordering, if◌then◌else◌, ◌==◌, eq_iff, Bool-cases,
}
use mathlib.Core.Path.{subst}
use mathlib.Core.List.{Memᴰ}
use qrx_node_suite.Errors.{Result, ok, err, no_release}
use qrx_node_suite.Exec.{◌>>=◌}
use qrx_node_suite.Version.SemVer.{is_lt, is_gt}
use qrx_node_suite.Version.SemVer.Order.{
  flip, compare_codes-flip, compare_codes-eq, compare_codes_trans, compare_codes_refl,
}
use qrx_node_suite.Sources.{
  Release, Web, GitHubReleaseSource, releases_url, has_tag, published_later, matches, first_of,
  decoded, answered, http_get, newest, latest_release, newest_release, resolve_release,
}

abbrev pub is_older : Release → Release → Bool
is_older a b = is_lt (compare_codes (codes a.published_at) (codes b.published_at))

not_lt : (o : Ordering) → (is_lt o ≡ true → ⊥) → is_lt o ≡ false
not_lt Ordering.lt f = elim (f refl) [ ]
not_lt Ordering.eq f = refl
not_lt Ordering.gt f = refl

is_lt-lt : (o : Ordering) → is_lt o ≡ true → o ≡ Ordering.lt
is_lt-lt Ordering.lt h = refl
is_lt-lt Ordering.eq h = cc
is_lt-lt Ordering.gt h = cc

pub contradictory : {b : Bool} → b ≡ false → b ≡ true → ⊥
contradictory h k = let z = sym h ∙ k in cc

not_lt_trans :
    (a b c : List ℕ)
    → is_lt (compare_codes a b) ≡ false
    → is_lt (compare_codes b c) ≡ false
    → is_lt (compare_codes a c) ≡ false
not_lt_trans a b c h k = not_lt _ λ l. which (compare_codes a b) refl (is_lt-lt _ l)
  where
    which : (o : Ordering) → compare_codes a b ≡ o → compare_codes a c ≡ Ordering.lt → ⊥
    which Ordering.lt e l = contradictory h (ap is_lt e)
    which Ordering.eq e l =
        contradictory k
          (ap is_lt (subst (λ x. compare_codes x c ≡ Ordering.lt) (compare_codes-eq a b e) l))
    which Ordering.gt e l =
        contradictory k
          (ap is_lt (compare_codes_trans b a c (compare_codes-flip a b ∙ ap flip e) l))

later-older : (a b : Release) → published_later a b ≡ is_older b a
unfolding published_later
later-older a b =
    turned (compare_codes (codes a.published_at) (codes b.published_at))
    ∙ ap is_lt (sym (compare_codes-flip (codes a.published_at) (codes b.published_at)))
  where
    turned : (o : Ordering) → is_gt o ≡ is_lt (flip o)
    turned Ordering.lt = refl
    turned Ordering.eq = refl
    turned Ordering.gt = refl

-- A strict weak order, as sort.Slice asks of its comparison.
pub record IsWeakOrder (before : Release → Release → Bool) : Type 0 where
  pub asymmetric : (a b : Release) → before a b ≡ true → before b a ≡ false
  pub incomparable :
      (a b c : Release) → before b a ≡ false → before c b ≡ false → before c a ≡ false

-- What sort.Slice does with such a comparison: it keeps the elements, adds none, and nothing that follows
-- the first one comes before it.
pub record SortsSlice (sort : (Release → Release → Bool) → List Release → List Release)
    : Type 0 where
  pub keeps :
      (before : Release → Release → Bool) (r : Release) (rs : List Release)
      → Memᴰ r rs
      → Memᴰ r (sort before rs)
  pub adds_none :
      (before : Release → Release → Bool) (r : Release) (rs : List Release)
      → Memᴰ r (sort before rs)
      → Memᴰ r rs
  pub first_least :
      (before : Release → Release → Bool) (r q : Release) (rs rest : List Release)
      → IsWeakOrder before
      → sort before rs ≡ r ∷ rest
      → Memᴰ q rest
      → before q r ≡ false

published_later-IsWeakOrder : IsWeakOrder published_later
published_later-IsWeakOrder = record {
  asymmetric = λ a b h.
      later-older b a
      ∙ not_both (codes a.published_at) (codes b.published_at) (sym (later-older a b) ∙ h);
  incomparable = λ a b c h k.
      later-older c a
      ∙ not_lt_trans (codes a.published_at) (codes b.published_at) (codes c.published_at)
          (sym (later-older b a) ∙ h) (sym (later-older c b) ∙ k);
}
  where
    not_both : (x y : List ℕ) → is_lt (compare_codes y x) ≡ true → is_lt (compare_codes x y) ≡ false
    not_both x y h =
        ap is_lt (compare_codes-flip y x)
        ∙ ap (λ o. is_lt (flip o)) (is_lt-lt (compare_codes y x) h)

-- A release of the list with the channel's tag, than which no other such release is newer.
pub record IsNewest (channel : String) (releases : List Release) (r : Release) : Type 0 where
  pub is_listed : Memᴰ r releases
  pub is_tagged : has_tag channel r ≡ true
  pub none_newer : (q : Release) → Memᴰ q releases → has_tag channel q ≡ true → is_older r q ≡ false

abbrev pub NoMatch : String → List Release → Type 0
NoMatch channel releases = (q : Release) → Memᴰ q releases → has_tag channel q ≡ false

module _ (channel : String) where
  kept :
      (b : Bool) (r : Release) (found rs : List Release) {q : Release}
      → has_tag channel r ≡ b
      → ((x : Release) → Memᴰ x found → Memᴰ x rs × (has_tag channel x ≡ true))
      → Memᴰ q (if b then r ∷ found else found)
      → Memᴰ q (r ∷ rs) × (has_tag channel q ≡ true)
  kept true r found rs e k (Memᴰ.head p) = (Memᴰ.head p, ap (has_tag channel) p ∙ e)
  kept true r found rs {q} e k (Memᴰ.tail m) = let i = k q m in (Memᴰ.tail i.0, i.1)
  kept false r found rs {q} e k m = let i = k q m in (Memᴰ.tail i.0, i.1)

  matches_sound :
      (rs : List Release) {q : Release}
      → Memᴰ q (matches channel rs)
      → Memᴰ q rs × (has_tag channel q ≡ true)
  unfolding matches
  matches_sound [] h = elim h [ ]
  matches_sound (r ∷ rs) h =
      kept (has_tag channel r) r (matches channel rs) rs refl (λ x m. matches_sound rs m) h

  matches_complete :
      (rs : List Release) {q : Release}
      → Memᴰ q rs
      → has_tag channel q ≡ true
      → Memᴰ q (matches channel rs)
  unfolding matches
  matches_complete [] h t = elim h [ ]
  matches_complete (r ∷ rs) (Memᴰ.head p) t = rw (sym (ap (has_tag channel) p) ∙ t) (Memᴰ.head p)
  matches_complete (r ∷ rs) (Memᴰ.tail k) t =
      let i = matches_complete rs k t in
      elim (Bool-cases (has_tag channel r)) [ inl y ↦ rw y (Memᴰ.tail i) | inr n ↦ rw n i ]

  not_tagged : (b : Bool) {P : Type 0} → (b ≡ true → P) → (P → ⊥) → b ≡ false
  not_tagged true f n = elim (n (f refl)) [ ]
  not_tagged false f n = refl

  module _ {W : Type 0} (web : Web W) (sorts : SortsSlice web.sort_slice)
      (releases : List Release) where
    abbrev pub Resolves : Result Release → Type 0
    Resolves x =
        ((r : Release) × (x ≡ ok r) × IsNewest channel releases r)
        ⊎ ((x ≡ err (no_release channel)) × NoMatch channel releases)

    first-Resolves :
        (found sorted : List Release) {r : Release}
        → matches channel releases ≡ found
        → web.sort_slice published_later found ≡ sorted
        → Memᴰ r found
        → Resolves (first_of channel sorted)
    unfolding first_of
    first-Resolves found [] {r} e p m =
        elim (subst (λ (x : List Release). Memᴰ r x) p (sorts.keeps published_later r found m)) [ ]
    first-Resolves found (r ∷ rest) e p m = inl (
      r,
      refl,
      record {
        is_listed = held.0;
        is_tagged = held.1;
        none_newer = λ q k t. after q (
            subst (Memᴰ q) p (
              sorts.keeps published_later q found
                (subst (Memᴰ q) e (matches_complete releases k t))));
      },
    )
      where
        held : Memᴰ r releases × (has_tag channel r ≡ true)
        held = matches_sound releases (
            subst (Memᴰ r) (sym e)
              (sorts.adds_none published_later r found (subst (Memᴰ r) (sym p) (Memᴰ.head refl))))

        after : (q : Release) → Memᴰ q (r ∷ rest) → is_older r q ≡ false
        after q (Memᴰ.head z) = rw (z, compare_codes_refl (codes r.published_at)) refl
        after q (Memᴰ.tail k) =
            sym (later-older q r)
            ∙ sorts.first_least published_later r q found rest published_later-IsWeakOrder p k

    newest-Resolves : Resolves (newest web channel releases)
    unfolding newest
    newest-Resolves = which (matches channel releases) refl
      where
        which :
            (found : List Release)
            → matches channel releases ≡ found
            → Resolves (elim found as (λ x. Result Release) [
              | [] ↦ err (no_release channel)
              | r ∷ rs ↦ first_of channel (web.sort_slice published_later (r ∷ rs))
            ])
        which [] e = inr (
          refl,
          λ q m.
              not_tagged (has_tag channel q) (λ t. subst (Memᴰ q) e (matches_complete releases m t))
                (λ k. elim k [ ]),
        )
        which (r ∷ rs) e = first-Resolves (r ∷ rs) _ e refl (Memᴰ.head refl)

    carried : (x : Result Release) (w : W) → Resolves x → Resolves (answered {W = W} x w).0
    unfolding answered
    carried (ok r) w h = h
    carried (err e) w h = h

    -- On every channel but stable, where the list of the releases was read and decoded: the source resolves
    -- the channel to a release of the list whose tag begins with the channel and a dash, and no other such
    -- release was published later; or it reports that there is none, and no release of the list has such a
    -- tag. sort.Slice, given a strict weak order, keeps the elements and puts first one that none
    -- comes before.
    pub resolve_release-IsNewest :
        (s : GitHubReleaseSource) (w v : W) {body : List ℕ}
        → channel ≢ "stable"
        → http_get web (releases_url s) w ≡ (ok body, v)
        → web.decode_releases body ≡ some releases
        → Resolves (resolve_release web s channel w).0
    unfolding resolve_release newest_release ◌>>=◌ decoded
    resolve_release-IsNewest s w v n g d = which (channel == "stable") refl
      where
        which :
            (b : Bool)
            → (channel == "stable") ≡ b
            → Resolves ((if b then latest_release web s else newest_release web s channel) w).0
        which true e = elim (n ((eq_iff channel "stable").0 e)) [ ]
        which false e = rw (g, d) (carried (newest web channel releases) v newest-Resolves)
