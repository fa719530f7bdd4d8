-- ===== src/Components/Inside.antt =====
-- agent/updates/components/dashboard.go: where the entries of a dashboard archive are written.
use qrx_node_suite.Prelude.{
  ℕ, ◌≡◌, ◌⊎◌, inl, inr, refl, ap, sym, String, Bool, true, false, ◌||◌, Option, none, some,
  is_some, List, ◌++◌, codes, if◌then◌else◌, ◌==◌, eq_iff, All,
}
use qrx_node_suite.Errors.{Err, Result, ok, err}
use qrx_node_suite.Exec.{Exec, carry_on, ◌>>=◌}
use qrx_node_suite.Exec.Wp.{ok_eq}
use qrx_node_suite.Api.{after_prefix}
use qrx_node_suite.Api.Admin.{after_prefix-append}
use qrx_node_suite.Components.Extract.{
  Paths, Call, mkdir_all, open_file, copy_to, Files, call, Kind, directory, regular, other, Archive,
  finished, broken, stopped, entry, is_safe, safe_join, write_entry, unpack, extract,
}
use mathlib.Core.Path.{subst}

module _ (p : Paths) (dir : String) where
  -- A path that begins with the directory and a separator.
  abbrev pub Below : String → Type 0
  Below t = (rest : List ℕ) × (codes t ≡ (codes (p.clean dir) ++ codes "/") ++ rest)

  -- The directory itself, or a path below it.
  abbrev pub InsideDir : String → Type 0
  InsideDir t = (t ≡ p.clean dir) ⊎ Below t

  -- filepath.Dir of a clean path below the directory: the directory, or a path below it.
  abbrev pub ParentsStay : Type 0
  ParentsStay = (x : String) → Below (p.clean x) → InsideDir (p.parent (p.clean x))

  -- A file is opened and written inside; a directory is made inside, or it is the parent of the release
  -- directory, which an entry for the directory itself asks for.
  abbrev pub CallInside : Call → Type 0
  CallInside (mkdir_all t) = InsideDir t ⊎ (t ≡ p.parent (p.clean dir))
  CallInside (open_file t) = InsideDir t
  CallInside (copy_to t) = InsideDir t

  abbrev pub CallsInside : List Call → Type 0
  CallsInside = All CallInside

  prefixed :
      (o : Option (List ℕ)) (t : String)
      → after_prefix (codes (p.clean dir) ++ codes "/") (codes t) ≡ o
      → is_some o ≡ true
      → InsideDir t
  prefixed none t h e = cc
  prefixed (some rest) t h e =
      inr (rest, (after_prefix-append (codes (p.clean dir) ++ codes "/") (codes t) rest).0 h)

  -- The test of safeJoin, and what it tests.
  is_safe-Inside : (t : String) → is_safe p dir t ≡ true → InsideDir t
  unfolding is_safe
  is_safe-Inside t h = which (t == p.clean dir) refl h
    where
      which :
          (b : Bool)
          → (t == p.clean dir) ≡ b
          → (b || is_some (after_prefix (codes (p.clean dir) ++ codes "/") (codes t))) ≡ true
          → InsideDir t
      which true e k = inl ((eq_iff t (p.clean dir)).0 e)
      which false e k = prefixed _ t refl k

  joined :
      (P : String → Type 0) (b : Bool) (c : String) (e : Err) {t : String}
      → (b ≡ true → P c)
      → (if b then ok c else err e) ≡ ok t
      → P t
  joined P true c e k h = subst P (ok_eq h) (k refl)
  joined P false c e k h = cc

  -- What safeJoin returns: a clean path inside.
  abbrev Target : String → Type 0
  Target t = InsideDir t × ((x : String) × (t ≡ p.clean x))

  safe_join-Inside : (name : String) {t : String} → safe_join p dir name ≡ ok t → Target t
  unfolding safe_join
  safe_join-Inside name h =
      let c = p.clean (p.join dir name) in
      joined Target (is_safe p dir c) c _ (λ k. (is_safe-Inside c k, (p.join dir name, refl))) h

  -- An action whose calls all stay inside, whichever of them fail.
  record Stays (m : Exec Files (Unit {0})) : Type 0 where
    pub at : (f : Files) → CallsInside f.calls → CallsInside (m f).1.calls

  carry :
      {n : Exec Files (Unit {0})} (o : Result (Unit {0}) × Files)
      → Stays n
      → CallsInside o.1.calls
      → CallsInside (carry_on (λ _. n) o).1.calls
  carry (ok u, f) k h = k.at f h
  carry (err e, f) k h = h

  bind-Stays : {m n : Exec Files (Unit {0})} → Stays m → Stays n → Stays (m >>= λ _. n)
  unfolding ◌>>=◌
  bind-Stays {m} k l = record { at = λ f h. carry (m f) l (k.at f h) }

  call-Stays : (c : Call) → CallInside c → Stays (call c)
  unfolding call
  call-Stays c k = record { at = λ f h. (k, h) }

  module _ (stay : ParentsStay) where
    parent-Inside :
        (t : String) → Target t → InsideDir (p.parent t) ⊎ (p.parent t ≡ p.parent (p.clean dir))
    parent-Inside t (inl e, c) = inr (ap p.parent e)
    parent-Inside t (inr b, (x, q)) =
        inl (subst (λ y. InsideDir (p.parent y)) (sym q) (stay x (subst Below q b)))

    write_entry-Stays : (k : Kind) (name t : String) → Target t → Stays (write_entry p k name t)
    unfolding write_entry
    write_entry-Stays directory name t i = call-Stays (mkdir_all t) (inl i.0)
    write_entry-Stays regular name t i =
        bind-Stays (call-Stays (mkdir_all (p.parent t)) (parent-Inside t i))
          (bind-Stays (call-Stays (open_file t) i.0) (call-Stays (copy_to t) i.0))
    write_entry-Stays other name t i = record { at = λ f h. h }

    unpack-Stays :
        (k : Kind) (name : String) (r : Result String)
        → ((t : String) → r ≡ ok t → Target t)
        → Stays (unpack p k name r)
    unfolding unpack
    unpack-Stays k name (ok t) i = write_entry-Stays k name t (i t refl)
    unpack-Stays k name (err e) i = record { at = λ f h. h }

    extract-Stays : (a : Archive) → Stays (extract p dir a)
    unfolding extract
    extract-Stays finished = record { at = λ f h. h }
    extract-Stays broken = record { at = λ f h. h }
    extract-Stays stopped = record { at = λ f h. h }
    extract-Stays (entry k name rest) =
        bind-Stays (unpack-Stays k name (safe_join p dir name) (λ t h. safe_join-Inside name h))
          (extract-Stays rest)

    -- Whatever the archive holds and whichever calls of the file system fail, each file that Extract opens
    -- or writes is the release directory itself or has a path that begins with it and a separator, and so
    -- is each directory that it makes, but for the parent of the release directory; filepath.Dir of a
    -- clean path below the release directory is taken to be that directory or a path below it.
    pub extract-Inside :
        (a : Archive) (f : Files) → CallsInside f.calls → CallsInside (extract p dir a f).1.calls
    extract-Inside a f h = (extract-Stays a).at f h
