-- ===== src/Store/Steps.antt =====
-- What each primitive step of the store does to the disk, as rules in front of the rest of a block.
use qrx_node_suite.Prelude.{
  ℕ, ◌+◌, ◌≡◌, ap, sym, refl, String, Bool, true, false, some, none, Bool-cases, inl, inr,
}
use mathlib.Core.Path.{subst, subst₂}
use qrx_node_suite.Errors.{Err, io_failure, invalid_component, not_installed}
use qrx_node_suite.Exec.{Exec, ◌>>=◌, guard, done, reads}
use qrx_node_suite.Exec.Wp.{Wp, Wp-bind, Wp-weaken}
use qrx_node_suite.Store.{
  Disk, Store, Pointer, pointer, set_pointer, pointer_current, pointer_previous, pointer_staged,
  has, add_release, drop_release, syscall, unlink, validate, read_pointer, write_pointer_atomic,
  remove_pointer, mkdir_release, remove_release, stat_release, read_current, read_previous,
  read_staged, is_valid_component, on_disk,
}

abbrev pub Ends :
    {A : Type 0} → Exec Store A → Disk → (A → Disk → Type 0) → (Err → Disk → Type 0) → Type 0
Ends m d Q E = Wp (λ (s : Store). s.disk) m d Q E

pub ends_done :
    {A : Type 0} {Q : A → Disk → Type 0} {E : Err → Disk → Type 0} {d : Disk} (a : A)
    → Q a d
    → Ends (done a) d Q E
ends_done a h = record { at = λ s p. rw p h }

module _ {B : Type 0} {R : B → Disk → Type 0} {E : Err → Disk → Type 0} {d : Disk}
    (f : Unit {0} → Exec Store B) where
  pub then_syscall : ((e : Err) → E e d) → Ends (f tt) d R E → Ends (syscall >>= f) d R E
  unfolding syscall ◌>>=◌
  then_syscall bad h = record {
    at = λ s p. elim (Bool-cases (s.fails s.ticks)) [
      | inl y ↦ rw (y, p) (bad io_failure)
      | inr n ↦ rw n (h.at (record s { ticks = s.ticks + 1 }) p)
    ];
  }

  pub then_unlink :
      ((n : ℕ) → d.unlink_fails n ≡ true → E io_failure d)
      → Ends (f tt) d R E
      → Ends (unlink >>= f) d R E
  unfolding unlink ◌>>=◌
  then_unlink bad h = record {
    at = λ s p. elim (Bool-cases (s.unlink_fails s.ticks)) [
      | inl y ↦ rw (y, p) (bad s.ticks (subst (λ (x : Disk). x.unlink_fails s.ticks ≡ true) p y))
      | inr n ↦ rw n (h.at (record s { ticks = s.ticks + 1 }) p)
    ];
  }

  pub then_validate : ((e : Err) → E e d) → Ends (f tt) d R E → Ends (validate >>= f) d R E
  unfolding validate ◌>>=◌
  then_validate bad h = record {
    at = λ s p. elim (Bool-cases (is_valid_component s.component)) [
      | inl y ↦ rw y (h.at s p)
      | inr n ↦ rw (n, p) (bad (invalid_component s.component))
    ];
  }

  pub then_on_disk : (g : Disk → Disk) → Ends (f tt) (g d) R E → Ends (on_disk g >>= f) d R E
  unfolding ◌>>=◌
  then_on_disk g h = record { at = λ s p. h.at (record s { disk = g s.disk }) (ap g p) }

  pub then_guard :
      (b : Bool) (e : Err)
      → ((e : Err) → E e d)
      → (b ≡ true → Ends (f tt) d R E)
      → Ends (guard b e >>= f) d R E
  unfolding guard ◌>>=◌
  then_guard true e bad h = record { at = λ s p. (h refl).at s p }
  then_guard false e bad h = record { at = λ s p. rw p (bad e) }

on_disk_ends :
    {E : Err → Disk → Type 0} {d : Disk} (g : Disk → Disk)
    → Ends (on_disk g) d (λ a w. (w ≡ g d) × (a ≡ tt)) E
on_disk_ends g = record { at = λ s p. (ap g p, refl) }

-- A step with one successful outcome, in front of the rest.
pub then_exact :
    {A B : Type 0} {R : B → Disk → Type 0} {E : Err → Disk → Type 0} {d : Disk} {m : Exec Store A}
    (f : A → Exec Store B) {a : A} {w : Disk}
    → Ends m d (λ b u. (u ≡ w) × (b ≡ a)) E
    → Ends (f a) w R E
    → Ends (m >>= f) d R E
then_exact {R} {E} f h k =
    Wp-bind _ h (λ b u (p, q). subst₂ (λ x y. Ends (f x) y R E) (sym q) (sym p) k)

-- A step whose result is arbitrary.
pub then_same :
    {A B : Type 0} {R : B → Disk → Type 0} {E : Err → Disk → Type 0} {d : Disk} {m : Exec Store A}
    (f : A → Exec Store B) {w : Disk}
    → Ends m d (λ b u. u ≡ w) E
    → ((a : A) → Ends (f a) w R E)
    → Ends (m >>= f) d R E
then_same {R} {E} f h k =
    Wp-bind _ h (λ b u p. subst (λ (y : Disk). Ends (f b) y R E) (sym p) (k b))

-- The same, at the end of a block.
pub ends_exact :
    {A : Type 0} {Q : A → Disk → Type 0} {E : Err → Disk → Type 0} {d : Disk} {m : Exec Store A}
    {a : A} {w : Disk}
    → Ends m d (λ b u. (u ≡ w) × (b ≡ a)) E
    → Q a w
    → Ends m d Q E
ends_exact {Q} h k = Wp-weaken _ h (λ b u (p, q). subst₂ Q (sym q) (sym p) k) (λ e w x. x)

module _ {E : Err → Disk → Type 0} {d : Disk} (bad : (e : Err) → E e d) where
  read_ends : (p : Pointer) → Ends (read_pointer p) d (λ a w. (w ≡ d) × (a ≡ pointer p d)) E
  unfolding read_pointer
  read_ends p =
      then_validate _ bad (then_syscall _ bad (record { at = λ s h. (h, ap (pointer p) h) }))

  pub read_current_ends : Ends read_current d (λ a w. (w ≡ d) × (a ≡ d.current)) E
  unfolding read_current
  read_current_ends = read_ends pointer_current

  pub read_previous_ends : Ends read_previous d (λ a w. (w ≡ d) × (a ≡ d.previous)) E
  unfolding read_previous
  read_previous_ends = read_ends pointer_previous

  pub read_staged_ends : Ends read_staged d (λ a w. (w ≡ d) × (a ≡ d.staged)) E
  unfolding read_staged
  read_staged_ends = read_ends pointer_staged

  pub write_ends :
      (p : Pointer) (v : String)
      → Ends (write_pointer_atomic p v) d (λ a w. (w ≡ set_pointer p (some v) d) × (a ≡ tt)) E
  unfolding write_pointer_atomic
  write_ends p v = then_validate _ bad (
      then_syscall _ bad
        (then_syscall _ bad (then_syscall _ bad (on_disk_ends (set_pointer p (some v))))))

  pub mkdir_ends :
      (v : String) → Ends (mkdir_release v) d (λ a w. (w ≡ add_release v d) × (a ≡ tt)) E
  unfolding mkdir_release
  mkdir_ends v = then_syscall _ bad (on_disk_ends (add_release v))

  pub remove_release_ends :
      (v : String) → Ends (remove_release v) d (λ a w. (w ≡ drop_release v d) × (a ≡ tt)) E
  unfolding remove_release
  remove_release_ends v = then_syscall _ bad (on_disk_ends (drop_release v))

  read_has_ends :
      (v : String)
      → Ends
          (do present ← reads (λ (s : Store). has v s.releases); guard present (not_installed v))
          d
          (λ a w. (w ≡ d) × (has v d.releases ≡ true))
          E
  unfolding ◌>>=◌ guard
  read_has_ends v = record {
    at = λ s h. elim (Bool-cases (has v s.releases)) [
      | inl y ↦ rw y (h, subst (λ (w : Disk). has v w.releases ≡ true) h y)
      | inr n ↦ rw n (subst (λ (w : Disk). E (not_installed v) w) (sym h) (bad (not_installed v)))
    ];
  }

  pub stat_ends :
      (v : String) → Ends (stat_release v) d (λ a w. (w ≡ d) × (has v d.releases ≡ true)) E
  unfolding stat_release
  stat_ends v = then_syscall _ bad (read_has_ends v)

pub remove_pointer_ends :
    {E : Err → Disk → Type 0} {d : Disk} (p : Pointer)
    → ((n : ℕ) → d.unlink_fails n ≡ true → E io_failure d)
    → Ends (remove_pointer p) d (λ a w. (w ≡ set_pointer p none d) × (a ≡ tt)) E
unfolding remove_pointer
remove_pointer_ends p bad = then_unlink _ bad (on_disk_ends (set_pointer p none))
