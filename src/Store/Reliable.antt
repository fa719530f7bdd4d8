-- ===== src/Store/Reliable.antt =====
-- Where a pointer can always be removed, a Promote that fails leaves the staged release spare, so that
-- discarding it deletes nothing live.
use qrx_node_suite.Prelude.{
  ℕ, ◌≡◌, refl, sym, ap, ◌∙◌, String, Bool, true, false, Option, none, some,
}
use qrx_node_suite.Errors.{nothing_staged}
use qrx_node_suite.Store.{
  Store, Disk, stage, discard_staged, promote, read_current, write_pointer_atomic, remove_pointer,
  set_pointer, pointer_previous, pointer_current, pointer_staged, keep_previous,
}
use qrx_node_suite.Exec.{Exec, fail, ◌>>=◌, ◌>>◌}
use mathlib.Core.Path.{subst}
use qrx_node_suite.Exec.Wp.{Wp-weaken, Wp_of_both, Wp_and}
use qrx_node_suite.Store.Live.{
  Active, IsLive, IsSpare, Apart, stage_ends, promote-IsLive, discard_staged-IsLive,
}
use qrx_node_suite.Store.Prune.{prune, prune-Pruned, prune-IsLive}
use qrx_node_suite.Store.Steps.{
  Ends, then_exact, read_current_ends, read_staged_ends, write_ends, remove_pointer_ends,
  ends_exact,
}

abbrev pub IsReliable : Disk → Type 0
IsReliable d = (n : ℕ) → d.unlink_fails n ≡ false

Spare_demote :
    (cur : String) {d : Disk}
    → d.current ≡ some cur
    → IsSpare d
    → IsSpare (set_pointer pointer_previous (some cur) d)
Spare_demote cur {d} q k = record {
  apart_current = k.apart_current;
  apart_previous = subst (Apart d.staged) q k.apart_current;
  staged_present = k.staged_present;
}

-- The rest of Promote after the rollback target is written: the activation and the removal.
activate_ends :
    (v : String) {d : Disk}
    → IsReliable d
    → IsSpare d
    → Ends
        (do write_pointer_atomic pointer_current v; remove_pointer pointer_staged)
        d
        (λ a u. u.current ≡ some v)
        (λ e u. IsSpare u)
activate_ends v {d} r k =
    then_exact _ (write_ends (λ e. k) pointer_current v)
      (ends_exact (remove_pointer_ends pointer_staged (λ n p. absurd (r n) p)) refl)
  where
    absurd : {n : ℕ} {P : Type 0} → d.unlink_fails n ≡ false → d.unlink_fails n ≡ true → P
    absurd f t = cc

switch_ends :
    (v : String) (cur : Option String) {d : Disk}
    → d.current ≡ cur
    → IsReliable d
    → IsSpare d
    → Ends
        (do
          keep_previous cur
          write_pointer_atomic pointer_current v
          remove_pointer pointer_staged)
        d
        (λ a u. u.current ≡ some v)
        (λ e u. IsSpare u)
unfolding keep_previous ◌>>=◌
switch_ends v none q r k = record { at = λ s p. (activate_ends v r k).at s p }
switch_ends v (some cur) q r k =
    then_exact _ (write_ends (λ e. k) pointer_previous cur)
      (activate_ends v r (Spare_demote cur q k))

-- A Promote activates the staged version, or leaves the staged release spare.
pub promote_ends :
    {d : Disk}
    → IsReliable d
    → IsSpare d
    → Ends promote d (λ a u. u.current ≡ d.staged) (λ e u. IsSpare u)
unfolding promote
promote_ends {d} r k = then_exact _ (read_staged_ends (λ e. k)) (go d.staged refl)
  where
    go :
        (o : Option String)
        → d.staged ≡ o
        → Ends {A = Unit {0}}
            (elim o as (λ k. Exec Store (Unit {0})) [
              | none ↦ fail nothing_staged
              | some v ↦ do
                cur ← read_current
                keep_previous cur
                write_pointer_atomic pointer_current v
                remove_pointer pointer_staged
            ])
            d
            (λ a u. u.current ≡ o)
            (λ e u. IsSpare u)
    go none q = record { at = λ s p. subst IsSpare (sym p) k }
    go (some v) q = then_exact _ (read_current_ends (λ e. k)) (switch_ends v d.current refl r k)

-- What a Stage that succeeds leaves.
pub record Staged (v : String) (d : Disk) : Type 0 where
  pub live : IsLive d
  pub spare : IsSpare d
  pub on_version : d.staged ≡ some v
  pub reliable : IsReliable d

pub stage-Staged :
    (v : String) {d : Disk}
    → IsReliable d
    → IsLive d
    → Ends (stage v) d (λ a u. Staged v u) (λ e u. IsLive u)
stage-Staged v {d} r l =
    Wp-weaken _ (stage_ends v l)
      (λ a u q. record {
        live = q.0;
        spare = q.1;
        on_version = q.2;
        reliable = λ n. ap (λ (f : ℕ → Bool). f n) q.3 ∙ r n;
      })
      (λ e u q. q)

-- Promote on what Stage left.
pub promote-Staged :
    (v : String) {d : Disk}
    → Staged v d
    → Ends promote d (λ a u. Active v u) (λ e u. IsLive u × IsSpare u)
promote-Staged v {d} k =
    Wp-weaken _
      (Wp_and _ {P = IsLive}
        (λ s p. promote-IsLive s (subst IsLive (sym p) k.live) (subst IsSpare (sym p) k.spare))
        (promote_ends k.reliable k.spare))
      (λ a u q. record { live = q.0; on_version = q.1 ∙ k.on_version }) (λ e u q. q)

pub discard_ends :
    {d : Disk}
    → IsLive d
    → IsSpare d
    → Ends (discard_staged true) d (λ a u. IsLive u) (λ e u. IsLive u)
discard_ends l k =
    Wp_of_both _
      (λ s p. discard_staged-IsLive true s (subst IsLive (sym p) l) (subst IsSpare (sym p) k))

pub prune-Active :
    (n : ℕ) (v : String) {d : Disk}
    → Active v d
    → Ends (prune n) d (λ a u. Active v u) (λ e u. Active v u)
prune-Active n v {d} h = Wp_of_both _ {P = Active v} λ s p. record {
  live = prune-IsLive n s (subst IsLive (sym p) h.live);
  on_version = (prune-Pruned n s).current_same ∙ ap (λ (x : Disk). x.current) p ∙ h.on_version;
}
