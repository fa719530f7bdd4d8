-- ===== src/Store/Switch.antt =====
-- Where PromoteVersion leaves the active pointer, whichever of its steps fails.
use qrx_node_suite.Prelude.{
  Bool-cases, ◌≡◌, ◌⊎◌, refl, ap, ◌∙◌, inl, inr, String, true, Option, none, some, eq_iff,
}
use qrx_node_suite.Errors.{Err}
use qrx_node_suite.Exec.{◌>>=◌, ◌>>◌}
use qrx_node_suite.Exec.Wp.{Wp-weaken}
use qrx_node_suite.Store.Steps.{
  Ends, ends_done, ends_exact, write_ends, then_same, then_validate, then_exact, stat_ends,
  read_current_ends,
}
use qrx_node_suite.Store.{
  Disk, names, promote_version, switch_from, keep_previous, write_pointer_atomic, pointer_current,
  pointer_previous,
}

-- The active pointer is as it was, or on the version.
pub record Moved (v : String) (d u : Disk) : Type 0 where
  pub moved : (u.current ≡ d.current) ⊎ (u.current ≡ some v)

named : (cur : Option String) (v : String) → names cur v ≡ true → cur ≡ some v
named none v h = cc
named (some w) v h = ap some ((eq_iff w v).0 h)

write_switch :
    (v : String) (cur : Option String) {d : Disk}
    → Ends
        (do keep_previous cur; write_pointer_atomic pointer_current v)
        d
        (λ a u. u.current ≡ some v)
        (λ e u. Moved v d u)
unfolding keep_previous ◌>>=◌
write_switch v none {d} = record {
  at = λ s p.
      (ends_exact {Q = λ (a : Unit {0}) (u : Disk). u.current ≡ some v} {E = λ e u. Moved v d u}
          (write_ends (λ e. record { moved = inl refl }) pointer_current v) refl).at
        s p;
}
write_switch v (some w) =
    then_exact _ (write_ends (λ e. record { moved = inl refl }) pointer_previous w)
      (ends_exact (write_ends (λ e. record { moved = inl refl }) pointer_current v) refl)

switch_from_ends :
    (v : String) (cur : Option String) {d : Disk}
    → d.current ≡ cur
    → Ends (switch_from v cur) d (λ a u. u.current ≡ some v) (λ e u. Moved v d u)
unfolding switch_from
switch_from_ends v cur q = elim (Bool-cases (names cur v)) [
  | inl y ↦ rw y (ends_done tt (q ∙ named cur v y))
  | inr n ↦ rw n (write_switch v cur)
]

-- PromoteVersion activates the version, or leaves the active pointer where it was or on the version.
pub promote_version-Moved :
    (v : String) {d : Disk}
    → Ends (promote_version v) d (λ a u. u.current ≡ some v) (λ e u. Moved v d u)
unfolding promote_version
promote_version-Moved v {d} = then_validate _ bad (
    then_same _ (Wp-weaken _ (stat_ends bad v) (λ a w q. q.0) (λ e w q. q))
      λ a. then_exact _ (read_current_ends bad) (switch_from_ends v d.current refl))
  where
    bad : Err → Moved v d d
    bad e = record { moved = inl refl }
