-- ===== src/Store/Tests.antt =====
-- Concrete stores, and the theorems of the store applied to them.
use qrx_node_suite.Prelude.{
  ap, eq_iff, ℕ, ◌≡◌, ◌≢◌, refl, Bool, true, false, none, some, [], ◌∷◌, eqb,
}
use qrx_node_suite.Errors.{io_failure}
use qrx_node_suite.Store.{is_valid_component, Store, has, promote, discard_staged}
use qrx_node_suite.Store.Promote.{promote-discard_active}
use qrx_node_suite.Store.Live.{IsLive, IsSpare}
use qrx_node_suite.Store.Prune.{prune, Pruned, is_referenced, prune-Pruned}

abbrev never : ℕ → Bool
never n = false

-- 1.0.0 is active, 0.9.0 is the rollback target, 1.1.0 is staged.
abbrev updating : Store
updating = record {
  component = "agent";
  disk = record {
    current = some "1.0.0";
    previous = some "0.9.0";
    staged = some "1.1.0";
    releases = "1.1.0" ∷ "1.0.0" ∷ "0.9.0" ∷ "0.8.0" ∷ [];
    unlink_fails = never;
  };
  ticks = 0;
  fails = never;
}

updating-IsLive : IsLive updating.disk
unfolding has
updating-IsLive = record { current_live = refl; previous_live = refl }

updating-IsSpare : IsSpare updating.disk
unfolding has
updating-IsSpare = record { apart_current = refl; apart_previous = refl; staged_present = refl }

-- The removal of the staged pointer, the ninth call of Promote, fails.
abbrev stuck : Store
stuck = record updating { disk = record (updating.disk) { unlink_fails = λ n. eqb n 8 } }

prune-Pruned_example : Pruned (is_referenced updating.disk) updating.disk (prune 0 updating).1.disk
prune-Pruned_example = prune-Pruned 0 updating

newer : updating.current ≢ some "1.1.0"
newer h = different ((eq_iff "1.0.0" "1.1.0").1 (ap (λ o. elim o [ none ↦ "" | some v ↦ v ]) h))
  where
    different : false ≢ true
    different e = cc

promote-discard_active_example :
    let u = (discard_staged true (promote stuck).1).1 in
    (u.current ≡ some "1.1.0") × (has "1.1.0" u.releases ≡ false)
unfolding promote discard_staged has is_valid_component
promote-discard_active_example =
    promote-discard_active stuck "1.1.0" io_failure refl newer refl refl refl
