-- ===== src/Updates/SelfUpdate/Resume.antt =====
-- agent/updates/selfupdate.go: where ResumeSelfUpdate leaves the pointers, and what its row says.
use qrx_node_suite.Prelude.{
  ◌≡◌, ◌⊎◌, inl, inr, refl, sym, ap, ◌∙◌, String, false, Option, none, some,
}
use mathlib.Core.Path.{subst}
use qrx_node_suite.Errors.{Result, ok, err}
use qrx_node_suite.Exec.{Exec, ◌>>=◌, done, attempt, as_error, ignoring}
use qrx_node_suite.Exec.Wp.{ok_eq, Post, Wp-bind, Wp-weaken, Wp_of_both, both_of_Wp}
use qrx_node_suite.Policy.{delete, boot_attempts, PendingSelfUpdate}
use qrx_node_suite.Store.{Store, Disk, rollback_to_previous}
use qrx_node_suite.Store.Live.{IsLive, rollback_to_previous-IsLive}
use qrx_node_suite.Store.Prune.{prune, prune-IsLive, prune-Pruned}
use qrx_node_suite.Store.Promote.{rollback_ok, rollback_outcomes}
use qrx_node_suite.World.{
  World, sets, HistoryRecord, status_succeeded, status_failed, status_rolled_back, on_store,
}
use qrx_node_suite.World.Ends.{
  View, Ends-eq, then_attempt, view, Ends, then_frames, asks-Frames, insert-Frames, outside-Frames,
  done-Frames, sets_ends,
}
use qrx_node_suite.Updates.Install.{Manager, retained}
use qrx_node_suite.Updates.Install.Accepted.{controller-Frames}
use qrx_node_suite.Updates.SelfUpdate.{
  marker_of, row, verdict, clear_boot_attempts, revert, commit, conclude, resume,
  resume_self_update,
}

-- What the row of a resumed self-update says of the pointers: it committed and they stand, or it went
-- back to the rollback target, or the way back failed.
pub data Told (d u : Disk) : HistoryRecord → Type 0 where
  committed :
      {r : HistoryRecord}
      → r.status ≡ status_succeeded
      → u.current ≡ d.current
      → u.previous ≡ d.previous
      → Told d u r
  reverted :
      {r : HistoryRecord} → r.status ≡ status_rolled_back → u.current ≡ d.previous → Told d u r
  not_reverted :
      {r : HistoryRecord}
      → r.status ≡ status_failed
      → (u.current ≡ d.current) ⊎ (u.current ≡ d.previous)
      → Told d u r

-- A row that tells the truth, over live releases.
pub record Closed (d u : Disk) (r : HistoryRecord) : Type 0 where
  pub live : IsLive u
  pub told : Told d u r

module _ (m : Manager) (component : String) (p : PendingSelfUpdate) where
  reverting :
      (s : Store) (o : Result (Unit {0}) × Store)
      → rollback_to_previous s ≡ o
      → IsLive s.disk
      → Closed s.disk o.1.disk (verdict component p (as_error o.0))
  reverting s (ok a, t) e l = record {
    live =
        subst (λ (x : Result (Unit {0}) × Store). IsLive x.1.disk) e
          (rollback_to_previous-IsLive s l);
    told = reverted refl (
        ap (λ (x : Result (Unit {0}) × Store). x.1.disk.current) (sym e)
        ∙ (rollback_ok s (ap (λ (x : Result (Unit {0}) × Store). x.0) e)).1);
  }
  reverting s (err x, t) e l = record {
    live =
        subst (λ (x : Result (Unit {0}) × Store). IsLive x.1.disk) e
          (rollback_to_previous-IsLive s l);
    told = not_reverted refl (
        subst
          (λ (x : Result (Unit {0}) × Store).
            (x.1.disk.current ≡ s.disk.current) ⊎ (x.1.disk.current ≡ s.disk.previous))
          e pointer);
  }
    where
      pointer :
          ((rollback_to_previous s).1.disk.current ≡ s.disk.current)
          ⊎ ((rollback_to_previous s).1.disk.current ≡ s.disk.previous)
      pointer = elim (rollback_outcomes s) [
        | inl a ↦ inl a.0
        | inr (inl b) ↦ inr b.0
        | inr (inr c) ↦ inr c.0
      ]

  -- A conclusion: its row tells the truth; it does not fail.
  record Concludes (x : Exec World HistoryRecord) (v : View) : Type 0 where
    ends : Ends x v (λ r u. Closed v.1 u.1 r) (λ e u. IsLive u.1)

  revert-Concludes : {v : View} → IsLive v.1 → Concludes (revert m component p) v
  unfolding revert on_store attempt ◌>>=◌
  revert-Concludes {v} l = record { ends = record { at = λ s q. at s q } }
    where
      at :
          (s : World)
          → view s ≡ v
          → Closed v.1
              (rollback_to_previous s.store).1.disk
              (verdict component p (as_error (rollback_to_previous s.store).0))
      at s q =
          subst
            (λ (x : Disk).
              Closed x (rollback_to_previous s.store).1.disk
                (verdict component p (as_error (rollback_to_previous s.store).0)))
            (ap (λ (x : View). x.1) q)
            (reverting s.store (rollback_to_previous s.store) refl
              (subst (λ (x : View). IsLive x.1) (sym q) l))

  commit-Concludes : {v : View} → IsLive v.1 → Concludes (commit m component p) v
  unfolding commit ignoring on_store ◌>>=◌
  commit-Concludes {v} l = record {
    ends = record { at = λ s q. kept s (ap (λ (x : View). x.1) q) };
  }
    where
      kept :
          (s : World)
          → s.store.disk ≡ v.1
          → Closed v.1
              (prune (retained m.retain_versions) s.store).1.disk
              (row component p status_succeeded false)
      kept s q =
          let k = prune-Pruned (retained m.retain_versions) s.store in
          record {
            live = prune-IsLive (retained m.retain_versions) s.store (subst IsLive (sym q) l);
            told =
                committed refl (k.current_same ∙ ap (λ (x : Disk). x.current) q)
                  (k.previous_same ∙ ap (λ (x : Disk). x.previous) q);
          }

  conclude-Concludes : {v : View} → IsLive v.1 → Concludes (conclude m component p) v
  unfolding conclude
  conclude-Concludes l = record {
    ends =
        then_attempt _ outside-Frames (λ a q. (commit-Concludes l).ends)
          (λ e. (revert-Concludes l).ends);
  }

  clear_ends :
      {v : View} → Ends (clear_boot_attempts component) v (λ a u. u.1 ≡ v.1) (λ e u. u.1 ≡ v.1)
  unfolding clear_boot_attempts ignoring
  clear_ends {v} = Wp_of_both _ {P = λ (u : View). u.1 ≡ v.1} λ s q.
      both_of_Wp _ {P = λ (u : View). u.1 ≡ v.1} {m = sets (delete (boot_attempts component))} s
        (Ends-eq q (Wp-weaken _ (sets_ends _) (λ a u k. k) (λ e u k. ap (λ (x : View). x.1) k)))

  resume_ends :
      {v : View}
      → IsLive v.1
      → Ends
          (resume m component p)
          v
          (λ o u. (r : HistoryRecord) × (o ≡ some r) × Closed v.1 u.1 r)
          (λ e u. IsLive u.1)
  unfolding resume
  resume_ends {v} l =
      Wp-bind _ (Wp-weaken _ clear_ends (λ a u q. q) (λ e u q. subst IsLive (sym q) l)) λ a u q.
        then_frames _ (controller-Frames m component) (λ e. subst IsLive (sym q) l)
          λ ctrl known. Wp-bind _ (conclude-Concludes (subst IsLive (sym q) l)).ends λ r t c.
            then_frames _ (insert-Frames r) (λ e. c.live)
              λ id a2.
                Wp-bind _
                  (Wp-weaken _ (sets_ends _)
                    (λ b x k. subst (λ (d : Disk). Closed u.1 d r) (sym k) c)
                    (λ e x k. subst (λ (y : View). IsLive y.1) (sym k) c.live))
                  λ b x k.
                    Wp-weaken _ (done-Frames (some r)).ends
                      (λ o y g. (
                        r,
                        g.1,
                        subst (λ (z : View). Closed v.1 z.1 r) (sym g.0)
                            (subst (λ (d : Disk). Closed d x.1 r) q k),
                      ))
                      (λ e y g. subst (λ (z : View). IsLive z.1) (sym g) k.live)

resume_self_update_ends :
    (m : Manager) (component : String) {v : View}
    → IsLive v.1
    → Ends
        (resume_self_update m component)
        v
        (λ o u. IsLive u.1 × ((r : HistoryRecord) → o ≡ some r → Closed v.1 u.1 r))
        (λ e u. IsLive u.1)
unfolding resume_self_update
resume_self_update_ends m component {v} l =
    then_frames _ (asks-Frames (marker_of component)) (λ e. l) λ o a. go o
  where
    absurd : {o : Option HistoryRecord} {r : HistoryRecord} {P : Type 0} → o ≡ none → o ≡ some r → P
    absurd e f = cc

    some_eq : {q r : HistoryRecord} → some q ≡ some r → q ≡ r
    some_eq e = cc

    given :
        {d : Disk} {q r : HistoryRecord} {o : Option HistoryRecord} {u : Disk}
        → o ≡ some q
        → Closed d u q
        → o ≡ some r
        → Closed d u r
    given {d} {q} {r} {o} {u} e c f = subst (λ x. Closed d u x) (some_eq (sym e ∙ f)) c

    go :
        (o : Option PendingSelfUpdate)
        → Ends
            (elim o as (λ k. Exec World (Option HistoryRecord)) [
              | none ↦ done none
              | some q ↦ resume m component q
            ])
            v
            (λ o u. IsLive u.1 × ((r : HistoryRecord) → o ≡ some r → Closed v.1 u.1 r))
            (λ e u. IsLive u.1)
    go none =
        Wp-weaken _ (done-Frames none).ends
          (λ o u q. (subst (λ (x : View). IsLive x.1) (sym q.0) l, λ r e. absurd q.1 e))
          (λ e u q. subst (λ (x : View). IsLive x.1) (sym q) l)
    go (some p) =
        Wp-weaken _ (resume_ends m component p l) (λ o u (q, e, c). (c.live, λ r f. given e c f))
          (λ e u q. q)

-- However ResumeSelfUpdate ends, whatever call fails, the active version and the rollback target are on
-- disk, if they were before. If it then returns a row, the row tells the truth: after `succeeded` both pointers are where they
-- were, after `rolled_back` the rollback target is active, and after `failed` either version is.
pub resume_self_update-Closed :
    (m : Manager) (component : String) (w : World)
    → IsLive w.store.disk
    → let (o, t) = resume_self_update m component w in
      IsLive t.store.disk
      × ((r : HistoryRecord) → o ≡ ok (some r) → Closed w.store.disk t.store.disk r)
resume_self_update-Closed m component w l =
    split (resume_self_update m component w) ((resume_self_update_ends m component l).at w refl)
  where
    split :
        (x : Result (Option HistoryRecord) × World)
        → Post
            (λ (y : World). view y)
            (λ o u. IsLive u.1 × ((r : HistoryRecord) → o ≡ some r → Closed w.store.disk u.1 r))
            (λ e u. IsLive u.1)
            x
        → IsLive x.1.store.disk
          × ((r : HistoryRecord) → x.0 ≡ ok (some r) → Closed w.store.disk x.1.store.disk r)
    split (ok o, t) k = (k.0, λ r e. k.1 r (ok_eq e))
    split (err e, t) k = (k, λ r f. cc)
