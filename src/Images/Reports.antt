-- ===== src/Images/Reports.antt =====
-- What a sync reports: the names it has imported, and what stays of the last good sync.
use controller.Base.{
  ℕ, String, true, ◌≡◌, refl, ap, ◌&&◌, flip, List, [], ◌∷◌, contains, ◌==◌, arith, eq_iff, eq_refl,
  Bool-cases, inl, inr,
}
use controller.Base.Effects.{Error, err, message, World, ◌>>=◌}
use controller.Api.ImageRepository.{ImageRepository}
use controller.Images.Client.{ImageClient, Call, update_status}
use controller.Images.Sync.{uniq}
use controller.Images.Reconcile.{
  condition, with_condition, observed, report, report_failure, sync_repo, sync_now,
}
use controller.Images.Keyed.{IsUnique}

contains-same :
    (seen : List String) (x n : String) → (x == n) ≡ true → contains seen x ≡ contains seen n
contains-same seen x n h = ap (contains seen) (ground (arith, h, eq_iff x n))

contains-uniq :
    (seen xs : List String) (n : String)
    → contains (uniq seen xs) n ≡ (contains xs n && flip (contains seen n))
unfolding uniq
contains-uniq seen [] n = refl
contains-uniq seen (x ∷ xs) n = elim (Bool-cases (x == n)) [
  | inl same ↦ ground (
    arith,
    same,
    contains-same seen x n same,
    contains-uniq seen xs n,
    contains-uniq (x ∷ seen) xs n,
  )
  | inr other ↦ ground (arith, other, contains-uniq seen xs n, contains-uniq (x ∷ seen) xs n)
]

uniq-IsUnique : (seen xs : List String) → IsUnique (λ s. s) (uniq seen xs)
unfolding uniq
uniq-IsUnique seen [] = tt
uniq-IsUnique seen (x ∷ xs) = elim (Bool-cases (contains seen x)) [
  | inl held ↦ rw held (uniq-IsUnique seen xs)
  | inr new ↦
      rw new (ground (arith, contains-uniq (x ∷ seen) xs x, eq_refl x), uniq-IsUnique (x ∷ seen) xs)
]

-- The names that a sync reports are those of the imported files, each once.
pub imported_names_are_a_set :
    (xs : List String) (n : String)
    → (contains (uniq [] xs) n ≡ contains xs n) × IsUnique (λ s. s) (uniq [] xs)
imported_names_are_a_set xs n = (ground (arith, contains-uniq [] xs n), uniq-IsUnique [] xs)

module _ {S : Type 0} (api : ImageClient S) where
  -- A sync that fails ends the reconcile with its error, after one update of the status that has
  -- observed the generation and keeps the time, the commit and the images of the last good sync.
  pub failed_sync_keeps_last :
      (repo : ImageRepository) (interval : ℕ) (w : World S Call) (e : Error)
      → (sync_repo api repo w).0 ≡ err e
      → let failed = sync_repo api repo w in
        let now = (api.now failed.1.server).0 in
        let kept =
          observed api (with_condition api repo (condition "False" "SyncFailed" (message e) now)) in
        ((sync_now api repo interval w).0 ≡ err e)
        × ((sync_now api repo interval w).1.calls ≡ update_status kept ∷ failed.1.calls)
        × (kept.status.last_sync_time ≡ repo.status.last_sync_time)
        × (kept.status.last_sync_commit ≡ repo.status.last_sync_commit)
        × (kept.status.imported_images ≡ repo.status.imported_images)
        × (kept.status.observed_generation ≡ repo.generation)
  unfolding sync_now report report_failure with_condition ◌>>=◌
  failed_sync_keeps_last repo interval w e h =
      (ground (arith, h), ground (arith, h), refl, refl, refl, refl)
