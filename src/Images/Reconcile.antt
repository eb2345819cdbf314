-- ===== src/Images/Reconcile.antt =====
-- imagerepository_controller.go: checkoutImageRepositoryRef, the whole of syncRepo, and Reconcile.
use controller.Base.{
  ℕ, ◌+◌, ◌-◌, ◌*◌, ℤ, pos, negsuc, String, ◌<>◌, Bool, ◌&&◌, flip, Option, none, some, List, [],
  ◌∷◌, length, delete, has_key, ltb, nat_eq, ◌/=◌, if◌then◌else◌,
}
use controller.Base.Effects.{
  Error, Result, ok, err, fault, message, pure, raise, attempt, find, when, ◌>>=◌, ◌>>◌, reads,
  observes, writes,
}
use controller.Api.Meta.{Condition}
use controller.Api.ImageRepository.{ImageRepository, ImageRepositoryStatus}
use controller.Images.Client.{ImageClient, Run, update_repository, update_status, remove_dir}
use controller.Images.Files.{image_repository_files}
use controller.Images.Sync.{
  SyncResult, image_repository_sync_anno, uniq, finally, sync_files, prune_images,
  image_repository_auth,
}

abbrev pub default_sync_interval : ℕ
default_sync_interval = 600 * 1000000000

unfoldable pub interval_of : Option ℤ → ℕ
interval_of none = default_sync_interval
interval_of (some (pos n)) = if nat_eq n 0 then default_sync_interval else n
interval_of (some (negsuc n)) = default_sync_interval

abbrev pub set_status : ImageRepository → ImageRepositoryStatus → ImageRepository
set_status repo status = record { meta = repo.meta; spec = repo.spec; status = status }

abbrev pub condition : (status reason message : String) → ℕ → Condition
condition status reason message now = record {
  type = "Ready";
  status = status;
  observed_generation = 0;
  last_transition_time = now;
  reason = reason;
  message = message;
}

unfoldable pub is_forced : ImageRepository → Bool
is_forced repo = has_key repo.annotations image_repository_sync_anno

unfoldable pub clear_sync : ImageRepository → ImageRepository
clear_sync repo = record {
  meta = record repo.meta { annotations = delete image_repository_sync_anno repo.annotations };
  spec = repo.spec;
  status = repo.status;
}

-- Where no directory is named.
abbrev pub paths_of : List String → List String
paths_of [] = "images" ∷ []
paths_of (p ∷ ps) = p ∷ ps

module _ {S : Type 0} (api : ImageClient S) where
  abbrev pub replace_error {ℓ} : {A : Type ℓ} → Error → (S → Result A × S) → S → Result A × S
  replace_error e f s = (elim (f s).0 [ ok a ↦ ok a | err _ ↦ err e ], (f s).1)

  abbrev pub or_remote : (dir ref : String) → Result String → Run S String
  or_remote dir ref (ok hash) = pure hash
  or_remote dir ref (err _) = reads (
      replace_error (fault "requested git ref could not be resolved")
        (api.resolve_revision dir ("refs/remotes/origin/" <> ref)))

  unfoldable pub resolve_ref : (dir ref : String) → Run S String
  resolve_ref dir ref = do
    first ← attempt (reads (api.resolve_revision dir ref))
    or_remote dir ref first

  unfoldable pub checkout_image_repository_ref : (dir ref : String) → Run S (Unit {0})
  checkout_image_repository_ref dir ref = do
    hash ← resolve_ref dir ref
    reads (replace_error (fault "failed to open repository worktree") (api.open_worktree dir))
    reads (replace_error (fault "failed to check out requested git ref") (api.checkout dir hash))

  unfoldable pub sync_clone : ImageRepository → String → Run S SyncResult
  sync_clone repo dir = do
    auth ← image_repository_auth api repo.spec.auth
    reads (
        replace_error (fault "failed to clone repository; check URL and credentials")
          (api.clone dir repo.spec.url (repo.spec.ref /= "") auth))
    when (repo.spec.ref /= "") (checkout_image_repository_ref dir repo.spec.ref)
    commit ← reads (api.head dir)
    files ← image_repository_files api dir (paths_of repo.spec.paths)
    done ← sync_files api repo commit dir files
    prune_images api repo done.0 done.1
    pure (record { commit = commit; imported = uniq [] done.0; invalid_files = done.1 })

  -- What fails in removing the directory is only logged.
  abbrev pub drop_dir : String → Run S (Unit {0})
  drop_dir dir = do _ ← attempt (writes (remove_dir dir) (api.remove_all dir)); pure tt

  unfoldable pub sync_repo : ImageRepository → Run S SyncResult
  sync_repo repo = do dir ← reads api.make_temp_dir; finally (sync_clone repo dir) (drop_dir dir)

  unfoldable pub with_condition : ImageRepository → Condition → ImageRepository
  with_condition repo c =
      set_status repo
        (record repo.status { conditions = api.set_status_condition c repo.status.conditions })

  -- A status update whose error is dropped.
  abbrev pub try_status : ImageRepository → Run S (Unit {0})
  try_status repo = do _ ← attempt (writes (update_status repo) (api.status_update repo)); pure tt

  -- Reconcile returns when to run again, `none` for no request.
  unfoldable pub report_suspended : ImageRepository → Run S (Option ℕ)
  report_suspended repo = do
    now ← observes api.now
    try_status (with_condition repo (condition "False" "Suspended" "Syncing is suspended" now))
    pure none

  abbrev pub observed : ImageRepository → ImageRepository
  observed repo = set_status repo (record repo.status { observed_generation = repo.generation })

  unfoldable pub report_failure : ImageRepository → Error → Run S (Option ℕ)
  report_failure repo e = do
    now ← observes api.now
    try_status (observed (with_condition repo (condition "False" "SyncFailed" (message e) now)))
    raise e

  abbrev pub stored_or : ImageRepository → Result ImageRepository → ImageRepository
  stored_or cleared (ok stored) = stored
  stored_or cleared (err _) = cleared

  -- The repository as it is known after the request to sync is taken back.
  unfoldable pub take_request : ImageRepository → Run S ImageRepository
  take_request repo = if flip (is_forced repo) then pure repo else do
    let cleared = clear_sync repo
    written ← attempt (writes (update_repository cleared) (api.repository_update cleared))
    pure (stored_or cleared written)

  unfoldable pub record_sync : ImageRepository → SyncResult → ℕ → ImageRepository
  record_sync repo done now = set_status repo (record {
    conditions = repo.status.conditions;
    last_sync_time = some now;
    last_sync_commit = done.commit;
    imported_images = done.imported;
    observed_generation = repo.generation;
  })

  unfoldable pub synced_message : List String → String
  synced_message imported = "Synced " <> api.format_nat (length imported) <> " image(s)"

  unfoldable pub invalid_message : String → List String → String
  invalid_message file files =
      "Skipped "
      <> api.format_nat (length (file ∷ files))
      <> " invalid manifest(s); pruning withheld. First invalid file: "
      <> api.first_200 file

  abbrev pub report_invalid : ImageRepository → List String → Run S ImageRepository
  report_invalid repo [] = pure repo
  report_invalid repo (file ∷ files) = do
    now ← observes api.now
    pure (
        with_condition repo (condition "False" "InvalidManifests" (invalid_message file files) now))

  unfoldable pub report_synced : ImageRepository → ℕ → SyncResult → Run S (Option ℕ)
  report_synced repo interval done = do
    taken ← take_request repo
    time ← observes api.now
    now ← observes api.now
    reported ←
        report_invalid
          (with_condition (record_sync taken done time)
            (condition "True" "Synced" (synced_message done.imported) now))
          done.invalid_files
    _ ← writes (update_status reported) (api.status_update reported)
    seconds ← observes (api.jitter interval)
    pure (some seconds)

  unfoldable pub report : ImageRepository → ℕ → Result SyncResult → Run S (Option ℕ)
  report repo interval (ok done) = report_synced repo interval done
  report repo interval (err e) = report_failure repo e

  unfoldable pub sync_now : ImageRepository → ℕ → Run S (Option ℕ)
  sync_now repo interval = do result ← attempt (sync_repo repo); report repo interval result

  abbrev pub is_ready : ImageRepository → Bool
  is_ready repo = api.is_status_condition_true repo.status.conditions "Ready"

  -- A clock that runs backwards gives a time since the last sync that is below any interval.
  unfoldable pub sync_unless_recent : ImageRepository → ℕ → ℕ → Run S (Option ℕ)
  sync_unless_recent repo interval last = do
    now ← observes api.now
    let fresh = ltb now (last + interval) && is_ready repo
    if fresh then pure (some (interval + last - now)) else sync_now repo interval

  unfoldable pub sync_with : ImageRepository → Option ℕ → Run S (Option ℕ)
  sync_with repo none = sync_now repo (interval_of repo.spec.sync_interval)
  sync_with repo (some last) = sync_unless_recent repo (interval_of repo.spec.sync_interval) last

  -- The time of the last sync, where it holds back another one.
  abbrev pub held_back : ImageRepository → Option ℕ
  held_back repo =
      if flip (is_forced repo) && nat_eq repo.status.observed_generation repo.generation
      then repo.status.last_sync_time
      else none

  unfoldable pub reconcile_repository : ImageRepository → Run S (Option ℕ)
  reconcile_repository repo =
      if repo.spec.suspend then report_suspended repo else sync_with repo (held_back repo)

  abbrev pub reconcile_found : Option ImageRepository → Run S (Option ℕ)
  reconcile_found none = pure none
  reconcile_found (some repo) = reconcile_repository repo

  unfoldable pub reconcile : String → Run S (Option ℕ)
  reconcile name = do found ← find (reads (api.get_repository name)); reconcile_found found
