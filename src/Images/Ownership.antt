-- ===== src/Images/Ownership.antt =====
-- Which images a sync may write and delete.
use controller.Base.{
  String, ◌≡◌, Option, none, some, List, [], ◌∷◌, All, lookup, lookup-put, lookup-put_all, put,
  arith,
}
use controller.Base.Effects.{Result, ok, err, World, Act, wrapping, wrap_result, reads, for_each}
use controller.Base.Safety.{
  Only, only_rules, Only-bind, Only-bind-ok, Only-attempt, Only-when, Only-lift, Only-pure,
  Only-continue, Only-wrapping, Only-reads,
}
use controller.Api.ImageRepository.{ImageRepository}
use controller.Images.Client.{
  ImageClient, Call, Manifest, create_image, update_image, delete_image, remove_dir,
}
use controller.Images.Files.{image_repository_files}
use controller.Images.Sync.{
  image_repository_label_key, image_repository_managed_by, image_repository_managed_val,
  merge_image, mark_image, write_image, store_image, import_spec, import_image, import_decoded,
  import_json, sync_image_file, sync_files, delete_stale, delete_unless, prune_images, finally,
}
use controller.Images.Reconcile.{sync_clone, sync_repo}
use controller.Images.Reading.{more-Only, auth-Only, checkout-Only}

Only-finally :
    {S C A : Type 0} {P : C → Type 0} (m : Act (World S C) A) (n : Act (World S C) (Unit {0}))
    → Only P m
    → Only P n
    → Only P (finally m n)
unfolding finally
Only-finally m n km kn = record { at = λ w h. kn.at (m w).1 (km.at w h) }

-- The image is labelled as the repository's, and as managed by this controller.
abbrev pub IsLabelled : ImageRepository → Manifest → Type 0
IsLabelled repo image =
    (lookup image_repository_label_key image.labels ≡ some repo.name)
    × (lookup image_repository_managed_by image.labels ≡ some image_repository_managed_val)

-- What a sync may write: images that it labels as its own, deletions of images that are labelled as
-- its own, and its own directory.
abbrev pub IsSyncCall : ImageRepository → Call → Type 0
IsSyncCall repo (create_image image) = IsLabelled repo image
IsSyncCall repo (update_image image) = IsLabelled repo image
IsSyncCall repo (delete_image image) =
    lookup image_repository_label_key image.labels ≡ some repo.name
IsSyncCall repo (remove_dir dir) = Unit {0}
IsSyncCall repo _ = ⊥

merged-IsLabelled :
    (repo : ImageRepository) (existing wanted : Manifest)
    → IsLabelled repo wanted
    → IsLabelled repo (merge_image existing wanted)
unfolding merge_image
merged-IsLabelled repo existing wanted h = (
  ground (arith, h.0, lookup-put_all image_repository_label_key wanted.labels existing.labels),
  ground (arith, h.1, lookup-put_all image_repository_managed_by wanted.labels existing.labels),
)

module _ {S : Type 0} (api : ImageClient S) where
  marked-IsLabelled :
      (repo : ImageRepository) (commit root path : String) (image : Manifest)
      → IsLabelled repo (mark_image api repo commit root path image)
  unfolding mark_image
  marked-IsLabelled repo commit root path image = (
    ground (
      arith,
      lookup-put image_repository_managed_by image_repository_label_key image_repository_managed_val
          (put image_repository_label_key repo.name image.labels),
      lookup-put image_repository_label_key image_repository_label_key repo.name image.labels,
    ),
    ground (
      arith,
      lookup-put image_repository_managed_by image_repository_managed_by
          image_repository_managed_val (put image_repository_label_key repo.name image.labels),
    ),
  )

  module _ (repo : ImageRepository)
      -- a retry makes no calls but those of the action
      (retry : (P : Call → Type 0) (m : Act (World S Call) (Unit {0}))
        → Only P m
        → Only P (api.retry_on_error m))
      -- a list by a label has only objects with that label
      (listed : (label value : String) (s : S) (images : List Manifest)
        → (api.list_images label value s).0 ≡ ok images
        → All (λ image. lookup label image.labels ≡ some value) images) where
    write-Only :
        (wanted : Manifest) (existing : Option Manifest)
        → IsLabelled repo wanted
        → Only (IsSyncCall repo) (write_image api wanted existing)
    unfolding write_image
    write-Only wanted none h = search (only_rules, h)
    write-Only wanted (some existing) h =
        Only-when _ _ (λ _. search (only_rules, merged-IsLabelled, h) depth 8)

    store-Only :
        (wanted : Manifest)
        → IsLabelled repo wanted
        → Only (IsSyncCall repo) (store_image api wanted)
    unfolding store_image
    store-Only wanted h = search (only_rules, write-Only, h) depth 8

    spec-Only :
        (commit root path : String) (image : Manifest) (spec : Option String)
        → Only (IsSyncCall repo) (import_spec api repo commit root path image spec)
    spec-Only commit root path image none = search only_rules
    spec-Only commit root path image (some spec) =
        search (only_rules, retry, store-Only, marked-IsLabelled) depth 10

    image-Only :
        (commit root path : String) (image : Manifest)
        → Only (IsSyncCall repo) (import_image api repo commit root path image)
    unfolding import_image
    image-Only commit root path image = search (only_rules, spec-Only) depth 12

    decoded-Only :
        (commit root path : String) (r : Result Manifest)
        → Only (IsSyncCall repo) (import_decoded api repo commit root path r)
    decoded-Only commit root path (ok image) = image-Only commit root path image
    decoded-Only commit root path (err e) = search only_rules

    json-Only :
        (commit root path : String) (r : Result String)
        → Only (IsSyncCall repo) (import_json api repo commit root path r)
    json-Only commit root path (ok json) = decoded-Only commit root path _
    json-Only commit root path (err e) = search only_rules

    file-Only :
        (commit root path : String)
        → Only (IsSyncCall repo) (sync_image_file api repo commit root path)
    unfolding sync_image_file
    file-Only commit root path = search (only_rules, json-Only) depth 8

    files-Only :
        (commit root : String) (paths : List String)
        → Only (IsSyncCall repo) (sync_files api repo commit root paths)
    unfolding sync_files
    files-Only commit root [] = search only_rules
    files-Only commit root (path ∷ paths) =
        Only-bind _ _ (Only-attempt _ (file-Only commit root path)) (λ outcome.
          Only-bind _ _ (Only-lift _)
            (λ first. Only-bind _ _ (files-Only commit root paths) (λ rest. Only-pure _)))

    stale-Only :
        (imported : List String) (image : Manifest)
        → lookup image_repository_label_key image.labels ≡ some repo.name
        → Only (IsSyncCall repo) (delete_stale api imported image)
    unfolding delete_stale
    stale-Only imported image h = search (only_rules, h) depth 10

    each-Only :
        (imported : List String) (images : List Manifest)
        → All (λ image. lookup image_repository_label_key image.labels ≡ some repo.name) images
        → (w : World S Call) → All (IsSyncCall repo) w.calls
        → All (IsSyncCall repo) (for_each (delete_stale api imported) images w).1.calls
    unfolding for_each
    each-Only imported [] h w k = k
    each-Only imported (image ∷ images) h w k =
        Only-continue (delete_stale api imported image w).0
          (λ _. for_each (delete_stale api imported) images)
          (λ _. record { at = each-Only imported images h.1 }) (delete_stale api imported image w).1
          ((stale-Only imported image h.0).at w k)

    unless-Only :
        (invalid_files imported : List String) (images : List Manifest)
        → All (λ image. lookup image_repository_label_key image.labels ≡ some repo.name) images
        → Only (IsSyncCall repo) (delete_unless api invalid_files imported images)
    unless-Only [] imported images h = record { at = each-Only imported images h }
    unless-Only (file ∷ files) imported images h = search only_rules

    read-labelled :
        (r : Result (List Manifest)) (images : List Manifest)
        → ((found : List Manifest)
            → r ≡ ok found
            → All (λ image. lookup image_repository_label_key image.labels ≡ some repo.name) found)
        → wrap_result "list images for pruning" r ≡ ok images
        → All (λ image. lookup image_repository_label_key image.labels ≡ some repo.name) images
    read-labelled (ok found) images k h = k images (ground (arith, h))
    read-labelled (err e) images k h = absurd (ground (arith, h))

    prune-Only :
        (imported invalid_files : List String)
        → Only (IsSyncCall repo) (prune_images api repo imported invalid_files)
    unfolding prune_images wrapping reads
    prune-Only imported invalid_files =
        Only-bind-ok _ _ (Only-wrapping _ _ (Only-reads _)) (λ images w h.
          unless-Only invalid_files imported images (
            read-labelled _ images
              (λ found. listed image_repository_label_key repo.name w.server found) h))

    clone-Only : (dir : String) → Only (IsSyncCall repo) (sync_clone api repo dir)
    unfolding sync_clone image_repository_files
    clone-Only dir =
        search (only_rules, auth-Only, checkout-Only, more-Only, files-Only, prune-Only) depth 20

    sync-Only : Only (IsSyncCall repo) (sync_repo api repo)
    unfolding sync_repo
    sync-Only = search (only_rules, Only-finally, clone-Only) depth 14

    -- A sync writes only images that it labels as the repository's and as managed by this
    -- controller, whatever the live image carries otherwise, deletes only images that carry the label of the
    -- repository, and removes its directory, whatever the git server, the files and the cluster hold, where a
    -- retry makes no calls of its own and a list by a label has only objects with the label.
    pub sync_stays_in_repository :
        (w : World S Call) → w.calls ≡ [] → All (IsSyncCall repo) (sync_repo api repo w).1.calls
    sync_stays_in_repository w new = sync-Only.at w (rw new tt)
