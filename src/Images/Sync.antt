-- ===== src/Images/Sync.antt =====
-- imagerepository_controller.go: syncRepo and syncImageFile, with the credentials and the checkout.
use native.Mathlib.Decide.{ℕ_discrete}
use controller.Base.{
  String, ◌<>◌, Bool, true, false, ◌&&◌, flip, Option, none, some, List, [], ◌∷◌, ◌++◌, contains,
  Map, at_key, put, put_all, ◌==◌, ◌/=◌, if◌then◌else◌, decided, String-discrete,
}
use controller.Base.Effects.{
  invalid, bad_request, Error, Result, ok, err, fault, wrap, reason_of, Act, pure, raise, attempt,
  find, lift, wrapping, when, fail_if, ignore_not_found, for_each, ◌>>=◌, ◌>>◌, reads, writes,
}
use controller.Api.Meta.{Secret}
use controller.Api.ImageRepository.{ImageRepository, ImageRepositoryAuth}
use controller.Images.Client.{
  ImageClient, Run, Manifest, BasicAuth, create_image, update_image, delete_image,
}

abbrev pub image_repository_label_key : String
image_repository_label_key = "kubeworkspaces.io/image-repository"

abbrev pub image_repository_managed_by : String
image_repository_managed_by = "kubeworkspaces.io/managed-by"

abbrev pub image_repository_managed_val : String
image_repository_managed_val = "imagerepository-controller"

abbrev pub image_repository_sync_anno : String
image_repository_sync_anno = "kubeworkspaces.io/sync"

-- The outcomes of a file that are no errors of the cluster; `malformed` is invalidImageManifest.
pub data Outcome : Type 0 where
  imported_as : String → Outcome
  not_image : Outcome
  malformed : Error → Outcome

pub record SyncResult : Type 0 where
  pub commit : String
  pub imported : List String
  pub invalid_files : List String

abbrev pub with_marks : Manifest → Map → Map → Manifest
with_marks image labels annotations = record image {
  meta = record image.meta { labels = labels; annotations = annotations };
}

unfoldable pub Manifest-discrete : Discrete Manifest
Manifest-discrete = hlevel (String-discrete, ℕ_discrete)

-- The live object with the spec of the file, and with its labels and annotations over its own.
unfoldable pub merge_image : Manifest → Manifest → Manifest
merge_image existing wanted =
    record (with_marks existing (put_all wanted.labels existing.labels)
      (put_all wanted.annotations existing.annotations)) { spec = wanted.spec }

abbrev pub is_invalid_manifest : Error → Bool
is_invalid_manifest e = elim (reason_of e) [ invalid ↦ true | bad_request ↦ true | _ ↦ false ]

-- What one file adds to the imported names and to the invalid files; other errors end the sync.
unfoldable pub classify : String → Result Outcome → Result (List String × List String)
classify file (ok (imported_as name)) = ok (name ∷ [], [])
classify file (ok not_image) = ok ([], [])
classify file (ok (malformed e)) = ok ([], file ∷ [])
classify file (err e) =
    if is_invalid_manifest e then ok ([], file ∷ []) else err (wrap ("sync " <> file) e)

-- The names that were not seen before, each once, in their order.
unfoldable pub uniq : List String → List String → List String
uniq seen [] = []
uniq seen (x ∷ xs) = if contains seen x then uniq seen xs else x ∷ uniq (x ∷ seen) xs

-- `defer`: the second action follows whatever the first has returned.
unfoldable pub finally : {W A : Type 0} → Act W A → Act W (Unit {0}) → Act W A
finally m n w = ((m w).0, (n (m w).1).1)

module _ {S : Type 0} (api : ImageClient S) where
  -- The labels and the annotations of a manifest, marked as the repository's.
  unfoldable pub mark_image : ImageRepository → (commit root path : String) → Manifest → Manifest
  mark_image repo commit root path image =
      with_marks image
        (put image_repository_managed_by image_repository_managed_val
          (put image_repository_label_key repo.name image.labels))
        (put "kubeworkspaces.io/source-path" (api.trim_prefix path (root <> "/")) (
          put "kubeworkspaces.io/source-commit" commit (
            put "kubeworkspaces.io/source-ref" repo.spec.ref
              (put "kubeworkspaces.io/source-url" repo.spec.url image.annotations))))

  unfoldable pub write_image : Manifest → Option Manifest → Run S (Unit {0})
  write_image wanted none = writes (create_image wanted) (api.image_create wanted)
  write_image wanted (some existing) =
      let updated = merge_image existing wanted in
      when (flip (decided (Manifest-discrete existing updated)))
        (writes (update_image updated) (api.image_update updated))

  unfoldable pub store_image : Manifest → Run S (Unit {0})
  store_image wanted = do
    existing ← find (reads (api.get_image wanted.name))
    write_image wanted existing

  abbrev pub import_spec :
      ImageRepository → (commit root path : String) → Manifest → Option String → Run S Outcome
  import_spec repo commit root path image none =
      pure (malformed (fault ("image " <> image.name <> " is missing a spec object")))
  import_spec repo commit root path image (some spec) = do
    api.retry_on_error (store_image (mark_image repo commit root path image))
    pure (imported_as image.name)

  unfoldable pub import_image :
      ImageRepository → (commit root path : String) → Manifest → Run S Outcome
  import_image repo commit root path image =
      if image.kind /= "Image"
      then pure not_image
      else if image.api_version /= "kubeworkspaces.io/v1alpha1"
      then pure (malformed (fault "unsupported Image apiVersion"))
      else if image.name == ""
      then pure (malformed (fault "image name is required"))
      else import_spec repo commit root path image image.spec

  abbrev pub import_decoded :
      ImageRepository → (commit root path : String) → Result Manifest → Run S Outcome
  import_decoded repo commit root path (ok image) = import_image repo commit root path image
  import_decoded repo commit root path (err e) = pure (malformed e)

  abbrev pub import_json :
      ImageRepository → (commit root path : String) → Result String → Run S Outcome
  import_json repo commit root path (ok json) =
      import_decoded repo commit root path (api.decode_manifest json)
  import_json repo commit root path (err e) = pure (malformed e)

  unfoldable pub sync_image_file : ImageRepository → (commit root path : String) → Run S Outcome
  sync_image_file repo commit root path = do
    text ← reads (api.read_file path)
    import_json repo commit root path (api.yaml_to_json text)

  -- The imported names and the invalid files.
  unfoldable pub sync_files :
      ImageRepository → (commit root : String) → List String → Run S (List String × List String)
  sync_files repo commit root [] = pure ([], [])
  sync_files repo commit root (path ∷ paths) = do
    outcome ← attempt (sync_image_file repo commit root path)
    first ← lift (classify (api.trim_prefix path (root <> "/")) outcome)
    rest ← sync_files repo commit root paths
    pure (first.0 ++ rest.0, first.1 ++ rest.1)

  unfoldable pub delete_stale : List String → Manifest → Run S (Unit {0})
  delete_stale imported image = when (flip (contains imported image.name)) (
      wrapping ("prune image " <> image.name)
        (ignore_not_found (writes (delete_image image) (api.image_delete image))))

  abbrev pub delete_unless : List String → List String → List Manifest → Run S (Unit {0})
  delete_unless [] imported images = for_each (delete_stale imported) images
  delete_unless (file ∷ files) imported images = pure tt

  -- The images of the repository that were not imported are deleted, unless a file was invalid.
  unfoldable pub prune_images : ImageRepository → List String → List String → Run S (Unit {0})
  prune_images repo imported invalid_files = do
    images ←
        wrapping "list images for pruning"
          (reads (api.list_images image_repository_label_key repo.name))
    delete_unless invalid_files imported images

  abbrev pub or_missing : Error → Result Secret → Run S Secret
  or_missing e (ok secret) = pure secret
  or_missing e (err _) = raise (wrap "failed to get auth secret" e)

  abbrev pub or_default : String → Result Secret → Run S Secret
  or_default name (ok secret) = pure secret
  or_default name (err e) = do
    second ← attempt (reads (api.get_secret name "default"))
    or_missing e second

  unfoldable pub auth_secret : String → Run S Secret
  auth_secret name = do
    first ← attempt (reads (api.get_secret name "kube-workspaces-system"))
    or_default name first

  abbrev pub password_of : Secret → String
  password_of secret =
      if at_key secret.content "password" == ""
      then at_key secret.content "token"
      else at_key secret.content "password"

  abbrev pub basic_auth : Secret → BasicAuth
  basic_auth secret = record {
    username =
        if at_key secret.content "username" == "" then "git" else at_key secret.content "username";
    password = password_of secret;
  }

  abbrev pub auth_from : Option String → Run S (Option BasicAuth)
  auth_from none = pure none
  auth_from (some name) = do secret ← auth_secret name; pure (some (basic_auth secret))

  unfoldable pub image_repository_auth : Option ImageRepositoryAuth → Run S (Option BasicAuth)
  image_repository_auth none = pure none
  image_repository_auth (some auth) = do
    fail_if (auth.type /= "" && auth.type /= "basic" && auth.type /= "https-basic")
        (fault "unsupported authentication type; use HTTPS basic authentication")
    auth_from auth.secret_ref
