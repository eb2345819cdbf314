-- ===== src/Images/Tests.antt =====
-- The theorems on the ImageRepository controller, applied on a small catalog.
use controller.Base.{
  String, true, false, ◌≡◌, refl, none, some, List, [], ◌∷◌, All, keep, lookup, ◌==◌, ◌/=◌, Option,
  Bool-cases, inl, inr, arith, eq_iff,
}
use controller.Base.Effects.{Error, ok, err, api, not_found, fault, World, ◌>>=◌}
use controller.Api.Meta.{new_meta}
use controller.Api.ImageRepository.{ImageRepository}
use controller.Images.Client.{ImageClient, Call, Manifest, update_status}
use controller.Images.Sync.{
  image_repository_label_key, finally, image_repository_auth, merge_image, mark_image, store_image,
  prune_images,
}
use controller.Images.Reconcile.{
  condition, with_condition, observed, sync_clone, sync_repo, sync_now,
}
use controller.Images.Ownership.{IsSyncCall, sync_stays_in_repository}
use controller.Images.Refinement.{IsCatalog, has_label, pruned, pruning_refines_catalog}
use controller.Images.Reports.{failed_sync_keeps_last}
use controller.Images.Resync.{wanted, resync_writes_nothing}

abbrev no_object : Error
no_object = api not_found "not found"

abbrev image : String → String → Manifest
image name repository = record {
  meta = record (new_meta name "") { labels = (image_repository_label_key, repository) ∷ [] };
  kind = "Image";
  api_version = "kubeworkspaces.io/v1alpha1";
  spec = some "{}";
  other = "";
}

abbrev repo : ImageRepository
repo = record {
  meta = record (new_meta "images" "") { generation = 2 };
  spec = record {
    url = "https://git.example/images";
    ref = "";
    paths = [];
    auth = none;
    sync_interval = none;
    suspend = false;
  };
  status = record {
    conditions = [];
    last_sync_time = some 5;
    last_sync_commit = "abc";
    imported_images = "code" ∷ [];
    observed_generation = 1;
  };
}

-- A server that keeps its images in a list; every clone fails.
abbrev server : ImageClient (List Manifest)
server = record {
  get_repository = λ name s. (ok repo, s);
  repository_update = λ r s. (ok r, s);
  status_update = λ r s. (ok r, s);
  get_secret = λ name namespace s. (err no_object, s);
  get_image = λ name s. (err no_object, s);
  image_create = λ m s. (ok tt, m ∷ s);
  image_update = λ m s. (ok tt, s);
  image_delete = λ m s. (ok tt, keep (λ i. i.name /= m.name) s);
  list_images = λ label value s. (ok (keep (has_label label value) s), s);
  retry_on_error = λ m. m;
  now = λ s. (7, s);
  jitter = λ n s. (n, s);
  clone = λ dir url deep auth s. (err (fault "no network"), s);
  resolve_revision = λ dir revision s. (ok "abc", s);
  open_worktree = λ dir s. (ok tt, s);
  checkout = λ dir hash s. (ok tt, s);
  head = λ dir s. (ok "abc", s);
  make_temp_dir = λ s. (ok "/tmp/repo", s);
  remove_all = λ dir s. (ok tt, s);
  eval_symlinks = λ path s. (ok path, s);
  read_dir = λ path s. (ok [], s);
  read_file = λ path s. (ok "", s);
  relative = λ root path. ok "images";
  join = λ dir name. name;
  trim_space = λ s. s;
  trim_prefix = λ s prefix. s;
  yaml_to_json = λ s. ok s;
  decode_manifest = λ s. ok (image "code" "");
  set_status_condition = λ c cs. c ∷ cs;
  is_status_condition_true = λ cs type. false;
  format_nat = λ n. "n";
  first_200 = λ s. s;
}

abbrev old : List Manifest
old = image "code" "images" ∷ image "stale" "images" ∷ image "mine" "others" ∷ []

abbrev start : World (List Manifest) Call
start = record { server = old; calls = [] }

same-value :
    (o : Option String) (value : String)
    → (elim o [ none ↦ false | some held ↦ held == value ]) ≡ true
    → o ≡ some value
same-value none value h = absurd (ground (arith, h))
same-value (some held) value h = ground (arith, h, eq_iff held value)

labelled :
    (label value : String) (s : List Manifest)
    → All (λ i. lookup label i.labels ≡ some value) (keep (has_label label value) s)
labelled label value [] = tt
labelled label value (i ∷ s) = elim (Bool-cases (has_label label value i)) [
  | inl has ↦ rw has (same-value _ value has, labelled label value s)
  | inr lacks ↦ rw lacks (labelled label value s)
]

along : (P : Manifest → Type 0) (xs ys : List Manifest) → ok xs ≡ ok ys → All P xs → All P ys
along P xs ys h p = let same : ys ≡ xs = ground (arith, h) in rw same p

sync_stays_in_repository_example : All (IsSyncCall repo) (sync_repo server repo start).1.calls
sync_stays_in_repository_example =
    sync_stays_in_repository server repo (λ P m h. h)
      (λ label value s images h. along _ _ images h (labelled label value s)) start refl

catalog : IsCatalog server
catalog = record { lists = λ label value s. refl; deletes = λ i s. refl }

pruning_refines_catalog_example :
    let after = prune_images server repo ("code" ∷ []) [] start in
    (after.0 ≡ ok tt) × (after.1.server ≡ pruned repo ("code" ∷ []) old)
pruning_refines_catalog_example =
    pruning_refines_catalog server catalog repo ("code" ∷ []) [] start (refl, (refl, (refl, tt)))

failed_sync_keeps_last_example :
    let failed = sync_repo server repo start in
    let kept = observed server (
      with_condition server repo (
        condition "False" "SyncFailed" "failed to clone repository; check URL and credentials"
          7)) in
    ((sync_now server repo 60 start).0
      ≡ err (fault "failed to clone repository; check URL and credentials"))
    × ((sync_now server repo 60 start).1.calls ≡ update_status kept ∷ failed.1.calls)
    × (kept.status.last_sync_time ≡ some 5)
    × (kept.status.last_sync_commit ≡ "abc")
    × (kept.status.imported_images ≡ "code" ∷ [])
    × (kept.status.observed_generation ≡ 2)
unfolding sync_repo finally sync_clone image_repository_auth with_condition ◌>>=◌
failed_sync_keeps_last_example =
    failed_sync_keeps_last server repo 60 start
      (fault "failed to clone repository; check URL and credentials") refl

-- The image that an import of the file has left, over one of another repository.
abbrev synced : ImageClient (List Manifest)
synced = record server {
  get_image = λ name s. (
    ok (
        merge_image (image "code" "others")
          (wanted server repo "abc" "/tmp/r" "/tmp/r/code.yaml" (image "code" "images"))),
    s,
  );
}

resync_writes_nothing_example :
    ((store_image synced
        (wanted synced repo "abc" "/tmp/r" "/tmp/r/code.yaml" (image "code" "images"))
        start).0
      ≡ ok tt)
    × ((store_image synced
          (wanted synced repo "abc" "/tmp/r" "/tmp/r/code.yaml" (image "code" "images"))
          start).1.calls
        ≡ [])
unfolding mark_image controller.Base.put
resync_writes_nothing_example =
    resync_writes_nothing synced repo "abc" "/tmp/r" "/tmp/r/code.yaml" (image "code" "images")
      (image "code" "others") start (refl, (refl, tt)) (refl, (refl, (refl, (refl, tt)))) refl
