-- ===== src/Images/Reading.antt =====
-- The parts of a sync that only read.
use controller.Base.{String, flip, Option, none, some, List, [], ◌∷◌, contains}
use controller.Base.Effects.{Error, Result, ok, err}
use controller.Base.Safety.{Only, only_rules, Only-if, Only-bind}
use controller.Api.Meta.{Secret}
use controller.Api.ImageRepository.{ImageRepositoryAuth}
use controller.Images.Client.{ImageClient, Call, Entry}
use controller.Images.Files.{
  is_manifest_name, contained_image_repository_path, entry_files, path_files, more_files,
}
use controller.Images.Sync.{or_missing, or_default, auth_secret, auth_from, image_repository_auth}
use controller.Images.Reconcile.{or_remote, resolve_ref, checkout_image_repository_ref}

module _ {S : Type 0} (api : ImageClient S) where
  module _ {P : Call → Type 0} where
    pub contained-Only :
        (root path : String) → Only P (contained_image_repository_path api root path)
    unfolding contained_image_repository_path
    contained-Only root path = search only_rules depth 10

    pub entries-Only :
        (root dir : String) (entries : List Entry) (files : List String)
        → Only P (entry_files api root dir entries files)
    unfolding entry_files
    entries-Only root dir [] files = search only_rules
    entries-Only root dir (entry ∷ entries) files =
        Only-if (flip (is_manifest_name entry)) _ _ (λ _. entries-Only root dir entries files)
          (λ _. Only-bind _ _ (contained-Only root _) (λ _.
            Only-if (contains files (api.join dir entry.name)) _ _
              (λ _. entries-Only root dir entries files) (λ _. entries-Only root dir entries _)))

    pub path-Only :
        (root path : String) (files : List String) → Only P (path_files api root path files)
    unfolding path_files
    path-Only root path files = search (only_rules, contained-Only, entries-Only) depth 12

    pub more-Only :
        (root : String) (paths files : List String) → Only P (more_files api root paths files)
    unfolding more_files
    more-Only root [] files = search only_rules
    more-Only root (path ∷ paths) files =
        Only-bind _ _ (path-Only root _ files) (λ found. more-Only root paths found)

    pub missing-Only : (e : Error) (r : Result Secret) → Only P (or_missing api e r)
    missing-Only e (ok secret) = search only_rules
    missing-Only e (err _) = search only_rules

    pub default-Only : (name : String) (r : Result Secret) → Only P (or_default api name r)
    default-Only name (ok secret) = search only_rules
    default-Only name (err e) = search (only_rules, missing-Only) depth 8

    pub secret-Only : (name : String) → Only P (auth_secret api name)
    unfolding auth_secret
    secret-Only name = search (only_rules, default-Only) depth 8

    pub from-Only : (name : Option String) → Only P (auth_from api name)
    from-Only none = search only_rules
    from-Only (some name) = search (only_rules, secret-Only) depth 8

    pub auth-Only : (auth : Option ImageRepositoryAuth) → Only P (image_repository_auth api auth)
    unfolding image_repository_auth
    auth-Only none = search only_rules
    auth-Only (some auth) = search (only_rules, from-Only) depth 8

    pub remote-Only : (dir ref : String) (r : Result String) → Only P (or_remote api dir ref r)
    remote-Only dir ref (ok hash) = search only_rules
    remote-Only dir ref (err _) = search only_rules

    pub ref-Only : (dir ref : String) → Only P (resolve_ref api dir ref)
    unfolding resolve_ref
    ref-Only dir ref = search (only_rules, remote-Only) depth 8

    pub checkout-Only : (dir ref : String) → Only P (checkout_image_repository_ref api dir ref)
    unfolding checkout_image_repository_ref
    checkout-Only dir ref = search (only_rules, ref-Only) depth 10
