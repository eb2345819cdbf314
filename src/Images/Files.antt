-- ===== src/Images/Files.antt =====
-- imagerepository_controller.go: imageRepositoryFiles and containedImageRepositoryPath.
use controller.Base.{
  String, ◌<>◌, Bool, true, ◌||◌, ◌&&◌, flip, List, [], ◌∷◌, ◌++◌, contains, ◌==◌, if◌then◌else◌,
  has_prefix, has_suffix,
}
use controller.Base.Effects.{Result, ok, err, fault, pure, wrapping, fail_if, ◌>>=◌, ◌>>◌, reads}
use controller.Images.Client.{ImageClient, Run, Entry}

unfoldable pub is_manifest_name : Entry → Bool
is_manifest_name entry =
    flip (
      entry.is_dir || (flip (has_suffix entry.name ".yaml") && flip (has_suffix entry.name ".yml")))

-- `rel == ".." || strings.HasPrefix(rel, "../")`, or an error.
unfoldable pub escapes : Result String → Bool
escapes (err e) = true
escapes (ok rel) = rel == ".." || has_prefix rel "../"

module _ {S : Type 0} (api : ImageClient S) where
  unfoldable pub contained_image_repository_path : (root path : String) → Run S String
  contained_image_repository_path root path = do
    resolved ← wrapping "resolve image repository path" (reads (api.eval_symlinks path))
    resolved_root ← reads (api.eval_symlinks root)
    fail_if (escapes (api.relative resolved_root resolved))
        (fault "image path escapes the repository")
    pure path

  -- The manifests of a directory that are not among the files yet, behind them.
  unfoldable pub entry_files : (root dir : String) → List Entry → List String → Run S (List String)
  entry_files root dir [] files = pure files
  entry_files root dir (entry ∷ entries) files =
      let path = api.join dir entry.name in
      let skipped = entry_files root dir entries files in
      let added = entry_files root dir entries (files ++ (path ∷ [])) in
      if flip (is_manifest_name entry) then skipped else do
        _ ← contained_image_repository_path root path
        if contains files path then skipped else added

  unfoldable pub path_files : (root path : String) → List String → Run S (List String)
  path_files root path files = do
    fail_if (path == "" || has_prefix path "/")
        (fault "image directory must be relative to the repository")
    full ← contained_image_repository_path root (api.join root path)
    entries ← wrapping ("read image directory \"" <> path <> "\"") (reads (api.read_dir full))
    entry_files root full entries files

  unfoldable pub more_files : (root : String) → List String → List String → Run S (List String)
  more_files root [] files = pure files
  more_files root (path ∷ paths) files = do
    found ← path_files root (api.trim_space path) files
    more_files root paths found

  unfoldable pub image_repository_files : (root : String) → List String → Run S (List String)
  image_repository_files root paths = more_files root paths []
