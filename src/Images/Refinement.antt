-- ===== src/Images/Refinement.antt =====
-- Pruning against an abstract catalog: on a server that keeps a list of images with unique names, the
-- calls of a pruning leave exactly what the catalog without stale images holds.
use controller.Base.{
  String, Bool, true, false, ◌≡◌, refl, sym, ap, ◌∙◌, ◌&&◌, flip, none, some, List, [], ◌∷◌, All,
  keep, lookup, contains, ◌==◌, ◌/=◌, arith, eq_iff, Bool-cases, inl, inr,
}
use controller.Base.Effects.{
  ok, World, for_each, when, wrapping, ignore_not_found, reads, writes, ◌>>=◌,
}
use controller.Api.ImageRepository.{ImageRepository}
use controller.Images.Client.{ImageClient, Call, Manifest}
use controller.Images.Sync.{image_repository_label_key, delete_stale, prune_images}
use controller.Images.Keyed.{
  keep-eq, keep-same, keep-every, keep-keep, IsUnique, is_removed, removed-selected,
}

abbrev pub has_label : (label value : String) → Manifest → Bool
has_label label value image = elim (lookup label image.labels) [
  | none ↦ false
  | some held ↦ held == value
]

abbrev pub is_stale : List String → Manifest → Bool
is_stale imported image = flip (contains imported image.name)

abbrev pub of_repository : ImageRepository → Manifest → Bool
of_repository repo image = has_label image_repository_label_key repo.name image

-- The catalog after a pruning.
abbrev pub pruned : ImageRepository → List String → List Manifest → List Manifest
pruned repo imported catalog =
    keep (λ i. flip (of_repository repo i && is_stale imported i)) catalog

abbrev pub name_of : Manifest → String
name_of image = image.name

-- A server that keeps its images in a list.
pub record IsCatalog (api : ImageClient (List Manifest)) : Type 0 where
  pub lists :
      (label value : String) (s : List Manifest)
      → api.list_images label value s ≡ (ok (keep (has_label label value) s), s)
  pub deletes :
      (image : Manifest) (s : List Manifest)
      → api.image_delete image s ≡ (ok tt, keep (λ i. i.name /= image.name) s)

module _ (api : ImageClient (List Manifest)) (catalog : IsCatalog api) (repo : ImageRepository)
    (imported : List String) where
  abbrev left : List Manifest → Manifest → Bool
  left images i = flip (is_removed name_of (is_stale imported) images i.name)

  unchanged :
      (image : Manifest) (w : World (List Manifest) Call)
      → contains imported image.name ≡ true
      → (delete_stale api imported image w).1.server ≡ w.server
  unfolding delete_stale when
  unchanged image w held = ground (arith, held)

  removed :
      (image : Manifest) (w : World (List Manifest) Call)
      → contains imported image.name ≡ false
      → (delete_stale api imported image w).1.server ≡ keep (λ i. i.name /= image.name) w.server
  unfolding delete_stale when wrapping ignore_not_found writes
  removed image w stale = ground (arith, stale, catalog.deletes image w.server)

  server-step :
      (image : Manifest) (images : List Manifest) (w : World (List Manifest) Call)
      → (delete_stale api imported image w).0 ≡ ok tt
      → (for_each (delete_stale api imported) (image ∷ images) w).1.server
        ≡ (for_each
            (delete_stale api imported)
            images
            (delete_stale api imported image w).1).1.server
  unfolding for_each
  server-step image images w h = ground (arith, h)

  delete-step :
      (image : Manifest) (w : World (List Manifest) Call)
      → ((delete_stale api imported image w).0 ≡ ok tt)
        × ((delete_stale api imported image w).1.server ≡ keep (left (image ∷ [])) w.server)
  unfolding delete_stale when wrapping ignore_not_found writes
  delete-step image w = elim (Bool-cases (contains imported image.name)) [
    | inl held ↦ (
      ground (arith, held),
      unchanged image w held ∙ sym (keep-every _ w.server (λ i. ground (arith, held))),
    )
    | inr stale ↦ (
      ground (arith, stale, catalog.deletes image w.server),
      removed image w stale
          ∙ keep-same _ _ w.server
              (λ i. ground (arith, stale, eq_iff i.name image.name, eq_iff image.name i.name)),
    )
  ]

  deletes-each :
      (images : List Manifest) (w : World (List Manifest) Call)
      → ((for_each (delete_stale api imported) images w).0 ≡ ok tt)
        × ((for_each (delete_stale api imported) images w).1.server ≡ keep (left images) w.server)
  unfolding for_each
  deletes-each [] w = (refl, sym (keep-every _ w.server (λ i. refl)))
  deletes-each (image ∷ images) w =
      let step = delete-step image w in
      let rest = deletes-each images (delete_stale api imported image w).1 in
      (
        ground (arith, step.0, rest.0),
        server-step image images w step.0
            ∙ rest.1
            ∙ ap (keep (left images)) step.1
            ∙ keep-keep (left images) (left (image ∷ [])) w.server
            ∙ keep-same _ _ w.server (λ i. ground arith),
      )

  flipped :
      (images s : List Manifest)
      → All
          (λ i.
            is_removed name_of (is_stale imported) images i.name
            ≡ (of_repository repo i && is_stale imported i))
          s
      → All (λ i. left images i ≡ flip (of_repository repo i && is_stale imported i)) s
  flipped images [] h = tt
  flipped images (i ∷ s) h = (ground (arith, h.0), flipped images s h.1)

  pruned-keep :
      (s : List Manifest)
      → IsUnique name_of s
      → keep (left (keep (of_repository repo) s)) s ≡ pruned repo imported s
  pruned-keep s u =
      keep-eq _ _ s
        (flipped _ s (removed-selected name_of (is_stale imported) (of_repository repo) s u))

  -- Pruning refines the catalog: on a server that keeps its images in a list with unique names it
  -- succeeds, and leaves the images that are not the repository's or that were imported, in their order; where
  -- a file was invalid it leaves every image.
  pub pruning_refines_catalog :
      (invalid_files : List String) (w : World (List Manifest) Call)
      → IsUnique name_of w.server
      → let after = prune_images api repo imported invalid_files w in
        (after.0 ≡ ok tt)
        × (after.1.server
            ≡ elim invalid_files [ [] ↦ pruned repo imported w.server | file ∷ files ↦ w.server ])
  unfolding prune_images wrapping reads ◌>>=◌
  pruning_refines_catalog [] w u =
      let listed = catalog.lists image_repository_label_key repo.name w.server in
      let done = deletes-each (keep (of_repository repo) w.server) w in
      rw listed (done.0, done.1 ∙ pruned-keep w.server u)
  pruning_refines_catalog (file ∷ files) w u =
      let listed = catalog.lists image_repository_label_key repo.name w.server in
      rw listed (refl, refl)
