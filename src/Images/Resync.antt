-- ===== src/Images/Resync.antt =====
-- Importing a file again that has not changed.
use controller.Base.{
  String, false, ◌≡◌, refl, ap, ◌∙◌, some, [], ◌∷◌, All, any, Map, lookup, lookup-put_all, put,
  put_all, ◌==◌, eq→decided, arith, eq_iff, eq_refl, Bool-cases, inl, inr, sym,
}
use controller.Base.Effects.{ok, World, when, ◌>>=◌}
use controller.Api.ImageRepository.{ImageRepository}
use controller.Images.Client.{ImageClient, Call, Manifest}
use controller.Images.Sync.{Manifest-discrete, merge_image, mark_image, write_image, store_image}
use controller.Images.Keyed.{IsUnique}

abbrev pub key : String × String → String
key entry = entry.0

-- Putting what is there changes nothing.
put-held : (k v : String) (m : Map) → lookup k m ≡ some v → put k v m ≡ m
unfolding put lookup
put-held k v [] h = absurd (ground (arith, h))
put-held k v ((j, w) ∷ m) h = elim (Bool-cases (j == k)) [
  | inl same ↦ ground (arith, same, h, eq_iff j k)
  | inr other ↦ ground (arith, other, put-held k v m (ground (arith, other, h)))
]

put_all-held : (src m : Map) → All (λ e. lookup e.0 m ≡ some e.1) src → put_all src m ≡ m
unfolding put_all
put_all-held [] m h = refl
put_all-held ((k, v) ∷ more) m h = ap (put k v) (put_all-held more m h.1) ∙ put-held k v m h.0

weaken :
    (k v : String) (src m : Map)
    → any (λ e. e.0 == k) src ≡ false
    → All (λ e. lookup e.0 m ≡ some e.1) src
    → All (λ e. lookup e.0 ((k, v) ∷ m) ≡ some e.1) src
unfolding lookup
weaken k v [] m u h = tt
weaken k v ((j, w) ∷ src) m u h =
    (ground (arith, h.0, u, eq_iff j k, eq_iff k j), weaken k v src m (ground (arith, u)) h.1)

own-entries : (src : Map) → IsUnique key src → All (λ e. lookup e.0 src ≡ some e.1) src
unfolding lookup
own-entries [] u = tt
own-entries ((k, v) ∷ src) u =
    (ground (arith, eq_refl k), weaken k v src src u.0 (own-entries src u.1))

kept-entries :
    (own src m : Map)
    → All (λ e. lookup e.0 src ≡ some e.1) own
    → All (λ e. lookup e.0 (put_all src m) ≡ some e.1) own
kept-entries [] src m h = tt
kept-entries ((k, v) ∷ own) src m h =
    (ground (arith, h.0, lookup-put_all k src m), kept-entries own src m h.1)

put_all-again : (src m : Map) → IsUnique key src → put_all src (put_all src m) ≡ put_all src m
put_all-again src m u =
    put_all-held src (put_all src m) (kept-entries src src m (own-entries src u))

merged-again :
    (existing wanted : Manifest)
    → IsUnique key wanted.labels
    → IsUnique key wanted.annotations
    → merge_image (merge_image existing wanted) wanted ≡ merge_image existing wanted
unfolding merge_image
merged-again existing wanted l a =
    rw
      (
        put_all-again wanted.labels existing.labels l,
        put_all-again wanted.annotations existing.annotations a,
      )
      refl

module _ {S : Type 0} (api : ImageClient S) where
  write-again :
      (existing wanted : Manifest) (w : World S Call)
      → IsUnique key wanted.labels
      → IsUnique key wanted.annotations
      → write_image api wanted (some (merge_image existing wanted)) w ≡ (ok tt, w)
  unfolding write_image when
  write-again existing wanted w l a =
      let again = merged-again existing wanted l a in
      rw
        (eq→decided
          (Manifest-discrete (merge_image existing wanted)
            (merge_image (merge_image existing wanted) wanted))
          (sym again))
        refl

  module _ (repo : ImageRepository) (commit root path : String) (image : Manifest) where
    -- What an import of the file from the commit stores.
    abbrev pub wanted : Manifest
    wanted = mark_image api repo commit root path image

    -- Where the server has an image as an import of a file from a commit has left it, whatever else the
    -- live image carries, storing the same file from the same commit again succeeds and writes nothing, if
    -- the labels and annotations of the file have no key twice.
    pub resync_writes_nothing :
        (existing : Manifest) (w : World S Call)
        → IsUnique key wanted.labels
        → IsUnique key wanted.annotations
        → (api.get_image wanted.name w.server).0 ≡ ok (merge_image existing wanted)
        → ((store_image api wanted w).0 ≡ ok tt) × ((store_image api wanted w).1.calls ≡ w.calls)
    unfolding store_image ◌>>=◌
    resync_writes_nothing existing w l a found =
        let read : World S Call = record w { server = (api.get_image wanted.name w.server).1 } in
        let again = write-again existing wanted read l a in
        (rw found (rw again refl), rw found (rw again refl))
