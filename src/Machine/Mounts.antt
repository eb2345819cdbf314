-- ===== src/Machine/Mounts.antt =====
-- Which disks the user data of a guest mounts.
use controller.Base.{
  String, true, false, ◌≡◌, refl, List, [], ◌∷◌, map, contains, All, ◌==◌, arith, Bool-cases, inl,
  inr,
}
use controller.Base.Effects.{Result, ok, err, is_ok}
use controller.Api.Workspace.{VolumeMount}
use controller.Workspace.Client.{WorkspaceClient}
use controller.Machine.Client.{MachineClient}
use controller.Machine.Disks.{valid_guest_mount_path}
use controller.Machine.CloudInit.{and_then, is_bad_mount, mount_command, mount_commands}

-- The mounts have other names and other paths.
abbrev pub IsApartFrom : VolumeMount → VolumeMount → Type 0
IsApartFrom m k = ((m.name == k.name) ≡ false) × ((m.mount_path == k.mount_path) ≡ false)

abbrev pub IsApart : List VolumeMount → Type 0
IsApart [] = Unit
IsApart (m ∷ ms) = All (IsApartFrom m) ms × IsApart ms

All-weaken :
    {P Q : VolumeMount → Type 0} (f : (m : VolumeMount) → P m → Q m) (ms : List VolumeMount)
    → All P ms
    → All Q ms
All-weaken f [] h = tt
All-weaken f (m ∷ ms) (h, hs) = (f m h, All-weaken f ms hs)

then-ok : {A B : Type 0} (r : Result A) (f : A → B) → is_ok (and_then r (λ a. ok (f a))) ≡ is_ok r
then-ok (ok a) f = refl
then-ok (err e) f = refl

module _ {S : Type 0} (api : WorkspaceClient S) (vms : MachineClient S) where
  -- The name is a label and the path may be mounted at.
  abbrev pub IsMountable : VolumeMount → Type 0
  IsMountable m =
      (api.is_dns1123_label m.name ≡ true) × (valid_guest_mount_path api vms m.mount_path ≡ true)

  abbrev IsNew : (names paths : List String) → VolumeMount → Type 0
  IsNew names paths m =
      IsMountable m × (contains names m.name ≡ false) × (contains paths m.mount_path ≡ false)

  good-IsNew :
      (names paths : List String) (m : VolumeMount)
      → is_bad_mount api vms names paths m ≡ false
      → IsNew names paths m
  unfolding is_bad_mount
  good-IsNew names paths m h =
      ((ground (arith, h), ground (arith, h)), ground (arith, h), ground (arith, h))

  older :
      (names paths : List String) (m k : VolumeMount)
      → IsNew (m.name ∷ names) (m.mount_path ∷ paths) k
      → IsNew names paths k
  older names paths m k (h, a, b) = (h, ground (arith, a), ground (arith, b))

  apart :
      (names paths : List String) (m k : VolumeMount)
      → IsNew (m.name ∷ names) (m.mount_path ∷ paths) k
      → IsApartFrom m k
  apart names paths m k (h, a, b) = (ground (arith, a), ground (arith, b))

  mounted :
      (user : String) (names paths : List String) (ms : List VolumeMount)
      → is_ok (mount_commands api vms user names paths ms) ≡ true
      → (mount_commands api vms user names paths ms ≡ ok (map (mount_command api vms user) ms))
        × All (IsNew names paths) ms
        × IsApart ms
  unfolding mount_commands
  mounted user names paths [] h = (refl, tt, tt)
  mounted user names paths (m ∷ ms) h = elim (Bool-cases (is_bad_mount api vms names paths m)) [
    | inl bad ↦ ground (arith, h, bad)
    | inr good ↦
        let rest = mount_commands api vms user (m.name ∷ names) (m.mount_path ∷ paths) ms in
        let (made, news, aparts) =
          mounted user (m.name ∷ names) (m.mount_path ∷ paths) ms
            (ground (arith, h, good, then-ok rest (λ r. mount_command api vms user m ∷ r))) in
        (
          rw good (rw made refl),
          (good-IsNew names paths m good, All-weaken (older names paths m) ms news),
          (All-weaken (apart names paths m) ms news, aparts),
        )
  ]

  -- Where the mounts of a workspace are accepted, each has a valid name and path, no two share one, and the
  -- user data has one command for each, in their order.
  pub mounts_never_collide :
      (user : String) (ms : List VolumeMount)
      → is_ok (mount_commands api vms user [] [] ms) ≡ true
      → (mount_commands api vms user [] [] ms ≡ ok (map (mount_command api vms user) ms))
        × All IsMountable ms
        × IsApart ms
  mounts_never_collide user ms h =
      let (made, news, aparts) = mounted user [] [] ms h in
      (made, All-weaken (λ m new. new.0) ms news, aparts)
