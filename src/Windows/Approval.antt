-- ===== src/Windows/Approval.antt =====
-- What the loops of the preflight checks decide.
use controller.Base.{
  String, Bool, true, false, ◌≡◌, refl, ◌↔◌, ◌||◌, ◌&&◌, List, [], ◌∷◌, any, keep, ◌==◌,
  if◌then◌else◌, decided, decided→eq, eq→decided, arith, Bool-cases, inl, inr,
}
use controller.Base.Effects.{Result, ok, err, fault}
use controller.Api.Workspace.{VmGpuProfile}
use controller.Windows.Client.{ClaimProperties}
use controller.Windows.Preflight.{modes_rwo, claims_rwo, gpu-discrete, approve}

abbrev pub is_many : String → Bool
is_many mode = mode == "ReadWriteMany"

abbrev pub is_once : String → Bool
is_once mode = mode == "ReadWriteOnce"

-- Of the claims of files.
abbrev pub some_mode : (String → Bool) → List ClaimProperties → Bool
some_mode f ps = any (λ p. p.volume_mode == "Filesystem" && any f p.access_modes) ps

abbrev pub verdict : Bool → Bool → Result Bool
verdict shared rwo =
    if shared then err (fault "local backend-state storage cannot satisfy RWX") else ok rwo

modes-verdict :
    (ms : List String) (rwo : Bool)
    → modes_rwo ms rwo ≡ verdict (any is_many ms) (rwo || any is_once ms)
unfolding modes_rwo
modes-verdict [] true = refl
modes-verdict [] false = refl
modes-verdict (m ∷ ms) rwo = ground (arith, modes-verdict ms (rwo || is_once m))

-- The claims of a local storage class are accepted exactly where none for files may be shared by many
-- writers and, unless that was known before, some may be written by one: the loop that stops at the first
-- shared mode decides this for the whole list, whatever its order.
pub claims_are_exclusive :
    (ps : List ClaimProperties) (rwo : Bool)
    → claims_rwo ps rwo ≡ verdict (some_mode is_many ps) (rwo || some_mode is_once ps)
unfolding claims_rwo
claims_are_exclusive [] true = refl
claims_are_exclusive [] false = refl
claims_are_exclusive (p ∷ ps) rwo = ground (
  arith,
  modes-verdict p.access_modes rwo,
  claims_are_exclusive ps rwo,
  claims_are_exclusive ps (rwo || any is_once p.access_modes),
)

abbrev pub of_id : VmGpuProfile → List VmGpuProfile → List VmGpuProfile
of_id profile cs = keep (λ c. c.id == profile.id) cs

approved-rest :
    (profile : VmGpuProfile) (cs : List VmGpuProfile) (said : Bool)
    → approve profile cs true ≡ ok said
    → (said ≡ true) × (of_id profile cs ≡ [])
unfolding approve
approved-rest profile [] said h = (ground (arith, h), refl)
approved-rest profile (c ∷ cs) said h = elim (Bool-cases (c.id == profile.id)) [
  | inl same ↦ absurd (ground (arith, same, h))
  | inr other ↦
      let rest = approved-rest profile cs said (ground (arith, other, h)) in
      (rest.0, rw other rest.1)
]

rest-approved :
    (profile : VmGpuProfile) (cs : List VmGpuProfile)
    → of_id profile cs ≡ []
    → approve profile cs true ≡ ok true
unfolding approve
rest-approved profile [] h = refl
rest-approved profile (c ∷ cs) h = elim (Bool-cases (c.id == profile.id)) [
  | inl same ↦ absurd (ground (arith, same, h))
  | inr other ↦ ground (arith, other, rest-approved profile cs (ground (arith, other, h)))
]

approved→one :
    (profile : VmGpuProfile) (cs : List VmGpuProfile)
    → approve profile cs false ≡ ok true
    → of_id profile cs ≡ profile ∷ []
unfolding approve
approved→one profile [] h = absurd (ground (arith, h))
approved→one profile (c ∷ cs) h = elim (Bool-cases (c.id == profile.id)) [
  | inr other ↦ rw other (approved→one profile cs (ground (arith, other, h)))
  | inl same ↦ elim (Bool-cases (decided (gpu-discrete c profile))) [
    | inr differ ↦ absurd (ground (arith, same, differ, h))
    | inl equal ↦
        let rest = approved-rest profile cs true (ground (arith, same, equal, h)) in
        rw (same, rest.1, decided→eq (gpu-discrete c profile) equal) refl
  ]
]

one→approved :
    (profile : VmGpuProfile) (cs : List VmGpuProfile)
    → of_id profile cs ≡ profile ∷ []
    → approve profile cs false ≡ ok true
unfolding approve
one→approved profile [] h = absurd (ground (arith, h))
one→approved profile (c ∷ cs) h = elim (Bool-cases (c.id == profile.id)) [
  | inr other ↦ ground (arith, other, one→approved profile cs (ground (arith, other, h)))
  | inl same ↦ ground (
    arith,
    same,
    eq→decided (gpu-discrete c profile) (ground (arith, same, h)),
    rest-approved profile cs (ground (arith, same, h)),
  )
]

-- A GPU profile is approved exactly where the operator has one profile of its ID and that one is
-- equal to it.
pub profile_is_approved_once :
    (profile : VmGpuProfile) (cs : List VmGpuProfile)
    → (approve profile cs false ≡ ok true) ↔ (of_id profile cs ≡ profile ∷ [])
profile_is_approved_once profile cs = (approved→one profile cs, one→approved profile cs)
