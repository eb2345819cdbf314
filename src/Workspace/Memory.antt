-- ===== src/Workspace/Memory.antt =====
-- When a VirtualMachine is given memory.
use controller.Base.{
  Bool, true, false, ◌&&◌, ◌||◌, ◌≡◌, refl, Option, none, some, Map, put, lookup-put, has_key,
  arith, ◌/=◌, if◌then◌else◌,
}
use controller.Base.Effects.{Result, ok, err, is_ok}
use controller.Api.Workspace.{PodSpec}
use controller.Api.Image.{Image}
use controller.Workspace.Resources.{
  Resources, default_guest_memory, container_resources, map_or_empty, pod_memory, pin_memory,
  ensure_memory, with_limits, vm_domain_resources,
}

abbrev pub is_set : Option Map → Bool
is_set none = false
is_set (some m) = true

abbrev pub pins_memory : Option Image → Bool
pins_memory none = false
pins_memory (some img) = img.spec.memory_limit /= ""

-- The entry is there and has memory.
abbrev pub has_memory : Option Map → Bool
has_memory none = false
has_memory (some m) = has_key m "memory"

set_memory :
    (m : Map)
    → has_key (if has_key m "memory" then m else put "memory" default_guest_memory m) "memory"
      ≡ true
set_memory m = ground (arith, lookup-put "memory" "memory" default_guest_memory m)

abbrev HasMemory : Result Resources → Type 0
HasMemory (ok r) = (has_memory r.limits ≡ true) × (has_memory r.requests ≡ true)
HasMemory (err e) = Unit

with_limits-HasMemory :
    (requests limits : Option Map) → HasMemory (with_limits requests (ensure_memory limits))
unfolding ensure_memory
with_limits-HasMemory none none = tt
with_limits-HasMemory (some m) none = tt
with_limits-HasMemory none (some m) = tt
with_limits-HasMemory (some m) (some n) = (set_memory n, set_memory m)

joined :
    (requests limits : Option Map)
    → is_ok (with_limits requests (ensure_memory limits)) ≡ (is_set limits && is_set requests)
unfolding ensure_memory
joined none none = refl
joined (some m) none = refl
joined none (some m) = refl
joined (some m) (some n) = refl

-- Where the resources of a VirtualMachine are found, both its limits and its requests have memory, so that
-- KubeVirt admits it.
pub memory_is_always_set :
    (pod : PodSpec) (img : Option Image) (r : Resources)
    → vm_domain_resources pod img ≡ ok r
    → (has_memory r.limits ≡ true) × (has_memory r.requests ≡ true)
unfolding vm_domain_resources
memory_is_always_set pod img r h =
    let pinned = pin_memory img (container_resources pod.containers) in
    rw h at (with_limits-HasMemory pinned.requests pinned.limits)

-- They are found exactly where the Image pins the memory, or the main container sets both limits
-- and requests; in all other cases the code panics before the default memory is applied.
pub missing_resources_panic :
    (pod : PodSpec) (img : Option Image)
    → let declared = container_resources pod.containers in
      is_ok (vm_domain_resources pod img)
      ≡ (pins_memory img || (is_set declared.limits && is_set declared.requests))
unfolding vm_domain_resources pin_memory
missing_resources_panic pod none =
    let declared = container_resources pod.containers in joined declared.requests declared.limits
missing_resources_panic pod (some img) =
    let declared = container_resources pod.containers in
    ground (
      arith,
      joined declared.requests declared.limits,
      joined (some (put "memory" (pod_memory img) (map_or_empty declared.requests)))
          (some (put "memory" (pod_memory img) (map_or_empty declared.limits))),
    )
