-- ===== src/Workspace/Resources.antt =====
-- workspace_controller.go: vmDomainResources, the memory of a VirtualMachine.
use controller.Base.{
  String, Option, none, some, List, [], ◌∷◌, Map, put, has_key, ◌==◌, if◌then◌else◌,
}
use controller.Base.Effects.{Result, ok, err, fault}
use controller.Api.Workspace.{Container, PodSpec}
use controller.Api.Image.{Image}

-- The map of resources; `none` where it has no such entry.
pub record Resources : Type 0 where
  pub requests : Option Map
  pub limits : Option Map

abbrev pub default_guest_memory : String
default_guest_memory = "2Gi"

-- An entry is set only where there is something in it.
abbrev pub nonempty : Map → Option Map
nonempty [] = none
nonempty (e ∷ m) = some (e ∷ m)

unfoldable pub container_resources : List Container → Resources
container_resources [] = record { requests = none; limits = none }
container_resources (c ∷ cs) = record { requests = nonempty c.requests; limits = nonempty c.limits }

abbrev pub map_or_empty : Option Map → Map
map_or_empty none = []
map_or_empty (some m) = m

abbrev pub pod_memory : Image → String
pod_memory img =
    if img.spec.memory_request == "" then img.spec.memory_limit else img.spec.memory_request

-- The memory that the Image pins is requested and limited.
unfoldable pub pin_memory : Option Image → Resources → Resources
pin_memory none r = r
pin_memory (some img) r = if img.spec.memory_limit == "" then r else record {
  requests = some (put "memory" (pod_memory img) (map_or_empty r.requests));
  limits = some (put "memory" (pod_memory img) (map_or_empty r.limits));
}

-- The entry is asserted to be a map before its key is looked up, which panics where it is missing.
unfoldable pub ensure_memory : Option Map → Result Map
ensure_memory none = err (fault "panic: interface conversion: interface {} is nil")
ensure_memory (some m) = ok (if has_key m "memory" then m else put "memory" default_guest_memory m)

abbrev pub with_requests : Map → Result Map → Result Resources
with_requests limits (ok requests) = ok (record { requests = some requests; limits = some limits })
with_requests limits (err e) = err e

abbrev pub with_limits : Option Map → Result Map → Result Resources
with_limits requests (ok limits) = with_requests limits (ensure_memory requests)
with_limits requests (err e) = err e

unfoldable pub vm_domain_resources : PodSpec → Option Image → Result Resources
vm_domain_resources pod img =
    let r = pin_memory img (container_resources pod.containers) in
    with_limits r.requests (ensure_memory r.limits)
