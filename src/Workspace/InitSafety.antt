-- ===== src/Workspace/InitSafety.antt =====
-- Which Secrets the container initialization touches.
use controller.Base.{String, true, false, ◌≡◌, refl, Option, none, some, [], All, flip, arith}
use controller.Base.Effects.{ok, World}
use controller.Base.Safety.{Only, only_rules, Only-guard, Only-bind-lift}
use controller.Api.Meta.{ObjectMeta, Secret}
use controller.Api.Workspace.{Workspace, ContainerInitSpec, PodTemplate}
use controller.Workspace.Client.{WorkspaceClient, Call, create_secret, update_secret, delete_secret}
use controller.Workspace.ContainerInit.{
  container_init_secret_name, validate_container_init_identity, remove_container_init_secret,
  remove_found, data_secret, with_meta, with_content, store_data, container_init_data,
  check_template, initialize, without_init, prepare_with, prepare_container_init,
}

module _ {S : Type 0} (api : WorkspaceClient S) (ws : Workspace) where
  -- A Secret that is written or deleted is the workspace's own; a new one is made its own.
  abbrev pub IsOwnSecret : Call → Type 0
  IsOwnSecret (create_secret s) =
      (m : ObjectMeta) × (api.set_controller ws.meta m ≡ ok s.meta)
      × (m.name ≡ container_init_secret_name api ws.name)
      × (m.namespace ≡ ws.namespace)
  IsOwnSecret (update_secret s) = api.is_controlled_by s.meta ws.meta ≡ true
  IsOwnSecret (delete_secret s) = api.is_controlled_by s.meta ws.meta ≡ true
  IsOwnSecret _ = ⊥

  found-Only : (found : Option Secret) → Only IsOwnSecret (remove_found api ws found)
  found-Only none = search only_rules
  found-Only (some s) = search only_rules depth 9

  remove-Only : Only IsOwnSecret (remove_container_init_secret api ws)
  unfolding remove_container_init_secret
  remove-Only = search (only_rules, found-Only) depth 9

  made-IsOwn :
      (text : String) (m : ObjectMeta)
      → api.set_controller ws.meta (data_secret api ws text).meta ≡ ok m
      → IsOwnSecret (create_secret (with_meta api (data_secret api ws text) m))
  made-IsOwn text m h = ((data_secret api ws text).meta, h, refl, refl)

  held-IsOwn :
      (s : Secret) (content : _)
      → flip (api.is_controlled_by s.meta ws.meta) ≡ false
      → IsOwnSecret (update_secret (with_content api s content))
  held-IsOwn s content h = ground arith

  store-Only :
      (text : String) (found : Option Secret) → Only IsOwnSecret (store_data api ws text found)
  unfolding store_data
  store-Only text none = search (only_rules, Only-bind-lift, made-IsOwn) depth 12
  store-Only text (some s) = search (only_rules, Only-guard, held-IsOwn) depth 12

  data-Only :
      (cfg : ContainerInitSpec) (ref : Option String)
      → Only IsOwnSecret (container_init_data api ws cfg ref)
  unfolding container_init_data
  data-Only cfg none = search (only_rules, store-Only) depth 14
  data-Only cfg (some name) = search (only_rules, remove-Only) depth 16

  check-Only :
      (cfg : ContainerInitSpec) (pod : PodTemplate) (P : Call → Type 0)
      → Only P (check_template api ws cfg pod)
  unfolding check_template validate_container_init_identity
  check-Only cfg pod P = search only_rules depth 30

  initialize-Only :
      (cfg : ContainerInitSpec) (pod : PodTemplate) → Only IsOwnSecret (initialize api ws cfg pod)
  unfolding initialize
  initialize-Only cfg pod = search (only_rules, check-Only, data-Only) depth 14

  without-Only : (pod : PodTemplate) → Only IsOwnSecret (without_init api ws pod)
  unfolding without_init
  without-Only pod = search (only_rules, remove-Only) depth 9

  with-Only :
      (pod : PodTemplate) (cfg : Option ContainerInitSpec)
      → Only IsOwnSecret (prepare_with api ws pod cfg)
  unfolding prepare_with
  with-Only pod none = without-Only pod
  with-Only pod (some cfg) = search (only_rules, without-Only, initialize-Only) depth 9

  -- Preparing the initialization touches no other Secret than the workspace's own, whatever the cluster
  -- answers: one it creates has the workspace's name for it and the workspace as its controller, and one it
  -- updates or deletes is controlled by the workspace. A Secret that is referenced is only read.
  pub only_own_secrets_are_touched :
      (pod : PodTemplate) (w : World S Call)
      → w.calls ≡ []
      → All IsOwnSecret (prepare_container_init api ws pod w).1.calls
  unfolding prepare_container_init
  only_own_secrets_are_touched pod w fresh =
      (with-Only pod ws.spec.container_init).at w (rw fresh tt)
