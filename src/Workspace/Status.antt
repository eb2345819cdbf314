-- ===== src/Workspace/Status.antt =====
-- workspace_controller.go: the conditions and the status of a workspace, with
-- containerInitFailureCondition of container_init.go and windowsStatusConditions of
-- vm_windows_guest.go.
use controller.Base.{
  ℕ, pos, eq_int, String, ◌<>◌, Bool, true, false, ◌&&◌, flip, Option, none, some, List, [], ◌∷◌,
  ◌++◌, map, keep, any, length, ltb, nat_eq, ◌==◌, ◌/=◌, if◌then◌else◌, decided,
}
use controller.Base.Effects.{pure, attempt, when, ◌>>=◌, reads, observes, writes}
use controller.Api.Workspace.{
  Workspace, WorkspaceStatus, WorkspaceCondition, WorkspaceStatus-discrete, conditions-discrete,
  ContainerState, Terminated, ContainerInitSpec,
}
use controller.Workspace.Client.{
  WorkspaceClient, Run, Pod, PodCondition, ContainerStatus, update_status, windows_workspace,
}
use controller.Workspace.InitTemplate.{container_init_injected}

abbrev pub set_status : Workspace → WorkspaceStatus → Workspace
set_status ws status = record { meta = ws.meta; spec = ws.spec; status = status }

abbrev pub set_conditions : Workspace → List WorkspaceCondition → Workspace
set_conditions ws conditions = set_status ws (record ws.status { conditions = conditions })

-- The same but for the times.
unfoldable pub is_same_condition : WorkspaceCondition → WorkspaceCondition → Bool
is_same_condition a b =
    a.type == b.type && a.status == b.status && a.reason == b.reason && a.message == b.message

abbrev pub not_ready : String → String → ℕ → WorkspaceCondition
not_ready reason text now = record {
  type = "Ready";
  status = "False";
  last_probe_time = none;
  last_transition_time = some now;
  reason = reason;
  message = text;
}

unfoldable pub not_ready_conditions : Workspace → WorkspaceCondition → List WorkspaceCondition
not_ready_conditions ws condition =
    keep (λ c. c.type /= "Ready") ws.status.conditions ++ (condition ∷ [])

abbrev pub to_workspace_condition : PodCondition → WorkspaceCondition
to_workspace_condition c = record {
  type = c.type;
  status = c.status;
  last_probe_time = c.last_probe_time;
  last_transition_time = c.last_transition_time;
  reason = c.reason;
  message = c.message;
}

abbrev pub is_set {ℓ} : {A : Type ℓ} → Option A → Bool
is_set none = false
is_set (some a) = true

-- How the container ended: where it waits to be started again, how it ended before.
unfoldable pub termination_of : ContainerStatus → Option Terminated
termination_of s =
    if is_set s.state.waiting then s.last_termination_state.terminated else s.state.terminated

abbrev pub first_state : List ContainerStatus → ContainerState
first_state [] = record { waiting = none; running = none; terminated = none }
first_state (s ∷ ss) = s.state

abbrev pub is_empty_status : Pod → Bool
is_empty_status pod =
    nat_eq (length pod.conditions) 0 && nat_eq (length pod.container_statuses) 0 && pod.other == ""

module _ {S : Type 0} (api : WorkspaceClient S) where
  -- A failure to write the condition is only logged.
  unfoldable pub set_not_ready_condition : Workspace → String → String → Run S (Unit {0})
  set_not_ready_condition ws reason text =
      if any (is_same_condition (not_ready reason text 0)) ws.status.conditions then pure tt else do
        now ← observes api.now
        let conditions = not_ready_conditions ws (not_ready reason text now)
        when (flip (decided (conditions-discrete ws.status.conditions conditions))) (do
          _ ← attempt (
              writes (update_status (set_conditions ws conditions))
                (api.status_update (set_conditions ws conditions)))
          pure tt)

  -- The step that failed, where the message is the runner's own diagnostic.
  unfoldable pub diagnosed_step : Terminated → Option String
  diagnosed_step t =
      if ltb 1024 (api.byte_length t.message)
      then none
      else elim (api.decode_diagnostic t.message) [
        | none ↦ none
        | some (source, version, state, step) ↦
            if source == "container-init"
              && eq_int version (pos 1)
              && state == "failed"
              && api.is_failure_step step
            then some step
            else none
      ]

  abbrev pub failure_of : Terminated → Option String → List WorkspaceCondition
  failure_of t none = []
  failure_of t (some step) =
      record {
        type = "ContainerInitialized";
        status = "False";
        last_probe_time = none;
        last_transition_time = t.finished_at;
        reason = "ContainerInitFailed";
        message =
            ("Container initialization failed during " <> step)
            <> "; inspect the main container logs.";
      }
      ∷ []

  abbrev pub terminated_condition : Option Terminated → List WorkspaceCondition
  terminated_condition none = []
  terminated_condition (some t) =
      if eq_int t.exit_code (pos 0) then [] else failure_of t (diagnosed_step t)

  abbrev pub is_injected : Option ContainerInitSpec → Bool
  is_injected none = false
  is_injected (some cfg) = cfg.mode == container_init_injected

  -- The condition, or none, as a list.
  unfoldable pub container_init_failure_condition :
      Workspace → List ContainerStatus → List WorkspaceCondition
  container_init_failure_condition ws [] = []
  container_init_failure_condition ws (s ∷ ss) =
      if is_injected ws.spec.container_init then terminated_condition (termination_of s) else []

  unfoldable pub windows_ready : ℕ → ℕ → WorkspaceCondition
  windows_ready replicas now = record {
    type = "Ready";
    status = if nat_eq replicas 0 then "False" else "True";
    last_probe_time = some now;
    last_transition_time = some now;
    reason = if nat_eq replicas 0 then "WindowsProvisioning" else "WindowsReady";
    message =
        if nat_eq replicas 0
        then "Waiting for Windows native setup, guest agent and bootstrap removal"
        else "Windows setup and bootstrap removal completed";
  }

  -- A condition that was there already keeps its times.
  unfoldable pub keep_times : List WorkspaceCondition → WorkspaceCondition → WorkspaceCondition
  keep_times [] c = c
  keep_times (old ∷ olds) c = keep_times olds (
      if is_same_condition c old
      then record c {
        last_transition_time = old.last_transition_time;
        last_probe_time = old.last_probe_time;
      }
      else c)

  unfoldable pub windows_status_conditions :
      Workspace → ℕ → ℕ → List WorkspaceCondition → List WorkspaceCondition
  windows_status_conditions ws replicas now conditions =
      map (keep_times ws.status.conditions)
        (keep (λ c. c.type /= "Ready") conditions ++ (windows_ready replicas now ∷ []))

  abbrev pub pod_conditions : Workspace → Option Pod → List WorkspaceCondition
  pod_conditions ws none = []
  pod_conditions ws (some pod) =
      if is_empty_status pod
      then []
      else map to_workspace_condition pod.conditions
        ++ container_init_failure_condition ws pod.container_statuses

  abbrev pub pod_state : Option Pod → ContainerState
  pod_state none = first_state []
  pod_state (some pod) = first_state pod.container_statuses

  unfoldable pub observed_status : Workspace → ℕ → Option Pod → ℕ → WorkspaceStatus
  observed_status ws replicas pod now = record {
    management_execution = ws.status.management_execution;
    conditions =
        if windows_workspace ws
        then windows_status_conditions ws replicas now (pod_conditions ws pod)
        else pod_conditions ws pod;
    ready_replicas = replicas;
    container_state = pod_state pod;
  }

  -- The function that is retried: the execution identity is that of the workspace read now.
  unfoldable pub write_status : Workspace → WorkspaceStatus → Run S (Unit {0})
  write_status ws status = do
    latest ← reads (api.get_workspace ws.name ws.namespace)
    let merged =
        set_status latest
          (record status { management_execution = latest.status.management_execution })
    _ ← writes (update_status merged) (api.status_update merged)
    pure tt

  unfoldable pub update_workspace_status : Workspace → ℕ → Option Pod → Run S (Unit {0})
  update_workspace_status ws replicas pod = do
    now ← observes api.now
    when (flip (decided (WorkspaceStatus-discrete ws.status (observed_status ws replicas pod now))))
        (api.retry_on_conflict (write_status ws (observed_status ws replicas pod now)))
