-- ===== src/Workspace/Readiness.antt =====
-- What the status of a workspace keeps.
use controller.Base.{
  ℕ, String, Bool, true, false, ◌≡◌, refl, ◌∙◌, Option, List, [], ◌∷◌, ◌++◌, map, keep, arith,
  if◌then◌else◌, ◌==◌, ◌/=◌,
}
use controller.Base.Effects.{Result, ok, err, World, Act, ◌>>=◌, when, continue, pure}
use controller.Api.Workspace.{Workspace, WorkspaceStatus, WorkspaceCondition}
use controller.Workspace.Client.{WorkspaceClient, Call, Pod, update_status}
use controller.Workspace.Status.{
  is_same_condition, not_ready, not_ready_conditions, write_status, update_workspace_status,
  keep_times, windows_ready, windows_status_conditions, set_status,
}

-- A condition without its times.
abbrev pub words : WorkspaceCondition → String × String × String × String
words c = (c.type, c.status, c.reason, c.message)

abbrev is_ready : WorkspaceCondition → Bool
is_ready c = c.type == "Ready"

none_ready :
    (cs : List WorkspaceCondition) (c : WorkspaceCondition)
    → is_ready c ≡ true
    → keep is_ready (keep (λ d. d.type /= "Ready") cs ++ (c ∷ [])) ≡ c ∷ []
none_ready [] c h = ground arith
none_ready (d ∷ cs) c h = ground (arith, none_ready cs c h)

-- What the update of the readiness may do to the world, step by step: look at the time, read the
-- workspace, or read it and write, right after this read, a workspace that has the execution identity,
-- spec and metadata that were read.
pub data Attempts {S : Type 0} (api : WorkspaceClient S) (ws : Workspace)
    : World S Call → World S Call → Type 0 where
  rest : {w : World S Call} → Attempts api ws w w
  looked :
      {w v : World S Call}
      → Attempts api ws w v
      → Attempts api ws w (record v { server = (api.now v.server).1 })
  missed :
      {w v : World S Call}
      → Attempts api ws w v
      → Attempts api ws w
          (record v { server = (api.get_workspace ws.name ws.namespace v.server).1 })
  wrote :
      {w v : World S Call}
      → Attempts api ws w v
      → (latest u : Workspace) → (api.get_workspace ws.name ws.namespace v.server).0 ≡ ok latest
      → u.status.management_execution ≡ latest.status.management_execution
      → u.spec ≡ latest.spec
      → u.meta ≡ latest.meta
      → Attempts api ws w (record {
        server = (api.status_update u (api.get_workspace ws.name ws.namespace v.server).1).1;
        calls = update_status u ∷ v.calls;
      })

module _ {S : Type 0} (api : WorkspaceClient S) where
  -- The failure of a workspace replaces what was said of its readiness: there is exactly one
  -- condition of type Ready then, the new one, and all others are kept in their order before it.
  pub not_ready_is_unique :
      (ws : Workspace) (reason text : String) (now : ℕ)
      → let after = not_ready_conditions ws (not_ready reason text now) in
        (keep (λ c. c.type == "Ready") after ≡ not_ready reason text now ∷ [])
        × (after
            ≡ keep (λ c. c.type /= "Ready") ws.status.conditions
              ++ (not_ready reason text now ∷ []))
  unfolding not_ready_conditions
  not_ready_is_unique ws reason text now =
      (none_ready ws.status.conditions (not_ready reason text now) refl, refl)

  joined :
      (ws : Workspace) {u v w : World S Call}
      → Attempts api ws u v
      → Attempts api ws v w
      → Attempts api ws u w
  joined ws a rest = a
  joined ws a (looked b) = looked (joined ws a b)
  joined ws a (missed b) = missed (joined ws a b)
  joined ws a (wrote b latest u read e s m) = wrote (joined ws a b) latest u read e s m

  done : (r : Result Workspace) (w : World S Call) → (continue r (λ _. pure (tt {0})) w).1 ≡ w
  unfolding pure
  done (ok u) w = refl
  done (err e) w = refl

  write-at :
      (ws : Workspace) (status : WorkspaceStatus) (w : World S Call) (r : Result Workspace)
      → (api.get_workspace ws.name ws.namespace w.server).0 ≡ r
      → Attempts api ws w (write_status api ws status w).1
  unfolding write_status set_status ◌>>=◌
  write-at ws status w (ok latest) read =
      let merged =
        set_status latest
          (record status { management_execution = latest.status.management_execution }) in
      let next = (api.get_workspace ws.name ws.namespace w.server).1 in
      rw
        (
          read,
          done (api.status_update merged next).0 (record {
            server = (api.status_update merged next).1;
            calls = update_status merged ∷ w.calls;
          }),
        )
        (wrote rest latest merged read refl refl refl)
  write-at ws status w (err e) read = rw read (missed rest)

  when-Attempts :
      (ws : Workspace) (b : Bool) (m : Act (World S Call) (Unit {0})) (v w : World S Call)
      → Attempts api ws v w
      → ((u : World S Call) → Attempts api ws u (m u).1)
      → Attempts api ws v (when b m w).1
  unfolding when
  when-Attempts ws true m v w a h = joined ws a (h w)
  when-Attempts ws false m v w a h = a

  -- An update of the readiness never rolls back the execution identity: whatever it writes, also when it
  -- is retried after conflicts, it writes right after a read of the workspace in the same attempt, with the
  -- execution identity, spec and metadata that this read has answered with; and it does nothing
  -- else to the cluster. A retry is taken to do what its attempts do, one after the other.
  pub readiness_keeps_execution :
      (retried : (R : World S Call → World S Call → Type 0) (m : Act (World S Call) (Unit {0}))
        → ((w : World S Call) → R w w)
        → ((u v w : World S Call) → R u v → R v w → R u w)
        → ((w : World S Call) → R w (m w).1)
        → (w : World S Call) → R w (api.retry_on_conflict m w).1)
      (ws : Workspace) (replicas : ℕ) (pod : Option Pod) (w : World S Call)
      → Attempts api ws w (update_workspace_status api ws replicas pod w).1
  unfolding update_workspace_status ◌>>=◌
  readiness_keeps_execution retried ws replicas pod w =
      when-Attempts ws _ _ w _ (looked rest)
        (retried (Attempts api ws) _ (λ u. rest) (λ u v t. joined ws) (λ u. write-at ws _ u _ refl))

  timed :
      (b : Bool) (old c : WorkspaceCondition)
      → words (
          if b
          then record c {
            last_transition_time = old.last_transition_time;
            last_probe_time = old.last_probe_time;
          }
          else c)
        ≡ words c
  timed true old c = refl
  timed false old c = refl

  keep_times-words :
      (olds : List WorkspaceCondition) (c : WorkspaceCondition)
      → words (keep_times api olds c) ≡ words c
  unfolding keep_times
  keep_times-words [] c = refl
  keep_times-words (old ∷ olds) c = keep_times-words olds _ ∙ timed (is_same_condition c old) old c

  all-words :
      (olds cs : List WorkspaceCondition) → map words (map (keep_times api olds) cs) ≡ map words cs
  all-words olds [] = refl
  all-words olds (c ∷ cs) = cc (keep_times-words olds c, all-words olds cs)

  -- What the status of a Windows workspace says is the conditions of the pod but for readiness, in their
  -- order, and then readiness by the guest's replicas; the times that are carried over from
  -- the old conditions change none of these words.
  pub windows_conditions_say :
      (ws : Workspace) (replicas now : ℕ) (conditions : List WorkspaceCondition)
      → map words (windows_status_conditions api ws replicas now conditions)
        ≡ map words
            (keep (λ c. c.type /= "Ready") conditions ++ (windows_ready api replicas now ∷ []))
  unfolding windows_status_conditions
  windows_conditions_say ws replicas now conditions =
      all-words ws.status.conditions
        (keep (λ c. c.type /= "Ready") conditions ++ (windows_ready api replicas now ∷ []))
