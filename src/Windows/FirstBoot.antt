-- ===== src/Windows/FirstBoot.antt =====
-- The first boot of a guest: set up while its machine runs, its bootstrap removed while the machine
-- is off, ready once it runs again.
use controller.Base.{String, Bool, true, false, ◌≡◌, Option, none, some, has_key, arith, ◌∷◌}
use controller.Base.Effects.{Error, Result, ok, err, World, is_not_found, ◌>>=◌}
use controller.Api.Meta.{Secret}
use controller.Api.Workspace.{Workspace}
use controller.Workspace.Client.{WorkspaceClient, Call, complete_bootstrap, Pod, Vmi}
use controller.Workspace.Reset.{windows_bootstrap_secret_name}
use controller.Windows.Client.{WindowsClient, GuestAgent}
use controller.Windows.Names.{windows_hostname}
use controller.Windows.Bootstrap.{is_provisioned}
use controller.Windows.Lifecycle.{
  is_detaching, is_rebooting, is_stopped, wants_running, has_bootstrap_disk, mark_provisioned,
  clear_detaching, is_connected, windows_agent_connected, stage_windows_enrollment,
  finish_provisioning, provision_guest, reconcile_windows_provisioning, windows_ready,
  remove_bootstrap, without_answer, finish_windows_detach,
}
use controller.Windows.Stored.{
  IsLike, fresh→flags, held-detaching, held-provisioned, left-settled, left-provisioned,
  left-detaching,
}
use controller.Windows.Stages.{fresh, stage_of, IsConsistent}

-- The server stores an update of a workspace, and answers with the workspace as it keeps it.
pub record IsStoring {S : Type 0} (api : WorkspaceClient S) : Type 0 where
  pub stored : Workspace → S → Workspace
  pub update_is : (u : Workspace) (s : S) → (api.workspace_update u s).0 ≡ ok (stored u s)
  pub like : (u : Workspace) (s : S) → IsLike u (stored u s)

-- The answers of a cluster while the machine of the workspace runs: its instance is connected.
pub record IsUp {S : Type 0} (api : WorkspaceClient S) (ws : Workspace) (vmi : Vmi) : Type 0 where
  pub vmi_is : (s : S) → (api.get_vmi ws.name ws.namespace s).0 ≡ ok vmi
  pub connected : is_connected (ok vmi) ≡ true

-- The answers once the instance is gone, with the Secret of the first credentials the workspace's.
pub record IsDown {S : Type 0} (api : WorkspaceClient S) (ws : Workspace) (secret : Secret)
    : Type 0 where
  pub reason : Error
  pub gone : (s : S) → (api.get_vmi ws.name ws.namespace s).0 ≡ err reason
  pub missing : is_not_found reason ≡ true
  pub secret_is : (name : String) (s : S) → (api.get_secret name ws.namespace s).0 ≡ ok secret
  pub controlled : api.is_controlled_by secret.meta ws.meta ≡ true
  pub secret_written : (x : Secret) (s : S) → (api.secret_update x s).0 ≡ ok tt

-- The agent finds the guest set up, and takes the token.
pub record IsResponsive {S : Type 0} (agent : GuestAgent S) : Type 0 where
  pub completes : (n p v h : String) (s : S) → (agent.complete_bootstrap n p v h s).0 ≡ ok true
  pub stages : (n p v t : String) (s : S) → (agent.stage_enrollment n p v t s).0 ≡ ok tt

-- The first round: the machine runs, and the agent answers through the active launcher.
module _ {S : Type 0} (api : WorkspaceClient S) (win : WindowsClient S) (agent : GuestAgent S)
    (ws : Workspace) (pod : Pod) (vmi : Vmi) (secret : Secret) (storing : IsStoring api)
    (is_up : IsUp api ws vmi)
    (secret_is : (name : String) (s : S) → (api.get_secret name ws.namespace s).0 ≡ ok secret)
    (responsive : IsResponsive agent) where
  -- The run answers with the provisioned workspace as the server keeps it.
  abbrev pub IsMarked : Result (Workspace × Bool) → Type 0
  IsMarked r = (v : Workspace) × (r ≡ ok (v, false)) × IsLike (mark_provisioned ws) v

  stages : (w : World S Call) → (stage_windows_enrollment api win agent ws pod.name w).0 ≡ ok tt
  unfolding stage_windows_enrollment ◌>>=◌
  stages w = grind (arith, secret_is, responsive.stages)

  finishes : (w : World S Call) → IsMarked (finish_provisioning api win agent ws pod.name true w).0
  unfolding finish_provisioning ◌>>=◌
  finishes w =
      let staged = (stage_windows_enrollment api win agent ws pod.name w).1.server in
      let marked = mark_provisioned ws in
      (
        storing.stored marked staged,
        ground (arith, stages w, storing.update_is marked staged),
        storing.like marked staged,
      )

  provides :
      (w : World S Call)
      → has_key vmi.active_pods pod.uid ≡ true
      → IsMarked (provision_guest api win ws (some pod) (some agent) w).0
  unfolding provision_guest ◌>>=◌
  provides w active =
      let seen = (api.get_vmi ws.name ws.namespace w.server).1 in
      let hostname = windows_hostname api win ws in
      let asked : World S Call = record {
        server = (agent.complete_bootstrap ws.namespace pod.name ws.name hostname seen).1;
        calls = complete_bootstrap pod.name hostname ∷ w.calls;
      } in
      let (v, answer, like) = finishes asked in
      (
        v,
        ground (
          arith,
          active,
          is_up.vmi_is w.server,
          responsive.completes ws.namespace pod.name ws.name hostname seen,
          answer,
        ),
        like,
      )

  provides_through :
      (w : World S Call) (found : Option (GuestAgent S))
      → found ≡ some agent
      → has_key vmi.active_pods pod.uid ≡ true
      → IsMarked (provision_guest api win ws (some pod) found w).0
  provides_through w found h active = rw h (provides w active)

  enters :
      (w : World S Call)
      → win.guest_agent ≡ some agent
      → has_key vmi.active_pods pod.uid ≡ true
      → stage_of ws ≡ fresh
      → IsMarked (reconcile_windows_provisioning api win ws (some pod) w).0
  unfolding reconcile_windows_provisioning
  enters w set active f =
      rw ((fresh→flags ws f).0, (fresh→flags ws f).1)
        (provides_through w win.guest_agent set active)

  sets_up :
      (w : World S Call)
      → win.guest_agent ≡ some agent
      → has_key vmi.active_pods pod.uid ≡ true
      → stage_of ws ≡ fresh
      → is_stopped ws ≡ false
      → is_rebooting ws ≡ false
      → IsMarked (windows_ready api win ws (some pod) true w).0
  unfolding windows_ready windows_agent_connected ◌>>=◌
  sets_up w set active f s r =
      let (v, answer, like) = enters (windows_agent_connected api win ws w).1 set active f in
      (v, ground (arith, s, r, is_up.vmi_is w.server, is_up.connected, answer), like)

-- The removal of the bootstrap, once the instance is gone.
module _ {S : Type 0} (api : WorkspaceClient S) (win : WindowsClient S) (ws : Workspace)
    (secret : Secret) (storing : IsStoring api) (is_down : IsDown api ws secret) where
  -- The run answers with the workspace without the mark, as the server keeps it.
  abbrev pub IsCleared : Result Workspace → Type 0
  IsCleared r = (v : Workspace) × (r ≡ ok v) × IsLike (clear_detaching ws) v

  drops_answer : (w : World S Call) → IsCleared (remove_bootstrap api win ws none w).0
  unfolding remove_bootstrap ◌>>=◌
  drops_answer w =
      let name = windows_bootstrap_secret_name api ws in
      let read = (api.get_secret name ws.namespace w.server).1 in
      let next = (api.secret_update (without_answer api win secret) read).1 in
      let cleared = clear_detaching ws in
      (
        storing.stored cleared next,
        ground (
          arith,
          is_down.secret_is name w.server,
          is_down.controlled,
          is_down.secret_written (without_answer api win secret) read,
          storing.update_is cleared next,
        ),
        storing.like cleared next,
      )

  removes :
      (w : World S Call) → is_detaching ws ≡ true → IsCleared (finish_windows_detach api win ws w).0
  unfolding finish_windows_detach ◌>>=◌
  removes w d =
      let read : World S Call = record w {
        server = (api.get_vmi ws.name ws.namespace w.server).1;
      } in
      let (v, answer, like) = drops_answer read in
      (v, ground (arith, d, answer, is_down.gone w.server, is_down.missing), like)

-- Another round, with the machine up again.
settles :
    {S : Type 0} (api : WorkspaceClient S) (win : WindowsClient S) (u : Workspace) (pod : Pod)
    (vmi : Vmi) (w : World S Call)
    → IsUp api u vmi
    → is_stopped u ≡ false
    → is_rebooting u ≡ false
    → is_detaching u ≡ false
    → is_provisioned u ≡ true
    → (windows_ready api win u (some pod) true w).0 ≡ ok (u, true)
unfolding windows_ready windows_agent_connected reconcile_windows_provisioning ◌>>=◌
settles api win u pod vmi w is_up s r d p =
    ground (arith, s, r, d, p, is_up.vmi_is w.server, is_up.connected)

-- A fresh guest, and what its cluster is like in three phases of its first boot: `up` while its machine runs
-- for the first time, `down` once the instance is gone, `again` when the machine runs again, with
-- another instance and another launcher. Each phase may begin at any state of its server.
module _ {S : Type 0} (up down again : WorkspaceClient S) (win : WindowsClient S)
    (agent : GuestAgent S) (ws v u : Workspace) (pod : Pod) (later : Pod) (vmi next : Vmi)
    (secret : Secret) (up_stores : IsStoring up) (down_stores : IsStoring down)
    (is_up : IsUp up ws vmi)
    (secret_is : (name : String) (s : S) → (up.get_secret name ws.namespace s).0 ≡ ok secret)
    (responsive : IsResponsive agent) (is_down : IsDown down v secret)
    (is_again : IsUp again u next) where
  -- A fresh guest whose agent answers through the active launcher becomes ready in three runs, between which
  -- the cluster and whatever the server keeps of the workspace besides its spec, annotations and name may
  -- change: a round of readiness answers with it marked as provisioned; as it is kept then its
  -- machine is to be off and has no bootstrap CD, and the removal of the bootstrap, once the instance
  -- is gone, answers with the mark of the removal cleared; as it is kept then its machine is to run, still
  -- without the CD, and the next round says that it is ready.
  pub fresh_guest_becomes_ready :
      (w w' w'' : World S Call)
      → win.guest_agent ≡ some agent
      → has_key vmi.active_pods pod.uid ≡ true
      → IsConsistent ws
      → stage_of ws ≡ fresh
      → is_stopped ws ≡ false
      → is_rebooting ws ≡ false
      → IsLike (mark_provisioned ws) v
      → IsLike (clear_detaching v) u
      → ((marked : Workspace) × ((windows_ready up win ws (some pod) true w).0 ≡ ok (marked, false))
          × IsLike (mark_provisioned ws) marked)
        × (wants_running v ≡ false)
        × (has_bootstrap_disk v ≡ false)
        × ((cleared : Workspace) × ((finish_windows_detach down win v w').0 ≡ ok cleared)
            × IsLike (clear_detaching v) cleared)
        × (wants_running u ≡ true)
        × (has_bootstrap_disk u ≡ false)
        × ((windows_ready again win u (some later) true w'').0 ≡ ok (u, true))
  unfolding wants_running has_bootstrap_disk
  fresh_guest_becomes_ready w w' w'' set active consistent f s r marked cleared =
      let off = held-detaching ws v u consistent s r marked cleared in
      let kept = held-provisioned ws v u consistent s r marked cleared in
      let on = left-detaching ws v u consistent s r marked cleared in
      let done = left-provisioned ws v u consistent s r marked cleared in
      let (stopped, rebooting) = left-settled ws v u consistent s r marked cleared in
      (
        sets_up up win agent ws pod vmi secret up_stores is_up secret_is responsive w set active f s
            r,
        ground (arith, off),
        ground (arith, kept),
        removes down win v secret down_stores is_down w' off,
        ground (arith, on, stopped, rebooting),
        ground (arith, done),
        settles again win u later next w'' is_again stopped rebooting on done,
      )
