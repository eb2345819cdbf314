-- ===== src/Machine/Claims.antt =====
-- When a disk is claimed.
use controller.Base.{
  String, Bool, true, false, ◌≡◌, refl, sym, ◌⊎◌, inl, inr, ◌==◌, ◌/=◌, ◌&&◌, flip, Option, [], All,
  lookup-put, arith, eq_iff, Bool-cases,
}
use controller.Base.Effects.{
  Result, ok, err, World, Act, is_not_found, wrap_result, wrapping, raise, attempt, reads, fail_if,
  when, ◌>>=◌,
}
use controller.Base.Safety.{
  Only, only_rules, bind-at, guard-at, Only-when, Only-writes, Only-for_each,
}
use controller.Api.Workspace.{Workspace}
use controller.Workspace.Client.{WorkspaceClient, Call, Disk, Vmi, update_disk}
use controller.Machine.Client.{MachineClient}
use controller.Machine.Disks.{
  vm_disk_owner_annotation, owner_of, owner_mark, is_platform_disk, claim_disk, is_same_owner,
  check_owner, check_instance, check_lapsed, claim_found, claim_once, claim_vm_data_volume,
  claim_vm_disks,
}

-- The workspace of a claim is gone, or another one has its name.
abbrev pub is_owner_gone : Option String → Result Workspace → Bool
is_owner_gone uid (ok other) = flip (is_same_owner uid other)
is_owner_gone uid (err e) = is_not_found e

abbrev pub is_instance_gone : Result Vmi → Bool
is_instance_gone (ok vmi) = false
is_instance_gone (err e) = is_not_found e

module _ {S : Type 0} (api : WorkspaceClient S) (vms : MachineClient S) where
  -- Both were seen to be gone, the workspace first, by two reads that begin at a state of the server.
  abbrev pub IsLapsed : Workspace → String → S → Type 0
  IsLapsed ws current v =
      let parts = vms.split_owner current in
      let other = api.live_workspace parts.0 ws.namespace v in
      (is_owner_gone parts.1 other.0 ≡ true)
      × (is_instance_gone (vms.live_vmi parts.0 ws.namespace other.1).0 ≡ true)

  -- A disk is claimed as the server has answered with it. It is the platform's, and in this answer
  -- nobody has claimed it, or whoever has was seen to be gone by the reads that follow.
  abbrev pub IsClaim : Workspace → Call → Type 0
  IsClaim ws (update_disk d) =
      (name : String) × ((v : S) × ((disk : Disk) × ((vms.live_disk name ws.namespace v).0
            ≡ ok disk)
          × (d ≡ claim_disk ws disk)
          × (is_platform_disk disk ≡ true)
          × ((owner_of disk ≡ "")
              ⊎ IsLapsed ws (owner_of disk) (vms.live_disk name ws.namespace v).1)))
  IsClaim ws _ = ⊥

  owner-gone :
      (disk name : String) (uid : Option String) (r : Result Workspace) (w : World S Call)
      → (check_owner api vms disk name uid r w).0 ≡ ok tt
      → is_owner_gone uid r ≡ true
  unfolding check_owner fail_if
  owner-gone disk name uid (ok other) w h = ground (arith, h)
  owner-gone disk name uid (err e) w h = ground (arith, h)

  instance-gone :
      (disk name : String) (r : Result Vmi) (w : World S Call)
      → (check_instance api vms disk name r w).0 ≡ ok tt
      → is_instance_gone r ≡ true
  unfolding check_instance fail_if raise
  instance-gone disk name (ok vmi) w h = absurd (ground (arith, h))
  instance-gone disk name (err e) w h = ground (arith, h)

  owner-still :
      (disk name : String) (uid : Option String) (r : Result Workspace) (w : World S Call)
      → (check_owner api vms disk name uid r w).1.server ≡ w.server
  unfolding check_owner fail_if
  owner-still disk name uid (ok other) w = ground arith
  owner-still disk name uid (err e) w = ground arith

  lapsed :
      (ws : Workspace) (disk current : String) (w : World S Call)
      → (check_lapsed api vms ws disk current w).0 ≡ ok tt
      → IsLapsed ws current w.server
  unfolding check_lapsed ◌>>=◌
  lapsed ws disk current w h =
      let parts = vms.split_owner current in
      let seen = attempt (reads (api.live_workspace parts.0 ws.namespace)) w in
      let other = (api.live_workspace parts.0 ws.namespace w.server).0 in
      let checked = check_owner api vms disk parts.0 parts.1 other seen.1 in
      let vmi = (vms.live_vmi parts.0 ws.namespace checked.1.server).0 in
      let later = attempt (reads (vms.live_vmi parts.0 ws.namespace)) checked.1 in
      (
        owner-gone disk parts.0 parts.1 other seen.1 (ground (arith, h)),
        rw (sym (owner-still disk parts.0 parts.1 other seen.1))
            (instance-gone disk parts.0 vmi later.1 (ground (arith, h))),
      )

  module _ {P : Call → Type 0} where
    owner-Only :
        (disk name : String) (uid : Option String) (r : Result Workspace)
        → Only P (check_owner api vms disk name uid r)
    unfolding check_owner
    owner-Only disk name uid (ok other) = search only_rules
    owner-Only disk name uid (err e) = search only_rules

    instance-Only :
        (disk name : String) (r : Result Vmi) → Only P (check_instance api vms disk name r)
    unfolding check_instance
    instance-Only disk name (ok vmi) = search only_rules
    instance-Only disk name (err e) = search only_rules

    lapsed-Only :
        (ws : Workspace) (disk current : String) → Only P (check_lapsed api vms ws disk current)
    unfolding check_lapsed
    lapsed-Only ws disk current = search (only_rules, owner-Only, instance-Only) depth 12

  freed :
      (ws : Workspace) (name : String) (disk : Disk) (w : World S Call)
      → (when
          (owner_of disk /= "" && owner_of disk /= owner_mark ws)
          (check_lapsed api vms ws name (owner_of disk))
          w).0
        ≡ ok tt
      → (owner_of disk /= owner_mark ws) ≡ true
      → (owner_of disk ≡ "") ⊎ IsLapsed ws (owner_of disk) w.server
  unfolding when
  freed ws name disk w h other = elim (Bool-cases (owner_of disk == "")) [
    | inl nobody ↦ inl (ground (arith, nobody, eq_iff (owner_of disk) ""))
    | inr somebody ↦ inr (lapsed ws name (owner_of disk) w (ground (arith, h, somebody, other)))
  ]

  found-at :
      (ws : Workspace) (name : String) (disk : Disk) (v : S) (w : World S Call)
      → (vms.live_disk name ws.namespace v).0 ≡ ok disk
      → (vms.live_disk name ws.namespace v).1 ≡ w.server
      → All (IsClaim ws) w.calls
      → All (IsClaim ws) (claim_found api vms ws name disk w).1.calls
  unfolding claim_found
  found-at ws name disk v w read next h = guard-at _ _ _ _ w h (λ platform.
      let checked = Only-when _ _ (λ _. lapsed-Only ws name (owner_of disk)) in
      bind-at _ _ _ w (checked.at w h) (λ t passed.
        let claimed = Only-when _ _ (λ other. Only-writes _ _ (
          name,
          (
            v,
            (
              disk,
              read,
              refl,
              ground (arith, platform),
              rw next (freed ws name disk w passed other),
            ),
          ),
        )) in
        claimed.at _ (checked.at w h)))

  unwrapped :
      {A : Type 0} (text : String) (r : Result A) (a : A) → wrap_result text r ≡ ok a → r ≡ ok a
  unwrapped text (ok b) a h = h
  unwrapped text (err e) a h = absurd (ground (arith, h))

  once-Only : (ws : Workspace) (name : String) → Only (IsClaim ws) (claim_once api vms ws name)
  once-Only ws name = record {
    at = λ w h. bind-at _ _ _ w (unfold wrapping reads in h) (λ disk read.
        unfold wrapping reads in found-at ws name disk w.server _ (unwrapped _ _ disk read) refl h);
  }

  module _
      (retry : (P : Call → Type 0) (m : Act (World S Call) (Unit {0}))
        → Only P m
        → Only P (api.retry_on_conflict m)) where
    volume-Only :
        (ws : Workspace) (name : String) → Only (IsClaim ws) (claim_vm_data_volume api vms ws name)
    unfolding claim_vm_data_volume
    volume-Only ws name = retry _ _ (once-Only ws name)

    disks-Only : (ws : Workspace) → Only (IsClaim ws) (claim_vm_disks api vms ws)
    unfolding claim_vm_disks
    disks-Only ws = Only-for_each _ _ (λ name. volume-Only ws name)

    -- Claiming the disks of a workspace writes only disks of the platform with the mark of the
    -- workspace and nothing else changed, each as the server has answered with it, and only where nobody had
    -- claimed it in this answer, or its workspace and then its instance were seen to be gone after
    -- it, where a retry makes no calls of its own.
    pub only_free_disks_are_claimed :
        (ws : Workspace) (w : World S Call)
        → w.calls ≡ []
        → All (IsClaim ws) (claim_vm_disks api vms ws w).1.calls
    only_free_disks_are_claimed ws w new = (disks-Only ws).at w (rw new tt)

-- A workspace that has claimed a disk is its owner.
pub claim-owner : (ws : Workspace) (disk : Disk) → owner_of (claim_disk ws disk) ≡ owner_mark ws
unfolding owner_of claim_disk
claim-owner ws disk = ground (
  arith,
  lookup-put vm_disk_owner_annotation vm_disk_owner_annotation (owner_mark ws) disk.annotations,
)
