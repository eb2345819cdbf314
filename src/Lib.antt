-- ===== src/Lib.antt =====
-- The reconcilers of the kube-workspaces controller, as functions on an abstract cluster.
--
-- The program is a Kubernetes controller. A reconciler reads the object that it is called for,
-- compares what the cluster has with what the object asks for, and makes the calls that bring the
-- two together; it ends with an error or with the time after which it wants to be called again.
-- The reconcilers share nothing but the cluster: the AuthConfig controller creates the first
-- administrator, whom the user controller then gives its namespace, in that namespace the
-- Workspace controller runs workspaces, and the ImageRepository controller fills the catalog of
-- images that a workspace is made from.
--
-- How the code is modelled. A method of a reconciler is an action, `World S C → Result A × World
-- S C` of Base/Effects: the world is the state `S` of the server and the log of the writing calls,
-- the last first. The client of a controller (User.Client, Auth.Client, Workspace.Client,
-- Machine.Client, Windows.Client, Images.Client) is a record of what each call answers and how the
-- server's state changes; it is a parameter, so what is proved of the log holds whatever the
-- cluster answers and whatever other clients do between two calls. Reads are not logged. A call is
-- logged whether it succeeds or not. Errors are values with the classes of API errors that the
-- code tells apart. Base/Safety has the rules by which a property of every logged call is proved
-- of an action from its parts.
--
-- Files and code, all under internal/controller and api/v1alpha1:
--   Api/Meta, Api/User, Api/Auth, Api/Workspace, Api/Image, Api/ImageRepository, Api/SshKey: the
--     types of api/v1alpha1/user_types.go, authconfig_types.go, workspace_types.go,
--     container_init_types.go, vm_profile_types.go, image_types.go, imagerepository_types.go and
--     sshkey_types.go.
--   User/Bindings, User/Namespaces, User/Reconcile: user_controller.go. ensureRoleBinding and
--     cleanupStaleRoleBindings; reconcilePersonalNamespace, ensureResourceQuota and cleanupUser;
--     Reconcile. User/Revocation, User/Ownership, User/Deletion and User/Access are about them.
--   Auth/Slug, Auth/Local, Auth/Bootstrap: localauth.go. slugifyEmail and generatePassword;
--     usableLocalAdmin and createLocalAuthSecret; reconcileBootstrapAdmin.
--   Auth/Reconcile: authconfig_controller.go. Auth/Adoption, Auth/Bootstrapping, Auth/Usable,
--     Auth/Names and Auth/Verdict are about these four.
--   Workspace/Execution, Workspace/Bootstrap: vm_execution_epoch.go and
--     vm_management_bootstrap.go; Workspace/Epochs and Workspace/Credentials are about them.
--   Workspace/InitTemplate, Workspace/ContainerInit: container_init.go; Workspace/InitSafety.
--   Workspace/Services, Workspace/Workloads, Workspace/Deploy: generateService and
--     reconcileService, generateStatefulSet and generateDeployment, reconcileStatefulSet and
--     reconcileDeployment of workspace_controller.go; Workspace/Exposure.
--   Workspace/Status, Workspace/Reset: setNotReadyCondition, updateWorkspaceStatus and handleReset
--     of workspace_controller.go with the parts of vm_windows_guest.go that they call;
--     Workspace/Readiness and Workspace/Resets.
--   Workspace/Resources: vmDomainResources of workspace_controller.go; Workspace/Memory.
--   Workspace/Fixtures, Windows/Fixtures: small clusters that the tests share.
--   Windows/Names, Windows/Bootstrap, Windows/Lifecycle, Windows/Stages: vm_windows_guest.go. The
--     bootstrap Secret of a guest; the steps that provision a guest, detach its CD and restart it,
--     as the annotations of the machine record them; the stage that the annotations stand for.
--     Windows/Transitions, Windows/Boot, Windows/Stored, Windows/FirstBoot and Windows/Credentials
--     are about them.
--   Windows/Profile, Windows/Resolve, Windows/Preflight: vm_windows_gpu.go. The profile and the GPU
--     of a Windows machine, and what the cluster has to offer before it may be made;
--     Windows/Approval and Windows/Soundness.
--   Machine/Disks, Machine/CloudInit: vm_disks.go, with cloudInitUserData of workspace_controller.go
--     and linuxAgentCloudInit of vm_linux_agent.go; Machine/Claims, Machine/UserData and
--     Machine/Mounts. Machine/Agent: the rest of vm_linux_agent.go, and vm_root_disk.go.
--   Machine/Secrets, Machine/GuestBootstrap, Machine/Dispatch: the secrets of a machine,
--     reconcileVMGuestBootstrap and Reconcile of workspace_controller.go; Machine/Order.
--   Images/Files, Images/Sync, Images/Reconcile: imagerepository_controller.go. The reading of a
--     checkout; the writing and pruning of Images; clone, status and Reconcile. Images/Reading,
--     Images/Ownership, Images/Keyed, Images/Refinement, Images/Reports and Images/Resync are
--     about them.
--   Base: the shared notation, maps, texts and integers. Tests in each part: a small cluster.
--
-- Bounds. The loops of the code run over lists, so every action is total and no fuel is used. A
-- time is a number of nanoseconds, a quantity a number of billionths; the integers int32 and int64
-- are ℤ where the code only compares them, and the conversions to uint64 and to int32 wrap. A Go
-- map is an association list, whose order no property depends on; maps that the code compares are
-- taken to list their keys in one order. A name or email is taken as ASCII where the
-- code counts its bytes.
--
-- Parameters, since their code is not in the repository: the API server, controllerutil
-- (CreateOrUpdate is its read, the code's mutating function, and its write), SHA-256, bcrypt,
-- base64, JSON, YAML, regular expressions, the parser of URLs, Unicode's case tables, the random
-- source, git, the file system, HTTP and RetryOnConflict.
--
-- Not modelled: the generation and the update of a VirtualMachine (generateVirtualMachine and
-- updateVirtualMachine; the resources, the execution state and the running flag of a Windows
-- machine are modelled), reconcileVirtualMachine, which the dispatch takes as an argument, and
-- guardWindowsGPUTransition; the scripts and the guest-exec transport of the Windows agent, the types of the platform settings; generated
-- deep copies, metrics, logging, cmd/main.go and the wiring of the watches, since these are text,
-- generated code or input and output.
pub mod Base
pub mod Api
pub mod User
pub mod Auth
pub mod Workspace
pub mod Windows
pub mod Machine
pub mod Images
