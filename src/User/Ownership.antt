-- ===== src/User/Ownership.antt =====
-- Who owns a personal namespace: what the controller claims, refuses and deletes.
use controller.Base.{
  String, true, false, ◌≡◌, ◌≢◌, refl, Option, none, some, [], ◌∷◌, All, Map, at_key, lookup-put,
  flip, arith, eq_iff, eq_refl,
}
use controller.Base.Effects.{ok, World, is_ok, ◌>>=◌}
use controller.Base.Safety.{Only, only_rules, Only-bind-lift, Only-guard}
use controller.Api.Meta.{ObjectMeta}
use controller.Api.User.{User}
use controller.Api.Auth.{PersonalNamespaceConfig}
use controller.User.Client.{
  UserClient, Call, put_namespace, put_role_binding, delete_role_binding, put_quota, Namespace,
  RoleBinding, RoleRef, ResourceQuota, label_managed_by, label_user_name, managed_by_value,
  label_personal_namespace, label_value_true, annotation_user_email, annotation_user_uid,
}
use controller.User.Bindings.{is_managed_for, grant, delete_for_replacement, ensure_role_binding}
use controller.User.Namespaces.{
  personal_namespace_matches, personal_namespace_name, stamp_namespace, exists_on_server,
  claim_namespace, limit_quota, ensure_resource_quota, own_namespace, reconcile_personal_namespace,
}

-- The marks by which a namespace is known to belong to the user.
abbrev pub IsMarkedFor : User → ObjectMeta → Type 0
IsMarkedFor user m =
    (at_key m.labels label_managed_by ≡ managed_by_value)
    × (at_key m.labels label_user_name ≡ user.name)
    × (at_key m.labels label_personal_namespace ≡ label_value_true)
    × (at_key m.annotations annotation_user_uid ≡ user.uid)
    × (at_key m.annotations annotation_user_email ≡ user.spec.email)

-- The marks win over whatever labels and annotations the AuthConfig sets and the namespace had.
stamp-IsMarkedFor :
    (user : User) (config : PersonalNamespaceConfig) (ns : Namespace)
    → IsMarkedFor user (stamp_namespace user config ns).meta
unfolding stamp_namespace
stamp-IsMarkedFor user config ns =
    (simp (lookup-put), simp lookup-put, simp lookup-put, simp lookup-put, simp lookup-put)

stamp-deleting :
    (user : User) (config : PersonalNamespaceConfig) (ns : Namespace)
    → (stamp_namespace user config ns).deleting ≡ ns.deleting
unfolding stamp_namespace
stamp-deleting user config ns = refl

-- The claim of a user on a namespace that it has just been stamped on is found again, without the
-- rule for legacy namespaces, as long as the user has a UID and the namespace is not terminating.
pub stamped_namespace_matches :
    (user : User) (config : PersonalNamespaceConfig) (ns : Namespace)
    → user.uid ≢ ""
    → ns.deleting ≡ false
    → personal_namespace_matches (stamp_namespace user config ns) user false ≡ true
unfolding personal_namespace_matches
stamped_namespace_matches user config ns named live =
    let (a, b, c, d, e) = stamp-IsMarkedFor user config ns in
    rw (a, b, c, d)
      (ground (
        arith,
        eq_iff user.uid "",
        eq_refl user.name,
        eq_refl user.uid,
        live,
        stamp-deleting user config ns,
      ))

claim-eq-ok :
    (user : User) (config : PersonalNamespaceConfig) (name : String) (ns m : Namespace)
    → claim_namespace user config name ns ≡ ok m
    → m ≡ stamp_namespace user config ns
unfolding claim_namespace
claim-eq-ok user config name ns m h = ground arith

-- The calls that reconciling the personal namespace may make: each object that is written carries
-- the user's marks, each grant is to the user's own email, and a binding is deleted only to
-- replace one that the controller manages for this user.
abbrev pub IsOwnClaim : User → Call → Type 0
IsOwnClaim user (put_namespace ns) = IsMarkedFor user ns.meta
IsOwnClaim user (put_role_binding rb) =
    (rb.subjects ≡ record { kind = "User"; name = user.spec.email } ∷ [])
    × (is_managed_for rb.meta user ≡ true)
IsOwnClaim user (delete_role_binding guarded rb) =
    (guarded ≡ true) × (is_managed_for rb.meta user ≡ true)
IsOwnClaim user (put_quota rq) = is_managed_for rq.meta user ≡ true
IsOwnClaim user _ = ⊥

grant-IsOwnClaim :
    (user : User) (role : String) (rb : RoleBinding)
    → IsOwnClaim user (put_role_binding (grant user role rb))
unfolding grant
grant-IsOwnClaim user role rb = (refl, simp (lookup-put, eq_refl))

limit-IsOwnClaim :
    (user : User) (rq : ResourceQuota) (hard : Map)
    → IsOwnClaim user (put_quota (limit_quota user rq hard))
unfolding limit_quota
limit-IsOwnClaim user rq hard = simp (lookup-put, eq_refl)

claim-IsOwnClaim :
    (user : User) (config : PersonalNamespaceConfig) (name : String) (ns m : Namespace)
    → claim_namespace user config name ns ≡ ok m
    → IsOwnClaim user (put_namespace m)
claim-IsOwnClaim user config name ns m h =
    rw (claim-eq-ok user config name ns m h) (stamp-IsMarkedFor user config ns)

managed-IsOwnClaim :
    (user : User) (rb : RoleBinding)
    → flip (is_managed_for rb.meta user) ≡ false
    → IsOwnClaim user (delete_role_binding true rb)
managed-IsOwnClaim user rb h = (refl, ground arith)

module _ {S : Type 0} (api : UserClient S) where
  delete-IsOwnClaim :
      (user : User) (location : String) (role : RoleRef) (found : Option RoleBinding)
      → Only (IsOwnClaim user) (delete_for_replacement api user location role found)
  unfolding delete_for_replacement
  delete-IsOwnClaim user location role none = search only_rules
  delete-IsOwnClaim user location role (some rb) =
      search (only_rules, Only-guard, managed-IsOwnClaim) depth 12

  pub binding-IsOwnClaim :
      (user : User) (namespace role kind : String)
      → Only (IsOwnClaim user) (ensure_role_binding api user namespace role kind)
  unfolding ensure_role_binding
  binding-IsOwnClaim user namespace role kind =
      search (only_rules, delete-IsOwnClaim, grant-IsOwnClaim) depth 12

  quota-IsOwnClaim :
      (user : User) (namespace : String) (spec : Map)
      → Only (IsOwnClaim user) (ensure_resource_quota api user namespace spec)
  unfolding ensure_resource_quota
  quota-IsOwnClaim user namespace spec = search (only_rules, limit-IsOwnClaim) depth 12

  own-IsOwnClaim :
      (user : User) (config : PersonalNamespaceConfig) (name : String)
      → Only (IsOwnClaim user) (own_namespace api user config name)
  unfolding own_namespace
  own-IsOwnClaim user config name =
      search (only_rules, Only-bind-lift, Only-guard, claim-IsOwnClaim) depth 12

  personal-Only :
      (user : User) (config : PersonalNamespaceConfig)
      → Only (IsOwnClaim user) (reconcile_personal_namespace api user config)
  unfolding reconcile_personal_namespace
  personal-Only user config =
      search (only_rules, own-IsOwnClaim, binding-IsOwnClaim, quota-IsOwnClaim) depth 12

  -- Reconciling the personal namespace makes no other calls than claims of the user, whatever the
  -- cluster answers and also when it fails: a namespace is written with the user's marks, which
  -- no configured label or annotation overrides, a RoleBinding is granted to the user's own email
  -- and deleted only if it is managed for this user, a quota is labelled for this user; no
  -- namespace is deleted.
  pub personal_namespace_claims_are_own :
      (user : User) (config : PersonalNamespaceConfig) (w : World S Call)
      → w.calls ≡ []
      → All (IsOwnClaim user) (reconcile_personal_namespace api user config w).1.calls
  personal_namespace_claims_are_own user config w fresh =
      (personal-Only user config).at w (rw fresh tt)

  -- A namespace that exists under the name and is not the user's is left alone: the
  -- reconcile fails, and has made no writing call at all, so that nothing is granted in it.
  pub foreign_namespace_is_refused :
      (user : User) (config : PersonalNamespaceConfig) (ns : Namespace) (w : World S Call)
      → (api.fetch_namespace (personal_namespace_name user config) w.server).0 ≡ ok (some ns)
      → exists_on_server ns ≡ true
      → personal_namespace_matches ns user true ≡ false
      → ((reconcile_personal_namespace api user config w).1.calls ≡ w.calls)
        × (is_ok (reconcile_personal_namespace api user config w).0 ≡ false)
  unfolding reconcile_personal_namespace own_namespace claim_namespace ◌>>=◌
  foreign_namespace_is_refused user config ns w found old foreign = ground arith
