-- ===== src/User/Deletion.antt =====
-- What the deletion of a user removes, and when its finalizer is released.
use controller.Base.{
  true, false, ◌≡◌, ◌≢◌, ◌⊎◌, inl, inr, Option, none, some, [], ◌∷◌, All, at_key, arith, eq_iff,
}
use controller.Base.Effects.{Error, ok, err, World, ◌>>=◌}
use controller.Base.Safety.{Only, only_rules}
use controller.Base.Loops.{Result-cases}
use controller.Api.User.{User}
use controller.User.Client.{
  UserClient, Call, update_user, delete_namespace, delete_role_binding, Namespace, user_finalizer,
  annotation_user_uid,
}
use controller.User.Namespaces.{
  personal_namespace_matches, delete_binding_of_user, delete_if_owned, cleanup_user,
}
use controller.User.Reconcile.{set_finalizers, reconcile_deletion}

-- Deleting a namespace wants the very UID of the user recorded on it; an unclaimed legacy
-- namespace does not do.
abbrev pub IsOwnDelete : User → Call → Type 0
IsOwnDelete user (delete_role_binding guarded rb) = Unit
IsOwnDelete user (delete_namespace ns) =
    (at_key ns.annotations annotation_user_uid ≡ user.uid) × (user.uid ≢ "") × (ns.deleting ≡ false)
IsOwnDelete user _ = ⊥

matching-IsOwnDelete :
    (user : User) (ns : Namespace)
    → personal_namespace_matches ns user false ≡ true
    → IsOwnDelete user (delete_namespace ns)
unfolding personal_namespace_matches
matching-IsOwnDelete user ns h = ground (
  arith,
  eq_iff user.uid "",
  eq_iff (at_key ns.annotations annotation_user_uid) "",
  eq_iff (at_key ns.annotations annotation_user_uid) user.uid,
)

module _ {S : Type 0} (api : UserClient S) where
  owned-Only :
      (user : User) (found : Option Namespace)
      → Only (IsOwnDelete user) (delete_if_owned api user found)
  unfolding delete_if_owned
  owned-Only user none = search only_rules
  owned-Only user (some ns) = search (only_rules, matching-IsOwnDelete) depth 9

  cleanup-Only : (user : User) → Only (IsOwnDelete user) (cleanup_user api user)
  unfolding cleanup_user delete_binding_of_user
  cleanup-Only user = search (only_rules, owned-Only) depth 14

  -- Cleaning up a user deletes nothing but RoleBindings and a namespace that carries the UID of
  -- this very user and is not terminating yet, whatever the cluster answers. So a namespace that
  -- a replacement user of the same name finds is not deleted.
  pub cleanup_deletes_only_own_namespace :
      (user : User) (w : World S Call)
      → w.calls ≡ []
      → All (IsOwnDelete user) (cleanup_user api user w).1.calls
  cleanup_deletes_only_own_namespace user w fresh = (cleanup-Only user).at w (rw fresh tt)

  -- The finalizer is released last: where the user holds it, deletion writes the user without it
  -- exactly when the clean-up has succeeded, on top of what the clean-up has logged; a clean-up
  -- that fails is the result, and the user is not written.
  pub finalizer_released_after_cleanup :
      (user : User) (w : World S Call)
      → api.contains_finalizer user.finalizers user_finalizer ≡ true
      → let released = set_finalizers user (api.remove_finalizer user.finalizers user_finalizer) in
        let cleaned = cleanup_user api user w in
        ((cleaned.0 ≡ ok tt)
          × ((reconcile_deletion api user w).1.calls ≡ update_user released ∷ cleaned.1.calls))
        ⊎ ((e : Error) × (cleaned.0 ≡ err e)
            × ((reconcile_deletion api user w).0 ≡ err e)
            × ((reconcile_deletion api user w).1.calls ≡ cleaned.1.calls))
  unfolding reconcile_deletion ◌>>=◌
  finalizer_released_after_cleanup user w held = elim (Result-cases (cleanup_user api user w).0) [
    | inl good ↦ inl (good, ground (arith, good))
    | inr (e, bad) ↦ inr (e, bad, ground (arith, bad), ground (arith, bad))
  ]
