-- ===== src/Auth/Usable.antt =====
-- Who counts as a usable local administrator, and what the bootstrap leaves alone.
use controller.Base.{
  String, Bool, true, false, ◌≡◌, ◌≢◌, ◌↔◌, refl, ◌⊎◌, inl, inr, Option, none, some, List, [], ◌∷◌,
  arith, eq_iff, eq_refl, All, any, at_key, ◌==◌, ◌/=◌, ◌&&◌, Bool-cases,
}
use controller.Base.Effects.{Result, ok, err, World, is_ok, ◌>>=◌}
use controller.Base.Loops.{Verdict-cases}
use controller.Base.{All-none}
use controller.Api.Meta.{Secret, SecretKeyRef, OwnerReference}
use controller.Api.User.{User, LocalAuthSpec}
use controller.Api.Auth.{AuthConfig, LocalAuthConfig, BootstrapAdminConfig}
use controller.Auth.Client.{AuthClient, Call, system_namespace, password_secret_hash_key}
use controller.Auth.Slug.{local_auth_secret_name, slugify_email}
use controller.Auth.Local.{
  annotation_user_uid, is_other_owner, is_locked, hash_key, usable_local_admin, usable_with,
  has_usable_secret, usable_secret, is_admin, usable_answer, create_local_auth_secret,
  adopt_or_create, is_own_secret,
}
use controller.Auth.Bootstrap.{
  any_usable, can_resume, resume_or_create, bootstrap, bootstrap_unless_usable, admin_email,
}
use controller.Auth.Bootstrapping.{any-silent}

-- An owner is of another kind than User, or this user.
abbrev pub IsOwner : User → OwnerReference → Type 0
IsOwner user owner = (owner.kind ≢ "User") ⊎ ((owner.uid ≡ user.uid) × (owner.name ≡ user.name))

module _ {S : Type 0} (api : AuthClient S) where
  -- The secret that the server answers with at this state is not being deleted, has no other user's
  -- UID, no owner of kind User but this one, and a hash that bcrypt reads.
  abbrev pub IsAccepted : User → SecretKeyRef → S → Type 0
  IsAccepted user ref v =
      (secret : Secret) × ((api.get_secret ref.name system_namespace v).0 ≡ ok secret)
      × (secret.deleting ≡ false)
      × ((at_key secret.annotations annotation_user_uid ≡ "")
          ⊎ (at_key secret.annotations annotation_user_uid ≡ user.uid))
      × All (IsOwner user) secret.owner_references
      × (is_ok (api.hash_cost (at_key secret.content (hash_key ref))) ≡ true)

  -- The search comes to the user at this state of the server.
  abbrev pub IsRecoveryAdmin : User → AuthConfig → S → Type 0
  IsRecoveryAdmin user cfg v =
      (user.spec.disabled ≡ false)
      × (user.deleting ≡ false)
      × (is_admin api user cfg ≡ true)
      × (is_locked user (api.now v).0 ≡ false)
      × ((local : LocalAuthSpec) × (user.spec.local_auth ≡ some local)
          × (local.enabled ≡ true)
          × IsAccepted user local.password_secret_ref (api.now v).1)

  owners :
      (user : User) (os : List OwnerReference)
      → any (is_other_owner user) os ≡ false
      → All (IsOwner user) os
  owners user [] h = tt
  owners user (o ∷ os) h = (
    elim (Bool-cases (o.kind == "User")) [
      | inl same ↦ inr (
        ground (arith, h, same, eq_iff o.uid user.uid),
        ground (arith, h, same, eq_iff o.name user.name),
      )
      | inr other ↦ inl (ground (arith, other, eq_iff o.kind "User"))
    ],
    owners user os (ground (arith, h)),
  )

  uid-cases : (uid own : String) → (uid /= "" && uid /= own) ≡ false → (uid ≡ "") ⊎ (uid ≡ own)
  uid-cases uid own h = elim (Bool-cases (uid == "")) [
    | inl none_said ↦ inl (ground (arith, none_said, eq_iff uid ""))
    | inr said ↦ inr (ground (arith, said, h, eq_iff uid own))
  ]

  answer-usable :
      (user : User) (ref : SecretKeyRef) (v : S) (r : Result Secret)
      → (api.get_secret ref.name system_namespace v).0 ≡ r
      → usable_answer api user ref r ≡ true
      → IsAccepted user ref v
  unfolding usable_secret
  answer-usable user ref v (ok s) e h = (
    s,
    e,
    ground (arith, h),
    uid-cases (at_key s.annotations annotation_user_uid) user.uid (ground (arith, h)),
    owners user s.owner_references (ground (arith, h)),
    ground (arith, h),
  )
  answer-usable user ref v (err e) h k = absurd (ground arith)

  secret-usable :
      (user : User) (ref : SecretKeyRef) (w : World S Call)
      → (has_usable_secret api user ref w).0 ≡ ok true
      → IsAccepted user ref w.server
  unfolding has_usable_secret ◌>>=◌
  secret-usable user ref w h =
      answer-usable user ref w.server (api.get_secret ref.name system_namespace w.server).0 refl
        (ground arith)

  with-IsRecoveryAdmin :
      (user : User) (cfg : AuthConfig) (l : Option LocalAuthSpec) (w : World S Call)
      → user.spec.local_auth ≡ l
      → (usable_with api user cfg l w).0 ≡ ok true
      → IsRecoveryAdmin user cfg w.server
  unfolding usable_with ◌>>=◌
  with-IsRecoveryAdmin user cfg none w e h = absurd (ground arith)
  with-IsRecoveryAdmin user cfg (some local) w e h =
      let secret =
        secret-usable user local.password_secret_ref (record w { server = (api.now w.server).1 })
          (ground arith) in
      (ground arith, ground arith, ground arith, ground arith, (local, e, ground arith, secret))

  pub usable-IsRecoveryAdmin :
      (user : User) (cfg : AuthConfig) (w : World S Call)
      → (usable_local_admin api user cfg w).0 ≡ ok true
      → IsRecoveryAdmin user cfg w.server
  unfolding usable_local_admin
  usable-IsRecoveryAdmin user cfg w h = with-IsRecoveryAdmin user cfg user.spec.local_auth w refl h

  -- Some user is one, at the state of the server at which the search comes to it.
  abbrev pub Some : AuthConfig → List User → World S Call → Type 0
  Some cfg [] w = ⊥
  Some cfg (u ∷ us) w =
      IsRecoveryAdmin u cfg w.server ⊎ Some cfg us (usable_local_admin api u cfg w).1

  -- A search for a usable administrator that finds one has found, among the users it was given,
  -- one who is neither disabled, being deleted nor locked at this time, who is an administrator by role or by
  -- the configured emails, whose local sign-in is enabled, and for whom the server answered, when the
  -- search came to it, with a secret that is not being deleted, carries no other user's UID, has no owner
  -- of kind User with another UID or name, and holds a hash that bcrypt reads.
  pub any_usable-finds_usable :
      (cfg : AuthConfig) (users : List User) (w : World S Call)
      → (any_usable api cfg users w).0 ≡ ok true
      → Some cfg users w
  unfolding any_usable
  any_usable-finds_usable cfg [] w h = absurd (ground arith)
  any_usable-finds_usable cfg (u ∷ us) w h =
      elim (Verdict-cases (usable_local_admin api u cfg w).0) [
        | inl good ↦ inl (usable-IsRecoveryAdmin u cfg w good)
        | inr (inl bad) ↦ inr (
            any_usable-finds_usable cfg us (usable_local_admin api u cfg w).1 (ground (arith, bad)))
        | inr (inr (e, bad)) ↦ absurd (ground (arith, bad))
      ]

  any_usable-writes_nothing :
      (cfg : AuthConfig) (users : List User) (w : World S Call)
      → w.calls ≡ []
      → (any_usable api cfg users w).1.calls ≡ []
  any_usable-writes_nothing cfg users w fresh =
      All-none (any_usable api cfg users w).1.calls
        ((any-silent api (λ _. ⊥) cfg users).at w (rw fresh tt))

  -- Where a usable administrator is found, the bootstrap is done: it succeeds and writes nothing.
  pub usable_admin_stops_bootstrap :
      (cfg : AuthConfig) (local : LocalAuthConfig) (users : List User) (w : World S Call)
      → w.calls ≡ []
      → (api.list_users w.server).0 ≡ ok users
      → (any_usable api cfg users (record w { server = (api.list_users w.server).1 })).0 ≡ ok true
      → ((bootstrap_unless_usable api cfg local w).0 ≡ ok tt)
        × ((bootstrap_unless_usable api cfg local w).1.calls ≡ [])
  unfolding bootstrap_unless_usable ◌>>=◌
  usable_admin_stops_bootstrap cfg local users w fresh listed found =
      let quiet =
        any_usable-writes_nothing cfg users (record w { server = (api.list_users w.server).1 })
          fresh in
      ground (arith, listed, found, quiet)

  -- Where there is an account of the bootstrap's name that is not this AuthConfig's own unfinished
  -- bootstrap, the bootstrap fails and writes nothing: no account is taken over.
  pub existing_account_is_refused :
      (cfg : AuthConfig) (config : Option BootstrapAdminConfig) (existing : User) (w : World S Call)
      → (api.get_user (slugify_email api.to_lower (admin_email config)) w.server).0 ≡ ok existing
      → can_resume cfg (admin_email config) existing ≡ false
      → (is_ok (bootstrap api cfg config w).0 ≡ false)
        × ((bootstrap api cfg config w).1.calls ≡ w.calls)
  unfolding bootstrap resume_or_create ◌>>=◌
  existing_account_is_refused cfg config existing w found foreign = ground (arith, found, foreign)

  -- The secret records the UID of the user, is controlled by it and not being deleted, and holds a hash
  -- that bcrypt reads.
  abbrev pub IsOwnSecret : User → Secret → Type 0
  IsOwnSecret user secret =
      (at_key secret.annotations annotation_user_uid ≡ user.uid)
      × (api.is_controlled_by secret.meta user.meta ≡ true)
      × (secret.deleting ≡ false)
      × (is_ok (api.hash_cost (at_key secret.content password_secret_hash_key)) ≡ true)

  own-IsOwnSecret :
      (user : User) (secret : Secret)
      → (is_own_secret api user secret ≡ true) ↔ IsOwnSecret user secret
  unfolding is_own_secret
  own-IsOwnSecret user secret = (
    λ h. (
      ground (arith, h, eq_iff (at_key secret.annotations annotation_user_uid) user.uid),
      ground (arith, h),
      ground (arith, h),
      ground (arith, h),
    ),
    λ (uid, controlled, live, hash). ground (
      arith,
      uid,
      controlled,
      live,
      hash,
      eq_refl user.uid,
      eq_iff (at_key secret.annotations annotation_user_uid) user.uid,
    ),
  )

  -- Where the server has a password secret of the name for a user with a UID, nothing is written. The call
  -- returns the reference to it exactly where the secret records the UID of the user, is
  -- controlled by it, is not being deleted and holds a hash that bcrypt reads, and else fails.
  pub existing_secret_is_never_replaced :
      (user : User) (text : String) (change : Bool) (secret : Secret) (w : World S Call)
      → user.uid ≢ ""
      → (api.get_secret
          (local_auth_secret_name api.sha256_prefix user.uid)
          system_namespace
          w.server).0
        ≡ ok secret
      → let done = create_local_auth_secret api user text change w in
        let name = local_auth_secret_name api.sha256_prefix user.uid in
        ((done.0 ≡ ok (record { name = name; key = password_secret_hash_key }))
          ↔ IsOwnSecret user secret)
        × ((is_ok done.0 ≡ true) ↔ IsOwnSecret user secret)
        × (done.1.calls ≡ w.calls)
  unfolding create_local_auth_secret adopt_or_create ◌>>=◌
  existing_secret_is_never_replaced user text change secret w named found =
      let own = own-IsOwnSecret user secret in
      (
        (
          λ h. own.0 (ground (arith, h, found, eq_iff user.uid "")),
          λ h. ground (arith, own.1 h, found, eq_iff user.uid ""),
        ),
        (
          λ h. own.0 (ground (arith, h, found, eq_iff user.uid "")),
          λ h. ground (arith, own.1 h, found, eq_iff user.uid ""),
        ),
        ground (arith, found, eq_iff user.uid ""),
      )
