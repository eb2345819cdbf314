-- ===== src/Auth/Adoption.antt =====
-- The user that the bootstrap of the local administrator gives credentials to.
use controller.Base.{
  String, true, false, ◌≡◌, ◌≢◌, refl, ◌⊎◌, inl, inr, Option, none, some, at_key, Bool-cases, arith,
  eq_iff,
}
use controller.Base.Effects.{Result, ok, err, World, find, reads, missing_ok, ◌>>=◌}
use controller.Api.User.{User, LocalAuthSpec, role_admin}
use controller.Api.Auth.{AuthConfig}
use controller.Auth.Client.{AuthClient, Call, bootstrap_owner_annotation, system_namespace}
use controller.Auth.Slug.{slugify_email}
use controller.Auth.Bootstrap.{
  can_resume, legacy_secret_name, bootstrap_user, resume_or_create, admin_email,
}

abbrev pub bootstrap_email : AuthConfig → String
bootstrap_email cfg = elim cfg.spec.local_auth [
  | none ↦ ""
  | some l ↦ admin_email l.bootstrap_admin
]

-- A user that carries the mark of this AuthConfig, has the configured email and no credentials yet,
-- and is an administrator that is neither disabled nor being deleted.
abbrev pub IsUnfinished : AuthConfig → User → Type 0
IsUnfinished cfg user =
    (cfg.uid ≢ "")
    × (at_key user.annotations bootstrap_owner_annotation ≡ cfg.uid)
    × (user.spec.email ≡ bootstrap_email cfg)
    × (user.spec.role ≡ role_admin)
    × (user.spec.disabled ≡ false)
    × (user.deleting ≡ false)
    × (user.spec.local_auth ≡ none)

-- The server has answered with the user: for the name of the configured email, with one that is this
-- AuthConfig's own unfinished bootstrap, or for the user that the bootstrap has created.
abbrev pub IsOwnAdmin : {S : Type 0} → AuthClient S → AuthConfig → User → Type 0
IsOwnAdmin {S} api cfg user =
    let slug = slugify_email api.to_lower (bootstrap_email cfg) in
    ((v : S) × ((api.get_user slug v).0 ≡ ok user) × IsUnfinished cfg user)
    ⊎ ((v : S) × ((api.create (bootstrap_user cfg slug (bootstrap_email cfg)) v).0 ≡ ok user))

module _ {S : Type 0} (api : AuthClient S) where
  no-credentials :
      (l : Option LocalAuthSpec) → (elim l [ none ↦ false | some _ ↦ true ]) ≡ false → l ≡ none
  no-credentials none h = refl
  no-credentials (some l) h = absurd (ground (arith, h))

  resumed-IsUnfinished :
      (cfg : AuthConfig) (user : User)
      → can_resume cfg (bootstrap_email cfg) user ≡ true
      → IsUnfinished cfg user
  unfolding can_resume
  resumed-IsUnfinished cfg user h = (
    ground (arith, h, eq_iff cfg.uid ""),
    ground (arith, h, eq_iff (at_key user.annotations bootstrap_owner_annotation) cfg.uid),
    ground (arith, h, eq_iff user.spec.email (bootstrap_email cfg)),
    ground (arith, h, eq_iff user.spec.role role_admin),
    ground (arith, h),
    ground (arith, h),
    no-credentials user.spec.local_auth (ground (arith, h)),
  )

  found-user : (r : Result User) (user : User) → missing_ok r ≡ ok (some user) → r ≡ ok user
  found-user (ok u) user h = ground (arith, h)
  found-user (err e) user h = absurd (ground (arith, h))

  -- The user that is resumed or created is the AuthConfig's own.
  pub own-admin :
      (cfg : AuthConfig) (found : Option User) (user : User) (v w : World S Call)
      → let slug = slugify_email api.to_lower (bootstrap_email cfg) in
        (find (reads (api.get_user slug)) v).0 ≡ ok found
        → (resume_or_create api cfg slug (bootstrap_email cfg) found w).0 ≡ ok user
        → IsOwnAdmin api cfg user
  unfolding resume_or_create ◌>>=◌
  own-admin cfg (some existing) user v w read h =
      let slug = slugify_email api.to_lower (bootstrap_email cfg) in
      elim (Bool-cases (can_resume cfg (bootstrap_email cfg) existing)) [
        | inl own ↦
            let same : existing ≡ user = ground (arith, h, own) in
            inl (
              v.server,
              found-user _ user (ground (arith, read, same)),
              resumed-IsUnfinished cfg user (ground (arith, own, same)),
            )
        | inr foreign ↦ absurd (ground (arith, h, foreign))
      ]
  own-admin cfg none user v w read h =
      let slug = slugify_email api.to_lower (bootstrap_email cfg) in
      inr (
        (api.get_secret (legacy_secret_name api slug) system_namespace w.server).1,
        ground (arith, h),
      )
