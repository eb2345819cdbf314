-- ===== src/Images/Keyed.antt =====
-- Lists of objects with unique names: deleting the objects of a selection one after the other, by
-- their names, leaves exactly the others.
use controller.Base.{
  String, Bool, true, false, ◌≡◌, refl, ◌&&◌, List, [], ◌∷◌, All, any, keep, ◌==◌, arith, eq_iff,
  eq_refl, Bool-cases, inl, inr,
}

module _ {A : Type 0} where
  pub keep-eq : (f g : A → Bool) (s : List A) → All (λ i. f i ≡ g i) s → keep f s ≡ keep g s
  keep-eq f g [] h = refl
  keep-eq f g (x ∷ s) h = ground (arith, h.0, keep-eq f g s h.1)

  pub keep-same : (f g : A → Bool) (s : List A) → ((i : A) → f i ≡ g i) → keep f s ≡ keep g s
  keep-same f g [] h = refl
  keep-same f g (x ∷ s) h = ground (arith, h x, keep-same f g s h)

  pub keep-every : (f : A → Bool) (s : List A) → ((i : A) → f i ≡ true) → keep f s ≡ s
  keep-every f [] h = refl
  keep-every f (x ∷ s) h = ground (arith, h x, keep-every f s h)

  pub keep-keep : (f g : A → Bool) (s : List A) → keep f (keep g s) ≡ keep (λ i. g i && f i) s
  keep-keep f g [] = refl
  keep-keep f g (x ∷ s) = ground (arith, keep-keep f g s)

-- No two objects have the same name.
abbrev pub IsUnique : {A : Type 0} → (A → String) → List A → Type 0
IsUnique name [] = Unit {0}
IsUnique name (x ∷ s) = (any (λ y. name y == name x) s ≡ false) × IsUnique name s

-- Some selected object that is stale has the name.
abbrev pub is_removed : {A : Type 0} → (A → String) → (A → Bool) → List A → String → Bool
is_removed name stale ms n = any (λ m. stale m && name m == n) ms

module _ {A : Type 0} (name : A → String) (stale labelled : A → Bool) where
  unseen :
      (n : String) (s : List A)
      → any (λ y. name y == n) s ≡ false
      → is_removed name stale (keep labelled s) n ≡ false
  unseen n [] h = refl
  unseen n (x ∷ s) h = ground (arith, h, unseen n s (ground (arith, h)))

  -- The first object is not the one that another name asks for.
  others :
      (x : A) (s t : List A)
      → any (λ y. name y == name x) s ≡ false
      → All (λ i. is_removed name stale t (name i) ≡ (labelled i && stale i)) s
      → All (λ i. is_removed name stale (x ∷ t) (name i) ≡ (labelled i && stale i)) s
  others x [] t h p = tt
  others x (i ∷ s) t h p = (
    ground (arith, p.0, h, eq_iff (name i) (name x), eq_iff (name x) (name i)),
    others x s t (ground (arith, h)) p.1,
  )

  along :
      (s t u : List A)
      → t ≡ u
      → All (λ i. is_removed name stale u (name i) ≡ (labelled i && stale i)) s
      → All (λ i. is_removed name stale t (name i) ≡ (labelled i && stale i)) s
  along s t u p h = rw p h

  pub removed-selected :
      (s : List A)
      → IsUnique name s
      → All (λ i. is_removed name stale (keep labelled s) (name i) ≡ (labelled i && stale i)) s
  removed-selected [] u = tt
  removed-selected (x ∷ s) u = elim (Bool-cases (labelled x)) [
    | inl has ↦ (
      ground (arith, has, unseen (name x) s u.0, eq_refl (name x)),
      along s _ (x ∷ keep labelled s) (ground (arith, has))
          (others x s (keep labelled s) u.0 (removed-selected s u.1)),
    )
    | inr lacks ↦ (
      ground (arith, lacks, unseen (name x) s u.0),
      along s _ (keep labelled s) (ground (arith, lacks)) (removed-selected s u.1),
    )
  ]
