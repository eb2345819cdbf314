-- ===== src/Machine/UserData.antt =====
-- What the user data of a guest holds.
use controller.Base.{
  String, Bool, true, false, ◌≡◌, refl, ap, ◌∙◌, ◌&&◌, ◌||◌, flip, Option, none, some, List, [],
  ◌∷◌, ◌++◌, map, any, keep, contains, ◌==◌, if◌then◌else◌, arith, eq_iff, eq_refl, Bool-cases, inl,
  inr,
}
use controller.Base.Effects.{Result, ok, err, is_ok}
use controller.Workspace.Client.{WorkspaceClient}
use controller.Machine.Client.{MachineClient, Item, item, mapping, other_item, Field, Body}
use controller.Machine.CloudInit.{
  items_of, set_items, merge_items, merge_keys, written, inject_into, inject_ssh_authorized_keys,
  read_user_data, is_binding, binding_item, bind_document, encode, keys_field, files_field,
}

-- The first field of the key.
abbrev pub field_of : String → Body → Option Field
field_of key [] = none
field_of key (f ∷ body) = if f.0 == key then some f.1 else field_of key body

abbrev pub texts : List Item → List String
texts [] = []
texts (item s ∷ xs) = s ∷ texts xs
texts (mapping fields other ∷ xs) = texts xs
texts (other_item text ∷ xs) = texts xs

-- The items that are no texts.
abbrev pub others : List Item → List Item
others [] = []
others (item s ∷ xs) = others xs
others (mapping fields other ∷ xs) = mapping fields other ∷ others xs
others (other_item text ∷ xs) = other_item text ∷ others xs

-- No text is there twice.
abbrev pub distinct : List String → Bool
distinct [] = true
distinct (x ∷ xs) = flip (contains xs x) && distinct xs

contains-same : (xs : List String) (x n : String) → (x == n) ≡ true → contains xs x ≡ contains xs n
contains-same xs x n h = ap (contains xs) (ground (arith, h, eq_iff x n))

items_of-set_items :
    (key : String) (xs : List Item) (body : Body) → items_of key (set_items key xs body) ≡ xs
unfolding items_of set_items
items_of-set_items key xs [] = ground (arith, eq_refl key)
items_of-set_items key xs (f ∷ body) = elim (Bool-cases (f.0 == key)) [
  | inl h ↦ ground (arith, h, eq_refl key)
  | inr h ↦ ground (arith, h, items_of-set_items key xs body)
]

field_of-set_items :
    (key other : String) (xs : List Item) (body : Body)
    → (key == other) ≡ false
    → field_of other (set_items key xs body) ≡ field_of other body
unfolding set_items
field_of-set_items key other xs [] h = ground (arith, h)
field_of-set_items key other xs (f ∷ body) h = elim (Bool-cases (f.0 == key)) [
  | inl same ↦ ground (arith, h, same, eq_iff f.0 key)
  | inr new ↦ ground (arith, new, field_of-set_items key other xs body h)
]

contains-merge_items :
    (seen : List String) (xs : List Item) (n : String)
    → contains (texts (merge_items seen xs)) n ≡ (contains (texts xs) n && flip (contains seen n))
unfolding merge_items
contains-merge_items seen [] n = refl
contains-merge_items seen (item x ∷ xs) n = elim (Bool-cases (x == n)) [
  | inl same ↦ ground (
    arith,
    same,
    contains-same seen x n same,
    contains-merge_items seen xs n,
    contains-merge_items (x ∷ seen) xs n,
  )
  | inr other ↦
      ground (arith, other, contains-merge_items seen xs n, contains-merge_items (x ∷ seen) xs n)
]
contains-merge_items seen (mapping fields other ∷ xs) n = contains-merge_items seen xs n
contains-merge_items seen (other_item text ∷ xs) n = contains-merge_items seen xs n

distinct-merge_items :
    (seen : List String) (xs : List Item) → distinct (texts (merge_items seen xs)) ≡ true
unfolding merge_items
distinct-merge_items seen [] = refl
distinct-merge_items seen (item x ∷ xs) = elim (Bool-cases (contains seen x)) [
  | inl held ↦ rw held (distinct-merge_items seen xs)
  | inr new ↦ ground (
    arith,
    new,
    contains-merge_items (x ∷ seen) xs x,
    eq_refl x,
    distinct-merge_items (x ∷ seen) xs,
  )
]
distinct-merge_items seen (mapping fields other ∷ xs) = distinct-merge_items seen xs
distinct-merge_items seen (other_item text ∷ xs) = distinct-merge_items seen xs

others-merge_items :
    (seen : List String) (xs : List Item) → others (merge_items seen xs) ≡ others xs
unfolding merge_items
others-merge_items seen [] = refl
others-merge_items seen (item x ∷ xs) = elim (Bool-cases (contains seen x)) [
  | inl held ↦ rw held (others-merge_items seen xs)
  | inr new ↦ rw new (others-merge_items (x ∷ seen) xs)
]
others-merge_items seen (mapping fields other ∷ xs) =
    ap (λ ys. mapping fields other ∷ ys) (others-merge_items seen xs)
others-merge_items seen (other_item text ∷ xs) =
    ap (λ ys. other_item text ∷ ys) (others-merge_items seen xs)

contains-keys :
    (xs : List Item) (keys : List String) (n : String)
    → contains (texts (xs ++ map item keys)) n ≡ (contains (texts xs) n || contains keys n)
contains-keys [] [] n = refl
contains-keys [] (k ∷ keys) n = ground (arith, contains-keys [] keys n)
contains-keys (item x ∷ xs) keys n = ground (arith, contains-keys xs keys n)
contains-keys (mapping fields other ∷ xs) keys n = contains-keys xs keys n
contains-keys (other_item text ∷ xs) keys n = contains-keys xs keys n

others-keys : (xs : List Item) (keys : List String) → others (xs ++ map item keys) ≡ others xs
others-keys [] [] = refl
others-keys [] (k ∷ keys) = others-keys [] keys
others-keys (item x ∷ xs) keys = others-keys xs keys
others-keys (mapping fields other ∷ xs) keys =
    ap (λ ys. mapping fields other ∷ ys) (others-keys xs keys)
others-keys (other_item text ∷ xs) keys = ap (λ ys. other_item text ∷ ys) (others-keys xs keys)

-- A document without binding files has one after it.
keep-none :
    (xs : List Item) (binding : String)
    → any is_binding xs ≡ false
    → keep is_binding (xs ++ binding_item binding ∷ []) ≡ binding_item binding ∷ []
unfolding controller.Base.lookup
keep-none [] binding h = refl
keep-none (x ∷ xs) binding h = ground (arith, h, keep-none xs binding)

module _ {S : Type 0} (api : WorkspaceClient S) (vms : MachineClient S) where
  -- Injecting keys into a document writes it with one sequence of keys that has every key it had and every
  -- injected one, each once, keeps what it had there besides texts, and leaves the other fields.
  pub keys_are_merged :
      (text : String) (keys : List String) (body : Body) (n other : String)
      → (keys_field == other) ≡ false
      → let made = set_items keys_field (merge_keys keys body) body in
        let had = items_of keys_field body in
        (inject_into api vms text keys (ok (some body))
          ≡ ok (written api vms text (vms.yaml_marshal made)))
        × (contains (texts (items_of keys_field made)) n
            ≡ (contains (texts had) n || contains keys n))
        × (distinct (texts (items_of keys_field made)) ≡ true)
        × (others (items_of keys_field made) ≡ others had)
        × (field_of other made ≡ field_of other body)
  unfolding inject_into
  keys_are_merged text keys body n other h =
      let had = items_of keys_field body in
      let merged = items_of-set_items keys_field (merge_keys keys body) body in
      (
        refl,
        rw merged (
            ground
              (arith, contains-merge_items [] (had ++ map item keys) n, contains-keys had keys n)),
        rw merged (distinct-merge_items [] (had ++ map item keys)),
        rw merged (others-merge_items [] (had ++ map item keys) ∙ others-keys had keys),
        field_of-set_items keys_field other (merge_keys keys body) body h,
      )

  abbrev pub is_null : Result (Option Body) → Bool
  is_null (ok none) = true
  is_null (ok (some body)) = false
  is_null (err e) = false

  into-ok :
      (text : String) (keys : List String) (r : Result (Option Body))
      → is_ok (inject_into api vms text keys r) ≡ flip (is_null r)
  unfolding inject_into
  into-ok text keys (ok none) = refl
  into-ok text keys (ok (some body)) = refl
  into-ok text keys (err e) = refl

  -- Injecting at least one key panics exactly where the user data is a null document.
  pub null_user_data_panics :
      (text key : String) (keys : List String)
      → is_ok (inject_ssh_authorized_keys api vms text (key ∷ keys))
        ≡ (text == "" || flip (is_null (read_user_data api vms text)))
  unfolding inject_ssh_authorized_keys
  null_user_data_panics text key keys = elim (Bool-cases (text == "")) [
    | inl empty ↦ ground (arith, empty, into-ok text (key ∷ keys) (ok (some [])))
    | inr other ↦ ground (arith, other, into-ok text (key ∷ keys) (read_user_data api vms text))
  ]

  -- Where the agent is bound to a workspace, the document is written with one file at the path of the
  -- binding, the controller's.
  pub binding_is_the_only_one :
      (binding : String) (body : Body) (text : String)
      → bind_document api vms binding body ≡ ok text
      → let files = items_of files_field body ++ binding_item binding ∷ [] in
        let made = set_items files_field files body in
        (encode api vms made ≡ ok text)
        × (keep is_binding (items_of files_field made) ≡ binding_item binding ∷ [])
  unfolding bind_document
  binding_is_the_only_one binding body text h =
      let files = items_of files_field body ++ binding_item binding ∷ [] in
      elim (Bool-cases (any is_binding (items_of files_field body))) [
        | inl has ↦ ground (arith, h, has)
        | inr free ↦ (
          ground (arith, h, free),
          rw (items_of-set_items files_field files body)
              (keep-none (items_of files_field body) binding free),
        )
      ]
