-- ===== src/Resources/Effective.antt =====
-- GetPodEffectiveRequest (pkg/util/resource.go) against the requests of the single containers.
use flex_gpu_scheduler.Prelude.{
  true, subst, ◌⊎◌, ltb_ℤ, ◌≡◌, ◌∙◌, sym, ap, ℤ, ◌≤ℤ◌, String, str_eq, eq_iff, Map, lookup, insert,
  lookup-insert, some, List, [], ◌∷◌, arith, inl, inr, Bool-cases, Option-cases, if-true, if-false,
}
use flex_gpu_scheduler.Api.{Vendor}
use flex_gpu_scheduler.Resources.{raise, add_up, over_containers, get_pod_effective_request}

module _ (v : Vendor) where
  open v use {Quantity, add, cmp, amount, cmp-amount}

  -- A map has at least an amount of a resource.
  abbrev pub AtLeast : String → ℤ → Map Quantity → Type 0
  AtLeast name x m = (q : Quantity) × (lookup name m ≡ some q) × (x ≤ℤ amount q)

  insert-AtLeast :
      (name j : String) (x : ℤ) (new : Quantity) (m : Map Quantity)
      → (str_eq j name ≡ true → x ≤ℤ amount new)
      → AtLeast name x m
      → AtLeast name x (insert j new m)
  insert-AtLeast name j x new m larger (q, there, enough) = elim (Bool-cases (str_eq j name)) [
    | inl same ↦ (new, lookup-insert name j new m ∙ if-true _ _ same, larger same)
    | inr differ ↦ (q, lookup-insert name j new m ∙ if-false _ _ differ ∙ there, enough)
  ]

  -- One entry is left out where there is as much, or put in where there is less.
  raise-cons :
      (j : String) (new : Quantity) (rest m : Map Quantity)
      → ((raise v ((j, new) ∷ rest) m ≡ raise v rest m) × AtLeast j (amount new) m)
        ⊎ ((raise v ((j, new) ∷ rest) m ≡ raise v rest (insert j new m))
            × ((q : Quantity) → lookup j m ≡ some q → amount q ≤ℤ amount new))
  unfolding raise
  raise-cons j new rest m = elim (Option-cases (lookup j m)) [
    | inl missing ↦ inr (ground arith, λ q there. ground arith)
    | inr (old, there) ↦
        let law = cmp-amount new old in
        elim (Bool-cases (ltb_ℤ (amount old) (amount new))) [
          | inl more ↦ inr (
            ground arith,
            λ q same.
                let is : old ≡ q = ground arith in
                subst (λ x. amount x ≤ℤ amount new) is (ground arith),
          )
          | inr less ↦ inl (ground arith, (old, there, ground arith))
        ]
  ]

  raise-AtLeast :
      (name : String) (x : ℤ) (entries m : Map Quantity)
      → AtLeast name x m
      → AtLeast name x (raise v entries m)
  unfolding raise
  raise-AtLeast name x [] m h = h
  raise-AtLeast name x ((j, new) ∷ rest) m h = elim (raise-cons j new rest m) [
    | inl (same, more) ↦ subst (AtLeast name x) (sym same) (raise-AtLeast name x rest m h)
    | inr (put, less) ↦
        let (q, there, enough) = h in
        let larger : str_eq j name ≡ true → x ≤ℤ amount new = λ e.
          let found : lookup j m ≡ some q = ap (λ y. lookup y m) ((eq_iff j name).0 e) ∙ there in
          let above = less q found in omega arith in
        subst (AtLeast name x) (sym put)
          (raise-AtLeast name x rest (insert j new m) (insert-AtLeast name j x new m larger h))
  ]

  -- What an entry asks for is there afterwards.
  raise-takes :
      (name : String) (q : Quantity) (entries m : Map Quantity)
      → lookup name entries ≡ some q
      → AtLeast name (amount q) (raise v entries m)
  unfolding lookup
  raise-takes name q [] m there = cc
  raise-takes name q ((j, new) ∷ rest) m there = elim (Bool-cases (str_eq j name)) [
    | inr differ ↦
        let later : lookup name rest ≡ some q = ground arith in
        elim (raise-cons j new rest m) [
          | inl (same, more) ↦
              subst (AtLeast name (amount q)) (sym same) (raise-takes name q rest m later)
          | inr (put, less) ↦
              subst (AtLeast name (amount q)) (sym put)
                (raise-takes name q rest (insert j new m) later)
        ]
    | inl same_key ↦
        let key = (eq_iff j name).0 same_key in
        let is : new ≡ q = ground arith in
        elim (raise-cons j new rest m) [
          | inl (same, more) ↦ subst (AtLeast name (amount q)) (sym same) (
              raise-AtLeast name (amount q) rest m (
                subst (λ y. AtLeast y (amount q) m) key
                  (subst (λ y. AtLeast j (amount y) m) is more)))
          | inr (put, less) ↦ subst (AtLeast name (amount q)) (sym put) (
              raise-AtLeast name (amount q) rest (insert j new m) (
                new,
                lookup-insert name j new m ∙ if-true _ _ same_key,
                subst (λ y. amount q ≤ℤ amount y) (sym is) (omega arith),
              ))
        ]
  ]

  containers-AtLeast :
      (name : String) (x : ℤ) (containers : List (Map Quantity)) (m : Map Quantity)
      → AtLeast name x m
      → AtLeast name x (over_containers v (raise v) containers m)
  unfolding over_containers
  containers-AtLeast name x [] m h = h
  containers-AtLeast name x (requests ∷ rest) m h =
      containers-AtLeast name x rest (raise v requests m) (raise-AtLeast name x requests m h)

  -- One of the containers asks for a quantity of a resource.
  abbrev pub SomeAsks : String → Quantity → List (Map Quantity) → Type 0
  SomeAsks name q [] = ⊥
  SomeAsks name q (requests ∷ rest) = (lookup name requests ≡ some q) ⊎ SomeAsks name q rest

  containers-takes :
      (name : String) (q : Quantity) (containers : List (Map Quantity)) (m : Map Quantity)
      → SomeAsks name q containers
      → AtLeast name (amount q) (over_containers v (raise v) containers m)
  unfolding over_containers
  containers-takes name q [] m asks = absurd asks
  containers-takes name q (requests ∷ rest) m (inl there) =
      containers-AtLeast name (amount q) rest (raise v requests m)
        (raise-takes name q requests m there)
  containers-takes name q (requests ∷ rest) m (inr later) =
      containers-takes name q rest (raise v requests m) later

  AtLeast-trans :
      (name : String) (x : ℤ) (m m' : Map Quantity)
      → ((q : Quantity) → lookup name m ≡ some q → AtLeast name (amount q) m')
      → AtLeast name x m
      → AtLeast name x m'
  AtLeast-trans name x m m' all (q, there, enough) =
      let (q', there', more) = all q there in (q', there', omega arith)

  -- The effective request of a pod has of every resource at least what any one of its init
  -- containers asks for, and at least what the loop over its containers adds up.
  pub get_pod_effective_request-AtLeast :
      (init_containers containers : List (Map Quantity)) (name : String) (q : Quantity)
      → let request = get_pod_effective_request v init_containers containers in
        (SomeAsks name q init_containers → AtLeast name (amount q) request)
        × (lookup name (over_containers v (add_up v) containers []) ≡ some q
            → AtLeast name (amount q) request)
  unfolding get_pod_effective_request
  get_pod_effective_request-AtLeast init_containers containers name q =
      let inits = over_containers v (raise v) init_containers [] in
      let sums = over_containers v (add_up v) containers [] in
      (
        λ asks.
            AtLeast-trans name (amount q) inits (raise v inits sums)
              (λ p there. raise-takes name p inits sums there)
              (containers-takes name q init_containers [] asks),
        λ there. raise-AtLeast name (amount q) inits sums (q, there, omega arith),
      )
