-- ===== src/Controller/QuotaSum.antt =====
-- What the elastic quota controller computes as a quota's use (pkg/controller/elasticquota.go).
use flex_gpu_scheduler.Prelude.{
  zero, suc, All, ◌≡◌, refl, sym, ap, ◌∙◌, ℤ, pos, ◌+ℤ◌, +ℤ_assoc, zero-+ℤ, ltb_ℤ, ◌≤ℤ◌, int_laws,
  negsuc, Ordering, if◌then◌else◌, String, str_eq, Map, lookup, insert, lookup-insert, none, some,
  List, [], ◌∷◌, arith, inl, inr, Bool-cases, Option-cases,
}
use flex_gpu_scheduler.Prelude.Int.{+ℤ-zero}
use flex_gpu_scheduler.Api.{Vendor}
use flex_gpu_scheduler.PodGroups.{pod_running}
use flex_gpu_scheduler.Controller.ElasticQuotaSync.{
  ElasticQuota, Pod, QuotaOps, add_requests, max_requests, compute_pod_resource_request, zero_all,
  new_zero_used, is_running, add_running, compute_elastic_quota_used,
}

module _ (v : Vendor) (ops : QuotaOps v) where
  open v use {Quantity, amount, add, amount-add, amount-new_zero, cmp-amount}
  open ops use {
    add_lists, max_lists, semantic_equal, lookup-add_lists, lookup-max_lists, semantic_equal-refl,
  }

  -- How much of a resource a list has.
  abbrev pub amount_of : String → Map Quantity → ℤ
  amount_of name m = elim (lookup name m) [ none ↦ pos 0 | some q ↦ amount q ]

  -- How much of a resource some containers ask for together, and how much the one that asks for
  -- most.
  abbrev pub sum_of : String → List (Map Quantity) → ℤ
  sum_of name [] = pos 0
  sum_of name (requests ∷ rest) = amount_of name requests +ℤ sum_of name rest

  abbrev pub larger : ℤ → ℤ → ℤ
  larger a b = if ltb_ℤ a b then b else a

  abbrev pub most_of : String → List (Map Quantity) → ℤ
  most_of name [] = pos 0
  most_of name (requests ∷ rest) = larger (amount_of name requests) (most_of name rest)

  -- How much of a resource the running ones of some pods request: each what its containers ask for
  -- together, or what one of its init containers asks for, if that is more.
  abbrev pub running_one : String → Pod Quantity → ℤ
  running_one name p = elim p.phase [
    | pod_running ↦ larger (sum_of name p.containers) (most_of name p.init_containers)
    | _ ↦ pos 0
  ]

  abbrev pub running_sum : String → List (Pod Quantity) → ℤ
  running_sum name [] = pos 0
  running_sum name (p ∷ pods) = running_one name p +ℤ running_sum name pods

  -- No container asks for a negative amount.
  abbrev pub IsNonneg : String → List (Pod Quantity) → Type 0
  IsNonneg name = All λ (p : Pod Quantity).
      All (λ requests. pos 0 ≤ℤ amount_of name requests) p.containers
      × All (λ requests. pos 0 ≤ℤ amount_of name requests) p.init_containers

  amount_of-add_lists :
      (name : String) (a b : Map Quantity)
      → amount_of name (add_lists a b) ≡ amount_of name a +ℤ amount_of name b
  amount_of-add_lists name a b =
      let law = lookup-add_lists name a b in
      elim (Option-cases (lookup name a)) [
        | inl no_a ↦ let zero = zero-+ℤ (amount_of name b) in rw (amount_of, law, no_a) (sym zero)
        | inr (p, has_a) ↦ elim (Option-cases (lookup name b)) [
          | inl no_b ↦ let zero = +ℤ-zero (amount p) in rw (amount_of, law, has_a, no_b) (sym zero)
          | inr (q, has_b) ↦ let sum = amount-add p q in rw (amount_of, law, has_a, has_b) sum
        ]
      ]

  larger-zero : (a : ℤ) → pos 0 ≤ℤ a → larger a (pos 0) ≡ a
  larger-zero a h = ground arith

  zero-larger : (a : ℤ) → pos 0 ≤ℤ a → larger (pos 0) a ≡ a
  zero-larger (pos zero) h = refl
  zero-larger (pos (suc n)) h = ground arith
  zero-larger (negsuc n) h = absurd (omega arith)

  amount-larger :
      (p q : Quantity)
      → amount (elim (v.cmp p q) [ Ordering.lt ↦ q | _ ↦ p ]) ≡ larger (amount p) (amount q)
  amount-larger p q = rw (cmp-amount p q) (ground arith)

  amount_of-max_lists :
      (name : String) (a b : Map Quantity)
      → pos 0 ≤ℤ amount_of name a
      → pos 0 ≤ℤ amount_of name b
      → amount_of name (max_lists a b) ≡ larger (amount_of name a) (amount_of name b)
  amount_of-max_lists name a b h k =
      let law = lookup-max_lists name a b in
      elim (Option-cases (lookup name a)) [
        | inl no_a ↦ elim (Option-cases (lookup name b)) [
          | inl no_b ↦ ground arith
          | inr (q, has_b) ↦
              let some_amount : pos 0 ≤ℤ amount q = rw (amount_of, has_b) at k in
              rw (amount_of, law, no_a, has_b) (sym (zero-larger (amount q) some_amount))
        ]
        | inr (p, has_a) ↦ elim (Option-cases (lookup name b)) [
          | inl no_b ↦
              let some_amount : pos 0 ≤ℤ amount p = rw (amount_of, has_a) at h in
              rw (amount_of, law, has_a, no_b) (sym (larger-zero (amount p) some_amount))
          | inr (q, has_b) ↦ rw (amount_of, law, has_a, has_b) (amount-larger p q)
        ]
      ]

  sum_of-nonneg :
      (name : String) (containers : List (Map Quantity))
      → All (λ requests. pos 0 ≤ℤ amount_of name requests) containers
      → pos 0 ≤ℤ sum_of name containers
  sum_of-nonneg name [] h = omega arith
  sum_of-nonneg name (c ∷ cs) (h, hs) = let rest = sum_of-nonneg name cs hs in omega int_laws

  amount_of-add_requests :
      (name : String) (result : Map Quantity) (containers : List (Map Quantity))
      → amount_of name (add_requests v ops result containers)
        ≡ amount_of name result +ℤ sum_of name containers
  unfolding add_requests
  amount_of-add_requests name result [] = sym (+ℤ-zero (amount_of name result))
  amount_of-add_requests name result (c ∷ cs) =
      amount_of-add_requests name (add_lists result c) cs
      ∙ ap (λ z. z +ℤ sum_of name cs) (amount_of-add_lists name result c)
      ∙ +ℤ_assoc (amount_of name result) (amount_of name c) (sum_of name cs)

  larger_assoc : (a b c : ℤ) → larger (larger a b) c ≡ larger a (larger b c)
  larger_assoc a b c = ground arith

  larger-nonneg : (a b : ℤ) → pos 0 ≤ℤ a → pos 0 ≤ℤ larger a b
  larger-nonneg a b h = ground arith

  most_of-nonneg :
      (name : String) (containers : List (Map Quantity))
      → All (λ requests. pos 0 ≤ℤ amount_of name requests) containers
      → pos 0 ≤ℤ most_of name containers
  most_of-nonneg name [] h = omega arith
  most_of-nonneg name (c ∷ cs) (h, hs) = larger-nonneg (amount_of name c) (most_of name cs) h

  amount_of-max_requests :
      (name : String) (result : Map Quantity) (containers : List (Map Quantity))
      → pos 0 ≤ℤ amount_of name result
      → All (λ requests. pos 0 ≤ℤ amount_of name requests) containers
      → amount_of name (max_requests v ops result containers)
        ≡ larger (amount_of name result) (most_of name containers)
  unfolding max_requests
  amount_of-max_requests name result [] h hs = sym (larger-zero (amount_of name result) h)
  amount_of-max_requests name result (c ∷ cs) h (k, hs) =
      let step = amount_of-max_lists name result c h k in
      let later = larger-nonneg (amount_of name result) (amount_of name c) h in
      amount_of-max_requests name (max_lists result c) cs (rw step later) hs
      ∙ ap (λ z. larger z (most_of name cs)) step
      ∙ larger_assoc (amount_of name result) (amount_of name c) (most_of name cs)

  amount_of-compute_pod_resource_request :
      (name : String) (p : Pod Quantity)
      → All (λ requests. pos 0 ≤ℤ amount_of name requests) p.containers
      → All (λ requests. pos 0 ≤ℤ amount_of name requests) p.init_containers
      → amount_of name (compute_pod_resource_request v ops p)
        ≡ larger (sum_of name p.containers) (most_of name p.init_containers)
  unfolding compute_pod_resource_request lookup
  amount_of-compute_pod_resource_request name p h k =
      let sum : amount_of name (add_requests v ops [] p.containers) ≡ sum_of name p.containers =
        amount_of-add_requests name [] p.containers ∙ zero-+ℤ (sum_of name p.containers) in
      let most : amount_of name (max_requests v ops [] p.init_containers)
          ≡ most_of name p.init_containers =
        amount_of-max_requests name [] p.init_containers (omega arith) k
        ∙ zero-larger (most_of name p.init_containers) (most_of-nonneg name p.init_containers k) in
      amount_of-max_lists name (add_requests v ops [] p.containers)
        (max_requests v ops [] p.init_containers) (rw sum (sum_of-nonneg name p.containers h))
        (rw most (most_of-nonneg name p.init_containers k))
      ∙ ap (λ z. larger z (amount_of name (max_requests v ops [] p.init_containers))) sum
      ∙ ap (λ z. larger (sum_of name p.containers) z) most

  amount_of-zero_all :
      (name : String) (entries res : Map Quantity)
      → amount_of name res ≡ pos 0
      → amount_of name (zero_all v ops entries res) ≡ pos 0
  unfolding zero_all
  amount_of-zero_all name [] res h = h
  amount_of-zero_all name ((j, q) ∷ rest) res h =
      let new = v.new_quantity (pos 0) in
      let law = lookup-insert name j new res in
      amount_of-zero_all name rest (insert j new res) (elim (Bool-cases (str_eq j name)) [
        | inl same ↦ rw (amount_of, law, same) amount-new_zero
        | inr differ ↦ rw (amount_of, law, differ) h
      ])

  amount_of-add_running :
      (name : String) (used : Map Quantity) (pods : List (Pod Quantity))
      → IsNonneg name pods
      → amount_of name (add_running v ops used pods) ≡ amount_of name used +ℤ running_sum name pods
  unfolding add_running
  amount_of-add_running name used [] h = sym (+ℤ-zero (amount_of name used))
  amount_of-add_running name used (p ∷ pods) ((h, k), rest) =
      let request = compute_pod_resource_request v ops p in
      let used' = if is_running v ops p.phase then add_lists used request else used in
      let step : amount_of name used' ≡ amount_of name used +ℤ running_one name p =
        elim p.phase
          as (λ phase.
            amount_of name (if is_running v ops phase then add_lists used request else used)
            ≡ amount_of name used +ℤ (elim phase [
              | pod_running ↦ larger (sum_of name p.containers) (most_of name p.init_containers)
              | _ ↦ pos 0
            ])) [
              | pod_running ↦
                  amount_of-add_lists name used request
                  ∙ ap (λ z. amount_of name used +ℤ z)
                      (amount_of-compute_pod_resource_request name p h k)
              | _ ↦ sym (+ℤ-zero (amount_of name used))
            ] in
      amount_of-add_running name used' pods rest
      ∙ ap (λ z. z +ℤ running_sum name pods) step
      ∙ +ℤ_assoc (amount_of name used) (running_one name p) (running_sum name pods)

  -- Where no container asks for a negative amount of a resource: the use of it that is computed
  -- for a quota is the sum, over the pods in the phase Running, of what a pod's containers ask for
  -- together, or of the most that one of its init containers asks for, where that is more. The
  -- overhead of the pods is not in it.
  pub compute_elastic_quota_used-running_sum :
      (name : String) (pods : List (Pod Quantity)) (eq : ElasticQuota Quantity)
      → IsNonneg name pods
      → (used : Map Quantity) × (compute_elastic_quota_used v ops (some pods) eq ≡ some used)
        × (amount_of name used ≡ running_sum name pods)
  unfolding compute_elastic_quota_used new_zero_used lookup
  compute_elastic_quota_used-running_sum name pods eq h =
      let zero = new_zero_used v ops eq in
      let nothing : amount_of name zero ≡ pos 0 =
        amount_of-zero_all name eq.max (zero_all v ops eq.min [])
          (amount_of-zero_all name eq.min [] refl) in
      (
        add_running v ops zero pods,
        refl,
        amount_of-add_running name zero pods h
            ∙ ap (λ z. z +ℤ running_sum name pods) nothing
            ∙ zero-+ℤ (running_sum name pods),
      )
