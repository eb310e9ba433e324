-- ===== src/Coscheduling/Cover.antt =====
-- CheckClusterResource (pkg/coscheduling/core/core.go) against the sum of what the nodes have left.
use flex_gpu_scheduler.Prelude.{
  ℤ, pos, ◌+ℤ◌, ◌-ℤ◌, ◌≤ℤ◌, ◌<ℤ◌, int_laws, ◌≡◌, ◌≢◌, ◌∙◌, sym, if-true, if-false, refl, ◌↔◌, true,
  false, String, Map, lookup, value_or, Option, none, List, [], ◌∷◌, All, arith, if◌then◌else◌, inl,
  inr, Bool-cases,
}
use flex_gpu_scheduler.Api.{Vendor}
use flex_gpu_scheduler.Resources.{Resource, resource_list}
use flex_gpu_scheduler.Coscheduling.Cluster.{
  NodeInfo, not_positive, reduce_request, check_cluster_resource,
}

covered-drop : (q h t : ℤ) → q -ℤ h ≤ℤ pos 0 → pos 0 ≤ℤ t → q ≤ℤ h +ℤ t
covered-drop q h t a b = omega int_laws

covered-keep : (q h t : ℤ) → (q ≤ℤ h +ℤ t) ↔ (q -ℤ h ≤ℤ t)
covered-keep q h t = (λ a. omega int_laws, λ a. omega int_laws)

module _ (v : Vendor) (remaining : NodeInfo → Resource) where
  open v use {Quantity, zero_value, sub, sign, amount, amount-sub, sign-amount, amount-zero_value}

  -- What a node that counts has left of a resource.
  abbrev pub left_of : String → NodeInfo → ℤ
  left_of name info =
      if info.known
      then amount (value_or zero_value (lookup name (resource_list v (remaining info))))
      else pos 0

  abbrev pub total_left : String → List NodeInfo → ℤ
  total_left name [] = pos 0
  total_left name (info ∷ infos) = left_of name info +ℤ total_left name infos

  -- Every resource of the request is covered by what the nodes have left together.
  abbrev pub Covered : List NodeInfo → Map Quantity → Type 0
  Covered infos [] = Unit
  Covered infos ((name, quant) ∷ rest) =
      (amount quant ≤ℤ total_left name infos) × Covered infos rest

  abbrev pub NothingOvercommitted : List NodeInfo → Type 0
  NothingOvercommitted = All λ info. (name : String) → pos 0 ≤ℤ left_of name info

  abbrev AllPositive : Map Quantity → Type 0
  AllPositive [] = Unit
  AllPositive ((name, quant) ∷ rest) = (pos 0 <ℤ amount quant) × AllPositive rest

  total_left-nonneg :
      (name : String) (infos : List NodeInfo)
      → NothingOvercommitted infos
      → pos 0 ≤ℤ total_left name infos
  total_left-nonneg name [] h = omega arith
  total_left-nonneg name (info ∷ infos) h =
      let here = h.0 name in omega (int_laws, total_left-nonneg name infos h.1)

  module _ (info : NodeInfo) (counts : info.known ≡ true) where
    reduce_request-AllPositive :
        (request : Map Quantity)
        → AllPositive (reduce_request v (resource_list v (remaining info)) request)
    unfolding reduce_request
    reduce_request-AllPositive [] = tt
    reduce_request-AllPositive ((name, quant) ∷ rest) = ground (
      arith,
      reduce_request-AllPositive rest,
      sign-amount
          (sub quant (value_or zero_value (lookup name (resource_list v (remaining info))))),
    )

    reduce_request-Covered :
        (infos : List NodeInfo) (request : Map Quantity)
        → NothingOvercommitted infos
        → Covered (info ∷ infos) request
          ↔ Covered infos (reduce_request v (resource_list v (remaining info)) request)
    unfolding reduce_request
    reduce_request-Covered infos [] h = (λ c. c, λ c. c)
    reduce_request-Covered infos ((name, quant) ∷ rest) h =
        let here = value_or zero_value (lookup name (resource_list v (remaining info))) in
        let later = reduce_request-Covered infos rest h in
        let left_eq : left_of name info ≡ amount here = rw counts refl in
        elim (Bool-cases (not_positive (sign (sub quant here)))) [
          | inl covered ↦
              let enough : amount quant -ℤ amount here ≤ℤ pos 0 =
                ground (arith, sign-amount (sub quant here), amount-sub quant here) in
              rw (covered, reduce_request)
                (
                  λ c. later.0 c.1,
                  λ c. (
                    rw left_eq (
                        covered-drop (amount quant) (amount here) (total_left name infos) enough
                          (total_left-nonneg name infos h)),
                    later.1 c,
                  ),
                )
          | inr short ↦
              let keep = covered-keep (amount quant) (amount here) (total_left name infos) in
              rw (short, reduce_request)
                (
                  λ c. (rw (amount-sub quant here) (keep.0 (rw left_eq at c.0)), later.0 c.1),
                  λ c. (rw left_eq (keep.1 (rw (amount-sub quant here) at c.0)), later.1 c.1),
                )
        ]

  -- With a request that is positive throughout, nothing is covered by no nodes.
  not-Covered-nil :
      (name : String) (quant : Quantity) (rest : Map Quantity)
      → AllPositive ((name, quant) ∷ rest)
      → ¬ Covered [] ((name, quant) ∷ rest)
  not-Covered-nil name quant rest p c = omega arith

  Covered-skip :
      (info : NodeInfo) (infos : List NodeInfo) (request : Map Quantity)
      → info.known ≡ false
      → Covered (info ∷ infos) request ↔ Covered infos request
  Covered-skip info infos [] skip = (λ c. c, λ c. c)
  Covered-skip info infos ((name, quant) ∷ rest) skip =
      let later = Covered-skip info infos rest skip in
      let same : total_left name (info ∷ infos) ≡ total_left name infos =
        rw skip (omega int_laws) in
      (λ c. (rw same at c.0, later.0 c.1), λ c. (rw same c.0, later.1 c.1))

  -- After the first node that counts: the loop ends if nothing is left to cover.
  after_node :
      (infos : List NodeInfo) (reduced : Map Quantity)
      → (AllPositive reduced
          → reduced ≢ []
          → (check_cluster_resource v remaining infos reduced ≡ none) ↔ Covered infos reduced)
      → AllPositive reduced
      → (let rest = check_cluster_resource v remaining infos reduced in
          ◌≡◌ {A = Option (Map Quantity)} (elim reduced [ [] ↦ none | _ ↦ rest ]) none)
        ↔ Covered infos reduced
  after_node infos [] later p = (λ e. tt, λ c. refl)
  after_node infos (x ∷ xs) later p = later p (λ e. cc)

  -- For a request that has an entry and only positive amounts, on nodes of which none has a
  -- negative amount left, CheckClusterResource succeeds exactly when of every requested resource
  -- the nodes that count have left, taken together, at least what is requested.
  pub check_cluster_resource-Covered :
      (infos : List NodeInfo) (request : Map Quantity)
      → NothingOvercommitted infos
      → AllPositive request
      → request ≢ []
      → (check_cluster_resource v remaining infos request ≡ none) ↔ Covered infos request
  unfolding check_cluster_resource
  check_cluster_resource-Covered infos [] h p nonempty = absurd (nonempty refl)
  check_cluster_resource-Covered [] ((name, quant) ∷ rest) h p nonempty =
      (λ e. cc, λ c. absurd (not-Covered-nil name quant rest p c))
  check_cluster_resource-Covered (info ∷ infos) request h p nonempty =
      elim (Bool-cases info.known) [
        | inl counts ↦
            let step = reduce_request-Covered info counts infos request h.1 in
            let finish =
              after_node infos (reduce_request v (resource_list v (remaining info)) request)
                (λ positive.
                  check_cluster_resource-Covered infos
                    (reduce_request v (resource_list v (remaining info)) request) h.1 positive)
                (reduce_request-AllPositive info counts request) in
            (
              λ e. step.1 (finish.0 (sym (if-true _ _ counts) ∙ e)),
              λ c. if-true _ _ counts ∙ finish.1 (step.0 c),
            )
        | inr skip ↦
            let later = check_cluster_resource-Covered infos request h.1 p nonempty in
            let same = Covered-skip info infos request skip in
            (
              λ e. same.1 (later.0 (sym (if-false _ _ skip) ∙ e)),
              λ c. if-false _ _ skip ∙ later.1 (same.0 c),
            )
      ]
