-- ===== src/Capacity/Dimensions.antt =====
-- What reserveResource and unreserveResource (pkg/capacityscheduling/elasticquota.go) do to each
-- dimension of a resource: CPU, memory and the scalar resources by name.
use flex_gpu_scheduler.Prelude.{
  ◌≡◌, refl, sym, ap, ◌∙◌, ℤ, pos, ◌+ℤ◌, ◌-ℤ◌, int_laws, +ℤ-zero, true, false, if◌then◌else◌,
  str_eq, eq_iff, String, Map, lookup, value_or, some, [], ◌∷◌, inl, inr, Bool-cases, if-true,
  if-false,
}
use flex_gpu_scheduler.Api.{Vendor}
use flex_gpu_scheduler.Resources.{Resource}
use flex_gpu_scheduler.PodGroups.{to_int64}
use flex_gpu_scheduler.Capacity.Quota.{
  Framework, change_scalars, reserve_resource, unreserve_resource,
}
use flex_gpu_scheduler.Capacity.Wrap.{
  IsInt64, to_int64-IsInt64, to_int64_id, to_int64-add, to_int64-sub,
}

pub data Dimension : Type 0 where
  cpu memory : Dimension
  scalar : String → Dimension

-- What is used of a dimension.
abbrev pub read : Dimension → Resource → ℤ
read cpu r = r.milli_cpu
read memory r = r.memory
read (scalar name) r = value_or (pos 0) (lookup name r.scalar_resources)

abbrev pub scalar_total : String → Map ℤ → ℤ
scalar_total name [] = pos 0
scalar_total name ((j, quant) ∷ rest) =
    let others = scalar_total name rest in if str_eq j name then quant +ℤ others else others

-- What a request asks for of a dimension.
abbrev pub asked : Dimension → Resource → ℤ
asked cpu r = r.milli_cpu
asked memory r = r.memory
asked (scalar name) r = scalar_total name r.scalar_resources

-- `a - (b + c)`, and sums, regrouped.
sub_add : (a b c : ℤ) → a -ℤ b -ℤ c ≡ a -ℤ (b +ℤ c)
sub_add a b c = omega int_laws

add_add : (a b c : ℤ) → a +ℤ b +ℤ c ≡ a +ℤ (b +ℤ c)
add_add a b c = omega int_laws

sub_zero : (a : ℤ) → a -ℤ pos 0 ≡ a
sub_zero a = omega int_laws

module _ (v : Vendor) (fw : Framework v) where
  open fw use {set_scalar, set_scalar-scalar_resources, set_scalar_others}

  change_scalars_others :
      (f : ℤ → ℤ → ℤ) (request : Map ℤ) (used : Resource)
      → ((change_scalars v fw f request used).milli_cpu ≡ used.milli_cpu)
        × ((change_scalars v fw f request used).memory ≡ used.memory)
  unfolding change_scalars
  change_scalars_others f [] used = (refl, refl)
  change_scalars_others f ((name, quant) ∷ rest) used =
      let n = to_int64 (f (read (scalar name) used) quant) in
      let step = set_scalar_others used name n in
      let later = change_scalars_others f rest (set_scalar used name n) in
      (later.0 ∙ step.0, later.1 ∙ step.1)

  read-set_scalar_same :
      (j name : String) (used : Resource) (n : ℤ)
      → str_eq name j ≡ true
      → read (scalar j) (set_scalar used name n) ≡ n
  read-set_scalar_same j name used n same = ap (value_or (pos 0)) (
      set_scalar-scalar_resources used j name n
      ∙ if-true (some n) (lookup j used.scalar_resources) same)

  read-set_scalar_other :
      (j name : String) (used : Resource) (n : ℤ)
      → str_eq name j ≡ false
      → read (scalar j) (set_scalar used name n) ≡ read (scalar j) used
  read-set_scalar_other j name used n differ = ap (value_or (pos 0)) (
      set_scalar-scalar_resources used j name n
      ∙ if-false (some n) (lookup j used.scalar_resources) differ)

  -- The change of every entry is the change by the total, for a sum or a difference.
  module _ (f : ℤ → ℤ → ℤ) (f-zero : (a : ℤ) → f a (pos 0) ≡ a)
      (f-twice : (a b c : ℤ) → to_int64 (f (to_int64 (f a b)) c) ≡ to_int64 (f a (b +ℤ c))) where
    change_scalars-total :
        (j : String) (request : Map ℤ) (used : Resource)
        → IsInt64 (read (scalar j) used)
        → read (scalar j) (change_scalars v fw f request used)
          ≡ to_int64 (f (read (scalar j) used) (scalar_total j request))
    unfolding change_scalars
    change_scalars-total j [] used small = sym (ap to_int64 (f-zero _) ∙ to_int64_id _ small)
    change_scalars-total j ((name, quant) ∷ rest) used small =
        let n = to_int64 (f (read (scalar name) used) quant) in
        let next = set_scalar used name n in
        elim (Bool-cases (str_eq name j)) [
          | inl same ↦
              let put = read-set_scalar_same j name used n same in
              let here : read (scalar name) used ≡ read (scalar j) used =
                ap (λ x. read (scalar x) used) ((eq_iff name j).0 same) in
              let later =
                change_scalars-total j rest next
                  (rw put (to_int64-IsInt64 (f (read (scalar name) used) quant))) in
              later
              ∙ ap (λ x. to_int64 (f x (scalar_total j rest)))
                  (put ∙ ap (λ x. to_int64 (f x quant)) here)
              ∙ f-twice (read (scalar j) used) quant (scalar_total j rest)
              ∙ ap (λ x. to_int64 (f (read (scalar j) used) x))
                  (sym (if-true (quant +ℤ scalar_total j rest) (scalar_total j rest) same))
          | inr differ ↦
              let kept = read-set_scalar_other j name used n differ in
              let later = change_scalars-total j rest next (rw kept small) in
              later
              ∙ ap (λ x. to_int64 (f x (scalar_total j rest))) kept
              ∙ ap (λ x. to_int64 (f (read (scalar j) used) x))
                  (sym (if-false (quant +ℤ scalar_total j rest) (scalar_total j rest) differ))
        ]

  pub reserve_resource_plain :
      (used request : Resource)
      → ((reserve_resource v fw used request).milli_cpu
          ≡ to_int64 (used.milli_cpu +ℤ request.milli_cpu))
        × ((reserve_resource v fw used request).memory ≡ to_int64 (used.memory +ℤ request.memory))
  unfolding reserve_resource
  reserve_resource_plain used request =
      change_scalars_others (λ a b. a +ℤ b) request.scalar_resources _

  pub read-reserve_resource :
      (d : Dimension) (used request : Resource)
      → IsInt64 (read d used)
      → read d (reserve_resource v fw used request) ≡ to_int64 (read d used +ℤ asked d request)
  unfolding reserve_resource
  read-reserve_resource cpu used request small =
      (change_scalars_others (λ a b. a +ℤ b) request.scalar_resources _).0
  read-reserve_resource memory used request small =
      (change_scalars_others (λ a b. a +ℤ b) request.scalar_resources _).1
  read-reserve_resource (scalar j) used request small =
      change_scalars-total (λ a b. a +ℤ b) +ℤ-zero
        (λ a b c. to_int64-add (a +ℤ b) c ∙ ap to_int64 (add_add a b c)) j request.scalar_resources
        _ small

  pub read-unreserve_resource :
      (d : Dimension) (used request : Resource)
      → IsInt64 (read d used)
      → read d (unreserve_resource v fw used request) ≡ to_int64 (read d used -ℤ asked d request)
  unfolding unreserve_resource
  read-unreserve_resource cpu used request small =
      (change_scalars_others (λ a b. a -ℤ b) request.scalar_resources _).0
  read-unreserve_resource memory used request small =
      (change_scalars_others (λ a b. a -ℤ b) request.scalar_resources _).1
  read-unreserve_resource (scalar j) used request small =
      change_scalars-total (λ a b. a -ℤ b) sub_zero
        (λ a b c. to_int64-sub (a -ℤ b) c ∙ ap to_int64 (sub_add a b c)) j request.scalar_resources
        _ small
