-- ===== src/Controller/QuotaUse.antt =====
-- What the elastic quota controller stores as a quota's use (pkg/controller/elasticquota.go).
use flex_gpu_scheduler.Prelude.{
  ℕ, zero, suc, All, length, ◌⊎◌, ◌≡◌, refl, sym, ap, ◌∙◌, subst, true, false, String, Map, none,
  some, List, [], ◌∷◌, ◌++◌, value_or, arith, inl, inr, Bool-cases,
}
use flex_gpu_scheduler.Api.{Vendor}
use flex_gpu_scheduler.Controller.PodGroupSync.{Found, found, not_found, get_failed}
use flex_gpu_scheduler.Controller.ElasticQuotaSync.{
  ElasticQuota, Pod, QuotaOps, Outcome, Cluster, new_zero_used, add_running,
  compute_elastic_quota_used, sync_handler, process_next_work_item,
}

found_cases :
    {A : Type 0} (f : Found A) → ((a : A) × (f ≡ found a)) ⊎ ((f ≡ not_found) ⊎ (f ≡ get_failed))
found_cases (found a) = inl (a, refl)
found_cases not_found = inr (inl refl)
found_cases get_failed = inr (inr refl)

module _ (v : Vendor) (ops : QuotaOps v) where
  open v use {Quantity, amount, add, amount-add, amount-new_zero, cmp-amount}
  open ops use {
    add_lists, max_lists, semantic_equal, lookup-add_lists, lookup-max_lists, semantic_equal-refl,
  }

  -- The use that the server has after a call.
  abbrev pub use_after : ElasticQuota Quantity → Outcome Quantity → Map Quantity
  use_after eq outcome = value_or eq.used outcome.stored

  -- A call that finds the quota and its pods, when their sum is no news, and when it is.
  sync_handler-same :
      (c : Cluster Quantity) (namespace name : String) (eq : ElasticQuota Quantity)
      (pods : List (Pod Quantity)) (used : Map Quantity)
      → c.get_quota namespace name ≡ found eq
      → c.list_pods namespace ≡ some pods
      → compute_elastic_quota_used v ops (some pods) eq ≡ some used
      → semantic_equal used eq.used ≡ true
      → sync_handler v ops c namespace name ≡ record { is_error = false; stored = none }
  unfolding sync_handler
  sync_handler-same c namespace name eq pods used there listed computed same = ground arith

  sync_handler_news :
      (c : Cluster Quantity) (namespace name : String) (eq : ElasticQuota Quantity)
      (pods : List (Pod Quantity)) (used : Map Quantity)
      → c.get_quota namespace name ≡ found eq
      → c.list_pods namespace ≡ some pods
      → compute_elastic_quota_used v ops (some pods) eq ≡ some used
      → semantic_equal used eq.used ≡ false
      → (sync_handler v ops c namespace name).is_error ≡ false
      → sync_handler v ops c namespace name ≡ record { is_error = false; stored = some used }
  unfolding sync_handler
  sync_handler_news c namespace name eq pods used there listed computed news fine =
      elim (Bool-cases (c.create_merge_patch eq (record eq { used = used }))) [
        | inr bad ↦ ground arith
        | inl good ↦ elim (Bool-cases (c.patch namespace eq.name)) [
          | inr bad ↦ ground arith
          | inl sent ↦ ground arith
        ]
      ]

  -- When syncHandler finds a quota, its pods are listed, and it returns no error: the use that the
  -- server has then is semantically equal to the one that is computed from the pods, and a call in
  -- any cluster whose lister gives the quota with that use and the same pods returns no error and
  -- stores nothing.
  pub sync_handler-use_after :
      (c c' : Cluster Quantity) (namespace name : String) (eq : ElasticQuota Quantity)
      (pods : List (Pod Quantity))
      → c.get_quota namespace name ≡ found eq
      → c.list_pods namespace ≡ some pods
      → (sync_handler v ops c namespace name).is_error ≡ false
      → c'.get_quota namespace name
        ≡ found (record eq { used = use_after eq (sync_handler v ops c namespace name) })
      → c'.list_pods namespace ≡ some pods
      → ((used : Map Quantity) × (compute_elastic_quota_used v ops (some pods) eq ≡ some used)
          × (semantic_equal used (use_after eq (sync_handler v ops c namespace name)) ≡ true))
        × (sync_handler v ops c' namespace name ≡ record { is_error = false; stored = none })
  unfolding compute_elastic_quota_used new_zero_used
  sync_handler-use_after c c' namespace name eq pods there listed fine there' listed' =
      let used = add_running v ops (new_zero_used v ops eq) pods in
      let outcome = sync_handler v ops c namespace name in
      let enough : semantic_equal used (use_after eq outcome) ≡ true =
        elim (Bool-cases (semantic_equal used eq.used)) [
          | inl same ↦
              let nothing =
                sync_handler-same c namespace name eq pods used there listed refl same in
              subst (λ (o : Outcome Quantity). semantic_equal used (use_after eq o) ≡ true)
                (sym nothing) same
          | inr news ↦
              let put : outcome ≡ record { is_error = false; stored = some used } =
                sync_handler_news c namespace name eq pods used there listed refl news fine in
              subst (λ (o : Outcome Quantity). semantic_equal used (use_after eq o) ≡ true)
                (sym put) (semantic_equal-refl used)
        ] in
      (
        (used, refl, enough),
        sync_handler-same c' namespace name (record eq { used = use_after eq outcome }) pods used
            there' listed' refl enough,
      )

  -- So many rounds of the work loop: the keys that are left, and all that is stored.
  abbrev pub work :
      Cluster Quantity
      → ℕ
      → List (String × String)
      → List (String × String) × List ((String × String) × Map Quantity)
  work c zero keys = (keys, [])
  work c (suc n) keys =
      let (keys', now) = process_next_work_item v ops c keys in
      let (last, later) = work c n keys' in (last, now ++ later)

  process_next_work_item-failed :
      (c : Cluster Quantity) (key : String × String) (keys : List (String × String))
      → (sync_handler v ops c key.0 key.1).stored ≡ none
      → process_next_work_item v ops c (key ∷ keys) ≡ (keys, [])
  unfolding process_next_work_item
  process_next_work_item-failed c key keys e = ground arith

  sync_handler-unlisted :
      (c : Cluster Quantity) (namespace name : String)
      → c.list_pods namespace ≡ none
      → (sync_handler v ops c namespace name).stored ≡ none
  unfolding sync_handler compute_elastic_quota_used
  sync_handler-unlisted c namespace name e = elim (found_cases (c.get_quota namespace name)) [
    | inl (eq, there) ↦ ground arith
    | inr (inl gone) ↦ ground arith
    | inr (inr failed) ↦ ground arith
  ]

  -- When the pods of the namespaces of all queued keys can not be listed, the work loop has
  -- emptied the queue after as many rounds as there are keys, and has stored nothing: no key is
  -- tried again.
  pub work-unlisted :
      (c : Cluster Quantity) (keys : List (String × String))
      → All (λ key. c.list_pods key.0 ≡ none) keys
      → work c (length keys) keys ≡ ([], [])
  work-unlisted c [] h = refl
  work-unlisted c (key ∷ keys) (e, h) =
      let first =
        process_next_work_item-failed c key keys (sync_handler-unlisted c key.0 key.1 e) in
      ap
        (λ (r : List (String × String) × List ((String × String) × Map Quantity)).
          let (last, later) = work c (length keys) r.0 in (last, r.1 ++ later))
        first
      ∙ work-unlisted c keys h
