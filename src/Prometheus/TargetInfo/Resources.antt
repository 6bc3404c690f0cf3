-- ===== src/Prometheus/TargetInfo/Resources.antt =====
-- The resources and the labels of the target info metrics.
use hypertrace_collector.Prelude.{
  ◌≡◌, refl, false, not, ◌&&◌, some, List, [], ◌∷◌, Str, str, str_eq, str_eq_iff, is_empty, arith,
}
use hypertrace_collector.Prelude.GoMap.{lookup, insert, lookup-insert}
use hypertrace_collector.Pdata.Attributes.{AttributeMap, job_label, instance_label}
use hypertrace_collector.Prometheus.Labels.{extract_job, extract_instance, resource_signature}
use hypertrace_collector.Prometheus.TargetInfo.{
  seen, set_label, deduplicate, attribute_labels, target_labels,
}

abbrev pub Unique : List Str → Type 0
Unique [] = Unit
Unique (s ∷ ts) = (seen s ts ≡ false) × Unique ts

module _ {M V : Type 0} (attrs : AttributeMap M V) where
  -- The texts that identify resources: job, separator and instance.
  abbrev pub signatures : List M → List Str
  signatures [] = []
  signatures (r ∷ rs) = resource_signature attrs r ∷ signatures rs

  seen-deduplicate :
      (sigs : List Str) (rs : List M) (s : Str)
      → is_empty s ≡ false
      → seen s (signatures (deduplicate attrs sigs rs))
        ≡ (not (seen s sigs) && seen s (signatures rs))
  unfolding deduplicate seen
  seen-deduplicate sigs [] s h = ground arith
  seen-deduplicate sigs (r ∷ rs) s h =
      let sig = resource_signature attrs r in
      ground (
        arith,
        seen-deduplicate sigs rs s h,
        seen-deduplicate (sig ∷ sigs) rs s h,
        str_eq_iff sig s,
      )

  deduplicate-Unique :
      (sigs : List Str) (rs : List M) → Unique (signatures (deduplicate attrs sigs rs))
  unfolding deduplicate seen
  deduplicate-Unique sigs [] = tt
  deduplicate-Unique sigs (r ∷ rs) =
      let sig = resource_signature attrs r in
      ground (
        arith,
        deduplicate-Unique sigs rs,
        deduplicate-Unique (sig ∷ sigs) rs,
        seen-deduplicate (sig ∷ sigs) rs sig,
        str_eq_iff sig sig,
      )

  -- The resources for which target info is made have different jobs or instances, and a signature of a
  -- job and an instance that is not empty is among theirs exactly when it is among those of all
  -- resources.
  pub deduplicate_lem :
      (rs : List M)
      → Unique (signatures (deduplicate attrs [] rs))
        × ((s : Str)
            → is_empty s ≡ false
            → seen s (signatures (deduplicate attrs [] rs)) ≡ seen s (signatures rs))
  unfolding seen
  deduplicate_lem rs = (deduplicate-Unique [] rs, λ s h. ground (arith, seen-deduplicate [] rs s h))

  labels_differ : str_eq instance_label job_label ≡ false
  unfolding str str_eq
  labels_differ = refl

  -- A resource's job and instance, where it has them, are the labels "job" and "instance" of its target
  -- info, also where an attribute of the resource is normalized to such a label.
  pub lookup-target_labels :
      (normalize : Str → Str) (r : M) (job inst : Str)
      → extract_job attrs r ≡ some job
      → extract_instance attrs r ≡ some inst
      → (lookup job_label (target_labels attrs normalize r) ≡ some job)
        × (lookup instance_label (target_labels attrs normalize r) ≡ some inst)
  unfolding target_labels set_label
  lookup-target_labels normalize r job inst j i =
      let labels = attribute_labels attrs normalize (attrs.entries r) [] in
      ground (
        arith,
        j,
        i,
        labels_differ,
        lookup-insert job_label job_label job labels,
        lookup-insert instance_label job_label inst (insert job_label job labels),
        lookup-insert instance_label instance_label inst (insert job_label job labels),
        str_eq_iff job_label job_label,
        str_eq_iff instance_label instance_label,
      )
