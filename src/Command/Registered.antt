-- ===== src/Command/Registered.antt =====
-- Which factories the collector is built with.
use hypertrace_collector.Prelude.{
  ◌≡◌, refl, ◌∙◌, inr, false, Option, some, List, [], ◌∷◌, Str, str, str_eq, str_eq_refl, subst,
}
use hypertrace_collector.Prelude.All.{All}
use hypertrace_collector.Prelude.GoMap.{GoMap, lookup, lookup-insert}
use hypertrace_collector.Command.{
  Factory, Factories, Own, Others, Made, add, own, default_components, with_components,
  if_no_errors, components, jaeger_type, tenantid_type, ratelimiter_type, attrs_to_attrs_type,
  metricremover_type, spancounter_type, kafka_type, prometheus_type,
}

module _ {F : Type 0} where
  lookup-add_own :
      (name : Str) (f : F) (m : GoMap (Factory F))
      → lookup name (add (own name f) m) ≡ some (own name f)
  lookup-add_own name f m = lookup-insert name name (own name f) m ∙ rw (str_eq_refl name) refl

  lookup-add_other :
      (name : Str) (f : Factory F) (m : GoMap (Factory F)) (r : Option (Factory F))
      → str_eq f.type_name name ≡ false
      → lookup name m ≡ r
      → lookup name (add f m) ≡ r
  lookup-add_other name f m r differs h = lookup-insert f.type_name name f m ∙ rw differs h

-- The types of the processors of this repository.
abbrev pub processor_types : List Str
processor_types =
    tenantid_type ∷ ratelimiter_type ∷ attrs_to_attrs_type ∷ metricremover_type ∷ spancounter_type
    ∷ []

abbrev Differs : {F : Type 0} → Factory F → Str → Type 0
Differs f name = str_eq f.type_name name ≡ false

-- The processors of other repositories that are added after this repository's, and the receiver that is,
-- have other types.
pub record NoClash {F : Type 0} (o : Others F) : Type 0 where
  pub filter : All (Differs o.filter) processor_types
  pub routing : All (Differs o.routing) processor_types
  pub prometheus : Differs o.prometheus_receiver jaeger_type

abbrev Processors : {F : Type 0} → Own F → GoMap (Factory F) → Type 0
Processors w m =
    (lookup tenantid_type m ≡ some (own tenantid_type w.tenantidprocessor))
    × (lookup ratelimiter_type m ≡ some (own ratelimiter_type w.ratelimiter))
    × (lookup attrs_to_attrs_type m ≡ some (own attrs_to_attrs_type w.metricresourceattrstoattrs))
    × (lookup metricremover_type m ≡ some (own metricremover_type w.metricremover))
    × (lookup spancounter_type m ≡ some (own spancounter_type w.spancounter))

-- Each component of this repository can be found under its type.
abbrev pub Registers : {F : Type 0} → Own F → Factories F → Type 0
Registers w fs =
    Processors w fs.processors
    × (lookup jaeger_type fs.receivers ≡ some (own jaeger_type w.jaeger_receiver))
    × (lookup kafka_type fs.exporters ≡ some (own kafka_type w.kafkaexporter))
    × (lookup prometheus_type fs.exporters ≡ some (own prometheus_type w.prometheusexporter))

module _ {F : Type 0} (o : Others F) (w : Own F) where
  -- What is found among the processors that are there when this repository's last one is added.
  under :
      (name : Str) (m : GoMap (Factory F)) (r : Option (Factory F))
      → Differs o.filter name
      → str_eq spancounter_type name ≡ false
      → lookup name m ≡ r
      → lookup name (add o.filter (add (own spancounter_type w.spancounter) m)) ≡ r
  under name m r f s h =
      lookup-add_other name o.filter (add (own spancounter_type w.spancounter) m) r f
        (lookup-add_other name (own spancounter_type w.spancounter) m r s h)

  with_components-Registers : NoClash o → (fs : Factories F) → Registers w (with_components o w fs)
  unfolding with_components str str_eq
  with_components-Registers h fs =
      let (f1, (f2, (f3, (f4, (f5, _))))) = h.filter in
      let (r1, (r2, (r3, (r4, (r5, _))))) = h.routing in
      let rl = own ratelimiter_type w.ratelimiter in
      let at = own attrs_to_attrs_type w.metricresourceattrstoattrs in
      let mr = own metricremover_type w.metricremover in
      let m1 = add (own tenantid_type w.tenantidprocessor) fs.processors in
      let m2 = add rl m1 in
      let m3 = add at m2 in
      let m4 = add mr m3 in
      let routed = add o.routing m4 in
      let tid = lookup-add_own tenantid_type w.tenantidprocessor fs.processors in
      let limiter = lookup-add_own ratelimiter_type w.ratelimiter m1 in
      let attrs = lookup-add_own attrs_to_attrs_type w.metricresourceattrstoattrs m2 in
      let remover = lookup-add_own metricremover_type w.metricremover m3 in
      let counter = lookup-add_own spancounter_type w.spancounter routed in
      (
        (
          under tenantid_type routed _ f1 refl (
              lookup-add_other tenantid_type o.routing m4 _ r1 (
                lookup-add_other tenantid_type mr m3 _ refl (
                  lookup-add_other tenantid_type at m2 _ refl
                    (lookup-add_other tenantid_type rl m1 _ refl tid)))),
          under ratelimiter_type routed _ f2 refl (
              lookup-add_other ratelimiter_type o.routing m4 _ r2 (
                lookup-add_other ratelimiter_type mr m3 _ refl
                  (lookup-add_other ratelimiter_type at m2 _ refl limiter))),
          under attrs_to_attrs_type routed _ f3 refl (
              lookup-add_other attrs_to_attrs_type o.routing m4 _ r3
                (lookup-add_other attrs_to_attrs_type mr m3 _ refl attrs)),
          under metricremover_type routed _ f4 refl
              (lookup-add_other metricremover_type o.routing m4 _ r4 remover),
          lookup-add_other spancounter_type o.filter _ _ f5 counter,
        ),
        lookup-add_other jaeger_type o.prometheus_receiver _ _ h.prometheus
            (lookup-add_own jaeger_type w.jaeger_receiver _),
        lookup-add_other kafka_type (own prometheus_type w.prometheusexporter) _ _ refl
            (lookup-add_own kafka_type w.kafkaexporter _),
        lookup-add_own prometheus_type w.prometheusexporter _,
      )

  module _ {E : Type 0} (make_factory_map : List (Factory F) → Made F E) where
    -- When the factories can be made, every component of this repository is registered under its type,
    -- if the routing and filter processors and the Prometheus receiver have other types.
    pub components-Registers :
        NoClash o → (fs : Factories F) → components o make_factory_map w ≡ inr fs → Registers w fs
    unfolding components if_no_errors
    components-Registers h fs e = go (default_components o make_factory_map) e
      where
        go :
            (r : Factories F × List E)
            → if_no_errors o make_factory_map w r ≡ inr fs
            → Registers w fs
        go (gs, []) e =
            let same : with_components o w gs ≡ fs = cc in
            subst (λ x. Registers w x) same (with_components-Registers h gs)
        go (gs, x ∷ xs) e = cc
