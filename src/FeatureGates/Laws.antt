-- ===== src/FeatureGates/Laws.antt =====
-- What an accepted set of feature gates guarantees.
use k8s_dra_driver.Common.{true, false, none, ◌≡◌, ◌↔◌, refl, arith}
use k8s_dra_driver.FeatureGates.{Gates, validate_feature_gates, default_feature_gates}

-- The dependencies between the gates, each as an implication.
pub record IsConsistent (g : Gates) : Type 0 where
  pub hami_time_slicing : g.hami_core_support ≡ true → g.time_slicing_settings ≡ false
  pub hami_mps : g.hami_core_support ≡ true → g.mps_support ≡ false
  pub hami_passthrough : g.hami_core_support ≡ true → g.passthrough_support ≡ false
  pub hami_dynamic_mig : g.hami_core_support ≡ true → g.dynamic_mig ≡ false
  pub hami_cliques : g.hami_core_support ≡ true → g.compute_domain_cliques ≡ false
  pub cliques_dns : g.compute_domain_cliques ≡ true → g.imex_daemons_with_dns_names ≡ true
  pub mig_passthrough : g.dynamic_mig ≡ true → g.passthrough_support ≡ false
  pub mig_health : g.dynamic_mig ≡ true → g.nvml_device_health_check ≡ false
  pub mig_mps : g.dynamic_mig ≡ true → g.mps_support ≡ false

sound : (g : Gates) → validate_feature_gates g ≡ none → IsConsistent g
unfolding validate_feature_gates
sound g h = ground arith

complete : (g : Gates) → IsConsistent g → validate_feature_gates g ≡ none
unfolding validate_feature_gates
complete g c = ground arith

-- The validation accepts a set of gates exactly when every dependency between gates holds:
-- HAMiCoreSupport excludes TimeSlicingSettings, MPSSupport, PassthroughSupport, DynamicMIG and
-- ComputeDomainCliques; ComputeDomainCliques requires IMEXDaemonsWithDNSNames; DynamicMIG excludes
-- PassthroughSupport, NVMLDeviceHealthCheck and MPSSupport.
pub validate_feature_gates-IsConsistent :
    (g : Gates) → (validate_feature_gates g ≡ none) ↔ IsConsistent g
validate_feature_gates-IsConsistent g = (sound g, complete g)

default_accepted : validate_feature_gates default_feature_gates ≡ none
unfolding validate_feature_gates
default_accepted = refl
