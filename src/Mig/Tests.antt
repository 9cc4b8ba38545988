-- ===== src/Mig/Tests.antt =====
-- Canonical MIG device names at concrete inputs.
use k8s_dra_driver.Common.{◌≡◌, refl, none, some, itoa}
use k8s_dra_driver.Mig.{to_canonical_name, to_rfc1123_compliant, mig_spec_tuple_from_canonical_name}

name_runs :
    to_canonical_name
      (record { parent_minor = 12; profile_id = 14; placement_start = 0 })
      "2g.47GB+me"
    ≡ "gpu-12-mig-2g47gb-me-14-0"
unfolding to_canonical_name to_rfc1123_compliant itoa
name_runs = refl

parse_runs :
    mig_spec_tuple_from_canonical_name "gpu-12-mig-2g47gb-me-14-0"
    ≡ some (record { parent_minor = 12; profile_id = 14; placement_start = 0 })
unfolding mig_spec_tuple_from_canonical_name
parse_runs = refl

parse_refuses_gpu : mig_spec_tuple_from_canonical_name "gpu-12" ≡ none
unfolding mig_spec_tuple_from_canonical_name
parse_refuses_gpu = refl
