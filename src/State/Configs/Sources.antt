-- ===== src/State/Configs/Sources.antt =====
-- The configurations that `GetOpaqueDeviceConfigs` gives: those of the class, then those of the claim.
use k8s_dra_driver.Common.{
  Bool, true, false, Option, none, some, List, [], ◌∷◌, ◌++◌, String, ◌==◌, if_cases, Outcome, ok,
  ok_inj, err, and_then-eq-ok, failure, ◌≡◌, refl, sym, ap, ◌∙◌,
}
use k8s_dra_driver.Kube.{OpaqueParameters, AllocationConfig}
use k8s_dra_driver.Devices.{driver_name}
use k8s_dra_driver.State.{ConfigApi}
use k8s_dra_driver.State.Configs.{
  OpaqueDeviceConfig, is_class, is_claim, of_source, sources_valid, decoded_if, decoded,
  decode_configs, get_opaque_device_configs,
}

module _ {C T M : Type 0} (api : ConfigApi C T M) where
  -- The configs are those of two lists, one after the other.
  abbrev pub Splits :
      Outcome (List (OpaqueDeviceConfig C))
      → Outcome (List (OpaqueDeviceConfig C))
      → List (OpaqueDeviceConfig C)
      → Type 0
  Splits r1 r2 cs =
      (before : List (OpaqueDeviceConfig C)) × (after : List (OpaqueDeviceConfig C)) × (r1
        ≡ ok before)
      × (r2 ≡ ok after)
      × (cs ≡ before ++ after)

  decoded_if-Splits :
      (x : AllocationConfig) (parameters : String)
      (rest r1 r2 : Outcome (List (OpaqueDeviceConfig C))) (b : Bool)
      → ((cs : List (OpaqueDeviceConfig C)) → rest ≡ ok cs → Splits r1 r2 cs)
      → (cs : List (OpaqueDeviceConfig C)) → decoded_if api x parameters rest b ≡ ok cs
      → Splits (decoded_if api x parameters r1 b) r2 cs
  decoded_if-Splits x parameters rest r1 r2 false ih cs e = ih cs e
  decoded_if-Splits x parameters rest r1 r2 true ih cs e =
      let (config, f, h) = and_then-eq-ok (api.decode parameters) _ e in
      let (others, p, q) = and_then-eq-ok rest _ h in
      let (before, after, e1, e2, split) = ih others p in
      let c : OpaqueDeviceConfig C = record { requests = x.requests; config = config } in
      (c ∷ before, after, rw (f, e1) refl, e2, sym (ok_inj _ cs q) ∙ ap (λ r. c ∷ r) split)

  decoded-Splits :
      (x : AllocationConfig) (o : Option OpaqueParameters)
      (rest r1 r2 : Outcome (List (OpaqueDeviceConfig C)))
      → ((cs : List (OpaqueDeviceConfig C)) → rest ≡ ok cs → Splits r1 r2 cs)
      → (cs : List (OpaqueDeviceConfig C)) → decoded api x rest o ≡ ok cs
      → Splits (decoded api x r1 o) r2 cs
  decoded-Splits x none rest r1 r2 ih cs e = cc
  decoded-Splits x (some o) rest r1 r2 ih cs e =
      decoded_if-Splits x o.parameters rest r1 r2 (o.driver == driver_name) ih cs e

  decode-Splits :
      (xs ys : List AllocationConfig) (cs : List (OpaqueDeviceConfig C))
      → decode_configs api (xs ++ ys) ≡ ok cs
      → Splits (decode_configs api xs) (decode_configs api ys) cs
  unfolding decode_configs
  decode-Splits [] ys cs e = ([], cs, refl, e, refl)
  decode-Splits (x ∷ xs) ys cs e =
      decoded-Splits x x.opaque (decode_configs api (xs ++ ys)) (decode_configs api xs)
        (decode_configs api ys) (decode-Splits xs ys) cs e

  -- The configs of an allocation: those of the class come before those of the claim.
  pub get_opaque-Splits :
      (configs : List AllocationConfig) (cs : List (OpaqueDeviceConfig C))
      → get_opaque_device_configs api configs ≡ ok cs
      → Splits
          (decode_configs api (of_source is_class configs))
          (decode_configs api (of_source is_claim configs))
          cs
  unfolding get_opaque_device_configs
  get_opaque-Splits configs cs =
      if_cases (sources_valid configs)
        (decode_configs api (of_source is_class configs ++ of_source is_claim configs))
        (err (failure "invalid config source"))
        (λ r.
          r ≡ ok cs
          → Splits (decode_configs api (of_source is_class configs))
              (decode_configs api (of_source is_claim configs)) cs)
        (λ _ e. decode-Splits (of_source is_class configs) (of_source is_claim configs) cs e)
        (λ _ e. cc)
