-- ===== src/Driver/Results.antt =====
-- The results of a batch are for the claims of the batch.
use k8s_dra_driver.Common.{
  Bool, true, false, ◌||◌, List, [], ◌∷◌, String, contains, Map, insert, lookup, lookup-insert,
  Outcome, ok, is_ok, is_some, chain-cases, ◌≡◌, refl, ap, sym, ◌∙◌, arith,
}
use k8s_dra_driver.Kube.{ResourceClaim, KubeletDevice}
use k8s_dra_driver.FeatureGates.{Gates}
use k8s_dra_driver.Store.{CheckpointFile}
use k8s_dra_driver.State.{ConfigApi, Managers, DeviceState}
use k8s_dra_driver.Driver.{
  DriverParts, noted, node_prepare_resource, prepare_each, prepare_resource_claims,
}

abbrev pub uids : List ResourceClaim → List String
uids [] = []
uids (c ∷ cs) = c.uid ∷ uids cs

or_false : (b : Bool) → (b || false) ≡ b
or_false true = refl
or_false false = refl

module _ {D C T M H : Type 0} (file : CheckpointFile D) (api : ConfigApi C T M)
    (managers : Managers H T M) (g : Gates) (parts : DriverParts H) where
  one_more :
      (k uid : String) (us : List String) (x : Outcome (List KubeletDevice))
      (results : Map (Outcome (List KubeletDevice)))
      → (contains k us || is_some (lookup k (insert uid x results)))
        ≡ (contains k (uid ∷ us) || is_some (lookup k results))
  unfolding contains
  one_more k uid us x results = ground (arith, lookup-insert uid k x results)

  each_result :
      (cs : List ResourceClaim) (results : Map (Outcome (List KubeletDevice))) (s : DeviceState D H)
      (m : Map (Outcome (List KubeletDevice)))
      → (prepare_each file api managers g parts cs results s).0 ≡ ok m
      → (k : String) → is_some (lookup k m) ≡ (contains k (uids cs) || is_some (lookup k results))
  unfolding prepare_each contains
  each_result [] results s m e k =
      let same : results ≡ m = cc in ap (λ r. is_some (lookup k r)) (sym same)
  each_result (c ∷ cs) results s m e k =
      chain-cases (λ s. noted (node_prepare_resource file api managers g parts c s))
        (λ x. prepare_each file api managers g parts cs (insert c.uid x results))
        (λ p.
          p.0 ≡ ok m
          → is_some (lookup k m) ≡ (contains k (c.uid ∷ uids cs) || is_some (lookup k results)))
        s
        (λ x s' q e'.
          each_result cs (insert c.uid x results) s' m e' k ∙ one_more k c.uid (uids cs) x results)
        (λ r s' b q b' e'. cc (sym b ∙ ap is_ok e')) e

  -- A batch of claims to prepare that returns has a result, devices or an error, for exactly the
  -- claims of the batch.
  pub prepare_resource_claims-lookup :
      (cs : List ResourceClaim) (s : DeviceState D H) (m : Map (Outcome (List KubeletDevice)))
      → (prepare_resource_claims file api managers g parts cs s).0 ≡ ok m
      → (k : String) → is_some (lookup k m) ≡ contains k (uids cs)
  unfolding prepare_resource_claims lookup
  prepare_resource_claims-lookup cs s m e k =
      each_result cs [] s m e k ∙ or_false (contains k (uids cs))
