-- ===== src/State/Claims/Exclusive.antt =====
-- No device is prepared for two claims.
use k8s_dra_driver.Common.{
  true, false, some, String, ◌==◌, eq_iff, Bool-cases, ◌≡◌, ◌≢◌, inl, inr, sym, ◌∙◌, subst,
}
use k8s_dra_driver.Checkpoint.{PreparedClaim, is_completed}
use k8s_dra_driver.Store.{CheckpointFile}
use k8s_dra_driver.Store.Updates.{entry}
use k8s_dra_driver.State.Overlap.Laws.{Exclusive, Exclusive-sym}
use k8s_dra_driver.State.Claims.Outcomes.{Spares}

module _ {D : Type 0} (file : CheckpointFile D) where
  -- The claim stands in the file as prepared to the end.
  abbrev pub Prepared : D → String → PreparedClaim → Type 0
  Prepared d k c = (entry file d k ≡ some c) × (is_completed c.checkpoint_state ≡ true)

  -- Two claims that are prepared to the end share no device that is not for admin access.
  abbrev pub IsExclusive : D → Type 0
  IsExclusive d =
      (j k : String) (b c : PreparedClaim)
      → j ≢ k
      → Prepared d j b
      → Prepared d k c
      → Exclusive b.status c.status

  -- The same of the pairs with one given claim.
  abbrev pub OwnExclusive : String → D → Type 0
  OwnExclusive uid d =
      (k : String) (b c : PreparedClaim)
      → uid ≢ k
      → Prepared d uid b
      → Prepared d k c
      → Exclusive b.status c.status

  pub spared :
      (uid k : String) (d d' : D) (c : PreparedClaim)
      → Spares file uid d d'
      → uid ≢ k
      → Prepared d' k c
      → Prepared d k c
  spared uid k d d' c h n (e, b) = (sym (h k n) ∙ e, b)

  -- Where only one claim changes, the pairs with that claim decide.
  pub IsExclusive-own :
      (uid : String) (d d' : D)
      → Spares file uid d d'
      → OwnExclusive uid d'
      → IsExclusive d
      → IsExclusive d'
  IsExclusive-own uid d d' h own old j k b c n pb pc = elim (Bool-cases (uid == j)) [
    | inl e ↦
        let same : uid ≡ j = (eq_iff uid j).0 e in
        own k b c (λ q. n (sym same ∙ q)) (subst (λ x. Prepared d' x b) (sym same) pb) pc
    | inr e ↦ elim (Bool-cases (uid == k)) [
      | inl e' ↦
          let same : uid ≡ k = (eq_iff uid k).0 e' in
          Exclusive-sym c.status b.status
            (own j c b (λ q. n (sym q ∙ same)) (subst (λ x. Prepared d' x c) (sym same) pc) pb)
      | inr e' ↦
          old j k b c n (spared uid j d d' b h (differs uid j e) pb)
            (spared uid k d d' c h (differs uid k e') pc)
    ]
  ]
    where
      differs : (x y : String) → x == y ≡ false → x ≢ y
      differs x y e q = cc (sym ((eq_iff x y).1 q) ∙ e)

  -- An entry that is as it was, or that is not prepared to the end.
  pub own_same :
      (uid : String) (d d' : D)
      → Spares file uid d d'
      → entry file d' uid ≡ entry file d uid
      → IsExclusive d
      → OwnExclusive uid d'
  own_same uid d d' h e old k b c n (pb, done) pc =
      old uid k b c n (sym e ∙ pb, done) (spared uid k d d' c h n pc)

  pub own_absent :
      (uid : String) (d' : D)
      → ((b : PreparedClaim) → entry file d' uid ≡ some b → is_completed b.checkpoint_state ≡ false)
      → OwnExclusive uid d'
  own_absent uid d' h k b c n (pb, done) pc = cc (sym done ∙ h b pb)
