-- ===== src/Controllers/Cluster/Patching.antt =====
-- The patches that a reconciliation of a cluster writes, and the error that comes out of them.
use cluster_api_provider_scv.Base.{
  Str, codes, Bool, true, false, not, Option, none, some, List, [], ◌∷◌, ◌++◌, ◌≡◌, refl, ◌⊎◌, inl,
  inr, All, if◌then◌else◌, ◌∙◌,
}
use cluster_api_provider_scv.Api.Meta.{Result, ok, err, panic, timeout, wrap}
use cluster_api_provider_scv.Api.Call.{
  Call, Reply, gives, fails, reply, pure, raise, asks, exchange, reads, changes, ◌>>=◌, ◌>>◌, check,
}
use cluster_api_provider_scv.Controllers.Cluster.{
  ScvmmCluster, World, Env, cluster_finalizer, deleting_condition, with_finalizers,
  with_cluster_condition, change_cluster, patch_scvmm_cluster, provisioned_cluster,
  reconcile_cluster_normal, reconcile_cluster_delete, keep_error, deferring_patch,
  reconcile_patched, reconcile_owned_cluster, reconcile_found_cluster, reconcile_read,
  reconcile_cluster,
}

module _ (env : Env) where
  -- Every patch of the list was accepted when it was written.
  abbrev pub Accepted : List ScvmmCluster → Type 0
  Accepted [] = Unit
  Accepted (c ∷ ps) = (env.patch ps c ≡ gives tt) × Accepted ps

  -- A call that ends well has all its patches accepted.
  abbrev pub AcceptedIfOk : Result (Unit {0}) × List ScvmmCluster → Type 0
  AcceptedIfOk (ok a, ps) = Accepted ps
  AcceptedIfOk (err e, ps) = Unit
  AcceptedIfOk (panic s, ps) = Unit
  AcceptedIfOk (timeout, ps) = Unit

  module _ (c : ScvmmCluster) where
    abbrev pub marked : ScvmmCluster
    marked = with_cluster_condition env deleting_condition c

    abbrev pub freed : ScvmmCluster
    freed = with_finalizers marked (env.remove_finalizer marked.meta.finalizers cluster_finalizer)

    -- What is written for a cluster that is not being deleted.
    abbrev pub kept_up : ScvmmCluster
    kept_up =
        if env.contains_finalizer c.meta.finalizers cluster_finalizer
        then provisioned_cluster env c
        else with_finalizers c (env.add_finalizer c.meta.finalizers cluster_finalizer)

    -- The patches after `old`: at most one for a cluster that is not being deleted, with the finalizer
    -- added or with its status; for one that is being deleted, patches that leave the metadata as they
    -- are, or, after an accepted patch with the condition, one without the finalizer.
    abbrev pub Patches : List ScvmmCluster → List ScvmmCluster → Type 0
    Patches old log =
        ((c.meta.deleting ≡ false) × ((log ≡ old) ⊎ (log ≡ kept_up ∷ old)))
        ⊎ ((c.meta.deleting ≡ true)
            × (((ps : List ScvmmCluster) × (log ≡ ps ++ old) × All (λ p. p.meta ≡ c.meta) ps)
                ⊎ ((log ≡ freed ∷ marked ∷ old) × (env.patch old marked ≡ gives tt))))

    -- What a call does from the world of the cluster.
    abbrev pub Good : List ScvmmCluster → Result (Unit {0}) × World → Type 0
    Good old (r, w) = (Accepted old → AcceptedIfOk (r, w.patches)) × Patches old w.patches

    -- The deferred patch after a call that has written `ps` patches and ended with `r`.
    deferred_accepted :
        (r : Result (Unit {0})) (w : World) (q : Reply (Unit {0}))
        → env.patch w.patches w.cluster ≡ q
        → AcceptedIfOk (r, w.patches)
        → AcceptedIfOk (keep_error r (reply q), w.cluster ∷ w.patches)
    unfolding keep_error reply
    deferred_accepted (ok a) w (gives b) e h = (e, h)
    deferred_accepted (ok a) w (fails x) e h = tt
    deferred_accepted (err x) w q e h = tt
    deferred_accepted (panic s) w q e h = tt
    deferred_accepted timeout w q e h = tt

    abbrev kept_world : Bool → World → World
    kept_world b w = record w {
      cluster =
          if b
          then provisioned_cluster env w.cluster
          else with_finalizers w.cluster
              (env.add_finalizer w.cluster.meta.finalizers cluster_finalizer);
    }

    kept_up_call :
        (b : Bool) (w : World)
        → (if not b
              then change_cluster
                  (λ x. with_finalizers x (env.add_finalizer x.meta.finalizers cluster_finalizer))
              else reconcile_cluster_normal env)
            w
          ≡ (ok tt, kept_world b w)
    unfolding change_cluster changes reconcile_cluster_normal
    kept_up_call true w = refl
    kept_up_call false w = refl

    Good-deferring_patch :
        (old : List ScvmmCluster) (x : Result (Unit {0}) × World)
        → (Accepted old → AcceptedIfOk (x.0, x.1.patches))
        → Patches old (x.1.cluster ∷ x.1.patches)
        → (m : Call World (Unit {0})) → m (record { cluster = c; patches = old }) ≡ x
        → Good old (deferring_patch env m (record { cluster = c; patches = old }))
    unfolding deferring_patch patch_scvmm_cluster exchange
    Good-deferring_patch old (r, w) a p m e =
        rw e (λ h. deferred_accepted r w (env.patch w.patches w.cluster) refl (a h), p)

    -- `reconcileDelete` by the answers of the helper and of the patch.
    deleting_call :
        Reply (Unit {0}) → Reply (Unit {0}) → List ScvmmCluster → Result (Unit {0}) × World
    deleting_call (fails x) q old = (err x, record { cluster = c; patches = old })
    deleting_call (gives a) (fails x) old = (
      err (wrap (codes "failed to patch ScvmmCluster") x),
      record { cluster = marked; patches = marked ∷ old },
    )
    deleting_call (gives a) (gives b) old =
        (ok tt, record { cluster = freed; patches = marked ∷ old })

    deleting_call_lem :
        (old : List ScvmmCluster) (r q : Reply (Unit {0}))
        → env.new_helper c ≡ r
        → env.patch old marked ≡ q
        → reconcile_cluster_delete env (record { cluster = c; patches = old })
          ≡ deleting_call r q old
    unfolding reconcile_cluster_delete deleting_call asks exchange reply change_cluster changes
        patch_scvmm_cluster check raise ◌>>◌ ◌>>=◌
    deleting_call_lem old (fails x) q e f = rw e refl
    deleting_call_lem old (gives a) (fails x) e f = rw (e, f) refl
    deleting_call_lem old (gives a) (gives b) e f = rw (e, f) refl

    Good-deleting :
        (old : List ScvmmCluster) (r q : Reply (Unit {0})) (m : Call World (Unit {0}))
        → c.meta.deleting ≡ true
        → env.patch old marked ≡ q
        → m (record { cluster = c; patches = old }) ≡ deleting_call r q old
        → Good old (deferring_patch env m (record { cluster = c; patches = old }))
    unfolding deleting_call with_cluster_condition
    Good-deleting old (fails x) q m del f e =
        Good-deferring_patch old (deleting_call (fails x) q old) (λ h. tt)
          (inr (del, inl (c ∷ [], refl, (refl, tt)))) m e
    Good-deleting old (gives a) (fails x) m del f e =
        Good-deferring_patch old (deleting_call (gives a) (fails x) old) (λ h. tt)
          (inr (del, inl (marked ∷ marked ∷ [], refl, (refl, (refl, tt))))) m e
    Good-deleting old (gives a) (gives b) m del f e =
        Good-deferring_patch old (deleting_call (gives a) (gives b) old) (λ h. (f, h))
          (inr (del, inr (refl, f))) m e

    patched_call :
        (b : Bool) (w : World)
        → c.meta.deleting ≡ b
        → reconcile_patched env c w
          ≡ (if b
                then reconcile_cluster_delete env
                else if not (env.contains_finalizer c.meta.finalizers cluster_finalizer)
                then change_cluster
                    (λ x. with_finalizers x (env.add_finalizer x.meta.finalizers cluster_finalizer))
                else reconcile_cluster_normal env)
              w
    unfolding reconcile_patched
    patched_call b w e = simp e refl

    Good-reconcile_patched :
        (old : List ScvmmCluster) (b : Bool)
        → c.meta.deleting ≡ b
        → Good old
            (deferring_patch env (reconcile_patched env c) (record { cluster = c; patches = old }))
    unfolding reconcile_patched
    Good-reconcile_patched old true e =
        Good-deleting old (env.new_helper c) (env.patch old marked) (reconcile_patched env c) e refl
          (patched_call true (record { cluster = c; patches = old }) e
            ∙ deleting_call_lem old (env.new_helper c) (env.patch old marked) refl refl)
    Good-reconcile_patched old false e =
        let has = env.contains_finalizer c.meta.finalizers cluster_finalizer in
        let w : World = record { cluster = c; patches = old } in
        Good-deferring_patch old (ok tt, kept_world has w) (λ h. h) (inl (e, inr refl))
          (reconcile_patched env c) (patched_call false w e ∙ kept_up_call has w)

    -- Of the calls before the deferred one, none writes a patch.
    Stays : List ScvmmCluster → Result (Unit {0}) × World → Type 0
    Stays old x = Good old x ⊎ (x.1.patches ≡ old)

    Stays-reconcile_owned_cluster :
        (old : List ScvmmCluster) (o : Option Str) (q : Reply (Unit {0}))
        → env.new_helper c ≡ q
        → Stays old (reconcile_owned_cluster env c o (record { cluster = c; patches = old }))
    unfolding Stays reconcile_owned_cluster asks exchange reply ◌>>◌ ◌>>=◌ pure
    Stays-reconcile_owned_cluster old none q e = inr refl
    Stays-reconcile_owned_cluster old (some owner) (fails x) e = rw e (inr refl)
    Stays-reconcile_owned_cluster old (some owner) (gives a) e =
        rw e (inl (Good-reconcile_patched old c.meta.deleting refl))

    Stays-reconcile_found_cluster :
        (old : List ScvmmCluster) (q : Reply (Option Str))
        → env.get_owner_cluster c.meta ≡ q
        → Stays old (reconcile_found_cluster env (record { cluster = c; patches = old }))
    unfolding Stays reconcile_found_cluster reads asks exchange reply ◌>>=◌
    Stays-reconcile_found_cluster old (fails x) e = rw e (inr refl)
    Stays-reconcile_found_cluster old (gives o) e =
        rw e (Stays-reconcile_owned_cluster old o (env.new_helper c) refl)

  Accepted-any :
      (r : Result (Unit {0})) (ps : List ScvmmCluster) → Accepted ps → AcceptedIfOk (r, ps)
  Accepted-any (ok a) ps h = h
  Accepted-any (err e) ps h = tt
  Accepted-any (panic s) ps h = tt
  Accepted-any timeout ps h = tt

  -- The patches are those of the cluster that was read, if it was read.
  abbrev pub Written : Reply ScvmmCluster → List ScvmmCluster → List ScvmmCluster → Type 0
  Written read old log = (log ≡ old) ⊎ ((c : ScvmmCluster) × (read ≡ gives c) × Patches c old log)

  -- Also, there is an error if one of them was not accepted.
  abbrev pub Reconciles :
      Reply ScvmmCluster → List ScvmmCluster → Result (Unit {0}) × List ScvmmCluster → Type 0
  Reconciles read old x = AcceptedIfOk x × Written read old x.1

  abbrev ReconcilesAfter :
      Reply ScvmmCluster → List ScvmmCluster → Result (Unit {0}) × List ScvmmCluster → Type 0
  ReconcilesAfter read old x = (Accepted old → AcceptedIfOk x) × Written read old x.1

  ReconcilesAfter-of_Stays :
      (c : ScvmmCluster) (old : List ScvmmCluster) (r : Result (Unit {0})) (w : World)
      → Stays c old (r, w)
      → ReconcilesAfter (gives c) old (r, w.patches)
  unfolding Stays
  ReconcilesAfter-of_Stays c old r w (inl (a, p)) = (a, inr (c, refl, p))
  ReconcilesAfter-of_Stays c old r w (inr same) = rw same (Accepted-any r old, inl refl)

  ReconcilesAfter-reconcile_read :
      (old : List ScvmmCluster) (read : Reply ScvmmCluster)
      → ReconcilesAfter read old (reconcile_read env old read)
  unfolding reconcile_read
  ReconcilesAfter-reconcile_read old (gives c) =
      ReconcilesAfter-of_Stays c old _ _
        (Stays-reconcile_found_cluster c old (env.get_owner_cluster c.meta) refl)
  ReconcilesAfter-reconcile_read old (fails e) = (Accepted-any _ old, inl refl)

  -- If the patches written before were accepted and reconcile_cluster ends well, all patches are
  -- accepted. It writes none, or it has read a cluster: for one that is not being deleted at most
  -- one patch, with the finalizer added, or with its status where the finalizer is there; for one
  -- that is being deleted patches that leave the metadata as they are, or, after an accepted patch
  -- with the condition of the deletion, one with the finalizer removed.
  pub reconcile_cluster-Reconciles :
      (namespace name : Str) (old : List ScvmmCluster)
      → Accepted old
      → Reconciles (env.get_cluster namespace name) old (reconcile_cluster env namespace name old)
  unfolding reconcile_cluster
  reconcile_cluster-Reconciles namespace name old accepted =
      let (a, written) = ReconcilesAfter-reconcile_read old (env.get_cluster namespace name) in
      (a accepted, written)
