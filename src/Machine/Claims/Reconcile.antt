-- ===== src/Machine/Claims/Reconcile.antt =====
-- `reconcileIPAddressClaims`, `createOrPatchIPAddressClaim` and `deleteIPAddressClaims`.
use cluster_api_provider_scv.Base.{
  ℕ, Str, codes, is_empty, Bool, true, false, none, some, [], ◌++◌, ◌==◌, map, length, set,
  replicate, if◌then◌else◌,
}
use cluster_api_provider_scv.Api.Meta.{
  Error, aggregate, message, wrap, is_not_found, read_key, put_key,
}
use cluster_api_provider_scv.Api.Machine.{Networking, NetworkDevice, PoolRef, ScvmmMachine}
use cluster_api_provider_scv.Machine.Event.{
  IpAddressClaim, read, claim_kind, address_kind, applied_claim, updated_claim,
}
use cluster_api_provider_scv.Machine.Env.{Env}
use cluster_api_provider_scv.Machine.Words.{
  ip_address_claimed, ip_address_claim_not_found, ip_claim_finalizer,
}
use cluster_api_provider_scv.Machine.DiskClaim.{machine_owner}
use cluster_api_provider_scv.Machine.Reason.{set_machine_condition}
use cluster_api_provider_scv.Machine.CloudInit.{render_hostname}
use cluster_api_provider_scv.Machine.Claims.{
  claim_name, Tally, DeviceTally, add_error, start_claim, count_created, note_claim, fulfil,
  is_other_gateway, fill_device, claim_condition,
}
use cluster_api_provider_scv.Machine.Action.{
  Action, pure, raise, lift, panics, get_machine, modify, write, fetch, for_each, fold_each,
  on_option, check, ◌>>=◌, ◌>>◌,
}

abbrev pub cluster_name_label : Str
cluster_name_label = codes "cluster.x-k8s.io/cluster-name"

abbrev hostname_annotation : Str
hostname_annotation = codes "infrastructure.x-k8s.io/hostname"

abbrev dns_zone_annotation : Str
dns_zone_annotation = codes "infrastructure.x-k8s.io/dns-zone"

-- A nil `Networking` is followed by the loops of this file.
unfoldable pub the_networking : Action Networking
the_networking = do
  m ← get_machine
  on_option m.spec.networking (panics (codes "nil Networking")) pure

unfoldable pub set_device : ℕ → NetworkDevice → ScvmmMachine → ScvmmMachine
set_device i d m = record m {
  spec = record (m.spec) {
    networking = elim (m.spec.networking) [
      | none ↦ none
      | some n ↦ some (record n { devices = set n.devices i d })
    ];
  };
}

module _ (env : Env) where
  -- `mutateFn`, on the claim as the server has it; `CreateOrPatch` itself is a parameter.
  unfoldable pub mutate_claim :
      ScvmmMachine → Networking → Str → PoolRef → Str → IpAddressClaim → IpAddressClaim
  unfolding machine_owner
  mutate_claim m n hostname pool group c =
      let label = read_key cluster_name_label m.meta.labels in
      record c {
        meta = record (c.meta) {
          owner_references = env.ensure_owner_ref c.meta.owner_references (machine_owner m true);
          finalizers = env.add_finalizer c.meta.finalizers ip_claim_finalizer;
          labels =
              if is_empty label
              then c.meta.labels
              else put_key cluster_name_label label c.meta.labels;
          annotations =
              put_key dns_zone_annotation n.domain
                (put_key hostname_annotation hostname c.meta.annotations);
        };
        pool_ref = record pool { api_group = some group };
      }

  -- The claim that the server has under the name, or a new one.
  unfoldable pub empty_claim : Str → Str → IpAddressClaim
  empty_claim namespace name = record {
    meta = record {
      name = name;
      namespace = namespace;
      uid = [];
      deleting = false;
      finalizers = [];
      owner_references = [];
      labels = [];
      annotations = [];
    };
    pool_ref = record { api_group = none; kind = []; name = [] };
    address_ref = [];
    has_ready = false;
  }

  -- Every error of `CreateOrPatch`, also one of the function that it is given.
  unfoldable pub fail_claim : {A : Type 0} → Error → Action A
  fail_claim e = raise (wrap (codes "failed to CreateOrPatch IPAddressClaim") e)

  unfoldable pub create_or_patch_claim : Str → PoolRef → Action (IpAddressClaim × Bool)
  unfolding fail_claim mutate_claim empty_claim the_networking render_hostname
  create_or_patch_claim name pool = do
    m ← get_machine
    n ← the_networking
    if is_empty n.domain
        then raise (message (codes "missing required parameter networking.Domain"))
        else (do
          old ←
              check
                (fetch (λ h. env.get_claim h m.meta.namespace name)
                  (read claim_kind m.meta.namespace name))
                (λ e.
                  if is_not_found e then pure (empty_claim m.meta.namespace name) else fail_claim e)
                pure
          hostname ← check (lift (render_hostname env m)) fail_claim pure
          group ← on_option pool.api_group (panics (codes "nil APIGroup")) pure
          let new = mutate_claim m n hostname pool group old
          check (fetch (λ h. env.apply_claim h new) (applied_claim new)) fail_claim pure)

  -- The address of a fulfilled claim; an error is noted and the loop goes on.
  unfoldable pub read_address : ℕ → IpAddressClaim → DeviceTally → Action DeviceTally
  unfolding add_error fulfil note_claim is_other_gateway
  read_address ref c t = do
    m ← get_machine
    check
        (fetch (λ h. env.get_address h m.meta.namespace c.address_ref)
          (read address_kind m.meta.namespace c.address_ref))
        (λ e. pure (add_error e t))
        (λ a.
          if is_other_gateway t.gateway a
          then pure (
              add_error
                (message
                  (codes "Different gateways: " ++ (t.gateway ++ (codes " <> " ++ a.gateway))))
                t)
          else on_option a.prefix (panics (codes "nil Prefix"))
              (λ p. pure (note_claim c (fulfil ref a p t))))

  -- One round of the loop over the pools of a device.
  unfoldable pub reconcile_claim : ℕ → ℕ → PoolRef → DeviceTally → Action DeviceTally
  unfolding create_or_patch_claim read_address start_claim count_created
  reconcile_claim dev ref pool t = do
    m ← get_machine
    let name = claim_name m.meta.name dev ref
    check
        (fetch (λ h. env.get_claim h m.meta.namespace name) (read claim_kind m.meta.namespace name))
        (λ e.
          if is_not_found e
          then pure tt
          else raise (
              wrap
                (codes "failed to get IPAddressClaim " ++ (m.meta.namespace ++ (codes "/" ++ name)))
                e))
        (λ _. pure tt)
    check (create_or_patch_claim name pool) (λ e. pure (add_error e (start_claim t)))
        (λ r.
          if is_empty r.0.address_ref
          then pure (note_claim r.0 (count_created r.1 (start_claim t)))
          else read_address ref r.0 (count_created r.1 (start_claim t)))

  unfoldable pub reconcile_device : ℕ → NetworkDevice → Tally → Action Tally
  unfolding reconcile_claim fill_device set_device
  reconcile_device dev d t = do
    r ←
        fold_each 0 d.addresses_from_pools
          (record {
            tally = t;
            gateway = [];
            addresses = replicate (length d.addresses_from_pools) [];
          })
          (reconcile_claim dev)
    modify (set_device dev (fill_device r d))
    pure r.tally

  unfoldable pub finish_claims : Tally → Action (Unit {0})
  unfolding claim_condition
  finish_claims t =
      if is_empty t.errors
      then (if length t.claims == t.total
          then modify (λ m. record m {
            status = record (m.status) {
              conditions = env.set_aggregate_condition t.claims m.status.conditions;
            };
          })
          else on_option (claim_condition t) (pure tt) (set_machine_condition env))
      else let e = aggregate (map env.error_text t.errors) in
        set_machine_condition env (record {
          type = ip_address_claimed;
          status = false;
          reason = ip_address_claim_not_found;
          message = env.error_text e;
        })
        >> raise e

  unfoldable pub reconcile_ip_address_claims : Action (Unit {0})
  unfolding reconcile_device finish_claims the_networking
  reconcile_ip_address_claims = do
    n ← the_networking
    t ←
        fold_each 0 n.devices
          (record { total = 0; created = 0; fulfilled = 0; claims = []; errors = [] })
          reconcile_device
    finish_claims t

  -- The claims go with their owner once their finalizers are off.
  unfoldable pub delete_claim : ℕ → ℕ → Action (Unit {0})
  delete_claim dev ref = do
    m ← get_machine
    let name = claim_name m.meta.name dev ref
    check
        (fetch (λ h. env.get_claim h m.meta.namespace name) (read claim_kind m.meta.namespace name))
        (λ e.
          if is_not_found e
          then pure tt
          else raise (
              wrap
                (codes "failed to get IPAddressClaim \""
                  ++ (name ++ codes "\" to remove the finalizer"))
                e))
        (λ c.
          if env.contains_finalizer c.meta.finalizers ip_claim_finalizer
          then (let c' = record c {
            meta = record (c.meta) {
              finalizers = env.remove_finalizer c.meta.finalizers ip_claim_finalizer;
            };
          } in
              check (write (λ h. env.update_claim h c') (updated_claim c'))
                (λ e. raise (
                  wrap
                    (codes "failed to update IPAddressClaim "
                      ++ (c.meta.namespace ++ (codes "/" ++ c.meta.name)))
                    e))
                pure)
          else pure tt)

  unfoldable pub delete_ip_address_claims : Action (Unit {0})
  unfolding delete_claim the_networking
  delete_ip_address_claims = do
    n ← the_networking
    for_each 0 n.devices
        (λ dev d. for_each 0 d.addresses_from_pools (λ ref p. delete_claim dev ref))
