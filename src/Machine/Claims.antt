-- ===== src/Machine/Claims.antt =====
-- internal/controllers/helper_ipaddressclaim.go: the IP address claims of the devices.
pub mod Reconcile
use cluster_api_provider_scv.Base.{
  ℕ, zero, suc, ◌+◌, ◌-◌, Str, codes, str_eq, is_empty, Bool, true, false, not, ◌&&◌, ◌||◌, Option,
  none, some, List, [], ◌∷◌, ◌++◌, ltb, ◌==◌, all, any, map, length, set, replicate, if◌then◌else◌,
}
use cluster_api_provider_scv.Base.Decimal.{show}
use cluster_api_provider_scv.Api.Meta.{
  Error, aggregate, message, wrap, is_not_found, Result, ok, err, read_key, put_key,
}
use cluster_api_provider_scv.Api.Machine.{
  Networking, NetworkDevice, PoolRef, ScvmmMachine, ScvmmCondition,
}
use cluster_api_provider_scv.Machine.Event.{
  IpAddressClaim, read, claim_kind, address_kind, applied_claim, updated_claim,
}
use cluster_api_provider_scv.Machine.Env.{Env, IpAddress}
use cluster_api_provider_scv.Machine.Words.{
  ip_address_claimed, ip_address_claims_being_created, ip_address_claim_not_found,
  waiting_for_ip_address, ip_claim_finalizer,
}
use cluster_api_provider_scv.Machine.DiskClaim.{machine_owner}
use cluster_api_provider_scv.Machine.Reason.{set_machine_condition}
use cluster_api_provider_scv.Machine.CloudInit.{render_hostname}
use cluster_api_provider_scv.Machine.Action.{
  Action, pure, raise, lift, panics, get_machine, modify, emit, write, fetch, for_each, fold_each,
  on_option, check, ◌>>=◌, ◌>>◌,
}

-- `hasAllIPAddresses`, for one device and for all.
unfoldable pub has_all_addresses : NetworkDevice → Bool
has_all_addresses d =
    not (is_empty d.gateway)
    && (not (is_empty d.ip_addresses)
        && (not (ltb (length d.ip_addresses) (length d.addresses_from_pools))
            && all (λ a. not (is_empty a)) d.ip_addresses))

unfoldable pub has_all_ip_addresses : Networking → Bool
unfolding has_all_addresses
has_all_ip_addresses n = all has_all_addresses n.devices

-- `fmt.Sprintf("%s-%d-%d", scvmmMachine.Name, devIdx, poolRefIdx)`
unfoldable pub claim_name : Str → ℕ → ℕ → Str
claim_name name dev ref = name ++ (codes "-" ++ (show dev ++ (codes "-" ++ show ref)))

-- The counters of the whole call.
pub record Tally : Type 0 where
  pub total : ℕ
  pub created : ℕ
  pub fulfilled : ℕ
  pub claims : List IpAddressClaim
  pub errors : List Error

-- The variables of the loop over the pools of one device.
pub record DeviceTally : Type 0 where
  pub tally : Tally
  pub gateway : Str
  pub addresses : List Str

unfoldable pub add_error : Error → DeviceTally → DeviceTally
add_error e t = record t { tally = record (t.tally) { errors = t.tally.errors ++ (e ∷ []) } }

unfoldable pub start_claim : DeviceTally → DeviceTally
start_claim t = record t { tally = record (t.tally) { total = t.tally.total + 1 } }

unfoldable pub count_created : Bool → DeviceTally → DeviceTally
count_created created t =
    if created then record t { tally = record (t.tally) { created = t.tally.created + 1 } } else t

unfoldable pub note_claim : IpAddressClaim → DeviceTally → DeviceTally
note_claim c t =
    if c.has_ready
    then record t { tally = record (t.tally) { claims = t.tally.claims ++ (c ∷ []) } }
    else t

-- `fmt.Sprintf("%s/%d", ipAddr.Spec.Address, *ipAddr.Spec.Prefix)` in the place of the pool.
unfoldable pub fulfil : ℕ → IpAddress → ℕ → DeviceTally → DeviceTally
fulfil ref a prefix t = record t {
  tally = record (t.tally) { fulfilled = t.tally.fulfilled + 1 };
  gateway = a.gateway;
  addresses = set t.addresses ref (a.address ++ (codes "/" ++ show prefix));
}

unfoldable pub is_other_gateway : Str → IpAddress → Bool
is_other_gateway gateway a = not (is_empty gateway) && not (str_eq gateway a.gateway)

-- The device after its pools: it changes only if a gateway was found.
unfoldable pub fill_device : DeviceTally → NetworkDevice → NetworkDevice
fill_device t d =
    if is_empty t.gateway then d else record d { gateway = t.gateway; ip_addresses = t.addresses }

-- The fallback where not every claim has a Ready condition.
unfoldable pub claim_condition : Tally → Option ScvmmCondition
claim_condition t =
    if t.total == t.fulfilled
    then some (record {
      type = ip_address_claimed;
      status = true;
      reason = ip_address_claimed;
      message = codes "Claims finished";
    })
    else if ltb t.fulfilled t.total && ltb 0 t.created
    then some (record {
      type = ip_address_claimed;
      status = false;
      reason = ip_address_claims_being_created;
      message = show t.created ++ (codes "/" ++ (show t.total ++ codes " claims being created"));
    })
    else if ltb t.fulfilled t.total && t.created == 0
    then some (record {
      type = ip_address_claimed;
      status = false;
      reason = waiting_for_ip_address;
      message =
          show (t.total - t.fulfilled)
          ++ (codes "/" ++ (show t.total ++ codes " claims being processed"));
    })
    else none
