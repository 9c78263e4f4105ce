-- ===== src/Machine/Send.antt =====
-- `sendWinrmCommandWithErrorResult`, `sendWinrmCommand` and `sendWinrmSpecCommand` of
-- internal/controllers/helper_winrmcommand.go, from the sending of a command to its decoded answer.
use cluster_api_provider_scv.Base.{
  Str, codes, is_empty, Option, none, some, List, [], ◌++◌, ◌∷◌, if◌then◌else◌,
}
use cluster_api_provider_scv.Api.Meta.{script_error, message, wrap, Result, ok, err}
use cluster_api_provider_scv.Api.Provider.{ScvmmProviderReference}
use cluster_api_provider_scv.Scvmm.Command.{Command, add_vm_spec, get_vm_ids_by_name, function_name}
use cluster_api_provider_scv.Scvmm.Answer.{WinrmResult, VmResult, VmIdsResult, VmSpecResult}
use cluster_api_provider_scv.Machine.Event.{sent}
use cluster_api_provider_scv.Machine.Env.{Env}
use cluster_api_provider_scv.Machine.Action.{
  Action, pure, raise, check, ask, lift, get_machine, ◌>>=◌,
}

-- A nil reference is the reference with empty fields.
unfoldable pub the_provider : Option ScvmmProviderReference → ScvmmProviderReference
the_provider none = record { name = []; namespace = [] }
the_provider (some r) = r

-- The decoded text of an answer: no answer, an answer with its `Error` filled, or an answer.
unfoldable pub read_decoded : {T : Type 0} → (T → Str) → Command → Str → Option T → Result T
read_decoded get_error c text none = err (message (codes "Decode result error: " ++ text))
read_decoded get_error c text (some t) =
    if is_empty (get_error t) then ok t else err (script_error (function_name c) (get_error t))

-- What the sender makes of the worker's result: a transport error, or the decoded text.
unfoldable pub read_answer :
    {T : Type 0} → (Str → Option T) → (T → Str) → Command → WinrmResult → Result T
unfolding read_decoded
read_answer decode get_error c r = elim (r.err) [
  | some e ↦ err (wrap (codes "Failed to call function " ++ function_name c) e)
  | none ↦ read_decoded get_error c r.stdout (decode r.stdout)
]

-- The answer of a spec command carries the text of its error in `Message`.
unfoldable pub read_spec_answer :
    (Str → Option VmSpecResult) → Command → WinrmResult → Result VmSpecResult
read_spec_answer decode c r = elim (r.err) [
  | some e ↦ err (wrap (codes "Failed to call function " ++ function_name c) e)
  | none ↦ elim (decode r.stdout) [
    | none ↦ err (message (codes "Decode result error: " ++ r.stdout))
    | some t ↦ if is_empty t.error then ok t else err (script_error (function_name c) t.message)
  ]
]

-- `strings.Join(vmIdsByName, ", ")`
unfoldable pub join_ids : List Str → Str
join_ids [] = []
join_ids (i ∷ []) = i
join_ids (i ∷ j ∷ is) = i ++ (codes ", " ++ join_ids (j ∷ is))

module _ (env : Env) where
  unfoldable pub send_vm : Option ScvmmProviderReference → Command → Action VmResult
  send_vm ref c = ask (λ h. env.winrm h (the_provider ref) c) (sent (the_provider ref) c) >>= λ r.
      lift (read_answer env.decode_vm (λ v. v.error) c r)

  unfoldable pub send_vm_ids : Option ScvmmProviderReference → Command → Action VmIdsResult
  send_vm_ids ref c =
      ask (λ h. env.winrm h (the_provider ref) c) (sent (the_provider ref) c) >>= λ r.
      lift (read_answer env.decode_vm_ids (λ v. v.error) c r)

  -- `sendWinrmSpecCommand` with the command "AddVMSpec", its only one.
  unfoldable pub send_vm_spec : Action VmSpecResult
  send_vm_spec = do
    m ← get_machine
    spec ← check (lift (env.marshal_spec m.spec)) (λ e. raise (wrap (codes "encoding spec") e)) pure
    meta ←
        check (lift (env.marshal_meta m.meta)) (λ e. raise (wrap (codes "encoding metadata") e))
          pure
    let c = add_vm_spec spec meta
    r ←
        ask (λ h. env.winrm h (the_provider m.spec.provider_ref) c)
          (sent (the_provider m.spec.provider_ref) c)
    lift (read_spec_answer env.decode_vm_spec c r)

  -- `getVMIDsByName`
  unfoldable pub vm_ids_by_name : Option ScvmmProviderReference → Str → Action (List Str)
  unfolding send_vm_ids
  vm_ids_by_name ref name =
      check (send_vm_ids ref (get_vm_ids_by_name name))
        (λ e. raise (wrap (codes "failed to get VMIDs by name " ++ name) e)) (λ r. pure r.vm_ids)
