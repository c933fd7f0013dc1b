-- ===== src/Examples/Registrations.antt =====
-- Registrations, and what follows them.
use sas_core.Prelude.{◌≡◌, refl, none, some, [], ◌∷◌, string_eq, All, ap, ◌∙◌, arith}
use sas_core.Codes.{success}
use sas_core.Records.{Cbsd}
use sas_core.Auth.{lock_cbsd_row}
use sas_core.Lifecycle.{grant_state_of, is_terminal}
use sas_core.Lifecycle.Flags.{InSync}
use sas_core.Json.{Json, text, obj, Fields, end, field, get, deep_merge}
use sas_core.Json.Merge.{overlaid, get-deep_merge}
use sas_core.Checked.{Checked, passed}
use sas_core.Deregistration.{answer, deregister_one}
use sas_core.Deregistration.Gone.{Absent}
use sas_core.Registration.Handler.{
  RegistrationReply, registered_reply, make_cbsd_id, examine, register_examined, register_one,
  process_registration,
}
use sas_core.Registration.Keyed.{Keyed}
use sas_core.Registration.Entered.{Registers, register-Registers}
use sas_core.Registration.Invariant.{process_registration-Keyed}
use sas_core.Registration.Quiet.{Quiet, IsStored}
use sas_core.Registration.Ended.{register-Quiet}
use sas_core.Registration.Signed.{IsSigned, examine-IsSigned}
use sas_core.Registration.Lawful.{IsLawful, examine_limits}
use sas_core.Registration.Departed.{register-deregister}
use sas_core.Examples.Data.{held}
use sas_core.Examples.Devices.{
  place, request, merged, sig_rest, site_checks, registry, signed_request, above-FreshPk,
}

get-deep_merge_example :
    get "height" (deep_merge place (field "height" (text "low") end))
    ≡ overlaid (get "height" place) (get "height" (field "height" (text "low") end))
unfolding get
get-deep_merge_example = get-deep_merge (field "height" (text "low") end) place "height" (refl, tt)

examined : examine site_checks registry 0 request ≡ passed merged
unfolding examine sas_core.Registration.Params.lacks_required_fields sas_core.Json.has get
    sas_core.Json.truthy sas_core.Auth.is_cbsd_blacklisted
    sas_core.Registration.Params.verify_request_cpi sas_core.Json.object_or_empty
    sas_core.Cpi.structural_cpi_error sas_core.Cpi.structural_field sas_core.Cpi.is_blank_json
    sas_core.Cpi.is_text sas_core.Cpi.or_invalid sas_core.Cpi.decode_cpi_signed_data
    sas_core.Cpi.text_field sas_core.Cpi.require sas_core.Cpi.is_object sas_core.Cpi.installer
    sas_core.Auth.is_fcc_id_blacklisted sas_core.Cpi.allowed_algorithm sas_core.Cpi.allowed_type
    sas_core.Cpi.certified_at sas_core.Cpi.max_future_skew sas_core.Cpi.str_of
    sas_core.Cpi.text_or_empty sas_core.Cpi.verify_cpi_signature sas_core.Cpi.verify_payload
    deep_merge sas_core.Json.drop_nulls sas_core.Json.given sas_core.Json.is_null
    sas_core.Json.number sas_core.Json.put sas_core.Json.text_of
    sas_core.Registration.Params.air_incomplete sas_core.Registration.Params.category_fields
    sas_core.Registration.Params.field_missing sas_core.Registration.Params.fill_in
    sas_core.Registration.Params.find_conditional sas_core.Registration.Params.find_cpi_key
    sas_core.Registration.Params.get_conditionals sas_core.Registration.Params.has_pending_params
    sas_core.Registration.Params.installation_incomplete
    sas_core.Registration.Params.merge_installation sas_core.Registration.Params.merge_registration
    sas_core.Registration.Params.or_end sas_core.Registration.Params.peek_key
    sas_core.Registration.Params.verify_signed sas_core.Registration.Validate.above_six
    sas_core.Registration.Validate.check_coordinates sas_core.Registration.Validate.check_eirp
    sas_core.Registration.Validate.check_meas sas_core.Registration.Validate.check_number
    sas_core.Registration.Validate.check_outdoor sas_core.Registration.Validate.check_site
    sas_core.Registration.Validate.clear_installation sas_core.Registration.Validate.find_fcc
    sas_core.Registration.Validate.is_bool sas_core.Registration.Validate.is_height_type
    sas_core.Registration.Validate.is_number sas_core.Registration.Validate.is_user_char
    sas_core.Registration.Validate.text_length sas_core.Registration.Validate.user_chars
    sas_core.Registration.Validate.valid_user_id sas_core.Registration.Validate.validate_params
    sas_core.Registration.Validate.is_outside
examined = refl

examine_limits_example : IsLawful registry merged
examine_limits_example = examine_limits site_checks registry 0 request merged examined

signed_data :
    get "cpiSignatureData" request ≡ some (obj (field "protectedHeader" (text "h") sig_rest))
unfolding get
signed_data = refl

examine-IsSigned_example :
    IsSigned site_checks registry 0 request (field "protectedHeader" (text "h") sig_rest) merged
examine-IsSigned_example =
    examine-IsSigned site_checks registry 0 request merged "protectedHeader" (text "h") sig_rest
      signed_data examined

register-Registers_example :
    Registers site_checks none registry 0 signed_request
      (register_one site_checks none registry 0 signed_request)
register-Registers_example = register-Registers site_checks none registry 0 signed_request (tt, tt)

keyed : Keyed registry.cbsds
keyed = record { ids = (tt, tt); pks = (tt, tt) }

process_registration-Keyed_example :
    Keyed (process_registration site_checks registry none ((0, signed_request) ∷ [])).1.cbsds
process_registration-Keyed_example =
    process_registration-Keyed site_checks none above-FreshPk registry ((0, signed_request) ∷ [])
      keyed

entered :
    (register_examined site_checks registry none 0 signed_request (passed merged)).0
    ≡ some (registered_reply (make_cbsd_id request))
unfolding register_examined sas_core.Registration.Handler.register_locked lock_cbsd_row make_cbsd_id
    sas_core.Json.text_of get sas_core.Auth.cbsd_certificate_mismatch
    sas_core.Registration.Handler.register_again sas_core.Lifecycle.evaluate_cbsd_transition
    sas_core.Registration.Handler.registration_payload sas_core.Lifecycle.resolve_cbsd_state
    sas_core.Lifecycle.cbsd_state_of
entered = refl

replied :
    (register_one site_checks none registry 0 signed_request).0
    ≡ some (registered_reply (make_cbsd_id request))
unfolding register_one
replied =
    ap (λ (m : Checked Fields). (register_examined site_checks registry none 0 signed_request m).0)
      examined
    ∙ entered

held-InSync : InSync held
unfolding grant_state_of is_terminal
held-InSync = record { ended = λ s e. ground arith; on = λ e. ground arith; off = λ e. refl }

held-IsStored : IsStored registry held
unfolding lock_cbsd_row
held-IsStored = record { synced = held-InSync; named = refl; owner_named = refl; owned = λ e. cc }

register-Quiet_example :
    All
      (Quiet (make_cbsd_id request) 0)
      (register_one site_checks none registry 0 signed_request).1.grants
register-Quiet_example =
    register-Quiet site_checks none registry 0 (held-IsStored, tt) signed_request
      (registered_reply (make_cbsd_id request)) replied refl

register-deregister_example :
    (c : Cbsd) × (lock_cbsd_row
        (register_one site_checks none registry 0 signed_request).1.cbsds
        (make_cbsd_id request)
      ≡ some c)
    × ((deregister_one none
          (register_one site_checks none registry 0 signed_request).1
          9
          (some (make_cbsd_id request))).0
        ≡ answer success (some (make_cbsd_id request)))
    × Absent
        (deregister_one none
          (register_one site_checks none registry 0 signed_request).1
          9
          (some (make_cbsd_id request))).1
        (make_cbsd_id request)
        c
register-deregister_example =
    register-deregister site_checks none registry 0 9 signed_request
      (registered_reply (make_cbsd_id request)) above-FreshPk keyed replied refl
