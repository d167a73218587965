-- ===== src/Host/Result.antt =====
-- The results of the library (libkpl/include/kpl/errors_vals.def), and how the application's status
-- words become results: `parseAppSW` of libkpl/src/kpl.cpp.
use ledger_kee_pass.Base.{Bool, true, false, ℕ, ◌≡◌, arith, ◌==◌, if◌then◌else◌}
use ledger_kee_pass.App.Consts.{
  sw_success, sw_unknown_instr, sw_invalid_cls, sw_invalid_parameter, sw_exception_security,
  sw_unauthorized_access, sw_empty_slot, sw_invalid_name,
}

-- `enum Result`
pub data Result : Type 0 where
  success device_not_found : Result
  app_invalid_name app_unauthorized_access app_empty_slot app_unknown_error app_security_error :
      Result
  lib_bad_length lib_out_of_memory lib_x25519_fail : Result
  protocol_bad_param protocol_bad_length protocol_bad_version : Result
  transport_tcp_unk_host transport_tcp_socket_create_fail transport_usb_bad_packet : Result
  transport_usb_bad_seq transport_timeout transport_connection_failed transport_generic_error :
      Result

unfoldable pub parse_app_sw : ℕ → Result
parse_app_sw sw =
    if sw == sw_success
    then success
    else (if sw == sw_unknown_instr
        then protocol_bad_param
        else (if sw == sw_invalid_cls
            then protocol_bad_param
            else (if sw == sw_invalid_parameter
                then protocol_bad_param
                else (if sw == sw_exception_security
                    then app_security_error
                    else (if sw == sw_unauthorized_access
                        then app_unauthorized_access
                        else (if sw == sw_empty_slot
                            then app_empty_slot
                            else (if sw == sw_invalid_name
                                then app_invalid_name
                                else app_unknown_error)))))))

-- `Res == Result::SUCCESS`
unfoldable pub is_success : Result → Bool
is_success success = true
is_success _ = false

pub is_success_sound : (r : Result) → is_success r ≡ true → r ≡ success
unfolding is_success
is_success_sound success h = λ _. success
is_success_sound device_not_found h = cc
is_success_sound app_invalid_name h = cc
is_success_sound app_unauthorized_access h = cc
is_success_sound app_empty_slot h = cc
is_success_sound app_unknown_error h = cc
is_success_sound app_security_error h = cc
is_success_sound lib_bad_length h = cc
is_success_sound lib_out_of_memory h = cc
is_success_sound lib_x25519_fail h = cc
is_success_sound protocol_bad_param h = cc
is_success_sound protocol_bad_length h = cc
is_success_sound protocol_bad_version h = cc
is_success_sound transport_tcp_unk_host h = cc
is_success_sound transport_tcp_socket_create_fail h = cc
is_success_sound transport_usb_bad_packet h = cc
is_success_sound transport_usb_bad_seq h = cc
is_success_sound transport_timeout h = cc
is_success_sound transport_connection_failed h = cc
is_success_sound transport_generic_error h = cc

-- The library reports success for the one status word that means it.
pub parse_app_sw-success : (sw : ℕ) → parse_app_sw sw ≡ success → sw ≡ sw_success
unfolding parse_app_sw
parse_app_sw-success sw h = ground arith
