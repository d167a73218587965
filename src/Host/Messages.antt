-- ===== src/Host/Messages.antt =====
-- The numbers of the library's results (libkpl/include/kpl/errors_vals.def) and their texts
-- (libkpl/src/errors.cpp).
pub mod Distinct
use Prim.Native.String.{String}
use ledger_kee_pass.Base.{ℕ, List, [], ◌∷◌, ℤ, pos, minus, eq_int, if◌then◌else◌}
use ledger_kee_pass.Host.Result.{
  Result, success, device_not_found, app_invalid_name, app_unauthorized_access, app_empty_slot,
  app_unknown_error, app_security_error, lib_bad_length, lib_out_of_memory, lib_x25519_fail,
  protocol_bad_param, protocol_bad_length, protocol_bad_version, transport_tcp_unk_host,
  transport_tcp_socket_create_fail, transport_usb_bad_packet, transport_usb_bad_seq,
  transport_timeout, transport_connection_failed, transport_generic_error,
}

-- The `int` of a result
unfoldable pub result_code : Result → ℤ
result_code success = pos 0
result_code device_not_found = minus 1
result_code app_invalid_name = minus 10
result_code app_unauthorized_access = minus 11
result_code app_empty_slot = minus 12
result_code app_unknown_error = minus 13
result_code app_security_error = minus 14
result_code lib_bad_length = minus 20
result_code lib_out_of_memory = minus 21
result_code lib_x25519_fail = minus 22
result_code protocol_bad_param = minus 30
result_code protocol_bad_length = minus 31
result_code protocol_bad_version = minus 32
result_code transport_tcp_unk_host = minus 40
result_code transport_tcp_socket_create_fail = minus 41
result_code transport_usb_bad_packet = minus 42
result_code transport_usb_bad_seq = minus 43
result_code transport_timeout = minus 44
result_code transport_connection_failed = minus 45
result_code transport_generic_error = minus 46

-- The cases of `errorStr`, in their order
abbrev pub error_cases : List (Result × String)
error_cases =
    (success, "no error")
    ∷ (device_not_found, "no device found")
    ∷ (app_invalid_name, "name can only contain ASCII printable characters")
    ∷ (app_unauthorized_access, "user denied access on the device")
    ∷ (app_empty_slot, "no key exist in slot")
    ∷ (
      app_unknown_error,
      "unknown application error. Make sure the LedgerKeePass application is running!",
    )
    ∷ (app_security_error, "application security error (that probably prevented key derivation)")
    ∷ (lib_bad_length, "bad length provided in the library (internal error)")
    ∷ (lib_out_of_memory, "out of memory")
    ∷ (lib_x25519_fail, "X25519 key exchange failed")
    ∷ (protocol_bad_param, "bad parameter used in the communication protocol")
    ∷ (protocol_bad_length, "bad length used in the communication protocol")
    ∷ (protocol_bad_version, "incompatible protocol")
    ∷ (transport_tcp_unk_host, "unknown host")
    ∷ (transport_tcp_socket_create_fail, "unable to create tcp socket")
    ∷ (transport_usb_bad_packet, "bad usb packet")
    ∷ (transport_usb_bad_seq, "bad usb packets sequence")
    ∷ (transport_timeout, "communication timeout")
    ∷ (transport_connection_failed, "connection failed")
    ∷ (transport_generic_error, "communication error")
    ∷ []

-- A `switch` on the `int` of an enum: the text of the first case that fits, or the empty text
-- behind it.
unfoldable pub switch : List (Result × String) → ℤ → String
unfolding result_code
switch [] res = ""
switch ((r, text) ∷ cases) res = if eq_int res (result_code r) then text else switch cases res

-- `errorStr`, on the `int` of an enum value
unfoldable pub error_str : ℤ → String
unfolding switch
error_str res = switch error_cases res
