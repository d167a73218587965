-- ===== src/Host/Messages/Distinct.antt =====
-- Each result of the library has a number and a text (libkpl/src/errors.cpp) of its own.
use Prim.Native.String.{String}
use text.Mathlib.Text.{◌==◌ as str_eq}
use ledger_kee_pass.Base.{
  ◌≡◌, refl, sym, ◌∙◌, ap, Option, some, none, some_inj, List, [], ◌∷◌, if◌then◌else◌,
}
use ledger_kee_pass.Host.Result.{Result}
use ledger_kee_pass.Host.Messages.{result_code, error_cases, error_str}

-- The first result with that text
read_text : List (Result × String) → String → Option Result
read_text [] text = none
read_text ((r, t) ∷ cases) text = if str_eq t text then some r else read_text cases text

read_text-error_str : (r : Result) → read_text error_cases (error_str (result_code r)) ≡ some r
unfolding read_text error_str result_code
read_text-error_str Result.success = refl
read_text-error_str Result.device_not_found = refl
read_text-error_str Result.app_invalid_name = refl
read_text-error_str Result.app_unauthorized_access = refl
read_text-error_str Result.app_empty_slot = refl
read_text-error_str Result.app_unknown_error = refl
read_text-error_str Result.app_security_error = refl
read_text-error_str Result.lib_bad_length = refl
read_text-error_str Result.lib_out_of_memory = refl
read_text-error_str Result.lib_x25519_fail = refl
read_text-error_str Result.protocol_bad_param = refl
read_text-error_str Result.protocol_bad_length = refl
read_text-error_str Result.protocol_bad_version = refl
read_text-error_str Result.transport_tcp_unk_host = refl
read_text-error_str Result.transport_tcp_socket_create_fail = refl
read_text-error_str Result.transport_usb_bad_packet = refl
read_text-error_str Result.transport_usb_bad_seq = refl
read_text-error_str Result.transport_timeout = refl
read_text-error_str Result.transport_connection_failed = refl
read_text-error_str Result.transport_generic_error = refl

-- Results with the same text are the same, and so are results with the same number.
pub error_str_inj :
    (r r' : Result) → error_str (result_code r) ≡ error_str (result_code r') → r ≡ r'
error_str_inj r r' h =
    some_inj (sym (read_text-error_str r) ∙ ap (read_text error_cases) h ∙ read_text-error_str r')
