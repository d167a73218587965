-- ===== src/Host/Devices.antt =====
-- Which devices there are: libkpl/src/ledger_device.cpp, and `listDevices` and `name` of
-- libkpl/src/ledger_device_tcp.cpp and ledger_device_usb.cpp.
pub mod Ports
pub mod Found
use ledger_kee_pass.Base.{
  ℕ, zero, suc, ◌+◌, ◌-◌, ◌*◌, ◌/◌, ◌%◌, Bool, true, false, ◌&&◌, ◌||◌, Option, some, none, List,
  [], ◌∷◌, ◌++◌, ltb, leb, ◌==◌, ℤ, pos, negsuc, if◌then◌else◌,
}
use mathlib.Core.Bool.{not}
use ledger_kee_pass.App.Instrs.{codes}
use ledger_kee_pass.Host.Result.{
  Result, success, transport_tcp_unk_host, transport_tcp_socket_create_fail,
  transport_connection_failed,
}

-- `std::to_string` of a number with at most `fuel` digits
unfoldable pub to_string : ℕ → ℕ → List ℕ
to_string zero n = []
to_string (suc fuel) n =
    let rest = to_string fuel (n / 10) ++ ((48 + n % 10) ∷ []) in
    if ltb n 10 then (48 + n) ∷ [] else rest

abbrev pub is_digit : ℕ → Bool
is_digit c = leb 48 c && leb c 57

-- The digits of `atoi`, which stops at the first other byte
unfoldable pub atoi_digits : ℕ → List ℕ → ℕ
atoi_digits acc [] = acc
atoi_digits acc (c ∷ text) =
    let rest = atoi_digits (acc * 10 + (c - 48)) text in if is_digit c then rest else acc

abbrev pub negated : ℕ → ℤ
negated zero = pos 0
negated (suc n) = negsuc n

-- The white space that `atoi` skips
abbrev pub is_space : ℕ → Bool
is_space c = c == 32 || leb 9 c && leb c 13

unfoldable pub skip_spaces : List ℕ → List ℕ
skip_spaces [] = []
skip_spaces (c ∷ text) = let rest = skip_spaces text in if is_space c then rest else c ∷ text

unfoldable pub signed : List ℕ → ℤ
unfolding atoi_digits
signed [] = pos 0
signed (c ∷ text) =
    if c == b'-'
    then negated (atoi_digits 0 text)
    else (if c == b'+' then pos (atoi_digits 0 text) else pos (atoi_digits 0 (c ∷ text)))

-- `atoi`, for a number that an `int` holds
unfoldable pub atoi : List ℕ → ℤ
unfolding skip_spaces signed
atoi text = signed (skip_spaces text)

-- A device that is not open: what `LedgerDeviceTCP` and `LedgerDeviceUSB` are built from.
pub data DeviceInfo : Type 0 where
  tcp : List ℕ → ℕ → DeviceInfo
  usb : List ℕ → List ℕ → List ℕ → List ℕ → DeviceInfo

-- `name` of both classes
unfoldable pub name : DeviceInfo → List ℕ
unfolding to_string
name (tcp host port) =
    codes "TCP proxy<" ++ (host ++ (codes ":" ++ (to_string 5 port ++ codes ">")))
name (usb path manufacturer product serial) =
    codes "USB<"
    ++ (manufacturer ++ (codes " " ++ (product ++ (codes " (#" ++ (serial ++ codes ")>")))))

-- The test of the port: `Port < 0 || Port > 0xFFFF`
unfoldable pub tcp_device : List ℕ → ℤ → List DeviceInfo
tcp_device addr (pos port) = if ltb 0xFFFF port then [] else tcp addr port ∷ []
tcp_device addr (negsuc n) = []

-- `LedgerDeviceTCP::listDevices`, given LEDGER_PROXY_ADDRESS and LEDGER_PROXY_PORT
unfoldable pub tcp_list_devices : Option (List ℕ) → Option (List ℕ) → List DeviceInfo
unfolding tcp_device atoi
tcp_list_devices none port = []
tcp_list_devices (some addr) none = []
tcp_list_devices (some addr) (some port) = tcp_device addr (atoi port)

-- `hid_device_info`, with its strings in UTF-8
pub record HidInfo : Type 0 where
  pub path : List ℕ
  pub manufacturer : List ℕ
  pub product : List ℕ
  pub serial : List ℕ
  pub interface_number : ℤ
  pub usage_page : ℕ

abbrev pub is_zero : ℤ → Bool
is_zero (pos n) = n == 0
is_zero (negsuc n) = false

-- The loop of `LedgerDeviceUSB::listDevices`
unfoldable pub usb_loop : List HidInfo → List DeviceInfo
usb_loop [] = []
usb_loop (dev ∷ devs) =
    if is_zero dev.interface_number || dev.usage_page == 0xFFA0
    then usb dev.path dev.manufacturer dev.product dev.serial ∷ usb_loop devs
    else usb_loop devs

-- `LedgerDeviceUSB::listDevices`, given whether `hid_init` failed and what `hid_enumerate` found
unfoldable pub usb_list_devices : Bool → List HidInfo → List DeviceInfo
unfolding usb_loop
usb_list_devices init_failed devs = if init_failed then [] else usb_loop devs

-- What the environment and hidapi say.
pub record Machine : Type 0 where
  pub proxy_addr : Option (List ℕ)
  pub proxy_port : Option (List ℕ)
  pub init_failed : Bool
  pub hids : List HidInfo

-- `LedgerDevice::listDevices`
unfoldable pub list_devices : Machine → List DeviceInfo
unfolding tcp_list_devices usb_list_devices
list_devices m = tcp_list_devices m.proxy_addr m.proxy_port ++ usb_list_devices m.init_failed m.hids

abbrev pub first_of : List DeviceInfo → Option DeviceInfo
first_of [] = none
first_of (dev ∷ devs) = some dev

-- The second list is only asked for if the first is empty.
abbrev pub or_else : Option DeviceInfo → Option DeviceInfo → Option DeviceInfo
or_else none other = other
or_else (some dev) other = some dev

-- `LedgerDevice::getFirstDevice`
unfoldable pub get_first_device : Machine → Option DeviceInfo
unfolding tcp_list_devices usb_list_devices
get_first_device m =
    or_else (first_of (tcp_list_devices m.proxy_addr m.proxy_port))
      (first_of (usb_list_devices m.init_failed m.hids))
