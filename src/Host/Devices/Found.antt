-- ===== src/Host/Devices/Found.antt =====
-- The first device is the first of the list (libkpl/src/ledger_device.cpp), and a proxy of the
-- environment comes before every USB device.
use ledger_kee_pass.Base.{
  ℕ, ◌≡◌, ◌<◌, refl, sym, ap, false, some, List, [], ◌∷◌, ◌++◌, arith, ltb, if◌then◌else◌,
}
use ledger_kee_pass.Host.Devices.{
  DeviceInfo, tcp, to_string, tcp_device, tcp_list_devices, usb_list_devices, Machine, list_devices,
  first_of, or_else, get_first_device,
}
use ledger_kee_pass.Host.Devices.Ports.{atoi-to_string}

first_of-append :
    (xs ys : List DeviceInfo) → first_of (xs ++ ys) ≡ or_else (first_of xs) (first_of ys)
first_of-append [] ys = refl
first_of-append (x ∷ xs) ys = refl

-- `getFirstDevice` finds the first of the devices that `listDevices` lists, if there is one.
pub get_first_device-eq-first_of : (m : Machine) → get_first_device m ≡ first_of (list_devices m)
unfolding get_first_device list_devices
get_first_device-eq-first_of m = sym (
    first_of-append (tcp_list_devices m.proxy_addr m.proxy_port)
      (usb_list_devices m.init_failed m.hids))

-- A port that is written in at most five digits gives the device of that port if it is below
-- 65536, and none if it is not.
tcp_list_devices-port :
    (addr : List ℕ) (n : ℕ)
    → n < 100000
    → tcp_list_devices (some addr) (some (to_string 5 n))
      ≡ (if ltb 0xFFFF n then [] else tcp addr n ∷ [])
unfolding tcp_list_devices tcp_device
tcp_list_devices-port addr n h = ap (tcp_device addr) (atoi-to_string 5 n h)

-- If the environment names an address and a port below 65536 in decimal, `getFirstDevice` gives
-- the proxy of that address and port, whatever USB devices there are.
pub get_first_device-proxied :
    (m : Machine) (addr : List ℕ) (n : ℕ)
    → m.proxy_addr ≡ some addr
    → m.proxy_port ≡ some (to_string 5 n)
    → n < 65536
    → get_first_device m ≡ some (tcp addr n)
unfolding get_first_device
get_first_device-proxied m addr n ha hp h =
    let in_range : ltb 0xFFFF n ≡ false = ground arith in
    simp (ha, hp, tcp_list_devices-port addr n (omega arith), in_range) refl
