-- ===== src/Host/Connect.antt =====
-- How a device is opened and closed: `connect` and `close` of libkpl/src/ledger_device_tcp.cpp and
-- ledger_device_usb.cpp.
pub mod Opened
use ledger_kee_pass.Base.{ℕ, Bool, true, false, Option, some, none, List, [], ◌∷◌}
use ledger_kee_pass.Host.Result.{
  Result, success, transport_tcp_unk_host, transport_tcp_socket_create_fail,
  transport_connection_failed,
}
use ledger_kee_pass.Host.Devices.{to_string}

-- The calls that open and close something.
pub data Call : Type 0 where
  opened : ℕ → Call
  closed : ℕ → Call
  resolved : Call
  freed : Call

-- The operating system's sockets and hidapi, with states `H`. A failed call gives `none` or `false`.
pub record Os (H : Type 0) : Type 0 where
  pub getaddrinfo : List ℕ → List ℕ → H → Option (List ℕ) × H
  pub socket : ℕ → H → Option ℕ × H
  pub connect : ℕ → ℕ → H → Bool × H
  pub closesocket : ℕ → H → H
  pub freeaddrinfo : H → H
  pub hid_open_path : List ℕ → H → Option ℕ × H
  pub hid_close : ℕ → H → H

-- A device object: `FD_` or `HIDDev_`, what it was built from, and the calls so far, the latest
-- first.
pub record Object (H : Type 0) : Type 0 where
  pub handle : Option ℕ
  pub calls : List Call
  pub os : H

module _ {H : Type 0} (os : Os H) where
  unfoldable pub close_socket : Option ℕ → Object H → Object H
  close_socket none o = o
  close_socket (some fd) o = record {
    handle = none;
    calls = closed fd ∷ o.calls;
    os = os.closesocket fd o.os;
  }

  -- `LedgerDeviceTCP::close`
  unfoldable pub tcp_close : Object H → Object H
  unfolding close_socket
  tcp_close o = close_socket o.handle o

  -- The end of a round of the loop of `connect`, on what `::connect` gave; `next` goes on.
  unfoldable pub connected :
      ℕ → Bool × H → (Result → Object H → Result × Object H) → Object H → Result × Object H
  connected fd (true, h) next o =
      (success, record { handle = some fd; calls = opened fd ∷ o.calls; os = h })
  connected fd (false, h) next o =
      next transport_connection_failed
        (record o { calls = closed fd ∷ opened fd ∷ o.calls; os = os.closesocket fd h })

  -- A round of the loop of `connect`, on what `socket` gave
  unfoldable pub connect_round :
      ℕ → Option ℕ × H → (Result → Object H → Result × Object H) → Object H → Result × Object H
  unfolding connected
  connect_round addr (none, h) next o = next transport_tcp_socket_create_fail (record o { os = h })
  connect_round addr (some fd, h) next o = connected fd (os.connect fd addr h) next o

  -- The loop of `LedgerDeviceTCP::connect` over the addresses, with `Res`
  unfoldable pub connect_loop : List ℕ → Result → Object H → Result × Object H
  unfolding connect_round
  connect_loop [] res o = (res, o)
  connect_loop (addr ∷ addrs) res o =
      connect_round addr (os.socket addr o.os) (connect_loop addrs) o

  -- `LedgerDeviceTCP::connect` behind `getaddrinfo`
  unfoldable pub connect_to : Option (List ℕ) × H → Object H → Result × Object H
  unfolding connect_loop
  connect_to (none, h) o = (transport_tcp_unk_host, record o { os = h })
  connect_to (some addrs, h) o =
      let (res, o') =
        connect_loop addrs transport_connection_failed
          (record o { calls = resolved ∷ o.calls; os = h }) in
      (res, record o' { calls = freed ∷ o'.calls; os = os.freeaddrinfo o'.os })

  -- `LedgerDeviceTCP::connect`
  unfoldable pub tcp_connect : List ℕ → ℕ → Object H → Result × Object H
  unfolding tcp_close connect_to to_string
  tcp_connect host port o =
      let o' = tcp_close o in connect_to (os.getaddrinfo host (to_string 5 port) o'.os) o'

  unfoldable pub close_hid : Option ℕ → Object H → Object H
  close_hid none o = o
  close_hid (some dev) o = record {
    handle = none;
    calls = closed dev ∷ o.calls;
    os = os.hid_close dev o.os;
  }

  -- `LedgerDeviceUSB::close`
  unfoldable pub usb_close : Object H → Object H
  unfolding close_hid
  usb_close o = close_hid o.handle o

  -- `LedgerDeviceUSB::connect` on what `hid_open_path` gave
  unfoldable pub hid_opened : Option ℕ × H → Object H → Result × Object H
  hid_opened (none, h) o = (transport_connection_failed, record o { os = h })
  hid_opened (some dev, h) o =
      (success, record { handle = some dev; calls = opened dev ∷ o.calls; os = h })

  -- `LedgerDeviceUSB::connect`
  unfoldable pub usb_connect : List ℕ → Object H → Result × Object H
  unfolding usb_close hid_opened
  usb_connect path o = let o' = usb_close o in hid_opened (os.hid_open_path path o'.os) o'
