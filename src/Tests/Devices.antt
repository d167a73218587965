-- ===== src/Tests/Devices.antt =====
-- Finding and opening devices (libkpl/), at concrete inputs.
use ledger_kee_pass.Base.{
  ℕ, ◌+◌, ◌≡◌, ◌==◌, refl, arith, false, some, none, [], ◌∷◌, ◌++◌, length, true, pos,
}
use ledger_kee_pass.App.Instrs.{codes}
use ledger_kee_pass.Host.Devices.{Machine, tcp, to_string, get_first_device, list_devices}
use ledger_kee_pass.Host.CApi.Lists.{
  kpl_ledger_device_list_get, kpl_ledger_device_list_free, owned, list_get-frees,
}
use ledger_kee_pass.Host.Devices.Found.{get_first_device-proxied}
use ledger_kee_pass.Host.Connect.{Os, Object, opened, tcp_connect, usb_connect}
use ledger_kee_pass.Host.Connect.Opened.{Connects, connect-Connects}

abbrev pub machine : Machine
machine = record {
  proxy_addr = some (codes "localhost");
  proxy_port = some (codes "9999");
  init_failed = false;
  hids =
      record {
        path = codes "a";
        manufacturer = codes "b";
        product = codes "c";
        serial = codes "d";
        interface_number = pos 0;
        usage_page = 0;
      }
      ∷ [];
}

get_first_device-proxied_example : get_first_device machine ≡ some (tcp (codes "localhost") 9999)
get_first_device-proxied_example =
    get_first_device-proxied machine (codes "localhost") 9999 refl (unfold to_string in refl)
      (omega arith)

-- Two addresses, of which the first refuses the connection.
abbrev stubborn : Os ℕ
stubborn = record {
  getaddrinfo = λ host port n. (some (1 ∷ 2 ∷ []), n);
  socket = λ addr n. (some (10 + n), n + 1);
  connect = λ fd addr n. (addr == 2, n);
  closesocket = λ fd n. n;
  freeaddrinfo = λ n. n;
  hid_open_path = λ path n. (none, n);
  hid_close = λ dev n. n;
}

abbrev used : Object ℕ
used = record { handle = some 9; calls = opened 9 ∷ opened 4 ∷ []; os = 0 }

connect-Connects_example :
    Connects (4 ∷ []) 0 (tcp_connect stubborn (codes "localhost") 9999 used)
    × Connects (4 ∷ []) 0 (usb_connect stubborn (codes "a") used)
connect-Connects_example =
    connect-Connects stubborn (4 ∷ []) 0 (codes "localhost") 9999 (codes "a") used
      (record { handles = refl; addresses = refl })

list_get-frees_example :
    let got = kpl_ledger_device_list_get true machine in
    let (freed, deleted) = kpl_ledger_device_list_free true got.list in
    (got.list.count ≡ length (owned got.list))
    × (got.deleted ++ owned got.list ≡ list_devices machine)
    × (deleted ≡ owned got.list)
    × (kpl_ledger_device_list_free true freed ≡ (freed, []))
list_get-frees_example = list_get-frees true true machine
