-- ===== src/Host/Connect/Opened.antt =====
-- What `connect` (libkpl/src/ledger_device_tcp.cpp and ledger_device_usb.cpp) leaves open.
use ledger_kee_pass.Base.{
  ℕ, ◌+◌, ◌-◌, ◌≡◌, refl, ◌∙◌, sym, ap, Bool, true, false, Option, some, none, List, [], ◌∷◌, arith,
  ◌==◌, if◌then◌else◌,
}
use ledger_kee_pass.Host.Result.{
  Result, is_success, transport_tcp_unk_host, transport_connection_failed,
}
use ledger_kee_pass.Host.Connect.{
  Call, opened, closed, resolved, freed, Os, Object, tcp_close, close_socket, connected,
  connect_round, connect_loop, connect_to, tcp_connect, usb_close, close_hid, hid_opened,
  usb_connect,
}

-- The first of a handle's occurrences is gone.
abbrev pub without : ℕ → List ℕ → List ℕ
without fd [] = []
without fd (x ∷ xs) = if x == fd then xs else x ∷ without fd xs

-- The handles that are open behind the calls.
abbrev pub still_open : List Call → List ℕ
still_open [] = []
still_open (opened fd ∷ calls) = fd ∷ still_open calls
still_open (closed fd ∷ calls) = without fd (still_open calls)
still_open (resolved ∷ calls) = still_open calls
still_open (freed ∷ calls) = still_open calls

-- The lists of addresses that were not freed.
abbrev pub unfreed : List Call → ℕ
unfreed [] = 0
unfreed (opened fd ∷ calls) = unfreed calls
unfreed (closed fd ∷ calls) = unfreed calls
unfreed (resolved ∷ calls) = unfreed calls + 1
unfreed (freed ∷ calls) = unfreed calls - 1

abbrev pub with_handle : Option ℕ → List ℕ → List ℕ
with_handle none others = others
with_handle (some fd) others = fd ∷ others

-- The object's handle is open, beside the handles of others, and so many lists are not freed.
pub record Accounts {H : Type 0} (others : List ℕ) (lists : ℕ) (o : Object H) : Type 0 where
  pub handles : still_open o.calls ≡ with_handle o.handle others
  pub addresses : unfreed o.calls ≡ lists

abbrev pub has : Option ℕ → Bool
has none = false
has (some fd) = true

-- `connect` succeeds exactly if the object then has a handle, and no other handle and no list of
-- addresses is left behind.
pub record Connects {H : Type 0} (others : List ℕ) (lists : ℕ) (r : Result × Object H)
    : Type 0 where
  pub accounts : Accounts others lists r.1
  pub exactly : is_success r.0 ≡ has r.1.handle

without_first : (fd : ℕ) (xs : List ℕ) → without fd (fd ∷ xs) ≡ xs
without_first fd xs = let same : (fd == fd) ≡ true = ground arith in rw same refl

module _ {H : Type 0} (os : Os H) (others : List ℕ) (lists : ℕ) where
  -- An object with no handle that accounts for itself.
  record Shut (n : ℕ) (o : Object H) : Type 0 where
    no_handle : o.handle ≡ none
    handles : still_open o.calls ≡ others
    addresses : unfreed o.calls ≡ n

  abbrev Next : Type 0
  Next = Result → Object H → Result × Object H

  failed-Connects :
      (n : ℕ) (res : Result) (o : Object H)
      → is_success res ≡ false
      → Shut n o
      → Connects others n (res, o)
  failed-Connects n res o failed s = record {
    accounts = record {
      handles = s.handles ∙ sym (ap (λ x. with_handle x others) s.no_handle);
      addresses = s.addresses;
    };
    exactly = failed ∙ sym (ap has s.no_handle);
  }

  connected-Connects :
      (n fd : ℕ) (c : Bool × H) (next : Next) (o : Object H)
      → Shut n o
      → ((res : Result) (o' : Object H)
          → is_success res ≡ false
          → Shut n o'
          → Connects others n (next res o'))
      → Connects others n (connected os fd c next o)
  unfolding connected is_success
  connected-Connects n fd (true, h) next o s go = record {
    accounts = record { handles = ap (λ xs. fd ∷ xs) s.handles; addresses = s.addresses };
    exactly = refl;
  }
  connected-Connects n fd (false, h) next o s go = go _ _ refl (record {
    no_handle = s.no_handle;
    handles = without_first fd (still_open o.calls) ∙ s.handles;
    addresses = s.addresses;
  })

  connect_round-Connects :
      (n addr : ℕ) (sock : Option ℕ × H) (next : Next) (o : Object H)
      → Shut n o
      → ((res : Result) (o' : Object H)
          → is_success res ≡ false
          → Shut n o'
          → Connects others n (next res o'))
      → Connects others n (connect_round os addr sock next o)
  unfolding connect_round is_success
  connect_round-Connects n addr (none, h) next o s go =
      go _ _ refl (record { no_handle = s.no_handle; handles = s.handles; addresses = s.addresses })
  connect_round-Connects n addr (some fd, h) next o s go =
      connected-Connects n fd (os.connect fd addr h) next o s go

  connect_loop-Connects :
      (n : ℕ) (addrs : List ℕ) (res : Result) (o : Object H)
      → is_success res ≡ false
      → Shut n o
      → Connects others n (connect_loop os addrs res o)
  unfolding connect_loop
  connect_loop-Connects n [] res o failed s = failed-Connects n res o failed s
  connect_loop-Connects n (addr ∷ addrs) res o failed s =
      connect_round-Connects n addr (os.socket addr o.os) (connect_loop os addrs) o s
        (connect_loop-Connects n addrs)

  connect_to-Connects :
      (found : Option (List ℕ) × H) (o : Object H)
      → Shut lists o
      → Connects others lists (connect_to os found o)
  unfolding connect_to is_success
  connect_to-Connects (none, h) o s =
      failed-Connects lists transport_tcp_unk_host _ refl
        (record { no_handle = s.no_handle; handles = s.handles; addresses = s.addresses })
  connect_to-Connects (some addrs, h) o s =
      let c =
        connect_loop-Connects (lists + 1) addrs transport_connection_failed
          (record o { calls = resolved ∷ o.calls; os = h }) refl
          (record {
            no_handle = s.no_handle;
            handles = s.handles;
            addresses = omega (arith, s.addresses);
          }) in
      record {
        accounts = record {
          handles = c.accounts.handles;
          addresses = omega (arith, c.accounts.addresses);
        };
        exactly = c.exactly;
      }

  close_socket-Shut :
      (handle : Option ℕ) (o : Object H)
      → o.handle ≡ handle
      → Accounts others lists o
      → Shut lists (close_socket os handle o)
  unfolding close_socket
  close_socket-Shut none o e a = record {
    no_handle = e;
    handles = a.handles ∙ ap (λ x. with_handle x others) e;
    addresses = a.addresses;
  }
  close_socket-Shut (some fd) o e a = record {
    no_handle = refl;
    handles =
        ap (without fd) (a.handles ∙ ap (λ x. with_handle x others) e) ∙ without_first fd others;
    addresses = a.addresses;
  }

  close_hid-Shut :
      (handle : Option ℕ) (o : Object H)
      → o.handle ≡ handle
      → Accounts others lists o
      → Shut lists (close_hid os handle o)
  unfolding close_hid
  close_hid-Shut none o e a = record {
    no_handle = e;
    handles = a.handles ∙ ap (λ x. with_handle x others) e;
    addresses = a.addresses;
  }
  close_hid-Shut (some dev) o e a = record {
    no_handle = refl;
    handles =
        ap (without dev) (a.handles ∙ ap (λ x. with_handle x others) e) ∙ without_first dev others;
    addresses = a.addresses;
  }

  hid_opened-Connects :
      (found : Option ℕ × H) (o : Object H)
      → Shut lists o
      → Connects others lists (hid_opened os found o)
  unfolding hid_opened is_success
  hid_opened-Connects (none, h) o s =
      failed-Connects lists transport_connection_failed _ refl
        (record { no_handle = s.no_handle; handles = s.handles; addresses = s.addresses })
  hid_opened-Connects (some dev, h) o s = record {
    accounts = record { handles = ap (λ xs. dev ∷ xs) s.handles; addresses = s.addresses };
    exactly = refl;
  }

  -- If a device object's handle is the only one that is open beside the handles of others, then
  -- behind `connect`, over TCP and over USB, on every path, the object's new handle, if any, is
  -- the only one that is open beside these, no list of addresses is left unfreed, and `connect`
  -- succeeds exactly if the object has a handle.
  pub connect-Connects :
      (host : List ℕ) (port : ℕ) (path : List ℕ) (o : Object H)
      → Accounts others lists o
      → Connects others lists (tcp_connect os host port o)
        × Connects others lists (usb_connect os path o)
  unfolding tcp_connect tcp_close usb_connect usb_close
  connect-Connects host port path o a = (
    connect_to-Connects _ _ (close_socket-Shut o.handle o refl a),
    hid_opened-Connects _ _ (close_hid-Shut o.handle o refl a),
  )
