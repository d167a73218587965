-- ===== src/Host/CApi/Lists.antt =====
-- The list of devices of the C interface: libkpl/src/c_api/ledger_device_c.cpp.
use ledger_kee_pass.Base.{
  ℕ, ◌≡◌, refl, Bool, true, false, some, none, List, [], ◌∷◌, ◌++◌, ℤ, if◌then◌else◌, length, take,
  take_all, append-nil, arith,
}
use ledger_kee_pass.Host.Result.{success, lib_out_of_memory}
use ledger_kee_pass.Host.Messages.{result_code}
use ledger_kee_pass.Host.Devices.{DeviceInfo, Machine, list_devices}
use ledger_kee_pass.Host.CApi.{Pointer, wrap_res}

-- `KPLLedgerDeviceList`: the array at `Devs`, and `Count`
pub record DeviceList : Type 0 where
  pub devs : Pointer (List DeviceInfo)
  pub count : ℕ

-- A code, the list, and the devices that were deleted.
pub record Listed : Type 0 where
  pub code : ℤ
  pub list : DeviceList
  pub deleted : List DeviceInfo

-- `KPLLedgerDeviceListGet` behind `listDevices`, given whether `malloc` works. A device that is not
-- released is deleted with `Devs`.
unfoldable pub list_of : Bool → List DeviceInfo → Listed
unfolding result_code
list_of malloc_works [] = record {
  code = wrap_res success;
  list = record { devs = none; count = 0 };
  deleted = [];
}
list_of false (dev ∷ devs) = record {
  code = wrap_res lib_out_of_memory;
  list = record { devs = none; count = 0 };
  deleted = dev ∷ devs;
}
list_of true (dev ∷ devs) = record {
  code = wrap_res success;
  list = record { devs = some (dev ∷ devs); count = length (dev ∷ devs) };
  deleted = [];
}

-- `KPLLedgerDeviceListGet`
unfoldable pub kpl_ledger_device_list_get : Bool → Machine → Listed
unfolding list_of list_devices
kpl_ledger_device_list_get malloc_works m = list_of malloc_works (list_devices m)

-- The `KPLLedgerDeviceListFree` of an array: the list and the devices that are deleted
unfoldable pub free_devs : Bool → Pointer (List DeviceInfo) → ℕ → DeviceList × List DeviceInfo
free_devs free_devices none count = (record { devs = none; count = count }, [])
free_devs free_devices (some devs) count =
    (record { devs = none; count = count }, if free_devices then take count devs else [])

-- `KPLLedgerDeviceListFree`
unfoldable pub kpl_ledger_device_list_free : Bool → DeviceList → DeviceList × List DeviceInfo
unfolding free_devs
kpl_ledger_device_list_free free_devices l = free_devs free_devices l.devs l.count

-- `KPLLedgerDeviceFree`: the devices that are deleted
unfoldable pub kpl_ledger_device_free : Pointer DeviceInfo → List DeviceInfo
kpl_ledger_device_free none = []
kpl_ledger_device_free (some dev) = dev ∷ []

-- The devices that the caller then owns
abbrev pub owned : DeviceList → List DeviceInfo
owned l = elim l.devs [ none ↦ [] | some devs ↦ devs ]

-- What holds of a list that was built from `devs`, and of its end.
abbrev Frees : Bool → List DeviceInfo → Listed → Type 0
Frees free_devices devs got =
    let (freed, deleted) = kpl_ledger_device_list_free free_devices got.list in
    (got.list.count ≡ length (owned got.list))
    × (got.deleted ++ owned got.list ≡ devs)
    × (deleted ≡ (if free_devices then owned got.list else []))
    × (kpl_ledger_device_list_free true freed ≡ (freed, []))

list_of-Frees :
    (malloc_works free_devices : Bool) (devs : List DeviceInfo)
    → Frees free_devices devs (list_of malloc_works devs)
unfolding list_of kpl_ledger_device_list_free free_devs
list_of-Frees malloc_works true [] = (refl, refl, refl, refl)
list_of-Frees malloc_works false [] = (refl, refl, refl, refl)
list_of-Frees false true (dev ∷ devs) = (refl, append-nil (dev ∷ devs), refl, refl)
list_of-Frees false false (dev ∷ devs) = (refl, append-nil (dev ∷ devs), refl, refl)
list_of-Frees true true (dev ∷ devs) =
    (refl, refl, take_all (dev ∷ devs) {n = length (dev ∷ devs)} (omega arith), refl)
list_of-Frees true false (dev ∷ devs) = (refl, refl, refl, refl)

module _ (malloc_works free_devices : Bool) where
  -- Whether or not `malloc` works, `KPLLedgerDeviceListGet` counts the devices that the caller
  -- then owns, and every device of `listDevices` is either deleted or the caller's;
  -- `KPLLedgerDeviceListFree` deletes exactly the caller's if it is asked to, else none, and
  -- called once more deletes nothing.
  pub list_get-frees :
      (m : Machine)
      → let got = kpl_ledger_device_list_get malloc_works m in
        let (freed, deleted) = kpl_ledger_device_list_free free_devices got.list in
        (got.list.count ≡ length (owned got.list))
        × (got.deleted ++ owned got.list ≡ list_devices m)
        × (deleted ≡ (if free_devices then owned got.list else []))
        × (kpl_ledger_device_list_free true freed ≡ (freed, []))
  unfolding kpl_ledger_device_list_get
  list_get-frees m = list_of-Frees malloc_works free_devices (list_devices m)
