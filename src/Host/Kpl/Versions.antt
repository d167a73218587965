-- ===== src/Host/Kpl/Versions.antt =====
-- `fromDevice` and `fillAppVersion` of libkpl/src/kpl.cpp: which applications the library accepts.
use ledger_kee_pass.Base.{
  ◌≡◌, refl, ap, true, ◌==◌, ==_iff, Bool-cases, inl, inr, length, get_or, arith, sym,
}
use ledger_kee_pass.App.Consts.{version_major}
use ledger_kee_pass.Host.Result.{success, is_success, is_success_sound}
use ledger_kee_pass.Host.Transport.{LedgerDevice, answer_sw, data_size}
use ledger_kee_pass.Host.Client.{apdu_stream, exchange}
use ledger_kee_pass.Host.Kpl.{
  Version, version_lib, is_protocol_compatible, Ended, answer_result, fill_app_version, from_device,
}
use ledger_kee_pass.Host.Kpl.Decrypted.{answer_result-success}

module _ {S : Type 0} (dev : LedgerDevice S) where
  -- `fillAppVersion` succeeds only with an answer of three bytes and the status word 0x9000, and
  -- these bytes are the version.
  pub fill_app_version-success :
      (held : Version) (s : S)
      → (fill_app_version dev held s).result ≡ success
      → let r = exchange dev 5 (apdu_stream 0 0 0) s in
        (answer_sw r.answer ≡ 0x9000)
        × (length r.answer ≡ 5)
        × ((fill_app_version dev held s).out ≡ record {
          major = get_or r.answer 0 0;
          minor = get_or r.answer 1 0;
          patch = get_or r.answer 2 0;
        })
  unfolding fill_app_version is_success
  fill_app_version-success held s h =
      elim (Bool-cases (is_success (answer_result (exchange dev 5 (apdu_stream 0 0 0) s)))) [
        | inr fails ↦
            let bad : answer_result (exchange dev 5 (apdu_stream 0 0 0) s) ≡ success =
              simp fails at h in
            let works : is_success (answer_result (exchange dev 5 (apdu_stream 0 0 0) s)) ≡ true =
              ap is_success bad in
            cc
        | inl ok ↦
            elim (Bool-cases (data_size (exchange dev 5 (apdu_stream 0 0 0) s).answer == 3)) [
              | inr short ↦ let bad = simp (ok, short) at h in cc
              | inl sized ↦
                  let (_, word) =
                    answer_result-success (exchange dev 5 (apdu_stream 0 0 0) s)
                      (is_success_sound _ ok) in
                  (word, ground arith, simp (ok, sized) refl)
            ]
      ]

  -- `KPL::fromDevice` succeeds only if the connection did, its result is then that of
  -- `fillAppVersion`, and the major version that it read is the library's.
  pub from_device-success :
      (app_ver : Version) (s : S)
      → (from_device dev app_ver s).result ≡ success
      → ((dev.connect s).0 ≡ success)
        × (fill_app_version dev (record { major = 0; minor = 0; patch = 0 }) (dev.connect s).1
            ≡ from_device dev app_ver s)
        × ((from_device dev app_ver s).out.major ≡ version_major)
  unfolding from_device is_success
  from_device-success app_ver s h = elim (Bool-cases (is_success (dev.connect s).0)) [
    | inr fails ↦
        let bad : (dev.connect s).0 ≡ success = simp fails at h in
        let works : is_success (dev.connect s).0 ≡ true = ap is_success bad in cc
    | inl ok ↦ elim (Bool-cases (is_success filled.result)) [
      | inr fails ↦
          let bad : filled.result ≡ success = simp (ok, fails) at h in
          let works : is_success filled.result ≡ true = ap is_success bad in cc
      | inl ok' ↦ elim (Bool-cases (is_protocol_compatible version_lib filled.out)) [
        | inr other ↦ let bad = simp (ok, ok', other) at h in cc
        | inl same ↦ (
          is_success_sound _ ok,
          simp (ok, ok', same) (λ _. filled),
          simp (ok, ok', same) (sym ((==_iff 0 filled.out.major).0 same)),
        )
      ]
    ]
  ]
    where
      filled : Ended S Version
      filled = fill_app_version dev (record { major = 0; minor = 0; patch = 0 }) (dev.connect s).1
