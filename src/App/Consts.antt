-- ===== src/App/Consts.antt =====
-- The constants that the application and the library share (kpl/kpl_csts.h, kpl/app_errors.h),
-- with those of app/src/main.c, app/src/x25519.h and app/src/instrs.h.
use ledger_kee_pass.Base.{ℕ}

-- KPL_KEY_SIZE, KPL_SLOT_COUNT and KPL_MAX_NAME_SIZE
abbrev pub key_size : ℕ
key_size = 32

abbrev pub slot_count : ℕ
slot_count = 8

abbrev pub max_name_size : ℕ
max_name_size = 20

-- KPL_VERSION_MAJOR, KPL_VERSION_MINOR and KPL_VERSION_PATCH
abbrev pub version_major : ℕ
version_major = 0

abbrev pub version_minor : ℕ
version_minor = 3

abbrev pub version_patch : ℕ
version_patch = 0

-- the status words KPL_SW_…
abbrev pub sw_success : ℕ
sw_success = 0x9000

abbrev pub sw_unknown_instr : ℕ
sw_unknown_instr = 0x6D00

abbrev pub sw_invalid_cls : ℕ
sw_invalid_cls = 0x6E00

abbrev pub sw_invalid_parameter : ℕ
sw_invalid_parameter = 0x6802

abbrev pub sw_exception_security : ℕ
sw_exception_security = 0x6804

abbrev pub sw_unauthorized_access : ℕ
sw_unauthorized_access = 0x6820

abbrev pub sw_empty_slot : ℕ
sw_empty_slot = 0x6821

abbrev pub sw_invalid_name : ℕ
sw_invalid_name = 0x6822

-- CLA, and the offsets of an APDU's header
abbrev pub cla : ℕ
cla = 0xE0

abbrev pub offset_cla : ℕ
offset_cla = 0

abbrev pub offset_ins : ℕ
offset_ins = 1

abbrev pub offset_p1 : ℕ
offset_p1 = 2

abbrev pub offset_p2 : ℕ
offset_p2 = 3

abbrev pub offset_lc : ℕ
offset_lc = 4

abbrev pub offset_cdata : ℕ
offset_cdata = 5

-- X25519_SCALARSIZE and X25519_PTSIZE
abbrev pub x25519_scalar_size : ℕ
x25519_scalar_size = 32

abbrev pub x25519_pt_size : ℕ
x25519_pt_size = 32
