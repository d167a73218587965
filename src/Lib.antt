-- ===== src/Lib.antt =====
-- LedgerKeePass keeps the keys of KeePass databases on a Ledger device. Its parts are an application
-- that runs on the device (app/), a library for the computer (libkpl/), tools, a plugin for KeePass 2
-- (kp2/) and tests. The library sends packets (APDUs) to the application; the application asks the
-- user on its screen before a key leaves the device or is overwritten; a key travels encrypted by an
-- X25519 exchange whose two ends are the application and the library.
--
-- Which file models what:
--   App/Storage          app/src/globals.h, `storeKeySlot` (app/src/instrs.c) and `nv_app_state_init`
--                        (app/src/main.c); View is the map from slots to keys, Slots its operations
--   App/Consts           libkpl/include/kpl/kpl_csts.h and app_errors.h, the constants of app/src
--   App/Sdk              the BOLOS SDK, a parameter: constants, curve, hashes, random bytes
--   App/Curve            app/src/x25519.c; Reverse is about `reverse_bytes`, Clamped about the
--                        scalar, Exchange about sizes
--   App/Device           the statics of app/src/instrs.c and approve.c, the APDU buffer, `flags`, the
--                        screen; how a call ends: a status word, an exception, or a fault
--   App/Device/WellFormed  the sizes of the arrays, the valid storage; Outcomes: how calls end
--   App/Instrs/Handlers  the six handlers and `getHandleInstr` of app/src/instrs.c
--   App/Instrs/Callbacks the four functions of app/src/instrs.c that run after an approval
--   App/Instrs/Asking    what a question on the screen says about its callback; Derivation is about
--                        the path of a name's key, NameAsked about the question for a name
--   App/Approve          `touch_okay`, `touch_deny` and the buttons of app/src/approve.c; KeyReply is
--                        about replies with a key, Touch, Sends and Closed about answers of the user
--   App/Status           the switch that turns an exception into a status word
--   App/Main             `handleApdu`, `app_main` and `main` of app/src/main.c; Dispatched is about a
--                        packet's way to its handler, Answers about every packet
--   App/Session          the application as a transition system: packets, presses, restarts
--   App/Loop             the endless loops of app/src/main.c over a row of events; Kept is about
--                        one event, Runs about rows of them
--   App/Menu             the steps of app/src/menu.c and the pushes of buttons; Pushes is about them
--   App/Io               `io_event` and `io_exchange_al` of app/src/main.c over the SDK's events
--   Host/Result          libkpl/include/kpl/errors_vals.def, `parseAppSW` of libkpl/src/kpl.cpp
--   Host/Sodium          libsodium, a parameter
--   Host/Crypto          the key exchange of libkpl/src/kpl.cpp
--   Host/Transport       the interface of libkpl/include/kpl/ledger_device.h, answers and their words
--   Host/Messages        the codes of libkpl/include/kpl/errors_vals.def and libkpl/src/errors.cpp
--   Host/Intmem          libkpl/src/intmem.h on machines of both byte orders
--   Host/ErrorOr         `ErrorOr` of libkpl/include/kpl/errors.h with its constructions and
--                        destructions
--   Host/Answer          libkpl/include/kpl/ledger_answer.h and libkpl/src/ledger_answer.cpp
--   Host/Client          libkpl/src/ledger_client.cpp
--   Host/Kpl             the methods of `KPL` in libkpl/src/kpl.cpp, over a transport
--   Host/Usb             libkpl/src/ledger_device_usb.cpp over hidapi, a parameter; Framing, RoundTrip
--                        and Rounds are about its loops
--   Host/Tcp             libkpl/src/ledger_device_tcp.cpp over sockets, a parameter
--   Host/Devices         libkpl/src/ledger_device.cpp, and `listDevices` and `name` of the transports
--   Host/Connect         `connect` and `close` of the transports, over the calls they make
--   Host/CApi            libkpl/src/c_api: the wrappers of `KPL`, the list and the names of devices
--   Host/Tools           libkpl/tools: the mains of the six tools; Text holds what they read and
--                        print, Hex is about their digits
--   System/Curves        both ends of the exchange together
--   System/Link          a transport that carries packets to the application, with a user who presses
--                        one button
--   System/GetKey, Answer, Asked, RoundTrip, Refused, EmptySlot  `getKey` against the application
--   System/Immediate, SetGet, Overwrite, Erase, FromName, FromDevice  the other methods of `KPL`
--                        against the application
--   System/Tools         `kpl_set` and `kpl_get` against the application
--   System/KeyStore      what library and application promise together: a map from slots to keys
--   Base                 lists, bits and bytes over the native numbers; Tests holds concrete runs
--
-- State and operations. `Device` is the whole state of the application. A handler takes `p1`, `p2`,
-- the payload and `*tx` and gives an `Outcome`: `returns` with a status word and `*tx`, `throws`, or
-- `fault` for a write outside an array, a call of NULL or a failed `assert` (the build defines NDEBUG;
-- the model counts what the asserts exclude as a fault). `THROW` and its `CATCH` clauses are functions
-- on outcomes. A good state (`Inv`) has arrays of the declared sizes, a valid storage, and on the
-- screen a question about what the callback that is set will use.
--
-- Numbers. Bytes are natural numbers with `% 256` and `% 65536` where the code narrows. The loop of
-- `reverse_bytes` runs on `last - first` rounds, enough because each round brings the two pointers at
-- least one nearer. The loops of the USB transport run on one round more than there are bytes, enough
-- because each round but the last moves a byte; the loop over the bit field of the slots has eight
-- rounds for its eight bits. The other loops are over lists.
--
-- Parameters. The SDK (`Sdk`, with `IsDocumented` for sizes and constants) and libsodium (`Sodium`)
-- are records of functions, and so are a transport (`LedgerDevice`), hidapi (`Hid`), sockets
-- (`Sockets`, with `IsBounded`), the calls that open and close (`Os`), the device's events
-- (`Seproxyhal`, with `IsSeproxyhal`), the flow of its menu (`Flow`: how a push moves from a step) and
-- its bus (`Spi`). `SameCurve` says that the SDK and libsodium implement X25519 and Blake2b: byte
-- orders, the clamping and the base point of RFC 7748, written without the application's own code,
-- and the Diffie-Hellman property.
--
-- Not modelled: the layout of screens and menus and the SDK below them; time limits, which the
-- operating system keeps; the plugin and the tests.
pub mod Base
pub mod App
pub mod Host
pub mod System
mod Tests
