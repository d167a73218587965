-- ===== src/App/Curve.antt =====
-- app/src/x25519.c: the key exchange that encrypts a key for the caller. The SDK's curve, hash and
-- random generator are parameters.
pub mod Reverse
pub mod Exchange
pub mod Clamped
use ledger_kee_pass.Base.{
  ℕ, zero, suc, ◌+◌, ◌-◌, bit_and, bit_or, ◌≡◌, Bool, true, false, Option, some, none, List, [],
  ◌∷◌, ◌++◌, if◌then◌else◌, ◌==◌, set, get_or, take, drop, replicate, xor_bytes,
}
use ledger_kee_pass.App.Consts.{key_size, x25519_pt_size, x25519_scalar_size}
use ledger_kee_pass.App.Sdk.{Sdk}

-- `CURVE25519_G`
abbrev pub curve25519_g : List ℕ
curve25519_g = 9 ∷ replicate 31 0

-- The loop of `reverse_bytes` on the bytes of `buf` from `first` up to `last`; each round brings
-- the two at least one nearer.
unfoldable pub reverse_loop : ℕ → ℕ → ℕ → List ℕ → List ℕ
reverse_loop zero first last buf = buf
reverse_loop (suc fuel) first last buf =
    let last' = last - 1 in
    let tmp = get_or buf last' 0 in
    let swapped = set (set buf last' (get_or buf first 0)) first tmp in
    let rest = reverse_loop fuel (first + 1) last' swapped in
    if first == last then buf else (if first == last' then buf else rest)

unfoldable pub reverse_bytes : ℕ → ℕ → List ℕ → List ℕ
unfolding reverse_loop
reverse_bytes first last buf = reverse_loop (last - first) first last buf

-- The three assignments to `scalar_` before it is reversed.
unfoldable pub clamp : List ℕ → List ℕ
clamp s =
    let s0 = set s 0 (bit_and (get_or s 0 0) 0xf8) in
    let s1 = set s0 31 (bit_and (get_or s0 31 0) 0x7f) in set s1 31 (bit_or (get_or s1 31 0) 0x40)

-- The end of `X25519`, from the result of the SDK's curve function.
unfoldable pub read_point : Option (List ℕ) → Option (List ℕ)
unfolding reverse_bytes
read_point none = none
read_point (some outtmp) =
    some (take x25519_pt_size (drop 1 (reverse_bytes 1 (x25519_pt_size + 1) outtmp)))

module _ (sdk : Sdk) where
  -- `X25519`: `none` is the result false, else the bytes of `out`.
  unfoldable pub x25519 : List ℕ → List ℕ → Option (List ℕ)
  unfolding reverse_bytes clamp read_point
  x25519 pub_point priv_scalar =
      let scalar = reverse_bytes 0 32 (clamp (take x25519_scalar_size priv_scalar)) in
      let outtmp = reverse_bytes 1 (x25519_pt_size + 1) (0x02 ∷ take x25519_pt_size pub_point) in
      read_point (sdk.scalar_mult outtmp scalar)

  -- What `X25519EncryptKPKey` leaves in its two output buffers: `own_pubkey` is `none` where it
  -- was not written.
  pub record Encrypted : Type 0 where
    pub succeeds : Bool
    pub own_pubkey : Option (List ℕ)
    pub kpkey : List ℕ

  -- The input of the hash that gives the key stream.
  abbrev pub keystream : List ℕ → List ℕ → List ℕ → List ℕ
  keystream secret caller own = sdk.blake2b key_size (secret ++ (take x25519_pt_size caller ++ own))

  unfoldable pub encrypt_shared : List ℕ → List ℕ → List ℕ → Option (List ℕ) → Encrypted
  encrypt_shared kpkey caller own none = record {
    succeeds = false;
    own_pubkey = some own;
    kpkey = kpkey;
  }
  encrypt_shared kpkey caller own (some secret) = record {
    succeeds = true;
    own_pubkey = some own;
    kpkey = xor_bytes kpkey (keystream secret caller own);
  }

  unfoldable pub encrypt_with : List ℕ → List ℕ → List ℕ → Option (List ℕ) → Encrypted
  unfolding encrypt_shared x25519
  encrypt_with kpkey caller own_privkey none = record {
    succeeds = false;
    own_pubkey = none;
    kpkey = kpkey;
  }
  encrypt_with kpkey caller own_privkey (some own) =
      encrypt_shared kpkey caller own (x25519 caller own_privkey)

  -- `X25519EncryptKPKey`, given the bytes that `cx_rng` wrote into `own_privkey`.
  unfoldable pub x25519_encrypt_kp_key : List ℕ → List ℕ → List ℕ → Encrypted
  unfolding encrypt_with
  x25519_encrypt_kp_key kpkey caller own_privkey =
      encrypt_with kpkey caller own_privkey (x25519 curve25519_g own_privkey)
