-- ===== src/App/Instrs/Derivation.antt =====
-- The path that app/src/instrs.c derives a name's key on, written with sums instead of bit masks.
use ledger_kee_pass.Base.{
  ℕ, zero, suc, ◌+◌, ◌*◌, ◌^◌, ◌≡◌, ◌<◌, refl, ◌∙◌, ap, ap₂, List, [], ◌∷◌, arith, length, get_or,
  bit_or, bit_or_sum, bit_or_high,
}
use ledger_kee_pass.App.Sdk.{Sdk, IsDocumented}
use ledger_kee_pass.App.Instrs.Callbacks.{path_from_hash, derive_name_key}

-- A hardened element for each two bytes, the low one first.
abbrev pub path_elements : List ℕ → List ℕ
path_elements [] = []
path_elements (low ∷ []) = []
path_elements (low ∷ high ∷ hash) = (2147483648 + (low + 256 * high)) ∷ path_elements hash

-- The whole path: the application's own element, then those of the hash.
abbrev pub derivation_path : List ℕ → List ℕ
derivation_path hash = 0x804B5041 ∷ path_elements hash

element :
    (low high : ℕ)
    → low < 256
    → high < 256
    → bit_or (bit_or 0x80000000 low) (high * 2 ^ 8) ≡ 2147483648 + (low + 256 * high)
element low high hl hh =
    ap (λ (t : ℕ). bit_or t (high * 2 ^ 8)) (bit_or_sum 31 1 low (omega arith))
    ∙ bit_or_high 8 8388608 low high (omega arith)
    ∙ ap (λ (t : ℕ). t * 256 + low) (bit_or_sum 23 1 high (omega arith))
    ∙ omega arith

path_from_hash-eq-path_elements :
    (n : ℕ) (hash : List ℕ)
    → length hash ≡ n + n
    → ((i : ℕ) → get_or hash i 0 < 256)
    → path_from_hash n hash ≡ path_elements hash
unfolding path_from_hash
path_from_hash-eq-path_elements zero [] size bytes = refl
path_from_hash-eq-path_elements zero (low ∷ hash) size bytes = absurd (omega arith)
path_from_hash-eq-path_elements (suc n) [] size bytes = absurd (omega arith)
path_from_hash-eq-path_elements (suc n) (low ∷ []) size bytes = absurd (omega arith)
path_from_hash-eq-path_elements (suc n) (low ∷ high ∷ hash) size bytes =
    ap₂ ◌∷◌ (element low high (bytes 0) (bytes 1))
      (path_from_hash-eq-path_elements n hash (omega arith) λ i. bytes (suc (suc i)))

pub derive_name_key-eq-derive_node :
    (sdk : Sdk)
    → IsDocumented sdk
    → (name : List ℕ)
    → derive_name_key sdk name ≡ sdk.derive_node (derivation_path (sdk.sha256 name))
unfolding derive_name_key
derive_name_key-eq-derive_node sdk doc name =
    ap (λ t. sdk.derive_node (0x804B5041 ∷ t))
      (path_from_hash-eq-path_elements 16 (sdk.sha256 name) (doc.length_sha256 name)
        (doc.sha256_bytes name))
