-- ===== src/Operations/Identity.antt =====
-- operations/identity.py: the bytes that are hashed. A component is a list of bytes, of fewer than
-- 256 ^ 8 as every Python object is; the digest and the encodings of the components are left out.
pub mod Framing
pub mod Amount
pub mod Spelling
use ledger_exception_control.Common.{
  ℕ, zero, suc, Bool, List, [], ◌∷◌, ◌++◌, ◌==◌, ◌&&◌, ◌||◌, length, all, leb, ◌/◌, ◌%◌,
}
use ledger_exception_control.Common.Text.{Text, codes}

abbrev pub Bytes : Type 0
Bytes = List ℕ

-- `n.to_bytes(width, "big")`, of a number that fits
unfoldable pub to_bytes : ℕ → ℕ → Bytes
to_bytes zero n = []
to_bytes (suc width) n = to_bytes width (n / 256) ++ (n % 256) ∷ []

-- `_framed`
unfoldable pub framed : Bytes → Bytes
unfolding to_bytes
framed value = to_bytes 8 (length value) ++ value

-- `b"".join(_framed(part) for part in parts)`
unfoldable pub joined : List Bytes → Bytes
unfolding framed
joined [] = []
joined (part ∷ parts) = framed part ++ joined parts

-- `_labelled`, on the encoded halves
unfoldable pub labelled : Bytes → Bytes → Bytes
unfolding framed
labelled label value = framed label ++ framed value

unfoldable pub labelled_all : List (Bytes × Bytes) → Bytes
unfolding labelled
labelled_all [] = []
labelled_all ((label, value) ∷ more) = labelled label value ++ labelled_all more

abbrev pub operation_domain_tag : Bytes
operation_domain_tag = codes "lecp.operation.v1"

abbrev pub instruction_domain_tag : Bytes
instruction_domain_tag = codes "lecp.instruction.v1"

-- What `operation_id` hashes of its three components.
unfoldable pub operation_body : Bytes → Bytes → Bytes → Bytes
unfolding joined
operation_body exception_id resolution_version payload_hash =
    operation_domain_tag ++ joined (exception_id ∷ resolution_version ∷ payload_hash ∷ [])

-- What `instruction_payload_hash` hashes of the labelled components.
unfoldable pub instruction_body : List (Bytes × Bytes) → Bytes
unfolding labelled_all
instruction_body components = instruction_domain_tag ++ labelled_all components

-- `character in "0123456789abcdef"`
abbrev pub is_hex : ℕ → Bool
is_hex c = (leb 48 c && leb c 57) || (leb 97 c && leb c 102)

-- `_is_sha256_hex`
unfoldable pub is_sha256_hex : Text → Bool
is_sha256_hex value = (length value == 64) && all is_hex value
