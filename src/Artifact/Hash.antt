-- ===== src/Artifact/Hash.antt =====
-- computeHash of artifact/cache.go: FNV-1a with 128 bits (hash/fnv), written in hexadecimal.
use Prim.Native.Nat.{bit_xor}
use Prim.Native.Char.{Char}
use goutils.Common.{ℕ, zero, suc, ◌+◌, ◌*◌, ◌/◌, ◌%◌, ◌^◌, String, ◌≡◌, refl, List, [], ◌∷◌}

abbrev pub Bytes : Type 0
Bytes = List ℕ

abbrev offset_basis : ℕ
offset_basis = 0x6c62272e07bb014262b821756295c58d

abbrev fnv_prime : ℕ
fnv_prime = 2 ^ 88 + 2 ^ 8 + 0x3b

-- hasher.Write: each byte is xored in, and the product wraps at 2^128.
fnv_write : ℕ → Bytes → ℕ
fnv_write h [] = h
fnv_write h (b ∷ bs) = fnv_write (bit_xor h b * fnv_prime % 2 ^ 128) bs

digit_at : ℕ → List Char → Char
digit_at n [] = "0"
digit_at zero (d ∷ ds) = d
digit_at (suc n) (d ∷ ds) = digit_at n ds

hex_digit : ℕ → Char
unfolding digit_at
hex_digit n = digit_at n (
    "0" ∷ "1" ∷ "2" ∷ "3" ∷ "4" ∷ "5" ∷ "6" ∷ "7" ∷ "8" ∷ "9" ∷ "a" ∷ "b" ∷ "c" ∷ "d" ∷ "e" ∷ "f"
    ∷ [])

-- hex.EncodeToString of the big-endian sum with the given number of digits
hex_string : ℕ → ℕ → String → String
hex_string zero n out = out
hex_string (suc k) n out = hex_string k (n / 16) (String.◌∷◌ (hex_digit (n % 16)) out)

unfoldable pub compute_hash : Bytes → String
unfolding fnv_write hex_digit hex_string
compute_hash bytes = hex_string 32 (fnv_write offset_basis bytes) ""

-- the published values for the empty text and for "a"
compute_hash_empty : compute_hash [] ≡ "6c62272e07bb014262b821756295c58d"
unfolding compute_hash
compute_hash_empty = refl

compute_hash_a : compute_hash (b'a' ∷ []) ≡ "d228cb696f1a8caf78912b704e4a8964"
unfolding compute_hash
compute_hash_a = refl
