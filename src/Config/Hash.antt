-- ===== src/Config/Hash.antt =====
-- config.go: `hostID` and `detectReplicaIndex`. A host name is the list of its bytes. What the
-- operating system answers (os.Hostname, the HOSTNAME variable, random bytes, the clock) is an
-- argument.
pub mod Laws
pub mod Ordinal
use spangen.Base.{
  ℕ, zero, suc, ◌+◌, ◌*◌, ◌%◌, ◌^◌, bit_xor, List, [], ◌∷◌, Option, none, some, Bool, true, false,
  Text, if◌then◌else◌,
}
use spangen.Base.Int.{ℤ, pos}
use spangen.Base.Decimal.{all_digits, atoi}

-- The offset basis and the prime as the source writes them.
abbrev pub offset64 : ℕ
offset64 = 1469598103934665603

abbrev pub prime64 : ℕ
prime64 = 1099511628211

-- `hsh ^= uint64(h[i]); hsh *= prime`
unfoldable pub fnv64_step : ℕ → ℕ → ℕ
fnv64_step hsh c = bit_xor hsh c * prime64 % 2 ^ 64

unfoldable pub fnv64 : ℕ → Text → ℕ
fnv64 hsh [] = hsh
fnv64 hsh (c ∷ h) = fnv64 (fnv64_step hsh c) h

-- `binary.LittleEndian.Uint64` of eight bytes.
unfoldable pub le_u64 : List ℕ → ℕ
le_u64 [] = 0
le_u64 (b ∷ bs) = b + 256 * le_u64 bs

unfoldable pub random_id : Option (List ℕ) → ℕ → ℕ
unfolding le_u64
random_id (some b) now = le_u64 b
random_id none now = now % 2 ^ 64

-- `os.Hostname()`, or the HOSTNAME variable where it is empty.
unfoldable pub host_name : Text → Text → Text
host_name [] env_host = env_host
host_name (c ∷ h) env_host = c ∷ h

unfoldable pub hash_or_random : Text → Option (List ℕ) → ℕ → ℕ
unfolding random_id fnv64 fnv64_step
hash_or_random [] random now = random_id random now
hash_or_random (c ∷ h) random now = fnv64 offset64 (c ∷ h)

unfoldable pub host_id : Text → Text → Option (List ℕ) → ℕ → ℕ
unfolding host_name hash_or_random
host_id h env_host random now = hash_or_random (host_name h env_host) random now

unfoldable pub fnv32_step : ℕ → ℕ → ℕ
fnv32_step hsh c = bit_xor hsh c * 16777619 % 2 ^ 32

unfoldable pub fnv32 : ℕ → Text → ℕ
fnv32 hsh [] = hsh
fnv32 hsh (c ∷ h) = fnv32 (fnv32_step hsh c) h

-- The match of `(\d+)$`: the longest run of digits at the end, if there is one.
unfoldable pub trailing_digits : Text → Option Text
unfolding all_digits
trailing_digits [] = none
trailing_digits (c ∷ s) = if all_digits (c ∷ s) then some (c ∷ s) else trailing_digits s

unfoldable pub hash_index : Text → ℤ
unfolding fnv32 fnv32_step
hash_index h = pos (fnv32 2166136261 h % 1024)

unfoldable pub index_or_hash : Text → Option ℤ → ℤ
unfolding hash_index
index_or_hash h none = hash_index h
index_or_hash h (some n) = n

unfoldable pub atoi_match : Option Text → Option ℤ
unfolding atoi
atoi_match none = none
atoi_match (some m) = atoi m

unfoldable pub detect_replica_index : Text → Text → ℤ
unfolding host_name index_or_hash atoi_match trailing_digits
detect_replica_index h env_host =
    let name = host_name h env_host in index_or_hash name (atoi_match (trailing_digits name))
