-- ===== src/Config/Hash/Ordinal.antt =====
-- The ordinal of a pod: what `detectReplicaIndex` reads from its name.
use spangen.Base.{ℕ, ◌%◌, ◌<◌, ◌≡◌, refl, none, Text, arith}
use spangen.Base.Int.{pos}
use spangen.Config.Hash.{fnv32, trailing_digits, host_name, detect_replica_index}

-- Without a number at the end the index is a hash below 1024.
pub detect_replica_index_hashed :
    (h env_host : Text)
    → trailing_digits (host_name h env_host) ≡ none
    → (n : ℕ) × (detect_replica_index h env_host ≡ pos n) × (n < 1024)
unfolding detect_replica_index
detect_replica_index_hashed h env_host e =
    (fnv32 2166136261 (host_name h env_host) % 1024, rw e refl, omega arith)
