-- ===== src/Crypto.antt =====
-- packages/crypto/src/index.ts: the hash of a secret. The SHA-256 of the bytes that a hexadecimal
-- text stands for, printed in hexadecimal, is a parameter.
use mailslot.Base.{String, Bool, ◌==◌}
use mailslot.Base.Text.{strip_0x, lower}

-- `hashSecret`
unfoldable pub hash_secret : (String → String) → String → String
hash_secret sha256 secret = sha256 (strip_0x secret)

-- `verifySecretHash`
unfoldable pub verify_secret_hash : (String → String) → String → String → Bool
unfolding hash_secret
verify_secret_hash sha256 secret hashed = hash_secret sha256 secret == lower (strip_0x hashed)
