-- ===== src/Hash/Separation.antt =====
-- The domain tags, and what the hasher's input says of the domain and the bytes.
use kaysentinel.Base.{◌≡◌, arith}
use kaysentinel.Base.Classes.{Bytes}
use kaysentinel.Hash.{Domain, trie_leaf, as_bytes, hash_input}

-- Equal inputs to the hasher come from the same domain and the same canonical bytes.
pub hash_input-injective :
    (d e : Domain) (xs ys : Bytes) → hash_input d xs ≡ hash_input e ys → (d ≡ e) × (xs ≡ ys)
unfolding hash_input as_bytes
hash_input-injective trie_leaf e xs ys h = ground arith
hash_input-injective d e xs ys h = ground arith
