-- ===== src/Bpf/Packing.antt =====
-- What the packed words of internal/bpf/abi.go and schema.go keep of their parts.
use lachesis.Base.{◌<◌, ◌≡◌, arith}
use lachesis.Bpf.{Mac, mac_key}

-- Every element is a byte.
pub record IsMac (m : Mac) : Type 0 where
  pub b0 : m.b0 < 256
  pub b1 : m.b1 < 256
  pub b2 : m.b2 < 256
  pub b3 : m.b3 < 256
  pub b4 : m.b4 < 256
  pub b5 : m.b5 < 256

-- Two MAC addresses of six bytes with the same key are the same address.
pub mac_key_injective : (m n : Mac) → IsMac m → IsMac n → mac_key m ≡ mac_key n → m ≡ n
unfolding mac_key
mac_key_injective m n hm hn e = ground arith
