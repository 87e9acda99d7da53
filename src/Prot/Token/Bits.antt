-- ===== src/Prot/Token/Bits.antt =====
-- daemon/net_types.h: the two counters in a token's type.
use in5020_distribuerte_syst.Prelude.{ℕ, ◌%◌, ◌≡◌, ◌<◌, arith}
use in5020_distribuerte_syst.Prot.Token.{get_arq, set_arq, get_retrans, set_retrans}

-- Get_arq and Get_retrans read back what Set_arq and Set_retrans wrote, up to 16, each leaves the
-- counter of the other and the 16 bits below, and a type of 32 bits stays one.
pub get-set :
    (kind val : ℕ)
    → (get_arq (set_arq kind val) ≡ val % 16)
      × (get_retrans (set_arq kind val) ≡ get_retrans kind)
      × (get_retrans (set_retrans kind val) ≡ val % 16)
      × (get_arq (set_retrans kind val) ≡ get_arq kind)
      × (set_arq kind val % 65536 ≡ kind % 65536)
      × (set_retrans kind val % 65536 ≡ kind % 65536)
      × (kind < 4294967296 → set_arq kind val < 4294967296)
      × (kind < 4294967296 → set_retrans kind val < 4294967296)
unfolding get_arq set_arq get_retrans set_retrans
get-set kind val = (
  omega arith,
  omega arith,
  omega arith,
  omega arith,
  omega arith,
  omega arith,
  (λ h. omega arith),
  (λ h. omega arith),
)
