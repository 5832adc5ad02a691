-- ===== src/Value.antt =====
-- The values that an interface{} holds: those of decoded JSON, those that the checkers store, and the
-- []net.IP that the Red Hat writer asserts, which neither of them makes.
use netwrangler.Base.{ℕ, String, Bool, Option, List, [], ◌∷◌}
use netwrangler.Text.Int.{ℤ}
use netwrangler.GoMap.{GoMap}
use netwrangler.Net.{HardwareAddr, Ip, IpNet}

-- A finite float64: mantissa * 2 ^ exponent, with a sign.
pub record Float64 : Type 0 where
  pub negative : Bool
  pub mantissa : ℕ
  pub exponent : ℤ

mutual
  pub data Value : Type 0 where
    nil : Value
    bool : Bool → Value
    int int64 : ℤ → Value
    uint uint64 : ℕ → Value
    float : Float64 → Value
    str : String → Value
    list : Values → Value
    dict : Entries → Value
    strings : List String → Value
    hardware_addr : HardwareAddr → Value
    ip : Option IpNet → Value
    ip_list : List IpNet → Value
    net_ips : List Ip → Value

  pub data Values : Type 0 where
    last : Values
    item : Value → Values → Values

  pub data Entries : Type 0 where
    end : Entries
    entry : String → Value → Entries → Entries

abbrev pub values : Values → List Value
values last = []
values (item v vs) = v ∷ values vs

abbrev pub entries : Entries → GoMap Value
entries end = []
entries (entry k v es) = (k, v) ∷ entries es
