-- ===== src/Net.antt =====
-- Addresses. gnet.IPNet has the fields IP and Mask, and gnet.HardwareAddr is a slice of bytes; the
-- methods that the package gohai gives them are the parameter `Gnet`. To4 and String of net.IP
-- are those of Go's standard library.
use netwrangler.Base.{
  ℕ, zero, suc, ◌+◌, ◌*◌, String, Bool, true, false, ◌&&◌, Option, none, some, List, [], ◌∷◌, map,
  length, is_empty, nat_eq, leb, if◌then◌else◌,
}
use netwrangler.Text.{concat, join, digits}

abbrev pub Ip : Type 0
Ip = List ℕ

abbrev pub HardwareAddr : Type 0
HardwareAddr = List ℕ

pub record IpNet : Type 0 where
  pub ip : Ip
  pub mask : List ℕ

-- The methods of github.com/rackn/gohai/plugins/net that the program calls.
pub record Gnet : Type 0 where
  pub net_string : IpNet → String
  pub is_cidr : IpNet → Bool
  pub hw_string : HardwareAddr → String

-- bytes.Equal
unfoldable pub bytes_equal : List ℕ → List ℕ → Bool
bytes_equal [] [] = true
bytes_equal (a ∷ as') (b ∷ bs) = nat_eq a b && bytes_equal as' bs
bytes_equal _ _ = false

-- The IPv4 address behind the prefix ::ffff:0:0/96 of a 16-byte address.
mapped4 : ℕ → List ℕ → Option Ip
mapped4 zero (a ∷ b ∷ rest) = if nat_eq a 255 && nat_eq b 255 then some rest else none
mapped4 (suc n) (a ∷ rest) = if nat_eq a 0 then mapped4 n rest else none
mapped4 _ _ = none

-- net.IP.To4
unfoldable pub to4 : Ip → Option Ip
unfolding mapped4
to4 ip =
    if nat_eq (length ip) 4 then some ip else if nat_eq (length ip) 16 then mapped4 10 ip else none

-- `ip.To4() != nil`
unfoldable pub is_ip4 : Ip → Bool
unfolding to4
is_ip4 ip = elim (to4 ip) [ none ↦ false | some _ ↦ true ]

groups : List ℕ → List ℕ
groups (a ∷ b ∷ rest) = (a * 256 + b) ∷ groups rest
groups _ = []

zero_run : List ℕ → ℕ
zero_run [] = 0
zero_run (zero ∷ gs) = suc (zero_run gs)
zero_run (suc _ ∷ gs) = 0

-- Where the first longest run of zero groups starts, and how long it is.
longest_run : ℕ → List ℕ → ℕ × ℕ
unfolding zero_run
longest_run i [] = (0, 0)
longest_run i (g ∷ gs) =
    let rest = longest_run (suc i) gs in
    if leb rest.1 (zero_run (g ∷ gs)) then (i, zero_run (g ∷ gs)) else rest

take_groups : ℕ → List ℕ → List ℕ
take_groups zero gs = []
take_groups (suc n) [] = []
take_groups (suc n) (g ∷ gs) = g ∷ take_groups n gs

drop_groups : ℕ → List ℕ → List ℕ
drop_groups zero gs = gs
drop_groups (suc n) [] = []
drop_groups (suc n) (g ∷ gs) = drop_groups n gs

ip6_text : List ℕ → ℕ × ℕ → String
unfolding take_groups drop_groups join concat digits
ip6_text gs (start, run) =
    if leb run 1
    then join ":" (map (digits 16) gs)
    else concat (
        join ":" (map (digits 16) (take_groups start gs))
        ∷ "::"
        ∷ join ":" (map (digits 16) (drop_groups (start + run) gs))
        ∷ [])

hex_byte : ℕ → String
unfolding digits concat
hex_byte b = if leb b 15 then concat ("0" ∷ digits 16 b ∷ []) else digits 16 b

ip16_text : Ip → String
unfolding ip6_text longest_run groups hex_byte concat
ip16_text ip =
    if nat_eq (length ip) 16
    then ip6_text (groups ip) (longest_run 0 (groups ip))
    else concat ("?" ∷ map hex_byte ip)

-- net.IP.String
unfoldable pub ip_string : Ip → String
unfolding to4 ip16_text join digits
ip_string ip =
    if is_empty ip
    then "<nil>"
    else elim (to4 ip) [ none ↦ ip16_text ip | some ip4 ↦ join "." (map (digits 10) ip4) ]
