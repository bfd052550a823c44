-- ===== src/Gateway.antt =====
-- The commands of src/gateway.rs. What a command returns is the system's, and is given for the
-- commands that came before it; a function returns the commands that it has tried, in order.
pub mod Undo
use wolf_net.Shared.{
  map, ℕ, zero, suc, Bool, true, false, List, [], ◌∷◌, ◌++◌, Option, none, some, if◌then◌else◌,
  ◌==◌, bytes_eq, codes,
}
use wolf_net.Net.{Text}

pub record Command : Type 0 where
  pub program : Text
  pub args : List Text

pub data Exit : Type 0 where
  not_started : Exit
  exited : Bool → Exit

-- What the next command returns, after the commands that were tried.
abbrev pub System : Type 0
System = List Command → Command → Exit

-- `windows(2)` over the words of `ip route show default`
unfoldable pub external_interface : List Text → Option Text
unfolding bytes_eq
external_interface [] = none
external_interface (word ∷ []) = none
external_interface (word ∷ next ∷ words) =
    let rest = external_interface (next ∷ words) in if word == codes "dev" then some next else rest

abbrev set_of : Text → Text → Text → Command
set_of iface key value = record {
  program = codes "sysctl";
  args = codes "-w" ∷ (codes "net.ipv4.conf." ++ (iface ++ (key ++ value))) ∷ [];
}

-- The `sysctl` commands, whose results are ignored.
abbrev pub sysctls : Text → Text → List Command
sysctls iface ext =
    set_of iface (codes ".forwarding=") (codes "1")
    ∷ set_of ext (codes ".forwarding=") (codes "1")
    ∷ set_of iface (codes ".send_redirects=") (codes "0")
    ∷ set_of ext (codes ".send_redirects=") (codes "0")
    ∷ []

-- A rule of a chain: the table where it is not the default one, the chain and the rest.
pub record Rule : Type 0 where
  pub table : List Text
  pub chain : Text
  pub spec : List Text

-- `-A` and `-D`
abbrev iptables : Text → Rule → Command
iptables flag r = record { program = codes "iptables"; args = r.table ++ flag ∷ r.chain ∷ r.spec }

abbrev pub append_rule : Rule → Command
append_rule = iptables (codes "-A")

abbrev pub delete_rule : Rule → Command
delete_rule = iptables (codes "-D")

abbrev pub masquerade : Text → Text → Rule
masquerade ext subnet = record {
  table = codes "-t" ∷ codes "nat" ∷ [];
  chain = codes "POSTROUTING";
  spec = codes "-s" ∷ subnet ∷ codes "-o" ∷ ext ∷ codes "-j" ∷ codes "MASQUERADE" ∷ [];
}

abbrev pub outbound : Text → Text → Rule
outbound ext iface = record {
  table = [];
  chain = codes "FORWARD";
  spec = codes "-i" ∷ iface ∷ codes "-o" ∷ ext ∷ codes "-j" ∷ codes "ACCEPT" ∷ [];
}

abbrev pub established : Text → Text → Rule
established ext iface = record {
  table = [];
  chain = codes "FORWARD";
  spec =
      codes "-i"
      ∷ ext
      ∷ codes "-o"
      ∷ iface
      ∷ codes "-m"
      ∷ codes "state"
      ∷ codes "--state"
      ∷ codes "ESTABLISHED,RELATED"
      ∷ codes "-j"
      ∷ codes "ACCEPT"
      ∷ [];
}

-- The rule of old releases, which is only deleted.
abbrev pub old_drop : Text → Text → Rule
old_drop ext subnet = record {
  table = [];
  chain = codes "INPUT";
  spec = codes "-i" ∷ ext ∷ codes "-d" ∷ subnet ∷ codes "-j" ∷ codes "DROP" ∷ [];
}

-- The rules of a gateway, in the order in which both functions go through them.
abbrev pub rules : Text → Text → Text → List Rule
rules ext iface subnet = masquerade ext subnet ∷ outbound ext iface ∷ established ext iface ∷ []

-- `status()?` for each command: the first that does not start ends the function with an error.
unfoldable pub checked : System → List Command → List Command → List Command × Bool
checked sys [] tried = (tried, true)
checked sys (c ∷ cs) tried =
    let rest = checked sys cs (tried ++ c ∷ []) in
    elim (sys tried c) [ not_started ↦ (tried ++ c ∷ [], false) | exited ok ↦ rest ]

-- The loop that deletes while there is something to delete.
unfoldable pub delete_while : ℕ → System → Command → List Command → List Command
delete_while zero sys c tried = tried
delete_while (suc turns) sys c tried =
    let rest = delete_while turns sys c (tried ++ c ∷ []) in
    elim (sys tried c) [
      | not_started ↦ tried ++ c ∷ []
      | exited ok ↦ if ok then rest else tried ++ c ∷ []
    ]

-- `words` are those of `ip route show default`. The result is whether it is `Ok`.
unfoldable pub enable_gateway : System → List Text → Text → Text → List Command × Bool
unfolding external_interface checked delete_while
enable_gateway sys words iface subnet = elim (external_interface words) [
  | none ↦ ([], false)
  | some ext ↦
      let (tried, ok) =
        checked sys (map append_rule (rules ext iface subnet)) (sysctls iface ext) in
      if ok
      then (delete_while 4 sys (delete_rule (old_drop ext subnet)) tried, true)
      else (tried, false)
]

abbrev pub disable_on : Text → Text → Text → List Command
disable_on [] iface subnet = []
disable_on (c ∷ ext) iface subnet =
    map delete_rule (rules (c ∷ ext) iface subnet) ++ delete_rule (old_drop (c ∷ ext) subnet) ∷ []

unfoldable pub disable_gateway : List Text → Text → Text → List Command
unfolding external_interface
disable_gateway words iface subnet = elim (external_interface words) [
  | none ↦ []
  | some ext ↦ disable_on ext iface subnet
]

-- The one command of `add_gateway_route`.
abbrev pub gateway_route : Text → Text → Command
gateway_route gateway_ip iface = record {
  program = codes "ip";
  args =
      codes "route"
      ∷ codes "add"
      ∷ codes "default"
      ∷ codes "via"
      ∷ gateway_ip
      ∷ codes "dev"
      ∷ iface
      ∷ codes "metric"
      ∷ codes "500"
      ∷ [];
}
