-- ===== src/Vm/Machine/Configured.antt =====
-- internal/vm/machine_linux.go: the configurations of fcConfig.
use Prim.Native.String.{◌++◌ as str_append}
use web_sandbox.Vm.{RunOptions, apply_defaults, with_error}
use web_sandbox.Vm.Machine.{
  FcConfig, IpNet, NetworkInterface, Sdk, base_config, build_network_interface, fc_config,
  gateway_found, networked,
}
use web_sandbox.Common.Results.{>>=-ok}
use web_sandbox.Common.{
  Bool, String, Option, ok, some, ◌≡◌, ◌==◌, true, false, [], ◌∷◌, Eq-String, Result, ap, err, none,
  refl, subst, sym, eq_iff, if◌then◌else◌, List,
}

-- The network of a machine with the options `o`: none without a tap, and else one interface of the
-- guest on this tap, with the parsed addresses and with MMDS.
pub data Wired (sdk : Sdk) (o : RunOptions) (nics : List NetworkInterface) (mmds : String)
    : Type 0 where
  unwired : o.tap_device ≡ "" → nics ≡ [] → Wired sdk o nics mmds
  wired :
      (net : IpNet) (gateway : String) (nic : NetworkInterface)
      → (o.tap_device == "") ≡ false
      → sdk.parse_cidr o.guest_cidr ≡ ok net
      → sdk.parse_ip o.gateway_ip ≡ some gateway
      → nics ≡ nic ∷ []
      → nic.host_dev_name ≡ o.tap_device
      → nic.mac_address ≡ o.mac_address
      → nic.ip_addr ≡ net
      → nic.gateway ≡ gateway
      → nic.allow_mmds ≡ true
      → mmds ≡ "V2"
      → Wired sdk o nics mmds

pub ok_inj : {A : Type 0} {a b : A} (r : Result String A) → r ≡ ok a → r ≡ ok b → a ≡ b
ok_inj (ok c) h k = cc
ok_inj (err e) h k = cc

with_error-ok :
    {A : Type 0} (label : String) (r : Result String A) (a : A)
    → with_error label r ≡ ok a
    → r ≡ ok a
with_error-ok label (ok b) a h = h
with_error-ok label (err e) a h = cc

-- A configuration of fcConfig.
pub record Configured (sdk : Sdk) (given : RunOptions) (c : FcConfig) : Type 0 where
  pub o : RunOptions
  pub uid : String
  pub vm_id : String
  pub defaulted : apply_defaults sdk.launch given ≡ ok o
  pub same_id : sdk.fc_id ≡ ok vm_id
  pub wires : Wired sdk o c.network_interfaces c.mmds_version
  pub rest : c ≡ record (base_config sdk o uid vm_id) {
    network_interfaces = c.network_interfaces;
    mmds_version = c.mmds_version;
  }

gateway_found-ok :
    (sdk : Sdk) (o : RunOptions) (net : IpNet) (found : Option String) (nic : NetworkInterface)
    → gateway_found sdk o net found ≡ ok nic
    → (gateway : String) × (found ≡ some gateway)
      × (nic.gateway ≡ gateway)
      × (nic.host_dev_name ≡ o.tap_device)
      × (nic.mac_address ≡ o.mac_address)
      × (nic.ip_addr ≡ net)
gateway_found-ok sdk o net none nic h = cc
gateway_found-ok sdk o net (some gateway) nic h =
    let e = ok_inj _ refl h in
    (
      gateway,
      refl,
      ap (λ n. n.gateway) (sym e),
      ap (λ n. n.host_dev_name) (sym e),
      ap (λ n. n.mac_address) (sym e),
      ap (λ n. n.ip_addr) (sym e),
    )

networked-Configured :
    (sdk : Sdk) (given o : RunOptions) (uid vm_id : String) (c : FcConfig)
    → apply_defaults sdk.launch given ≡ ok o
    → sdk.fc_id ≡ ok vm_id
    → (o.tap_device == "") ≡ false
    → networked sdk o (base_config sdk o uid vm_id) ≡ ok c
    → Configured sdk given c
unfolding networked build_network_interface
networked-Configured sdk given o uid vm_id c d i n h =
    let (nic, h₁, h₂) =
      >>=-ok (with_error "network config" (build_network_interface sdk o)) _ c h in
    let (net, h₃, h₄) =
      >>=-ok
        (with_error (str_append "parse guest CIDR " (sdk.quote o.guest_cidr))
          (sdk.parse_cidr o.guest_cidr))
        _ nic (with_error-ok "network config" _ nic h₁) in
    let (gateway, h₅, g, tap, mac, ip) =
      gateway_found-ok sdk o net (sdk.parse_ip o.gateway_ip) nic h₄ in
    subst (Configured sdk given) (ok_inj _ refl h₂) (record {
      o = o;
      uid = uid;
      vm_id = vm_id;
      defaulted = d;
      same_id = i;
      wires =
          wired net gateway (record nic { allow_mmds = true }) n (with_error-ok _ _ net h₃) h₅ refl
            tap mac ip g refl refl;
      rest = refl;
    })

chosen-Configured :
    (sdk : Sdk) (given o : RunOptions) (uid vm_id : String) (c : FcConfig) (b : Bool)
    → apply_defaults sdk.launch given ≡ ok o
    → sdk.fc_id ≡ ok vm_id
    → (o.tap_device == "") ≡ b
    → (if b
        then ok (base_config sdk o uid vm_id)
        else networked sdk o (base_config sdk o uid vm_id))
      ≡ ok c
    → Configured sdk given c
unfolding base_config
chosen-Configured sdk given o uid vm_id c true d i e h =
    subst (Configured sdk given) (ok_inj _ refl h) (record {
      o = o;
      uid = uid;
      vm_id = vm_id;
      defaulted = d;
      same_id = i;
      wires = unwired ((eq_iff o.tap_device "").0 e) refl;
      rest = refl;
    })
chosen-Configured sdk given o uid vm_id c false d i e h =
    networked-Configured sdk given o uid vm_id c d i e h

pub fc_config-Configured :
    (sdk : Sdk) (given : RunOptions) (c : FcConfig)
    → fc_config sdk given ≡ ok c
    → Configured sdk given c
unfolding fc_config
fc_config-Configured sdk given c h =
    let (o, h₁, h₂) = >>=-ok (apply_defaults sdk.launch given) _ c h in
    let (uid, h₃, h₄) = >>=-ok sdk.log_id _ c h₂ in
    let (vm_id, h₅, h₆) = >>=-ok sdk.fc_id _ c h₄ in
    chosen-Configured sdk given o uid vm_id c (o.tap_device == "") h₁ h₅ refl h₆
