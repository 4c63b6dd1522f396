-- ===== src/Reconcile/Desired/Admitted.antt =====
-- internal/reconcile/mac.go: after a pass, the MACs that are live are those of the admitted ports.
use native.Mathlib.Decide.{ℕ_discrete}
use lachesis.Base.{
  ℕ, ◌≡◌, refl, sym, String, Bool, false, Option, none, some, [], Bool-cases, inl, inr,
}
use lachesis.Base.Among.{Among, for_each_induction}
use lachesis.Base.GoMap.{GoMap, get, Distinct, put-Distinct}
use lachesis.Base.GoMap.Range.{AllRows, AllRows-put, AllRows-found}
use lachesis.Bpf.{Mac, mac_key}
use lachesis.Metadata.{TenantMeta}
use lachesis.Neutron.{Netip, Port, Snapshot}
use lachesis.Reconcile.Desired.{record_mac, is_skipped, attribution_of, add_desired, desired_macs}

module _ (ip : Netip) (equal_fold : String → String → Bool) (snap : Snapshot) where
  -- A VM port with a project has the MAC and this attribution.
  pub record IsAdmitted (mac : ℕ) (meta : TenantMeta) : Type 0 where
    pub port : Port
    pub there : Among port snap.ports
    pub admitted : is_skipped port ≡ false
    pub hw : Mac
    pub parses : ip.parse_mac port.mac_address ≡ some hw
    pub key : mac_key hw ≡ mac
    pub attributed : meta ≡ attribution_of ip equal_fold snap port

  abbrev Wanted : GoMap ℕ TenantMeta → Type 0
  Wanted m = AllRows IsAdmitted m × Distinct ℕ_discrete m

  record_mac-Wanted :
      (p : Port) (hw : Option Mac) (m : GoMap ℕ TenantMeta)
      → Among p snap.ports
      → is_skipped p ≡ false
      → ip.parse_mac p.mac_address ≡ hw
      → Wanted m
      → Wanted (record_mac hw (attribution_of ip equal_fold snap p) m)
  record_mac-Wanted p none m there admitted parses h = h
  record_mac-Wanted p (some hw) m there admitted parses h = (
    AllRows-put ℕ_discrete IsAdmitted m (mac_key hw) (attribution_of ip equal_fold snap p) h.0
        (λ j own. record {
          port = p;
          there = there;
          admitted = admitted;
          hw = hw;
          parses = parses;
          key = sym own;
          attributed = refl;
        }),
    put-Distinct ℕ_discrete m (mac_key hw) (attribution_of ip equal_fold snap p) h.1,
  )

  add_desired-Wanted :
      (p : Port) (m : GoMap ℕ TenantMeta)
      → Among p snap.ports
      → Wanted m
      → Wanted (add_desired ip equal_fold snap p m)
  add_desired-Wanted p m there h = elim (Bool-cases (is_skipped p)) [
    | inl skipped ↦ rw skipped h
    | inr admitted ↦
        rw admitted (record_mac-Wanted p (ip.parse_mac p.mac_address) m there admitted refl h)
  ]

  desired_macs-Wanted : Wanted (desired_macs ip equal_fold snap)
  unfolding desired_macs
  desired_macs-Wanted =
      for_each_induction Wanted (add_desired ip equal_fold snap) snap.ports [] add_desired-Wanted
        (tt, tt)

  -- No MAC is wanted twice, and what is wanted for a MAC is the attribution of an admitted port.
  pub desired_macs-Distinct : Distinct ℕ_discrete (desired_macs ip equal_fold snap)
  desired_macs-Distinct = desired_macs-Wanted.1

  pub desired_macs-IsAdmitted :
      (mac : ℕ) (meta : TenantMeta)
      → get ℕ_discrete (desired_macs ip equal_fold snap) mac ≡ some meta
      → IsAdmitted mac meta
  desired_macs-IsAdmitted mac meta =
      AllRows-found ℕ_discrete IsAdmitted (desired_macs ip equal_fold snap) mac meta
        desired_macs-Wanted.0
