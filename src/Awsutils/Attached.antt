-- ===== src/Awsutils/Attached.antt =====
-- pkg/awsutils/awsutils.go: what GetAttachedENIs makes of the metadata service's answers.
use amazon_vpc_cni_k8s.Prelude.{
  ℤ, pos, ◌≤ℤ◌, ◌+ℤ◌, String, ◌≡◌, ◌≢◌, refl, ◌↔◌, Option, none, some, List, [], ◌∷◌, map, arith,
  All, fields, fields-named, parse_int,
}
use mathlib.Core.Path.{subst, ap₂}
use amazon_vpc_cni_k8s.Prelude.Actions.{>>=-ok}
use amazon_vpc_cni_k8s.Awsutils.{
  Cache, Ec2, EniMetadata, ok, pure, must, fail, parsed, before_slash, metadata_mac_path, of_mac,
  get_eni_device_number, get_ips_and_cidr, get_eni_metadata, enis_of, get_attached_enis,
}

parsed_ok : {W : Type 0} (o : Option ℤ) (n : ℤ) (w : W) → (parsed o w).0 ≡ ok n → o ≡ some n
unfolding parsed pure fail
parsed_ok none n w h = cc
parsed_ok (some m) n w h = ground arith

module _ {W : Type 0} (ec2 : Ec2 W) (cache : Cache) where
  ips_lem :
      (eni_mac : String) (w : W) (r : List String × String)
      → (get_ips_and_cidr ec2 eni_mac w).0 ≡ ok r
      → All (λ ip. ip ≢ "") r.0
  unfolding get_ips_and_cidr pure
  ips_lem eni_mac w r h =
      let (cidr, c, h1) = >>=-ok _ _ _ _ h in
      let (ipv4s, i, h2) = >>=-ok _ _ _ _ h1 in
      let e : (fields ipv4s, cidr) ≡ r = ground arith in
      subst (λ (q : List String × String). All (λ ip. ip ≢ "") q.0) e (fields-named ipv4s)

  metadata_lem :
      (mac_str : String) (w : W) (m : EniMetadata)
      → (get_eni_metadata ec2 cache mac_str w).0 ≡ ok m
      → (m.mac ≡ before_slash mac_str) × All (λ ip. ip ≢ "") m.local_ipv4s
  unfolding get_eni_metadata pure
  metadata_lem mac_str w m h =
      let (device, d, h1) = >>=-ok _ _ _ _ h in
      let (ips, i, h2) = >>=-ok _ _ _ _ h1 in
      let named = ips_lem (before_slash mac_str) _ ips i in
      let e : ips.0 ≡ m.local_ipv4s = ground arith in
      (ground arith, subst (λ l. All (λ ip. ip ≢ "") l) e named)

  enis_of_lem :
      (macs : List String) (w : W) (enis : List EniMetadata)
      → (enis_of ec2 cache macs w).0 ≡ ok enis
      → (map (λ m. m.mac) enis ≡ map before_slash macs)
        × All (λ m. All (λ ip. ip ≢ "") m.local_ipv4s) enis
  unfolding enis_of pure
  enis_of_lem [] w enis h =
      let e : [] ≡ enis = ground arith in
      subst (λ l. (map (λ m. m.mac) l ≡ []) × All (λ m. All (λ ip. ip ≢ "") m.local_ipv4s) l) e
        (refl, tt)
  enis_of_lem (mac_str ∷ macs) w enis h =
      let (m, first, h1) = >>=-ok _ _ _ _ h in
      let (ms, others, h2) = >>=-ok _ _ _ _ h1 in
      let (same_mac, named) = metadata_lem mac_str w m first in
      let (same_macs, all_named) = enis_of_lem macs _ ms others in
      let e : (m ∷ ms) ≡ enis = ground arith in
      subst
        (λ l.
          (map (λ m. m.mac) l ≡ map before_slash (mac_str ∷ macs))
          × All (λ m. All (λ ip. ip ≢ "") m.local_ipv4s) l)
        e (ap₂ ◌∷◌ same_mac same_macs, (named, all_named))

  -- When `GetAttachedENIs` succeeds, it answers one ENI for each interface that the metadata service
  -- lists, in this order and with the MAC address that the list gives, and no address of theirs is
  -- the empty string.
  pub get_attached_enis_lem :
      (w : W) (enis : List EniMetadata)
      → (get_attached_enis ec2 cache w).0 ≡ ok enis
      → (macs : String) × ((ec2.get_metadata metadata_mac_path w).0 ≡ some macs)
        × (map (λ m. m.mac) enis ≡ map before_slash (fields macs))
        × All (λ m. All (λ ip. ip ≢ "") m.local_ipv4s) enis
  unfolding get_attached_enis must
  get_attached_enis_lem w enis h =
      let (macs, listed, h1) = >>=-ok _ _ _ _ h in
      let found : (ec2.get_metadata metadata_mac_path w).0 ≡ some macs = ground arith in
      let (same_macs, named) = enis_of_lem (fields macs) _ enis h1 in
      (macs, found, same_macs, named)

  -- The device number that `getENIDeviceNumber` answers is 0 exactly for the primary ENI, unless the
  -- metadata service gives a negative number for a device.
  pub device_number_zero_iff :
      (eni_mac : String) (w : W) (r : String × ℤ)
      → ((text : String) (n : ℤ)
          → parse_int 32 text ≡ some n
          → (of_mac ec2 eni_mac "/device-number/" w).0 ≡ ok text
          → pos 0 ≤ℤ n)
      → (get_eni_device_number ec2 cache eni_mac w).0 ≡ ok r
      → (r.1 ≡ pos 0) ↔ (r.0 ≡ cache.primary_eni)
  unfolding get_eni_device_number pure parsed ◌+ℤ◌ fail
  device_number_zero_iff eni_mac w r nonneg h =
      let (text, read, h1) = >>=-ok _ _ _ _ h in
      let (n, parse, h2) = >>=-ok _ _ _ _ h1 in
      let (eni, name, h3) = >>=-ok _ _ _ _ h2 in
      let e = parsed_ok (parse_int 32 text) n _ parse in
      let low = nonneg text n e read in ground arith
