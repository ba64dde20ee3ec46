-- ===== src/Awsutils/Ips.antt =====
-- pkg/awsutils/vpc_ip_resource_limit.go: InstanceIPsAvailable: the addresses of an interface of each instance type, its own address
-- among them.
use amazon_vpc_cni_k8s.Prelude.{ℕ, String, Dict, [], ◌∷◌, ◌++◌}

-- The types from a1 to m3.
unfoldable pub instance_ips_to_m3 : Dict String ℕ
instance_ips_to_m3 =
    ("a1.medium", 4)
    ∷ ("a1.large", 10)
    ∷ ("a1.xlarge", 15)
    ∷ ("a1.2xlarge", 15)
    ∷ ("a1.4xlarge", 30)
    ∷ ("c1.medium", 6)
    ∷ ("c1.xlarge", 15)
    ∷ ("c3.large", 10)
    ∷ ("c3.xlarge", 15)
    ∷ ("c3.2xlarge", 15)
    ∷ ("c3.4xlarge", 30)
    ∷ ("c3.8xlarge", 30)
    ∷ ("c4.large", 10)
    ∷ ("c4.xlarge", 15)
    ∷ ("c4.2xlarge", 15)
    ∷ ("c4.4xlarge", 30)
    ∷ ("c4.8xlarge", 30)
    ∷ ("c5.large", 10)
    ∷ ("c5.xlarge", 15)
    ∷ ("c5.2xlarge", 15)
    ∷ ("c5.4xlarge", 30)
    ∷ ("c5.9xlarge", 30)
    ∷ ("c5.12xlarge", 30)
    ∷ ("c5.18xlarge", 50)
    ∷ ("c5.24xlarge", 50)
    ∷ ("c5.metal", 50)
    ∷ ("c5d.large", 10)
    ∷ ("c5d.xlarge", 15)
    ∷ ("c5d.2xlarge", 15)
    ∷ ("c5d.4xlarge", 30)
    ∷ ("c5d.9xlarge", 30)
    ∷ ("c5d.18xlarge", 31)
    ∷ ("c5n.large", 10)
    ∷ ("c5n.xlarge", 15)
    ∷ ("c5n.2xlarge", 15)
    ∷ ("c5n.4xlarge", 30)
    ∷ ("c5n.9xlarge", 30)
    ∷ ("c5n.18xlarge", 50)
    ∷ ("cc2.8xlarge", 30)
    ∷ ("cr1.8xlarge", 30)
    ∷ ("d2.xlarge", 15)
    ∷ ("d2.2xlarge", 15)
    ∷ ("d2.4xlarge", 30)
    ∷ ("d2.8xlarge", 30)
    ∷ ("f1.2xlarge", 15)
    ∷ ("f1.4xlarge", 30)
    ∷ ("f1.16xlarge", 31)
    ∷ ("g2.2xlarge", 15)
    ∷ ("g2.8xlarge", 30)
    ∷ ("g3s.xlarge", 15)
    ∷ ("g3.4xlarge", 30)
    ∷ ("g3.8xlarge", 30)
    ∷ ("g3.16xlarge", 31)
    ∷ ("h1.2xlarge", 15)
    ∷ ("h1.4xlarge", 30)
    ∷ ("h1.8xlarge", 30)
    ∷ ("h1.16xlarge", 31)
    ∷ ("hs1.8xlarge", 30)
    ∷ ("i2.xlarge", 15)
    ∷ ("i2.2xlarge", 15)
    ∷ ("i2.4xlarge", 30)
    ∷ ("i2.8xlarge", 30)
    ∷ ("i3.large", 10)
    ∷ ("i3.xlarge", 15)
    ∷ ("i3.2xlarge", 15)
    ∷ ("i3.4xlarge", 30)
    ∷ ("i3.8xlarge", 30)
    ∷ ("i3.16xlarge", 31)
    ∷ ("i3.metal", 50)
    ∷ ("i3en.large", 10)
    ∷ ("i3en.xlarge", 15)
    ∷ ("i3en.2xlarge", 15)
    ∷ ("i3en.3xlarge", 15)
    ∷ ("i3en.6xlarge", 30)
    ∷ ("i3en.12xlarge", 30)
    ∷ ("i3en.24xlarge", 50)
    ∷ ("m1.small", 4)
    ∷ ("m1.medium", 6)
    ∷ ("m1.large", 10)
    ∷ ("m1.xlarge", 15)
    ∷ ("m2.xlarge", 15)
    ∷ ("m2.2xlarge", 30)
    ∷ ("m2.4xlarge", 30)
    ∷ ("m3.medium", 6)
    ∷ ("m3.large", 10)
    ∷ ("m3.xlarge", 15)
    ∷ ("m3.2xlarge", 30)
    ∷ []

-- The types from m4 to z1d.
unfoldable pub instance_ips_from_m4 : Dict String ℕ
instance_ips_from_m4 =
    ("m4.large", 10)
    ∷ ("m4.xlarge", 15)
    ∷ ("m4.2xlarge", 15)
    ∷ ("m4.4xlarge", 30)
    ∷ ("m4.10xlarge", 30)
    ∷ ("m4.16xlarge", 30)
    ∷ ("m5.large", 10)
    ∷ ("m5.xlarge", 15)
    ∷ ("m5.2xlarge", 15)
    ∷ ("m5.4xlarge", 30)
    ∷ ("m5.8xlarge", 30)
    ∷ ("m5.12xlarge", 30)
    ∷ ("m5.16xlarge", 50)
    ∷ ("m5.24xlarge", 50)
    ∷ ("m5.metal", 50)
    ∷ ("m5a.large", 10)
    ∷ ("m5a.xlarge", 15)
    ∷ ("m5a.2xlarge", 15)
    ∷ ("m5a.4xlarge", 30)
    ∷ ("m5a.8xlarge", 30)
    ∷ ("m5a.12xlarge", 30)
    ∷ ("m5a.16xlarge", 50)
    ∷ ("m5a.24xlarge", 50)
    ∷ ("m5ad.large", 10)
    ∷ ("m5ad.xlarge", 15)
    ∷ ("m5ad.2xlarge", 15)
    ∷ ("m5ad.4xlarge", 30)
    ∷ ("m5ad.12xlarge", 30)
    ∷ ("m5ad.24xlarge", 50)
    ∷ ("m5d.large", 10)
    ∷ ("m5d.xlarge", 15)
    ∷ ("m5d.2xlarge", 15)
    ∷ ("m5d.4xlarge", 30)
    ∷ ("m5d.8xlarge", 30)
    ∷ ("m5d.12xlarge", 30)
    ∷ ("m5d.16xlarge", 50)
    ∷ ("m5d.24xlarge", 50)
    ∷ ("m5d.metal", 50)
    ∷ ("p2.xlarge", 15)
    ∷ ("p2.8xlarge", 30)
    ∷ ("p2.16xlarge", 30)
    ∷ ("p3.2xlarge", 15)
    ∷ ("p3.8xlarge", 30)
    ∷ ("p3.16xlarge", 30)
    ∷ ("p3dn.24xlarge", 50)
    ∷ ("r3.large", 10)
    ∷ ("r3.xlarge", 15)
    ∷ ("r3.2xlarge", 15)
    ∷ ("r3.4xlarge", 30)
    ∷ ("r3.8xlarge", 30)
    ∷ ("r4.large", 10)
    ∷ ("r4.xlarge", 15)
    ∷ ("r4.2xlarge", 15)
    ∷ ("r4.4xlarge", 30)
    ∷ ("r4.8xlarge", 30)
    ∷ ("r4.16xlarge", 31)
    ∷ ("r5.large", 10)
    ∷ ("r5.xlarge", 15)
    ∷ ("r5.2xlarge", 15)
    ∷ ("r5.4xlarge", 30)
    ∷ ("r5.8xlarge", 30)
    ∷ ("r5.12xlarge", 30)
    ∷ ("r5.16xlarge", 50)
    ∷ ("r5.24xlarge", 50)
    ∷ ("r5.metal", 50)
    ∷ ("r5a.large", 10)
    ∷ ("r5a.xlarge", 15)
    ∷ ("r5a.2xlarge", 15)
    ∷ ("r5a.4xlarge", 30)
    ∷ ("r5a.8xlarge", 30)
    ∷ ("r5a.12xlarge", 30)
    ∷ ("r5a.16xlarge", 50)
    ∷ ("r5a.24xlarge", 50)
    ∷ ("r5ad.large", 10)
    ∷ ("r5ad.xlarge", 15)
    ∷ ("r5ad.2xlarge", 15)
    ∷ ("r5ad.4xlarge", 30)
    ∷ ("r5ad.12xlarge", 30)
    ∷ ("r5ad.24xlarge", 50)
    ∷ ("r5d.large", 10)
    ∷ ("r5d.xlarge", 15)
    ∷ ("r5d.2xlarge", 15)
    ∷ ("r5d.4xlarge", 30)
    ∷ ("r5d.8xlarge", 30)
    ∷ ("r5d.12xlarge", 30)
    ∷ ("r5d.16xlarge", 50)
    ∷ ("r5d.24xlarge", 50)
    ∷ ("r5d.metal", 50)
    ∷ ("t1.micro", 2)
    ∷ ("t2.nano", 2)
    ∷ ("t2.micro", 2)
    ∷ ("t2.small", 4)
    ∷ ("t2.medium", 6)
    ∷ ("t2.large", 12)
    ∷ ("t2.xlarge", 15)
    ∷ ("t2.2xlarge", 15)
    ∷ ("t3.nano", 2)
    ∷ ("t3.micro", 2)
    ∷ ("t3.small", 4)
    ∷ ("t3.medium", 6)
    ∷ ("t3.large", 12)
    ∷ ("t3.xlarge", 15)
    ∷ ("t3.2xlarge", 15)
    ∷ ("t3a.nano", 2)
    ∷ ("t3a.micro", 2)
    ∷ ("t3a.small", 4)
    ∷ ("t3a.medium", 6)
    ∷ ("t3a.large", 12)
    ∷ ("t3a.xlarge", 15)
    ∷ ("t3a.2xlarge", 15)
    ∷ ("u-6tb1.metal", 30)
    ∷ ("u-9tb1.metal", 30)
    ∷ ("u-12tb1.metal", 30)
    ∷ ("x1.16xlarge", 30)
    ∷ ("x1.32xlarge", 30)
    ∷ ("x1e.xlarge", 10)
    ∷ ("x1e.2xlarge", 15)
    ∷ ("x1e.4xlarge", 15)
    ∷ ("x1e.8xlarge", 15)
    ∷ ("x1e.16xlarge", 30)
    ∷ ("x1e.32xlarge", 30)
    ∷ ("z1d.large", 10)
    ∷ ("z1d.xlarge", 15)
    ∷ ("z1d.2xlarge", 15)
    ∷ ("z1d.3xlarge", 30)
    ∷ ("z1d.6xlarge", 30)
    ∷ ("z1d.12xlarge", 50)
    ∷ ("z1d.metal", 50)
    ∷ []

unfoldable pub instance_ips_available : Dict String ℕ
unfolding instance_ips_to_m3 instance_ips_from_m4
instance_ips_available = instance_ips_to_m3 ++ instance_ips_from_m4
