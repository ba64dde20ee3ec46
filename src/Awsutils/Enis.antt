-- ===== src/Awsutils/Enis.antt =====
-- pkg/awsutils/vpc_ip_resource_limit.go: InstanceENIsAvailable: the interfaces of each instance type.
use amazon_vpc_cni_k8s.Prelude.{ℕ, String, Dict, [], ◌∷◌, ◌++◌}

-- The types from a1 to m3.
unfoldable pub instance_enis_to_m3 : Dict String ℕ
instance_enis_to_m3 =
    ("a1.medium", 2)
    ∷ ("a1.large", 3)
    ∷ ("a1.xlarge", 4)
    ∷ ("a1.2xlarge", 4)
    ∷ ("a1.4xlarge", 8)
    ∷ ("c1.medium", 2)
    ∷ ("c1.xlarge", 4)
    ∷ ("c3.large", 3)
    ∷ ("c3.xlarge", 4)
    ∷ ("c3.2xlarge", 4)
    ∷ ("c3.4xlarge", 8)
    ∷ ("c3.8xlarge", 8)
    ∷ ("c4.large", 3)
    ∷ ("c4.xlarge", 4)
    ∷ ("c4.2xlarge", 4)
    ∷ ("c4.4xlarge", 8)
    ∷ ("c4.8xlarge", 8)
    ∷ ("c5.large", 3)
    ∷ ("c5.xlarge", 4)
    ∷ ("c5.2xlarge", 4)
    ∷ ("c5.4xlarge", 8)
    ∷ ("c5.9xlarge", 8)
    ∷ ("c5.12xlarge", 8)
    ∷ ("c5.18xlarge", 15)
    ∷ ("c5.24xlarge", 15)
    ∷ ("c5.metal", 15)
    ∷ ("c5d.large", 3)
    ∷ ("c5d.xlarge", 4)
    ∷ ("c5d.2xlarge", 4)
    ∷ ("c5d.4xlarge", 8)
    ∷ ("c5d.9xlarge", 8)
    ∷ ("c5d.18xlarge", 15)
    ∷ ("c5n.large", 3)
    ∷ ("c5n.xlarge", 4)
    ∷ ("c5n.2xlarge", 4)
    ∷ ("c5n.4xlarge", 8)
    ∷ ("c5n.9xlarge", 8)
    ∷ ("c5n.18xlarge", 15)
    ∷ ("cc2.8xlarge", 8)
    ∷ ("cr1.8xlarge", 8)
    ∷ ("d2.xlarge", 4)
    ∷ ("d2.2xlarge", 4)
    ∷ ("d2.4xlarge", 8)
    ∷ ("d2.8xlarge", 8)
    ∷ ("f1.2xlarge", 4)
    ∷ ("f1.4xlarge", 8)
    ∷ ("f1.16xlarge", 8)
    ∷ ("g2.2xlarge", 4)
    ∷ ("g2.8xlarge", 8)
    ∷ ("g3s.xlarge", 4)
    ∷ ("g3.4xlarge", 8)
    ∷ ("g3.8xlarge", 8)
    ∷ ("g3.16xlarge", 15)
    ∷ ("h1.2xlarge", 4)
    ∷ ("h1.4xlarge", 8)
    ∷ ("h1.8xlarge", 8)
    ∷ ("h1.16xlarge", 15)
    ∷ ("hs1.8xlarge", 8)
    ∷ ("i2.xlarge", 4)
    ∷ ("i2.2xlarge", 4)
    ∷ ("i2.4xlarge", 8)
    ∷ ("i2.8xlarge", 8)
    ∷ ("i3.large", 3)
    ∷ ("i3.xlarge", 4)
    ∷ ("i3.2xlarge", 4)
    ∷ ("i3.4xlarge", 8)
    ∷ ("i3.8xlarge", 8)
    ∷ ("i3.16xlarge", 15)
    ∷ ("i3.metal", 15)
    ∷ ("i3en.large", 3)
    ∷ ("i3en.xlarge", 4)
    ∷ ("i3en.2xlarge", 4)
    ∷ ("i3en.3xlarge", 4)
    ∷ ("i3en.6xlarge", 8)
    ∷ ("i3en.12xlarge", 8)
    ∷ ("i3en.24xlarge", 15)
    ∷ ("m1.small", 2)
    ∷ ("m1.medium", 2)
    ∷ ("m1.large", 3)
    ∷ ("m1.xlarge", 4)
    ∷ ("m2.xlarge", 4)
    ∷ ("m2.2xlarge", 4)
    ∷ ("m2.4xlarge", 8)
    ∷ ("m3.medium", 2)
    ∷ ("m3.large", 3)
    ∷ ("m3.xlarge", 4)
    ∷ ("m3.2xlarge", 4)
    ∷ []

-- The types from m4 to z1d.
unfoldable pub instance_enis_from_m4 : Dict String ℕ
instance_enis_from_m4 =
    ("m4.large", 2)
    ∷ ("m4.xlarge", 4)
    ∷ ("m4.2xlarge", 4)
    ∷ ("m4.4xlarge", 8)
    ∷ ("m4.10xlarge", 8)
    ∷ ("m4.16xlarge", 8)
    ∷ ("m5.large", 3)
    ∷ ("m5.xlarge", 4)
    ∷ ("m5.2xlarge", 4)
    ∷ ("m5.4xlarge", 8)
    ∷ ("m5.8xlarge", 8)
    ∷ ("m5.12xlarge", 8)
    ∷ ("m5.16xlarge", 15)
    ∷ ("m5.24xlarge", 15)
    ∷ ("m5.metal", 15)
    ∷ ("m5a.large", 3)
    ∷ ("m5a.xlarge", 4)
    ∷ ("m5a.2xlarge", 4)
    ∷ ("m5a.4xlarge", 8)
    ∷ ("m5a.8xlarge", 8)
    ∷ ("m5a.12xlarge", 8)
    ∷ ("m5a.16xlarge", 15)
    ∷ ("m5a.24xlarge", 15)
    ∷ ("m5ad.large", 3)
    ∷ ("m5ad.xlarge", 4)
    ∷ ("m5ad.2xlarge", 4)
    ∷ ("m5ad.4xlarge", 8)
    ∷ ("m5ad.12xlarge", 8)
    ∷ ("m5ad.24xlarge", 15)
    ∷ ("m5d.large", 3)
    ∷ ("m5d.xlarge", 4)
    ∷ ("m5d.2xlarge", 4)
    ∷ ("m5d.4xlarge", 8)
    ∷ ("m5d.8xlarge", 8)
    ∷ ("m5d.12xlarge", 8)
    ∷ ("m5d.16xlarge", 15)
    ∷ ("m5d.24xlarge", 15)
    ∷ ("m5d.metal", 15)
    ∷ ("p2.xlarge", 4)
    ∷ ("p2.8xlarge", 8)
    ∷ ("p2.16xlarge", 8)
    ∷ ("p3.2xlarge", 4)
    ∷ ("p3.8xlarge", 8)
    ∷ ("p3.16xlarge", 8)
    ∷ ("p3dn.24xlarge", 15)
    ∷ ("r3.large", 3)
    ∷ ("r3.xlarge", 4)
    ∷ ("r3.2xlarge", 4)
    ∷ ("r3.4xlarge", 8)
    ∷ ("r3.8xlarge", 8)
    ∷ ("r4.large", 3)
    ∷ ("r4.xlarge", 4)
    ∷ ("r4.2xlarge", 4)
    ∷ ("r4.4xlarge", 8)
    ∷ ("r4.8xlarge", 8)
    ∷ ("r4.16xlarge", 15)
    ∷ ("r5.large", 3)
    ∷ ("r5.xlarge", 4)
    ∷ ("r5.2xlarge", 4)
    ∷ ("r5.4xlarge", 8)
    ∷ ("r5.8xlarge", 8)
    ∷ ("r5.12xlarge", 8)
    ∷ ("r5.16xlarge", 15)
    ∷ ("r5.24xlarge", 15)
    ∷ ("r5.metal", 15)
    ∷ ("r5a.large", 3)
    ∷ ("r5a.xlarge", 4)
    ∷ ("r5a.2xlarge", 4)
    ∷ ("r5a.4xlarge", 8)
    ∷ ("r5a.8xlarge", 8)
    ∷ ("r5a.12xlarge", 8)
    ∷ ("r5a.16xlarge", 15)
    ∷ ("r5a.24xlarge", 15)
    ∷ ("r5ad.large", 3)
    ∷ ("r5ad.xlarge", 4)
    ∷ ("r5ad.2xlarge", 4)
    ∷ ("r5ad.4xlarge", 8)
    ∷ ("r5ad.12xlarge", 8)
    ∷ ("r5ad.24xlarge", 15)
    ∷ ("r5d.large", 3)
    ∷ ("r5d.xlarge", 4)
    ∷ ("r5d.2xlarge", 4)
    ∷ ("r5d.4xlarge", 8)
    ∷ ("r5d.8xlarge", 8)
    ∷ ("r5d.12xlarge", 8)
    ∷ ("r5d.16xlarge", 15)
    ∷ ("r5d.24xlarge", 15)
    ∷ ("r5d.metal", 15)
    ∷ ("t1.micro", 2)
    ∷ ("t2.nano", 2)
    ∷ ("t2.micro", 2)
    ∷ ("t2.small", 3)
    ∷ ("t2.medium", 3)
    ∷ ("t2.large", 3)
    ∷ ("t2.xlarge", 3)
    ∷ ("t2.2xlarge", 3)
    ∷ ("t3.nano", 2)
    ∷ ("t3.micro", 2)
    ∷ ("t3.small", 3)
    ∷ ("t3.medium", 3)
    ∷ ("t3.large", 3)
    ∷ ("t3.xlarge", 4)
    ∷ ("t3.2xlarge", 4)
    ∷ ("t3a.nano", 2)
    ∷ ("t3a.micro", 2)
    ∷ ("t3a.small", 2)
    ∷ ("t3a.medium", 3)
    ∷ ("t3a.large", 3)
    ∷ ("t3a.xlarge", 4)
    ∷ ("t3a.2xlarge", 4)
    ∷ ("u-6tb1.metal", 5)
    ∷ ("u-9tb1.metal", 5)
    ∷ ("u-12tb1.metal", 5)
    ∷ ("x1.16xlarge", 8)
    ∷ ("x1.32xlarge", 8)
    ∷ ("x1e.xlarge", 3)
    ∷ ("x1e.2xlarge", 4)
    ∷ ("x1e.4xlarge", 4)
    ∷ ("x1e.8xlarge", 4)
    ∷ ("x1e.16xlarge", 8)
    ∷ ("x1e.32xlarge", 8)
    ∷ ("z1d.large", 3)
    ∷ ("z1d.xlarge", 4)
    ∷ ("z1d.2xlarge", 4)
    ∷ ("z1d.3xlarge", 8)
    ∷ ("z1d.6xlarge", 8)
    ∷ ("z1d.12xlarge", 15)
    ∷ ("z1d.metal", 15)
    ∷ []

unfoldable pub instance_enis_available : Dict String ℕ
unfolding instance_enis_to_m3 instance_enis_from_m4
instance_enis_available = instance_enis_to_m3 ++ instance_enis_from_m4
