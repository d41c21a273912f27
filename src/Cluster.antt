-- ===== src/Cluster.antt =====
-- The mock cluster, causetstore/mockstore/mockeinsteindb/cluster.go and cluster_manipulate.go.
pub mod Region
pub mod Stores
pub mod Regions
pub mod SplitRange
