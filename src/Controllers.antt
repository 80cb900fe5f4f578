-- ===== src/Controllers.antt =====
-- controllers/: the reconcilers, each as a function from what it reads and the state before to its
-- result and the state after.
pub mod RatioReconciler
pub mod OrganizationRbac
pub mod GroupSync
pub mod ZoneVersion
pub mod ProfileApply
pub mod LegacyQuota
pub mod UserAttributeSync
pub mod ProfileSync
pub mod ClusterSource
pub mod QuotaTransformer
