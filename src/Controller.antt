-- ===== src/Controller.antt =====
-- The controllers (pkg/controller): `PodGroupSync` is podgroup.go, `Progress` and `Requeue` its
-- proofs; `ElasticQuotaSync` is elasticquota.go, `QuotaSum` and `QuotaUse` its proofs.
pub mod PodGroupSync
pub mod ElasticQuotaSync
pub mod QuotaSum
pub mod QuotaUse
pub mod Progress
pub mod Requeue
pub mod Tests
pub mod QuotaTests
